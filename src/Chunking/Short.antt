-- ===== src/Chunking/Short.antt =====
-- chunking/recursive.py: texts that are not longer than `chunk_size`.
use mathlib.Core.Path.{subst}
use doccontext.Base.{ℕ, suc, ◌+◌, ◌-◌, ◌≤◌, ◌<◌, ◌≡◌, refl, ap, sym, Option, none, some}
use doccontext.Base.{List, [], ◌∷◌, arith, Text, length}
use doccontext.Base.{take_all, take, ◌++◌}
use doccontext.Chunking.Defs.{
  Piece, Expand, Assembly, RecursiveCharacterChunker, add_piece, assemble_pieces, flush, no_windows,
  pick_separator, expand_oversized, build_windows, add_overlap, chunk_within, chunk, ChunkWith,
}
use doccontext.Chunking.Shape.{Run, Run-le}
use doccontext.Chunking.Split.{split_with_positions-Run}

-- No window is closed yet, and the current one holds the text up to `p`.
abbrev Growing : ℕ → Assembly → Option ℕ → Type 0
Growing p st none = (st.windows ≡ []) × (p ≡ 0)
Growing p st (some cur) =
    (st.windows ≡ []) × (cur ≡ 0) × (st.cur_end ≡ p) × (st.cur_len ≡ p) × (0 < p)

flush-Growing :
    (b : ℕ) (cur : Option ℕ) (st : Assembly) → Growing b st cur → 0 < b → flush cur st ≡ (0, b) ∷ []
unfolding flush
flush-Growing b none st g pos = absurd (omega arith)
flush-Growing b (some cur) st g pos = λ i. g.0 i ++ (g.1 i, g.2 i) ∷ []

module _ (n : ℕ) (expand : Expand) where
  abbrev Grows : ℕ → Option Assembly → Type 0
  Grows p r = (st : Assembly) × (r ≡ some st) × Growing p st st.cur_start

  add_piece-Grows :
      (start len : ℕ) (cur : Option ℕ) (st : Assembly)
      → Growing start st cur
      → cur ≡ st.cur_start
      → 0 < len
      → start + len ≤ n
      → Grows (start + len) (add_piece n expand start len cur st)
  unfolding add_piece
  add_piece-Grows start len none st g e pos le = (
    record { windows = st.windows; cur_start = some start; cur_end = start + len; cur_len = len },
    ground arith,
    (g.0, g.1, refl, omega arith, omega arith),
  )
  add_piece-Grows start len (some cur) st g e pos le = (
    record st { cur_end = start + len; cur_len = st.cur_len + len },
    ground arith,
    rw (← e) (g.0, g.1, refl, omega arith, omega arith),
  )

  assemble_pieces-Grows :
      (p b : ℕ) (pieces : List Piece) (st : Assembly)
      → Growing p st st.cur_start
      → Run p b pieces
      → b ≤ n
      → Grows b (assemble_pieces n expand pieces st)
  unfolding assemble_pieces
  assemble_pieces-Grows p b [] st g run le = (st, refl, rw (← run) g)
  assemble_pieces-Grows p b ((start, []) ∷ pieces) st g run le =
      assemble_pieces-Grows p b pieces st g
        (subst (λ q. Run q b pieces) (let e : p + 0 ≡ p = omega arith in e) run.1) le
  assemble_pieces-Grows p b ((start, ch ∷ piece) ∷ pieces) st g run le =
      let fits : p + length (ch ∷ piece) ≤ b = Run-le (p + length (ch ∷ piece)) b pieces run.1 in
      let (st', e, g') =
        add_piece-Grows start (length (ch ∷ piece)) st.cur_start st
          (subst (λ q. Growing q st st.cur_start) (sym run.0) g) refl (omega arith) (omega arith) in
      rw e (
        assemble_pieces-Grows (start + length (ch ∷ piece)) b pieces st' g'
          (subst (λ q. Run (q + length (ch ∷ piece)) b pieces) (sym run.0) run.1) le)

build_windows_short :
    (sub_chunk : ChunkWith) (c : RecursiveCharacterChunker) (text : Text)
    → 0 < length text
    → length text ≤ c.chunk_size
    → build_windows sub_chunk c text ≡ some ((0, length text) ∷ [])
unfolding build_windows
build_windows_short sub_chunk c text pos le =
    let sep = pick_separator c.separators text in
    let (pieces, split, run, singles) = split_with_positions-Run text sep in
    let (st, assembled, g) =
      assemble_pieces-Grows c.chunk_size (expand_oversized sub_chunk c text sep) 0 (length text)
        pieces no_windows (refl, refl) run le in
    rw (split, assembled) (ap some (flush-Growing (length text) st.cur_start st g pos))

add_overlap_single :
    (c : RecursiveCharacterChunker) (ch : ℕ) (text : Text)
    → add_overlap c ((0, length (ch ∷ text)) ∷ []) (ch ∷ text)
      ≡ record { text = ch ∷ text; chunk_index = 0; char_start = 0; char_end = length (ch ∷ text) }
        ∷ []
unfolding add_overlap
add_overlap_single c ch text =
    let whole : take (suc (length text) - 0) (ch ∷ text) ≡ ch ∷ text =
      take_all (suc (length text) - 0) (ch ∷ text) (omega arith) in
    ground arith

-- A text that is not empty and has at most `chunk_size` characters is returned as one chunk.
pub chunk_short :
    (c : RecursiveCharacterChunker) (text : Text)
    → 0 < length text
    → length text ≤ c.chunk_size
    → chunk c text
      ≡ some (record { text = text; chunk_index = 0; char_start = 0; char_end = length text } ∷ [])
unfolding chunk
chunk_short c [] pos le = absurd (omega arith)
chunk_short c (ch ∷ text) pos le =
    rw
      (build_windows_short (λ sub part. chunk_within (length c.separators) sub part) c (ch ∷ text)
        pos le)
      (ap some (add_overlap_single c ch text))
