-- ===== src/Chunking/Cover.antt =====
-- chunking/recursive.py: `chunk` as a whole, against the text that it cuts.
use mathlib.Core.Path.{subst₂}
use doccontext.Base.{ℕ, zero, suc, ◌+◌, ◌≤◌, ◌<◌, ◌≡◌, refl, false}
use doccontext.Base.{Option, some, List, [], ◌∷◌, arith, length, is_empty, slice, Text}
use doccontext.Base.{length-slice, inl, inr, Bool-cases}
use doccontext.Base.Exn.{ok}
use doccontext.Base.Int.{pos}
use doccontext.Chunking.Defs.{
  Chunk, Piece, Window, RecursiveCharacterChunker, init, pick_separator, finer_separators,
  shift_windows, ChunkWith, expand_oversized, build_windows, flush, add_overlap, chunk_within,
  chunk,
}
use doccontext.Chunking.Shape.{Run, Run-le, Tiles, Covers, Covers-shift_windows}
use doccontext.Chunking.Split.{Singles, split_with_positions-Run}
use doccontext.Chunking.Windows.{Expands, Expandable, assemble-Tiles}
use doccontext.Chunking.Overlap.{add_overlap-Covers}
use doccontext.Chunking.Separators.{weight, weight-le-length, weight-finer}

-- The call returns chunks that cover the text.
abbrev pub ReturnsCover : RecursiveCharacterChunker → Text → Option (List Chunk) → Type 0
ReturnsCover c text result =
    (chunks : List Chunk) × (result ≡ some chunks)
    × Covers c.chunk_size c.chunk_overlap text 0 0 (length text) chunks

abbrev sub_chunker : RecursiveCharacterChunker → Text → RecursiveCharacterChunker
sub_chunker c parent_sep = record {
  chunk_size = c.chunk_size;
  chunk_overlap = 0;
  separators = finer_separators c.separators parent_sep;
}

init-sub_chunker :
    (c : RecursiveCharacterChunker) (parent_sep : Text)
    → 0 < c.chunk_size
    → init (pos c.chunk_size) (pos 0) (finer_separators c.separators parent_sep)
      ≡ ok (sub_chunker c parent_sep)
unfolding init
init-sub_chunker c parent_sep h = ground arith

module _ (sub_chunk : ChunkWith) (c : RecursiveCharacterChunker) (text : Text)
    (size : 0 < c.chunk_size)
    (sub_total : (sub : RecursiveCharacterChunker) (part : Text)
      → 0 < sub.chunk_size
      → weight sub.separators < weight c.separators
      → ReturnsCover sub part (sub_chunk sub part)) where
  abbrev sep : Text
  sep = pick_separator c.separators text

  expand-Expands :
      is_empty sep ≡ false
      → (s e : ℕ) → s ≤ e
      → e ≤ length text
      → Expands c.chunk_size (expand_oversized sub_chunk c text sep) s e
  unfolding expand_oversized
  expand-Expands full s e lt le =
      let (chunks, found, covers) =
        sub_total (sub_chunker c sep) (slice s e text) size (weight-finer c.separators text full) in
      (
        shift_windows s chunks,
        rw (init-sub_chunker c sep size, expand_oversized, found),
        subst₂ (λ a b. Tiles c.chunk_size a b (shift_windows s chunks))
            (let p : s + 0 ≡ s = omega arith in p)
            (let p : s + length (slice s e text) ≡ e = omega (arith, length-slice s e text le) in p)
            (Covers-shift_windows c.chunk_size s (slice s e text) 0 0 (length (slice s e text))
              chunks covers),
      )

  short-Expandable :
      (pieces : List Piece)
      → Singles pieces
      → Expandable c.chunk_size (expand_oversized sub_chunk c text sep) pieces
  short-Expandable [] h = tt
  short-Expandable ((start, piece) ∷ pieces) h =
      (λ big. absurd (omega arith), short-Expandable pieces h.1)

  long-Expandable :
      is_empty sep ≡ false
      → (a b : ℕ) (pieces : List Piece) → Run a b pieces
      → b ≤ length text
      → Expandable c.chunk_size (expand_oversized sub_chunk c text sep) pieces
  long-Expandable full a b [] run le = tt
  long-Expandable full a b ((start, piece) ∷ pieces) run le = (
    λ big.
        expand-Expands full start (start + length piece) (omega arith)
          (omega (arith, Run-le (a + length piece) b pieces run.1)),
    long-Expandable full (a + length piece) b pieces run.1 le,
  )

  build_windows-Tiles :
      (windows : List Window) × (build_windows sub_chunk c text ≡ some windows)
      × Tiles c.chunk_size 0 (length text) windows
  unfolding build_windows
  build_windows-Tiles =
      let (pieces, split, run, singles) = split_with_positions-Run text sep in
      let long : Expandable c.chunk_size (expand_oversized sub_chunk c text sep) pieces =
        elim (Bool-cases (is_empty sep)) [
          | inl short ↦ short-Expandable pieces (singles short)
          | inr full ↦ long-Expandable full 0 (length text) pieces run (omega arith)
        ] in
      let (st, assembled, tiles) =
        assemble-Tiles c.chunk_size (expand_oversized sub_chunk c text sep) (length text) pieces run
          long in
      (flush st.cur_start st, rw (split, assembled), tiles)

chunk_within-Covers :
    (fuel : ℕ) (c : RecursiveCharacterChunker) (text : Text)
    → 0 < c.chunk_size
    → weight c.separators < fuel
    → ReturnsCover c text (chunk_within fuel c text)
unfolding chunk_within
chunk_within-Covers zero c text size enough = absurd (omega arith)
chunk_within-Covers (suc fuel) c [] size enough = ([], refl, refl)
chunk_within-Covers (suc fuel) c (ch ∷ text) size enough =
    let (windows, built, tiles) =
      build_windows-Tiles (λ sub part. chunk_within fuel sub part) c (ch ∷ text) size
        λ sub part sub_size lighter. chunk_within-Covers fuel sub part sub_size (omega arith) in
    (
      add_overlap c windows (ch ∷ text),
      rw built,
      add_overlap-Covers c c.chunk_size windows (ch ∷ text) tiles,
    )

-- For every chunker with a positive size and every text, `chunk` returns: its loops end within the
-- fuel. The chunks are numbered from 0, each holds the text between its `char_start` and its
-- `char_end`, the ends advance by at least 1 and at most `chunk_size`, each chunk begins
-- `chunk_overlap` characters before the end of the one before it (but not before 0), the first
-- begins at 0 and the last ends at the end of the text. An empty text has no chunks.
pub chunk-Covers :
    (c : RecursiveCharacterChunker) (text : Text)
    → 0 < c.chunk_size
    → ReturnsCover c text (chunk c text)
unfolding chunk
chunk-Covers c text size =
    chunk_within-Covers (suc (length c.separators)) c text size
      (omega (arith, weight-le-length c.separators))
