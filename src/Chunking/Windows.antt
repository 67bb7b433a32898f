-- ===== src/Chunking/Windows.antt =====
-- chunking/recursive.py: the greedy assembly of windows in `_build_windows`.

use mathlib.Core.Path.{subst}
use doccontext.Base.{ℕ, ◌+◌, ◌≤◌, ◌<◌, ◌≡◌, refl, sym, Option, none, some}
use doccontext.Base.{List, [], ◌∷◌, ◌++◌, arith, inl, inr, Bool-cases, length, ltb, leb}
use doccontext.Base.{ltb→lt, leb→le, Text}
use doccontext.Chunking.Defs.{
  Piece, Window, Assembly, Expand, open_window, add_piece, assemble_step, assemble_pieces, flush,
  no_windows,
}
use doccontext.Chunking.Shape.{Run, Tiles, Tiles-append, Tiles-snoc}

-- The windows closed so far, and the current one, cover the text up to `p`.
abbrev pub Open : ℕ → ℕ → Assembly → Option ℕ → Type 0
Open n p st none = Tiles n 0 p st.windows
Open n p st (some cur) =
    Tiles n 0 cur st.windows
    × (cur + st.cur_len ≡ p)
    × (st.cur_end ≡ p)
    × (0 < st.cur_len)
    × (st.cur_len ≤ n)

module _ (n : ℕ) (expand : Expand) where
  -- The expansion of the range returns, and tiles it.
  abbrev pub Expands : ℕ → ℕ → Type 0
  Expands s e = (ws : List Window) × (expand s e ≡ some ws) × Tiles n s e ws

  -- Every piece that is too long for a window can be expanded.
  abbrev pub Expandable : List Piece → Type 0
  Expandable [] = Unit
  Expandable ((start, piece) ∷ pieces) =
      (n < length piece → Expands start (start + length piece)) × Expandable pieces

  -- A step returns a state that covers the text up to `p`.
  abbrev Steps : ℕ → Option Assembly → Type 0
  Steps p r = (st : Assembly) × (r ≡ some st) × Open n p st st.cur_start

  open_window-Steps :
      (start len : ℕ) (windows : List Window)
      → Tiles n 0 start windows
      → 0 < len
      → (n < len → Expands start (start + len))
      → Steps (start + len) (open_window n expand start len windows)
  unfolding open_window
  open_window-Steps start len windows tiles pos big = elim (Bool-cases (ltb n len)) [
    | inl e ↦
        let (ws, found, ts) = big (ltb→lt n len e) in
        (
          record { windows = windows ++ ws; cur_start = none; cur_end = 0; cur_len = 0 },
          rw (e, found),
          Tiles-append n 0 start (start + len) windows ws tiles ts,
        )
    | inr e ↦ (
      record { windows = windows; cur_start = some start; cur_end = start + len; cur_len = len },
      rw e,
      (tiles, refl, refl, pos, ground arith),
    )
  ]

  add_piece-Steps :
      (start len : ℕ) (cur : Option ℕ) (st : Assembly)
      → Open n start st cur
      → cur ≡ st.cur_start
      → 0 < len
      → (n < len → Expands start (start + len))
      → Steps (start + len) (add_piece n expand start len cur st)
  unfolding add_piece
  add_piece-Steps start len none st o e pos big = open_window-Steps start len st.windows o pos big
  add_piece-Steps start len (some cur) st o e pos big =
      elim (Bool-cases (leb (st.cur_len + len) n)) [
        | inl fits ↦ (
          record st { cur_end = start + len; cur_len = st.cur_len + len },
          rw fits,
          rw (← e) (o.0, omega arith, refl, omega arith, leb→le _ _ fits),
        )
        | inr full ↦ rw full (
            open_window-Steps start len (st.windows ++ (cur, st.cur_end) ∷ [])
              (subst (λ q. Tiles n 0 q (st.windows ++ (cur, st.cur_end) ∷ [])) o.2
                (Tiles-snoc n 0 cur st.cur_end st.windows o.0 (omega arith) (omega arith)))
              pos big)
      ]

  assemble_step-Steps :
      (start : ℕ) (piece : Text) (st : Assembly)
      → Open n start st st.cur_start
      → (n < length piece → Expands start (start + length piece))
      → Steps (start + length piece) (assemble_step n expand (start, piece) st)
  unfolding assemble_step
  assemble_step-Steps start [] st o big = (
    st,
    refl,
    subst (λ q. Open n q st st.cur_start) (let e : start ≡ start + 0 = omega arith in e) o,
  )
  assemble_step-Steps start (ch ∷ piece) st o big =
      add_piece-Steps start (length (ch ∷ piece)) st.cur_start st o refl (omega arith) big

  assemble_pieces-Steps :
      (p b : ℕ) (pieces : List Piece) (st : Assembly)
      → Open n p st st.cur_start
      → Run p b pieces
      → Expandable pieces
      → Steps b (assemble_pieces n expand pieces st)
  unfolding assemble_pieces
  assemble_pieces-Steps p b [] st o run big = (st, refl, rw (← run) o)
  assemble_pieces-Steps p b ((start, piece) ∷ pieces) st o run big =
      let (st', e, o') =
        assemble_step-Steps start piece st (subst (λ q. Open n q st st.cur_start) (sym run.0) o)
          big.0 in
      rw e (
        assemble_pieces-Steps (start + length piece) b pieces st' o'
          (subst (λ q. Run (q + length piece) b pieces) (sym run.0) run.1) big.1)

  flush-Tiles :
      (b : ℕ) (cur : Option ℕ) (st : Assembly) → Open n b st cur → Tiles n 0 b (flush cur st)
  unfolding flush
  flush-Tiles b none st o = o
  flush-Tiles b (some cur) st o =
      subst (λ q. Tiles n 0 q (st.windows ++ (cur, st.cur_end) ∷ [])) o.2
        (Tiles-snoc n 0 cur st.cur_end st.windows o.0 (omega arith) (omega arith))

  -- The loop and the last append, from the start of the text to its end.
  pub assemble-Tiles :
      (b : ℕ) (pieces : List Piece)
      → Run 0 b pieces
      → Expandable pieces
      → (st : Assembly) × (assemble_pieces n expand pieces no_windows ≡ some st)
        × Tiles n 0 b (flush st.cur_start st)
  assemble-Tiles b pieces run big =
      let (st, e, o) = assemble_pieces-Steps 0 b pieces no_windows refl run big in
      (st, e, flush-Tiles b st.cur_start st o)
