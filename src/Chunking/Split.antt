-- ===== src/Chunking/Split.antt =====
-- chunking/recursive.py: the pieces of `_split_with_positions`.
use mathlib.Core.Option
use doccontext.Base.{ℕ, zero, suc, ◌+◌, ◌≤◌, ◌<◌, ◌≡◌, refl, true}
use doccontext.Base.{Option, none, some, List, [], ◌∷◌, ◌++◌, arith, inl, inr, Option-cases}
use doccontext.Base.{
  Text, find, find_bounds, length, is_empty, drop, slice, length-drop, length-slice,
}
use doccontext.Chunking.Defs.{Piece, enumerate_from, find_from, split_loop, split_with_positions}
use doccontext.Chunking.Shape.{Run, Run-append}

-- Each piece is one character.
abbrev pub Singles : List Piece → Type 0
Singles [] = Unit
Singles ((start, piece) ∷ pieces) = (length piece ≡ 1) × Singles pieces

enumerate_from-Run :
    (a i b : ℕ) (text : Text) → i ≡ a → a + length text ≡ b → Run a b (enumerate_from i text)
unfolding enumerate_from
enumerate_from-Run a i b [] e h = omega arith
enumerate_from-Run a i b (ch ∷ text) e h =
    (e, enumerate_from-Run (a + 1) (suc i) b text (omega arith) (omega arith))

enumerate_from-Singles : (i : ℕ) (text : Text) → Singles (enumerate_from i text)
unfolding enumerate_from
enumerate_from-Singles i [] = tt
enumerate_from-Singles i (ch ∷ text) = (refl, enumerate_from-Singles (suc i) text)

-- What `find(sep, start)` finds ends inside the text.
find_from_bounds :
    (text sep : Text) (start idx : ℕ)
    → start ≤ length text
    → find_from text sep start ≡ some idx
    → (start ≤ idx) × (idx + length sep ≤ length text)
unfolding find_from
find_from_bounds text sep start idx h e =
    found (find (drop start text) sep) (find_bounds (drop start text) sep) e
  where
    found :
        (o : Option ℕ)
        → ((i : ℕ) → o ≡ some i → i + length sep ≤ length (drop start text))
        → Option.map (λ i. start + i) o ≡ some idx
        → (start ≤ idx) × (idx + length sep ≤ length text)
    found none b e = cc
    found (some i) b e = ground (arith, b i refl, length-drop start text)

-- With enough fuel the loop returns, and its pieces run to the end of the text.
split_loop-Run :
    (fuel : ℕ) (text sep : Text) (start : ℕ) (pieces : List Piece)
    → 0 < length sep
    → start ≤ length text
    → length text < start + fuel
    → Run 0 start pieces
    → (result : List Piece) × (split_loop fuel text sep start pieces ≡ some result)
      × Run 0 (length text) result
unfolding split_loop
split_loop-Run zero text sep start pieces pos le enough run = absurd (omega arith)
split_loop-Run (suc fuel) text sep start pieces pos le enough run =
    elim (Option-cases (find_from text sep start)) [
      | inl e ↦ (
        pieces ++ (start, drop start text) ∷ [],
        rw (e, split_loop),
        Run-append 0 start (length text) pieces _ run (refl, omega (arith, length-drop start text)),
      )
      | inr (idx, e) ↦
          let b : (start ≤ idx) × (idx + length sep ≤ length text) =
            find_from_bounds text sep start idx le e in
          rw (e, split_loop)
            (split_loop-Run fuel text sep (idx + length sep)
              (pieces ++ (start, slice start (idx + length sep) text) ∷ []) pos b.1 (omega arith)
              (Run-append 0 start (idx + length sep) pieces _ run
                (refl, omega (arith, length-slice start (idx + length sep) text b.1))))
    ]

-- The split always returns consecutive pieces of the whole text; without a separator the pieces
-- are its characters.
pub split_with_positions-Run :
    (text sep : Text)
    → (pieces : List Piece) × (split_with_positions text sep ≡ some pieces)
      × Run 0 (length text) pieces
      × (is_empty sep ≡ true → Singles pieces)
unfolding split_with_positions
split_with_positions-Run text [] = (
  enumerate_from 0 text,
  refl,
  enumerate_from-Run 0 0 (length text) text refl (omega arith),
  λ _. enumerate_from-Singles 0 text,
)
split_with_positions-Run text (c ∷ sep) =
    let (pieces, e, run) =
      split_loop-Run (suc (length text)) text (c ∷ sep) 0 [] (omega arith) (omega arith)
        (omega arith) refl in
    (pieces, e, run, λ h. cc)
