-- ===== src/Chunking/Overlap.antt =====
-- chunking/recursive.py: `_add_overlap` over consecutive windows.
use mathlib.Core.Path.{ap₂}
use mathlib.Core.List.{append-nil, append_assoc}
use doccontext.Base.{ℕ, suc, ◌-◌, ◌≤◌, ◌<◌, ◌≡◌, refl, sym, ap, ◌∙◌}
use doccontext.Base.{Option, none, some, List, [], ◌∷◌, ◌++◌, arith, length, get_last?, slice, Text}
use doccontext.Base.{length-append, length-slice}
use doccontext.Chunking.Defs.{
  Chunk, Window, Emitted, overlap_start, emit_chunk, overlap_loop, add_overlap,
  RecursiveCharacterChunker,
}
use doccontext.Chunking.Shape.{Tiles, Tiles-le, Covers}

-- The last chunk ends at `a`.
abbrev EndsAt : ℕ → Option Chunk → Type 0
EndsAt a none = Unit
EndsAt a (some c) = c.char_end ≡ a

get_last?-snoc {ℓ} : {A : Type ℓ} (xs : List A) (x : A) → get_last? (xs ++ x ∷ []) ≡ some x
get_last?-snoc [] x = refl
get_last?-snoc (y ∷ []) x = refl
get_last?-snoc (y ∷ z ∷ xs) x = get_last?-snoc (z ∷ xs) x

module _ (n o : ℕ) (text : Text) where
  -- The chunk that the loop makes of the window from `a` to `we`.
  abbrev next_chunk : ℕ → ℕ → ℕ → Chunk
  next_chunk i a we = record {
    text = slice (a - o) we text;
    chunk_index = i;
    char_start = a - o;
    char_end = we;
  }

  overlap_start_lem : (i a : ℕ) → (i ≡ 0 → a ≡ 0) → overlap_start o text i a a ≡ a - o
  unfolding overlap_start
  overlap_start_lem i a first = ground arith

  emit_chunk_lem :
      (a we : ℕ) (st : Emitted) (last : Option Chunk)
      → last ≡ get_last? st.out
      → EndsAt a last
      → a < we
      → we ≤ length text
      → emit_chunk o text (a - o) we st
        ≡ record { out = st.out ++ next_chunk (length st.out) a we ∷ []; prev_end = we }
  unfolding emit_chunk
  emit_chunk_lem a we st none e at lt le = ground (arith, length-slice (a - o) we text)
  emit_chunk_lem a we st (some c) e at lt le = ground (arith, length-slice (a - o) we text)

  overlap_loop-Covers :
      (i a b : ℕ) (windows : List Window) (st : Emitted)
      → Tiles n a b windows
      → b ≤ length text
      → (i ≡ 0 → a ≡ 0)
      → length st.out ≡ i
      → st.prev_end ≡ a
      → EndsAt a (get_last? st.out)
      → (chunks : List Chunk) × ((overlap_loop o text i windows st).out ≡ st.out ++ chunks)
        × Covers n o text i a b chunks
  unfolding overlap_loop
  overlap_loop-Covers i a b [] st tiles le first len prev at = ([], sym (append-nil st.out), tiles)
  overlap_loop-Covers i a b ((ws, we) ∷ windows) st tiles le first len prev at =
      let start : overlap_start o text i st.prev_end ws ≡ a - o =
        ap₂ (overlap_start o text i) prev tiles.0 ∙ overlap_start_lem i a first in
      let fits : we ≤ length text = omega (arith, Tiles-le n we b windows tiles.3) in
      let c : Chunk = next_chunk (length st.out) a we in
      let st' : Emitted = record { out = st.out ++ c ∷ []; prev_end = we } in
      let step : emit_chunk o text (overlap_start o text i st.prev_end ws) we st ≡ st' =
        ap (λ k. emit_chunk o text k we st) start
        ∙ emit_chunk_lem a we st (get_last? st.out) refl at (omega arith) fits in
      let (chunks, e, covers) =
        overlap_loop-Covers (suc i) we b windows st' tiles.3 le (λ z. absurd (omega arith))
          (omega (arith, length-append st.out (c ∷ []))) refl (rw get_last?-snoc refl) in
      (
        c ∷ chunks,
        ap (λ s. (overlap_loop o text (suc i) windows s).out) step
            ∙ e
            ∙ append_assoc st.out (c ∷ []) chunks,
        (len, refl, omega arith, omega arith, refl, covers),
      )

-- The chunks of consecutive windows of the whole text.
pub add_overlap-Covers :
    (c : RecursiveCharacterChunker) (n : ℕ) (windows : List Window) (text : Text)
    → Tiles n 0 (length text) windows
    → Covers n c.chunk_overlap text 0 0 (length text) (add_overlap c windows text)
unfolding add_overlap
add_overlap-Covers c n windows text tiles =
    let (chunks, e, covers) =
      overlap_loop-Covers n c.chunk_overlap text 0 0 (length text) windows
        (record { out = []; prev_end = 0 }) tiles (omega arith) (λ _. refl) refl refl tt in
    rw e covers
