-- ===== src/Chunking/Shape.antt =====
-- The shapes that the proofs about recursive.py speak of: pieces and windows that follow one
-- another without a gap, and chunks that cover a text.
use doccontext.Base.{ℕ, suc, ◌+◌, ◌-◌, ◌≤◌, ◌<◌, ◌≡◌, refl, ap, List, [], ◌∷◌, ◌++◌, Text, arith}
use doccontext.Base.{length, slice}
use doccontext.Chunking.Defs.{Chunk, Piece, Window, shift_windows}

-- The pieces are consecutive, from `a` to `b`, and none is longer than `m`.
abbrev pub Run : ℕ → ℕ → List Piece → Type 0
Run a b [] = a ≡ b
Run a b ((start, piece) ∷ pieces) = (start ≡ a) × Run (a + length piece) b pieces

-- The windows are consecutive, from `a` to `b`; each is not empty and has at most `n` characters.
abbrev pub Tiles : ℕ → ℕ → ℕ → List Window → Type 0
Tiles n a b [] = a ≡ b
Tiles n a b ((ws, we) ∷ windows) = (ws ≡ a) × (ws < we) × (we ≤ ws + n) × Tiles n we b windows

-- The chunks number `i`, `i + 1`, … of a text. Each holds at most `n` characters that the chunks
-- before it do not hold, from `a` on, and begins `o` characters before them (or at 0).
abbrev pub Covers : ℕ → ℕ → Text → ℕ → ℕ → ℕ → List Chunk → Type 0
Covers n o text i a b [] = a ≡ b
Covers n o text i a b (c ∷ chunks) =
    (c.chunk_index ≡ i)
    × (c.char_start ≡ a - o)
    × (a < c.char_end)
    × (c.char_end ≤ a + n)
    × (c.text ≡ slice c.char_start c.char_end text)
    × Covers n o text (suc i) c.char_end b chunks

pub Run-append : (a m b : ℕ) (ps qs : List Piece) → Run a m ps → Run m b qs → Run a b (ps ++ qs)
Run-append a m b [] qs p q = rw p q
Run-append a m b ((start, piece) ∷ ps) qs p q = (p.0, Run-append (a + length piece) m b ps qs p.1 q)

pub Run-le : (a b : ℕ) (ps : List Piece) → Run a b ps → a ≤ b
Run-le a b [] h = omega arith
Run-le a b ((start, piece) ∷ ps) h = omega (arith, Run-le (a + length piece) b ps h.1)

pub Tiles-append :
    (n a m b : ℕ) (ws vs : List Window) → Tiles n a m ws → Tiles n m b vs → Tiles n a b (ws ++ vs)
Tiles-append n a m b [] vs p q = rw p q
Tiles-append n a m b ((s, e) ∷ ws) vs p q = (p.0, p.1, p.2, Tiles-append n e m b ws vs p.3 q)

pub Tiles-le : (n a b : ℕ) (ws : List Window) → Tiles n a b ws → a ≤ b
Tiles-le n a b [] h = omega arith
Tiles-le n a b ((s, e) ∷ ws) h = omega (arith, Tiles-le n e b ws h.3)

-- One more window at the end.
pub Tiles-snoc :
    (n a s e : ℕ) (ws : List Window)
    → Tiles n a s ws
    → s < e
    → e ≤ s + n
    → Tiles n a e (ws ++ (s, e) ∷ [])
Tiles-snoc n a s e ws p lt le = Tiles-append n a s e ws ((s, e) ∷ []) p (refl, lt, le, refl)

-- Without overlap the chunks of a part of the text are windows of the whole.
pub Covers-shift_windows :
    (n s : ℕ) (text : Text) (i a b : ℕ) (chunks : List Chunk)
    → Covers n 0 text i a b chunks
    → Tiles n (s + a) (s + b) (shift_windows s chunks)
Covers-shift_windows n s text i a b [] h = ap (λ k. s + k) h
Covers-shift_windows n s text i a b (c ∷ chunks) h = (
  omega arith,
  omega arith,
  omega arith,
  Covers-shift_windows n s text (suc i) c.char_end b chunks h.5,
)

pub Covers-le :
    (n o : ℕ) (text : Text) (i a b : ℕ) (chunks : List Chunk) → Covers n o text i a b chunks → a ≤ b
Covers-le n o text i a b [] h = omega arith
Covers-le n o text i a b (c ∷ chunks) h =
    omega (arith, Covers-le n o text (suc i) c.char_end b chunks h.5)
