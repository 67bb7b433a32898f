-- ===== src/Chunking/Passages.antt =====
-- chunking/recursive.py: passages of the text, and the sizes of chunks.
use doccontext.Base.{ℕ, suc, ◌+◌, ◌-◌, ◌≤◌, ◌<◌, ◌≡◌, ap, ◌∙◌, List, [], ◌∷◌, arith, Text, length}
use doccontext.Base.{◌⊎◌, inl, inr, Bool-cases, leb, leb→le, length-slice, some}
use doccontext.Chunking.Defs.{Chunk, RecursiveCharacterChunker, chunk}
use doccontext.Chunking.Shape.{Covers, Covers-le}
use doccontext.Chunking.Cover.{chunk-Covers}

-- Some chunk of the list holds the characters from `p` up to `q`.
abbrev pub Holds : ℕ → ℕ → List Chunk → Type 0
Holds p q [] = ⊥
Holds p q (c ∷ chunks) = ((c.char_start ≤ p) × (q ≤ c.char_end)) ⊎ Holds p q chunks

Covers-Holds :
    (n o : ℕ) (text : Text) (i a b : ℕ) (chunks : List Chunk) (p q : ℕ)
    → Covers n o text i a b chunks
    → a < q
    → q ≤ b
    → q ≤ p + o + 1
    → Holds p q chunks
Covers-Holds n o text i a b [] p q h lt le short = omega arith
Covers-Holds n o text i a b (c ∷ chunks) p q h lt le short = elim (Bool-cases (leb q c.char_end)) [
  | inl here ↦ inl (omega arith, leb→le q c.char_end here)
  | inr later ↦
      inr (Covers-Holds n o text (suc i) c.char_end b chunks p q h.5 (ground arith) le short)
]

-- Every passage of the text of at most `chunk_overlap + 1` characters lies whole in one chunk.
pub chunk-Holds :
    (c : RecursiveCharacterChunker) (text : Text) (p q : ℕ)
    → 0 < c.chunk_size
    → p < q
    → q ≤ length text
    → q ≤ p + c.chunk_overlap + 1
    → (chunks : List Chunk) × (chunk c text ≡ some chunks) × Holds p q chunks
chunk-Holds c text p q size lt le short =
    let (chunks, e, covers) = chunk-Covers c text size in
    (
      chunks,
      e,
      Covers-Holds c.chunk_size c.chunk_overlap text 0 0 (length text) chunks p q covers
          (omega arith) le short,
    )

-- Every chunk is not empty and has at most `m` characters.
abbrev pub AllAtMost : ℕ → List Chunk → Type 0
AllAtMost m [] = Unit
AllAtMost m (c ∷ chunks) = (0 < length c.text) × (length c.text ≤ m) × AllAtMost m chunks

Covers-AllAtMost :
    (n o : ℕ) (text : Text) (i a b : ℕ) (chunks : List Chunk)
    → Covers n o text i a b chunks
    → b ≤ length text
    → AllAtMost (n + o) chunks
Covers-AllAtMost n o text i a b [] h le = tt
Covers-AllAtMost n o text i a b (c ∷ chunks) h le =
    let whole : c.char_end ≤ b = Covers-le n o text (suc i) c.char_end b chunks h.5 in
    let size : length c.text ≡ c.char_end - c.char_start =
      ap length h.4 ∙ length-slice c.char_start c.char_end text (omega arith) in
    (omega arith, omega arith, Covers-AllAtMost n o text (suc i) c.char_end b chunks h.5 le)

-- No chunk is empty, and none has more than `chunk_size + chunk_overlap` characters.
pub chunk-AllAtMost :
    (c : RecursiveCharacterChunker) (text : Text)
    → 0 < c.chunk_size
    → (chunks : List Chunk) × (chunk c text ≡ some chunks)
      × AllAtMost (c.chunk_size + c.chunk_overlap) chunks
chunk-AllAtMost c text size =
    let (chunks, e, covers) = chunk-Covers c text size in
    (
      chunks,
      e,
      Covers-AllAtMost c.chunk_size c.chunk_overlap text 0 0 (length text) chunks covers
          (omega arith),
    )
