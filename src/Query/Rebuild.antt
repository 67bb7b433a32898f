-- ===== src/Query/Rebuild.antt =====
-- services/query_service.py: `_assemble_documents` on the chunks of chunking/recursive.py.
use mathlib.Core.List.{flatten, Perm, cons-ne-nil}
use mathlib.Core.List.Perm
use mathlib.Core.Option.{some-injective}
use mathlib.Core.Path.{subst, ap₂}
use native.Mathlib.Nat.{ℕ_set}
use doccontext.Base.{ℕ, suc, ◌+◌, ◌-◌, ◌≤◌, ◌<◌, max, ◌≡◌, refl, sym, ap, ◌∙◌, some}
use doccontext.Base.{List, [], ◌∷◌, ◌++◌, arith, inl, inr, Bool-cases, leb, leb→le, Text, length}
use doccontext.Base.{slice, drop-slice, slice-append-slice, take_all, take, drop}
use doccontext.Base.Dict.{lookup}
use doccontext.Base.Sort.{sort_by-perm, sort_by-Increasing, Increasing, Increasing-DistinctKeys}
use doccontext.Models.{RetrievedChunk}
use doccontext.Chunking.Defs.{Chunk, RecursiveCharacterChunker, chunk}
use doccontext.Chunking.Shape.{Covers, Covers-le}
use doccontext.Chunking.Cover.{chunk-Covers}
use doccontext.Query.Documents.{tail_piece, pieces_from, document_text, assemble_documents}
use doccontext.Query.Grouping.{of_document, lookup-assemble_documents, text_of_chunks}

-- One step of the loop of `_assemble_documents`: it appends what lies behind the cursor.
piece-eq-slice :
    (text : Text) (cursor start end : ℕ)
    → start ≤ cursor
    → tail_piece cursor start (slice start end text) ≡ slice cursor end text
piece-eq-slice text cursor start end le = elim (Bool-cases (leb cursor start)) [
  | inl at ↦ rw at (
      ap (λ (k : ℕ). slice k end text)
        (let e : start ≡ cursor = omega (arith, leb→le cursor start at) in e))
  | inr behind ↦ rw behind (
      drop-slice (cursor - start) start end text
      ∙ ap (λ (k : ℕ). slice k end text)
          (let e : start + (cursor - start) ≡ cursor = omega arith in e))
]

module _ {F : Type 0} where
  -- A retrieved chunk has the text and the positions of a chunk of the chunker.
  abbrev pub IsCopy : Chunk → RetrievedChunk F → Type 0
  IsCopy c r =
      (r.chunk_index ≡ c.chunk_index)
      × (r.char_start ≡ c.char_start)
      × (r.char_end ≡ c.char_end)
      × (r.text ≡ c.text)

  abbrev pub AreCopies : List Chunk → List (RetrievedChunk F) → Type 0
  AreCopies [] [] = Unit
  AreCopies [] (r ∷ rs) = ⊥
  AreCopies (c ∷ cs) [] = ⊥
  AreCopies (c ∷ cs) (r ∷ rs) = IsCopy c r × AreCopies cs rs

  abbrev index : RetrievedChunk F → ℕ
  index r = r.chunk_index

  copies-Increasing :
      (n o : ℕ) (text : Text) (i a b : ℕ) (cs : List Chunk) (rs : List (RetrievedChunk F))
      → Covers n o text i a b cs
      → AreCopies cs rs
      → Increasing index i rs
  copies-Increasing n o text i a b [] [] h k = tt
  copies-Increasing n o text i a b [] (r ∷ rs) h k = absurd k
  copies-Increasing n o text i a b (c ∷ cs) [] h k = absurd k
  copies-Increasing n o text i a b (c ∷ cs) (r ∷ rs) h k = (
    omega arith,
    subst (λ (j : ℕ). Increasing index (suc j) rs) (let e : i ≡ r.chunk_index = omega arith in e)
        (copies-Increasing n o text (suc i) c.char_end b cs rs h.5 k.1),
  )

  pieces_from-eq-slice :
      (n o : ℕ) (text : Text) (i a b : ℕ) (cs : List Chunk) (rs : List (RetrievedChunk F))
      → Covers n o text i a b cs
      → AreCopies cs rs
      → b ≤ length text
      → flatten (pieces_from a rs) ≡ slice a b text
  unfolding pieces_from flatten
  pieces_from-eq-slice n o text i a b [] [] h k le =
      ap {A = ℕ} (λ m. take m (drop a text)) (let e : 0 ≡ b - a = omega arith in e)
  pieces_from-eq-slice n o text i a b [] (r ∷ rs) h k le = absurd k
  pieces_from-eq-slice n o text i a b (c ∷ cs) [] h k le = absurd k
  pieces_from-eq-slice n o text i a b (c ∷ cs) (r ∷ rs) h k le =
      let whole : c.char_end ≤ b = Covers-le n o text (suc i) c.char_end b cs h.5 in
      let cursor : max a r.char_end ≡ c.char_end = omega arith in
      let first : tail_piece a r.char_start r.text ≡ slice a c.char_end text =
        ap₂ (tail_piece a) k.0.1 (k.0.3 ∙ h.4)
        ∙ piece-eq-slice text a c.char_start c.char_end (omega arith) in
      let rest : flatten (pieces_from (max a r.char_end) rs) ≡ slice c.char_end b text =
        ap (λ (m : ℕ). flatten (pieces_from m rs)) cursor
        ∙ pieces_from-eq-slice n o text (suc i) c.char_end b cs rs h.5 k.1 le in
      ap₂ (λ s t. s ++ t) first rest ∙ slice-append-slice a c.char_end b text (omega arith) whole

  document_text_lem :
      (c : RecursiveCharacterChunker) (text : Text) (chunks : List Chunk)
      → Covers c.chunk_size c.chunk_overlap text 0 0 (length text) chunks
      → (copies rs : List (RetrievedChunk F)) → AreCopies chunks copies
      → Perm copies rs
      → document_text rs ≡ text
  unfolding document_text
  document_text_lem c text chunks h copies rs k p =
      let inc : Increasing index 0 copies =
        copies-Increasing c.chunk_size c.chunk_overlap text 0 0 (length text) chunks copies h k in
      sym (
        sort_by-perm index (λ l. flatten (pieces_from 0 l)) copies rs (hlevel ℕ_set) p
          (Increasing-DistinctKeys index 0 copies inc))
      ∙ ap (λ l. flatten (pieces_from 0 l)) (sort_by-Increasing index 0 copies inc)
      ∙ pieces_from-eq-slice c.chunk_size c.chunk_overlap text 0 0 (length text) chunks copies h k
          (omega arith)
      ∙ take_all (length text - 0) text (omega arith)

  text_of_chunks-perm :
      (copies rs : List (RetrievedChunk F))
      → Perm copies rs
      → 0 < length copies
      → text_of_chunks rs ≡ some (document_text rs)
  text_of_chunks-perm [] rs p pos = absurd (omega arith)
  text_of_chunks-perm (x ∷ copies) [] p pos = absurd (cons-ne-nil x copies (Perm.eq-nil p))
  text_of_chunks-perm (x ∷ copies) (r ∷ rs) p pos = refl

  copies-nonempty :
      (n o : ℕ) (text : Text) (b : ℕ) (cs : List Chunk) (rs : List (RetrievedChunk F))
      → Covers n o text 0 0 b cs
      → AreCopies cs rs
      → 0 < b
      → 0 < length rs
  copies-nonempty n o text b [] rs h k pos = absurd (omega arith)
  copies-nonempty n o text b (c ∷ cs) [] h k pos = absurd k
  copies-nonempty n o text b (c ∷ cs) (r ∷ rs) h k pos = omega arith

  -- The chunker and the reader of the whole-document route agree. If the chunks that a scan
  -- returned for a document `d`, among those of any other documents, are in some order copies of
  -- the chunks of a text that is not empty, then `_assemble_documents` gives `d` exactly that text,
  -- whatever the size, the overlap and the separators of the chunker were.
  pub assemble_documents-chunk :
      (c : RecursiveCharacterChunker) (text : Text) (chunks : List Chunk)
      → 0 < c.chunk_size
      → 0 < length text
      → chunk c text ≡ some chunks
      → (d : Text) (copies scanned : List (RetrievedChunk F)) → AreCopies chunks copies
      → Perm copies (of_document d scanned)
      → lookup d (assemble_documents scanned) ≡ some text
  assemble_documents-chunk c text chunks size pos e d copies scanned k p =
      let (chunks', e', covers') = chunk-Covers c text size in
      let same_chunks : chunks' ≡ chunks = some-injective chunks' chunks (sym e' ∙ e) in
      let covers : Covers c.chunk_size c.chunk_overlap text 0 0 (length text) chunks =
        subst (Covers c.chunk_size c.chunk_overlap text 0 0 (length text)) same_chunks covers' in
      lookup-assemble_documents d scanned
      ∙ text_of_chunks-perm copies (of_document d scanned) p (
          copies-nonempty c.chunk_size c.chunk_overlap text (length text) chunks copies covers k
            pos)
      ∙ ap some (document_text_lem c text chunks covers copies (of_document d scanned) k p)
