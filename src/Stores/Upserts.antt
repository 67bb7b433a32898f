-- ===== src/Stores/Upserts.antt =====
-- vector_stores/qdrant.py: `upsert`, seen by a later scan.
use mathlib.Core.List.{Perm, Permᴰ, map-append, append-nil}
use mathlib.Core.List.Perm
use mathlib.Core.Path.{subst, ap₂}
use mathlib.Core.Logic.{∥∥₁_elim, ∥∥₁_prop}
use doccontext.Base.{ℕ, ◌≡◌, refl, ap, ◌∙◌, true, false, List, [], ◌∷◌, ◌++◌, arith}
use doccontext.Base.{◌<◌, length, Text, same, map, if◌then◌else◌, inl, inr, Bool-cases}
use doccontext.Base.Exn.{ok, Result-cases}
use doccontext.Models.{RetrievedChunk, StoredChunk}
use doccontext.Stores.Qdrant.{
  Point, Condition, QdrantClient, contains_text, point_of_chunk, chunk_of_point, upsert,
}
use doccontext.Stores.Scan.{is_there, IsScrollable}
use doccontext.Stores.Tenants.{meets}
use doccontext.Query.Grouping.{of_document}

-- No text is twice in the list.
abbrev pub AllDistinct : List Text → Type 0
AllDistinct [] = Unit
AllDistinct (t ∷ texts) = (contains_text texts t ≡ false) × AllDistinct texts

module _ {F : Type 0} where
  abbrev pub ids : List (Point F) → List Text
  ids = map (λ p. p.id)

  -- The points that meet the filter.
  abbrev pub met : List Condition → List (Point F) → List (Point F)
  met filt [] = []
  met filt (p ∷ points) = if meets p.payload filt then p ∷ met filt points else met filt points

  -- The points that have none of the ids.
  abbrev pub kept : List Text → List (Point F) → List (Point F)
  kept replaced [] = []
  kept replaced (p ∷ old) =
      if contains_text replaced p.id then kept replaced old else p ∷ kept replaced old

  -- What is assumed of `upsert`: it puts points with ids of their own into a collection that is
  -- there, and they replace the points that had these ids.
  pub record IsUpserting (C : QdrantClient F) (L : IsScrollable C) : Type 0 where
    pub upserted :
        (s t : C.State) (col : Text) (new : List (Point F)) (filt : List Condition)
        → AllDistinct (ids new)
        → C.upsert col new s ≡ (ok tt, t)
        → Perm (met filt new ++ kept (ids new) (L.listing s col filt)) (L.listing t col filt)
    pub upserted_there :
        (s t : C.State) (col : Text) (new : List (Point F))
        → C.upsert col new s ≡ (ok tt, t)
        → is_there C t col ≡ true

  of_document-append :
      (d : Text) (xs ys : List (RetrievedChunk F))
      → of_document d (xs ++ ys) ≡ of_document d xs ++ of_document d ys
  unfolding of_document
  of_document-append d [] ys = refl
  of_document-append d (x ∷ xs) ys = ground (arith, of_document-append d xs ys)

  of_document-cons :
      (d : Text) (c : RetrievedChunk F) (xs ys : List (RetrievedChunk F))
      → Perm (of_document d xs) (of_document d ys)
      → Perm (of_document d (c ∷ xs)) (of_document d (c ∷ ys))
  unfolding of_document
  of_document-cons d c xs ys p = elim (Bool-cases (same c.document_id d)) [
    | inl own ↦ rw own (Perm.cons c p)
    | inr other ↦ rw other p
  ]

  of_document-swap :
      (d : Text) (b c : RetrievedChunk F) (xs : List (RetrievedChunk F))
      → Perm (of_document d (b ∷ c ∷ xs)) (of_document d (c ∷ b ∷ xs))
  unfolding of_document
  of_document-swap d b c xs = elim (Bool-cases (same b.document_id d)) [
    | inl own ↦ elim (Bool-cases (same c.document_id d)) [
      | inl both ↦ rw (own, both) (Perm.swap c b (of_document d xs))
      | inr other ↦ rw (own, other) (Perm.refl (b ∷ of_document d xs))
    ]
    | inr other ↦ rw other (Perm.refl (of_document d (c ∷ xs)))
  ]

  of_document-permᴰ :
      (d : Text) {xs ys : List (RetrievedChunk F)}
      → Permᴰ xs ys
      → Perm (of_document d xs) (of_document d ys)
  of_document-permᴰ d Permᴰ.nil = Perm.refl (of_document d [])
  of_document-permᴰ d (Permᴰ.cons {a = a} {l₁ = xs} {l₂ = ys} e p) =
      subst (λ c. Perm (of_document d (a ∷ xs)) (of_document d (c ∷ ys))) e
        (of_document-cons d a xs ys (of_document-permᴰ d p))
  of_document-permᴰ d (Permᴰ.swap {a = a} {b = b} {b' = b'} {l = l} e e') =
      subst (λ c. Perm (of_document d (a ∷ b ∷ l)) (of_document d (c ∷ b' ∷ l))) e'
        (subst (λ c. Perm (of_document d (a ∷ b ∷ l)) (of_document d (b ∷ c ∷ l))) e
          (of_document-swap d a b l))
  of_document-permᴰ d (Permᴰ.trans p q) = Perm.trans (of_document-permᴰ d p) (of_document-permᴰ d q)

  pub of_document-perm :
      (d : Text) (xs ys : List (RetrievedChunk F))
      → Perm xs ys
      → Perm (of_document d xs) (of_document d ys)
  of_document-perm d xs ys p = ∥∥₁_elim p ∥∥₁_prop (of_document-permᴰ d)

  module _ (zero_score : F) where
    -- What a document has in a scan behind an upsert of points that are all its own and meet the
    -- filter: those points, if they replace all there was of it before.
    pub of_document-upserted :
        (C : QdrantClient F) (L : IsScrollable C) (U : IsUpserting C L) (s t : C.State) (col : Text)
        (new : List (Point F)) (filt : List Condition) (d : Text)
        → AllDistinct (ids new)
        → met filt new ≡ new
        → of_document d (map (λ p. chunk_of_point p zero_score) new)
          ≡ map (λ p. chunk_of_point p zero_score) new
        → of_document d
            (map (λ p. chunk_of_point p zero_score) (kept (ids new) (L.listing s col filt)))
          ≡ []
        → C.upsert col new s ≡ (ok tt, t)
        → Perm
            (map (λ p. chunk_of_point p zero_score) new)
            (of_document d (map (λ p. chunk_of_point p zero_score) (L.listing t col filt)))
    of_document-upserted C L U s t col new filt d distinct all own replaced up =
        let scanned : List (Point F) → List (RetrievedChunk F) =
          map (λ p. chunk_of_point p zero_score) in
        let old : List (Point F) = kept (ids new) (L.listing s col filt) in
        let parts : of_document d (scanned (met filt new ++ old)) ≡ scanned new =
          ap (λ l. of_document d (scanned (l ++ old))) all
          ∙ ap (of_document d) (map-append (λ p. chunk_of_point p zero_score) new old)
          ∙ of_document-append d (scanned new) (scanned old)
          ∙ ap₂ (λ k l. k ++ l) own replaced
          ∙ append-nil (scanned new) in
        subst (λ l. Perm l (of_document d (scanned (L.listing t col filt)))) parts
          (of_document-perm d (scanned (met filt new ++ old)) (scanned (L.listing t col filt))
            (Perm.map (λ p. chunk_of_point p zero_score) (U.upserted s t col new filt distinct up)))

    -- An upsert of at least one chunk that returns is one of the server.
    pub upsert-Ran :
        (C : QdrantClient F) (col : Text) (chunks : List (StoredChunk F)) (n : ℕ) (s t : C.State)
        → 0 < length chunks
        → upsert C col zero_score chunks s ≡ (ok n, t)
        → C.upsert col (map point_of_chunk chunks) s ≡ (ok tt, t)
    unfolding upsert
    upsert-Ran C col [] n s t there h = absurd (omega arith)
    upsert-Ran C col (c ∷ cs) n s t there h =
        elim (Result-cases (C.upsert col (map point_of_chunk (c ∷ cs)) s).0) [
          | inr (e, r) ↦ absurd (ground arith)
          | inl (u, r) ↦ ground arith
        ]
