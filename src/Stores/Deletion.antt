-- ===== src/Stores/Deletion.antt =====
-- vector_stores/qdrant.py: `delete_by_document`.
use doccontext.Base.{
  ℕ, ◌≡◌, refl, sym, ap, ◌∙◌, Bool, true, false, ◌&&◌, Option, none, some, List, [], ◌∷◌, arith,
}
use doccontext.Base.{Text, same, same_iff, length, ◌==◌, if◌then◌else◌, inl, inr, ◌⊎◌, Bool-cases}
use doccontext.Base.Exn.{ok, Result-cases}
use doccontext.Stores.Qdrant.{
  Payload, Point, client_key, document_key, Condition, match_value, QdrantClient, document_filter,
  delete_by_document,
}
use doccontext.Stores.Scan.{IsScrollable}
use doccontext.Stores.Tenants.{meets, holds_value, AllMeet, IsFiltering}

other_value :
    (client_id other : Text) (client : Option Text) (a b : Bool)
    → same other client_id ≡ false
    → holds_value (λ t. same t other) client && a ≡ true
    → holds_value (λ t. same t client_id) client && b ≡ false
other_value client_id other none a b differ h = refl
other_value client_id other (some t) a b differ h = ground (arith, same_iff t other)

other_values :
    (client_id document_id other : Text) (client document : Option Text) (a : Bool)
    → same other document_id ≡ false
    → holds_value (λ t. same t client_id) client && (holds_value (λ t. same t other) document && a)
      ≡ true
    → holds_value (λ t. same t client_id) client
        && (holds_value (λ t. same t document_id) document && true)
      ≡ false
other_values client_id document_id other none document a differ h = refl
other_values client_id document_id other (some t) none a differ h = ground arith
other_values client_id document_id other (some t) (some u) a differ h =
    ground (arith, same_iff u other)

-- A point of one client does not meet the filter for another one's document.
other_client :
    (client_id document_id other : Text) (filt : List Condition) (p : Payload)
    → same other client_id ≡ false
    → meets p (match_value client_key other ∷ filt) ≡ true
    → meets p (document_filter client_id document_id) ≡ false
other_client client_id document_id other filt p differ h =
    other_value client_id other p.client_id _ _ differ h

-- The conditions for the points of one document of a client.
abbrev pub of_client_document : Text → Text → List Condition → List Condition
of_client_document client_id document_id filt =
    match_value client_key client_id ∷ match_value document_key document_id ∷ filt

-- A point of one document does not meet the filter for another one of the client.
other_document :
    (client_id document_id other : Text) (filt : List Condition) (p : Payload)
    → same other document_id ≡ false
    → meets p (of_client_document client_id other filt) ≡ true
    → meets p (document_filter client_id document_id) ≡ false
other_document client_id document_id other filt p differ h =
    other_values client_id document_id other p.client_id p.document_id (meets p filt) differ h

module _ {F : Type 0} where
  -- The points that do not meet the filter.
  abbrev pub unmet : List Condition → List (Point F) → List (Point F)
  unmet filt [] = []
  unmet filt (p ∷ points) =
      if meets p.payload filt then unmet filt points else p ∷ unmet filt points

  -- What is assumed of the server: a count is the number of the points that match, and a deletion
  -- removes them from every listing and nothing else.
  pub record IsDeleting (C : QdrantClient F) (L : IsScrollable C) : Type 0 where
    pub counted :
        (s : C.State) (col : Text) (filt : List Condition) (n : ℕ)
        → C.count col filt s ≡ ok n
        → n ≡ length (L.listing s col filt)
    pub deleted :
        (s t : C.State) (col : Text) (filt other : List Condition)
        → C.delete col filt s ≡ (ok tt, t)
        → L.listing t col other ≡ unmet filt (L.listing s col other)

  unmet_all :
      (filt : List Condition) (points : List (Point F))
      → AllMeet filt points
      → unmet filt points ≡ []
  unmet_all filt [] h = refl
  unmet_all filt (p ∷ points) h = rw h.0 (unmet_all filt points h.1)

  unmet_none :
      (client_id document_id other : Text) (filt : List Condition) (points : List (Point F))
      → same other client_id ≡ false
      → AllMeet (match_value client_key other ∷ filt) points
      → unmet (document_filter client_id document_id) points ≡ points
  unmet_none client_id document_id other filt [] differ h = refl
  unmet_none client_id document_id other filt (p ∷ points) differ h =
      rw (other_client client_id document_id other filt p.payload differ h.0)
        (ap (λ l. p ∷ l) (unmet_none client_id document_id other filt points differ h.1))

  unmet_document :
      (client_id document_id other : Text) (filt : List Condition) (points : List (Point F))
      → same other document_id ≡ false
      → AllMeet (of_client_document client_id other filt) points
      → unmet (document_filter client_id document_id) points ≡ points
  unmet_document client_id document_id other filt [] differ h = refl
  unmet_document client_id document_id other filt (p ∷ points) differ h =
      rw (other_document client_id document_id other filt p.payload differ h.0)
        (ap (λ l. p ∷ l) (unmet_document client_id document_id other filt points differ h.1))

  module _ (C : QdrantClient F) (L : IsScrollable C) (S : IsFiltering C L) (X : IsDeleting C L)
      (col : Text) (zero_score : F) where
    -- What the state is after a deletion that returned.
    deletion :
        (client_id document_id : Text) (s t : C.State) (n : ℕ)
        → delete_by_document C col zero_score client_id document_id s ≡ (ok n, t)
        → (C.count col (document_filter client_id document_id) s ≡ ok n)
          × (((n ≡ 0) × (t ≡ s))
              ⊎ (C.delete col (document_filter client_id document_id) s ≡ (ok tt, t)))
    unfolding delete_by_document
    deletion client_id document_id s t n h =
        let filt : List Condition = document_filter client_id document_id in
        elim (Result-cases (C.count col filt s)) [
          | inr (e, c) ↦ absurd (ground arith)
          | inl (m, c) ↦ elim (Bool-cases (m == 0)) [
            | inl none_there ↦ ground arith
            | inr some_there ↦ elim (Result-cases (C.delete col filt s).0) [
              | inr (e, r) ↦ absurd (ground arith)
              | inl (u, r) ↦ ground arith
            ]
          ]
        ]

    empty_listing : (points : List (Point F)) → length points ≡ 0 → points ≡ []
    empty_listing [] h = refl
    empty_listing (p ∷ points) h = absurd (omega arith)

    -- What a deletion leaves of points that do not meet its filter.
    deletion-kept :
        (client_id document_id : Text) (filt : List Condition) (s t : C.State) (n : ℕ)
        → delete_by_document C col zero_score client_id document_id s ≡ (ok n, t)
        → unmet (document_filter client_id document_id) (L.listing s col filt)
          ≡ L.listing s col filt
        → L.listing t col filt ≡ L.listing s col filt
    deletion-kept client_id document_id filt s t n h others =
        let (c, after) = deletion client_id document_id s t n h in
        elim after [
          | inl (zero_n, same_state) ↦ ap (λ u. L.listing u col filt) same_state
          | inr gone ↦ X.deleted s t col (document_filter client_id document_id) filt gone ∙ others
        ]

    -- A deletion that returns reports the number of the points that have the client's id and the
    -- document's, and then none of them is left; and it leaves the points of every other document
    -- of the client as they were, whatever filter they are listed by.
    pub delete_by_document_lem :
        (client_id document_id other : Text) (filt : List Condition) (s t : C.State) (n : ℕ)
        → same other document_id ≡ false
        → delete_by_document C col zero_score client_id document_id s ≡ (ok n, t)
        → (n ≡ length (L.listing s col (of_client_document client_id document_id [])))
          × (L.listing t col (of_client_document client_id document_id []) ≡ [])
          × (L.listing t col (of_client_document client_id other filt)
              ≡ L.listing s col (of_client_document client_id other filt))
    delete_by_document_lem client_id document_id other filt s t n differ h =
        let own : List Condition = of_client_document client_id document_id [] in
        let rest : List Condition = of_client_document client_id other filt in
        let (c, after) = deletion client_id document_id s t n h in
        let size = X.counted s col own n c in
        (
          size,
          elim after [
            | inl (zero_n, same_state) ↦
                ap (λ u. L.listing u col own) same_state
                ∙ empty_listing (L.listing s col own) (sym size ∙ zero_n)
            | inr gone ↦
                X.deleted s t col own own gone
                ∙ unmet_all own (L.listing s col own) (S.listed s col own)
          ],
          deletion-kept client_id document_id rest s t n h (
              unmet_document client_id document_id other filt (L.listing s col rest) differ
                (S.listed s col rest)),
        )

    -- A deletion that returns leaves the points of every other client as they were, whatever filter
    -- they are listed by.
    pub delete_by_document_others :
        (client_id document_id other : Text) (filt : List Condition) (s t : C.State) (n : ℕ)
        → same other client_id ≡ false
        → delete_by_document C col zero_score client_id document_id s ≡ (ok n, t)
        → L.listing t col (match_value client_key other ∷ filt)
          ≡ L.listing s col (match_value client_key other ∷ filt)
    delete_by_document_others client_id document_id other filt s t n differ h =
        let own : List Condition = match_value client_key other ∷ filt in
        deletion-kept client_id document_id own s t n h (
          unmet_none client_id document_id other filt (L.listing s col own) differ
            (S.listed s col own))
