-- ===== src/Stores/Tenants.antt =====
-- vector_stores/qdrant.py: the filters, and the client and the corpora of what is returned.
use mathlib.Core.Path.{subst}
use doccontext.Base.{
  ℕ, zero, suc, ◌≤◌, ◌≡◌, refl, ap, Bool, true, false, ◌&&◌, ◌||◌, Option, none, some, List, [],
  ◌∷◌,
}
use doccontext.Base.{
  arith, map, Text, same, same_iff, length, length-map, length-take, take, is_empty, if◌then◌else◌,
  inl, inr,
}
use doccontext.Base.Int.{pos}
use doccontext.Base.Exn.{ok, Result-cases}
use doccontext.Models.{RetrievedChunk}
use doccontext.Stores.Qdrant.{
  Payload, Point, Key, client_key, corpus_key, document_key, Condition, match_value, match_any,
  QdrantClient, contains_text, get_or, chunk_of_point, scored_chunks, search_filter, search_chunks,
  corpora_filter, list_chunks_for_corpora,
}
use doccontext.Stores.Scan.{is_there, IsScrollable, list_chunks_for_corpora_lem, unscored}

-- The value of a key in a payload.
abbrev pub value_of : Key → Payload → Option Text
value_of client_key p = p.client_id
value_of corpus_key p = p.corpus_id
value_of document_key p = p.document_id

-- The value is there, and it passes the test.
abbrev pub holds_value : (Text → Bool) → Option Text → Bool
holds_value test none = false
holds_value test (some t) = test t

-- The payload meets the conditions of a filter.
abbrev pub meets : Payload → List Condition → Bool
meets p [] = true
meets p (match_value key value ∷ filt) =
    holds_value (λ t. same t value) (value_of key p) && meets p filt
meets p (match_any key values ∷ filt) =
    holds_value (contains_text values) (value_of key p) && meets p filt

-- The conditions of the filter of `search`, on the two values.
own-values :
    (client_id : Text) (corpus_ids : List Text) (client corpus : Option Text)
    → holds_value (λ t. same t client_id) client
        && (if is_empty corpus_ids
            then true
            else holds_value (contains_text corpus_ids) corpus && true)
      ≡ true
    → (get_or client [] ≡ client_id)
      × (is_empty corpus_ids || contains_text corpus_ids (get_or corpus []) ≡ true)
own-values client_id [] none corpus h = cc
own-values client_id [] (some t) corpus h = ground (arith, same_iff t client_id)
own-values client_id (c ∷ cs) none corpus h = cc
own-values client_id (c ∷ cs) (some t) none h = ground (arith, same_iff t client_id)
own-values client_id (c ∷ cs) (some t) (some u) h = ground (arith, same_iff t client_id)

module _ {F : Type 0} where
  abbrev pub AllMeet : List Condition → List (Point F) → Type 0
  AllMeet filt [] = Unit
  AllMeet filt (point ∷ points) = (meets point.payload filt ≡ true) × AllMeet filt points

  abbrev pub AllScoredMeet : List Condition → List (Point F × F) → Type 0
  AllScoredMeet filt [] = Unit
  AllScoredMeet filt ((point, score) ∷ points) =
      (meets point.payload filt ≡ true) × AllScoredMeet filt points

  -- What is assumed of the server: a search and a scan return points that meet their filter, and a
  -- search at most `limit` of them.
  pub record IsFiltering (C : QdrantClient F) (L : IsScrollable C) : Type 0 where
    pub searched :
        (s : C.State) (col : Text) (v : List F) (filt : List Condition) (limit : ℕ)
        (points : List (Point F × F))
        → C.query_points col v filt limit s ≡ ok points
        → AllScoredMeet filt points × (length points ≤ limit)
    pub listed :
        (s : C.State) (col : Text) (filt : List Condition) → AllMeet filt (L.listing s col filt)

  -- The chunk belongs to the client and, if corpora are named, to one of them.
  abbrev pub IsOwn : Text → List Text → RetrievedChunk F → Type 0
  IsOwn client_id corpus_ids c =
      (c.client_id ≡ client_id)
      × (is_empty corpus_ids || contains_text corpus_ids c.corpus_id ≡ true)

  abbrev pub AllOwn : Text → List Text → List (RetrievedChunk F) → Type 0
  AllOwn client_id corpus_ids [] = Unit
  AllOwn client_id corpus_ids (c ∷ chunks) =
      IsOwn client_id corpus_ids c × AllOwn client_id corpus_ids chunks

  point-IsOwn :
      (client_id : Text) (corpus_ids : List Text) (point : Point F) (score : F)
      → meets point.payload (search_filter client_id corpus_ids) ≡ true
      → IsOwn client_id corpus_ids (chunk_of_point point score)
  unfolding search_filter
  point-IsOwn client_id [] point score h =
      own-values client_id [] point.payload.client_id point.payload.corpus_id h
  point-IsOwn client_id (c ∷ cs) point score h =
      own-values client_id (c ∷ cs) point.payload.client_id point.payload.corpus_id h

  scored_chunks-AllOwn :
      (client_id : Text) (corpus_ids : List Text) (points : List (Point F × F))
      → AllScoredMeet (search_filter client_id corpus_ids) points
      → AllOwn client_id corpus_ids (scored_chunks points)
  scored_chunks-AllOwn client_id corpus_ids [] h = tt
  scored_chunks-AllOwn client_id corpus_ids ((point, score) ∷ points) h = (
    point-IsOwn client_id corpus_ids point score h.0,
    scored_chunks-AllOwn client_id corpus_ids points h.1,
  )

  length-scored_chunks :
      (points : List (Point F × F)) → length (scored_chunks points) ≡ length points
  length-scored_chunks [] = refl
  length-scored_chunks ((point, score) ∷ points) = ap suc (length-scored_chunks points)

  unscored-AllOwn :
      (client_id : Text) (c : Text) (cs : List Text) (zero_score : F) (points : List (Point F))
      (limit : ℕ)
      → AllMeet (corpora_filter client_id (c ∷ cs)) points
      → AllOwn client_id (c ∷ cs) (map (λ p. chunk_of_point p zero_score) (take limit points))
  unfolding search_filter
  unscored-AllOwn client_id c cs zero_score [] zero h = tt
  unscored-AllOwn client_id c cs zero_score [] (suc limit) h = tt
  unscored-AllOwn client_id c cs zero_score (point ∷ points) zero h = tt
  unscored-AllOwn client_id c cs zero_score (point ∷ points) (suc limit) h = (
    point-IsOwn client_id (c ∷ cs) point zero_score h.0,
    unscored-AllOwn client_id c cs zero_score points limit h.1,
  )

  module _ (C : QdrantClient F) (L : IsScrollable C) (S : IsFiltering C L) (col : Text)
      (zero_score : F) where
    search_chunks-answer :
        (query_vector : List F) (client_id : Text) (corpus_ids : List Text) (top_k : ℕ)
        (s : C.State) (chunks : List (RetrievedChunk F))
        → search_chunks C col zero_score query_vector client_id corpus_ids top_k s ≡ ok chunks
        → (points : List (Point F × F)) × (C.query_points col query_vector
              (search_filter client_id corpus_ids)
              top_k
              s
            ≡ ok points)
          × (scored_chunks points ≡ chunks)
    unfolding search_chunks
    search_chunks-answer query_vector client_id corpus_ids top_k s chunks h =
        elim (Result-cases
          (C.query_points col query_vector (search_filter client_id corpus_ids) top_k s)) [
            | inl (points, e) ↦ (points, e, ground arith)
            | inr (exc, e) ↦ absurd (ground arith)
          ]

    -- A search that returns chunks returns at most `top_k`, all of the client that asked, and, if
    -- it named corpora, all of those corpora.
    pub search_chunks-AllOwn :
        (query_vector : List F) (client_id : Text) (corpus_ids : List Text) (top_k : ℕ)
        (s : C.State) (chunks : List (RetrievedChunk F))
        → search_chunks C col zero_score query_vector client_id corpus_ids top_k s ≡ ok chunks
        → AllOwn client_id corpus_ids chunks × (length chunks ≤ top_k)
    search_chunks-AllOwn query_vector client_id corpus_ids top_k s chunks h =
        let (points, e, q) =
          search_chunks-answer query_vector client_id corpus_ids top_k s chunks h in
        let (all, few) =
          S.searched s col query_vector (search_filter client_id corpus_ids) top_k points e in
        subst (λ l. AllOwn client_id corpus_ids l × (length l ≤ top_k)) q
          (
            scored_chunks-AllOwn client_id corpus_ids points all,
            omega (arith, length-scored_chunks points),
          )

    -- The scan of a collection that is there, for a limit and at least one corpus, ends and returns
    -- chunks, at most `limit` of them, all of the client that asked and of the corpora that it
    -- named.
    pub list_chunks_for_corpora-AllOwn :
        (client_id : Text) (c : Text) (cs : List Text) (limit : ℕ) (s : C.State)
        → is_there C s col ≡ true
        → (chunks : List (RetrievedChunk F)) × (list_chunks_for_corpora C col zero_score client_id
              (c ∷ cs)
              (pos limit)
              s
            ≡ some (ok chunks))
          × AllOwn client_id (c ∷ cs) chunks
          × (length chunks ≤ limit)
    list_chunks_for_corpora-AllOwn client_id c cs limit s there =
        let points : List (Point F) = L.listing s col (corpora_filter client_id (c ∷ cs)) in
        (
          unscored C L col zero_score (take limit points),
          list_chunks_for_corpora_lem C L col zero_score s client_id (c ∷ cs) limit there refl,
          unscored-AllOwn client_id c cs zero_score points limit
              (S.listed s col (corpora_filter client_id (c ∷ cs))),
          omega (
            arith,
            length-map (λ p. chunk_of_point p zero_score) (take limit points),
            length-take limit points,
          ),
        )
