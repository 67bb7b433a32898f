-- ===== src/Stores/Qdrant.antt =====
-- vector_stores/qdrant.py: `QdrantVectorStore`, over any client.
use doccontext.Base.{ℕ, zero, suc, ◌-◌, min, Bool, true, false, ◌||◌, Option, none, some}
use doccontext.Base.{
  List, [], ◌∷◌, ◌++◌, map, ltb, ◌==◌, if◌then◌else◌, Text, codes, same, length, is_empty,
}
use doccontext.Base.Int.{ℤ, pos, le_int, to_nat}
use doccontext.Base.Exn.{Result, ok, raise}
use doccontext.Base.Exec.{Exec, pure, ◌>>◌}
use doccontext.Models.{StoredChunk, RetrievedChunk}

-- The payload of a point; another writer may have left out fields.
pub record Payload : Type 0 where
  pub chunk_id : Option Text
  pub document_id : Option Text
  pub corpus_id : Option Text
  pub client_id : Option Text
  pub chunk_index : Option ℕ
  pub char_start : Option ℕ
  pub char_end : Option ℕ
  pub text : Option Text
  pub file_type : Option Text

-- `PointStruct`
pub record Point (F : Type 0) : Type 0 where
  pub id : Text
  pub vector : List F
  pub payload : Payload

-- The keys that filters use.
pub data Key : Type 0 where
  client_key corpus_key document_key : Key

-- `FieldCondition` with `MatchValue` and with `MatchAny`; a `Filter` is a list of conditions.
pub data Condition : Type 0 where
  match_value : Key → Text → Condition
  match_any : Key → List Text → Condition

-- `QdrantClient`. Reads return their result, writes change the state of the server.
pub record QdrantClient (F : Type 0) : Type 1 where
  pub State : Type 0
  pub Offset : Type 0
  pub collections : State → List Text
  pub create_collection : Text → ℕ → Exec State Unit
  pub create_payload_index : Text → Key → Exec State Unit
  pub upsert : Text → List (Point F) → Exec State Unit
  -- collection, query, filter, limit: points with their scores
  pub query_points : Text → List F → List Condition → ℕ → State → Result (List (Point F × F))
  -- collection, filter, limit, offset: a page and the next offset
  pub scroll :
      Text → List Condition → ℕ → Option Offset → State → Result (List (Point F) × Option Offset)
  pub count : Text → List Condition → State → Result ℕ
  pub delete : Text → List Condition → Exec State Unit

abbrev pub contains_text : List Text → Text → Bool
contains_text [] t = false
contains_text (s ∷ texts) t = same s t || contains_text texts t

-- `p.get(key, default)`
abbrev pub get_or : {A : Type 0} → Option A → A → A
get_or none d = d
get_or (some a) d = a

-- The filter of `search`: the corpora are left out of it if there are none.
unfoldable pub search_filter : Text → List Text → List Condition
search_filter client_id corpus_ids =
    match_value client_key client_id
    ∷ (if is_empty corpus_ids then [] else match_any corpus_key corpus_ids ∷ [])

-- The filter of `list_chunks_for_corpora`.
abbrev pub corpora_filter : Text → List Text → List Condition
corpora_filter client_id corpus_ids =
    match_value client_key client_id ∷ match_any corpus_key corpus_ids ∷ []

-- The filter of `delete_by_document`.
abbrev pub document_filter : Text → Text → List Condition
document_filter client_id document_id =
    match_value client_key client_id ∷ match_value document_key document_id ∷ []

module _ {F : Type 0} where
  -- The point that `upsert` makes of a chunk.
  abbrev pub point_of_chunk : StoredChunk F → Point F
  point_of_chunk c = record {
    id = c.chunk_id;
    vector = c.vector;
    payload = record {
      chunk_id = some c.chunk_id;
      document_id = some c.document_id;
      corpus_id = some c.corpus_id;
      client_id = some c.client_id;
      chunk_index = some c.chunk_index;
      char_start = some c.char_start;
      char_end = some c.char_end;
      text = some c.text;
      file_type = some c.file_type;
    };
  }

  -- The chunk that `search` and `list_chunks_for_corpora` make of a point and a score.
  abbrev pub chunk_of_point : Point F → F → RetrievedChunk F
  chunk_of_point point score =
      let p = point.payload in
      record {
        chunk_id = get_or p.chunk_id point.id;
        document_id = get_or p.document_id (codes "");
        corpus_id = get_or p.corpus_id (codes "");
        client_id = get_or p.client_id (codes "");
        chunk_index = get_or p.chunk_index 0;
        char_start = get_or p.char_start 0;
        char_end = get_or p.char_end 0;
        text = get_or p.text (codes "");
        file_type = get_or p.file_type (codes "");
        score = score;
      }

  abbrev pub scored_chunks : List (Point F × F) → List (RetrievedChunk F)
  scored_chunks [] = []
  scored_chunks ((point, score) ∷ points) = chunk_of_point point score ∷ scored_chunks points

  module _ (C : QdrantClient F) (collection : Text) (zero_score : F) where
    -- `ensure_collection`
    unfoldable pub ensure_collection : ℕ → Exec C.State (Unit {0})
    ensure_collection dim s =
        if contains_text (C.collections s) collection
        then (ok tt, s)
        else (do
          C.create_collection collection dim
          C.create_payload_index collection client_key
          C.create_payload_index collection corpus_key
          C.create_payload_index collection document_key)
            s

    -- `upsert`
    unfoldable pub upsert : List (StoredChunk F) → Exec C.State ℕ
    upsert [] = pure 0
    upsert (c ∷ chunks) = do
      C.upsert collection (map point_of_chunk (c ∷ chunks))
      pure (length (map point_of_chunk (c ∷ chunks)))

    -- `search`
    unfoldable pub search_chunks :
        List F → Text → List Text → ℕ → C.State → Result (List (RetrievedChunk F))
    unfolding search_filter
    search_chunks query_vector client_id corpus_ids top_k s =
        elim (C.query_points collection query_vector (search_filter client_id corpus_ids) top_k s) [
          | raise e ↦ raise e
          | ok points ↦ ok (scored_chunks points)
        ]

    -- The `while` loop of `list_chunks_for_corpora`; `none` is a loop that ran out of fuel.
    unfoldable pub scan_loop :
        ℕ
        → List Condition
        → ℕ
        → ℕ
        → List (RetrievedChunk F)
        → Option C.Offset
        → C.State
        → Option (Result (List (RetrievedChunk F)))
    scan_loop zero filt page limit out next_offset s = none
    scan_loop (suc fuel) filt page limit out next_offset s = elim (ltb (length out) limit) [
      | false ↦ some (ok out)
      | true ↦ elim (C.scroll collection filt (min page (limit - length out)) next_offset s) [
        | raise e ↦ some (raise e)
        | ok (points, none) ↦ some (ok (out ++ map (λ p. chunk_of_point p zero_score) points))
        | ok (points, some offset) ↦
            scan_loop fuel filt page limit (out ++ map (λ p. chunk_of_point p zero_score) points)
              (some offset) s
      ]
    ]

    -- `list_chunks_for_corpora`
    unfoldable pub list_chunks_for_corpora :
        Text → List Text → ℤ → C.State → Option (Result (List (RetrievedChunk F)))
    unfolding scan_loop
    list_chunks_for_corpora client_id corpus_ids limit s =
        if is_empty corpus_ids || le_int limit (pos 0)
        then some (ok [])
        else scan_loop (suc (to_nat limit)) (corpora_filter client_id corpus_ids)
            (min (to_nat limit) 512) (to_nat limit) [] none s

    abbrev delete_counted : List Condition → ℕ → Exec C.State ℕ
    delete_counted filt count =
        if count == 0 then pure 0 else do C.delete collection filt; pure count

    -- `delete_by_document`
    unfoldable pub delete_by_document : Text → Text → Exec C.State ℕ
    delete_by_document client_id document_id s =
        elim (C.count collection (document_filter client_id document_id) s) [
          | raise e ↦ (raise e, s)
          | ok count ↦ delete_counted (document_filter client_id document_id) count s
        ]
