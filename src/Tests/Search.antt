-- ===== src/Tests/Search.antt =====
-- The store over the server in memory.
use doccontext.Base.{ℕ, ◌≡◌, ◌≤◌, refl, none, some, List, [], ◌∷◌, Text, codes, same, take, length}
use doccontext.Base.Int.{pos}
use doccontext.Base.Exn.{ok}
use doccontext.Models.{RetrievedChunk}
use doccontext.Stores.Qdrant.{
  Point, chunk_of_point, search_chunks, corpora_filter, list_chunks_for_corpora,
}
use doccontext.Stores.Scan.{is_there, list_chunks_for_corpora_lem, unscored}
use doccontext.Stores.Tenants.{AllOwn, search_chunks-AllOwn, list_chunks_for_corpora-AllOwn}
use doccontext.Stores.Deletion.{
  of_client_document, delete_by_document_lem, delete_by_document_others,
}
use doccontext.Stores.Qdrant.{delete_by_document, match_value, client_key}
use doccontext.Base.{true, false}
use doccontext.Stores.Memory.{
  without, memory_client-IsDeleting, matching, memory_client, memory_client-IsScrollable,
  memory_client-IsFiltering,
}

abbrev pub point_of : Text → Text → Point ℕ
point_of id client_id = record {
  id = id;
  vector = 1 ∷ [];
  payload = record {
    chunk_id = some id;
    document_id = some (codes "d1");
    corpus_id = some (codes "k");
    client_id = some client_id;
    chunk_index = some 0;
    char_start = some 0;
    char_end = some 2;
    text = some (codes "ab");
    file_type = none;
  };
}

-- Two points of one client, and one of another.
abbrev pub points : List (Point ℕ)
points =
    point_of (codes "p1") (codes "ann")
    ∷ point_of (codes "p2") (codes "bob")
    ∷ point_of (codes "p3") (codes "ann")
    ∷ []

abbrev found : List (RetrievedChunk ℕ)
found =
    chunk_of_point (point_of (codes "p1") (codes "ann")) 1
    ∷ chunk_of_point (point_of (codes "p3") (codes "ann")) 1
    ∷ []

search_found :
    search_chunks memory_client
      (codes "documents")
      0
      (1 ∷ [])
      (codes "ann")
      (codes "k" ∷ [])
      5
      points
    ≡ ok found
unfolding search_chunks matching same
search_found = refl

search_chunks-AllOwn_example : AllOwn (codes "ann") (codes "k" ∷ []) found × (length found ≤ 5)
search_chunks-AllOwn_example =
    search_chunks-AllOwn memory_client memory_client-IsScrollable memory_client-IsFiltering
      (codes "documents") 0 (1 ∷ []) (codes "ann") (codes "k" ∷ []) 5 points found search_found

documents_there : is_there memory_client points (codes "documents") ≡ true
unfolding same
documents_there = refl

list_chunks_for_corpora_example :
    list_chunks_for_corpora memory_client
      (codes "documents")
      0
      (codes "ann")
      (codes "k" ∷ [])
      (pos 1)
      points
    ≡ some (
        ok (
          unscored memory_client memory_client-IsScrollable (codes "documents") 0 (
            take 1 (
              memory_client-IsScrollable.listing points
                (codes "documents")
                (corpora_filter (codes "ann") (codes "k" ∷ []))))))
list_chunks_for_corpora_example =
    list_chunks_for_corpora_lem memory_client memory_client-IsScrollable (codes "documents") 0
      points (codes "ann") (codes "k" ∷ []) 1 documents_there refl

list_chunks_for_corpora-AllOwn_example :
    (chunks : List (RetrievedChunk ℕ)) × (list_chunks_for_corpora memory_client
        (codes "documents")
        0
        (codes "ann")
        (codes "k" ∷ [])
        (pos 1)
        points
      ≡ some (ok chunks))
    × AllOwn (codes "ann") (codes "k" ∷ []) chunks
    × (length chunks ≤ 1)
list_chunks_for_corpora-AllOwn_example =
    list_chunks_for_corpora-AllOwn memory_client memory_client-IsScrollable
      memory_client-IsFiltering (codes "documents") 0 (codes "ann") (codes "k") [] 1 points
      documents_there

-- What the deletion of a document of one of the clients leaves.
abbrev rest : List (Point ℕ)
rest = point_of (codes "p2") (codes "bob") ∷ []

deleted_two :
    delete_by_document memory_client (codes "documents") 0 (codes "ann") (codes "d1") points
    ≡ (ok 2, rest)
unfolding delete_by_document matching without same
deleted_two = refl

documents_differ : same (codes "d2") (codes "d1") ≡ false
unfolding same
documents_differ = refl

delete_by_document_example :
    (2
      ≡ length (
          memory_client-IsScrollable.listing points
            (codes "documents")
            (of_client_document (codes "ann") (codes "d1") [])))
    × (memory_client-IsScrollable.listing rest
          (codes "documents")
          (of_client_document (codes "ann") (codes "d1") [])
        ≡ [])
    × (memory_client-IsScrollable.listing rest
          (codes "documents")
          (of_client_document (codes "ann") (codes "d2") [])
        ≡ memory_client-IsScrollable.listing points
            (codes "documents")
            (of_client_document (codes "ann") (codes "d2") []))
delete_by_document_example =
    delete_by_document_lem memory_client memory_client-IsScrollable memory_client-IsFiltering
      memory_client-IsDeleting (codes "documents") 0 (codes "ann") (codes "d1") (codes "d2") []
      points rest 2 documents_differ deleted_two

names_differ : same (codes "bob") (codes "ann") ≡ false
unfolding same
names_differ = refl

delete_by_document_others_example :
    memory_client-IsScrollable.listing rest
      (codes "documents")
      (match_value client_key (codes "bob") ∷ [])
    ≡ memory_client-IsScrollable.listing points
        (codes "documents")
        (match_value client_key (codes "bob") ∷ [])
delete_by_document_others_example =
    delete_by_document_others memory_client memory_client-IsScrollable memory_client-IsFiltering
      memory_client-IsDeleting (codes "documents") 0 (codes "ann") (codes "d1") (codes "bob") []
      points rest 2 names_differ deleted_two
