-- ===== src/Tests/Answers.antt =====
-- The query handler over the server in memory and a language model that always replies the same.
use doccontext.Base.{ℕ, ◌≡◌, refl, true, false, List, [], ◌∷◌, ◌++◌, arith}
use doccontext.Base.{codes, same, map, length, min, ltb}
use doccontext.Base.Int.{pos}
use doccontext.Base.Exn.{ok}
use doccontext.Base.Dict.{keys}
use doccontext.Base.Runtime.{IsFloat}
use doccontext.Models.{RetrievedChunk}
use doccontext.Stores.Qdrant.{search_chunks, search_filter}
use doccontext.Stores.Promise.{IsTenantStore, qdrant_store, qdrant_store-IsTenantStore}
use doccontext.Stores.Memory.{
  matching, memory_client, memory_client-IsScrollable, memory_client-IsFiltering,
}
use doccontext.Services.Converters.{query_route_to_proto}
use doccontext.Llm.Client.{LlmClient}
use doccontext.Query.Documents.{
  Citation, assemble_documents, citations_for_full_doc, citations_for_section,
}
use doccontext.Query.Citations.{
  cited_document, citations_for_full_doc_documents, AllCited, citations_for_full_doc-AllCited,
}
use doccontext.Query.Replies.{
  HistoryMessage, to_message, trim_history, parse_router_decision, parse_answer_payload,
}
use doccontext.Query.Routing.{Decides, trim_history_lem, parse_router_decision-Decides}
use doccontext.Query.Handler.{
  QueryDocumentsRequest, QueryDocumentsResponse, QueryParts, QueryWorld, query_documents_rpc,
  embed_one, top_k_of, section_answer, routed_answer, respond, with_decision, with_reply,
  with_request,
}
use doccontext.Query.Access.{AllNamed, query_documents_rpc-AllNamed}
use doccontext.Tests.Samples.{sample_runtime, sample_chunks, copy_of}
use doccontext.Tests.Search.{points}

-- A model that does not reply with JSON.
abbrev plain_model : LlmClient
plain_model = record {
  State = ℕ;
  complete = λ messages model s. (
    ok (record {
      content = codes "hello";
      model = model;
      usage = record { prompt_tokens = pos 1; completion_tokens = pos 1; total_tokens = pos 2 };
    }),
    s,
  );
}

abbrev query_parts : QueryParts
query_parts = record {
  R = sample_runtime;
  V = qdrant_store memory_client (codes "documents") 0;
  M = plain_model;
  embedder = record { dim = 1; embed = λ texts. ok (map (λ t. length t ∷ []) texts) };
  query_top_k_default = 5;
  llm_router_model = codes "router";
  llm_answer_model = codes "answer";
}

abbrev query : QueryDocumentsRequest
query = record {
  client_id = codes "ann";
  user_id = codes "u";
  chat_session_id = codes "";
  prompt = codes "what?";
  corpus_ids = codes "k" ∷ [];
  top_k = pos 0;
  history_window = pos 1;
  history = [];
}

abbrev query_world : QueryWorld query_parts
query_world = record { store = points; llm = 0 }

abbrev citation : Citation ℕ
citation = record {
  document_id = codes "d1";
  corpus_id = codes "k";
  chunk_index = 0;
  char_start = 0;
  char_end = 2;
  score = 1;
}

abbrev response : QueryDocumentsResponse ℕ
response = record {
  answer = codes "hello";
  used_route = 1;
  citations = citation ∷ citation ∷ [];
  confidence = 0;
}

-- The router's reply is no JSON, so the section route is taken with the confidence 0.0.
answered : (query_documents_rpc query_parts query query_world).0 ≡ ok response
unfolding query_documents_rpc with_request with_reply with_decision routed_answer section_answer
    respond embed_one top_k_of search_chunks search_filter matching same parse_router_decision
    parse_answer_payload query_route_to_proto citations_for_section
answered = refl

query_documents_rpc-AllNamed_example : AllNamed (codes "k" ∷ []) (citation ∷ citation ∷ [])
query_documents_rpc-AllNamed_example =
    query_documents_rpc-AllNamed query_parts
      (qdrant_store-IsTenantStore memory_client (codes "documents") 0 memory_client-IsScrollable
        memory_client-IsFiltering)
      query query_world response answered

qdrant_store-IsTenantStore_example :
    IsTenantStore (qdrant_store memory_client (codes "documents") 0)
qdrant_store-IsTenantStore_example =
    qdrant_store-IsTenantStore memory_client (codes "documents") 0 memory_client-IsScrollable
      memory_client-IsFiltering

abbrev sample_docs : List (RetrievedChunk ℕ)
sample_docs = map (copy_of (codes "d1")) sample_chunks

citations_for_full_doc_documents_example :
    map cited_document (citations_for_full_doc 0 sample_docs)
    ≡ keys (assemble_documents sample_docs)
citations_for_full_doc_documents_example = citations_for_full_doc_documents 0 sample_docs

citations_for_full_doc-AllCited_example :
    AllCited sample_docs (citations_for_full_doc 0 sample_docs)
citations_for_full_doc-AllCited_example = citations_for_full_doc-AllCited 0 sample_docs

abbrev turns : List HistoryMessage
turns =
    record { role = codes "user"; content = codes "a" }
    ∷ record { role = codes "assistant"; content = codes "b" }
    ∷ record { role = codes "user"; content = codes "c" }
    ∷ []

trim_history_example :
    (older kept : List HistoryMessage) × (turns ≡ older ++ kept)
    × (trim_history turns 1 ≡ map to_message kept)
    × (length kept ≡ min 2 3)
trim_history_example = trim_history_lem turns 1

ltb_asymm : (a b : ℕ) → ltb a b ≡ true → ltb b a ≡ false
ltb_asymm a b h = ground arith

sample_runtime-IsFloat : IsFloat sample_runtime
sample_runtime-IsFloat = record { lt_asymm = ltb_asymm; zero_lt_one = refl }

parse_router_decision-Decides_example :
    Decides sample_runtime sample_runtime-IsFloat
      (parse_router_decision sample_runtime (codes "hello"))
parse_router_decision-Decides_example =
    parse_router_decision-Decides sample_runtime sample_runtime-IsFloat (codes "hello")
