-- ===== src/Query/Handler.antt =====
-- services/query_service.py: `QueryDocumentsHandler.handle` over any vector store, embedder and
-- language model. One request runs at a time, so the semaphore is always free; log lines are left
-- out.
use doccontext.Base.{ℕ, suc, zero, List, [], ◌∷◌, Text, codes, is_empty, same, if◌then◌else◌}
use doccontext.Base.Int.{ℤ, pos, negsuc, to_nat}
use doccontext.Base.Exn.{Result, ok, raise, throw, abort_invalid_argument, index_error}
use doccontext.Base.Exec.{Exec, pure, lift, ◌>>=◌, ◌>>◌, focus}
use doccontext.Base.Runtime.{Runtime}
use doccontext.Stores.Interface.{VectorStore, Embedder}
use doccontext.Llm.Client.{Message, LlmClient, LlmResponse}
use doccontext.Llm.Prompts.{
  build_router_messages, build_section_answer_messages, build_full_doc_answer_messages,
}
use doccontext.Services.Converters.{query_route_to_proto}
use doccontext.Query.Documents.{
  Citation, assemble_documents, citations_for_section, citations_for_full_doc,
}
use doccontext.Query.Replies.{
  HistoryMessage, RouterDecision, trim_history, parse_router_decision, parse_answer_payload,
}

-- `pb.QueryDocumentsRequest`
pub record QueryDocumentsRequest : Type 0 where
  pub client_id : Text
  pub user_id : Text
  pub chat_session_id : Text
  pub prompt : Text
  pub corpus_ids : List Text
  pub top_k : ℤ
  pub history_window : ℤ
  pub history : List HistoryMessage

-- `pb.QueryDocumentsResponse`
pub record QueryDocumentsResponse (F : Type 0) : Type 0 where
  pub answer : Text
  pub used_route : ℕ
  pub citations : List (Citation F)
  pub confidence : F

-- The parts of the handler, and the settings that it reads.
pub record QueryParts : Type 1 where
  pub R : Runtime
  pub V : VectorStore R.Float
  pub M : LlmClient
  pub embedder : Embedder R.Float
  pub query_top_k_default : ℕ
  pub llm_router_model : Text
  pub llm_answer_model : Text

module _ (P : QueryParts) where
  open P use {R, V, M}

  pub record QueryWorld : Type 0 where
    pub store : V.State
    pub llm : M.State

  abbrev pub in_store : {A : Type 0} → Exec V.State A → Exec QueryWorld A
  in_store = focus (λ w. w.store) (λ w store. record w { store = store })

  abbrev pub in_llm : {A : Type 0} → Exec M.State A → Exec QueryWorld A
  in_llm = focus (λ w. w.llm) (λ w llm. record w { llm = llm })

  -- `if not value: await context.abort(INVALID_ARGUMENT, message)`
  abbrev require_some : {A : Type 0} → List A → Text → Exec QueryWorld (Unit {0})
  require_some value message w =
      (if is_empty value then throw abort_invalid_argument message else ok tt, w)

  -- `request.top_k if request.top_k > 0 else …`
  unfoldable pub top_k_of : ℤ → ℕ
  top_k_of (pos zero) = P.query_top_k_default
  top_k_of (pos (suc n)) = suc n
  top_k_of (negsuc n) = P.query_top_k_default

  -- `Embedder.embed_one`
  unfoldable pub embed_one : Text → Result (List R.Float)
  embed_one text = elim (P.embedder.embed (text ∷ [])) [
    | raise e ↦ raise e
    | ok [] ↦ throw index_error (codes "list index out of range")
    | ok (v ∷ vectors) ↦ ok v
  ]

  -- The reply of the language model and the citations.
  abbrev pub Cited : Type 0
  Cited = LlmResponse × List (Citation R.Float)

  -- The branch for `FULL_DOC`; the limit is the default of `list_chunks_for_corpora`.
  unfoldable pub full_doc_answer : QueryDocumentsRequest → List Message → Exec QueryWorld Cited
  full_doc_answer request history = do
    docs ← in_store (V.list_chunks_for_corpora request.client_id request.corpus_ids 10000)
    answer_resp ← in_llm (
        M.complete (build_full_doc_answer_messages request.prompt history (assemble_documents docs))
          P.llm_answer_model)
    pure (answer_resp, citations_for_full_doc R.zero docs)

  -- The branch for `SECTION`.
  unfoldable pub section_answer : QueryDocumentsRequest → List Message → Exec QueryWorld Cited
  section_answer request history = do
    query_vec ← lift (embed_one request.prompt)
    hits ←
        in_store (V.search query_vec request.client_id request.corpus_ids (top_k_of request.top_k))
    answer_resp ← in_llm (
        M.complete (build_section_answer_messages R request.prompt history hits) P.llm_answer_model)
    pure (answer_resp, citations_for_section hits)

  -- `if decision.route == "FULL_DOC"`
  unfoldable pub routed_answer : Text → QueryDocumentsRequest → List Message → Exec QueryWorld Cited
  routed_answer route request history =
      if same route (codes "FULL_DOC")
      then full_doc_answer request history
      else section_answer request history

  -- What follows the second reply.
  unfoldable pub respond : RouterDecision R.Float → Cited → Result (QueryDocumentsResponse R.Float)
  respond decision (answer_resp, citations) = elim (parse_answer_payload R answer_resp.content) [
    | raise e ↦ raise e
    | ok payload ↦ elim (query_route_to_proto R decision.route) [
      | raise e ↦ raise e
      | ok used_route ↦ ok (record {
        answer = payload.answer;
        used_route = used_route;
        citations = citations;
        confidence = decision.confidence;
      })
    ]
  ]

  -- What follows the decision of the router.
  unfoldable pub with_decision :
      QueryDocumentsRequest
      → RouterDecision R.Float
      → Exec QueryWorld (QueryDocumentsResponse R.Float)
  with_decision request decision = do
    cited ←
        routed_answer decision.route request
          (trim_history request.history (to_nat request.history_window))
    lift (respond decision cited)

  -- What follows the reply of the router.
  unfoldable pub with_reply :
      QueryDocumentsRequest → LlmResponse → Exec QueryWorld (QueryDocumentsResponse R.Float)
  with_reply request router_resp = do
    decision ← lift (parse_router_decision R router_resp.content)
    with_decision request decision

  -- What follows the checks of the request.
  unfoldable pub with_request :
      QueryDocumentsRequest → Exec QueryWorld (QueryDocumentsResponse R.Float)
  with_request request = do
    router_resp ← in_llm (M.complete (build_router_messages request.prompt) P.llm_router_model)
    with_reply request router_resp

  -- `handle`
  unfoldable pub query_documents_rpc :
      QueryDocumentsRequest → Exec QueryWorld (QueryDocumentsResponse R.Float)
  query_documents_rpc request = do
    require_some request.client_id (codes "client_id is required")
    require_some request.prompt (codes "prompt is required")
    require_some request.corpus_ids (codes "corpus_ids must not be empty")
    with_request request
