-- ===== src/Query/Access.antt =====
-- services/query_service.py: the corpora of the citations, from the store to the reply of `handle`.
use mathlib.Core.Path.{subst}
use doccontext.Base.{◌≡◌, sym, true, false, List, [], ◌∷◌, arith, ◌⊎◌}
use doccontext.Base.{inl, inr, Text, codes, same, is_empty, Bool-cases}
use doccontext.Base.Exn.{ok, Result-cases, abort_invalid_argument}
use doccontext.Base.Exec.{lift, proceed-ok}
use doccontext.Base.Dict.{Dict, update}
use doccontext.Models.{RetrievedChunk}
use doccontext.Stores.Qdrant.{contains_text}
use doccontext.Stores.Tenants.{IsOwn, AllOwn}
use doccontext.Stores.Promise.{IsTenantStore}
use doccontext.Query.Documents.{
  Citation, Span, extend_span, spans_into, span_citations, citations_for_section,
  citations_for_full_doc,
}
use doccontext.Llm.Client.{Message}
use doccontext.Query.Replies.{RouterDecision, parse_router_decision, trim_history}
use doccontext.Llm.Prompts.{build_router_messages}
use doccontext.Services.Submission.{IsAborted}
use doccontext.Base.Int.{to_nat}
use doccontext.Query.Handler.{
  QueryDocumentsRequest, QueryDocumentsResponse, QueryParts, QueryWorld, in_llm, Cited, embed_one,
  top_k_of, full_doc_answer, section_answer, routed_answer, respond, with_decision, with_reply,
  with_request, query_documents_rpc,
}

module _ (corpus_ids : List Text) where
  -- Every span is of one of the corpora.
  abbrev AllSpansNamed : Dict Span → Type 0
  AllSpansNamed [] = Unit
  AllSpansNamed ((d, s) ∷ spans) =
      (contains_text corpus_ids s.corpus_id ≡ true) × AllSpansNamed spans

module _ {F : Type 0} (corpus_ids : List Text) where
  -- Every citation is of one of the corpora.
  abbrev pub AllNamed : List (Citation F) → Type 0
  AllNamed [] = Unit
  AllNamed (c ∷ citations) = (contains_text corpus_ids c.corpus_id ≡ true) × AllNamed citations

  own-named :
      (client_id : Text) (c : RetrievedChunk F)
      → is_empty corpus_ids ≡ false
      → IsOwn client_id corpus_ids c
      → contains_text corpus_ids c.corpus_id ≡ true
  own-named client_id c some_corpus own = ground arith

  citations_for_section-AllNamed :
      (client_id : Text) (hits : List (RetrievedChunk F))
      → is_empty corpus_ids ≡ false
      → AllOwn client_id corpus_ids hits
      → AllNamed (citations_for_section hits)
  unfolding citations_for_section
  citations_for_section-AllNamed client_id [] some_corpus h = tt
  citations_for_section-AllNamed client_id (c ∷ hits) some_corpus h = (
    own-named client_id c some_corpus h.0,
    citations_for_section-AllNamed client_id hits some_corpus h.1,
  )

  update-AllSpansNamed :
      (c : RetrievedChunk F) (spans : Dict Span)
      → contains_text corpus_ids c.corpus_id ≡ true
      → AllSpansNamed corpus_ids spans
      → AllSpansNamed corpus_ids (update c.document_id (extend_span c) spans)
  unfolding update
  update-AllSpansNamed c [] named h = (named, tt)
  update-AllSpansNamed c ((j, s) ∷ spans) named h = elim (Bool-cases (same j c.document_id)) [
    | inl own ↦ rw own (h.0, h.1)
    | inr other ↦ rw other (h.0, update-AllSpansNamed c spans named h.1)
  ]

  spans_into-AllSpansNamed :
      (client_id : Text) (spans : Dict Span) (docs : List (RetrievedChunk F))
      → is_empty corpus_ids ≡ false
      → AllOwn client_id corpus_ids docs
      → AllSpansNamed corpus_ids spans
      → AllSpansNamed corpus_ids (spans_into spans docs)
  unfolding spans_into
  spans_into-AllSpansNamed client_id spans [] some_corpus own h = h
  spans_into-AllSpansNamed client_id spans (c ∷ docs) some_corpus own h =
      spans_into-AllSpansNamed client_id (update c.document_id (extend_span c) spans) docs
        some_corpus own.1 (update-AllSpansNamed c spans (own-named client_id c some_corpus own.0) h)

  span_citations-AllNamed :
      (zero_score : F) (spans : Dict Span)
      → AllSpansNamed corpus_ids spans
      → AllNamed (span_citations zero_score spans)
  unfolding span_citations
  span_citations-AllNamed zero_score [] h = tt
  span_citations-AllNamed zero_score ((d, s) ∷ spans) h =
      (h.0, span_citations-AllNamed zero_score spans h.1)

  citations_for_full_doc-AllNamed :
      (zero_score : F) (client_id : Text) (docs : List (RetrievedChunk F))
      → is_empty corpus_ids ≡ false
      → AllOwn client_id corpus_ids docs
      → AllNamed (citations_for_full_doc zero_score docs)
  unfolding citations_for_full_doc
  citations_for_full_doc-AllNamed zero_score client_id docs some_corpus own =
      span_citations-AllNamed zero_score (spans_into [] docs)
        (spans_into-AllSpansNamed client_id [] docs some_corpus own tt)

module _ (P : QueryParts) (T : IsTenantStore P.V) where
  open P use {R, V, M}

  respond-citations :
      (decision : RouterDecision R.Float) (cited : Cited P)
      (response : QueryDocumentsResponse R.Float)
      → respond P decision cited ≡ ok response
      → response.citations ≡ cited.1
  unfolding respond
  respond-citations decision cited response h = ground arith

  section_answer-AllNamed :
      (request : QueryDocumentsRequest) (history : List Message) (w : QueryWorld P)
      (cited : Cited P)
      → is_empty request.corpus_ids ≡ false
      → (section_answer P request history w).0 ≡ ok cited
      → AllNamed request.corpus_ids cited.1
  unfolding section_answer
  section_answer-AllNamed request history w cited some_corpus h =
      elim (Result-cases (embed_one P request.prompt)) [
        | inr (exc, e) ↦ absurd (ground arith)
        | inl (v, embedded) ↦
            elim (Result-cases
              (V.search v request.client_id request.corpus_ids (top_k_of P request.top_k)
                w.store).0) [
                  | inl (hits, e) ↦
                      subst (AllNamed request.corpus_ids)
                        (let q : citations_for_section hits ≡ cited.1 = ground arith in q)
                        (citations_for_section-AllNamed request.corpus_ids request.client_id hits
                          some_corpus
                          (T.searched v request.client_id request.corpus_ids
                            (top_k_of P request.top_k) w.store hits e))
                  | inr (exc, e) ↦ absurd (ground arith)
                ]
      ]

  full_doc_answer-AllNamed :
      (request : QueryDocumentsRequest) (history : List Message) (w : QueryWorld P)
      (cited : Cited P)
      → is_empty request.corpus_ids ≡ false
      → (full_doc_answer P request history w).0 ≡ ok cited
      → AllNamed request.corpus_ids cited.1
  unfolding full_doc_answer
  full_doc_answer-AllNamed request history w cited some_corpus h =
      elim (Result-cases
        (V.list_chunks_for_corpora request.client_id request.corpus_ids 10000 w.store).0) [
          | inl (docs, e) ↦
              subst (AllNamed request.corpus_ids)
                (let q : citations_for_full_doc R.zero docs ≡ cited.1 = ground arith in q)
                (citations_for_full_doc-AllNamed request.corpus_ids R.zero request.client_id docs
                  some_corpus (T.scanned request.client_id request.corpus_ids 10000 w.store docs e))
          | inr (exc, e) ↦ absurd (ground arith)
        ]

  checked :
      (request : QueryDocumentsRequest) (w : QueryWorld P)
      (response : QueryDocumentsResponse R.Float)
      → (query_documents_rpc P request w).0 ≡ ok response
      → (is_empty request.corpus_ids ≡ false) × ((with_request P request w).0 ≡ ok response)
  unfolding query_documents_rpc
  checked request w response h = ground arith

  routed_answer-AllNamed :
      (route : Text) (request : QueryDocumentsRequest) (history : List Message) (w : QueryWorld P)
      (cited : Cited P)
      → is_empty request.corpus_ids ≡ false
      → (routed_answer P route request history w).0 ≡ ok cited
      → AllNamed request.corpus_ids cited.1
  unfolding routed_answer
  routed_answer-AllNamed route request history w cited some_corpus h =
      elim (Bool-cases (same route (codes "FULL_DOC"))) [
        | inl full ↦ full_doc_answer-AllNamed request history w cited some_corpus (rw full at h)
        | inr section ↦
            section_answer-AllNamed request history w cited some_corpus (rw section at h)
      ]

  with_decision-AllNamed :
      (request : QueryDocumentsRequest) (decision : RouterDecision R.Float) (w : QueryWorld P)
      (response : QueryDocumentsResponse R.Float)
      → is_empty request.corpus_ids ≡ false
      → (with_decision P request decision w).0 ≡ ok response
      → AllNamed request.corpus_ids response.citations
  unfolding with_decision
  with_decision-AllNamed request decision w response some_corpus h =
      let history : List Message = trim_history request.history (to_nat request.history_window) in
      let (cited, answered, replied) =
        proceed-ok (λ cited. lift (respond P decision cited))
          (routed_answer P decision.route request history w) response h in
      subst (AllNamed request.corpus_ids) (sym (respond-citations decision cited response replied))
        (routed_answer-AllNamed decision.route request history w cited some_corpus answered)

  -- Over a store that keeps its promise, every citation of every answer is of a corpus that the
  -- request names, whatever the language model replies and whichever route it chooses.
  pub query_documents_rpc-AllNamed :
      (request : QueryDocumentsRequest) (w : QueryWorld P)
      (response : QueryDocumentsResponse R.Float)
      → (query_documents_rpc P request w).0 ≡ ok response
      → AllNamed request.corpus_ids response.citations
  unfolding with_request with_reply
  query_documents_rpc-AllNamed request w response h =
      let (some_corpus, h₁) = checked request w response h in
      let (router_resp, replied, h₂) =
        proceed-ok (with_reply P request)
          (in_llm P (M.complete (build_router_messages request.prompt) P.llm_router_model) w)
          response h₁ in
      elim (Result-cases (parse_router_decision R router_resp.content)) [
        | inl (decision, e) ↦
            with_decision-AllNamed request decision _ response some_corpus (rw e at h₂)
        | inr (exc, e) ↦ absurd (ground arith)
      ]

module _ (P : QueryParts) where
  -- A request without a client, a prompt or a corpus is aborted with INVALID_ARGUMENT; neither the
  -- store nor the language model is called.
  pub query_documents_rpc_invalid :
      (request : QueryDocumentsRequest) (w : QueryWorld P)
      → (is_empty request.client_id ≡ true)
        ⊎ (is_empty request.prompt ≡ true)
        ⊎ (is_empty request.corpus_ids ≡ true)
      → IsAborted abort_invalid_argument (query_documents_rpc P request w).0
        × ((query_documents_rpc P request w).1 ≡ w)
  unfolding query_documents_rpc
  query_documents_rpc_invalid request w h = ground arith
