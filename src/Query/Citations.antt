-- ===== src/Query/Citations.antt =====
-- services/query_service.py: the citations of `_citations_for_full_doc`, next to
-- `_assemble_documents`.
use mathlib.Core.Path.{subst}
use doccontext.Base.{ℕ, ◌≤◌, ◌≡◌, refl, sym, ap, ◌∙◌, Option, none, some, List, [], ◌∷◌, map}
use doccontext.Base.{
  arith, ◌⊎◌, inl, inr, Text, same, same_iff, same_refl, Bool-cases, if◌then◌else◌,
}
use doccontext.Base.Dict.{Dict, update, lookup, keys, add_key, keys-update, lookup-update}
use doccontext.Models.{RetrievedChunk}
use doccontext.Query.Documents.{
  Citation, Span, append_chunk, group_into, texts_of, assemble_documents, extend_span, spans_into,
  span_citations, citations_for_full_doc,
}

-- The span that is stored for a document holds the positions from `a` up to `b`.
abbrev SpanHolds : ℕ → ℕ → Option Span → Type 0
SpanHolds a b none = ⊥
SpanHolds a b (some s) = (s.char_start ≤ a) × (b ≤ s.char_end)

module _ {F : Type 0} where
  -- The keys of a dict to which the documents of the chunks are added.
  abbrev add_documents : List Text → List (RetrievedChunk F) → List Text
  add_documents ks [] = ks
  add_documents ks (c ∷ chunks) = add_documents (add_key c.document_id ks) chunks

  keys-group_into :
      (by_doc : Dict (List (RetrievedChunk F))) (chunks : List (RetrievedChunk F))
      → keys (group_into by_doc chunks) ≡ add_documents (keys by_doc) chunks
  unfolding group_into
  keys-group_into by_doc [] = refl
  keys-group_into by_doc (c ∷ chunks) =
      keys-group_into (update c.document_id (append_chunk c) by_doc) chunks
      ∙ ap (λ ks. add_documents ks chunks) (keys-update c.document_id (append_chunk c) by_doc)

  keys-spans_into :
      (spans : Dict Span) (chunks : List (RetrievedChunk F))
      → keys (spans_into spans chunks) ≡ add_documents (keys spans) chunks
  unfolding spans_into
  keys-spans_into spans [] = refl
  keys-spans_into spans (c ∷ chunks) =
      keys-spans_into (update c.document_id (extend_span c) spans) chunks
      ∙ ap (λ ks. add_documents ks chunks) (keys-update c.document_id (extend_span c) spans)

  keys-texts_of : (by_doc : Dict (List (RetrievedChunk F))) → keys (texts_of by_doc) ≡ keys by_doc
  unfolding texts_of
  keys-texts_of [] = refl
  keys-texts_of ((j, chunks) ∷ by_doc) = ap (λ ks. j ∷ ks) (keys-texts_of by_doc)

  abbrev pub cited_document : Citation F → Text
  cited_document c = c.document_id

  map-span_citations :
      (zero_score : F) (spans : Dict Span)
      → map cited_document (span_citations zero_score spans) ≡ keys spans
  unfolding span_citations
  map-span_citations zero_score [] = refl
  map-span_citations zero_score ((j, s) ∷ spans) =
      ap (λ ks. j ∷ ks) (map-span_citations zero_score spans)

  -- The citations of a whole-document answer name the documents whose texts the model was shown,
  -- one citation for each, in the same order.
  pub citations_for_full_doc_documents :
      (zero_score : F) (chunks : List (RetrievedChunk F))
      → map cited_document (citations_for_full_doc zero_score chunks)
        ≡ keys (assemble_documents chunks)
  unfolding citations_for_full_doc assemble_documents
  citations_for_full_doc_documents zero_score chunks =
      map-span_citations zero_score (spans_into [] chunks)
      ∙ keys-spans_into [] chunks
      ∙ sym (keys-texts_of (group_into [] chunks) ∙ keys-group_into [] chunks)

  extend_span-SpanHolds :
      (a b : ℕ) (c : RetrievedChunk F) (o : Option Span)
      → SpanHolds a b o
      → SpanHolds a b (some (extend_span c o))
  extend_span-SpanHolds a b c none h = absurd h
  extend_span-SpanHolds a b c (some s) h = (omega arith, omega arith)

  update-SpanHolds :
      (d : Text) (a b : ℕ) (c : RetrievedChunk F) (spans : Dict Span)
      → SpanHolds a b (lookup d spans)
      → SpanHolds a b (lookup d (update c.document_id (extend_span c) spans))
  update-SpanHolds d a b c spans h = elim (Bool-cases (same c.document_id d)) [
    | inl own ↦
        rw (lookup-update, own)
          (extend_span-SpanHolds a b c (lookup c.document_id spans) (
            subst (λ k. SpanHolds a b (lookup k spans)) (sym ((same_iff c.document_id d).0 own)) h))
    | inr other ↦ rw (lookup-update, other) h
  ]

  spans_into-SpanHolds :
      (d : Text) (a b : ℕ) (spans : Dict Span) (chunks : List (RetrievedChunk F))
      → SpanHolds a b (lookup d spans)
      → SpanHolds a b (lookup d (spans_into spans chunks))
  unfolding spans_into
  spans_into-SpanHolds d a b spans [] h = h
  spans_into-SpanHolds d a b spans (c ∷ chunks) h =
      spans_into-SpanHolds d a b (update c.document_id (extend_span c) spans) chunks
        (update-SpanHolds d a b c spans h)

  new_span-SpanHolds :
      (c : RetrievedChunk F) (o : Option Span)
      → SpanHolds c.char_start c.char_end (some (extend_span c o))
  new_span-SpanHolds c none = (omega arith, omega arith)
  new_span-SpanHolds c (some s) = (omega arith, omega arith)

  -- Some citation is of the document and holds the positions from `a` up to `b`.
  abbrev pub IsCited : Text → ℕ → ℕ → List (Citation F) → Type 0
  IsCited d a b [] = ⊥
  IsCited d a b (c ∷ citations) =
      ((c.document_id ≡ d) × (c.char_start ≤ a) × (b ≤ c.char_end)) ⊎ IsCited d a b citations

  -- Every chunk lies within some citation of its document.
  abbrev pub AllCited : List (RetrievedChunk F) → List (Citation F) → Type 0
  AllCited [] citations = Unit
  AllCited (c ∷ chunks) citations =
      IsCited c.document_id c.char_start c.char_end citations × AllCited chunks citations

  span_citations-IsCited :
      (zero_score : F) (d : Text) (a b : ℕ) (spans : Dict Span)
      → SpanHolds a b (lookup d spans)
      → IsCited d a b (span_citations zero_score spans)
  unfolding span_citations lookup
  span_citations-IsCited zero_score d a b [] h = h
  span_citations-IsCited zero_score d a b ((j, s) ∷ spans) h = elim (Bool-cases (same j d)) [
    | inl own ↦
        let held : (s.char_start ≤ a) × (b ≤ s.char_end) =
          subst (λ t. SpanHolds a b (if t then some s else lookup d spans)) own h in
        inl ((same_iff j d).0 own, held.0, held.1)
    | inr other ↦ inr (
        span_citations-IsCited zero_score d a b spans
          (subst (λ t. SpanHolds a b (if t then some s else lookup d spans)) other h))
  ]

  spans_into-AllCited :
      (zero_score : F) (spans : Dict Span) (chunks : List (RetrievedChunk F))
      → AllCited chunks (span_citations zero_score (spans_into spans chunks))
  unfolding spans_into
  spans_into-AllCited zero_score spans [] = tt
  spans_into-AllCited zero_score spans (c ∷ chunks) =
      let more : Dict Span = update c.document_id (extend_span c) spans in
      (
        span_citations-IsCited zero_score c.document_id c.char_start c.char_end
            (spans_into more chunks)
            (spans_into-SpanHolds c.document_id c.char_start c.char_end more chunks
              (rw (lookup-update, same_refl) (new_span-SpanHolds c (lookup c.document_id spans)))),
        spans_into-AllCited zero_score more chunks,
      )

  -- Every chunk that the whole-document answer was made from lies within the span of some citation
  -- of its document.
  pub citations_for_full_doc-AllCited :
      (zero_score : F) (chunks : List (RetrievedChunk F))
      → AllCited chunks (citations_for_full_doc zero_score chunks)
  unfolding citations_for_full_doc
  citations_for_full_doc-AllCited zero_score chunks = spans_into-AllCited zero_score [] chunks
