-- ===== src/Query/Documents.antt =====
-- services/query_service.py: `_assemble_documents`, `_citations_for_section` and
-- `_citations_for_full_doc`.
use mathlib.Core.List.{flatten}
use doccontext.Base.{ℕ, ◌-◌, min, max, Option, none, some}
use doccontext.Base.{List, [], ◌∷◌, ◌++◌, map, leb, if◌then◌else◌, Text, drop}
use doccontext.Base.Dict.{Dict, update}
use doccontext.Base.Sort.{sort_by}
use doccontext.Models.{RetrievedChunk}

-- `pb.Citation`
pub record Citation (F : Type 0) : Type 0 where
  pub document_id : Text
  pub corpus_id : Text
  pub chunk_index : ℕ
  pub char_start : ℕ
  pub char_end : ℕ
  pub score : F

-- A value of the dict `spans`.
pub record Span : Type 0 where
  pub corpus_id : Text
  pub chunk_index : ℕ
  pub char_start : ℕ
  pub char_end : ℕ

-- What the loop of `_assemble_documents` appends for a chunk.
abbrev pub tail_piece : ℕ → ℕ → Text → Text
tail_piece cursor char_start text =
    if leb cursor char_start then text else drop (cursor - char_start) text

module _ {F : Type 0} where
  -- `by_doc[c.document_id].append(c)`, on a `defaultdict(list)`
  abbrev pub append_chunk :
      RetrievedChunk F → Option (List (RetrievedChunk F)) → List (RetrievedChunk F)
  append_chunk c none = c ∷ []
  append_chunk c (some chunks) = chunks ++ c ∷ []

  -- The loop that fills `by_doc`.
  unfoldable pub group_into :
      Dict (List (RetrievedChunk F)) → List (RetrievedChunk F) → Dict (List (RetrievedChunk F))
  unfolding update
  group_into by_doc [] = by_doc
  group_into by_doc (c ∷ chunks) = group_into (update c.document_id (append_chunk c) by_doc) chunks

  -- The loop over the sorted chunks of one document, from a value of `cursor`.
  unfoldable pub pieces_from : ℕ → List (RetrievedChunk F) → List Text
  pieces_from cursor [] = []
  pieces_from cursor (c ∷ chunks) =
      tail_piece cursor c.char_start c.text ∷ pieces_from (max cursor c.char_end) chunks

  -- The text of one document: `sort`, the loop and `"".join(pieces)`.
  unfoldable pub document_text : List (RetrievedChunk F) → Text
  unfolding sort_by pieces_from
  document_text chunks = flatten (pieces_from 0 (sort_by (λ c. c.chunk_index) chunks))

  unfoldable pub texts_of : Dict (List (RetrievedChunk F)) → List (Text × Text)
  unfolding document_text
  texts_of [] = []
  texts_of ((document_id, chunks) ∷ by_doc) = (document_id, document_text chunks) ∷ texts_of by_doc

  -- `_assemble_documents`
  unfoldable pub assemble_documents : List (RetrievedChunk F) → List (Text × Text)
  unfolding group_into texts_of
  assemble_documents chunks = texts_of (group_into [] chunks)

  -- `_citations_for_section`
  unfoldable pub citations_for_section : List (RetrievedChunk F) → List (Citation F)
  citations_for_section = map λ c. record {
    document_id = c.document_id;
    corpus_id = c.corpus_id;
    chunk_index = c.chunk_index;
    char_start = c.char_start;
    char_end = c.char_end;
    score = c.score;
  }

  -- The body of the loop that fills `spans`.
  abbrev pub extend_span : RetrievedChunk F → Option Span → Span
  extend_span c none = record {
    corpus_id = c.corpus_id;
    chunk_index = c.chunk_index;
    char_start = c.char_start;
    char_end = c.char_end;
  }
  extend_span c (some s) = record {
    corpus_id = s.corpus_id;
    chunk_index = min s.chunk_index c.chunk_index;
    char_start = min s.char_start c.char_start;
    char_end = max s.char_end c.char_end;
  }

  unfoldable pub spans_into : Dict Span → List (RetrievedChunk F) → Dict Span
  unfolding update
  spans_into spans [] = spans
  spans_into spans (c ∷ chunks) = spans_into (update c.document_id (extend_span c) spans) chunks

  -- `_citations_for_full_doc`; `zero_score` is the literal 0.0.
  unfoldable pub span_citations : F → Dict Span → List (Citation F)
  span_citations zero_score [] = []
  span_citations zero_score ((doc_id, s) ∷ spans) =
      record {
        document_id = doc_id;
        corpus_id = s.corpus_id;
        chunk_index = s.chunk_index;
        char_start = s.char_start;
        char_end = s.char_end;
        score = zero_score;
      }
      ∷ span_citations zero_score spans

  unfoldable pub citations_for_full_doc : F → List (RetrievedChunk F) → List (Citation F)
  unfolding spans_into span_citations
  citations_for_full_doc zero_score chunks = span_citations zero_score (spans_into [] chunks)
