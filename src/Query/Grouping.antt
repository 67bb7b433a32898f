-- ===== src/Query/Grouping.antt =====
-- services/query_service.py: the dicts of the query handler, seen from one document.
use mathlib.Core.List.{append_assoc, append-nil}
use doccontext.Base.{◌≡◌, refl, sym, ap, ◌∙◌, Option, none, some, List, [], ◌∷◌, ◌++◌, arith, Text}
use doccontext.Base.{same, same_iff, if◌then◌else◌, inl, inr, Bool-cases}
use doccontext.Base.Dict.{Dict, update, lookup, lookup-update}
use doccontext.Models.{RetrievedChunk}
use doccontext.Query.Documents.{
  append_chunk, group_into, document_text, texts_of, assemble_documents,
}
use mathlib.Core.Option

module _ {F : Type 0} where
  -- The chunks of one document, in the order of the list.
  unfoldable pub of_document : Text → List (RetrievedChunk F) → List (RetrievedChunk F)
  of_document d [] = []
  of_document d (c ∷ chunks) =
      let rest = of_document d chunks in if same c.document_id d then c ∷ rest else rest

  -- The entry of a document after more of its chunks came in.
  abbrev pub extend_group :
      Option (List (RetrievedChunk F)) → List (RetrievedChunk F) → Option (List (RetrievedChunk F))
  extend_group o [] = o
  extend_group o (c ∷ chunks) = extend_group (some (append_chunk c o)) chunks

  extend_group-some :
      (old chunks : List (RetrievedChunk F)) → extend_group (some old) chunks ≡ some (old ++ chunks)
  extend_group-some old [] = ap some (sym (append-nil old))
  extend_group-some old (c ∷ chunks) =
      extend_group-some (old ++ c ∷ []) chunks ∙ ap some (append_assoc old (c ∷ []) chunks)

  lookup-group_into :
      (d : Text) (by_doc : Dict (List (RetrievedChunk F))) (chunks : List (RetrievedChunk F))
      → lookup d (group_into by_doc chunks) ≡ extend_group (lookup d by_doc) (of_document d chunks)
  unfolding group_into of_document
  lookup-group_into d by_doc [] = refl
  lookup-group_into d by_doc (c ∷ chunks) =
      lookup-group_into d (update c.document_id (append_chunk c) by_doc) chunks
      ∙ rw lookup-update (elim (Bool-cases (same c.document_id d)) [
        | inl e ↦ rw e (
            ap (λ k. extend_group (some (append_chunk c (lookup k by_doc))) (of_document d chunks))
              ((same_iff c.document_id d).0 e))
        | inr e ↦ rw e
      ])

  lookup-texts_of :
      (d : Text) (by_doc : Dict (List (RetrievedChunk F)))
      → lookup d (texts_of by_doc) ≡ Option.map document_text (lookup d by_doc)
  unfolding texts_of lookup
  lookup-texts_of d [] = refl
  lookup-texts_of d ((j, chunks) ∷ by_doc) = ground (arith, lookup-texts_of d by_doc)

  -- `none` for a document of which there is no chunk, and else the text made of its chunks alone.
  abbrev pub text_of_chunks : List (RetrievedChunk F) → Option Text
  text_of_chunks [] = none
  text_of_chunks (c ∷ chunks) = some (document_text (c ∷ chunks))

  -- The text that a document is given depends on the chunks of that document only.
  pub lookup-assemble_documents :
      (d : Text) (chunks : List (RetrievedChunk F))
      → lookup d (assemble_documents chunks) ≡ text_of_chunks (of_document d chunks)
  unfolding assemble_documents lookup
  lookup-assemble_documents d chunks =
      lookup-texts_of d (group_into [] chunks)
      ∙ ap (Option.map document_text) (lookup-group_into d [] chunks)
      ∙ whole (of_document d chunks)
    where
      whole :
          (own : List (RetrievedChunk F))
          → Option.map document_text (extend_group none own) ≡ text_of_chunks own
      whole [] = refl
      whole (c ∷ own) = ap (Option.map document_text) (extend_group-some (c ∷ []) own)
