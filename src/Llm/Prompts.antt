-- ===== src/Llm/Prompts.antt =====
-- llm/prompts.py: the messages for the language model.
use doccontext.Base.{List, [], ◌∷◌, ◌++◌, Text, codes}
use doccontext.Base.Runtime.{Runtime, decimal}
use doccontext.Models.{RetrievedChunk}
use doccontext.Llm.Client.{Message, user, system}

unfoldable pub router_system_instruction : Text
router_system_instruction =
    codes "You are a routing classifier for a retrieval-augmented QA system.\n"
    ++ codes "\n"
    ++ codes "Classify the user's question into exactly one of:\n"
    ++ codes "\n"
    ++ codes "- FULL_DOC: the answer requires understanding the whole document\n"
    ++ codes "  (summarise, outline, overall tone, structure, cross-section comparison).\n"
    ++ codes "- SECTION: the answer is a specific fact, passage, or quote that lives\n"
    ++ codes "  in a small part of the document.\n"
    ++ codes "\n"
    ++ codes "Be conservative: default to SECTION unless the question clearly needs\n"
    ++ codes "whole-document reasoning.\n"
    ++ codes "\n"
    ++ codes "Respond with STRICT JSON on a single line and nothing else, matching:\n"
    ++ codes "{\"route\": \"FULL_DOC\" | \"SECTION\", \"confidence\": <float between 0 and 1>}\n"

unfoldable pub answer_section_system_instruction : Text
answer_section_system_instruction =
    codes "You are a retrieval-augmented assistant. Answer the user's question using\n"
    ++ codes "ONLY the retrieved chunks provided below. If the chunks do not contain\n"
    ++ codes "enough information, say so honestly.\n"
    ++ codes "\n"
    ++ codes "Cite the chunk_id of every chunk you used.\n"
    ++ codes "\n"
    ++ codes "Respond with STRICT JSON on a single line and nothing else, matching:\n"
    ++ codes "{\n"
    ++ codes "  \"answer\": <string>,\n"
    ++ codes "  \"citations\": [\n"
    ++ codes "    {\"chunk_id\": <string>, \"document_id\": <string>, \"quote\": <string>}\n"
    ++ codes "  ]\n"
    ++ codes "}\n"

unfoldable pub answer_full_doc_system_instruction : Text
answer_full_doc_system_instruction =
    codes "You are an assistant answering questions over one or more full documents.\n"
    ++ codes "Use the complete documents provided below; you may summarise, compare, and\n"
    ++ codes "synthesize across sections.\n"
    ++ codes "\n"
    ++ codes "If a claim leans on a specific passage, include it as a citation with the\n"
    ++ codes "document_id (chunk_id may be empty).\n"
    ++ codes "\n"
    ++ codes "Respond with STRICT JSON on a single line and nothing else, matching:\n"
    ++ codes "{\n"
    ++ codes "  \"answer\": <string>,\n"
    ++ codes "  \"citations\": [\n"
    ++ codes "    {\"chunk_id\": <string>, \"document_id\": <string>, \"quote\": <string>}\n"
    ++ codes "  ]\n"
    ++ codes "}\n"

-- `"\n\n".join(blocks)`
unfoldable pub join_blocks : List Text → Text
join_blocks [] = []
join_blocks (b ∷ []) = b
join_blocks (b ∷ c ∷ blocks) = b ++ codes "\n\n" ++ join_blocks (c ∷ blocks)

module _ (R : Runtime) where
  abbrev chunk_block : RetrievedChunk R.Float → Text
  chunk_block c =
      codes "--- CHUNK chunk_id="
      ++ c.chunk_id
      ++ codes " document_id="
      ++ c.document_id
      ++ codes " chunk_index="
      ++ decimal R c.chunk_index
      ++ codes " score="
      ++ R.float_to_fixed c.score
      ++ codes " ---\n"
      ++ c.text

  abbrev chunk_blocks : List (RetrievedChunk R.Float) → List Text
  chunk_blocks [] = []
  chunk_blocks (c ∷ chunks) = chunk_block c ∷ chunk_blocks chunks

  -- `format_chunks`
  unfoldable pub format_chunks : List (RetrievedChunk R.Float) → Text
  unfolding join_blocks
  format_chunks chunks = join_blocks (chunk_blocks chunks)

abbrev document_blocks : List (Text × Text) → List Text
document_blocks [] = []
document_blocks ((document_id, text) ∷ docs) =
    (codes "--- DOCUMENT document_id=" ++ document_id ++ codes " ---\n" ++ text)
    ∷ document_blocks docs

-- `format_full_documents`
unfoldable pub format_full_documents : List (Text × Text) → Text
unfolding join_blocks
format_full_documents docs = join_blocks (document_blocks docs)

-- `build_router_messages`
unfoldable pub build_router_messages : Text → List Message
build_router_messages user_prompt =
    record { role = user; content = user_prompt }
    ∷ record { role = system; content = router_system_instruction }
    ∷ []

-- The messages of both answers.
abbrev answer_messages : Text → List Message → Text → Text → List Message
answer_messages user_prompt history instruction context =
    record { role = user; content = user_prompt }
    ∷ (history
        ++ record { role = system; content = instruction }
          ∷ record { role = system; content = context }
          ∷ [])

-- `build_section_answer_messages`
unfoldable pub build_section_answer_messages :
    (R : Runtime) → Text → List Message → List (RetrievedChunk R.Float) → List Message
build_section_answer_messages R user_prompt history chunks =
    answer_messages user_prompt history answer_section_system_instruction
      (codes "Retrieved chunks:\n\n" ++ format_chunks R chunks)

-- `build_full_doc_answer_messages`
unfoldable pub build_full_doc_answer_messages :
    Text → List Message → List (Text × Text) → List Message
build_full_doc_answer_messages user_prompt history documents =
    answer_messages user_prompt history answer_full_doc_system_instruction
      (codes "Full documents:\n\n" ++ format_full_documents documents)
