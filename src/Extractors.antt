-- ===== src/Extractors.antt =====
-- extractors/: the registry, and the extractors over the files that the operating system and the
-- PDF reader give.
use doccontext.Base.{◌+◌, ◌&&◌, Option, none, some, List, [], ◌∷◌, ◌++◌, leb}
use doccontext.Base.{◌==◌, if◌then◌else◌, Text, codes, same, is_empty}
use doccontext.Base.Exn.{
  Exn, Result, ok, raise, throw, ◌>>=◌, unsupported_file_type, extractor_error,
}
use doccontext.Base.Runtime.{Runtime, repr_text}

-- What `path.read_text(encoding="utf-8")` does.
pub data ReadText : Type 0 where
  decoded : Text → ReadText
  undecodable : ReadText
  os_error : Text → ReadText

-- What `PdfReader(str(path))` does: the pages, with what `extract_text` returns for each, or an
-- error; `raised_open` is an error that is neither `PdfReadError` nor `OSError`.
pub data ReadPdf : Type 0 where
  opened : List (Result (Option Text)) → ReadPdf
  bad_pdf : Text → ReadPdf
  raised_open : Exn → ReadPdf

-- Files, by their path.
pub record Files : Type 0 where
  pub read_text : Text → ReadText
  -- `read_text(encoding="utf-8", errors="replace")`
  pub read_text_replace : Text → Result Text
  pub read_pdf : Text → ReadPdf

-- The classes of the registry; `MdExtractor` inherits `extract` from `TxtExtractor`.
pub data Extractor : Type 0 where
  pdf_extractor txt_extractor md_extractor : Extractor

-- `text.lower()`, exact on ASCII; no other character is mapped to a letter of "pdf", "txt" or "md".
unfoldable pub lower : Text → Text
lower [] = []
lower (c ∷ text) = (if leb b'A' c && leb c b'Z' then c + 32 else c) ∷ lower text

-- `text.lstrip(".")`
unfoldable pub lstrip_dots : Text → Text
lstrip_dots [] = []
lstrip_dots (c ∷ text) = let rest = lstrip_dots text in if c == b'.' then rest else c ∷ text

-- `_REGISTRY.get(key)`
unfoldable pub registered : Text → Option Extractor
registered key =
    if same key (codes "pdf")
    then some pdf_extractor
    else if same key (codes "txt")
    then some txt_extractor
    else if same key (codes "md")
    then some md_extractor
    else none

-- `not p.strip()` is left out; the others are joined by a blank line.
abbrev join_blank : List Text → Text
join_blank [] = []
join_blank (p ∷ []) = p
join_blank (p ∷ q ∷ pages) = p ++ codes "\n\n" ++ join_blank (q ∷ pages)

module _ (R : Runtime) where
  -- `get_extractor`
  unfoldable pub get_extractor : Text → Result Extractor
  unfolding registered lower lstrip_dots same
  get_extractor file_type = elim (registered (lstrip_dots (lower file_type))) [
    | none ↦
        throw unsupported_file_type
          (codes "no extractor registered for file type " ++ repr_text R file_type)
    | some extractor ↦ ok extractor
  ]

  module _ (files : Files) where
    -- `TxtExtractor.extract`. An error of the second read is raised inside an `except` clause, so
    -- the clause for `OSError` does not see it.
    unfoldable pub extract_txt : Text → Result Text
    extract_txt path = elim (files.read_text path) [
      | decoded text ↦ ok text
      | undecodable ↦ files.read_text_replace path
      | os_error message ↦
          throw extractor_error (codes "failed to read " ++ path ++ codes ": " ++ message)
    ]

    abbrev page_text : Text → Result (Option Text) → Result Text
    page_text path (raise e) =
        throw extractor_error
          (codes "failed to extract page text from " ++ path ++ codes ": " ++ e.message)
    page_text path (ok none) = ok []
    page_text path (ok (some text)) = ok text

    -- The loop over `reader.pages`.
    unfoldable pub page_texts : Text → List (Result (Option Text)) → Result (List Text)
    page_texts path [] = ok []
    page_texts path (page ∷ pages) = do
      text ← page_text path page
      rest ← page_texts path pages
      ok (text ∷ rest)

    -- `p.strip() for p in pages if p.strip()`
    unfoldable pub stripped_pages : List Text → List Text
    stripped_pages [] = []
    stripped_pages (p ∷ pages) =
        let rest = stripped_pages pages in if is_empty (R.strip p) then rest else R.strip p ∷ rest

    -- `PdfExtractor.extract`
    unfoldable pub extract_pdf : Text → Result Text
    unfolding page_texts stripped_pages
    extract_pdf path = elim (files.read_pdf path) [
      | bad_pdf message ↦
          throw extractor_error (codes "failed to open PDF " ++ path ++ codes ": " ++ message)
      | raised_open e ↦ raise e
      | opened pages ↦ (do texts ← page_texts path pages; ok (join_blank (stripped_pages texts)))
    ]

    abbrev extract_with : Text → Extractor → Result Text
    extract_with path pdf_extractor = extract_pdf path
    extract_with path txt_extractor = extract_txt path
    extract_with path md_extractor = extract_txt path

    -- `extract_text`
    unfoldable pub extract_text : Text → Text → Result Text
    unfolding get_extractor extract_txt extract_pdf
    extract_text path file_type = get_extractor file_type >>= extract_with path
