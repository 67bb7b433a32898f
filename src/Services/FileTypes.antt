-- ===== src/Services/FileTypes.antt =====
-- services/converters.py and extractors/__init__.py: the file types that both name.
use doccontext.Base.{◌≡◌, ap, ◌∙◌, ◌⊎◌, Option-cases, some, Text, codes, inl, inr}
use doccontext.Base.{arith}
use doccontext.Base.Int.{ℤ, pos, negsuc}
use doccontext.Base.Exn.{ok}
use doccontext.Base.Runtime.{Runtime}
use doccontext.Extractors.{Extractor, pdf_extractor, txt_extractor, md_extractor, get_extractor}
use doccontext.Services.Converters.{file_type_name, file_type_to_str}

file_type_name_cases :
    (v : ℤ) (name : Text)
    → file_type_name v ≡ some name
    → (name ≡ codes "pdf") ⊎ (name ≡ codes "txt") ⊎ (name ≡ codes "md")
unfolding file_type_name
file_type_name_cases (pos n) name e = ground arith
file_type_name_cases (negsuc n) name e = cc

module _ (R : Runtime) where
  name-registered :
      (name : Text)
      → (name ≡ codes "pdf") ⊎ (name ≡ codes "txt") ⊎ (name ≡ codes "md")
      → (extractor : Extractor) × (get_extractor R name ≡ ok extractor)
  unfolding get_extractor
  name-registered name (inl e) = (pdf_extractor, ap (get_extractor R) e)
  name-registered name (inr (inl e)) = (txt_extractor, ap (get_extractor R) e)
  name-registered name (inr (inr e)) = (md_extractor, ap (get_extractor R) e)

  -- Every file type that the service accepts has an extractor in the worker.
  pub get_extractor-file_type_to_str :
      (v : ℤ) (name : Text)
      → file_type_to_str R v ≡ ok name
      → (extractor : Extractor) × (get_extractor R name ≡ ok extractor)
  unfolding file_type_to_str
  get_extractor-file_type_to_str v name e = elim (Option-cases (file_type_name v)) [
    | inl unknown ↦ absurd (ground arith)
    | inr (known, found) ↦
        let accepted : known ≡ name = ground arith in
        name-registered name (file_type_name_cases v name (found ∙ ap some accepted))
  ]
