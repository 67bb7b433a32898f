-- ===== src/Workers/RoundTrip.antt =====
-- workers/envelope.py: `to_payload` and `from_payload` on the same message.
use doccontext.Base.{
  ◌≡◌, refl, Option, none, some, [], ◌∷◌, arith, false, Text, codes, is_empty, ◌⊎◌,
}
use doccontext.Base.Exn.{Result, ok, raise, malformed_job_envelope}
use doccontext.Base.Json.{Fields, str, obj, get_field}
use doccontext.Base.Runtime.{Runtime}
use doccontext.Models.{JobType, index_document, delete_document, job_type_of_str}
use doccontext.Workers.Envelope.{JobEnvelope, from_payload, to_payload}

-- The empty path is read as no path.
abbrev pub path_or_none : Option Text → Option Text
path_or_none none = none
path_or_none (some []) = none
path_or_none (some (c ∷ path)) = some (c ∷ path)

pub path_or_none_full : (path : Text) → is_empty path ≡ false → path_or_none (some path) ≡ some path
path_or_none_full [] h = cc
path_or_none_full (c ∷ path) h = refl

-- The call raises `MalformedJobEnvelope`.
abbrev pub IsMalformed : Result JobEnvelope → Type 0
IsMalformed (ok env) = ⊥
IsMalformed (raise e) = e.kind ≡ malformed_job_envelope

module _ (R : Runtime) where
  round_trip :
      (job_id client_id corpus_id document_id file_type : Text) (job_type : JobType)
      (file_path : Option Text)
      → let env : JobEnvelope = record {
        job_id = job_id;
        job_type = job_type;
        client_id = client_id;
        corpus_id = corpus_id;
        document_id = document_id;
        file_type = file_type;
        file_path = file_path;
      } in
        from_payload R (to_payload R env) ≡ ok (record env { file_path = path_or_none file_path })
  unfolding from_payload to_payload get_field job_type_of_str
  round_trip i c o d [] index_document none = refl
  round_trip i c o d [] index_document (some []) = refl
  round_trip i c o d [] index_document (some (_ ∷ _)) = refl
  round_trip i c o d [] delete_document none = refl
  round_trip i c o d [] delete_document (some []) = refl
  round_trip i c o d [] delete_document (some (_ ∷ _)) = refl
  round_trip i c o d (_ ∷ _) index_document none = refl
  round_trip i c o d (_ ∷ _) index_document (some []) = refl
  round_trip i c o d (_ ∷ _) index_document (some (_ ∷ _)) = refl
  round_trip i c o d (_ ∷ _) delete_document none = refl
  round_trip i c o d (_ ∷ _) delete_document (some []) = refl
  round_trip i c o d (_ ∷ _) delete_document (some (_ ∷ _)) = refl

  -- Every envelope is read back from its payload; only an empty `file_path` turns into `None`.
  pub from_payload-to_payload :
      (env : JobEnvelope)
      → from_payload R (to_payload R env)
        ≡ ok (record env { file_path = path_or_none env.file_path })
  from_payload-to_payload env =
      round_trip env.job_id env.client_id env.corpus_id env.document_id env.file_type env.job_type
        env.file_path

  -- A dict in which one of the five required keys is missing, or whose `job_type` is a text that
  -- names no job type, is refused with `MalformedJobEnvelope`.
  pub from_payload_refuses :
      (fields : Fields R.Float)
      → (get_field (codes "job_type") fields ≡ none)
        ⊎ (get_field (codes "job_id") fields ≡ none)
        ⊎ (get_field (codes "client_id") fields ≡ none)
        ⊎ (get_field (codes "corpus_id") fields ≡ none)
        ⊎ (get_field (codes "document_id") fields ≡ none)
        ⊎ ((raw : Text) × (get_field (codes "job_type") fields ≡ some (str raw))
            × (job_type_of_str raw ≡ none))
      → IsMalformed (from_payload R (obj fields))
  unfolding from_payload
  from_payload_refuses fields h = ground arith
