-- ===== src/Workers/Envelope.antt =====
-- workers/envelope.py: the messages of the queue `document_jobs`.
use doccontext.Base.{Option, none, some, ◌++◌, Text, codes, if◌then◌else◌}
use doccontext.Base.Exn.{
  Result, ok, raise, throw, ◌>>=◌, value_error, key_error, type_error, malformed_job_envelope,
}
use doccontext.Base.Json.{Json, Fields, null, str, obj, end, field, get_field}
use doccontext.Base.Runtime.{Runtime, truthy, to_str, repr_text}
use doccontext.Models.{JobType, job_type_to_str, job_type_of_str}

-- `JobEnvelope`
pub record JobEnvelope : Type 0 where
  pub job_id : Text
  pub job_type : JobType
  pub client_id : Text
  pub corpus_id : Text
  pub document_id : Text
  pub file_type : Text
  pub file_path : Option Text

module _ (R : Runtime) where
  -- `payload[key]`
  unfoldable pub required : Text → Fields R.Float → Result (Json R.Float)
  required key fields = elim (get_field key fields) [
    | none ↦ throw key_error (repr_text R key)
    | some v ↦ ok v
  ]

  -- `JobType(raw_type)`
  unfoldable pub job_type_of_json : Json R.Float → Result JobType
  job_type_of_json (str value) = elim (job_type_of_str value) [
    | none ↦ throw value_error (repr_text R value ++ codes " is not a valid JobType")
    | some t ↦ ok t
  ]
  job_type_of_json v = throw value_error (R.repr v ++ codes " is not a valid JobType")

  -- `str(payload.get("file_type") or "")`
  unfoldable pub text_or_empty : Option (Json R.Float) → Text
  unfolding truthy to_str
  text_or_empty none = codes ""
  text_or_empty (some v) = if truthy R v then to_str R v else codes ""

  -- `str(payload["file_path"]) if payload.get("file_path") else None`
  unfoldable pub text_or_none : Option (Json R.Float) → Option Text
  unfolding truthy to_str
  text_or_none none = none
  text_or_none (some v) = if truthy R v then some (to_str R v) else none

  -- The body of the `try` of `from_payload`.
  unfoldable pub parse_fields : Fields R.Float → Result JobEnvelope
  unfolding required job_type_of_json text_or_empty text_or_none
  parse_fields fields = do
    raw_type ← required (codes "job_type") fields
    job_id ← required (codes "job_id") fields
    job_type ← job_type_of_json raw_type
    client_id ← required (codes "client_id") fields
    corpus_id ← required (codes "corpus_id") fields
    document_id ← required (codes "document_id") fields
    ok (record {
      job_id = to_str R job_id;
      job_type = job_type;
      client_id = to_str R client_id;
      corpus_id = to_str R corpus_id;
      document_id = to_str R document_id;
      file_type = text_or_empty (get_field (codes "file_type") fields);
      file_path = text_or_none (get_field (codes "file_path") fields);
    })

  -- `except (KeyError, ValueError)`: no other exception is raised by the body on a dict.
  abbrev malformed : Result JobEnvelope → Result JobEnvelope
  malformed (ok env) = ok env
  malformed (raise e) =
      throw malformed_job_envelope (codes "payload is not a valid job envelope: " ++ e.message)

  -- `from_payload`. A payload that is no dict cannot be indexed by a text, and the `TypeError`
  -- passes the handler.
  unfoldable pub from_payload : Json R.Float → Result JobEnvelope
  unfolding parse_fields
  from_payload (obj fields) = malformed (parse_fields fields)
  from_payload v = throw type_error (codes "indices must be integers")

  abbrev optional_str : Option Text → Json R.Float
  optional_str none = null
  optional_str (some t) = str t

  -- `to_payload`
  unfoldable pub to_payload : JobEnvelope → Json R.Float
  unfolding job_type_to_str
  to_payload env = obj (
      field (codes "job_id") (str env.job_id) (
        field (codes "job_type") (str (job_type_to_str env.job_type)) (
          field (codes "client_id") (str env.client_id) (
            field (codes "corpus_id") (str env.corpus_id) (
              field (codes "document_id") (str env.document_id) (
                field (codes "file_type") (str env.file_type)
                  (field (codes "file_path") (optional_str env.file_path) end)))))))
