-- ===== src/Services/Converters.antt =====
-- services/converters.py: domain values and the numbers of the proto enums.
use doccontext.Base.{ℕ, ◌++◌, Text, codes, same, if◌then◌else◌, Option, none, some}
use doccontext.Base.{◌==◌}
use doccontext.Base.Int.{ℤ, pos, negsuc}
use doccontext.Base.Exn.{Result, ok, throw, value_error}
use doccontext.Base.Json.{int}
use doccontext.Base.Runtime.{Runtime, repr_text}
use doccontext.Models.{
  JobType, JobStatus, index_document, delete_document, queued, running, succeeded, failed,
}

-- `_PROTO_FILE_TYPE_TO_STR`
unfoldable pub file_type_name : ℤ → Option Text
file_type_name (pos n) =
    if n == 1
    then some (codes "pdf")
    else if n == 2
    then some (codes "txt")
    else if n == 3
    then some (codes "md")
    else none
file_type_name (negsuc n) = none

-- `status_to_proto`
unfoldable pub status_to_proto : JobStatus → ℕ
status_to_proto queued = 1
status_to_proto running = 2
status_to_proto succeeded = 3
status_to_proto failed = 4

-- `job_type_to_proto`
unfoldable pub job_type_to_proto : JobType → ℕ
job_type_to_proto index_document = 1
job_type_to_proto delete_document = 2

module _ (R : Runtime) where
  -- `file_type_to_str`
  unfoldable pub file_type_to_str : ℤ → Result Text
  unfolding file_type_name
  file_type_to_str proto_value = elim (file_type_name proto_value) [
    | none ↦
        throw value_error
          (codes "unsupported or unspecified FileType: " ++ R.repr (int proto_value))
    | some name ↦ ok name
  ]

  -- `query_route_to_proto`
  unfoldable pub query_route_to_proto : Text → Result ℕ
  unfolding same
  query_route_to_proto route =
      if same route (codes "SECTION")
      then ok 1
      else if same route (codes "FULL_DOC")
      then ok 2
      else throw value_error (codes "unsupported QueryRoute: " ++ repr_text R route)
