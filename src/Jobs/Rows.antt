-- ===== src/Jobs/Rows.antt =====
-- repositories/job.py: rows as the program writes them.
use doccontext.Base.{ℕ, ◌≡◌, refl, true, Option, none, some, arith}
use doccontext.Base.{leb, le→leb, Text, same, length, take, length-take}
use doccontext.Base.Exn.{ok}
use doccontext.Base.Runtime.{Runtime}
use doccontext.Models.{
  JobType, JobStatus, queued, running, succeeded, failed, index_document, delete_document,
  job_type_to_str, job_type_of_str, job_status_to_str, job_status_of_str, Job,
}
use doccontext.Jobs.Database.{Row, fits, fits_optional}
use doccontext.Jobs.Repository.{to_domain, changed_row}

-- The strings of the enums are read back.
pub job_type_of_str-to_str : (t : JobType) → job_type_of_str (job_type_to_str t) ≡ some t
unfolding job_type_of_str job_type_to_str same
job_type_of_str-to_str index_document = refl
job_type_of_str-to_str delete_document = refl

pub job_status_of_str-to_str : (s : JobStatus) → job_status_of_str (job_status_to_str s) ≡ some s
unfolding job_status_of_str job_status_to_str same
job_status_of_str-to_str queued = refl
job_status_of_str-to_str running = refl
job_status_of_str-to_str succeeded = refl
job_status_of_str-to_str failed = refl

status_fits : (s : JobStatus) → leb (length (job_status_to_str s)) 16 ≡ true
unfolding job_status_to_str
status_fits queued = refl
status_fits running = refl
status_fits succeeded = refl
status_fits failed = refl

-- A new error message fits its column.
abbrev pub MessageFits : Option (Option Text) → Type 0
MessageFits none = Unit
MessageFits (some e) = fits_optional 2048 e ≡ true

pub fits-changed_row :
    (now : ℕ) (status : JobStatus) (e : Option (Option Text)) (row : Row)
    → fits row ≡ true
    → MessageFits e
    → fits (changed_row now status e row) ≡ true
unfolding fits
fits-changed_row now status none row h m = ground (arith, status_fits status)
fits-changed_row now status (some e) row h m = ground (arith, status_fits status)

-- The truncation of `mark_failed` makes every message fit.
pub MessageFits-take : (message : Text) → MessageFits (some (some (take 2048 message)))
MessageFits-take message =
    le→leb (length (take 2048 message)) 2048 (omega (arith, length-take 2048 message))

module _ (R : Runtime) where
  -- The job that the row describes, if its status is `status`.
  abbrev pub job_of : Row → JobType → JobStatus → Job
  job_of row job_type status = record {
    job_id = row.job_id;
    job_type = job_type;
    status = status;
    client_id = row.client_id;
    corpus_id = row.corpus_id;
    document_id = row.document_id;
    file_type = row.file_type;
    file_path = row.file_path;
    error_message = row.error_message;
    created_at = row.created_at;
    updated_at = row.updated_at;
  }

  pub record IsSound (row : Row) : Type 0 where
    pub job_type : JobType
    pub status : JobStatus
    pub type_valid : job_type_of_str row.job_type ≡ some job_type
    pub status_valid : job_status_of_str row.status ≡ some status
    pub row_fits : fits row ≡ true

  pub to_domain-IsSound :
      (row : Row) (h : IsSound row) → to_domain R row ≡ ok (job_of row h.job_type h.status)
  unfolding to_domain
  to_domain-IsSound row h = ground arith

  pub IsSound-changed_row :
      (now : ℕ) (status : JobStatus) (e : Option (Option Text)) (row : Row)
      → IsSound row
      → MessageFits e
      → IsSound (changed_row now status e row)
  IsSound-changed_row now status none row h m = record {
    job_type = h.job_type;
    status = status;
    type_valid = h.type_valid;
    status_valid = job_status_of_str-to_str status;
    row_fits = fits-changed_row now status none row h.row_fits m;
  }
  IsSound-changed_row now status (some e) row h m = record {
    job_type = h.job_type;
    status = status;
    type_valid = h.type_valid;
    status_valid = job_status_of_str-to_str status;
    row_fits = fits-changed_row now status (some e) row h.row_fits m;
  }

  pub to_domain-changed_row :
      (now : ℕ) (status : JobStatus) (e : Option (Option Text)) (row : Row) (h : IsSound row)
      → to_domain R (changed_row now status e row)
        ≡ ok (job_of (changed_row now status e row) h.job_type status)
  unfolding to_domain
  to_domain-changed_row now status none row h = ground (arith, job_status_of_str-to_str status)
  to_domain-changed_row now status (some e) row h = ground (arith, job_status_of_str-to_str status)
