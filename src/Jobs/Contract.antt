-- ===== src/Jobs/Contract.antt =====
-- repositories/job.py: the rows that `create` and `_transition` write, value by value.
use mathlib.Core.Path.{subst}
use doccontext.Base.{ℕ, ◌≡◌, refl, Option, none, some, true, Text, codes}
use doccontext.Base.Exn.{ok}
use doccontext.Base.Runtime.{Runtime}
use doccontext.Models.{
  JobType, JobStatus, queued, running, succeeded, failed, index_document, delete_document,
  job_type_to_str, job_status_to_str,
}
use doccontext.Jobs.Database.{Row, Database, IsDatabase, fits}
use doccontext.Jobs.Repository.{changed_row, create, transition}
use doccontext.Jobs.Rows.{MessageFits, IsSound, job_of}
use doccontext.Jobs.Lifecycle.{Writes, transition_found, create_fresh}

-- The texts that the table holds.
abbrev pub status_text : JobStatus → Text
status_text queued = codes "QUEUED"
status_text running = codes "RUNNING"
status_text succeeded = codes "SUCCEEDED"
status_text failed = codes "FAILED"

abbrev pub type_text : JobType → Text
type_text index_document = codes "INDEX_DOCUMENT"
type_text delete_document = codes "DELETE_DOCUMENT"

-- The error message behind a transition, for which one may be given.
abbrev pub message_after : Option (Option Text) → Option Text → Option Text
message_after none old = old
message_after (some new) old = new

-- The row behind a transition.
abbrev pub moved_row : ℕ → JobStatus → Option (Option Text) → Row → Row
moved_row now status e row = record {
  job_id = row.job_id;
  job_type = row.job_type;
  status = status_text status;
  client_id = row.client_id;
  corpus_id = row.corpus_id;
  document_id = row.document_id;
  file_type = row.file_type;
  file_path = row.file_path;
  error_message = message_after e row.error_message;
  created_at = row.created_at;
  updated_at = now;
}

changed_row-moved :
    (now : ℕ) (status : JobStatus) (e : Option (Option Text)) (row : Row)
    → changed_row now status e row ≡ moved_row now status e row
unfolding job_status_to_str
changed_row-moved now queued none row = refl
changed_row-moved now queued (some e) row = refl
changed_row-moved now running none row = refl
changed_row-moved now running (some e) row = refl
changed_row-moved now succeeded none row = refl
changed_row-moved now succeeded (some e) row = refl
changed_row-moved now failed none row = refl
changed_row-moved now failed (some e) row = refl

-- The row of a new job.
abbrev pub first_row : ℕ → Text → JobType → Text → Text → Text → Text → Option Text → Row
first_row now job_id job_type client_id corpus_id document_id file_type file_path = record {
  job_id = job_id;
  job_type = type_text job_type;
  status = codes "QUEUED";
  client_id = client_id;
  corpus_id = corpus_id;
  document_id = document_id;
  file_type = file_type;
  file_path = file_path;
  error_message = none;
  created_at = now;
  updated_at = now;
}

module _ (R : Runtime) (D : Database) (L : IsDatabase D) where
  -- A transition of a job that is in a row that the program can read succeeds, whatever the status
  -- of the job is, if the error message that is given, if any, fits its column. Then the row has
  -- the text of the new status, the time as `updated_at`, the error message that is given, if any,
  -- and else the one it had, and its other values; no other row has changed; and the values of the
  -- row are returned.
  pub transition_lem :
      (now : ℕ) (job_id : Text) (status : JobStatus) (e : Option (Option Text)) (s : D.State)
      (row : Row) (sound : IsSound R row)
      → MessageFits e
      → D.get s job_id ≡ some row
      → (t : D.State) × (transition R D now job_id status e s
          ≡ (ok (job_of R (moved_row now status e row) sound.job_type status), t))
        × Writes D s t job_id (moved_row now status e row)
  transition_lem now job_id status e s row sound m found =
      subst
        (λ r.
          (t : D.State) × (transition R D now job_id status e s
            ≡ (ok (job_of R r sound.job_type status), t))
          × Writes D s t job_id r)
        (changed_row-moved now status e row)
        (transition_found R D L now job_id status e s row sound m found)

  -- `create` of a job whose id is new and whose values fit their columns adds a row with these
  -- values, with the texts of the type and of QUEUED, with no error message, and with the time as
  -- `created_at` and `updated_at`; no other row has changed; and the values of the row are
  -- returned.
  pub create_lem :
      (now : ℕ) (job_id : Text) (job_type : JobType)
      (client_id corpus_id document_id file_type : Text) (file_path : Option Text) (s : D.State)
      → let row =
          first_row now job_id job_type client_id corpus_id document_id file_type file_path in
        D.get s job_id ≡ none
        → fits row ≡ true
        → (t : D.State) × (create R D now job_id job_type client_id corpus_id document_id file_type
              file_path s
            ≡ (ok (job_of R row job_type queued), t))
          × Writes D s t job_id row
  unfolding job_type_to_str job_status_to_str
  create_lem now job_id index_document client_id corpus_id document_id file_type file_path s free
        ok_row =
      create_fresh R D L now job_id index_document client_id corpus_id document_id file_type
        file_path s free ok_row
  create_lem now job_id delete_document client_id corpus_id document_id file_type file_path s free
        ok_row =
      create_fresh R D L now job_id delete_document client_id corpus_id document_id file_type
        file_path s free ok_row
