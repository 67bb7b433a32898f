-- ===== src/Jobs/Repository.antt =====
-- repositories/job.py: `JobRepository`, over any database. `now` is what `datetime.now(UTC)`
-- returns.
use doccontext.Base.{ℕ, Option, none, some, ◌++◌, Text, codes, take}
use doccontext.Base.Exn.{Result, ok, raise, value_error, lookup_error, external, throw}
use doccontext.Base.Exec.{Exec, lift, ◌>>=◌, ◌>>◌}
use doccontext.Base.Runtime.{Runtime, repr_text}
use doccontext.Models.{
  JobType, JobStatus, queued, running, succeeded, failed, job_type_to_str, job_type_of_str,
  job_status_to_str, job_status_of_str, Job,
}
use doccontext.Jobs.Database.{Row, Database}

-- The row that `create` adds.
abbrev pub new_row : ℕ → Text → JobType → Text → Text → Text → Text → Option Text → Row
new_row now job_id job_type client_id corpus_id document_id file_type file_path = record {
  job_id = job_id;
  job_type = job_type_to_str job_type;
  status = job_status_to_str queued;
  client_id = client_id;
  corpus_id = corpus_id;
  document_id = document_id;
  file_type = file_type;
  file_path = file_path;
  error_message = none;
  created_at = now;
  updated_at = now;
}

-- The row that `_transition` writes; an `error_message` of `none` is the sentinel `...`.
abbrev pub changed_row : ℕ → JobStatus → Option (Option Text) → Row → Row
changed_row now status none row = record row { status = job_status_to_str status; updated_at = now }
changed_row now status (some error_message) row = record row {
  status = job_status_to_str status;
  updated_at = now;
  error_message = error_message;
}

module _ (R : Runtime) where
  -- `JobType(value)` and `JobStatus(value)`
  abbrev pub job_type_or_raise : Text → Result JobType
  job_type_or_raise value = elim (job_type_of_str value) [
    | none ↦ throw value_error (repr_text R value ++ codes " is not a valid JobType")
    | some t ↦ ok t
  ]

  abbrev pub job_status_or_raise : Text → Result JobStatus
  job_status_or_raise value = elim (job_status_of_str value) [
    | none ↦ throw value_error (repr_text R value ++ codes " is not a valid JobStatus")
    | some s ↦ ok s
  ]

  abbrev domain_job : Row → JobType → Result JobStatus → Result Job
  domain_job row job_type (raise e) = raise e
  domain_job row job_type (ok status) = ok (record {
    job_id = row.job_id;
    job_type = job_type;
    status = status;
    client_id = row.client_id;
    corpus_id = row.corpus_id;
    document_id = row.document_id;
    file_type = row.file_type;
    file_path = row.file_path;
    error_message = row.error_message;
    created_at = row.created_at;
    updated_at = row.updated_at;
  })

  -- `_to_domain`
  unfoldable pub to_domain : Row → Result Job
  to_domain row = elim (job_type_or_raise row.job_type) [
    | raise e ↦ raise e
    | ok job_type ↦ domain_job row job_type (job_status_or_raise row.status)
  ]

  module _ (D : Database) where
    -- `session.add(row)`, `session.commit()`
    abbrev add_commit : Row → Exec D.State Unit
    add_commit row s = elim (D.insert s row) [ ok t ↦ (ok tt, t) | raise e ↦ (raise e, s) ]

    -- `session.commit()` after the attributes of a row have changed
    abbrev commit : Row → Exec D.State Unit
    commit row s = elim (D.update s row) [ ok t ↦ (ok tt, t) | raise e ↦ (raise e, s) ]

    -- `session.refresh(row)`
    abbrev refresh : Text → Exec D.State Row
    refresh job_id s = elim (D.get s job_id) [
      | none ↦ (throw external (codes "Could not refresh instance"), s)
      | some row ↦ (ok row, s)
    ]

    -- `create`
    unfoldable pub create :
        ℕ → Text → JobType → Text → Text → Text → Text → Option Text → Exec D.State Job
    create now job_id job_type client_id corpus_id document_id file_type file_path = do
      add_commit (new_row now job_id job_type client_id corpus_id document_id file_type file_path)
      fresh ← refresh job_id
      lift (to_domain fresh)

    -- `get`
    unfoldable pub get : Text → Exec D.State (Option Job)
    get job_id s = elim (D.get s job_id) [
      | none ↦ (ok none, s)
      | some row ↦ elim (to_domain row) [ raise e ↦ (raise e, s) | ok job ↦ (ok (some job), s) ]
    ]

    -- `_transition`
    unfoldable pub transition : ℕ → Text → JobStatus → Option (Option Text) → Exec D.State Job
    transition now job_id status error_message s = elim (D.get s job_id) [
      | none ↦ (throw lookup_error (codes "job " ++ job_id ++ codes " not found"), s)
      | some row ↦
          (do
            commit (changed_row now status error_message row)
            fresh ← refresh job_id
            lift (to_domain fresh))
            s
    ]

    -- `mark_running`, `mark_succeeded`, `mark_failed`
    unfoldable pub mark_running : ℕ → Text → Exec D.State Job
    mark_running now job_id = transition now job_id running none

    unfoldable pub mark_succeeded : ℕ → Text → Exec D.State Job
    mark_succeeded now job_id = transition now job_id succeeded (some none)

    unfoldable pub mark_failed : ℕ → Text → Text → Exec D.State Job
    mark_failed now job_id error_message =
        transition now job_id failed (some (some (take 2048 error_message)))
