-- ===== src/Jobs/Lifecycle.antt =====
-- repositories/job.py: the operations of the job repository over a lawful database.
use doccontext.Base.{
  ℕ, ◌≡◌, refl, ap, ◌∙◌, true, false, Option, none, some, arith, ◌++◌, ◌⊎◌, inl, inr,
}
use doccontext.Base.{Text, codes, same, same_refl, if◌then◌else◌}
use doccontext.Base.Exn.{Exn, ok, raise, lookup_error, throw}
use doccontext.Base.Runtime.{Runtime}
use doccontext.Models.{JobType, JobStatus, queued}
use doccontext.Jobs.Database.{Row, Database, IsDatabase, fits}
use doccontext.Jobs.Repository.{to_domain, changed_row, new_row, create, transition}
use doccontext.Jobs.Rows.{
  MessageFits, IsSound, job_of, to_domain-changed_row, IsSound-changed_row, job_type_of_str-to_str,
  job_status_of_str-to_str,
}

-- The table after a write differs from the one before in one row.
abbrev pub Writes : (D : Database) → D.State → D.State → Text → Row → Type 0
Writes D s t job_id new = (j : Text) → D.get t j ≡ (if same job_id j then some new else D.get s j)

module _ (R : Runtime) (D : Database) (L : IsDatabase D) where
  job_id-changed_row :
      (now : ℕ) (status : JobStatus) (e : Option (Option Text)) (row : Row)
      → (changed_row now status e row).job_id ≡ row.job_id
  job_id-changed_row now status none row = refl
  job_id-changed_row now status (some e) row = refl

  -- A transition of a job that exists succeeds, whatever its status is: it writes the status, the
  -- time and, if one is given, the error message, and nothing else.
  pub transition_found :
      (now : ℕ) (job_id : Text) (status : JobStatus) (e : Option (Option Text)) (s : D.State)
      (row : Row) (sound : IsSound R row)
      → MessageFits e
      → D.get s job_id ≡ some row
      → (t : D.State) × (transition R D now job_id status e s
          ≡ (ok (job_of R (changed_row now status e row) sound.job_type status), t))
        × Writes D s t job_id (changed_row now status e row)
  unfolding transition
  transition_found now job_id status e s row sound m found =
      let new : Row = changed_row now status e row in
      let key : new.job_id ≡ job_id =
        job_id-changed_row now status e row ∙ L.get_key s job_id row found in
      let ok_new : IsSound R new = IsSound-changed_row R now status e row sound m in
      let (t, written) = L.update_fits s new row (ap (D.get s) key ∙ found) ok_new.row_fits in
      let writes : Writes D s t job_id new = λ j.
        L.get-update s t new j written ∙ ap (λ k. if same k j then some new else D.get s j) key in
      let again : D.get t job_id ≡ some new = writes job_id ∙ rw same_refl in
      (t, ground (arith, to_domain-changed_row R now status e row sound), writes)

  -- A transition of a job that does not exist raises `LookupError` and changes nothing.
  pub transition_missing :
      (now : ℕ) (job_id : Text) (status : JobStatus) (e : Option (Option Text)) (s : D.State)
      → D.get s job_id ≡ none
      → transition R D now job_id status e s
        ≡ (throw lookup_error (codes "job " ++ job_id ++ codes " not found"), s)
  unfolding transition
  transition_missing now job_id status e s missing = ground arith

  -- `create` of a job whose id is new and whose values fit their columns returns the job, queued
  -- and with no error, and adds its row and nothing else.
  pub create_fresh :
      (now : ℕ) (job_id : Text) (job_type : JobType)
      (client_id corpus_id document_id file_type : Text) (file_path : Option Text) (s : D.State)
      → let row = new_row now job_id job_type client_id corpus_id document_id file_type file_path in
        D.get s job_id ≡ none
        → fits row ≡ true
        → (t : D.State) × (create R D now job_id job_type client_id corpus_id document_id file_type
              file_path s
            ≡ (ok (job_of R row job_type queued), t))
          × Writes D s t job_id row
  unfolding create to_domain
  create_fresh now job_id job_type client_id corpus_id document_id file_type file_path s free
        ok_row =
      let row : Row =
        new_row now job_id job_type client_id corpus_id document_id file_type file_path in
      let (t, written) = L.insert_fresh s row free ok_row in
      let writes : Writes D s t job_id row = λ j. L.get-insert s t row j written in
      let again : D.get t job_id ≡ some row = writes job_id ∙ rw same_refl in
      (t, ground (arith, job_type_of_str-to_str job_type, job_status_of_str-to_str queued), writes)

  -- `create` raises and changes nothing if the id is taken or a value is too long for its column.
  pub create_refused :
      (now : ℕ) (job_id : Text) (job_type : JobType)
      (client_id corpus_id document_id file_type : Text) (file_path : Option Text) (s : D.State)
      → let row = new_row now job_id job_type client_id corpus_id document_id file_type file_path in
        ((old : Row) × (D.get s job_id ≡ some old)) ⊎ (fits row ≡ false)
        → (e : Exn) × (create R D now job_id job_type client_id corpus_id document_id file_type
              file_path s
            ≡ (raise e, s))
  unfolding create
  create_refused now job_id job_type client_id corpus_id document_id file_type file_path s
        (inl (old, taken)) =
      let row : Row =
        new_row now job_id job_type client_id corpus_id document_id file_type file_path in
      let (e, refused) = L.insert_taken s row old taken in (e, ground arith)
  create_refused now job_id job_type client_id corpus_id document_id file_type file_path s
        (inr wide) =
      let row : Row =
        new_row now job_id job_type client_id corpus_id document_id file_type file_path in
      let (e, refused) = L.insert_wide s row wide in (e, ground arith)
