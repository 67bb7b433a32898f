-- ===== src/Delivery/Table.antt =====
-- services/ and workers/: the table in a move of the handlers and workers.
use mathlib.Core.Path.{subst}
use doccontext.Base.{ℕ, ◌≡◌, sym, ap, ◌∙◌, Option, none, some, [], ◌∷◌, arith}
use doccontext.Base.{◌⊎◌, inl, inr, Text, Bool-cases, Option-cases}
use doccontext.Base.Exn.{Exn, ok, raise}
use doccontext.Base.Runtime.{Runtime}
use doccontext.Models.{Job, JobStatus}
use doccontext.Jobs.Database.{Row, Database, IsDatabase, fits}
use doccontext.Jobs.Repository.{changed_row, transition}
use doccontext.Jobs.Rows.{MessageFits}
use doccontext.Jobs.Lifecycle.{
  Writes, transition_found, transition_missing, create_fresh, create_refused,
}
use doccontext.Jobs.History.{
  Call, creation, start, success, failure, after_call, after_calls, IsFine, AllFine,
  after_calls-AllFine,
}
use doccontext.Services.Submission.{queued_row}
use doccontext.Workers.Envelope.{JobEnvelope}
use doccontext.Delivery.System.{
  System, create_job, Move, created, published, unpublished, taken, rejected, finished, aborted,
  settled, dropped_early, dropped_busy, crashed_busy, crashed_ended,
}

module _ (R : Runtime) (D : Database) (L : IsDatabase D) where
  -- A transition that returned has written the row of its job.
  pub transition-Writes :
      (now : ℕ) (job_id : Text) (status : JobStatus) (e : Option (Option Text)) (s t : D.State)
      (job : Job)
      → AllFine R D s
      → MessageFits e
      → transition R D now job_id status e s ≡ (ok job, t)
      → (row : Row) × Writes D s t job_id (changed_row now status e row)
  transition-Writes now job_id status e s t job fine fit done =
      elim (Option-cases (D.get s job_id)) [
        | inl missing ↦
            absurd (ground (arith, transition_missing R D L now job_id status e s missing))
        | inr (row, found) ↦
            let own : IsFine R (some row) = subst (IsFine R) found (fine job_id) in
            let (u, made, writes) =
              transition_found R D L now job_id status e s row own.0 fit found in
            (row, λ j. ap (λ x. D.get x.1 j) (sym done ∙ made) ∙ writes j)
      ]

  -- A transition that raised was of a job that is not in the table, and has changed nothing.
  pub transition-raised :
      (now : ℕ) (job_id : Text) (status : JobStatus) (e : Option (Option Text)) (s t : D.State)
      (exc : Exn)
      → AllFine R D s
      → MessageFits e
      → transition R D now job_id status e s ≡ (raise exc, t)
      → (t ≡ s) × (D.get s job_id ≡ none)
  transition-raised now job_id status e s t exc fine fit done =
      elim (Option-cases (D.get s job_id)) [
        | inl missing ↦ (
          ap (λ x. x.1) (sym done ∙ transition_missing R D L now job_id status e s missing),
          missing,
        )
        | inr (row, found) ↦
            let own : IsFine R (some row) = subst (IsFine R) found (fine job_id) in
            let (u, made, writes) =
              transition_found R D L now job_id status e s row own.0 fit found in
            absurd (ground arith)
      ]

  -- A `create` that returned has added the row of its job.
  pub create_job-Writes :
      (now : ℕ) (env : JobEnvelope) (s t : D.State) (job : Job)
      → create_job R D now env s ≡ (ok job, t)
      → Writes D s t env.job_id (queued_row now env)
  create_job-Writes now env s t job done = elim (Option-cases (D.get s env.job_id)) [
    | inr (old, taken_id) ↦
        let (e, refused) =
          create_refused R D L now env.job_id env.job_type env.client_id env.corpus_id
            env.document_id env.file_type env.file_path s (inl (old, taken_id)) in
        absurd (ground arith)
    | inl free ↦ elim (Bool-cases (fits (queued_row now env))) [
      | inr wide ↦
          let (e, refused) =
            create_refused R D L now env.job_id env.job_type env.client_id env.corpus_id
              env.document_id env.file_type env.file_path s (inr wide) in
          absurd (ground arith)
      | inl ok_row ↦
          let (u, made, writes) =
            create_fresh R D L now env.job_id env.job_type env.client_id env.corpus_id
              env.document_id env.file_type env.file_path s free ok_row in
          λ j. ap (λ x. D.get x.1 j) (sym done ∙ made) ∙ writes j
    ]
  ]

  -- A move calls the repository once or not at all.
  Move-Call :
      (s t : System R D)
      → Move R D s t
      → (t.db ≡ s.db) ⊎ ((c : Call) × (after_call R D c s.db ≡ t.db))
  unfolding after_call
  Move-Call s t (created now env job db done e) = inr (
    creation now env.job_id env.job_type env.client_id env.corpus_id env.document_id env.file_type
        env.file_path,
    ap (λ x. x.1) done ∙ ap (λ u. u.db) (sym e),
  )
  Move-Call s t (published xs ys env at e) = inl (ap (λ u. u.db) e)
  Move-Call s t (unpublished xs ys env at e) = inl (ap (λ u. u.db) e)
  Move-Call s t (taken now xs ys env job db at done e) =
      inr (start now env.job_id, ap (λ x. x.1) done ∙ ap (λ u. u.db) (sym e))
  Move-Call s t (rejected now xs ys env exc db at done e) =
      inr (start now env.job_id, ap (λ x. x.1) done ∙ ap (λ u. u.db) (sym e))
  Move-Call s t (finished now xs ys env job db at done e) =
      inr (success now env.job_id, ap (λ x. x.1) done ∙ ap (λ u. u.db) (sym e))
  Move-Call s t (aborted now xs ys env message job db at done e) =
      inr (failure now env.job_id message, ap (λ x. x.1) done ∙ ap (λ u. u.db) (sym e))
  Move-Call s t (settled xs ys env at e) = inl (ap (λ u. u.db) e)
  Move-Call s t (dropped_early xs ys env at e) = inl (ap (λ u. u.db) e)
  Move-Call s t (dropped_busy xs ys env at e) = inl (ap (λ u. u.db) e)
  Move-Call s t (crashed_busy xs ys env at e) = inl (ap (λ u. u.db) e)
  Move-Call s t (crashed_ended xs ys env at e) = inl (ap (λ u. u.db) e)

  pub Move-AllFine : (s t : System R D) → Move R D s t → AllFine R D s.db → AllFine R D t.db
  unfolding after_calls
  Move-AllFine s t move fine = elim (Move-Call s t move) [
    | inl kept ↦ subst (AllFine R D) (sym kept) fine
    | inr (c, e) ↦ subst (AllFine R D) e (after_calls-AllFine R D L (c ∷ []) s.db fine).0
  ]
