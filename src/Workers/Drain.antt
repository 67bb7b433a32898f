-- ===== src/Workers/Drain.antt =====
-- queue/rabbitmq.py and workers/document_worker.py: the worker on a queue of messages.
use mathlib.Core.Path.{subst}
use doccontext.Base.{ℕ, suc, ◌≡◌, refl, ap, ◌∙◌, none, some, List, [], ◌∷◌, ◌⊎◌, inl, inr}
use doccontext.Base.{Text, same, same_refl, Bool-cases, length, take}
use doccontext.Base.Exn.{Result, ok, raise}
use doccontext.Models.{succeeded, failed, running, job_status_to_str}
use doccontext.Jobs.Database.{Row, IsDatabase}
use doccontext.Jobs.Rows.{IsSound, IsSound-changed_row, MessageFits-take}
use doccontext.Jobs.Lifecycle.{Writes}
use doccontext.Workers.Envelope.{JobEnvelope, to_payload}
use doccontext.Workers.RoundTrip.{path_or_none, from_payload-to_payload}
use doccontext.Workers.DocumentWorker.{Parts, Moments, World, run_job, handle_job, handle}
use doccontext.Workers.Outcome.{
  final_row, last_row, last_row-final_row, running_row, handle_job_outcome,
}
use doccontext.Workers.Consumer.{settlement_of, process, consume}

module _ (P : Parts) (L : IsDatabase P.D) (now : Moments) where
  open P use {R, D, V}

  -- The job is in the table, in a row that the program can read.
  abbrev pub IsKnown : World P → Text → Type 0
  IsKnown w job_id = (row : Row) × (D.get w.db job_id ≡ some row) × IsSound R row

  -- The job is in the table, and its status is SUCCEEDED or FAILED.
  abbrev pub IsDone : World P → Text → Type 0
  IsDone w job_id =
      (row : Row) × (D.get w.db job_id ≡ some row)
      × ((row.status ≡ job_status_to_str succeeded) ⊎ (row.status ≡ job_status_to_str failed))

  last_row-IsSound : (row : Row) (r : Result ℕ) → IsSound R row → IsSound R (last_row P now row r)
  last_row-IsSound row (ok n) sound =
      IsSound-changed_row R now.finished succeeded (some none) (running_row P now row)
        (IsSound-changed_row R now.started running none row sound tt) refl
  last_row-IsSound row (raise e) sound =
      IsSound-changed_row R now.aborted failed (some (some (take 2048 e.message)))
        (running_row P now row) (IsSound-changed_row R now.started running none row sound tt)
        (MessageFits-take e.message)

  pub final_row-IsSound :
      (row : Row) (r : Result ℕ) → IsSound R row → IsSound R (final_row P now row r)
  final_row-IsSound row r sound =
      subst (IsSound R) (last_row-final_row P now row r) (last_row-IsSound row r sound)

  final_row-status :
      (row : Row) (r : Result ℕ)
      → ((final_row P now row r).status ≡ job_status_to_str succeeded)
        ⊎ ((final_row P now row r).status ≡ job_status_to_str failed)
  unfolding job_status_to_str
  final_row-status row (ok n) = inl refl
  final_row-status row (raise e) = inr refl

  -- The body of a message is the JSON text of the envelope.
  abbrev pub IsMessage : JobEnvelope → Text → Type 0
  IsMessage env body = R.loads body ≡ some (to_payload R env)

  abbrev pub AreMessages : List JobEnvelope → List Text → Type 0
  AreMessages [] [] = Unit
  AreMessages (env ∷ envs) (body ∷ bodies) = IsMessage env body × AreMessages envs bodies
  AreMessages envs bodies = ⊥

  settled_state : (r : Result (Unit {0}) × World P) → (settlement_of r).1 ≡ r.1
  settled_state (ok u, w) = refl
  settled_state (raise e, w) = refl

  -- The message is read as its envelope, and the job is handled.
  process_state :
      (env : JobEnvelope) (body : Text) (w : World P)
      → IsMessage env body
      → (process R (handle P now) body w).1
        ≡ (handle_job P now (record env { file_path = path_or_none env.file_path }) w).1
  unfolding process handle
  process_state env body w read =
      let parsed = from_payload-to_payload R env in
      rw (read, process) (settled_state (handle P now (to_payload R env) w) ∙ rw parsed refl)

  step :
      (env : JobEnvelope) (body : Text) (w : World P)
      → IsMessage env body
      → IsKnown w env.job_id
      → (new : Row) × IsSound R new
        × ((new.status ≡ job_status_to_str succeeded) ⊎ (new.status ≡ job_status_to_str failed))
        × Writes D w.db (process R (handle P now) body w).1.db env.job_id new
  step env body w read (row, found, sound) =
      let env' : JobEnvelope = record env { file_path = path_or_none env.file_path } in
      let (t, handled, writes) = handle_job_outcome P L now env' w row sound found in
      let result = (run_job P env' env'.job_type w).0 in
      (
        final_row P now row result,
        final_row-IsSound row result sound,
        final_row-status row result,
        λ j.
            ap (λ u. D.get u.db j) (process_state env body w read ∙ ap (λ r. r.1) handled)
            ∙ writes j,
      )

  -- What holds of the row that is written, and of the row of a job, holds of that job's row
  -- afterwards.
  write-keeps :
      (Q : Row → Type 0) (s t : D.State) (job_id j : Text) (new : Row)
      → Writes D s t job_id new
      → Q new
      → (row : Row) × (D.get s j ≡ some row) × Q row
      → (row : Row) × (D.get t j ≡ some row) × Q row
  write-keeps Q s t job_id j new writes q (row, found, h) = elim (Bool-cases (same job_id j)) [
    | inl own ↦ (new, writes j ∙ rw own refl, q)
    | inr other ↦ (row, writes j ∙ rw other found, h)
  ]

  abbrev Done : Row → Type 0
  Done row = (row.status ≡ job_status_to_str succeeded) ⊎ (row.status ≡ job_status_to_str failed)

  abbrev pub AllKnown : World P → List JobEnvelope → Type 0
  AllKnown w [] = Unit
  AllKnown w (env ∷ envs) = IsKnown w env.job_id × AllKnown w envs

  abbrev pub AllDone : World P → List JobEnvelope → Type 0
  AllDone w [] = Unit
  AllDone w (env ∷ envs) = IsDone w env.job_id × AllDone w envs

  abbrev after : Text → World P → World P
  after body w = (process R (handle P now) body w).1

  IsKnown-after :
      (env : JobEnvelope) (body : Text) (w : World P) (j : Text)
      → IsMessage env body
      → IsKnown w env.job_id
      → IsKnown w j
      → IsKnown (after body w) j
  IsKnown-after env body w j read known h =
      let (new, sound, done, writes) = step env body w read known in
      write-keeps (IsSound R) w.db (after body w).db env.job_id j new writes sound h

  IsDone-after :
      (env : JobEnvelope) (body : Text) (w : World P) (j : Text)
      → IsMessage env body
      → IsKnown w env.job_id
      → IsDone w j
      → IsDone (after body w) j
  IsDone-after env body w j read known h =
      let (new, sound, done, writes) = step env body w read known in
      write-keeps Done w.db (after body w).db env.job_id j new writes done h

  own-IsDone :
      (env : JobEnvelope) (body : Text) (w : World P)
      → IsMessage env body
      → IsKnown w env.job_id
      → IsDone (after body w) env.job_id
  own-IsDone env body w read known =
      let (new, sound, done, writes) = step env body w read known in
      (new, writes env.job_id ∙ rw same_refl refl, done)

  AllKnown-after :
      (env : JobEnvelope) (body : Text) (w : World P) (envs : List JobEnvelope)
      → IsMessage env body
      → IsKnown w env.job_id
      → AllKnown w envs
      → AllKnown (after body w) envs
  AllKnown-after env body w [] read known h = tt
  AllKnown-after env body w (e ∷ envs) read known h = (
    IsKnown-after env body w e.job_id read known h.0,
    AllKnown-after env body w envs read known h.1,
  )

  -- The world after the messages.
  abbrev pub drained : List Text → World P → World P
  drained bodies w = (consume R (handle P now) bodies w).1

  IsDone-drained :
      (envs : List JobEnvelope) (bodies : List Text) (w : World P) (j : Text)
      → AreMessages envs bodies
      → AllKnown w envs
      → IsDone w j
      → IsDone (drained bodies w) j
  unfolding consume
  IsDone-drained [] [] w j m known h = h
  IsDone-drained [] (body ∷ bodies) w j m known h = absurd m
  IsDone-drained (env ∷ envs) [] w j m known h = absurd m
  IsDone-drained (env ∷ envs) (body ∷ bodies) w j m known h =
      IsDone-drained envs bodies (after body w) j m.1
        (AllKnown-after env body w envs m.0 known.0 known.1)
        (IsDone-after env body w j m.0 known.0 h)

  -- A queue of messages of jobs that are in the table, in any order and with any of them twice, is
  -- consumed to its end, whatever the store, the embedder, the chunker and the extractor do, and
  -- then each of the jobs is SUCCEEDED or FAILED.
  pub consume-AllDone :
      (envs : List JobEnvelope) (bodies : List Text) (w : World P)
      → AreMessages envs bodies
      → AllKnown w envs
      → AllDone (drained bodies w) envs
        × (length (consume R (handle P now) bodies w).0 ≡ length bodies)
  unfolding consume
  consume-AllDone [] [] w m known = (tt, refl)
  consume-AllDone [] (body ∷ bodies) w m known = absurd m
  consume-AllDone (env ∷ envs) [] w m known = absurd m
  consume-AllDone (env ∷ envs) (body ∷ bodies) w m known =
      let rest = AllKnown-after env body w envs m.0 known.0 known.1 in
      let (done, count) = consume-AllDone envs bodies (after body w) m.1 rest in
      (
        (
          IsDone-drained envs bodies (after body w) env.job_id m.1 rest
              (own-IsDone env body w m.0 known.0),
          done,
        ),
        ap suc count,
      )
