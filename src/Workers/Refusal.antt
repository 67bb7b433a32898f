-- ===== src/Workers/Refusal.antt =====
-- workers/document_worker.py: messages that the worker cannot start on.
use doccontext.Base.{◌≡◌, refl, none, ◌⊎◌, inl, inr, codes, ◌++◌}
use doccontext.Base.Exn.{Exn, ok, raise, lookup_error}
use doccontext.Base.Json.{Json}
use doccontext.Jobs.Database.{IsDatabase}
use doccontext.Jobs.Repository.{mark_running}
use doccontext.Jobs.Lifecycle.{transition_missing}
use doccontext.Models.{running}
use doccontext.Workers.Envelope.{JobEnvelope, from_payload}
use doccontext.Workers.DocumentWorker.{Parts, Moments, World, handle_job, handle}

module _ (P : Parts) (L : IsDatabase P.D) where
  open P use {R, D, V}

  handle_job_missing :
      (now : Moments) (env : JobEnvelope) (w : World P)
      → D.get w.db env.job_id ≡ none
      → (e : Exn) × (handle_job P now env w ≡ (raise e, w))
  unfolding handle_job mark_running
  handle_job_missing now env w missing =
      let refused = transition_missing R D L now.started env.job_id running none w.db missing in
      (
        record { kind = lookup_error; message = codes "job " ++ env.job_id ++ codes " not found" },
        rw refused refl,
      )

  -- A message that is no envelope, or one for a job that is not in the table, raises before
  -- anything is done: neither the table nor the store has changed.
  pub handle_refused :
      (now : Moments) (payload : Json R.Float) (w : World P)
      → ((e : Exn) × (from_payload R payload ≡ raise e))
        ⊎ ((env : JobEnvelope) × (from_payload R payload ≡ ok env) × (D.get w.db env.job_id ≡ none))
      → (e : Exn) × (handle P now payload w ≡ (raise e, w))
  unfolding handle
  handle_refused now payload w (inl (e, bad)) = (e, rw bad refl)
  handle_refused now payload w (inr (env, good, missing)) =
      let (e, refused) = handle_job_missing now env w missing in (e, rw good refused)
