-- ===== src/Delivery/Invariant.antt =====
-- services/ and workers/: where the jobs are after any moves.
use mathlib.Core.Path.{subst}
use doccontext.Base.{◌≡◌, refl, sym, Option, none, some, [], ◌∷◌, ◌++◌}
use doccontext.Base.{◌⊎◌, inl, inr, Text, take}
use doccontext.Base.Runtime.{Runtime}
use doccontext.Models.{running, succeeded, failed}
use doccontext.Jobs.Database.{Row, Database, IsDatabase}
use doccontext.Jobs.Repository.{changed_row, mark_running, mark_succeeded, mark_failed}
use doccontext.Jobs.Rows.{MessageFits-take}
use doccontext.Jobs.History.{IsFine, AllFine}
use doccontext.Services.Submission.{queued_row}
use doccontext.Delivery.Table.{
  transition-Writes, transition-raised, create_job-Writes, Move-AllFine,
}
use doccontext.Delivery.System.{
  System, Move, created, published, unpublished, taken, rejected, finished, aborted, settled,
  dropped_early, dropped_busy, crashed_busy, crashed_ended, Moves, stay, go, idle,
}
use doccontext.Delivery.Placed.{
  Has, Has-before, Has-last, in_unsent, in_queue, in_busy, in_lost, IsPlaced, HasEnded, AllPlaced,
  keep-IsPlaced, write-AllPlaced, drop-AllPlaced, leave_unsent, leave_queue, leave_busy, grow_Holds,
}

either_way : {A B : Type 0} → A ⊎ B → (A → B) → B
either_way (inl a) f = f a
either_way (inr b) f = b

module _ (R : Runtime) (D : Database) (L : IsDatabase D) where
  Move-AllPlaced :
      (s t : System R D) → Move R D s t → AllFine R D s.db → AllPlaced R D s → AllPlaced R D t
  unfolding mark_running mark_succeeded mark_failed
  Move-AllPlaced s t (created now env job db done e) fine placed =
      let u : System R D = record s { db = db; unsent = env ∷ s.unsent } in
      subst (AllPlaced R D) (sym e) (
        write-AllPlaced R D s u env.job_id (queued_row now env)
          (create_job-Writes R D L now env s.db db job done) (inr (in_unsent (inl refl)))
          (λ j h. inr (grow_Holds R D s u j inr (λ x. x) (λ x. x) (λ x. x) h)) placed)
  Move-AllPlaced s t (published xs ys env at e) fine placed =
      let u : System R D = record s { unsent = xs ++ ys; queue = s.queue ++ env ∷ [] } in
      subst (AllPlaced R D) (sym e) (λ j.
        keep-IsPlaced R D s u j (D.get s.db j)
          (leave_unsent R D s u xs ys env j at refl refl (Has-before j s.queue (env ∷ [])) (λ h. h)
            (λ own. in_queue (Has-last j s.queue env own)))
          (placed j))
  Move-AllPlaced s t (unpublished xs ys env at e) fine placed =
      let u : System R D = record s { unsent = xs ++ ys; lost = env ∷ s.lost } in
      subst (AllPlaced R D) (sym e) (λ j.
        keep-IsPlaced R D s u j (D.get s.db j)
          (leave_unsent R D s u xs ys env j at refl refl (λ h. h) inr (λ own. in_lost (inl own)))
          (placed j))
  Move-AllPlaced s t (taken now xs ys env job db at done e) fine placed =
      let u : System R D = record s { db = db; queue = xs ++ ys; busy = env ∷ s.busy } in
      let (row, writes) =
        transition-Writes R D L now env.job_id running none s.db db job fine tt done in
      subst (AllPlaced R D) (sym e) (
        write-AllPlaced R D s u env.job_id (changed_row now running none row) writes
          (inr (in_busy (inl refl)))
          (λ j. leave_queue R D s u xs ys env j at refl (λ h. h) inr (λ h. h)) placed)
  Move-AllPlaced s t (rejected now xs ys env exc db at done e) fine placed =
      let u : System R D = record s { db = db; queue = xs ++ ys } in
      let (same_db, missing) =
        transition-raised R D L now env.job_id running none s.db db exc fine tt done in
      subst (AllPlaced R D) (sym e) (
        drop-AllPlaced R D s u env.job_id same_db missing
          (λ j. leave_queue R D s u xs ys env j at refl (λ h. h) (λ h. h) (λ h. h)) placed)
  Move-AllPlaced s t (finished now xs ys env job db at done e) fine placed =
      let u : System R D = record s { db = db; busy = xs ++ ys; ended = env ∷ s.ended } in
      let (row, writes) =
        transition-Writes R D L now env.job_id succeeded (some none) s.db db job fine refl done in
      subst (AllPlaced R D) (sym e) (
        write-AllPlaced R D s u env.job_id (changed_row now succeeded (some none) row) writes
          (inl (inl refl)) (λ j. leave_busy R D s u xs ys env j at refl refl (λ h. h) (λ h. h))
          placed)
  Move-AllPlaced s t (aborted now xs ys env message job db at done e) fine placed =
      let u : System R D = record s { db = db; busy = xs ++ ys; ended = env ∷ s.ended } in
      let error : Option (Option Text) = some (some (take 2048 message)) in
      let (row, writes) =
        transition-Writes R D L now env.job_id failed error s.db db job fine
          (MessageFits-take message) done in
      subst (AllPlaced R D) (sym e) (
        write-AllPlaced R D s u env.job_id (changed_row now failed error row) writes
          (inl (inr refl)) (λ j. leave_busy R D s u xs ys env j at refl refl (λ h. h) (λ h. h))
          placed)
  Move-AllPlaced s t (settled xs ys env at e) fine placed =
      let u : System R D = record s { ended = xs ++ ys } in
      subst (AllPlaced R D) (sym e) (λ j.
        keep-IsPlaced R D s u j (D.get s.db j)
          (grow_Holds R D s u j (λ x. x) (λ x. x) (λ x. x) (λ x. x)) (placed j))
  Move-AllPlaced s t (dropped_early xs ys env at e) fine placed =
      let u : System R D = record s { queue = xs ++ ys; lost = env ∷ s.lost } in
      subst (AllPlaced R D) (sym e) (λ j.
        keep-IsPlaced R D s u j (D.get s.db j)
          (λ h.
            either_way (leave_queue R D s u xs ys env j at refl (λ x. x) (λ x. x) inr h)
              (λ own. in_lost (inl own)))
          (placed j))
  Move-AllPlaced s t (dropped_busy xs ys env at e) fine placed =
      let u : System R D = record s { busy = xs ++ ys; lost = env ∷ s.lost } in
      subst (AllPlaced R D) (sym e) (λ j.
        keep-IsPlaced R D s u j (D.get s.db j)
          (λ h.
            either_way (leave_busy R D s u xs ys env j at refl refl (λ x. x) inr h)
              (λ own. in_lost (inl own)))
          (placed j))
  Move-AllPlaced s t (crashed_busy xs ys env at e) fine placed =
      let u : System R D = record s { busy = xs ++ ys; queue = env ∷ s.queue } in
      subst (AllPlaced R D) (sym e) (λ j.
        keep-IsPlaced R D s u j (D.get s.db j)
          (λ h.
            either_way (leave_busy R D s u xs ys env j at refl refl inr (λ x. x) h)
              (λ own. in_queue (inl own)))
          (placed j))
  Move-AllPlaced s t (crashed_ended xs ys env at e) fine placed =
      let u : System R D = record s { ended = xs ++ ys; queue = env ∷ s.queue } in
      subst (AllPlaced R D) (sym e) (λ j.
        keep-IsPlaced R D s u j (D.get s.db j) (grow_Holds R D s u j (λ x. x) inr (λ x. x) (λ x. x))
          (placed j))

  -- The handlers and any number of workers, which may be cancelled, fail to write the table or die
  -- at any point, make moves in any order over a table whose rows are fine and whose jobs are all
  -- placed. Then the rows are fine again, and every job of the table has ended as SUCCEEDED or
  -- FAILED, or its message has yet to be published, is on the queue or is with a worker, or it is
  -- gone: it could not be published, or a worker that was cancelled or could not write the table
  -- has rejected it.
  pub Moves-AllPlaced :
      (s t : System R D)
      → Moves R D s t
      → AllFine R D s.db
      → AllPlaced R D s
      → AllFine R D t.db × AllPlaced R D t
  Moves-AllPlaced s t (stay u) fine placed = (fine, placed)
  Moves-AllPlaced s t (go a b c move moves) fine placed =
      Moves-AllPlaced b t moves (Move-AllFine R D L s b move fine)
        (Move-AllPlaced s b move fine placed)

  -- The job, if it is in the table, has ended.
  abbrev pub IsEnded : Option Row → Type 0
  IsEnded none = Unit
  IsEnded (some row) = HasEnded row

  nothing_held :
      (t : System R D) (j : Text) (row : Option Row)
      → t.unsent ≡ []
      → t.queue ≡ []
      → t.busy ≡ []
      → t.lost ≡ []
      → IsPlaced R D t j row
      → IsEnded row
  nothing_held t j none unsent queue busy lost h = tt
  nothing_held t j (some row) unsent queue busy lost (inl ended) = ended
  nothing_held t j (some row) unsent queue busy lost (inr (in_unsent h)) =
      absurd (subst (Has j) unsent h)
  nothing_held t j (some row) unsent queue busy lost (inr (in_queue h)) =
      absurd (subst (Has j) queue h)
  nothing_held t j (some row) unsent queue busy lost (inr (in_busy h)) =
      absurd (subst (Has j) busy h)
  nothing_held t j (some row) unsent queue busy lost (inr (in_lost h)) =
      absurd (subst (Has j) lost h)

  -- If the moves start with a table that is empty and end with no message on its way or with a
  -- worker, and every message could be published and none was rejected by a worker that was
  -- cancelled or could not write the table, then every job of the table has ended as SUCCEEDED or
  -- FAILED.
  pub Moves-IsEnded :
      (s : D.State) (t : System R D)
      → ((j : Text) → D.get s j ≡ none)
      → Moves R D (idle R D s) t
      → t.unsent ≡ []
      → t.queue ≡ []
      → t.busy ≡ []
      → t.lost ≡ []
      → (j : Text) → IsEnded (D.get t.db j)
  Moves-IsEnded s t empty moves unsent queue busy lost j =
      let fine : AllFine R D s = λ i. subst (IsFine R) (sym (empty i)) tt in
      let placed : AllPlaced R D (idle R D s) =
        λ i. subst (IsPlaced R D (idle R D s) i) (sym (empty i)) tt in
      nothing_held t j (D.get t.db j) unsent queue busy lost
        ((Moves-AllPlaced (idle R D s) t moves fine placed).1 j)
