-- ===== src/Delivery/Placed.antt =====
-- services/ and workers/: where the jobs that have not ended are.
use mathlib.Core.Path.{subst}
use doccontext.Base.{◌≡◌, refl, sym, ap, ◌∙◌, false, Option, none, some, List, [], ◌∷◌, ◌++◌, arith}
use doccontext.Base.{◌⊎◌, inl, inr, Text, same, same_iff, Bool-cases}
use doccontext.Base.Runtime.{Runtime}
use doccontext.Models.{succeeded, failed, job_status_to_str}
use doccontext.Jobs.Database.{Row, Database}
use doccontext.Jobs.Lifecycle.{Writes}
use doccontext.Workers.Envelope.{JobEnvelope}
use doccontext.Delivery.System.{System}

-- One of the envelopes is of the job.
abbrev pub Has : Text → List JobEnvelope → Type 0
Has j [] = ⊥
Has j (env ∷ envs) = (env.job_id ≡ j) ⊎ Has j envs

pub Has-split :
    (j : Text) (xs ys : List JobEnvelope) (env : JobEnvelope)
    → Has j (xs ++ env ∷ ys)
    → (env.job_id ≡ j) ⊎ Has j (xs ++ ys)
Has-split j [] ys env h = h
Has-split j (x ∷ xs) ys env (inl e) = inr (inl e)
Has-split j (x ∷ xs) ys env (inr h) = elim (Has-split j xs ys env h) [
  | inl own ↦ inl own
  | inr rest ↦ inr (inr rest)
]

pub Has-before : (j : Text) (xs ys : List JobEnvelope) → Has j xs → Has j (xs ++ ys)
Has-before j [] ys h = absurd h
Has-before j (x ∷ xs) ys (inl e) = inl e
Has-before j (x ∷ xs) ys (inr h) = inr (Has-before j xs ys h)

pub Has-last :
    (j : Text) (xs : List JobEnvelope) (env : JobEnvelope) → env.job_id ≡ j → Has j (xs ++ env ∷ [])
Has-last j [] env e = inl e
Has-last j (x ∷ xs) env e = inr (Has-last j xs env e)

-- The status of the row is SUCCEEDED or FAILED.
abbrev pub HasEnded : Row → Type 0
HasEnded row = (row.status ≡ job_status_to_str succeeded) ⊎ (row.status ≡ job_status_to_str failed)

module _ (R : Runtime) (D : Database) where
  -- The job is on its way, or its message is gone.
  pub data Holds (s : System R D) (j : Text) : Type 0 where
    in_unsent : Has j s.unsent → Holds s j
    in_queue : Has j s.queue → Holds s j
    in_busy : Has j s.busy → Holds s j
    in_lost : Has j s.lost → Holds s j

  abbrev pub IsPlaced : System R D → Text → Option Row → Type 0
  IsPlaced s j none = Unit
  IsPlaced s j (some row) = HasEnded row ⊎ Holds s j

  -- Every job of the table has ended, is on its way, or has a message that is gone.
  abbrev pub AllPlaced : System R D → Type 0
  AllPlaced s = (j : Text) → IsPlaced s j (D.get s.db j)

  pub keep-IsPlaced :
      (s t : System R D) (j : Text) (row : Option Row)
      → (Holds s j → Holds t j)
      → IsPlaced s j row
      → IsPlaced t j row
  keep-IsPlaced s t j none f h = tt
  keep-IsPlaced s t j (some row) f (inl e) = inl e
  keep-IsPlaced s t j (some row) f (inr h) = inr (f h)

  other-IsPlaced :
      (s t : System R D) (job_id j : Text) (row : Option Row)
      → same job_id j ≡ false
      → (Holds s j → (job_id ≡ j) ⊎ Holds t j)
      → IsPlaced s j row
      → IsPlaced t j row
  other-IsPlaced s t job_id j none other f h = tt
  other-IsPlaced s t job_id j (some row) other f (inl e) = inl e
  other-IsPlaced s t job_id j (some row) other f (inr h) = elim (f h) [
    | inl own ↦ absurd (ground (arith, same_iff job_id j))
    | inr on ↦ inr on
  ]

  -- A move that writes the row of one job.
  pub write-AllPlaced :
      (s t : System R D) (job_id : Text) (new : Row)
      → Writes D s.db t.db job_id new
      → IsPlaced t job_id (some new)
      → ((j : Text) → Holds s j → (job_id ≡ j) ⊎ Holds t j)
      → AllPlaced s
      → AllPlaced t
  write-AllPlaced s t job_id new writes own f placed j = elim (Bool-cases (same job_id j)) [
    | inl this ↦
        let own_row : D.get t.db j ≡ some new = writes j ∙ rw this refl in
        subst (IsPlaced t j) (sym own_row)
          (subst (λ i. IsPlaced t i (some new)) ((same_iff job_id j).0 this) own)
    | inr other ↦
        let old_row : D.get t.db j ≡ D.get s.db j = writes j ∙ rw other refl in
        subst (IsPlaced t j) (sym old_row)
          (other-IsPlaced s t job_id j (D.get s.db j) other (f j) (placed j))
  ]

  pub leave_unsent :
      (s t : System R D) (xs ys : List JobEnvelope) (env : JobEnvelope) (j : Text)
      → s.unsent ≡ xs ++ env ∷ ys
      → t.unsent ≡ xs ++ ys
      → t.busy ≡ s.busy
      → (Has j s.queue → Has j t.queue)
      → (Has j s.lost → Has j t.lost)
      → (env.job_id ≡ j → Holds t j)
      → Holds s j
      → Holds t j
  leave_unsent s t xs ys env j at left f g k own (in_queue h) = in_queue (g h)
  leave_unsent s t xs ys env j at left f g k own (in_busy h) = in_busy (subst (Has j) (sym f) h)
  leave_unsent s t xs ys env j at left f g k own (in_lost h) = in_lost (k h)
  leave_unsent s t xs ys env j at left f g k own (in_unsent h) =
      elim (Has-split j xs ys env (subst (Has j) at h)) [
        | inl this ↦ own this
        | inr rest ↦ in_unsent (subst (Has j) (sym left) rest)
      ]

  pub leave_queue :
      (s t : System R D) (xs ys : List JobEnvelope) (env : JobEnvelope) (j : Text)
      → s.queue ≡ xs ++ env ∷ ys
      → t.queue ≡ xs ++ ys
      → (Has j s.unsent → Has j t.unsent)
      → (Has j s.busy → Has j t.busy)
      → (Has j s.lost → Has j t.lost)
      → Holds s j
      → (env.job_id ≡ j) ⊎ Holds t j
  leave_queue s t xs ys env j at left f g k (in_unsent h) = inr (in_unsent (f h))
  leave_queue s t xs ys env j at left f g k (in_busy h) = inr (in_busy (g h))
  leave_queue s t xs ys env j at left f g k (in_lost h) = inr (in_lost (k h))
  leave_queue s t xs ys env j at left f g k (in_queue h) =
      elim (Has-split j xs ys env (subst (Has j) at h)) [
        | inl own ↦ inl own
        | inr rest ↦ inr (in_queue (subst (Has j) (sym left) rest))
      ]

  pub leave_busy :
      (s t : System R D) (xs ys : List JobEnvelope) (env : JobEnvelope) (j : Text)
      → s.busy ≡ xs ++ env ∷ ys
      → t.busy ≡ xs ++ ys
      → t.unsent ≡ s.unsent
      → (Has j s.queue → Has j t.queue)
      → (Has j s.lost → Has j t.lost)
      → Holds s j
      → (env.job_id ≡ j) ⊎ Holds t j
  leave_busy s t xs ys env j at left f g k (in_unsent h) = inr (in_unsent (subst (Has j) (sym f) h))
  leave_busy s t xs ys env j at left f g k (in_queue h) = inr (in_queue (g h))
  leave_busy s t xs ys env j at left f g k (in_lost h) = inr (in_lost (k h))
  leave_busy s t xs ys env j at left f g k (in_busy h) =
      elim (Has-split j xs ys env (subst (Has j) at h)) [
        | inl own ↦ inl own
        | inr rest ↦ inr (in_busy (subst (Has j) (sym left) rest))
      ]

  pub grow_Holds :
      (s t : System R D) (j : Text)
      → (Has j s.unsent → Has j t.unsent)
      → (Has j s.queue → Has j t.queue)
      → (Has j s.busy → Has j t.busy)
      → (Has j s.lost → Has j t.lost)
      → Holds s j
      → Holds t j
  grow_Holds s t j f g b k (in_unsent h) = in_unsent (f h)
  grow_Holds s t j f g b k (in_queue h) = in_queue (g h)
  grow_Holds s t j f g b k (in_busy h) = in_busy (b h)
  grow_Holds s t j f g b k (in_lost h) = in_lost (k h)

  -- A move that drops the message of a job that is not in the table.
  pub drop-AllPlaced :
      (s t : System R D) (job_id : Text)
      → t.db ≡ s.db
      → D.get s.db job_id ≡ none
      → ((j : Text) → Holds s j → (job_id ≡ j) ⊎ Holds t j)
      → AllPlaced s
      → AllPlaced t
  drop-AllPlaced s t job_id same_db missing f placed j = elim (Bool-cases (same job_id j)) [
    | inl this ↦
        let gone : D.get t.db j ≡ none =
          ap (λ db. D.get db j) same_db
          ∙ subst (λ i. D.get s.db i ≡ none) ((same_iff job_id j).0 this) missing in
        subst (IsPlaced t j) (sym gone) tt
    | inr other ↦
        subst (λ db. IsPlaced t j (D.get db j)) (sym same_db)
          (other-IsPlaced s t job_id j (D.get s.db j) other (f j) (placed j))
  ]
