-- ===== src/Jobs/History.antt =====
-- repositories/job.py: the table after any sequence of calls, of any callers.
use mathlib.Core.Path.{subst}
use doccontext.Base.{ℕ, ◌≡◌, refl, sym, ap, ◌∙◌, ◌≤◌, Option, none, some, List, [], ◌∷◌, arith}
use doccontext.Base.{
  inl, inr, Text, same, same_iff, length, take, length-take, Bool-cases, Option-cases,
}
use doccontext.Base.Runtime.{Runtime}
use doccontext.Models.{JobType, JobStatus, queued, running, succeeded, failed, job_status_to_str}
use doccontext.Jobs.Database.{Row, Database, IsDatabase, fits}
use doccontext.Jobs.Repository.{
  changed_row, new_row, create, transition, mark_running, mark_succeeded, mark_failed,
}
use doccontext.Jobs.Rows.{
  IsSound, IsSound-changed_row, MessageFits, MessageFits-take, job_type_of_str-to_str,
  job_status_of_str-to_str,
}
use doccontext.Jobs.Lifecycle.{
  Writes, transition_found, transition_missing, create_fresh, create_refused,
}

-- A call of the repository that changes the table.
pub data Call : Type 0 where
  creation : ℕ → Text → JobType → Text → Text → Text → Text → Option Text → Call
  start : ℕ → Text → Call
  success : ℕ → Text → Call
  failure : ℕ → Text → Text → Call

-- The values of a row that no transition writes.
abbrev pub identity_of : Row → Row
identity_of row = record row { status = []; error_message = none; updated_at = 0 }

-- The error message agrees with the status: a queued and a succeeded job have none, and a failed
-- one has a message of 2048 characters at most.
pub data Agrees (row : Row) : Type 0 where
  waits : row.status ≡ job_status_to_str queued → row.error_message ≡ none → Agrees row
  runs : row.status ≡ job_status_to_str running → Agrees row
  done : row.status ≡ job_status_to_str succeeded → row.error_message ≡ none → Agrees row
  broken :
      (message : Text)
      → row.status ≡ job_status_to_str failed
      → row.error_message ≡ some message
      → length message ≤ 2048
      → Agrees row

-- The row is still there, and describes the same job.
abbrev pub IsKept : Option Row → Option Row → Type 0
IsKept none new = Unit
IsKept (some row) none = ⊥
IsKept (some row) (some new) = identity_of new ≡ identity_of row

identity_of-changed_row :
    (now : ℕ) (status : JobStatus) (e : Option (Option Text)) (row : Row)
    → identity_of (changed_row now status e row) ≡ identity_of row
identity_of-changed_row now status none row = refl
identity_of-changed_row now status (some e) row = refl

IsKept-refl : (row : Option Row) → IsKept row row
IsKept-refl none = tt
IsKept-refl (some row) = refl

IsKept-trans : (a b c : Option Row) → IsKept a b → IsKept b c → IsKept a c
IsKept-trans none b c h k = tt
IsKept-trans (some a) none c h k = absurd h
IsKept-trans (some a) (some b) none h k = absurd k
IsKept-trans (some a) (some b) (some c) h k = k ∙ h

module _ (R : Runtime) where
  abbrev pub IsFine : Option Row → Type 0
  IsFine none = Unit
  IsFine (some row) = IsSound R row × Agrees row

  module _ (D : Database) where
    -- The table after the call, whether it returns or raises.
    unfoldable pub after_call : Call → D.State → D.State
    after_call (creation now job_id job_type client_id corpus_id document_id file_type file_path)
          s =
        (create R D now job_id job_type client_id corpus_id document_id file_type file_path s).1
    after_call (start now job_id) s = (mark_running R D now job_id s).1
    after_call (success now job_id) s = (mark_succeeded R D now job_id s).1
    after_call (failure now job_id message) s = (mark_failed R D now job_id message s).1

    unfoldable pub after_calls : List Call → D.State → D.State
    after_calls [] s = s
    after_calls (c ∷ calls) s = after_calls calls (after_call c s)

    abbrev pub AllFine : D.State → Type 0
    AllFine s = (j : Text) → IsFine (D.get s j)

    abbrev pub AllKept : D.State → D.State → Type 0
    AllKept s t = (j : Text) → IsKept (D.get s j) (D.get t j)

    -- The table is as before, or one fine row is new or has changed.
    data Step (s t : D.State) : Type 0 where
      same_table : t ≡ s → Step s t
      one_row :
          (job_id : Text) (new : Row)
          → Writes D s t job_id new
          → IsFine (some new)
          → IsKept (D.get s job_id) (some new)
          → Step s t

    module _ (L : IsDatabase D) where
      transition-Step :
          (now : ℕ) (job_id : Text) (status : JobStatus) (e : Option (Option Text)) (s : D.State)
          → AllFine s
          → MessageFits e
          → ((row : Row) → Agrees (changed_row now status e row))
          → Step s (transition R D now job_id status e s).1
      transition-Step now job_id status e s fine fit agrees = elim (Option-cases (D.get s job_id)) [
        | inl missing ↦
            same_table (ap (λ x. x.1) (transition_missing R D L now job_id status e s missing))
        | inr (row, found) ↦
            let new : Row = changed_row now status e row in
            let own : IsFine (some row) = subst IsFine found (fine job_id) in
            let (t, made, writes) =
              transition_found R D L now job_id status e s row own.0 fit found in
            one_row job_id new (λ j. ap (λ x. D.get x.1 j) made ∙ writes j)
              (IsSound-changed_row R now status e row own.0 fit, agrees row)
              (subst (λ r. IsKept r (some new)) (sym found)
                (identity_of-changed_row now status e row))
      ]

      creation-Step :
          (now : ℕ) (job_id : Text) (job_type : JobType)
          (client_id corpus_id document_id file_type : Text) (file_path : Option Text) (s : D.State)
          → Step s
              (create R D now job_id job_type client_id corpus_id document_id file_type file_path
                s).1
      creation-Step now job_id job_type client_id corpus_id document_id file_type file_path s =
          let row : Row =
            new_row now job_id job_type client_id corpus_id document_id file_type file_path in
          elim (Option-cases (D.get s job_id)) [
            | inr (old, taken) ↦
                let (e, refused) =
                  create_refused R D L now job_id job_type client_id corpus_id document_id file_type
                    file_path s (inl (old, taken)) in
                same_table (ap (λ x. x.1) refused)
            | inl free ↦ elim (Bool-cases (fits row)) [
              | inr wide ↦
                  let (e, refused) =
                    create_refused R D L now job_id job_type client_id corpus_id document_id
                      file_type file_path s (inr wide) in
                  same_table (ap (λ x. x.1) refused)
              | inl ok_row ↦
                  let (t, made, writes) =
                    create_fresh R D L now job_id job_type client_id corpus_id document_id file_type
                      file_path s free ok_row in
                  one_row job_id row (λ j. ap (λ x. D.get x.1 j) made ∙ writes j)
                    (
                      record {
                        job_type = job_type;
                        status = queued;
                        type_valid = job_type_of_str-to_str job_type;
                        status_valid = job_status_of_str-to_str queued;
                        row_fits = ok_row;
                      },
                      waits refl refl,
                    )
                    (subst (λ r. IsKept r (some row)) (sym free) tt)
            ]
          ]

      call-Step : (c : Call) (s : D.State) → AllFine s → Step s (after_call c s)
      unfolding after_call mark_running mark_succeeded mark_failed
      call-Step (creation now job_id job_type client_id corpus_id document_id file_type path) s
            fine =
          creation-Step now job_id job_type client_id corpus_id document_id file_type path s
      call-Step (start now job_id) s fine =
          transition-Step now job_id running none s fine tt (λ row. runs refl)
      call-Step (success now job_id) s fine =
          transition-Step now job_id succeeded (some none) s fine refl (λ row. done refl refl)
      call-Step (failure now job_id message) s fine =
          transition-Step now job_id failed (some (some (take 2048 message))) s fine
            (MessageFits-take message)
            (λ row. broken (take 2048 message) refl refl (omega (arith, length-take 2048 message)))

      Step-AllFine : (s t : D.State) → Step s t → AllFine s → AllFine t
      Step-AllFine s t (same_table e) fine j = subst (λ u. IsFine (D.get u j)) (sym e) (fine j)
      Step-AllFine s t (one_row job_id new writes own kept) fine j =
          elim (Bool-cases (same job_id j)) [
            | inl this ↦
                let own_row : D.get t j ≡ some new = writes j ∙ rw this refl in
                subst IsFine (sym own_row) own
            | inr other ↦
                let old_row : D.get t j ≡ D.get s j = writes j ∙ rw other refl in
                subst IsFine (sym old_row) (fine j)
          ]

      Step-AllKept : (s t : D.State) → Step s t → AllKept s t
      Step-AllKept s t (same_table e) j =
          subst (λ u. IsKept (D.get s j) (D.get u j)) (sym e) (IsKept-refl (D.get s j))
      Step-AllKept s t (one_row job_id new writes own kept) j = elim (Bool-cases (same job_id j)) [
        | inl this ↦
            let own_row : D.get t j ≡ some new = writes j ∙ rw this refl in
            subst (IsKept (D.get s j)) (sym own_row)
              (subst (λ i. IsKept (D.get s i) (some new)) ((same_iff job_id j).0 this) kept)
        | inr other ↦
            let old_row : D.get t j ≡ D.get s j = writes j ∙ rw other refl in
            subst (IsKept (D.get s j)) (sym old_row) (IsKept-refl (D.get s j))
      ]

      -- Whatever calls of the repository are made, in any order and by any callers, and whether
      -- they return or raise: every row stays one that the program can read, with an error message
      -- that agrees with its status; and every job stays in the table with the values it was
      -- created with.
      pub after_calls-AllFine :
          (calls : List Call) (s : D.State)
          → AllFine s
          → AllFine (after_calls calls s) × AllKept s (after_calls calls s)
      unfolding after_calls
      after_calls-AllFine [] s fine = (fine, λ j. IsKept-refl (D.get s j))
      after_calls-AllFine (c ∷ calls) s fine =
          let step = call-Step c s fine in
          let t = after_call c s in
          let (fine', kept) = after_calls-AllFine calls t (Step-AllFine s t step fine) in
          (
            fine',
            λ j.
                IsKept-trans (D.get s j) (D.get t j) (D.get (after_calls calls t) j)
                  (Step-AllKept s t step j) (kept j),
          )
