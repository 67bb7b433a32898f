-- ===== src/Logging/Events.antt =====
-- logging_config.py: `_rename_timestamp_to_created_at` and `get_logger`.
use doccontext.Base.{◌≡◌, refl, ap, ◌∙◌, false, none, some, [], ◌∷◌}
use doccontext.Base.{arith, Text, codes, same, same_iff, Option-cases, inl, inr, if◌then◌else◌}
use doccontext.Base.Dict.{Dict, lookup, lookup-update}
use doccontext.Logging.Setup.{pop, rename_timestamp_to_created_at}

-- No key stands twice.
abbrev pub Absent : {V : Type 0} → Text → Dict V → Type 0
Absent key [] = Unit
Absent key ((k, v) ∷ d) = (same k key ≡ false) × Absent key d

abbrev pub AllDistinct : {V : Type 0} → Dict V → Type 0
AllDistinct [] = Unit
AllDistinct ((k, v) ∷ d) = Absent k d × AllDistinct d

module _ {V : Type 0} where
  lookup-Absent : (key : Text) (d : Dict V) → Absent key d → lookup key d ≡ none
  unfolding lookup
  lookup-Absent key [] h = refl
  lookup-Absent key ((k, v) ∷ d) (other, h) = ground (arith, lookup-Absent key d h)

  lookup-pop :
      (key j : Text) (d : Dict V)
      → AllDistinct d
      → lookup j (pop key d) ≡ (if same key j then none else lookup j d)
  unfolding lookup pop
  lookup-pop key j [] h = ground arith
  lookup-pop key j ((k, v) ∷ d) (fresh, h) = ground (
    arith,
    same_iff k key,
    same_iff key j,
    same_iff k j,
    lookup-pop key j d h,
    lookup-Absent k d fresh,
  )

  -- `_rename_timestamp_to_created_at` leaves an event without a timestamp as it is; of another, the
  -- time is under `createdAt` afterwards, `timestamp` is gone, and all other keys have their values.
  pub lookup-rename :
      (j : Text) (d : Dict V)
      → AllDistinct d
      → lookup j (rename_timestamp_to_created_at d) ≡ elim (lookup (codes "timestamp") d) [
        | none ↦ lookup j d
        | some v ↦
            if same (codes "createdAt") j
            then some v
            else (if same (codes "timestamp") j then none else lookup j d)
      ]
  unfolding rename_timestamp_to_created_at
  lookup-rename j d distinct = elim (Option-cases (lookup (codes "timestamp") d)) [
    | inl missing ↦ rw (missing, rename_timestamp_to_created_at) refl
    | inr (v, present) ↦
        rw (present, rename_timestamp_to_created_at)
          (lookup-update (codes "createdAt") j (λ _. v) (pop (codes "timestamp") d)
            ∙ ap (λ o. if same (codes "createdAt") j then some v else o)
                (lookup-pop (codes "timestamp") j d distinct))
  ]
