-- ===== src/Chunking/Separators.antt =====
-- chunking/recursive.py: the separators that are left for the next level of the recursion.
use mathlib.Core.Option
use doccontext.Base.{ℕ, zero, suc, ◌≤◌, ◌<◌, ◌≡◌, refl, ap, ◌∙◌, false, Option, none, some}
use doccontext.Base.{List, [], ◌∷◌, arith, Text, same, same_iff, same_refl, length, is_empty, drop}
use doccontext.Base.{contains, ◌||◌, if◌then◌else◌, inl, inr, Bool-cases}
use doccontext.Chunking.Defs.{pick_separator, index_of, finer_separators}

-- The number of separators that are not empty.
abbrev pub weight : List Text → ℕ
weight [] = 0
weight (s ∷ separators) = if is_empty s then weight separators else suc (weight separators)

pub weight-le-length : (separators : List Text) → weight separators ≤ length separators
weight-le-length [] = omega arith
weight-le-length (s ∷ separators) = ground (arith, weight-le-length separators)

weight-drop : (k : ℕ) (separators : List Text) → weight (drop k separators) ≤ weight separators
weight-drop zero separators = omega arith
weight-drop (suc k) [] = omega arith
weight-drop (suc k) (s ∷ separators) = ground (arith, weight-drop k separators)

-- What is left behind a separator that was found.
rest_of : List Text → Option ℕ → List Text
rest_of separators none = [] ∷ []
rest_of separators (some idx) = drop (suc idx) separators

weight-later :
    (s : Text) (separators : List Text) (found : Option ℕ)
    → weight (rest_of separators found) < weight separators
    → weight (rest_of (s ∷ separators) (Option.map suc found)) < weight (s ∷ separators)
unfolding rest_of
weight-later s separators none h = ground arith
weight-later s separators (some idx) h = ground arith

weight-rest_of :
    (separators : List Text) (text sep : Text)
    → sep ≡ pick_separator separators text
    → is_empty sep ≡ false
    → weight (rest_of separators (index_of sep separators)) < weight separators
unfolding pick_separator index_of rest_of
weight-rest_of [] text sep e h = ground arith
weight-rest_of (s ∷ separators) text sep e h = elim (Bool-cases (same s sep)) [
  | inl eq ↦
      let s_full : is_empty s ≡ false = rw ((same_iff s sep).0 eq) h in
      rw (eq, s_full) (omega arith)
  | inr ne ↦ elim (Bool-cases (is_empty s || contains text s)) [
    | inl picked ↦ let sep_eq : sep ≡ s = e ∙ rw picked in cc (ne, same_refl s, ap (same s) sep_eq)
    | inr skipped ↦
        let e' : sep ≡ pick_separator separators text = e ∙ rw skipped in
        rw ne (
          weight-later s separators (index_of sep separators)
            (weight-rest_of separators text sep e' h))
  ]
]

-- The separators of a sub-chunker weigh less than those of the chunker that made it.
pub weight-finer :
    (separators : List Text) (text : Text)
    → is_empty (pick_separator separators text) ≡ false
    → weight (finer_separators separators (pick_separator separators text)) < weight separators
unfolding finer_separators rest_of
weight-finer separators text h =
    weight-or_default (index_of (pick_separator separators text) separators)
      (weight-rest_of separators text (pick_separator separators text) refl h)
  where
    weight-or_default :
        (found : Option ℕ)
        → weight (rest_of separators found) < weight separators
        → weight (
            let finer : List Text = elim found [
              | none ↦ [] ∷ []
              | some idx ↦ drop (suc idx) separators
            ] in
            if is_empty finer then [] ∷ [] else finer)
          < weight separators
    weight-or_default none lt = lt
    weight-or_default (some idx) lt = nonempty (drop (suc idx) separators) lt
      where
        nonempty :
            (finer : List Text)
            → weight finer < weight separators
            → weight (if is_empty finer then [] ∷ [] else finer) < weight separators
        nonempty [] l = l
        nonempty (t ∷ finer) l = l
