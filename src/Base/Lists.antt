-- ===== src/Base/Lists.antt =====
-- Lists measured and cut by native numbers, under the library's names.
use Prim.Native.Nat.{ℕ, zero, suc, ◌+◌, ◌-◌, ◌≤◌, min}
use mathlib.Core.Path.{◌≡◌, refl, sym, ◌∙◌, ap}
use mathlib.Core.Bool.{Bool, true, false}
use mathlib.Core.List.{List, [], ◌∷◌, ◌++◌, map}
use mathlib.Core.Option.{Option, none, some}
use native.Mathlib.Omega.{arith}

module _ {ℓ} {A : Type ℓ} where
  abbrev pub length : List A → ℕ
  length [] = 0
  length (x ∷ xs) = suc (length xs)

  -- `not xs`
  abbrev pub is_empty : List A → Bool
  is_empty [] = true
  is_empty (x ∷ xs) = false

  -- `xs[-1]`
  abbrev pub get_last? : List A → Option A
  get_last? [] = none
  get_last? (x ∷ []) = some x
  get_last? (x ∷ y ∷ xs) = get_last? (y ∷ xs)

  abbrev pub take : ℕ → List A → List A
  take zero xs = []
  take (suc n) [] = []
  take (suc n) (x ∷ xs) = x ∷ take n xs

  abbrev pub drop : ℕ → List A → List A
  drop zero xs = xs
  drop (suc n) [] = []
  drop (suc n) (x ∷ xs) = drop n xs

module _ {ℓ} {A : Type ℓ} where
  -- `xs[a:b]`, for bounds that are not negative
  abbrev pub slice : ℕ → ℕ → List A → List A
  slice a b xs = take (b - a) (drop a xs)

  pub length-append : (xs ys : List A) → length (xs ++ ys) ≡ length xs + length ys
  length-append [] ys = omega arith
  length-append (x ∷ xs) ys = omega (arith, length-append xs ys)

  pub take-nil : (n : ℕ) → take {A = A} n [] ≡ []
  take-nil zero = refl
  take-nil (suc n) = refl

  pub length-take : (n : ℕ) (xs : List A) → length (take n xs) ≡ min n (length xs)
  length-take zero xs = omega arith
  length-take (suc n) [] = omega arith
  length-take (suc n) (x ∷ xs) = omega (arith, length-take n xs)

  pub length-drop : (n : ℕ) (xs : List A) → length (drop n xs) ≡ length xs - n
  length-drop zero xs = omega arith
  length-drop (suc n) [] = omega arith
  length-drop (suc n) (x ∷ xs) = omega (arith, length-drop n xs)

  pub take_all : (n : ℕ) (xs : List A) → length xs ≤ n → take n xs ≡ xs
  take_all zero [] h = refl
  take_all zero (x ∷ xs) h = absurd (omega arith)
  take_all (suc n) [] h = refl
  take_all (suc n) (x ∷ xs) h = ap (λ l. x ∷ l) (take_all n xs (omega arith))

  pub drop-nil : (n : ℕ) → drop {A = A} n [] ≡ []
  drop-nil zero = refl
  drop-nil (suc n) = refl

  pub drop-drop : (m n : ℕ) (xs : List A) → drop m (drop n xs) ≡ drop (n + m) xs
  drop-drop m zero xs = ap (λ (k : ℕ). drop k xs) (omega arith)
  drop-drop m (suc n) [] = drop-nil m ∙ sym (drop-nil (suc n + m))
  drop-drop m (suc n) (x ∷ xs) =
      drop-drop m n xs
      ∙ ap (λ (k : ℕ). drop k (x ∷ xs)) (let e : suc (n + m) ≡ suc n + m = omega arith in e)

  pub drop-take : (k n : ℕ) (xs : List A) → drop k (take n xs) ≡ take (n - k) (drop k xs)
  drop-take zero n xs = ap (λ (m : ℕ). take m xs) (omega arith)
  drop-take (suc k) zero xs =
      drop-nil (suc k)
      ∙ ap (λ (m : ℕ). take m (drop (suc k) xs)) (let e : zero ≡ 0 - suc k = omega arith in e)
  drop-take (suc k) (suc n) [] = sym (take-nil (suc n - suc k))
  drop-take (suc k) (suc n) (x ∷ xs) =
      drop-take k n xs
      ∙ ap (λ (m : ℕ). take m (drop k xs)) (let e : n - k ≡ suc n - suc k = omega arith in e)

  -- The beginning of a list, a piece at a time.
  pub take-append-slice : (a b : ℕ) (xs : List A) → a ≤ b → take a xs ++ slice a b xs ≡ take b xs
  take-append-slice zero b xs h = ap (λ (m : ℕ). take m xs) (let e : b - 0 ≡ b = omega arith in e)
  take-append-slice (suc a) b [] h = take-nil (b - suc a) ∙ sym (take-nil b)
  take-append-slice (suc a) zero (x ∷ xs) h = absurd (omega arith)
  take-append-slice (suc a) (suc b) (x ∷ xs) h =
      ap (λ l. x ∷ l)
        (ap (λ (m : ℕ). take a xs ++ take m (drop a xs))
            (let e : suc b - suc a ≡ b - a = omega arith in e)
          ∙ take-append-slice a b xs (omega arith))

  pub length-slice : (a b : ℕ) (xs : List A) → b ≤ length xs → length (slice a b xs) ≡ b - a
  length-slice a b xs h = omega (arith, length-take (b - a) (drop a xs), length-drop a xs)

  -- The tail of a slice, from a place inside it.
  pub drop-slice : (k a b : ℕ) (xs : List A) → drop k (slice a b xs) ≡ slice (a + k) b xs
  drop-slice k a b xs =
      drop-take k (b - a) (drop a xs)
      ∙ ap (take (b - a - k)) (drop-drop k a xs)
      ∙ ap (λ (m : ℕ). take m (drop (a + k) xs))
          (let e : b - a - k ≡ b - (a + k) = omega arith in e)

  -- Adjacent slices.
  pub slice-append-slice :
      (a m b : ℕ) (xs : List A) → a ≤ m → m ≤ b → slice a m xs ++ slice m b xs ≡ slice a b xs
  slice-append-slice a m b xs p q =
      ap (λ l. slice a m xs ++ l)
        (ap (take (b - m)) (
            ap (λ (k : ℕ). drop k xs) (let e : m ≡ a + (m - a) = omega arith in e)
            ∙ sym (drop-drop (m - a) a xs))
          ∙ ap (λ (k : ℕ). take k (drop (m - a) (drop a xs)))
              (let e : b - m ≡ b - a - (m - a) = omega arith in e))
      ∙ take-append-slice (m - a) (b - a) (drop a xs) (omega arith)

pub length-map {ℓ κ} :
    {A : Type ℓ} {B : Type κ} (f : A → B) (xs : List A) → length (map f xs) ≡ length xs
length-map f [] = refl
length-map f (x ∷ xs) = ap suc (length-map f xs)
