-- ===== src/Base/Sort.antt =====
-- Python's `list.sort(key=…)`, and lists with distinct keys.
use mathlib.Core.Path.{◌≡◌, refl, sym, ◌∙◌, ap, ap₂, subst, subst₂}
use mathlib.Core.Logic.{◌≢◌, ∥∥₁_elim}
use mathlib.Core.List.{List, [], ◌∷◌, Perm, Permᴰ}
use Prim.Native.Nat.{ℕ, suc, ◌≤◌}
use native.Mathlib.Omega.{arith}
use doccontext.Base.Tests.{leb, if◌then◌else◌}

module _ {ℓ} {A : Type ℓ} (key : A → ℕ) where
  unfoldable pub insert : A → List A → List A
  insert x [] = x ∷ []
  insert x (y ∷ ys) = if leb (key x) (key y) then x ∷ y ∷ ys else y ∷ insert x ys

  unfoldable pub sort_by : List A → List A
  unfolding insert
  sort_by [] = []
  sort_by (x ∷ xs) = insert x (sort_by xs)

  -- No item has the key of `x`.
  abbrev pub Fresh : A → List A → Type 0
  Fresh x [] = Unit
  Fresh x (y ∷ ys) = (key x ≢ key y) × Fresh x ys

  abbrev pub DistinctKeys : List A → Type 0
  DistinctKeys [] = Unit
  DistinctKeys (x ∷ xs) = Fresh x xs × DistinctKeys xs

  insert_comm :
      (x y : A) (l : List A) → key x ≢ key y → insert x (insert y l) ≡ insert y (insert x l)
  unfolding insert
  insert_comm x y [] ne = ground arith
  insert_comm x y (z ∷ l) ne = ground (arith, insert_comm x y l ne)

  Fresh-perm : (x : A) {xs ys : List A} → Permᴰ xs ys → Fresh x xs → Fresh x ys
  Fresh-perm x Permᴰ.nil f = f
  Fresh-perm x (Permᴰ.cons e p) (ne, f) = (subst (λ a. key x ≢ key a) e ne, Fresh-perm x p f)
  Fresh-perm x (Permᴰ.swap e e') (ne, (ne', f)) =
      (subst (λ a. key x ≢ key a) e' ne', (subst (λ a. key x ≢ key a) e ne, f))
  Fresh-perm x (Permᴰ.trans p q) f = Fresh-perm x q (Fresh-perm x p f)

  DistinctKeys-swap : (a b : A) (l : List A) → DistinctKeys (a ∷ b ∷ l) → DistinctKeys (b ∷ a ∷ l)
  DistinctKeys-swap a b l ((ne, fa), (fb, d)) = ((λ e. ne (sym e), fb), (fa, d))

  DistinctKeys-perm : {xs ys : List A} → Permᴰ xs ys → DistinctKeys xs → DistinctKeys ys
  DistinctKeys-perm Permᴰ.nil d = d
  DistinctKeys-perm (Permᴰ.cons {b = b} {l₂ = ys} e p) (f, d) =
      (subst (λ a. Fresh a ys) e (Fresh-perm _ p f), DistinctKeys-perm p d)
  DistinctKeys-perm (Permᴰ.swap {a = a} {b = b} {l = l} e e') d =
      subst₂ (λ x y. DistinctKeys (y ∷ x ∷ l)) e e' (DistinctKeys-swap a b l d)
  DistinctKeys-perm (Permᴰ.trans p q) d = DistinctKeys-perm q (DistinctKeys-perm p d)

  sort_by-permᴰ : {xs ys : List A} → Permᴰ xs ys → DistinctKeys xs → sort_by xs ≡ sort_by ys
  unfolding sort_by
  sort_by-permᴰ Permᴰ.nil d = refl
  sort_by-permᴰ (Permᴰ.cons e p) (f, d) = ap₂ insert e (sort_by-permᴰ p d)
  sort_by-permᴰ (Permᴰ.swap {a = a} {b = b} {l = l} e e') ((ne, fa), d) =
      insert_comm a b (sort_by l) ne ∙ ap₂ (λ x y. insert y (insert x (sort_by l))) e e'
  sort_by-permᴰ (Permᴰ.trans p q) d = sort_by-permᴰ p d ∙ sort_by-permᴰ q (DistinctKeys-perm p d)

  -- What is read off the list sorted by distinct keys does not depend on the order of the list.
  pub sort_by-perm {κ} :
      {B : Type κ} (f : List A → B) (xs ys : List A)
      → IsSet B
      → Perm xs ys
      → DistinctKeys xs
      → f (sort_by xs) ≡ f (sort_by ys)
  sort_by-perm f xs ys set p d =
      ∥∥₁_elim p (set (f (sort_by xs)) (f (sort_by ys))) (λ q. ap f (sort_by-permᴰ q d))

  -- A list whose keys increase is sorted already.
  abbrev pub Increasing : ℕ → List A → Type 0
  Increasing i [] = Unit
  Increasing i (x ∷ xs) = (i ≤ key x) × Increasing (suc (key x)) xs

  Increasing-weaken : (i j : ℕ) (xs : List A) → i ≤ j → Increasing j xs → Increasing i xs
  Increasing-weaken i j [] le h = tt
  Increasing-weaken i j (x ∷ xs) le h = (omega arith, h.1)

  Increasing-Fresh : (x : A) (xs : List A) → Increasing (suc (key x)) xs → Fresh x xs
  Increasing-Fresh x [] h = tt
  Increasing-Fresh x (y ∷ ys) h = (
    omega arith,
    Increasing-Fresh x ys (Increasing-weaken (suc (key x)) (suc (key y)) ys (omega arith) h.1),
  )

  pub Increasing-DistinctKeys : (i : ℕ) (xs : List A) → Increasing i xs → DistinctKeys xs
  Increasing-DistinctKeys i [] h = tt
  Increasing-DistinctKeys i (x ∷ xs) h =
      (Increasing-Fresh x xs h.1, Increasing-DistinctKeys (suc (key x)) xs h.1)

  pub sort_by-Increasing : (i : ℕ) (xs : List A) → Increasing i xs → sort_by xs ≡ xs
  unfolding sort_by
  sort_by-Increasing i [] h = refl
  sort_by-Increasing i (x ∷ []) h = refl
  sort_by-Increasing i (x ∷ y ∷ xs) h =
      ap (insert x) (sort_by-Increasing (suc (key x)) (y ∷ xs) h.1) ∙ ground arith
