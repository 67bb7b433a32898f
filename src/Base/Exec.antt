-- ===== src/Base/Exec.antt =====
-- Code that changes a state and may raise. What was changed before a raise stays changed.
use mathlib.Core.Path.{◌≡◌, refl, subst₂}
use native.Mathlib.Omega.{arith}
use doccontext.Base.Exn.{Exn, Result, ok, raise}

abbrev pub Exec {ℓ} : Type ℓ → Type ℓ → Type ℓ
Exec S A = S → Result A × S

module _ {ℓ} {S A : Type ℓ} where
  abbrev pub pure : A → Exec S A
  pure a s = (ok a, s)

  abbrev pub lift : Result A → Exec S A
  lift r s = (r, s)

  abbrev pub fail : Exn → Exec S A
  fail e s = (raise e, s)

module _ {ℓ} {S A B : Type ℓ} where
  -- What follows a statement that ended with `r`.
  abbrev pub proceed : (A → Exec S B) → Result A × S → Result B × S
  proceed f (ok a, s) = f a s
  proceed f (raise e, s) = (raise e, s)

  infixl 5 ◌>>=◌ ◌>>◌
  abbrev pub ◌>>=◌ : Exec S A → (A → Exec S B) → Exec S B
  ◌>>=◌ m f s = proceed f (m s)

  abbrev pub ◌>>◌ : Exec S A → Exec S B → Exec S B
  m >> k = m >>= λ _. k

module _ {ℓ} {S A : Type ℓ} where
  abbrev pub recover : (Exn → Exec S A) → Result A × S → Result A × S
  recover handler (ok a, s) = (ok a, s)
  recover handler (raise e, s) = handler e s

  -- `try: m except Exception as e: handler(e)`
  abbrev pub catch : Exec S A → (Exn → Exec S A) → Exec S A
  catch m handler s = recover handler (m s)

module _ {ℓ} {S A B : Type ℓ} where
  abbrev pub cleaned : Result A → Result B × S → Result A × S
  cleaned r (ok b, s) = (r, s)
  cleaned r (raise e, s) = (raise e, s)

  -- `try: m finally: cleanup`
  abbrev pub always : Exec S A → Exec S B → Exec S A
  always m cleanup s = let (r, s₁) = m s in cleaned r (cleanup s₁)

-- An action on a part of the state.
abbrev pub focus {ℓ} : {S T A : Type ℓ} → (S → T) → (S → T → S) → Exec T A → Exec S A
focus get put m s = let (r, t) = m (get s) in (r, put s t)

-- What is known of a statement and the rest if both end without a raise.
pub proceed-ok {ℓ} :
    {S A B : Type ℓ} (f : A → Exec S B) (r : Result A × S) (b : B)
    → (proceed f r).0 ≡ ok b
    → (a : A) × (r.0 ≡ ok a) × ((f a r.1).0 ≡ ok b)
proceed-ok f (ok a, s) b h = (a, refl, h)
proceed-ok f (raise e, s) b h = cc

-- The statement ended with a value and a state, and the rest went on from there.
pub data Ran {S A B : Type 0} (f : A → Exec S B) (r : Result A × S) (b : B) (t : S) : Type 0 where
  ran : (a : A) (s : S) → r ≡ (ok a, s) → f a s ≡ (ok b, t) → Ran f r b t

pub proceed-Ran :
    {S A B : Type 0} (f : A → Exec S B) (r : Result A × S) (b : B) (t : S)
    → proceed f r ≡ (ok b, t)
    → Ran f r b t
proceed-Ran f (ok a, s) b t h = ran a s refl h
proceed-Ran f (raise e, s) b t h = absurd (ground arith)

-- What holds of a value and a state holds of those that they are equal to.
pub along-ok :
    {S A : Type 0} (P : A → S → Type 0) (a b : A) (s t : S)
    → ◌≡◌ {A = Result A × S} (ok a, s) (ok b, t)
    → P a s
    → P b t
along-ok P a b s t h p =
    let value : a ≡ b = ground arith in let state : s ≡ t = ground arith in subst₂ P value state p
