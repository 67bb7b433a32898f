-- ===== src/Base/Exn.antt =====
-- Python exceptions as values: the class of the exception and what `str(exc)` gives.
use mathlib.Core.Path.{◌≡◌, refl}
use mathlib.Core.Logic.{◌⊎◌, inl, inr}
use doccontext.Base.Strings.{Text}

pub data ExnKind : Type 0 where
  value_error key_error type_error attribute_error lookup_error index_error overflow_error
        not_implemented :
      ExnKind
  integrity_error data_error : ExnKind
  unsupported_file_type extractor_error malformed_job_envelope : ExnKind
  unknown_provider open_router_error external : ExnKind
  -- `context.abort` with `INVALID_ARGUMENT` and with `NOT_FOUND`
  abort_invalid_argument abort_not_found : ExnKind

pub record Exn : Type 0 where
  pub kind : ExnKind
  pub message : Text

pub data Result {ℓ} (A : Type ℓ) : Type ℓ where
  ok : A → Result A
  raise : Exn → Result A

infixl 5 ◌>>=◌ ◌>>◌
abbrev pub ◌>>=◌ {ℓ κ} : {A : Type ℓ} {B : Type κ} → Result A → (A → Result B) → Result B
ok a >>= f = f a
raise e >>= f = raise e

abbrev pub ◌>>◌ {ℓ} : {B : Type ℓ} → Result (Unit {0}) → Result B → Result B
m >> k = m >>= λ _. k

abbrev pub throw {ℓ} : {A : Type ℓ} → ExnKind → Text → Result A
throw kind message = raise (record { kind = kind; message = message })

pub Result-cases {ℓ} :
    {A : Type ℓ} (r : Result A) → ((a : A) × (r ≡ ok a)) ⊎ ((e : Exn) × (r ≡ raise e))
Result-cases (ok a) = inl (a, refl)
Result-cases (raise e) = inr (e, refl)
