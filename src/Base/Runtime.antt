-- ===== src/Base/Runtime.antt =====
-- What the program takes from Python itself and is not modelled: floating-point numbers, the texts
-- of values, case mapping, and the texts of JSON values.
use Prim.Native.Nat.{ℕ}
use mathlib.Core.Path.{◌≡◌}
use mathlib.Core.Bool.{Bool, true, false, not}
use mathlib.Core.Option.{Option}
use doccontext.Base.Tests.{◌==◌}
use doccontext.Base.Lists.{is_empty}
use doccontext.Base.Strings.{Text}
use doccontext.Base.Int.{ℤ, pos, negsuc}
use doccontext.Base.Exn.{Result}
use doccontext.Base.Json.{Json, null, bool, int, float, str, arr, obj, nil, cons, end, field}

pub record Runtime : Type 1 where
  pub Float : Type 0
  -- `0.0` and `1.0`
  pub zero : Float
  pub one : Float
  -- `a < b`
  pub lt : Float → Float → Bool
  -- `float(n)`, with `none` for the `OverflowError`, and `float(text)`, with `none` for the
  -- `ValueError`
  pub float_of_int : ℤ → Option Float
  pub float_of_text : Text → Option Float
  -- `int(text)`, with `none` for the `ValueError`, and `int(x)`, which raises for NaN and infinity
  pub int_of_text : Text → Option ℤ
  pub int_of_float : Float → Result ℤ
  -- `bool(x)` and `f"{x:.4f}"`
  pub float_truthy : Float → Bool
  pub float_to_fixed : Float → Text
  -- `repr(value)`
  pub repr : Json Float → Text
  -- `text.upper()` and `text.strip()`
  pub upper : Text → Text
  pub strip : Text → Text
  -- `json.loads`, with `none` for the `ValueError`, and `json.dumps` with the separators `,` and `:`
  pub loads : Text → Option (Json Float)
  pub dumps : Json Float → Text

module _ (R : Runtime) where
  -- `bool(value)`
  unfoldable pub truthy : Json R.Float → Bool
  truthy null = false
  truthy (bool b) = b
  truthy (int (pos n)) = not (n == 0)
  truthy (int (negsuc n)) = true
  truthy (float x) = R.float_truthy x
  truthy (str t) = not (is_empty t)
  truthy (arr nil) = false
  truthy (arr (cons v vs)) = true
  truthy (obj end) = false
  truthy (obj (field k v fs)) = true

  -- `str(value)`: for all but texts it is `repr(value)`.
  unfoldable pub to_str : Json R.Float → Text
  to_str (str t) = t
  to_str v = R.repr v

  -- `repr(text)` and `str(n)`
  abbrev pub repr_text : Text → Text
  repr_text t = R.repr (str t)

  abbrev pub decimal : ℕ → Text
  decimal n = R.repr (int (pos n))

-- What is assumed of the order of floating-point numbers, among them NaN.
pub record IsFloat (R : Runtime) : Type 0 where
  pub lt_asymm : (a b : R.Float) → R.lt a b ≡ true → R.lt b a ≡ false
  pub zero_lt_one : R.lt R.zero R.one ≡ true
