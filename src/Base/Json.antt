-- ===== src/Base/Json.antt =====
-- The values that `json.loads` returns and `json.dumps` takes.
use mathlib.Core.Bool.{Bool}
use mathlib.Core.Option.{Option, none, some}
use doccontext.Base.Tests.{if◌then◌else◌}
use doccontext.Base.Int.{ℤ}
use doccontext.Base.Strings.{Text, same}

mutual
  pub data Json (F : Type 0) : Type 0 where
    null : Json F
    bool : Bool → Json F
    int : ℤ → Json F
    float : F → Json F
    str : Text → Json F
    arr : Items F → Json F
    obj : Fields F → Json F

  pub data Items (F : Type 0) : Type 0 where
    nil : Items F
    cons : Json F → Items F → Items F

  -- The entries of a `dict`, whose keys differ from one another.
  pub data Fields (F : Type 0) : Type 0 where
    end : Fields F
    field : Text → Json F → Fields F → Fields F

module _ {F : Type 0} where
  -- `d.get(key)`, with `none` for a missing key
  unfoldable pub get_field : Text → Fields F → Option (Json F)
  unfolding same
  get_field key end = none
  get_field key (field k v fs) = if same k key then some v else get_field key fs
