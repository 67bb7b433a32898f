-- ===== src/Base/Dict.antt =====
-- Python's `dict` with texts as keys: its entries in insertion order.
use mathlib.Core.Path.{◌≡◌, refl}
use mathlib.Core.Option.{Option, none, some}
use mathlib.Core.List.{List, [], ◌∷◌}
use native.Mathlib.Omega.{arith}
use doccontext.Base.Tests.{if◌then◌else◌}
use doccontext.Base.Strings.{Text, same, same_iff}

abbrev pub Dict {ℓ} : Type ℓ → Type ℓ
Dict V = List (Text × V)

module _ {ℓ} {V : Type ℓ} where
  -- `d.get(k)`
  unfoldable pub lookup : Text → Dict V → Option V
  lookup k [] = none
  lookup k ((j, v) ∷ d) = if same j k then some v else lookup k d

  -- `d[k] = f(d.get(k))`: in its place, or as the last entry
  unfoldable pub update : Text → (Option V → V) → Dict V → Dict V
  update k f [] = (k, f none) ∷ []
  update k f ((j, v) ∷ d) = if same j k then (j, f (some v)) ∷ d else (j, v) ∷ update k f d

  abbrev pub keys : Dict V → List Text
  keys [] = []
  keys ((k, v) ∷ d) = k ∷ keys d

  pub lookup-update :
      (k j : Text) (f : Option V → V) (d : Dict V)
      → lookup j (update k f d) ≡ (if same k j then some (f (lookup k d)) else lookup j d)
  unfolding lookup update
  lookup-update k j f [] = refl
  lookup-update k j f ((i, v) ∷ d) =
      ground (arith, same_iff k j, same_iff i k, same_iff i j, lookup-update k j f d)

-- `[k for k in keys]` after `d[key] = …`: the key is added at the end if it is new.
abbrev pub add_key : Text → List Text → List Text
add_key k [] = k ∷ []
add_key k (j ∷ ks) = if same j k then j ∷ ks else j ∷ add_key k ks

pub keys-update {ℓ} :
    {V : Type ℓ} (k : Text) (f : Option V → V) (d : Dict V)
    → keys (update k f d) ≡ add_key k (keys d)
unfolding update
keys-update k f [] = refl
keys-update k f ((j, v) ∷ d) = ground (arith, keys-update k f d)
