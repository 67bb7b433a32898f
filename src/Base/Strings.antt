-- ===== src/Base/Strings.antt =====
-- Python's `str` as a list of code points: comparison, `in` and `find`.
use Prim.Native.Nat.{ℕ, zero, suc, ◌+◌, ◌≤◌}
use Prim.Native.Char.{code}
use Prim.Native.String.{String}
use mathlib.Core.Path.{◌≡◌, refl}
use mathlib.Core.Logic.{◌↔◌}
use mathlib.Core.Bool.{Bool, true, false, ◌&&◌}
use mathlib.Core.Option
use mathlib.Core.Option.{Option, none, some}
use mathlib.Core.List.{List, [], ◌∷◌}
use native.Mathlib.Omega.{arith}
use doccontext.Base.Tests.{◌==◌, if◌then◌else◌}
use doccontext.Base.Lists.{length}

abbrev pub Text : Type 0
Text = List ℕ

-- The text of a literal.
abbrev pub codes : String → Text
codes String.[] = []
codes (String.◌∷◌ c s) = code c ∷ codes s

-- `s == t`
unfoldable pub same : Text → Text → Bool
same [] [] = true
same [] (d ∷ t) = false
same (c ∷ s) [] = false
same (c ∷ s) (d ∷ t) = c == d && same s t

pub same_iff : (s t : Text) → (same s t ≡ true) ↔ (s ≡ t)
unfolding same
same_iff [] [] = (λ _. refl, λ _. refl)
same_iff [] (d ∷ t) = (λ h. cc, λ h. cc)
same_iff (c ∷ s) [] = (λ h. cc, λ h. cc)
same_iff (c ∷ s) (d ∷ t) = ground (arith, same_iff s t)

pub same_refl : (s : Text) → same s s ≡ true
same_refl s = (same_iff s s).1 refl

-- `text.startswith(prefix)`
unfoldable pub starts_with : Text → Text → Bool
starts_with text [] = true
starts_with [] (c ∷ prefix) = false
starts_with (d ∷ text) (c ∷ prefix) = c == d && starts_with text prefix

-- `text.find(sep)`: the first index at which `sep` stands, `none` for -1
unfoldable pub find : Text → Text → Option ℕ
unfolding starts_with
find [] sep = if starts_with [] sep then some 0 else none
find (c ∷ text) sep = if starts_with (c ∷ text) sep then some 0 else Option.map suc (find text sep)

-- `sep in text`
unfoldable pub contains : Text → Text → Bool
unfolding find
contains text sep = elim (find text sep) [ none ↦ false | some _ ↦ true ]

starts_with-length :
    (text prefix : Text) → starts_with text prefix ≡ true → length prefix ≤ length text
unfolding starts_with
starts_with-length text [] h = omega arith
starts_with-length [] (c ∷ prefix) h = cc
starts_with-length (d ∷ text) (c ∷ prefix) h = ground (arith, starts_with-length text prefix)

-- What `find` returns lies within the text.
pub find_bounds : (text sep : Text) (i : ℕ) → find text sep ≡ some i → i + length sep ≤ length text
unfolding find
find_bounds [] sep i h = ground (arith, starts_with-length [] sep)
find_bounds (c ∷ text) sep zero h = found (find text sep) h
  where
    found :
        (rest : Option ℕ)
        → (if starts_with (c ∷ text) sep then some 0 else Option.map suc rest) ≡ some 0
        → 0 + length sep ≤ length (c ∷ text)
    found none e = ground (arith, starts_with-length (c ∷ text) sep)
    found (some k) e = ground (arith, starts_with-length (c ∷ text) sep)
find_bounds (c ∷ text) sep (suc i) h = found (find text sep) (find_bounds text sep) h
  where
    found :
        (rest : Option ℕ)
        → ((k : ℕ) → rest ≡ some k → k + length sep ≤ length text)
        → (if starts_with (c ∷ text) sep then some 0 else Option.map suc rest) ≡ some (suc i)
        → suc i + length sep ≤ length (c ∷ text)
    found none ih e = ground arith
    found (some k) ih e = ground (arith, ih k refl)
