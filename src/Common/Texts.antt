-- ===== src/Common/Texts.antt =====
-- The functions of Go's package strings that the program calls, on native texts.
use Prim.Native.Char.{code}
use Prim.Native.String.{String}
use mathlib.Core.Path.{◌≡◌, refl}
use mathlib.Core.Bool.{Bool, false, ◌||◌}
use mathlib.Core.List.{List, [], ◌∷◌}
use mathlib.Core.Option.{Option, none, some}
use native.Mathlib.Omega.{arith}
use text.Mathlib.Text.{◌==◌}
use text.Mathlib.TextEquality.{eq_iff}
use sbombastic.Common.Tests.{eqb, if◌then◌else◌}

-- strings.CutPrefix: the rest behind the prefix, or none.
unfoldable pub cut_prefix : String → String → Option String
cut_prefix s String.[] = some s
cut_prefix String.[] (String.◌∷◌ c p) = none
cut_prefix (String.◌∷◌ d s) (String.◌∷◌ c p) =
    if eqb (code d) (code c) then cut_prefix s p else none

-- strings.TrimPrefix
unfoldable pub trim_prefix : String → String → String
unfolding cut_prefix
trim_prefix s p = elim (cut_prefix s p) [ none ↦ s | some t ↦ t ]

-- `s + t`
abbrev pub append : String → String → String
append String.[] t = t
append (String.◌∷◌ c s) t = String.◌∷◌ c (append s t)

-- slices.Contains on texts.
abbrev pub contains : List String → String → Bool
contains [] x = false
contains (y ∷ ys) x = y == x || contains ys x

-- map[string]V: the entries of a Go map. The program never depends on their order.
abbrev pub GoMap {ℓ} : Type ℓ → Type ℓ
GoMap V = List (String × V)

module _ {ℓ} {V : Type ℓ} where
  -- `v, ok := m[key]`
  unfoldable pub lookup : GoMap V → String → Option V
  lookup [] key = none
  lookup ((name, v) ∷ entries) key = if name == key then some v else lookup entries key

  -- `m[key] = value`
  unfoldable pub assign : GoMap V → String → V → GoMap V
  assign [] key value = (key, value) ∷ []
  assign ((name, old) ∷ entries) key value =
      if name == key then (name, value) ∷ entries else (name, old) ∷ assign entries key value

  -- `delete(m, key)`
  unfoldable pub delete : GoMap V → String → GoMap V
  delete [] key = []
  delete ((name, v) ∷ entries) key =
      let others = delete entries key in if name == key then others else (name, v) ∷ others

  pub lookup-assign :
      (m : GoMap V) (key other : String) (value : V)
      → lookup (assign m key value) other ≡ (if key == other then some value else lookup m other)
  unfolding lookup assign
  lookup-assign [] key other value = refl
  lookup-assign ((name, old) ∷ entries) key other value = ground (
    arith,
    lookup-assign entries key other value,
    eq_iff name key,
    eq_iff key other,
    eq_iff name other,
  )

  pub lookup-delete :
      (m : GoMap V) (key other : String)
      → lookup (delete m key) other ≡ (if key == other then none else lookup m other)
  unfolding lookup delete
  lookup-delete [] key other = ground arith
  lookup-delete ((name, v) ∷ entries) key other =
      ground (
        arith,
        lookup-delete entries key other,
        eq_iff name key,
        eq_iff key other,
        eq_iff name other,
      )
