-- ===== src/Common/Maps.antt =====
-- Maps whose keys stand in them once.
use mathlib.Core.Path.{◌≡◌, refl, sym, ap, ◌∙◌}
use mathlib.Core.Bool.{false}
use mathlib.Core.List.{[], ◌∷◌}
use mathlib.Core.Logic.{inl, inr}
use mathlib.Core.Option.{none, some, some-ne-none}
use Prim.Native.String.{String}
use native.Mathlib.Omega.{arith}
use text.Mathlib.Text.{◌==◌}
use text.Mathlib.TextEquality.{eq_iff}
use text.Mathlib.TextPositions.{eq_refl}
use sbombastic.Common.Tests.{if◌then◌else◌, Bool-cases}
use sbombastic.Common.Lists.{All, All-imp}
use sbombastic.Common.Texts.{GoMap, lookup, assign, lookup-assign}

-- Each key of a map stands in it once.
unfoldable pub HasKeysOnce : {V : Type 0} → GoMap V → Type 0
HasKeysOnce [] = Unit
HasKeysOnce ((key, v) ∷ entries) = (lookup entries key ≡ none) × HasKeysOnce entries

other_key : (a b : String) → (a == b) ≡ false → (b == a) ≡ false
other_key a b h = ground (arith, eq_iff a b, eq_iff b a)

pub HasKeysOnce-assign :
    {V : Type 0} (m : GoMap V) (key : String) (v : V) → HasKeysOnce m → HasKeysOnce (assign m key v)
unfolding HasKeysOnce assign lookup
HasKeysOnce-assign [] key v h = (refl, _)
HasKeysOnce-assign ((name, old) ∷ m) key v (free, h) = elim (Bool-cases (name == key)) [
  | inl e ↦ rw e (free, h)
  | inr e ↦
      rw e
        (lookup-assign m key name v ∙ rw (other_key name key e) free, HasKeysOnce-assign m key v h)
]

behind :
    {V : Type 0} (m : GoMap V) (name key : String) (v w : V)
    → lookup m name ≡ none
    → lookup m key ≡ some w
    → (if name == key then some v else lookup m key) ≡ some w
behind m name key v w free found = elim (Bool-cases (name == key)) [
  | inl e ↦
      let p = ap (lookup m) ((eq_iff name key).0 e) in
      absurd (some-ne-none w (sym found ∙ (sym p ∙ free)))
  | inr e ↦ rw e found
]

-- Then looking a key up finds its entry.
pub entries-lookup :
    {V : Type 0} (m : GoMap V) → HasKeysOnce m → All (λ e. lookup m (e.0) ≡ some (e.1)) m
unfolding HasKeysOnce lookup
entries-lookup [] h = _
entries-lookup ((name, v) ∷ m) (free, h) = (
  rw (eq_refl name) refl,
  All-imp (λ e found. behind m name (e.0) v (e.1) free found) m (entries-lookup m h),
)
