-- ===== src/Catalog/Images/Layers.antt =====
-- The layers of an Image: one for each history entry that is not empty, in order.
use sbombastic.Common.{
  ℕ, zero, suc, ◌+◌, ◌≤◌, String, ◌≡◌, refl, inl, inr, true, not, some, List, [], ◌∷◌, arith,
  if◌then◌else◌, ltb, length, filter, get_elem?, get_elem?-none, get_elem?-some, drop, All,
  Option-cases, Bool-cases, Result, ok, err, panic, is_ok,
}
use mathlib.Core.Path.{subst}
use sbombastic.Objects.{ImageLayer}
use sbombastic.Catalog.Images.{Encoders, History, Layer, image_layers}

-- Both digests of the layer can be computed.
abbrev pub IsReadable : Layer → Type 0
IsReadable l = (is_ok l.digest ≡ true) × (is_ok l.diff_id ≡ true)

-- The text of a digest that was computed.
abbrev pub text_of : Result String → String
text_of (ok t) = t
text_of _ = ""

-- The history entries that made a layer.
abbrev pub layered : List History → List History
layered = filter (λ h. not h.empty_layer)

-- The n-th entry with the n-th layer.
abbrev pub paired : Encoders → List History → List Layer → List ImageLayer
paired enc [] ls = []
paired enc (h ∷ hs) [] = []
paired enc (h ∷ hs) (l ∷ ls) =
    record {
      command = enc.base64 h.created_by;
      digest = text_of l.digest;
      diff_id = text_of l.diff_id;
    }
    ∷ paired enc hs ls

All-get_elem? :
    (ls : List Layer) (i : ℕ) (l : Layer)
    → All IsReadable ls
    → get_elem? ls i ≡ some l
    → IsReadable l
All-get_elem? [] i l h e = cc
All-get_elem? (x ∷ ls) zero l h e = let same : x ≡ l = cc in subst IsReadable same h.0
All-get_elem? (x ∷ ls) (suc i) l h e = All-get_elem? ls i l h.1 e

text_of_ok : (r : Result String) → is_ok r ≡ true → r ≡ ok (text_of r)
text_of_ok (ok t) h = refl
text_of_ok (err e) h = cc
text_of_ok panic h = cc

module _ (enc : Encoders) (ls : List Layer) (readable : All IsReadable ls) where
  from :
      (hs : List History) (i : ℕ)
      → i ≤ length ls
      → image_layers enc hs ls i ≡ (
          if ltb (length ls) (i + length (layered hs))
          then panic
          else ok (paired enc (layered hs) (drop i ls)))
  unfolding image_layers
  from [] i h = ground arith
  from (x ∷ hs) i h = elim (Bool-cases x.empty_layer) [
    | inl e ↦ let ih = from hs i h in rw e ih
    | inr e ↦ elim (Option-cases (get_elem? ls i)) [
      | inl n ↦ let past = get_elem?-none ls i n in ground arith
      | inr (l, at) ↦
          let (d, inside) = get_elem?-some ls i l at in
          let (r1, r2) = All-get_elem? ls i l readable at in
          let e1 = text_of_ok l.digest r1 in
          let e2 = text_of_ok l.diff_id r2 in let ih = from hs (suc i) inside in ground arith
    ]
  ]

-- Where the digests of the layers can be computed, the loop pairs the n-th history entry that is not
-- empty with the n-th layer. If there are more such entries than layers it runs out of the list of
-- layers and panics: no input makes it return its error.
pub image_layers-paired :
    (enc : Encoders) (hs : List History) (ls : List Layer)
    → All IsReadable ls
    → image_layers enc hs ls 0
      ≡ (if ltb (length ls) (length (layered hs)) then panic else ok (paired enc (layered hs) ls))
image_layers-paired enc hs ls readable =
    let at_zero : 0 + length (layered hs) ≡ length (layered hs) = omega arith in
    subst
      (λ n.
        image_layers enc hs ls 0
        ≡ (if ltb (length ls) n then panic else ok (paired enc (layered hs) ls)))
      at_zero (from enc ls readable hs 0 (omega arith))
