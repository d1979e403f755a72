-- ===== src/Rescans/Cases.antt =====
-- The Boolean cases of one step of the merge of rescan requests.
use sbombastic.Common.{
  String, ◌≡◌, refl, Bool, true, false, not, ◌&&◌, ◌||◌, List, [], ◌∷◌, arith, contains, is_empty,
}

pub or_swap : (a b : Bool) → (a || b) ≡ (b || a)
or_swap a b = ground arith

pub or_false : (a : Bool) → (a || false) ≡ a
or_false a = ground arith

-- A repository that is wanted whole already.
pub whole_case :
    (whole asked same listed : Bool)
    → (whole ≡ true → asked ≡ false)
    → (same ≡ true → whole ≡ true)
    → asked ≡ (not whole && (asked || (same && listed)))
whole_case whole asked same listed normal implied = ground arith

-- A repository that becomes wanted whole, and one that does not.
pub removed_case :
    (whole asked same listed : Bool)
    → (whole ≡ true → asked ≡ false)
    → listed ≡ false
    → (not same && asked) ≡ (not (same || whole) && (asked || (same && listed)))
removed_case whole asked same listed normal none_listed = ground arith

pub added_case :
    (whole asked same listed : Bool)
    → (whole ≡ true → asked ≡ false)
    → (same ≡ true → whole ≡ false)
    → (asked || (same && listed)) ≡ (not whole && (asked || (same && listed)))
added_case whole asked same listed normal other = ground arith

pub base_case :
    (whole asked : Bool)
    → (whole ≡ true → asked ≡ false)
    → asked ≡ (not (whole || false) && (asked || false))
base_case whole asked normal = ground arith

pub step_case :
    (w a ew el later r : Bool)
    → (not ((w || ew) || later) && ((not (w || ew) && (a || el)) || r))
      ≡ (not (w || (ew || later)) && (a || (el || r)))
step_case w a ew el later r = ground arith

pub contains_empty : (xs : List String) (c : String) → is_empty xs ≡ true → contains xs c ≡ false
contains_empty [] c h = refl
contains_empty (x ∷ xs) c h = cc
