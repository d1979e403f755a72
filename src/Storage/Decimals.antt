-- ===== src/Storage/Decimals.antt =====
-- internal/storage/repository/list.go: strconv.FormatInt, strconv.ParseInt and strconv.ParseUint in
-- base 10, as continue tokens and resource versions are written and read. A negative number of
-- ParseInt is its sign and its magnitude.
use Prim.Native.Char.{code}
use sbombastic.Common.{
  append, ℕ, zero, suc, ◌+◌, ◌-◌, ◌*◌, ◌^◌, ◌<◌, ◌≡◌, refl, arith, String, Bool, true, false, ◌&&◌,
  Option, none, some, List, [], ◌∷◌, All, ltb, leb, ap, ◌∙◌, ◌==◌, eq_iff, inl, inr, Bool-cases,
  eqb, if◌then◌else◌,
}

-- The digits of a number, the last first.
unfoldable increment : List ℕ → List ℕ
increment [] = 1 ∷ []
increment (d ∷ ds) = let rest = increment ds in if ltb d 9 then suc d ∷ ds else 0 ∷ rest

unfoldable digits : ℕ → List ℕ
unfolding increment
digits zero = 0 ∷ []
digits (suc n) = increment (digits n)

abbrev digit_text : ℕ → String
digit_text zero = "0"
digit_text (suc zero) = "1"
digit_text (suc (suc zero)) = "2"
digit_text (suc (suc (suc zero))) = "3"
digit_text (suc (suc (suc (suc zero)))) = "4"
digit_text (suc (suc (suc (suc (suc zero))))) = "5"
digit_text (suc (suc (suc (suc (suc (suc zero)))))) = "6"
digit_text (suc (suc (suc (suc (suc (suc (suc zero))))))) = "7"
digit_text (suc (suc (suc (suc (suc (suc (suc (suc zero)))))))) = "8"
digit_text (suc (suc (suc (suc (suc (suc (suc (suc (suc zero))))))))) = "9"
digit_text _ = ""

abbrev print_digits : List ℕ → String → String
print_digits [] s = s
print_digits (d ∷ ds) s = print_digits ds (append (digit_text d) s)

unfoldable pub format_int : ℕ → String
unfolding digits
format_int n = print_digits (digits n) ""

unfoldable parse_digits : ℕ → String → Option ℕ
parse_digits acc String.[] = some acc
parse_digits acc (String.◌∷◌ c s) =
    let rest = parse_digits (10 * acc + (code c - b'0')) s in
    if leb b'0' (code c) && leb (code c) b'9' then rest else none

abbrev bounded : ℕ → Option ℕ → Option ℕ
bounded limit none = none
bounded limit (some n) = if ltb n limit then some n else none

-- strconv.ParseUint(s, 10, 64)
unfoldable pub parse_uint : String → Option ℕ
unfolding parse_digits
parse_uint String.[] = none
parse_uint (String.◌∷◌ c s) = bounded (2 ^ 64) (parse_digits 0 (String.◌∷◌ c s))

abbrev magnitude : Bool → ℕ → String → Option (Bool × ℕ)
unfolding parse_digits
magnitude negative limit String.[] = none
magnitude negative limit (String.◌∷◌ c s) = elim (bounded limit (parse_digits 0 (String.◌∷◌ c s))) [
  | none ↦ none
  | some n ↦ some (negative, n)
]

-- strconv.ParseInt(s, 10, 64): whether there is a minus sign, and the magnitude.
unfoldable pub parse_int : String → Option (Bool × ℕ)
unfolding parse_digits
parse_int String.[] = none
parse_int (String.◌∷◌ c s) =
    if eqb (code c) b'-'
    then magnitude true (2 ^ 63 + 1) s
    else if eqb (code c) b'+'
    then magnitude false (2 ^ 63) s
    else magnitude false (2 ^ 63) (String.◌∷◌ c s)

abbrev value : List ℕ → ℕ
value [] = 0
value (d ∷ ds) = d + 10 * value ds

abbrev IsDigits : List ℕ → Type 0
IsDigits ds = All (λ d. d < 10) ds

increment-IsDigits :
    (ds : List ℕ) → IsDigits ds → IsDigits (increment ds) × (value (increment ds) ≡ suc (value ds))
unfolding increment
increment-IsDigits [] h = ((omega arith, tt), refl)
increment-IsDigits (d ∷ ds) (l, h) = elim (Bool-cases (ltb d 9)) [
  | inl e ↦ rw e ((ground arith, h), omega arith)
  | inr e ↦ let (i, v) = increment-IsDigits ds h in rw e ((omega arith, i), ground arith)
]

digits-IsDigits : (n : ℕ) → IsDigits (digits n) × (value (digits n) ≡ n)
unfolding digits
digits-IsDigits zero = ((omega arith, tt), refl)
digits-IsDigits (suc n) =
    let (h, v) = digits-IsDigits n in
    let (i, w) = increment-IsDigits (digits n) h in (i, omega (arith, v, w))

parse_digits-digit_text :
    (d acc : ℕ) (s : String)
    → d < 10
    → parse_digits acc (append (digit_text d) s) ≡ parse_digits (10 * acc + d) s
unfolding parse_digits
parse_digits-digit_text zero acc s l = refl
parse_digits-digit_text (suc zero) acc s l = refl
parse_digits-digit_text (suc (suc zero)) acc s l = refl
parse_digits-digit_text (suc (suc (suc zero))) acc s l = refl
parse_digits-digit_text (suc (suc (suc (suc zero)))) acc s l = refl
parse_digits-digit_text (suc (suc (suc (suc (suc zero))))) acc s l = refl
parse_digits-digit_text (suc (suc (suc (suc (suc (suc zero)))))) acc s l = refl
parse_digits-digit_text (suc (suc (suc (suc (suc (suc (suc zero))))))) acc s l = refl
parse_digits-digit_text (suc (suc (suc (suc (suc (suc (suc (suc zero)))))))) acc s l = refl
parse_digits-digit_text (suc (suc (suc (suc (suc (suc (suc (suc (suc zero))))))))) acc s l = refl
parse_digits-digit_text (suc (suc (suc (suc (suc (suc (suc (suc (suc (suc d)))))))))) acc s l =
    ground arith

parse_digits-print_digits :
    (ds : List ℕ) (s : String)
    → IsDigits ds
    → parse_digits 0 (print_digits ds s) ≡ parse_digits (value ds) s
parse_digits-print_digits [] s h = refl
parse_digits-print_digits (d ∷ ds) s (l, h) =
    let first = parse_digits-print_digits ds (append (digit_text d) s) h in
    let second = parse_digits-digit_text d (value ds) s l in
    (first ∙ second) ∙ ap (λ n. parse_digits n s) (omega arith)

parse_digits-format_int : (n : ℕ) → parse_digits 0 (format_int n) ≡ some n
unfolding format_int parse_digits
parse_digits-format_int n =
    let (h, v) = digits-IsDigits n in parse_digits-print_digits (digits n) "" h ∙ ap some v

parse_int-positive :
    (s : String) (n : ℕ)
    → parse_digits 0 s ≡ some (suc n)
    → suc n < 2 ^ 63
    → parse_int s ≡ some (false, suc n)
unfolding parse_int parse_digits
parse_int-positive String.[] n e l = ground arith
parse_int-positive (String.◌∷◌ c s) n e l = ground arith

-- A number below 2 ^ 63 is read back from its decimal text, without a sign.
pub parse_int-format_int : (n : ℕ) → n < 2 ^ 63 → parse_int (format_int n) ≡ some (false, n)
unfolding parse_int format_int digits parse_digits
parse_int-format_int zero l = refl
parse_int-format_int (suc n) l =
    parse_int-positive (format_int (suc n)) n (parse_digits-format_int (suc n)) l

nonempty-parsed : (s : String) (n : ℕ) → parse_digits 0 s ≡ some (suc n) → (s == "") ≡ false
unfolding parse_digits
nonempty-parsed s n e = elim (Bool-cases (s == "")) [
  | inl h ↦ let same = ap (parse_digits 0) ((eq_iff s "").0 h) in ground arith
  | inr h ↦ h
]

pub format_int-nonempty : (n : ℕ) → (format_int n == "") ≡ false
unfolding format_int digits
format_int-nonempty zero = refl
format_int-nonempty (suc n) =
    nonempty-parsed (format_int (suc n)) n (parse_digits-format_int (suc n))
