-- ===== src/Json/Print.antt =====
-- Decimal numerals: `str(n)` of a natural number, `int(s)` of a numeral, and their round trip.
pub mod NoSlash
use Prim.Native.Char.{Char, code}
use Prim.Native.String.{[], ◌∷◌}
use mathlib.Core.Option
use text.Mathlib.TextLemmas.{head-eq_of_cons-eq}
use robo_control.Prelude.{
  ℕ, zero, suc, ◌+◌, ◌-◌, ◌*◌, ◌/◌, ◌%◌, ◌≤◌, ◌<◌, String, ◌≡◌, refl, Bool, true, false, ◌&&◌,
  Option, none, some, leb, ◌==◌, if◌then◌else◌, arith, Bool-cases, inl, inr, ap, ◌∙◌,
}
use robo_control.Text.{is_empty}
use robo_control.Json.Number.{ℤ, pos, negsuc}

abbrev digit_char : ℕ → Char
digit_char zero = "0"
digit_char (suc zero) = "1"
digit_char (suc (suc zero)) = "2"
digit_char (suc (suc (suc zero))) = "3"
digit_char (suc (suc (suc (suc zero)))) = "4"
digit_char (suc (suc (suc (suc (suc zero))))) = "5"
digit_char (suc (suc (suc (suc (suc (suc zero)))))) = "6"
digit_char (suc (suc (suc (suc (suc (suc (suc zero))))))) = "7"
digit_char (suc (suc (suc (suc (suc (suc (suc (suc zero)))))))) = "8"
digit_char _ = "9"

-- The digits of `n` in front of `rest`; `fuel` bounds their number.
print_from : ℕ → ℕ → String → String
print_from zero n rest = rest
print_from (suc fuel) n rest =
    let more = print_from fuel (n / 10) (digit_char (n % 10) ∷ rest) in
    if leb n 9 then digit_char (n % 10) ∷ rest else more

-- `str(n)`. A number has at most `n + 1` digits.
unfoldable pub print_nat : ℕ → String
unfolding print_from
print_nat n = print_from (suc n) n ""

is_digit : Char → Bool
is_digit c = leb b'0' (code c) && leb (code c) b'9'

parse_from : ℕ → String → Option ℕ
unfolding is_digit
parse_from acc [] = some acc
parse_from acc (c ∷ s) =
    let more = parse_from (acc * 10 + (code c - b'0')) s in if is_digit c then more else none

-- `int(s)` at a text of ASCII digits; any other text is refused.
unfoldable pub parse_nat : String → Option ℕ
unfolding parse_from
parse_nat [] = none
parse_nat (c ∷ s) = parse_from 0 (c ∷ s)

print_808 : print_nat 8080 ≡ "8080"
unfolding print_nat
print_808 = refl

parse_808 : parse_nat "8080" ≡ some 8080
unfolding parse_nat
parse_808 = refl

digit_char_lem :
    (d : ℕ) → d ≤ 9 → (is_digit (digit_char d) ≡ true) × (code (digit_char d) - b'0' ≡ d)
unfolding is_digit
digit_char_lem zero h = (refl, refl)
digit_char_lem (suc zero) h = (refl, refl)
digit_char_lem (suc (suc zero)) h = (refl, refl)
digit_char_lem (suc (suc (suc zero))) h = (refl, refl)
digit_char_lem (suc (suc (suc (suc zero)))) h = (refl, refl)
digit_char_lem (suc (suc (suc (suc (suc zero))))) h = (refl, refl)
digit_char_lem (suc (suc (suc (suc (suc (suc zero)))))) h = (refl, refl)
digit_char_lem (suc (suc (suc (suc (suc (suc (suc zero))))))) h = (refl, refl)
digit_char_lem (suc (suc (suc (suc (suc (suc (suc (suc zero)))))))) h = (refl, refl)
digit_char_lem (suc (suc (suc (suc (suc (suc (suc (suc (suc zero))))))))) h = (refl, refl)
digit_char_lem (suc (suc (suc (suc (suc (suc (suc (suc (suc (suc d)))))))))) h =
    absurd (omega arith)

parse_from-digit :
    (acc d : ℕ) (rest : String)
    → d ≤ 9
    → parse_from acc (digit_char d ∷ rest) ≡ parse_from (acc * 10 + d) rest
unfolding parse_from
parse_from-digit acc d rest h = let (digit, value) = digit_char_lem d h in rw (digit, value)

parse_from-print_from :
    (fuel n : ℕ) (rest : String)
    → n < fuel
    → parse_from 0 (print_from fuel n rest) ≡ parse_from n rest
unfolding print_from
parse_from-print_from zero n rest h = absurd (omega arith)
parse_from-print_from (suc fuel) n rest h = elim (Bool-cases (leb n 9)) [
  | inl small ↦
      rw small (
        parse_from-digit 0 (n % 10) rest (omega arith) ∙ ap (λ k. parse_from k rest) (ground arith))
  | inr large ↦ rw large (
      parse_from-print_from fuel (n / 10) (digit_char (n % 10) ∷ rest) (ground arith)
      ∙ parse_from-digit (n / 10) (n % 10) rest (omega arith)
      ∙ ap (λ k. parse_from k rest) (omega arith))
]

-- A printed text is not empty.
print_from-ne :
    (fuel n : ℕ) (c : Char) (rest : String)
    → (d : Char) × (s : String) × (print_from fuel n (c ∷ rest) ≡ d ∷ s)
unfolding print_from
print_from-ne zero n c rest = (c, rest, refl)
print_from-ne (suc fuel) n c rest = elim (Bool-cases (leb n 9)) [
  | inl small ↦ (digit_char (n % 10), c ∷ rest, rw small)
  | inr large ↦ rw large (print_from-ne fuel (n / 10) (digit_char (n % 10)) (c ∷ rest))
]

parse_nat_of_cons : (s : String) (d : Char) (t : String) → s ≡ d ∷ t → parse_nat s ≡ parse_from 0 s
unfolding parse_nat
parse_nat_of_cons [] d t e = cc
parse_nat_of_cons (c ∷ s) d t e = refl

print_nat-cons : (n : ℕ) → (d : Char) × (s : String) × (print_nat n ≡ d ∷ s)
unfolding print_nat
print_nat-cons n = elim (Bool-cases (leb n 9)) [
  | inl small ↦ (digit_char (n % 10), "", rw small)
  | inr large ↦ rw large (print_from-ne n (n / 10) (digit_char (n % 10)) "")
]

-- Every natural number reads back from its numeral.
pub parse_nat-print_nat : (n : ℕ) → parse_nat (print_nat n) ≡ some n
parse_nat-print_nat n =
    let (d, s, e) = print_nat-cons n in
    parse_nat_of_cons (print_nat n) d s e
    ∙ unfold print_nat parse_from in parse_from-print_from (suc n) n "" (omega arith)

pub print_nat-not-empty : (n : ℕ) → is_empty (print_nat n) ≡ false
print_nat-not-empty n = let (d, s, e) = print_nat-cons n in rw e

-- `str(z)`
unfoldable pub print_int : ℤ → String
unfolding print_nat
print_int (pos n) = print_nat n
print_int (negsuc n) = "-" ∷ print_nat (suc n)

-- -n
abbrev negate : ℕ → ℤ
negate zero = pos 0
negate (suc n) = negsuc n

-- `int(s)` at a text of digits behind an optional minus sign; any other text is refused.
unfoldable pub parse_int : String → Option ℤ
unfolding parse_nat
parse_int [] = none
parse_int (c ∷ s) =
    if code c == b'-' then Option.map negate (parse_nat s) else Option.map pos (parse_nat (c ∷ s))

not_minus : (d : ℕ) → d ≤ 9 → (code (digit_char d) == b'-') ≡ false
unfolding is_digit
not_minus d h = let (digit, _) = digit_char_lem d h in ground (arith, digit)

print_from-not_minus :
    (fuel n d : ℕ) (rest : String)
    → d ≤ 9
    → (c : Char) × (s : String) × (print_from fuel n (digit_char d ∷ rest) ≡ c ∷ s)
      × ((code c == b'-') ≡ false)
unfolding print_from
print_from-not_minus zero n d rest h = (digit_char d, rest, refl, not_minus d h)
print_from-not_minus (suc fuel) n d rest h = elim (Bool-cases (leb n 9)) [
  | inl small ↦ (digit_char (n % 10), digit_char d ∷ rest, rw small, not_minus _ (omega arith))
  | inr large ↦
      rw large (print_from-not_minus fuel (n / 10) (n % 10) (digit_char d ∷ rest) (omega arith))
]

print_nat-not_minus :
    (n : ℕ) → (c : Char) × (s : String) × (print_nat n ≡ c ∷ s) × ((code c == b'-') ≡ false)
unfolding print_nat
print_nat-not_minus n = elim (Bool-cases (leb n 9)) [
  | inl small ↦ (digit_char (n % 10), "", rw small, not_minus _ (omega arith))
  | inr large ↦ rw large (print_from-not_minus n (n / 10) (n % 10) "" (omega arith))
]

parse_int_of_cons :
    (t : String) (c : Char) (s : String)
    → t ≡ c ∷ s
    → (code c == b'-') ≡ false
    → parse_int t ≡ Option.map pos (parse_nat t)
unfolding parse_int
parse_int_of_cons [] c s e h = cc
parse_int_of_cons (d ∷ t) c s e h =
    let same : (code d == b'-') ≡ false = ap (λ k. code k == b'-') (head-eq_of_cons-eq e) ∙ h in
    rw same

-- Every integer reads back from its numeral.
pub parse_int-print_int : (z : ℤ) → parse_int (print_int z) ≡ some z
unfolding print_int
parse_int-print_int (pos n) =
    let (c, s, e, h) = print_nat-not_minus n in
    parse_int_of_cons (print_nat n) c s e h ∙ ap (Option.map pos) (parse_nat-print_nat n)
parse_int-print_int (negsuc n) =
    unfold parse_int in ap (Option.map negate) (parse_nat-print_nat (suc n))

pub print_int-not-empty : (z : ℤ) → is_empty (print_int z) ≡ false
unfolding print_int
print_int-not-empty (pos n) = print_nat-not-empty n
print_int-not-empty (negsuc n) = refl
