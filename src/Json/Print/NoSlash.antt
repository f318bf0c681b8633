-- ===== src/Json/Print/NoSlash.antt =====
-- A numeral ends in no slash.
use Prim.Native.Char.{code}
use Prim.Native.String.{[], ◌∷◌}
use robo_control.Prelude.{
  ℕ, suc, ◌+◌, ◌-◌, ◌*◌, String, ◌≡◌, refl, ap, false, none, some, arith, Bool-cases, inl, inr,
  ◌&&◌, ◌==◌, leb,
}
use robo_control.Text.{rstrip_slash}
use robo_control.Json.Number.{ℤ, pos, negsuc}
use robo_control.Json.Print.{
  is_digit, parse_from, parse_nat, print_nat, parse_nat-print_nat, print_int,
}

parse_from-rstrip_slash : (acc n : ℕ) (s : String) → parse_from acc s ≡ some n → rstrip_slash s ≡ s
unfolding parse_from rstrip_slash is_digit
parse_from-rstrip_slash acc n [] h = refl
parse_from-rstrip_slash acc n (c ∷ s) h =
    elim (Bool-cases (leb b'0' (code c) && leb (code c) b'9')) [
      | inl digit ↦
          let rest = parse_from-rstrip_slash (acc * 10 + (code c - b'0')) n s (rw digit at h) in
          let no_slash : (code c == b'/') ≡ false = ground arith in
          rw no_slash (ap (λ t. c ∷ t) rest)
      | inr other ↦ let impossible : none ≡ some n = rw other at h in ground arith
    ]

parse_nat-rstrip_slash : (n : ℕ) (s : String) → parse_nat s ≡ some n → rstrip_slash s ≡ s
unfolding parse_nat
parse_nat-rstrip_slash n [] h = ground arith
parse_nat-rstrip_slash n (c ∷ s) h = parse_from-rstrip_slash 0 n (c ∷ s) h

print_nat-rstrip_slash : (n : ℕ) → rstrip_slash (print_nat n) ≡ print_nat n
print_nat-rstrip_slash n = parse_nat-rstrip_slash n (print_nat n) (parse_nat-print_nat n)

pub print_int-rstrip_slash : (z : ℤ) → rstrip_slash (print_int z) ≡ print_int z
unfolding print_int rstrip_slash
print_int-rstrip_slash (pos n) = print_nat-rstrip_slash n
print_int-rstrip_slash (negsuc n) = ap (λ t. "-" ∷ t) (print_nat-rstrip_slash (suc n))
