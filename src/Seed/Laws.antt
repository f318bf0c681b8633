-- ===== src/Seed/Laws.antt =====
-- Seeding is complete, keeps what is there, and does nothing the second time.
use mathlib.Core.Path.{subst}
use robo_control.Prelude.{
  String, ◌≡◌, ◌≢◌, inl, inr, refl, ap, ◌∙◌, true, false, ◌||◌, none, some, List, [], ◌∷◌, ◌++◌,
  arith, str_eq, eq_refl, eq_iff, is_in, Bool-cases,
}
use robo_control.Database.{RobotType}
use robo_control.TaskService.{get_by_name}
use robo_control.Seed.{names, missing}

pub names-append : (ts us : List RobotType) → names (ts ++ us) ≡ names ts ++ names us
names-append [] us = refl
names-append (t ∷ ts) us = ap (λ (ns : List String). t.name ∷ ns) (names-append ts us)

pub is_in-append :
    (n : String) (xs ys : List String) → is_in n (xs ++ ys) ≡ is_in n xs || is_in n ys
is_in-append n [] ys = refl
is_in-append n (x ∷ xs) ys = let rest = is_in-append n xs ys in ground arith

-- What is asked for is there afterwards.
pub missing-cover :
    (n : String) (existing : List String) (specs : List RobotType)
    → is_in n (names specs) ≡ true
    → is_in n existing || is_in n (names (missing existing specs)) ≡ true
unfolding missing
missing-cover n existing [] h = ground arith
missing-cover n existing (s ∷ ss) h = elim (Bool-cases (str_eq s.name n)) [
  | inl same ↦ subst Covered ((eq_iff s.name n).0 same) (ground (arith, eq_refl s.name))
  | inr other ↦ let rest = missing-cover n existing ss (rw other at h) in ground arith
]
  where
    Covered : String → Type 0
    Covered m = is_in m existing || is_in m (names (missing existing (s ∷ ss))) ≡ true

-- What is there is not asked for.
pub missing-none :
    (existing : List String) (specs : List RobotType)
    → ((n : String) → is_in n (names specs) ≡ true → is_in n existing ≡ true)
    → missing existing specs ≡ []
unfolding missing
missing-none existing [] h = refl
missing-none existing (s ∷ ss) h =
    let there = h s.name (rw (eq_refl s.name) refl) in
    rw there (missing-none existing ss (λ n e. h n (ground arith)))

-- Names that are there once, and rows that are added: each name is there once afterwards.
abbrev pub Distinct : List String → Type 0
Distinct [] = Unit
Distinct (x ∷ xs) = (is_in x xs ≡ false) × Distinct xs

missing-absent :
    (n : String) (existing : List String) (specs : List RobotType)
    → is_in n (names specs) ≡ false
    → is_in n (names (missing existing specs)) ≡ false
unfolding missing
missing-absent n existing [] h = refl
missing-absent n existing (s ∷ ss) h =
    let rest = missing-absent n existing ss (ground arith) in ground arith

pub missing-Distinct :
    (existing : List String) (specs : List RobotType)
    → Distinct (names specs)
    → Distinct (names (missing existing specs))
unfolding missing
missing-Distinct existing [] h = tt
missing-Distinct existing (s ∷ ss) (new, h) =
    let rest = missing-Distinct existing ss h in
    let fresh = missing-absent s.name existing ss new in
    elim (Bool-cases (is_in s.name existing)) [ inl e ↦ rw e rest | inr e ↦ rw e (fresh, rest) ]

pub missing-fresh :
    (n : String) (existing : List String) (specs : List RobotType)
    → is_in n existing ≡ true
    → is_in n (names (missing existing specs)) ≡ false
unfolding missing
missing-fresh n existing [] h = refl
missing-fresh n existing (s ∷ ss) h =
    let rest = missing-fresh n existing ss h in
    let same = λ (e : str_eq s.name n ≡ true). ap (λ x. is_in x existing) ((eq_iff s.name n).0 e) in
    elim (Bool-cases (str_eq s.name n)) [
      | inl e ↦ let there = same e ∙ h in rw there rest
      | inr e ↦ ground arith
    ]

pub append-Distinct :
    (xs ys : List String)
    → Distinct xs
    → Distinct ys
    → ((n : String) → is_in n xs ≡ true → is_in n ys ≡ false)
    → Distinct (xs ++ ys)
append-Distinct [] ys dx dy apart = dy
append-Distinct (x ∷ xs) ys (new, dx) dy apart = (
  rw (is_in-append x xs ys, new) (apart x (rw (eq_refl x) refl)),
  append-Distinct xs ys dx dy (λ n h. apart n (ground arith)),
)

pub get_by_name_found :
    (n : String) (ts : List RobotType) → is_in n (names ts) ≡ true → get_by_name n ts ≢ none
unfolding get_by_name
get_by_name_found n [] h = ground arith
get_by_name_found n (t ∷ ts) h = let rest = get_by_name_found n ts in ground arith

pub get_by_name-append :
    (n : String) (ts us : List RobotType) (t : RobotType)
    → get_by_name n ts ≡ some t
    → get_by_name n (ts ++ us) ≡ some t
unfolding get_by_name
get_by_name-append n [] us t h = ground arith
get_by_name-append n (s ∷ ts) us t h = let rest = get_by_name-append n ts us t in ground arith
