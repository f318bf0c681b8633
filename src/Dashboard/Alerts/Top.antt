-- ===== src/Dashboard/Alerts/Top.antt =====
-- The first elements of a sorted list: if enough elements stand at or before `a`, the first ones do.
use mathlib.Core.List.{Mem, Pairwise, forall_mem-cons, not-mem-nil, mem-cons_self, mem-cons_of_mem}
use robo_control.Prelude.{
  ℕ, zero, suc, ◌+◌, ◌≤◌, ◌≡◌, inl, inr, refl, ap, ◌∙◌, Bool, true, false, List, [], ◌∷◌, ◌++◌,
  length, arith, if◌then◌else◌, Bool-cases,
}
use robo_control.Listing.{take, drop}
use robo_control.Sorting.{insert, sort, IsSorted}

module _ {A : Type 0} where
  abbrev pub count : (A → Bool) → List A → ℕ
  count p [] = 0
  count p (x ∷ xs) = let rest = count p xs in if p x then suc rest else rest

  pub count-append : (p : A → Bool) (xs ys : List A) → count p (xs ++ ys) ≡ count p xs + count p ys
  count-append p [] ys = omega arith
  count-append p (x ∷ xs) ys = let rest = count-append p xs ys in ground arith

  pub count_all :
      (p : A → Bool) (xs : List A) → ((x : A) → Mem x xs → p x ≡ true) → count p xs ≡ length xs
  count_all p [] h = refl
  count_all p (x ∷ xs) h =
      rw (h x mem-cons_self) (ap suc (count_all p xs (λ y m. h y (mem-cons_of_mem x m))))

  count_none : (p : A → Bool) (xs : List A) → ((x : A) → Mem x xs → p x ≡ false) → count p xs ≡ 0
  count_none p [] h = refl
  count_none p (x ∷ xs) h =
      rw (h x mem-cons_self) (count_none p xs (λ y m. h y (mem-cons_of_mem x m)))

  pub length-take-drop : (n : ℕ) (x : A) (xs : List A) → Mem x (drop n xs) → length (take n xs) ≡ n
  length-take-drop zero x xs m = refl
  length-take-drop (suc n) x [] m = absurd (not-mem-nil m)
  length-take-drop (suc n) x (y ∷ ys) m = ap suc (length-take-drop n x ys m)

  pub length-take-count :
      (n : ℕ) (p : A → Bool) (xs : List A) → n ≤ count p xs → length (take n xs) ≡ n
  length-take-count zero p xs h = refl
  length-take-count (suc n) p [] h = ground arith
  length-take-count (suc n) p (y ∷ ys) h = ap suc (length-take-count n p ys (ground arith))

  module _ (geq : A → A → Bool) where
    count-insert :
        (p : A → Bool) (x : A) (ys : List A)
        → count p (insert geq x ys) ≡ (if p x then suc (count p ys) else count p ys)
    unfolding insert
    count-insert p x [] = refl
    count-insert p x (y ∷ ys) = let rest = count-insert p x ys in ground arith

    pub count-sort : (p : A → Bool) (xs : List A) → count p (sort geq xs) ≡ count p xs
    unfolding sort
    count-sort p [] = refl
    count-sort p (x ∷ xs) =
        count-insert p x (sort geq xs) ∙ ap (λ k. if p x then suc k else k) (count-sort p xs)

    module _ (trans : (x y z : A) → geq x y ≡ true → geq y z ≡ true → geq x z ≡ true) where
      -- What stands behind an element that is not at or before `a` is not either.
      not_geq : (a y z : A) → geq y a ≡ false → geq y z ≡ true → geq z a ≡ false
      not_geq a y z e yz = elim (Bool-cases (geq z a)) [
        | inl za ↦ let both = trans y z a yz za in ground arith
        | inr za ↦ za
      ]

      pub top :
          (n : ℕ) (a : A) (xs : List A)
          → IsSorted geq xs
          → n ≤ count (λ x. geq x a) xs
          → (x : A) → Mem x (take n xs)
          → geq x a ≡ true
      top zero a xs s h x m = absurd (not-mem-nil m)
      top (suc n) a [] s h x m = absurd (not-mem-nil m)
      top (suc n) a (y ∷ ys) (Pairwise.cons first s) h x m = elim (Bool-cases (geq y a)) [
        | inl e ↦
            let more : suc n ≤ suc (count (λ x. geq x a) ys) = rw e at h in
            (forall_mem-cons (λ z. hlevel)).1 (e, top n a ys s (omega arith)) x m
        | inr e ↦
            let after = count_none (λ x. geq x a) ys (λ z here. not_geq a y z e (first z here)) in
            let nothing : suc n ≤ count (λ x. geq x a) ys = rw e at h in absurd (omega arith)
      ]
