-- ===== src/Listing/Pages.antt =====
-- Pages of a list: together they are the list, and how many there are.
use native.Mathlib.Nat.{mod-add-div', mod-lt, mul-le-mul_right, lt_of_mul-lt-mul_right}
use robo_control.Prelude.{
  ℕ, zero, suc, ◌+◌, ◌-◌, ◌*◌, ◌≤◌, ◌<◌, ◌≡◌, ◌↔◌, ◌⊎◌, inl, inr, refl, sym, ap, ◌∙◌, List, [], ◌∷◌,
  ◌++◌, arith, length,
}
use robo_control.Listing.{take, drop, paginate, total_pages}

zero_add : (n : ℕ) → zero + n ≡ n
zero_add n = omega arith

suc_mul : (m n : ℕ) → suc m * n ≡ m * n + n
suc_mul m n = omega arith

suc_add : (m n : ℕ) → suc m + n ≡ suc (m + n)
suc_add m n = omega arith

suc_sub_one : (n : ℕ) → suc n - 1 ≡ n
suc_sub_one n = omega arith

zero_mul : (n : ℕ) → zero * n ≡ zero
zero_mul n = omega arith

module _ {A : Type 0} where
  take_nil : (n : ℕ) → take {A = A} n [] ≡ []
  take_nil zero = refl
  take_nil (suc n) = refl

  take_add : (m n : ℕ) (xs : List A) → take (m + n) xs ≡ take m xs ++ take n (drop m xs)
  take_add zero n xs = ap (λ k. take k xs) (zero_add n)
  take_add (suc m) n [] = rw (suc_add m n) (sym (take_nil n))
  take_add (suc m) n (x ∷ xs) = rw (suc_add m n) (ap (λ (ys : List A). x ∷ ys) (take_add m n xs))

  take_all : (n : ℕ) (xs : List A) → length xs ≤ n → take n xs ≡ xs
  take_all zero [] h = refl
  take_all zero (x ∷ xs) h = ground arith
  take_all (suc n) [] h = refl
  take_all (suc n) (x ∷ xs) h = ap (λ (ys : List A). x ∷ ys) (take_all n xs (omega arith))

  length-drop : (n : ℕ) (xs : List A) → length (drop n xs) ≡ length xs - n
  length-drop zero xs = omega arith
  length-drop (suc n) [] = omega arith
  length-drop (suc n) (x ∷ xs) = let rest = length-drop n xs in omega arith

  pub length-take-le : (n : ℕ) (xs : List A) → length (take n xs) ≤ n
  length-take-le zero xs = omega arith
  length-take-le (suc n) [] = omega arith
  length-take-le (suc n) (x ∷ xs) = let rest = length-take-le n xs in omega arith

  take-nil_iff : (n : ℕ) (xs : List A) → 0 < n → (take n xs ≡ []) ↔ (length xs ≡ 0)
  take-nil_iff zero xs h = ground arith
  take-nil_iff (suc n) [] h = (λ e. refl, λ e. refl)
  take-nil_iff (suc n) (x ∷ xs) h = (λ e. ground arith, λ e. ground arith)

  -- The pages from 1 to `n`, one after another.
  unfoldable pub pages : ℕ → ℕ → List A → List A
  pages zero page_size rows = []
  pages (suc n) page_size rows = pages n page_size rows ++ paginate (suc n) page_size rows

  pages_lem : (n page_size : ℕ) (rows : List A) → pages n page_size rows ≡ take (n * page_size) rows
  unfolding pages paginate
  pages_lem zero page_size rows = ap (λ k. take k rows) (sym (zero_mul page_size))
  pages_lem (suc n) page_size rows =
      ap (λ k. pages n page_size rows ++ take page_size (drop (k * page_size) rows)) (suc_sub_one n)
      ∙ ap (λ (ys : List A). ys ++ take page_size (drop (n * page_size) rows))
          (pages_lem n page_size rows)
      ∙ sym (take_add (n * page_size) page_size rows)
      ∙ ap (λ k. take k rows) (sym (suc_mul n page_size))

zero_or_positive : (n : ℕ) → (n ≡ 0) ⊎ (0 < n)
zero_or_positive zero = inl refl
zero_or_positive (suc n) = inr (omega arith)

-- `q` pages and a remainder `r`, counted from one fewer than a full page more.
one_fewer :
    (q r total page_size : ℕ)
    → 0 < total
    → r + q * page_size ≡ total + page_size - 1
    → (q - 1) * page_size < total
one_fewer zero r total page_size h e = omega (arith, zero_mul page_size)
one_fewer (suc q) r total page_size h e =
    let product = suc_mul q page_size in rw (suc_sub_one q) (omega arith)

-- The number of pages covers the rows, and one fewer does not.
module _ (total page_size : ℕ) (positive : 0 < page_size) where
  total_pages_covers : total ≤ total_pages total page_size * page_size
  unfolding total_pages
  total_pages_covers =
      let division = mod-add-div' (total + page_size - 1) page_size in
      let small = mod-lt (total + page_size - 1) positive in ground arith

  no_pages : total ≡ 0 → total_pages total page_size ≡ 0
  unfolding total_pages
  no_pages h = ground arith

  total_pages_least : 0 < total → (total_pages total page_size - 1) * page_size < total
  unfolding total_pages
  total_pages_least h =
      let division = mod-add-div' (total + page_size - 1) page_size in
      let small = mod-lt (total + page_size - 1) positive in
      let x = (one_fewer _ _ total page_size h division) in ground arith

-- As many pages as are announced are all rows, and a page is empty exactly past that number.
module _ {A : Type 0} (page_size : ℕ) (positive : 0 < page_size) (rows : List A) where
  pub pages_complete : pages (total_pages (length rows) page_size) page_size rows ≡ rows
  pages_complete =
      pages_lem (total_pages (length rows) page_size) page_size rows
      ∙ take_all _ rows (total_pages_covers (length rows) page_size positive)

  pub paginate-nil_iff :
      (n : ℕ)
      → (paginate (suc n) page_size rows ≡ []) ↔ (total_pages (length rows) page_size < suc n)
  unfolding paginate
  paginate-nil_iff n =
      let tp = total_pages (length rows) page_size in
      let short = length-drop (n * page_size) rows in
      let covers = total_pages_covers (length rows) page_size positive in
      let least = total_pages_least (length rows) page_size positive in
      let (to, from) = take-nil_iff page_size (drop (n * page_size) rows) positive in
      rw (suc_sub_one n) (
        λ e.
            let all_before : length rows ≤ n * page_size = let none_left = to e in omega arith in
            elim (zero_or_positive (length rows)) [
              | inl empty ↦
                  let no_page = no_pages (length rows) page_size positive empty in omega arith
              | inr more ↦
                  let before : (tp - 1) * page_size < n * page_size =
                    let fits = least more in omega arith in
                  let fewer = lt_of_mul-lt-mul_right page_size before in omega arith
            ],
        λ past.
            let pages_before : tp * page_size ≤ n * page_size =
              mul-le-mul_right page_size (omega arith) in
            from (rw short (omega arith)),
      )
