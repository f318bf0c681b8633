-- ===== src/Listing/Order.antt =====
-- ORDER BY time DESC: the rows it may give, and when there is only one answer.
use mathlib.Core.Path.{ap₂}
use mathlib.Core.List
use mathlib.Core.List.{Mem, Perm, Pairwise, mem-cons_self, mem-cons_of_mem, forall_mem-cons}
use native.Mathlib.Bridge.{le_prop, from_ℕ}
use mathlib.Core.List.Pairwise
use mathlib.Core.List.Perm
use robo_control.Prelude.{ℕ, ◌≤◌, ◌≡◌, refl, sym, ap, ◌∙◌, suc, length, List, [], ◌∷◌, arith}

module _ {A : Type 0} (time : A → ℕ) where
  abbrev pub IsNewestFirst : List A → Type 0
  IsNewestFirst = Pairwise (λ a b. time b ≤ time a)

  -- An answer of the database: the selected rows, newest first.
  abbrev pub IsOrderOf : List A → List A → Type 0
  IsOrderOf ys xs = Perm ys xs × IsNewestFirst ys

  -- No two of the rows have the same time.
  abbrev pub AreTimesDistinct : List A → Type 0
  AreTimesDistinct xs = (x y : A) → Mem x xs → Mem y xs → time x ≡ time y → x ≡ y

  head-newest :
      {a b : A} {l r : List A} → IsNewestFirst (a ∷ l) → Perm (b ∷ r) (a ∷ l) → time b ≤ time a
  head-newest {a} {b} (Pairwise.cons h s) p =
      (forall_mem-cons (λ x. le_prop)).1 (omega arith, h) b ((Perm.mem_iff p).0 mem-cons_self)

  pub IsNewestFirst-eq_of_perm :
      {l r : List A} → AreTimesDistinct l → IsNewestFirst l → IsNewestFirst r → Perm l r → l ≡ r
  IsNewestFirst-eq_of_perm {l = []} d _ _ p = Perm.nil-eq p
  IsNewestFirst-eq_of_perm {l = a ∷ l} {r = []} d _ _ p = Perm.eq-nil p
  IsNewestFirst-eq_of_perm {l = a ∷ l} {r = b ∷ r} d sl sr p =
      let down = head-newest sl (Perm.symm p) in
      let up = head-newest sr p in
      let heads = d a b mem-cons_self ((Perm.mem_iff p).1 mem-cons_self) (omega arith) in
      let tails = Perm.cons_inv (Perm.trans p (Perm.symm (Perm.cons' heads Perm.rfl))) in
      ap₂ ◌∷◌ heads (
        IsNewestFirst-eq_of_perm {l = l} {r = r}
          (λ x y mx my. d x y (mem-cons_of_mem a mx) (mem-cons_of_mem a my)) (Pairwise.of_cons sl)
          (Pairwise.of_cons sr) tails)

length-from : {A : Type 0} (l : List A) → length l ≡ from_ℕ (mathlib.Core.List.length l)
length-from [] = refl
length-from (x ∷ l) = ap suc (length-from l)

pub length-perm : {A : Type 0} {l r : List A} → Perm l r → length l ≡ length r
length-perm {l = l} {r = r} p = length-from l ∙ ap from_ℕ (Perm.length-eq p) ∙ sym (length-from r)
