-- ===== src/Sorting.antt =====
-- Python's stable `list.sort(key=..., reverse=True)` and the order of texts by code points.
use Prim.Native.Char.{code}
use Prim.Native.String.{[], ◌∷◌}
use mathlib.Core.List.{Mem, Perm, Pairwise, Pairwise-singleton, forall_mem-cons}
use mathlib.Core.List.Perm
use robo_control.Prelude.{
  String, ◌≡◌, inl, inr, refl, Bool, true, false, ◌&&◌, ◌||◌, List, arith, ltb, ◌==◌, if◌then◌else◌,
  Bool-cases,
}

-- `s <= t`
unfoldable pub text_leb : String → String → Bool
text_leb [] t = true
text_leb (c ∷ s) [] = false
text_leb (c ∷ s) (d ∷ t) =
    let rest = text_leb s t in ltb (code c) (code d) || (code c == code d && rest)

pub text_leb_total : (s t : String) → text_leb s t ≡ false → text_leb t s ≡ true
unfolding text_leb
text_leb_total [] t h = ground arith
text_leb_total (c ∷ s) [] h = refl
text_leb_total (c ∷ s) (d ∷ t) h = let rest = text_leb_total s t in ground arith

pub text_leb_trans :
    (r s t : String) → text_leb r s ≡ true → text_leb s t ≡ true → text_leb r t ≡ true
unfolding text_leb
text_leb_trans [] s t h k = refl
text_leb_trans (b ∷ r) [] t h k = ground arith
text_leb_trans (b ∷ r) (c ∷ s) [] h k = ground arith
text_leb_trans (b ∷ r) (c ∷ s) (d ∷ t) h k = let rest = text_leb_trans r s t in ground arith

-- `geq x y` says that `x` may stand before `y`.
module _ {A : Type 0} (geq : A → A → Bool) where
  -- In front of the first element that it may stand before, so before its equals.
  unfoldable pub insert : A → List A → List A
  insert x List.[] = List.◌∷◌ x List.[]
  insert x (List.◌∷◌ y ys) =
      let rest = insert x ys in if geq x y then List.◌∷◌ x (List.◌∷◌ y ys) else List.◌∷◌ y rest

  unfoldable pub sort : List A → List A
  sort List.[] = List.[]
  sort (List.◌∷◌ x xs) = insert x (sort xs)

  abbrev pub IsSorted : List A → Type 0
  IsSorted = Pairwise (λ x y. geq x y ≡ true)

  insert-perm : (x : A) (ys : List A) → Perm (insert x ys) (List.◌∷◌ x ys)
  unfolding insert
  insert-perm x List.[] = Perm.rfl
  insert-perm x (List.◌∷◌ y ys) = elim (Bool-cases (geq x y)) [
    | inl e ↦ rw e Perm.rfl
    | inr e ↦ rw e (Perm.trans (Perm.cons y (insert-perm x ys)) (Perm.swap x y ys))
  ]

  pub sort-perm : (xs : List A) → Perm (sort xs) xs
  unfolding sort
  sort-perm List.[] = Perm.rfl
  sort-perm (List.◌∷◌ x xs) = Perm.trans (insert-perm x (sort xs)) (Perm.cons x (sort-perm xs))

  module _ (total : (x y : A) → geq x y ≡ false → geq y x ≡ true)
      (trans : (x y z : A) → geq x y ≡ true → geq y z ≡ true → geq x z ≡ true) where
    below :
        (x y : A) (ys : List A)
        → geq x y ≡ true
        → ((z : A) → Mem z ys → geq x z ≡ true)
        → (z : A) → Mem z (List.◌∷◌ y ys)
        → geq x z ≡ true
    below x y ys e h = (forall_mem-cons (λ z. hlevel)).1 (e, h)

    insert-IsSorted : (x : A) (ys : List A) → IsSorted ys → IsSorted (insert x ys)
    unfolding insert
    insert-IsSorted x List.[] s = Pairwise-singleton _ x
    insert-IsSorted x (List.◌∷◌ y ys) (Pairwise.cons h s) = elim (Bool-cases (geq x y)) [
      | inl e ↦
          rw e (Pairwise.cons (below x y ys e (λ z m. trans x y z e (h z m))) (Pairwise.cons h s))
      | inr e ↦
          let first = below y x ys (total x y e) h in
          rw e (
            Pairwise.cons (λ z m. first z ((Perm.mem_iff (insert-perm x ys)).0 m))
              (insert-IsSorted x ys s))
    ]

    pub sort-IsSorted : (xs : List A) → IsSorted (sort xs)
    unfolding sort
    sort-IsSorted List.[] = Pairwise.nil
    sort-IsSorted (List.◌∷◌ x xs) = insert-IsSorted x (sort xs) (sort-IsSorted xs)
