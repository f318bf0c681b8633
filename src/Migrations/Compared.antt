-- ===== src/Migrations/Compared.antt =====
-- Tables that are the same but for the order of their columns and indexes and the words for the
-- current time; and how the tables that the scripts leave compare.
use mathlib.Core.List.{Perm, perm_middle}
use mathlib.Core.List.Perm
use robo_control.Prelude.{
  ◌≡◌, String, Option, none, some, List, [], ◌∷◌, ◌++◌, map, All, is_in, if◌then◌else◌, arith,
}
use robo_control.Migrations.Schema.{Column, Index, Table, Tables}
use robo_control.Migrations.Models.{Model, metadata, models}
use robo_control.Migrations.Tables.{at_1, at_2, at_3, back_1, back_2}
use robo_control.Migrations.Scripts.{by_name}

abbrev pub table_names : List String
table_names = map (λ m. m.table_name) models

-- NOW() and CURRENT_TIMESTAMP are one function of MySQL.
abbrev same_clock : String → String
same_clock d = if is_in d ("now()" ∷ "(now())" ∷ []) then "CURRENT_TIMESTAMP" else d

abbrev pub spelled : Column → Column
spelled c = record c {
  server_default = elim c.server_default [ none ↦ none | some d ↦ some (same_clock d) ];
}

-- The same columns and indexes, in any order.
abbrev pub IsSameTable : Table → Table → Type 0
IsSameTable t u = Perm (map spelled t.columns) (map spelled u.columns) × Perm t.indexes u.indexes

abbrev pub IsSame : Option Table → Option Table → Type 0
IsSame none none = Unit
IsSame (some t) (some u) = IsSameTable t u
IsSame _ _ = ⊥

pub IsSame-refl : (o : Option Table) → IsSame o o
IsSame-refl none = tt
IsSame-refl (some t) = (Perm.rfl, Perm.rfl)

pulled :
    {a : Index} (xs ys : List Index) {zs : List Index}
    → Perm (xs ++ ys) zs
    → Perm (xs ++ (a ∷ ys)) (a ∷ zs)
pulled {a} xs ys p = Perm.trans (perm_middle xs ys) (Perm.cons a p)

pub back_2-IsSame : (v : Tables) (m : String) → IsSame (back_2 v m) (at_2 v m)
back_2-IsSame v =
    by_name (λ m. IsSame (back_2 v m) (at_2 v m)) (Perm.rfl, Perm.rfl) (Perm.rfl, Perm.rfl)
      (Perm.rfl, Perm.rfl) (IsSame-refl (v "system_config"))
      (λ m r t l c. rw (r, t, l) (IsSame-refl (v m)))

pub back_1-IsSame : (v : Tables) (m : String) → IsSame (back_1 v m) (at_1 v m)
back_1-IsSame v =
    by_name (λ m. IsSame (back_1 v m) (at_1 v m))
      (Perm.rfl, pulled (_ ∷ _ ∷ _ ∷ []) [] (perm_middle (_ ∷ _ ∷ []) []))
      (
        Perm.rfl,
        pulled (_ ∷ _ ∷ _ ∷ _ ∷ []) (_ ∷ [])
            (pulled (_ ∷ _ ∷ _ ∷ _ ∷ []) [] (perm_middle (_ ∷ _ ∷ []) (_ ∷ []))),
      )
      (IsSame-refl (v "webhook_logs")) (IsSame-refl (v "system_config"))
      (λ m r t l c. rw (r, t) (IsSame-refl (v m)))

pub at_3-models :
    (v : Tables) → All (λ (m : Model). IsSame (at_3 v m.table_name) (some (metadata m))) models
at_3-models v = (
  (Perm.rfl, perm_middle (_ ∷ _ ∷ []) []),
  (
    (Perm.rfl, perm_middle (_ ∷ _ ∷ _ ∷ []) []),
    ((Perm.rfl, pulled (_ ∷ _ ∷ []) [] (Perm.swap _ _ [])), ((Perm.rfl, Perm.rfl), tt)),
  ),
)

pub at_3-other :
    (v : Tables) (n : String) → at_3 v n ≡ (if is_in n table_names then at_3 v n else v n)
at_3-other v n = ground arith
