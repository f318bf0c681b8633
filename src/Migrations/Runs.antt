-- ===== src/Migrations/Runs.antt =====
-- What upgrading and downgrading do to a database.
use mathlib.Core.Path.{subst}
use mathlib.Core.Option.{none-ne-some}
use robo_control.Prelude.{
  ℕ, zero, suc, ◌≡◌, refl, sym, ap, ◌∙◌, String, Option, none, some, List, [], ◌∷◌, ◌++◌, All,
  is_in, if◌then◌else◌, inl, inr, Option-cases,
}
use robo_control.Listing.{take, drop}
use robo_control.Migrations.Schema.{Tables, Op, Revision, Alembic, run, effect, effects, bind}
use robo_control.Migrations.InitialSchema.{initial_schema}
use robo_control.Migrations.WebhookLog.{webhook_log}
use robo_control.Migrations.SystemConfig.{system_config}
use robo_control.Migrations.Models.{Model, metadata, models}
use robo_control.Migrations.History.{history, IsChain, upgrades, downgrades}
use robo_control.Migrations.Tables.{at_1, at_2, at_3, back_1, back_2, IsFresh}
use robo_control.Migrations.Scripts.{
  upgrade_1, upgrade_2, upgrade_3, downgrade_1, downgrade_2, downgrade_3, downgrade_1_back,
  downgrade_2_back,
}
use robo_control.Migrations.Compared.{
  table_names, IsSame, IsSame-refl, back_1-IsSame, back_2-IsSame, at_3-models, at_3-other,
}

effects-append :
    (os ps : List Op) (v : Tables) → effects (os ++ ps) v ≡ bind (effects os v) (effects ps)
effects-append [] ps v = refl
effects-append (o ∷ os) ps v =
    elim (effect o v)
      as (λ x. bind x (effects (os ++ ps)) ≡ bind (bind x (effects os)) (effects ps)) [
        | none ↦ refl
        | some u ↦ effects-append os ps u
      ]

-- One script after another, where the first is carried out.
then_effects :
    (os ps : List Op) (v u : Tables) → effects os v ≡ some u → effects (os ++ ps) v ≡ effects ps u
then_effects os ps v u h = effects-append os ps v ∙ ap (λ x. bind x (effects ps)) h

abbrev or_tables : Option Tables → Tables → Tables
or_tables none v = v
or_tables (some u) v = u

module _ (v : Tables) (fresh : IsFresh v) where
  effects-upgrades : effects (upgrades history) v ≡ some (at_3 v)
  effects-upgrades =
      then_effects initial_schema.upgrade (webhook_log.upgrade ++ system_config.upgrade) v (at_1 v)
        (upgrade_1 v fresh)
      ∙ then_effects webhook_log.upgrade system_config.upgrade (at_1 v) (at_2 v) (upgrade_2 v fresh)
      ∙ upgrade_3 v fresh

  effects-downgrades : effects (downgrades history) (at_3 v) ≡ some v
  effects-downgrades =
      then_effects system_config.downgrade (webhook_log.downgrade ++ initial_schema.downgrade)
        (at_3 v) (back_2 v) (downgrade_3 v fresh)
      ∙ then_effects webhook_log.downgrade initial_schema.downgrade (back_2 v) (back_1 v)
          (downgrade_2_back v fresh)
      ∙ downgrade_1_back v fresh

take-nil : (n : ℕ) → take {A = Revision} n [] ≡ []
take-nil zero = refl
take-nil (suc n) = refl

drop-nil : (n : ℕ) → drop {A = Revision} n [] ≡ []
drop-nil zero = refl
drop-nil (suc n) = refl

module _ (alembic : Alembic) where
  open alembic use {Database, tables, perform, documented}

  pub run_documented :
      (os : List Op) (d : Database) (v : Tables)
      → effects os (tables d) ≡ some v
      → (e : Database) × (run alembic os d ≡ some e) × (tables e ≡ v)
  unfolding run
  run_documented [] d v h = (d, refl, ap (λ o. or_tables o (tables d)) h)
  run_documented (o ∷ os) d v h = elim (Option-cases (effect o (tables d))) [
    | inl e ↦ let refused : none ≡ some v = rw e at h in absurd (none-ne-some v refused)
    | inr (u, e) ↦
        let (after, done, seen) = documented o d u e in
        let rest : effects os (tables after) ≡ some v = rw seen (rw e at h) in
        let (last, finished, sees) = run_documented os after v rest in
        (last, rw done finished, sees)
  ]

  module _ (d : Database) (fresh : IsFresh (tables d)) where
    abbrev v : Tables
    v = tables d

    undone :
        (os ps : List Op) (u x : Tables)
        → effects os v ≡ some u
        → effects ps u ≡ some x
        → ((m : String) → IsSame (x m) (u m))
        → (e f : Database) × (run alembic os d ≡ some e)
          × (run alembic ps e ≡ some f)
          × ((m : String) → IsSame (tables f m) (tables e m))
    undone os ps u x h k same =
        let (e, done, seen) = run_documented os d u h in
        let again : effects ps (tables e) ≡ some x = rw seen k in
        let (f, done', seen') = run_documented ps e x again in
        (e, f, done, done', rw (seen, seen') same)

    -- The revisions are one chain, and on a database with none of the tables they are all carried out and leave a table for each model, with the columns and indexes that the model declares, in any order; every other table is as it was.
    pub upgrades-models :
        IsChain none history
        × ((e : Database) × (run alembic (upgrades history) d ≡ some e)
            × All (λ (m : Model). IsSame (tables e m.table_name) (some (metadata m))) models
            × ((n : String)
                → tables e n ≡ (if is_in n table_names then tables e n else tables d n)))
    upgrades-models =
        let v = tables d in
        let (e, done, seen) =
          run_documented (upgrades history) d (at_3 v) (effects-upgrades v fresh) in
        (
          (refl, (refl, (refl, tt))),
          (
            e,
            done,
            subst
                (λ (u : Tables).
                  All (λ (m : Model). IsSame (u m.table_name) (some (metadata m))) models)
                (sym seen) (at_3-models v),
            λ n.
                subst (λ (u : Tables). u n ≡ (if is_in n table_names then u n else v n)) (sym seen)
                  (at_3-other v n),
          ),
        )

    -- Downgrading through all revisions, after upgrading through all, is carried out and leaves exactly the tables that were there before.
    pub downgrades-upgrades :
        (e : Database) × (run alembic (upgrades history ++ downgrades history) d ≡ some e)
        × (tables e ≡ tables d)
    downgrades-upgrades = run_documented (upgrades history ++ downgrades history) d (tables d) (
        then_effects (upgrades history) (downgrades history) (tables d) (at_3 (tables d))
          (effects-upgrades (tables d) fresh)
        ∙ effects-downgrades (tables d) fresh)

    -- From any of the revisions, or none, one more upgrade, if there is one, and its downgrade are carried out and leave the tables as they were before the two, but for the order of indexes and the words for the current time.
    pub downgrade-upgrade :
        (n : ℕ)
        → (e f : Database) × (run alembic (upgrades (take n history)) d ≡ some e)
          × (run alembic
                (upgrades (take 1 (drop n history)) ++ downgrades (take 1 (drop n history)))
                e
              ≡ some f)
          × ((m : String) → IsSame (tables f m) (tables e m))
    downgrade-upgrade zero =
        undone [] _ v v refl
          (then_effects initial_schema.upgrade initial_schema.downgrade v (at_1 v)
              (upgrade_1 v fresh)
            ∙ downgrade_1 v fresh)
          (λ m. IsSame-refl (v m))
    downgrade-upgrade (suc zero) =
        undone initial_schema.upgrade _ (at_1 v) (back_1 v) (upgrade_1 v fresh)
          (then_effects webhook_log.upgrade webhook_log.downgrade (at_1 v) (at_2 v)
              (upgrade_2 v fresh)
            ∙ downgrade_2 v fresh)
          (back_1-IsSame v)
    downgrade-upgrade (suc (suc zero)) =
        undone (initial_schema.upgrade ++ webhook_log.upgrade) _ (at_2 v) (back_2 v)
          (then_effects initial_schema.upgrade webhook_log.upgrade v (at_1 v) (upgrade_1 v fresh)
            ∙ upgrade_2 v fresh)
          (then_effects system_config.upgrade system_config.downgrade (at_2 v) (at_3 v)
              (upgrade_3 v fresh)
            ∙ downgrade_3 v fresh)
          (back_2-IsSame v)
    downgrade-upgrade (suc (suc (suc n))) =
        rw (take-nil n, drop-nil n)
          (undone (upgrades history) [] (at_3 v) (at_3 v) (effects-upgrades v fresh) refl
            (λ m. IsSame-refl (at_3 v m)))
