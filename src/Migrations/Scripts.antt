-- ===== src/Migrations/Scripts.antt =====
-- What the scripts of alembic/versions do, one after the other, to any tables that leave their names free.
use mathlib.Core.Path.{subst, fun_ext}
use robo_control.Prelude.{
  ◌≡◌, refl, sym, ap, String, str_eq, false, some, inl, inr, Bool-cases, eq_iff,
}
use robo_control.Migrations.Schema.{Tables, effects}
use robo_control.Migrations.Tables.{at_1, at_2, at_3, back_1, back_2, IsFresh}
use robo_control.Migrations.InitialSchema
use robo_control.Migrations.WebhookLog
use robo_control.Migrations.SystemConfig

-- A name is that of one of the tables, or passes each test for one as false.
pub by_name :
    (P : String → Type 0)
    → P "robot_types"
    → P "task_history"
    → P "webhook_logs"
    → P "system_config"
    → ((m : String)
        → str_eq "robot_types" m ≡ false
        → str_eq "task_history" m ≡ false
        → str_eq "webhook_logs" m ≡ false
        → str_eq "system_config" m ≡ false
        → P m)
    → (m : String) → P m
by_name P robots tasks logs config other m = elim (Bool-cases (str_eq "robot_types" m)) [
  | inl e ↦ subst P ((eq_iff "robot_types" m).0 e) robots
  | inr e ↦ elim (Bool-cases (str_eq "task_history" m)) [
    | inl f ↦ subst P ((eq_iff "task_history" m).0 f) tasks
    | inr f ↦ elim (Bool-cases (str_eq "webhook_logs" m)) [
      | inl g ↦ subst P ((eq_iff "webhook_logs" m).0 g) logs
      | inr g ↦ elim (Bool-cases (str_eq "system_config" m)) [
        | inl h ↦ subst P ((eq_iff "system_config" m).0 h) config
        | inr h ↦ other m e f g h
      ]
    ]
  ]
]

module _ (v : Tables) (fresh : IsFresh v) where
  pub upgrade_1 : effects InitialSchema.upgrade v ≡ some (at_1 v)
  upgrade_1 =
      rw (fresh.0, fresh.1)
        (ap some (fun_ext (by_name _ refl refl refl refl (λ m r t l c. rw (r, t) refl))))

  pub upgrade_2 : effects WebhookLog.upgrade (at_1 v) ≡ some (at_2 v)
  upgrade_2 =
      rw fresh.2
        (ap some (fun_ext (by_name _ refl refl refl refl (λ m r t l c. rw (r, t, l) refl))))

  pub upgrade_3 : effects SystemConfig.upgrade (at_2 v) ≡ some (at_3 v)
  upgrade_3 =
      rw fresh.3
        (ap some (fun_ext (by_name _ refl refl refl refl (λ m r t l c. rw (r, t, l, c) refl))))

  -- The last downgrade leaves the time defaults in other words.
  pub downgrade_3 : effects SystemConfig.downgrade (at_3 v) ≡ some (back_2 v)
  downgrade_3 =
      ap some (fun_ext (by_name _ refl refl refl (sym fresh.3) (λ m r t l c. rw (r, t, l, c) refl)))

  pub downgrade_2 : effects WebhookLog.downgrade (at_2 v) ≡ some (back_1 v)
  downgrade_2 =
      ap some (fun_ext (by_name _ refl refl (sym fresh.2) refl (λ m r t l c. rw (r, t, l) refl)))

  pub downgrade_2_back : effects WebhookLog.downgrade (back_2 v) ≡ some (back_1 v)
  downgrade_2_back =
      ap some (fun_ext (by_name _ refl refl (sym fresh.2) refl (λ m r t l c. rw (r, t, l) refl)))

  pub downgrade_1 : effects InitialSchema.downgrade (at_1 v) ≡ some v
  downgrade_1 =
      ap some
        (fun_ext (by_name _ (sym fresh.0) (sym fresh.1) refl refl (λ m r t l c. rw (r, t) refl)))

  pub downgrade_1_back : effects InitialSchema.downgrade (back_1 v) ≡ some v
  downgrade_1_back =
      ap some
        (fun_ext (by_name _ (sym fresh.0) (sym fresh.1) refl refl (λ m r t l c. rw (r, t) refl)))
