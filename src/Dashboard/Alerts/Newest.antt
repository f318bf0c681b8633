-- ===== src/Dashboard/Alerts/Newest.antt =====
-- The alerts that are shown are the newest of those collected.
use mathlib.Core.List.{Perm}
use robo_control.Prelude.{
  ℕ, zero, suc, ◌+◌, ◌≤◌, ◌≡◌, refl, ap, List, [], ◌∷◌, ◌++◌, map, length, arith, not,
}
use robo_control.Errors.{ok}
use robo_control.Database.Tasks.{TaskHistory}
use robo_control.Database.Logs.{WebhookLog}
use robo_control.World.{Env, World}
use robo_control.Listing.{take, drop, filter}
use robo_control.Listing.Pages.{length-take-le}
use robo_control.Sorting.{text_leb_total, text_leb_trans, sort, IsSorted, sort-perm, sort-IsSorted}
use robo_control.Dashboard.Alerts.{
  Alert, Alerts, is_unsuccessful, task_alert, signature_alert, at_least_as_new, collect,
  recent_alerts,
}

pub take-drop : {A : Type 0} (n : ℕ) (xs : List A) → take n xs ++ drop n xs ≡ xs
take-drop zero xs = refl
take-drop (suc n) [] = refl
take-drop (suc n) (x ∷ xs) = ap (λ (ys : List _). x ∷ ys) (take-drop n xs)

length-append : {A : Type 0} (xs ys : List A) → length (xs ++ ys) ≡ length xs + length ys
length-append [] ys = omega arith
length-append (x ∷ xs) ys = let rest = length-append xs ys in omega arith

pub length-map : {A B : Type 0} (f : A → B) (xs : List A) → length (map f xs) ≡ length xs
length-map f [] = refl
length-map f (x ∷ xs) = ap suc (length-map f xs)

module _ (env : Env) (tasks_ordered : List TaskHistory → List TaskHistory)
    (logs_ordered : List WebhookLog → List WebhookLog) where
  collect-le :
      (limit : ℕ) (tasks : List TaskHistory) (logs : List WebhookLog)
      → length (collect env tasks_ordered logs_ordered limit tasks logs) ≤ limit + limit
  unfolding collect
  collect-le limit tasks logs =
      let ts = take limit (tasks_ordered (filter is_unsuccessful tasks)) in
      let rs = take limit (logs_ordered (filter (λ r. not r.signature_valid) logs)) in
      let few_ts = length-take-le limit (tasks_ordered (filter is_unsuccessful tasks)) in
      let few_rs = length-take-le limit (logs_ordered (filter (λ r. not r.signature_valid) logs)) in
      rw (length-append, length-map (task_alert env) ts, length-map (signature_alert env) rs)
        (omega arith)

  module _ (limit : ℕ) (w : World) where
    abbrev pub collected : List Alert
    collected = collect env tasks_ordered logs_ordered limit w.tx.tasks w.tx.logs

    -- The answer is the first `limit` alerts, or all of fewer, of the collected ones in an order by timestamp, newest first, and its total is their number, which is at most twice the limit; nothing is changed.
    recent_alerts_newest :
        (shown : Alerts) × (hidden : List Alert) × (recent_alerts env tasks_ordered logs_ordered
            limit w
          ≡ (ok shown, w))
        × Perm (shown.items ++ hidden) collected
        × IsSorted (at_least_as_new env) (shown.items ++ hidden)
        × (length shown.items ≤ limit)
        × (shown.total ≡ length collected)
        × (shown.total ≤ limit + limit)
    unfolding recent_alerts
    recent_alerts_newest =
        let sorted = sort (at_least_as_new env) collected in
        (
          record { items = take limit sorted; total = length collected },
          drop limit sorted,
          refl,
          rw (take-drop limit sorted) (sort-perm (at_least_as_new env) collected),
          rw (take-drop limit sorted) (
              sort-IsSorted (at_least_as_new env)
                (λ a b h. text_leb_total b.timestamp a.timestamp h)
                (λ a b c h k. text_leb_trans c.timestamp b.timestamp a.timestamp k h) collected),
          length-take-le limit sorted,
          refl,
          collect-le limit w.tx.tasks w.tx.logs,
        )
