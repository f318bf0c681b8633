-- ===== src/Dashboard/Alerts/Complete.antt =====
-- No alert of an unsuccessful task is passed over for an older one, although the tasks and the
-- signatures are each cut at the limit before they are merged.
use mathlib.Core.Logic.Or
use mathlib.Core.Path.{subst}
use mathlib.Core.Logic.{◌∨₁◌, ∨₁_prop}
use mathlib.Core.List.{
  Mem, Pairwise, Pairwise-append, forall_mem-cons, not-mem-nil, mem-append, Mem-prop,
  eq-or-mem_of_mem-cons, mem-cons_self, mem-cons_of_mem, mem-map_of_mem,
}
use mathlib.Core.List.Perm
use native.Mathlib.Bridge.{le_prop}
use robo_control.Prelude.{
  ℕ, ◌≤◌, ◌≡◌, inl, inr, refl, sym, ap, ◌∙◌, Bool, true, not, List, [], ◌∷◌, ◌++◌, map, length,
  arith, Bool-cases,
}
use robo_control.Errors.{ok}
use robo_control.Database.Tasks.{TaskHistory}
use robo_control.Database.Logs.{WebhookLog}
use robo_control.World.{Env, World}
use robo_control.Listing.{take, drop, filter}
use robo_control.Listing.Order.{IsOrderOf}
use robo_control.Sorting.{
  text_leb, text_leb_total, text_leb_trans, sort, IsSorted, sort-perm, sort-IsSorted,
}
use robo_control.Dashboard.Alerts.{
  Alert, Alerts, is_unsuccessful, task_alert, signature_alert, at_least_as_new, collect,
  recent_alerts,
}
use robo_control.Dashboard.Alerts.Newest.{take-drop, length-map, collected}
use robo_control.Dashboard.Alerts.Top.{
  count, count-append, count_all, length-take-drop, length-take-count, count-sort, top,
}

mem-filter :
    {A : Type 0} (keep : A → Bool) (a : A) (xs : List A)
    → keep a ≡ true
    → Mem a xs
    → Mem a (filter keep xs)
mem-filter keep a [] k m = absurd (not-mem-nil m)
mem-filter keep a (x ∷ xs) k m =
    Or.elim Mem-prop (eq-or-mem_of_mem-cons m)
      (λ e.
        let kept : keep x ≡ true = ap keep (sym e) ∙ k in
        rw kept (subst (λ y. Mem a (y ∷ filter keep xs)) e mem-cons_self))
      (λ m'.
        let rest = mem-filter keep a xs k m' in
        elim (Bool-cases (keep x)) [ inl e ↦ rw e (mem-cons_of_mem x rest) | inr e ↦ rw e rest ])

map_all :
    {A B : Type 0} (f : A → B) (P : B → Type 0)
    → ((b : B) → IsProp (P b))
    → (xs : List A) → ((x : A) → Mem x xs → P (f x))
    → (b : B) → Mem b (map f xs)
    → P b
map_all f P is_prop [] h b m = absurd (not-mem-nil m)
map_all f P is_prop (x ∷ xs) h b m =
    (forall_mem-cons is_prop).1
      (h x mem-cons_self, map_all f P is_prop xs (λ y m'. h y (mem-cons_of_mem x m'))) b m

module _ (env : Env) (tasks_ordered : List TaskHistory → List TaskHistory)
    (logs_ordered : List WebhookLog → List WebhookLog) (limit : ℕ) (w : World) where
  sorted : List Alert
  sorted = sort (at_least_as_new env) (collected env tasks_ordered logs_ordered limit w)

  abbrev Newer : Alert → Type 0
  Newer a =
      (length (take limit sorted) ≡ limit)
      × ((b : Alert) → Mem b (take limit sorted) → at_least_as_new env b a ≡ true)

  newer_trans :
      (a b c : Alert)
      → at_least_as_new env a b ≡ true
      → at_least_as_new env b c ≡ true
      → at_least_as_new env a c ≡ true
  newer_trans a b c h k = text_leb_trans c.timestamp b.timestamp a.timestamp k h

  sorted-IsSorted : IsSorted (at_least_as_new env) sorted
  unfolding sorted
  sorted-IsSorted =
      sort-IsSorted (at_least_as_new env) (λ a b h. text_leb_total b.timestamp a.timestamp h)
        newer_trans (collected env tasks_ordered logs_ordered limit w)

  in_sorted : (a : Alert) → Mem a (collected env tasks_ordered logs_ordered limit w) → Mem a sorted
  unfolding sorted
  in_sorted a m = (Perm.mem_iff (sort-perm (at_least_as_new env) _)).1 m

  -- A collected alert is shown or stands behind all that are.
  collected-Newer :
      (a : Alert)
      → Mem a (collected env tasks_ordered logs_ordered limit w)
      → Mem a (take limit sorted) ∨₁ Newer a
  collected-Newer a m =
      let everywhere : Mem a (take limit sorted ++ drop limit sorted) =
        rw (take-drop limit sorted) (in_sorted a m) in
      let ordered : IsSorted (at_least_as_new env) (take limit sorted ++ drop limit sorted) =
        rw (take-drop limit sorted) sorted-IsSorted in
      let across = ((Pairwise-append (λ x y. hlevel)).0 ordered).2 in
      Or.elim ∨₁_prop (mem-append.0 everywhere) Or.inl
        (λ later. Or.inr (length-take-drop limit a sorted later, λ b here. across b here a later))

  -- An alert with `limit` newer ones among those collected.
  enough-Newer :
      (a : Alert)
      → limit
        ≤ count (λ b. at_least_as_new env b a) (collected env tasks_ordered logs_ordered limit w)
      → Newer a
  unfolding sorted
  enough-Newer a h =
      let alerts = collected env tasks_ordered logs_ordered limit w in
      let enough : limit ≤ count (λ b. at_least_as_new env b a) sorted =
        rw (count-sort (at_least_as_new env) (λ b. at_least_as_new env b a) alerts) h in
      (
        length-take-count limit (λ b. at_least_as_new env b a) sorted enough,
        λ b here.
            top (at_least_as_new env) newer_trans limit a sorted sorted-IsSorted enough b here,
      )

  module _ (orders : (ts : List TaskHistory) → IsOrderOf (λ t. t.updated_at) (tasks_ordered ts) ts)
      (monotone : (s t : ℕ) → s ≤ t → text_leb (env.isoformat s) (env.isoformat t) ≡ true)
      (r : TaskHistory) where
    ordered_tasks : List TaskHistory
    ordered_tasks = tasks_ordered (filter is_unsuccessful w.tx.tasks)

    -- Cut off before the merge, a task has `limit` newer ones in front of it.
    cut-Newer : Mem r (drop limit ordered_tasks) → Newer (task_alert env r)
    unfolding ordered_tasks collect task_alert
    cut-Newer late =
        let front = take limit ordered_tasks in
        let every = map (task_alert env) front in
        let at_front = (λ (b : Alert). at_least_as_new env b (task_alert env r)) in
        let rows : Pairwise (λ (x y : TaskHistory). y.updated_at ≤ x.updated_at)
            (front ++ drop limit ordered_tasks) =
          rw (take-drop limit ordered_tasks) ((orders (filter is_unsuccessful w.tx.tasks)).1) in
        let across = ((Pairwise-append (λ x y. le_prop)).0 rows).2 in
        let all_newer = count_all at_front every (
          map_all (task_alert env) (λ b. at_least_as_new env b (task_alert env r) ≡ true)
            (λ b. hlevel) front
            (λ x here. monotone r.updated_at x.updated_at (across x here r late))) in
        let full = length-take-drop limit r ordered_tasks late in
        let as_many = length-map (task_alert env) front in
        let both = count-append at_front every (
          map (signature_alert env)
            (take limit (logs_ordered (filter (λ r. not r.signature_valid) w.tx.logs)))) in
        enough-Newer (task_alert env r) (omega arith)

    task-Newer :
        Mem r w.tx.tasks
        → is_unsuccessful r ≡ true
        → Mem (task_alert env r) (take limit sorted) ∨₁ Newer (task_alert env r)
    unfolding ordered_tasks collect
    task-Newer there bad =
        let selected = mem-filter is_unsuccessful r w.tx.tasks bad there in
        let placed : Mem r (take limit ordered_tasks ++ drop limit ordered_tasks) =
          rw (take-drop limit ordered_tasks)
            ((Perm.mem_iff ((orders (filter is_unsuccessful w.tx.tasks)).0)).1 selected) in
        Or.elim ∨₁_prop (mem-append.0 placed)
          (λ early.
            collected-Newer (task_alert env r)
              (mem-append.1 (Or.inl (mem-map_of_mem (task_alert env) early))))
          (λ late. Or.inr (cut-Newer late))

-- The route returns an answer in which the alert of a given task that ended unsuccessfully is shown, or which is full of alerts whose timestamps are at or after that of the task; given that the rows come newest first and that a later time is never printed as a lesser text.
pub recent_alerts_complete :
    (env : Env) (tasks_ordered : List TaskHistory → List TaskHistory)
    (logs_ordered : List WebhookLog → List WebhookLog) (limit : ℕ) (w : World) (r : TaskHistory)
    → ((ts : List TaskHistory) → IsOrderOf (λ t. t.updated_at) (tasks_ordered ts) ts)
    → ((s t : ℕ) → s ≤ t → text_leb (env.isoformat s) (env.isoformat t) ≡ true)
    → Mem r w.tx.tasks
    → is_unsuccessful r ≡ true
    → (shown : Alerts) × (recent_alerts env tasks_ordered logs_ordered limit w ≡ (ok shown, w))
      × (Mem (task_alert env r) shown.items
          ∨₁ ((length shown.items ≡ limit)
              × ((b : Alert)
                  → Mem b shown.items
                  → at_least_as_new env b (task_alert env r) ≡ true)))
unfolding recent_alerts sorted
recent_alerts_complete env tasks_ordered logs_ordered limit w r orders monotone there bad =
    let alerts = collected env tasks_ordered logs_ordered limit w in
    (
      record { items = take limit (sort (at_least_as_new env) alerts); total = length alerts },
      refl,
      task-Newer env tasks_ordered logs_ordered limit w orders monotone r there bad,
    )
