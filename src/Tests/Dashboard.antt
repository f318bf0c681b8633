-- ===== src/Tests/Dashboard.antt =====
-- The listings and the dashboard on concrete rows.
use mathlib.Core.List.{Mem, forall_mem-cons, mem-cons_self, not-mem-nil}
use mathlib.Core.Logic.{◌∨₁◌}
use mathlib.Core.List.Pairwise
use text.Mathlib.TextEquality.{IsScalar-prop}
use robo_control.Prelude.{
  ℕ, ◌≤◌, ◌<◌, ◌≡◌, ◌≢◌, sym, ◌↔◌, refl, Bool, true, false, String, none, some, List, [], ◌∷◌, map,
  length, arith, leb, leb→le, inl, inr, if◌then◌else◌, Bool-cases,
}
use robo_control.Errors.{Result, ok}
use robo_control.Database.Tasks.{TaskHistory, failed}
use robo_control.Database.Logs.{WebhookLog}
use robo_control.World.{Env, World}
use robo_control.Sorting.{text_leb, sort, sort-perm, sort-IsSorted}
use robo_control.Listing.{task_item, log_item}
use robo_control.Listing.Order.{IsOrderOf, AreTimesDistinct}
use robo_control.Listing.Routes.{
  items_upto, task_page, list_task_history-pages, list_task_history-nil_iff,
}
use robo_control.Dashboard.Alerts.{Alert, Alerts, task_alert, at_least_as_new, recent_alerts}
use robo_control.Dashboard.Alerts.Complete.{recent_alerts_complete}
use robo_control.Tests
use robo_control.Tests.Feedbacks.{row}

module _ {A : Type 0} (time : A → ℕ) where
  abbrev newest_first : List A → List A
  newest_first xs = sort (λ a b. leb (time b) (time a)) xs

  newest_first-IsOrderOf : (xs : List A) → IsOrderOf time (newest_first xs) xs
  newest_first-IsOrderOf xs = (
    sort-perm (λ a b. leb (time b) (time a)) xs,
    Pairwise.imp (λ a b h. leb→le (time b) (time a) h)
        (sort-IsSorted (λ a b. leb (time b) (time a)) (λ a b h. ground arith)
          (λ a b c h k. ground arith) xs),
  )

abbrev later_row : TaskHistory
later_row = record row {
  robot_task_code = "T2";
  status = failed;
  created_at = 900;
  updated_at = 950;
}

abbrev two_rows : World
two_rows = record Tests.start {
  db = record Tests.db { tasks = row ∷ later_row ∷ [] };
  tx = record Tests.db { tasks = row ∷ later_row ∷ [] };
}

abbrev pub task_order : ℕ → List TaskHistory → List TaskHistory
task_order _ = newest_first (λ t. t.created_at)

task_orders :
    (page : ℕ) (ts : List TaskHistory) → IsOrderOf (λ t. t.created_at) (task_order page ts) ts
task_orders _ = newest_first-IsOrderOf (λ t. t.created_at)

list_task_history-nil_iff_example :
    ((task_page task_order none 1 two_rows 3).items ≡ [])
    ↔ ((task_page task_order none 1 two_rows 3).total_pages < 3)
list_task_history-nil_iff_example =
    list_task_history-nil_iff task_order none 1 two_rows task_orders (omega arith) 2

string_set : IsSet String
string_set = hlevel (IsScalar-prop)

task_set : IsSet TaskHistory
task_set = hlevel (string_set)

log_set : IsSet WebhookLog
log_set = hlevel (string_set)

module _ {A : Type 0} (set : IsSet A) (time : A → ℕ) where
  distinct-nil : AreTimesDistinct time []
  distinct-nil x y mx my e = absurd (not-mem-nil mx)

  distinct-cons :
      (a : A) (xs : List A)
      → ((x : A) → Mem x xs → time a ≢ time x)
      → AreTimesDistinct time xs
      → AreTimesDistinct time (a ∷ xs)
  distinct-cons a xs new d x y mx my e =
      (forall_mem-cons {p = λ x. time x ≡ time y → x ≡ y} (λ x. hlevel (set))).1
        (
          λ e.
              (forall_mem-cons {p = λ y. time a ≡ time y → a ≡ y} (λ y. hlevel (set))).1
                ((λ e. refl), λ y my e. absurd (new y my e)) y my e,
          λ x mx e.
              (forall_mem-cons {p = λ y. time x ≡ time y → x ≡ y} (λ y. hlevel (set))).1
                ((λ e. absurd (new x mx (sym e))), λ y my e. d x y mx my e) y my e,
        )
        x mx e

two_times : AreTimesDistinct (λ t. t.created_at) (row ∷ later_row ∷ [])
two_times =
    distinct-cons task_set (λ t. t.created_at) row (later_row ∷ [])
      (λ x m.
        (forall_mem-cons {p = λ x. 800 ≢ x.created_at} (λ x. hlevel)).1
          ((λ e. ground arith), λ x m. absurd (not-mem-nil m)) x m)
      (distinct-cons task_set (λ t. t.created_at) later_row [] (λ x m. absurd (not-mem-nil m))
        (distinct-nil task_set (λ t. t.created_at)))

list_task_history-pages_example :
    items_upto (task_page task_order (some "") 1 two_rows) 2
    ≡ map task_item (task_order 0 (row ∷ later_row ∷ []))
unfolding items_upto robo_control.Listing.status_filter_of robo_control.Listing.list_task_history
    robo_control.Listing.list_rows robo_control.Listing.paginate robo_control.Listing.total_pages
list_task_history-pages_example =
    list_task_history-pages task_order (some "") 1 two_rows task_orders (omega arith) two_times

abbrev pub log_order : ℕ → List WebhookLog → List WebhookLog
log_order _ = newest_first (λ r. r.created_at)

log_orders :
    (page : ℕ) (rs : List WebhookLog) → IsOrderOf (λ r. r.created_at) (log_order page rs) rs
log_orders _ = newest_first-IsOrderOf (λ r. r.created_at)

abbrev bad_log : WebhookLog
bad_log = record {
  id = 1;
  robot_task_code = "T1";
  method = "end";
  amr_code = none;
  x = none;
  y = none;
  raw_payload = some "{}";
  signature_valid = false;
  duplicate = false;
  created_at = 970;
}

abbrev one_log : World
one_log = record Tests.start {
  tx = record Tests.db { tasks = later_row ∷ []; logs = bad_log ∷ [] };
}

abbrev like : String → String → Bool
like pattern text = true

one_time : AreTimesDistinct (λ r. r.created_at) (bad_log ∷ [])
one_time =
    distinct-cons log_set (λ r. r.created_at) bad_log [] (λ x m. absurd (not-mem-nil m))
      (distinct-nil log_set (λ r. r.created_at))

abbrev pub select_1 : Result (Unit {0})
select_1 = ok tt

abbrev pub ping : Result Bool
ping = ok true

abbrev clock : Env
clock = record Tests.env { isoformat = λ t. if leb 900 t then "b" else "a" }

abbrev failed_row : TaskHistory
failed_row = record row { status = failed; updated_at = 850 }

abbrev two_failed : World
two_failed = record Tests.start {
  tx = record Tests.db { tasks = failed_row ∷ later_row ∷ []; logs = bad_log ∷ [] };
}

clock-monotone : (s t : ℕ) → s ≤ t → text_leb (clock.isoformat s) (clock.isoformat t) ≡ true
unfolding text_leb
clock-monotone s t h = elim (Bool-cases (leb 900 s)) [
  | inl e ↦ let later : leb 900 t ≡ true = ground arith in rw (e, later) refl
  | inr e ↦ rw e (elim (Bool-cases (leb 900 t)) [ inl f ↦ rw f refl | inr f ↦ rw f refl ])
]

abbrev update_order : List TaskHistory → List TaskHistory
update_order = newest_first (λ t. t.updated_at)

recent_alerts_complete_example :
    (shown : Alerts) × (recent_alerts clock update_order (log_order 0) 1 two_failed
      ≡ (ok shown, two_failed))
    × (Mem (task_alert clock failed_row) shown.items
        ∨₁ ((length shown.items ≡ 1)
            × ((b : Alert)
                → Mem b shown.items
                → at_least_as_new clock b (task_alert clock failed_row) ≡ true)))
recent_alerts_complete_example =
    recent_alerts_complete clock update_order (log_order 0) 1 two_failed failed_row
      (newest_first-IsOrderOf (λ t. t.updated_at)) clock-monotone mem-cons_self refl
