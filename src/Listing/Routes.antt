-- ===== src/Listing/Routes.antt =====
-- What a client reads that asks for one page after another, while the rows stay as they are.
use mathlib.Core.List.Perm
use robo_control.Prelude.{
  ℕ, zero, suc, ◌<◌, ◌≡◌, ◌↔◌, refl, sym, ap, ◌∙◌, String, Bool, Option, List, [], ◌∷◌, ◌++◌, map,
  length, arith,
}
use robo_control.Json.{Json}
use robo_control.Errors.{Result, ok, raise}
use robo_control.Database.Tasks.{TaskHistory}
use robo_control.Database.Logs.{WebhookLog}
use robo_control.World.{Env, World}
use robo_control.Listing.{
  Listing, filter, paginate, total_pages, list_rows, task_item, has_status, status_filter_of,
  list_task_history, log_item, has_task_code, list_webhook_logs,
}
use robo_control.Listing.Order.{IsOrderOf, AreTimesDistinct, IsNewestFirst-eq_of_perm, length-perm}
use robo_control.Listing.Pages.{pages, pages_complete, paginate-nil_iff}

map-append : {A : Type 0} (f : A → Json) (xs ys : List A) → map f (xs ++ ys) ≡ map f xs ++ map f ys
map-append f [] ys = refl
map-append f (x ∷ xs) ys = ap (λ (js : List Json). f x ∷ js) (map-append f xs ys)

-- The items of the pages from 1 to `n`.
unfoldable pub items_upto : (ℕ → Listing) → ℕ → List Json
items_upto listing zero = []
items_upto listing (suc n) = items_upto listing n ++ (listing (suc n)).items

module _ {A : Type 0} (time : A → ℕ) (order : ℕ → List A → List A)
    (orders : (page : ℕ) (xs : List A) → IsOrderOf time (order page xs) xs) (keep : A → Bool)
    (item : A → Json) (page_size : ℕ) (positive : 0 < page_size) (rows : List A)
    (distinct : AreTimesDistinct time (filter keep rows)) where
  abbrev answer : ℕ → Listing
  answer page = list_rows (order page) keep item page page_size rows

  -- Without two rows of one time there is one order, whichever page is asked for.
  same_order : (page : ℕ) → order page (filter keep rows) ≡ order 0 (filter keep rows)
  same_order page =
      let (perm, newest) = orders page (filter keep rows) in
      let (perm₀, newest₀) = orders 0 (filter keep rows) in
      IsNewestFirst-eq_of_perm time
        (λ x y mx my e. distinct x y ((Perm.mem_iff perm).0 mx) ((Perm.mem_iff perm).0 my) e) newest
        newest₀ (Perm.trans perm (Perm.symm perm₀))

  items_upto_lem :
      (n : ℕ) → items_upto answer n ≡ map item (pages n page_size (order 0 (filter keep rows)))
  unfolding items_upto pages list_rows
  items_upto_lem zero = refl
  items_upto_lem (suc n) =
      let xs = order 0 (filter keep rows) in
      rw (items_upto_lem n, same_order (suc n))
        (sym (map-append item (pages n page_size xs) (paginate (suc n) page_size xs)))

  all_items : items_upto answer (answer 1).total_pages ≡ map item (order 0 (filter keep rows))
  unfolding list_rows
  all_items =
      let xs = order 0 (filter keep rows) in
      let count = length-perm ((orders 0 (filter keep rows)).0) in
      items_upto_lem (total_pages (length (filter keep rows)) page_size)
      ∙ ap (λ k. map item (pages (total_pages k page_size) page_size xs)) (sym count)
      ∙ ap (map item) (pages_complete page_size positive xs)

-- A page past the last one is empty, and only such a page is.
page-nil_iff :
    {A : Type 0} (time : A → ℕ) (ordered : List A → List A) (keep : A → Bool) (item : A → Json)
    (page_size n : ℕ) (rows : List A)
    → ((xs : List A) → IsOrderOf time (ordered xs) xs)
    → 0 < page_size
    → ((list_rows ordered keep item (suc n) page_size rows).items ≡ [])
      ↔ ((list_rows ordered keep item (suc n) page_size rows).total_pages < suc n)
unfolding list_rows
page-nil_iff time ordered keep item page_size n rows orders positive =
    let xs = ordered (filter keep rows) in
    let (to, from) = paginate-nil_iff page_size positive xs n in
    let count = length-perm ((orders (filter keep rows)).0) in
    rw (sym count) (λ e. to (map-nil item _ e), λ past. ap (map item) (from past))
  where
    map-nil : {A : Type 0} (f : A → Json) (ys : List A) → map f ys ≡ [] → ys ≡ []
    map-nil f [] e = refl
    map-nil f (y ∷ ys) e = ground arith

-- What a request for a listing answered.
abbrev pub listing_of : Result Listing × World → Listing
listing_of (ok listing, w) = listing
listing_of (raise x, w) = record { items = []; total = 0; page = 0; page_size = 0; total_pages = 0 }

module _ (order : ℕ → List TaskHistory → List TaskHistory) (status : Option String) (page_size : ℕ)
    (w : World) where
  abbrev pub task_page : ℕ → Listing
  task_page page = listing_of (list_task_history (order page) status page page_size w)

  abbrev pub selected_tasks : List TaskHistory
  selected_tasks = filter (has_status (status_filter_of status)) w.tx.tasks

  module _
      (orders : (page : ℕ) (ts : List TaskHistory)
        → IsOrderOf (λ t. t.created_at) (order page ts) ts)
      (positive : 0 < page_size) where
    -- The pages from 1 to `totalPages` of one status filter, asked for with a positive page size while the table stays as it is, are together the selected tasks, each once and newest first, if the selected tasks have distinct creation times; the database may order rows anew for each page, as long as it orders them newest first.
    pub list_task_history-pages :
        AreTimesDistinct (λ t. t.created_at) selected_tasks
        → items_upto task_page (task_page 1).total_pages ≡ map task_item (order 0 selected_tasks)
    unfolding list_task_history
    list_task_history-pages distinct =
        all_items (λ t. t.created_at) order orders (has_status (status_filter_of status)) task_item
          page_size positive w.tx.tasks distinct

    -- A page of the task history is empty exactly if its number, from 1, is above the `totalPages` it gives, for any table, status filter and positive page size, when the database gives the selected rows newest first.
    pub list_task_history-nil_iff :
        (n : ℕ) → ((task_page (suc n)).items ≡ []) ↔ ((task_page (suc n)).total_pages < suc n)
    unfolding list_task_history
    list_task_history-nil_iff n =
        page-nil_iff (λ t. t.created_at) (order (suc n)) (has_status (status_filter_of status))
          task_item page_size n w.tx.tasks (orders (suc n)) positive

module _ (env : Env) (like : String → String → Bool) (order : ℕ → List WebhookLog → List WebhookLog)
    (task_code : Option String) (page_size : ℕ) (w : World) where
  abbrev pub log_page : ℕ → Listing
  log_page page = listing_of (list_webhook_logs env like (order page) task_code page page_size w)

  abbrev pub selected_logs : List WebhookLog
  selected_logs = filter (has_task_code like task_code) w.tx.logs

  module _
      (orders : (page : ℕ) (rs : List WebhookLog)
        → IsOrderOf (λ r. r.created_at) (order page rs) rs)
      (positive : 0 < page_size) where
    -- The pages from 1 to `totalPages` of the webhook log, asked for with one task code and positive page size while the table stays as it is, are together the selected entries, each once and newest first, if the selected entries have distinct creation times and the database gives them newest first for each page.
    pub list_webhook_logs-pages :
        AreTimesDistinct (λ r. r.created_at) selected_logs
        → items_upto log_page (log_page 1).total_pages ≡ map (log_item env) (order 0 selected_logs)
    unfolding list_webhook_logs
    list_webhook_logs-pages distinct =
        all_items (λ r. r.created_at) order orders (has_task_code like task_code) (log_item env)
          page_size positive w.tx.logs distinct
