-- ===== src/TaskService/Queries/Pages.antt =====
-- The pages of a list, one after the other.
use mathlib.Core.Path.{fun_ext}
use mathlib.Core.List.{Perm}
use devops_manager.Prelude.{
  ℕ, zero, suc, ◌+◌, ◌-◌, ◌*◌, ◌≤◌, ◌≡◌, refl, ap, ◌∙◌, String, Bool, Time, List, [], ◌++◌, ◌&&◌,
  leb, select, length, take, drop, take-add, take_all, page_of, to_int64_small, max_int64, arith,
}
use devops_manager.Models.CommandHost.{CommandHostStatus}
use devops_manager.Models.Task.{Task}
use devops_manager.Db.{
  Action, Result, Session, Db, Message, ok, err, quiet, is_live_task, statement,
}
use devops_manager.TaskService.Queries.Order.{
  IsLatestFirst, HaveOwnTimes, Orders, Orders-unique, length-perm,
}
use devops_manager.TaskService.Queries.{
  list_page, status_text, runs_on, where_status, where_name, query_tasks, query_tasks_by_host,
  get_tasks_by_status, get_tasks_by_date_range,
}

-- The rows of an answer, and those of the first pages that are asked for in one session.
abbrev pub rows_of {ℓ} : {A : Type ℓ} → Result (List A × ℕ) × Session → List A
rows_of (ok (xs, total), s) = xs
rows_of (err e, s) = []

abbrev pub pages {ℓ} : {A : Type ℓ} → (ℕ → Action (List A × ℕ)) → ℕ → Session → List A
pages m zero s = []
pages m (suc k) s = pages m k s ++ rows_of (m (suc k) s)

module _ {ℓ} {A : Type ℓ} (order_by : ℕ → List A → List A) (rows : Db → List A) (db : Db)
    (dispatcher : Bool) (order : List CommandHostStatus) (goroutines : List Message) where
  page_of-drop :
      (k size : ℕ) (xs : List A)
      → k * size ≤ max_int64
      → page_of (suc k) size xs ≡ take size (drop (k * size) xs)
  unfolding page_of
  page_of-drop k size xs h =
      let before : suc k - 1 ≡ k = omega arith in rw (before, to_int64_small (k * size) h)

  -- Each page asks for the rows in an order of its own; here all of these give one list.
  pub list_page-pages :
      (xs : List A)
      → ((page : ℕ) → order_by page (rows db) ≡ xs)
      → (k size : ℕ) → k * size ≤ max_int64
      → pages
          (λ page. list_page (order_by page) rows page size)
          k
          (quiet db dispatcher order goroutines)
        ≡ take (k * size) xs
  unfolding statement
  list_page-pages xs same zero size h = let none_yet : zero * size ≡ 0 = omega arith in rw none_yet
  list_page-pages xs same (suc k) size h =
      let next : suc k * size ≡ k * size + size = omega arith in
      rw (
        next,
        list_page-pages xs same k size (omega arith),
        same (suc k),
        page_of-drop k size xs (omega arith),
        take-add (k * size) size xs,
      )

-- The lists of tasks, and the tasks that each is about.
pub data Listing : Type 0 where
  all : (status name : String) → Listing
  on_host : ℕ → String → Listing
  with_status : String → Listing
  between : (start_date end_date : Time) → String → Listing

module _ (equals : (column value : String) → Bool) (like : (column pattern : String) → Bool) where
  unfoldable pub query :
      (latest_first : List Task → List Task) → Listing → (page size : ℕ) → Action (List Task × ℕ)
  query latest_first (all status name) page size =
      query_tasks equals like latest_first page size status name
  query latest_first (on_host id status) page size =
      query_tasks_by_host equals like latest_first id page size status
  query latest_first (with_status status) page size =
      get_tasks_by_status equals like latest_first status page size
  query latest_first (between start_date end_date status) page size =
      get_tasks_by_date_range equals like latest_first start_date end_date page size status

  unfoldable pub belongs : Listing → Db → Task → Bool
  unfolding runs_on status_text
  belongs (all status name) db t = where_status equals status t && where_name like name t
  belongs (on_host id status) db t = runs_on id db.commands t && where_status equals status t
  belongs (with_status status) db t = equals (status_text t.status) status
  belongs (between start_date end_date status) db t =
      leb start_date t.created_at && leb t.created_at end_date && where_status equals status t

  -- The live tasks that a list is about.
  abbrev pub selected : Listing → Db → List Task
  selected l db = select (λ t. belongs l db t && is_live_task t) db.tasks

  -- Each query is the one statement on its selection.
  query-list_page :
      (latest_first : List Task → List Task) (l : Listing) (page size : ℕ)
      → query latest_first l page size ≡ list_page latest_first (selected l) page size
  unfolding query belongs query_tasks query_tasks_by_host get_tasks_by_status
      get_tasks_by_date_range status_text runs_on
  query-list_page latest_first (all status name) page size = refl
  query-list_page latest_first (on_host id status) page size = refl
  query-list_page latest_first (with_status status) page size = refl
  query-list_page latest_first (between start_date end_date status) page size = refl

  -- Where no statement fails and the offsets stay in int64, each query orders the rows that it selects
  -- by their creation from the latest on, in any way, and no two of these rows were created at one time:
  -- the pages of a list of tasks, asked for one after the other until they reach its end, hold each of
  -- the live tasks that the list is about once, and none other, from the latest on.
  pub query-pages :
      (latest_first : ℕ → List Task → List Task) (l : Listing) (k size : ℕ) (db : Db)
      (dispatcher : Bool) (order : List CommandHostStatus) (goroutines : List Message)
      → ((page : ℕ) → Orders (selected l db) (latest_first page (selected l db)))
      → HaveOwnTimes (selected l db)
      → k * size ≤ max_int64
      → length (selected l db) ≤ k * size
      → let found =
          pages
            (λ page. query (latest_first page) l page size)
            k
            (quiet db dispatcher order goroutines) in
        Perm found (selected l db) × IsLatestFirst found
  query-pages latest_first l k size db dispatcher order goroutines orders own small enough =
      let rows = selected l db in
      let xs = latest_first 0 rows in
      let same =
        λ (page : ℕ). Orders-unique rows (latest_first page rows) xs own (orders page) (orders 0) in
      let long = length-perm {ts = xs} {us = rows} (orders 0).0 in
      let whole : pages (λ page. query (latest_first page) l page size) k
            (quiet db dispatcher order goroutines)
          ≡ xs =
        ap (λ m. pages m k (quiet db dispatcher order goroutines))
          (fun_ext (λ page. query-list_page (latest_first page) l page size))
        ∙ list_page-pages latest_first (selected l) db dispatcher order goroutines xs same k size
            small
        ∙ take_all (k * size) xs (omega arith) in
      rw whole (orders 0)
