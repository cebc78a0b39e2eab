-- ===== src/Http/Paging.antt =====
-- What a request for a list of tasks may get.
use Prim.Native.String.{String}
use text.Mathlib.Text.{◌==◌ as str_eq}
use devops_manager.Prelude.{
  ℕ, ◌*◌, ◌-◌, ◌≤◌, ◌≡◌, refl, ◌||◌, Bool, true, false, Option, none, some, Time, List, [], ◌∷◌,
  map, length, length-take-le, select, ◌&&◌, leb, page_of, drop_offset, to_int64, arith, Bool-cases,
  Option-cases, inl, inr,
}
use devops_manager.Models.Task.{Task}
use devops_manager.TaskCache as Cache
use devops_manager.TaskCache.{Redis}
use devops_manager.TaskCache.Store.{ListData, get_cached_task_list, get_cached_host_tasks}
use devops_manager.Db.{Action, Session, Db, Error, Result, ok, err, statement, is_live_task}
use devops_manager.Http.Params.{
  PageQuery, page_number, page_size, page_number_bounds, page_size_bounds,
}
use devops_manager.Http.Reply.{Reply, replied, send_success_response, send_error_response}
use devops_manager.Http.Tasks.{task_response}
use devops_manager.Http.Tasks.Lists.{
  TaskList, Subject, all_tasks, of_host, task_list, listed, end_of_day, get_tasks_handler,
  get_tasks_by_host_handler, get_tasks_by_status_handler, get_tasks_by_date_range_handler,
}
use devops_manager.TaskService.Queries.{
  list_page, or_listed, get_tasks, get_tasks_by_host, query_tasks, query_tasks_by_host,
  get_tasks_by_status, get_tasks_by_date_range, status_text, where_status, where_name, runs_on,
}

-- A reply holds no list, or at most `size` tasks of a page from 1 on, where `size` is from 1 to 100.
abbrev IsSmall : Option TaskList → Type 0
IsSmall none = Unit
IsSmall (some l) = (length l.tasks ≤ l.size) × (1 ≤ l.page) × (1 ≤ l.size) × (l.size ≤ 100)

abbrev pub IsSmallReply : Reply TaskList × Session → Type 0
IsSmallReply r = IsSmall r.0.body.payload

abbrev HasAtMost {ℓ} : {A : Type ℓ} → ℕ → Result (List A × ℕ) → Type 0
HasAtMost size (ok (xs, total)) = length xs ≤ size
HasAtMost size (err e) = Unit

page_of-le {ℓ} : {A : Type ℓ} (page size : ℕ) (xs : List A) → length (page_of page size xs) ≤ size
unfolding page_of
page_of-le page size xs = length-take-le size (drop_offset (to_int64 ((page - 1) * size)) xs)

module _ {ℓ} {A : Type ℓ} (order_by : List A → List A) (rows : Db → List A) (page size : ℕ)
    (s : Session) where
  list_page-with :
      (faults : List Bool)
      → HasAtMost size (list_page order_by rows page size (record s { faults = faults })).0
  unfolding statement
  list_page-with [] = page_of-le page size (order_by (rows s.db))
  list_page-with (true ∷ rest) = tt
  list_page-with (false ∷ []) = page_of-le page size (order_by (rows s.db))
  list_page-with (false ∷ true ∷ rest) = tt
  list_page-with (false ∷ false ∷ rest) = page_of-le page size (order_by (rows s.db))

  list_page-le : HasAtMost size (list_page order_by rows page size s).0
  list_page-le = list_page-with s.faults

-- A list that the cache gives.
abbrev pub CachedAtMost : ℕ → Cache.Result (List Task × ℕ) → Type 0
CachedAtMost size (Cache.ok (ts, total)) = length ts ≤ size
CachedAtMost size (Cache.err e) = Unit

or_listed-le :
    {Text : Type 0} (size : ℕ) (cached : Cache.Result (List Task × ℕ) × Redis Text)
    (m : Action (List Task × ℕ)) (s : Session)
    → CachedAtMost size cached.0
    → HasAtMost size (m s).0
    → HasAtMost size (or_listed cached m s).0.0
or_listed-le size (Cache.ok (t ∷ ts, total), r) m s h k = h
or_listed-le size (Cache.ok ([], total), r) m s h k = k
or_listed-le size (Cache.err e, r) m s h k = k

length-map {ℓ κ} :
    {A : Type ℓ} {B : Type κ} (f : A → B) (xs : List A) → length (map f xs) ≡ length xs
length-map f [] = refl
length-map f (x ∷ xs) = ground (arith, length-map f xs)

module _ (error_text : Error → String) (row_id : ℕ → ℕ) (format : Time → String) where
  listed-small :
      (what : String) (q : PageQuery) (subject : Subject) (r : Result (List Task × ℕ) × Session)
      → HasAtMost (page_size q) r.0
      → IsSmallReply (listed error_text row_id format what q subject r)
  unfolding replied send_success_response send_error_response task_list
  listed-small what q subject (ok (ts, total), t) h =
      let sizes = page_size_bounds q in
      (
        omega (arith, h, length-map (task_response row_id format) ts),
        page_number_bounds q,
        sizes.0,
        sizes.1,
      )
  listed-small what q subject (err e, t) h = tt

  module _ (equals : (column value : String) → Bool) (like : (column pattern : String) → Bool)
      (latest_first : List Task → List Task) where
    by_status-small :
        (status : String) (q : PageQuery) (s : Session)
        → IsSmallReply (
            get_tasks_by_status_handler error_text equals like latest_first row_id format status q
              s)
    unfolding get_tasks_by_status_handler get_tasks_by_status
    by_status-small status q s = elim (Bool-cases (str_eq status "")) [
      | inl e ↦ rw e tt
      | inr e ↦ rw e (
          listed-small _ q _
            (get_tasks_by_status equals like latest_first status (page_number q) (page_size q) s)
            (list_page-le latest_first
              (λ db. select (λ t. equals (status_text t.status) status && is_live_task t) db.tasks)
              (page_number q) (page_size q) s))
    ]

    by_dates-small :
        (parse_date : String → Option Time) (start_date end_date : String) (q : PageQuery)
        (status : String) (s : Session)
        → IsSmallReply (
            get_tasks_by_date_range_handler error_text equals like latest_first row_id format
              parse_date start_date end_date q status s)
    unfolding get_tasks_by_date_range_handler get_tasks_by_date_range
    by_dates-small parse_date start_date end_date q status s =
        elim (Bool-cases (str_eq start_date "" || str_eq end_date "")) [
          | inl e ↦ rw e tt
          | inr e ↦ elim (Option-cases (parse_date start_date)) [
            | inl f ↦ rw (e, f) tt
            | inr (a, f) ↦ elim (Option-cases (parse_date end_date)) [
              | inl g ↦ rw (e, f, g) tt
              | inr (b, g) ↦
                  rw (e, f, g)
                    (listed-small _ q _
                      (get_tasks_by_date_range equals like latest_first a (end_of_day b)
                        (page_number q) (page_size q) status s)
                      (list_page-le latest_first
                        (λ db.
                          select
                            (λ t.
                              leb a t.created_at
                              && leb t.created_at (end_of_day b)
                              && where_status equals status t
                              && is_live_task t)
                            db.tasks)
                        (page_number q) (page_size q) s))
            ]
          ]
        ]

    module _ {Text Json : Type 0} (unmarshal_list : Text → Option (ListData Json))
        (task_of : Json → Option Task) (q : PageQuery) (now : Time) (r : Redis Text)
        (s : Session) where
      all_tasks-small :
          (cache_key : (page size : ℕ) (status name : String) → ℕ) (status name : String)
          → CachedAtMost
              (page_size q)
              (get_cached_task_list unmarshal_list task_of
                (cache_key (page_number q) (page_size q) status name)
                now
                r).0
          → IsSmallReply
              (get_tasks_handler error_text equals like latest_first row_id format unmarshal_list
                task_of cache_key q status name now r s).0
      unfolding get_tasks_handler get_tasks query_tasks
      all_tasks-small cache_key status name h =
          let cached =
            get_cached_task_list unmarshal_list task_of
              (cache_key (page_number q) (page_size q) status name) now r in
          let asked =
            query_tasks equals like latest_first (page_number q) (page_size q) status name in
          listed-small "Failed to get tasks: " q all_tasks (or_listed cached asked s).0 (
            or_listed-le (page_size q) cached asked s h (
              list_page-le latest_first
                (λ db.
                  select
                    (λ t. where_status equals status t && where_name like name t && is_live_task t)
                    db.tasks)
                (page_number q) (page_size q) s))

      by_host-small :
          (cache_key : (page size : ℕ) → String → ℕ) (host : Option ℕ) (status : String)
          → ((id : ℕ)
              → CachedAtMost
                  (page_size q)
                  (get_cached_host_tasks unmarshal_list task_of id
                    (cache_key (page_number q) (page_size q) status)
                    now
                    r).0)
          → IsSmallReply
              (get_tasks_by_host_handler error_text equals like latest_first row_id format
                unmarshal_list task_of cache_key host q status now r s).0
      unfolding get_tasks_by_host_handler get_tasks_by_host query_tasks_by_host runs_on
          send_error_response
      by_host-small cache_key none status h = tt
      by_host-small cache_key (some id) status h =
          let cached =
            get_cached_host_tasks unmarshal_list task_of id
              (cache_key (page_number q) (page_size q) status) now r in
          let asked =
            query_tasks_by_host equals like latest_first id (page_number q) (page_size q) status in
          listed-small "Failed to get tasks by host: " q (of_host id) (or_listed cached asked s).0 (
            or_listed-le (page_size q) cached asked s (h id) (
              list_page-le latest_first
                (λ db.
                  select
                    (λ t.
                      runs_on id db.commands t && where_status equals status t && is_live_task t)
                    db.tasks)
                (page_number q) (page_size q) s))

      -- Whatever the texts of the query are and whatever statements fail, and where the lists in the
      -- cache under the keys of the page hold at most `size` tasks: requests for all tasks, for those
      -- of a host, of a status or of a range of dates are answered with no list, or with at most
      -- `size` tasks of a page from 1 on, where `size` is from 1 to 100.
      pub lists-small :
          (parse_date : String → Option Time) (start_date end_date status name : String)
          (host : Option ℕ) (list_key : (page size : ℕ) (status name : String) → ℕ)
          (host_key : (page size : ℕ) → String → ℕ)
          → CachedAtMost
              (page_size q)
              (get_cached_task_list unmarshal_list task_of
                (list_key (page_number q) (page_size q) status name)
                now
                r).0
          → ((id : ℕ)
              → CachedAtMost
                  (page_size q)
                  (get_cached_host_tasks unmarshal_list task_of id
                    (host_key (page_number q) (page_size q) status)
                    now
                    r).0)
          → IsSmallReply
              (get_tasks_handler error_text equals like latest_first row_id format unmarshal_list
                task_of list_key q status name now r s).0
            × IsSmallReply
                (get_tasks_by_host_handler error_text equals like latest_first row_id format
                  unmarshal_list task_of host_key host q status now r s).0
            × IsSmallReply (
                get_tasks_by_status_handler error_text equals like latest_first row_id format status
                  q s)
            × IsSmallReply (
                get_tasks_by_date_range_handler error_text equals like latest_first row_id format
                  parse_date start_date end_date q status s)
      lists-small parse_date start_date end_date status name host list_key host_key h k = (
        all_tasks-small list_key status name h,
        by_host-small host_key host status k,
        by_status-small status q s,
        by_dates-small parse_date start_date end_date q status s,
      )
