-- ===== src/Http/Tasks/Lists.antt =====
-- The handlers of http_task_controller.go that list tasks or commands, read a task's state through
-- the cache, or clean up. `parse_date` is time.Parse with the layout 2006-01-02.
use devops_manager.Prelude.{
  ℕ, suc, zero, ◌+◌, ℤ, pos, negsuc, String, Bool, Option, none, some, Time, List, map,
  if◌then◌else◌, ◌||◌,
}
use text.Mathlib.Text.{◌==◌ as str_eq}
use devops_manager.Models.Command.{Command}
use devops_manager.Models.CommandHost.{CommandHost}
use devops_manager.Models.Task.{Task}
use devops_manager.Db.{Error, Result, Session}
use devops_manager.Http.Params.{PageQuery, page_number, page_size, atoi, default_query}
use devops_manager.Http.Reply.{Reply, replied, send_error_response}
use devops_manager.Http.Tasks.{TaskResponse, task_response}
use devops_manager.TaskCache.{Redis}
use devops_manager.TaskCache.Store.{ListData}
use devops_manager.TaskService.Queries.{
  get_failed_commands, get_tasks, get_tasks_by_host, get_tasks_by_status, get_tasks_by_date_range,
}
use devops_manager.TaskService.Status.{StatusAnswer, get_task_status}
use devops_manager.TaskService.Status.Details.{Progress, get_task_progress}
use devops_manager.Cleanup.{cleanup_old_records}

-- What the list was asked for, beside its page.
pub data Subject : Type 0 where
  all_tasks : Subject
  of_host : ℕ → Subject
  of_status : String → Subject
  date_range : (start_date end_date : String) → Subject

pub record TaskList : Type 0 where
  pub tasks : List TaskResponse
  pub page : ℕ
  pub size : ℕ
  pub total : ℕ
  pub subject : Subject

pub record CommandList : Type 0 where
  pub commands : List Command
  pub page : ℕ
  pub size : ℕ
  pub total : ℕ

unfoldable pub task_list :
    (row_id : ℕ → ℕ) (format : Time → String) → PageQuery → Subject → List Task × ℕ → TaskList
unfolding task_response page_number page_size
task_list row_id format q subject found = record {
  tasks = map (task_response row_id format) found.0;
  page = page_number q;
  size = page_size q;
  total = found.1;
  subject = subject;
}

-- The end of a day: `Add(24*time.Hour - time.Nanosecond)`.
abbrev pub end_of_day : Time → Time
end_of_day day = day + 86399999999999

-- A reply that leaves what was done to the cache.
abbrev pub replied_cached :
    {A D Text : Type 0}
    → (Result A × Session → Reply D × Session)
    → (Result A × Session) × Redis Text
    → (Reply D × Session) × Redis Text
replied_cached reply (a, r) = (reply a, r)

abbrev pub with_param_cached :
    {D Text : Type 0}
    → Option ℕ
    → String
    → (ℕ → Redis Text → Session → (Reply D × Session) × Redis Text)
    → Redis Text
    → Session
    → (Reply D × Session) × Redis Text
unfolding send_error_response
with_param_cached none message handle r s = ((send_error_response 400 message, s), r)
with_param_cached (some id) message handle r s = handle id r s

module _ (error_text : Error → String) where
  -- The last part of the handlers, once the service has answered.
  abbrev pub listed :
      (row_id : ℕ → ℕ) (format : Time → String)
      → String
      → PageQuery
      → Subject
      → Result (List Task × ℕ) × Session
      → Reply TaskList × Session
  unfolding replied task_list
  listed row_id format what q subject =
      replied error_text 500 what (task_list row_id format q subject)

  unfoldable pub get_failed_commands_handler :
      (latest_first : List Command → List Command)
      → PageQuery
      → Option ℕ
      → Session
      → Reply CommandList × Session
  unfolding get_failed_commands replied page_number page_size
  get_failed_commands_handler latest_first q host s =
      replied error_text 500 "Failed to get failed commands: "
        (λ found. record {
          commands = found.0;
          page = page_number q;
          size = page_size q;
          total = found.1;
        })
        (get_failed_commands latest_first (page_number q) (page_size q) host s)

  -- `days_before n now` is `now.AddDate(0, 0, -n)`.
  module _ (days_before : ℕ → Time → Time) where
    unfoldable pub cleaned : ℤ → Time → Session → Reply (String × ℕ) × Session
    unfolding cleanup_old_records replied send_error_response
    cleaned (negsuc n) now s = (send_error_response 400 "Retention days must be greater than 0", s)
    cleaned (pos zero) now s = (send_error_response 400 "Retention days must be greater than 0", s)
    cleaned (pos (suc n)) now s =
        replied error_text 500 "Failed to cleanup old records: "
          (λ _. ("Old records cleanup completed successfully", suc n))
          (cleanup_old_records (days_before (suc n) now) now s)

    unfoldable pub cleanup_old_records_handler :
        Option String → Time → Session → Reply (String × ℕ) × Session
    unfolding cleaned atoi
    cleanup_old_records_handler days now s = cleaned (atoi (default_query "30" days)) now s

  module _ {Text : Type 0} (unmarshal_status : Text → Option StatusAnswer) where
    unfoldable pub get_task_status_handler :
        Option ℕ → Time → Redis Text → Session → (Reply StatusAnswer × Session) × Redis Text
    unfolding get_task_status replied send_error_response
    get_task_status_handler id now = with_param_cached id "Task ID is required" λ task_id r s.
        replied_cached (replied error_text 404 "Failed to get task status: " (λ a. a))
          (get_task_status unmarshal_status task_id now r s)

    unfoldable pub get_task_progress_handler :
        (cut : ℕ → String → String) (oldest_first : List CommandHost → List CommandHost)
        (unmarshal_progress : Text → Option Progress)
        → Option ℕ
        → Time
        → Redis Text
        → Session
        → (Reply Progress × Session) × Redis Text
    unfolding get_task_progress replied send_error_response
    get_task_progress_handler cut oldest_first unmarshal_progress id now =
        with_param_cached id "Task ID is required" λ task_id r s.
          replied_cached (replied error_text 404 "Failed to get task progress: " (λ p. p))
            (get_task_progress cut oldest_first unmarshal_progress unmarshal_status task_id now r s)

  module _ (equals : (column value : String) → Bool) (like : (column pattern : String) → Bool)
      (latest_first : List Task → List Task) (row_id : ℕ → ℕ) (format : Time → String) where
    unfoldable pub get_tasks_by_status_handler :
        String → PageQuery → Session → Reply TaskList × Session
    unfolding get_tasks_by_status send_error_response replied task_list
    get_tasks_by_status_handler text q s =
        if str_eq text ""
        then (send_error_response 400 "Status is required", s)
        else listed row_id format "Failed to get tasks by status: " q (of_status text)
            (get_tasks_by_status equals like latest_first text (page_number q) (page_size q) s)

    module _ (parse_date : String → Option Time) where
      unfoldable pub get_tasks_by_date_range_handler :
          (start_date end_date : String) → PageQuery → String → Session → Reply TaskList × Session
      unfolding get_tasks_by_date_range send_error_response replied task_list
      get_tasks_by_date_range_handler start_date end_date q text s =
          if str_eq start_date "" || str_eq end_date ""
          then (send_error_response 400 "start_date and end_date are required", s)
          else elim (parse_date start_date) [
            | none ↦ (send_error_response 400 "Invalid start_date format, use YYYY-MM-DD", s)
            | some first_day ↦ elim (parse_date end_date) [
              | none ↦ (send_error_response 400 "Invalid end_date format, use YYYY-MM-DD", s)
              | some last_day ↦
                  listed row_id format "Failed to get tasks by date range: " q
                    (date_range start_date end_date)
                    (get_tasks_by_date_range equals like latest_first first_day
                      (end_of_day last_day) (page_number q) (page_size q) text s)
            ]
          ]

    module _ {Text Json : Type 0} (unmarshal_list : Text → Option (ListData Json))
        (task_of : Json → Option Task) where
      unfoldable pub get_tasks_handler :
          (cache_key : (page size : ℕ) (status name : String) → ℕ)
          → PageQuery
          → (status name : String) → Time
          → Redis Text
          → Session
          → (Reply TaskList × Session) × Redis Text
      unfolding get_tasks replied task_list
      get_tasks_handler cache_key q text name now r s =
          replied_cached (listed row_id format "Failed to get tasks: " q all_tasks) (
            get_tasks equals like latest_first unmarshal_list task_of cache_key (page_number q)
              (page_size q) text name now r s)

      unfoldable pub get_tasks_by_host_handler :
          (cache_key : (page size : ℕ) → String → ℕ)
          → Option ℕ
          → PageQuery
          → String
          → Time
          → Redis Text
          → Session
          → (Reply TaskList × Session) × Redis Text
      unfolding get_tasks_by_host replied task_list send_error_response
      get_tasks_by_host_handler cache_key id q text now =
          with_param_cached id "Host ID is required" λ host_id r s.
            replied_cached
              (listed row_id format "Failed to get tasks by host: " q (of_host host_id))
              (get_tasks_by_host equals like latest_first unmarshal_list task_of cache_key host_id
                (page_number q) (page_size q) text now r s)
