-- ===== src/Http/Created.antt =====
-- A task that is created by one request, and read by the next.
use mathlib.Core.Option
use Prim.Native.String.{String}
use text.Mathlib.Text.{◌==◌ as str_eq}
use devops_manager.Prelude.{
  ℕ, ℤ, ◌≡◌, refl, ap, Bool, true, false, ==_refl, none, some, Time, List, [], ◌∷◌, ◌++◌, first,
  length, arith, Bool-cases, inl, inr, map, ◌&&◌, ◌==◌, ◌∙◌,
}
use devops_manager.Models.CommandHost.{CommandHostStatus}
use devops_manager.Models.Task.{Task}
use devops_manager.Db.{Db, Message, Error, Session, quiet, find_task, is_live_task}
use devops_manager.TaskService.Lifecycle.{new_task}
use devops_manager.TaskService.Lifecycle.Create.{create_task-quiet, with_rows}
use devops_manager.TaskService.Queries.Loading.{get_task-loads}
use devops_manager.Http.Reply.{replied, send_success_response}
use devops_manager.Http.Tasks.{
  CreateTaskRequest, bound, task_response, create_checked, create_task_handler, get_task_handler,
}

first-append {ℓ} :
    {A : Type ℓ} (q : A → Bool) (xs : List A) (x : A)
    → first q xs ≡ none
    → q x ≡ true
    → first q (xs ++ x ∷ []) ≡ some x
first-append q [] x h e = rw e
first-append q (y ∷ ys) x h e = elim (Bool-cases (q y)) [
  | inl f ↦ cc (rw f at h)
  | inr f ↦ rw f (first-append q ys x (rw f at h) e)
]

-- A column datetime(3) keeps milliseconds: `kept` is what it keeps of a time. The reply to POST is made of
-- the task in memory, and that to GET of the row, whose two times are the kept ones.
abbrev pub with_kept_times : (kept : Time → Time) → Task → Task
with_kept_times kept t = record t { created_at = kept t.created_at; updated_at = kept t.updated_at }

abbrev pub with_kept : (kept : Time → Time) → Db → Db
with_kept kept db = record db { tasks = map (with_kept_times kept) db.tasks }

first-kept :
    (kept : Time → Time) (id : ℕ) (ts : List Task)
    → first (λ t. t.task_id == id && is_live_task t) (map (with_kept_times kept) ts)
      ≡ Option.map (with_kept_times kept) (first (λ t. t.task_id == id && is_live_task t) ts)
first-kept kept id [] = refl
first-kept kept id (t ∷ ts) = ground (arith, first-kept kept id ts)

find_task-kept :
    (kept : Time → Time) (db : Db) (id : ℕ)
    → find_task id (with_kept kept db) ≡ Option.map (with_kept_times kept) (find_task id db)
find_task-kept kept db id = first-kept kept id db.tasks

module _ (error_text : Error → String) (row_id : ℕ → ℕ) (format : Time → String) (dispatcher : Bool)
    (order : List CommandHostStatus) (goroutines : List Message) where
  get-found :
      (db : Db) (id : ℕ) (t : Task)
      → find_task id db ≡ some t
      → (get_task_handler error_text row_id format
          (some id)
          (quiet db dispatcher order goroutines)).0
        ≡ send_success_response (task_response row_id format t)
  unfolding get_task_handler replied task_response
  get-found db id t found =
      ap (λ r. (replied error_text 404 "Task not found: " (task_response row_id format) r).0)
        (get_task-loads db dispatcher order goroutines id t found)

module _ (error_text : Error → String) (row_id : ℕ → ℕ) (format : Time → String) (uuid : ℕ → ℕ)
    (now : Time) (db : Db) (dispatcher : Bool) (order : List CommandHostStatus)
    (goroutines : List Message) where
  abbrev created : (name description command : String) → List ℕ → ℤ → String → Db
  created name description command hosts timeout parameters =
      with_rows uuid (uuid 0) command parameters timeout now 1 hosts (record db {
        tasks = db.tasks ++ new_task (uuid 0) name description (length hosts) "admin" now ∷ [];
      })

  post-created :
      (name description : String) (host : ℕ) (hosts : List ℕ) (command : String) (timeout : ℤ)
      (parameters : String)
      → str_eq name "" ≡ false
      → str_eq command "" ≡ false
      → create_task_handler error_text row_id format uuid
          (bound (record {
            name = name;
            description = description;
            host_ids = host ∷ hosts;
            command = command;
            timeout = timeout;
            parameters = parameters;
          }))
          now
          (quiet db dispatcher order goroutines)
        ≡ (
          send_success_response (
              task_response row_id format
                (new_task (uuid 0) name description (length (host ∷ hosts)) "admin" now)),
          quiet
              (created name description command (host ∷ hosts) timeout parameters)
              dispatcher
              order
              goroutines,
        )
  unfolding create_task_handler create_checked replied
  post-created name description host hosts command timeout parameters named given = rw (
    named,
    given,
    create_task-quiet uuid name description (host ∷ hosts) command timeout parameters "admin" now db
        dispatcher order goroutines,
  )

  -- Where no statement fails, the identifier that is drawn is new, the request names a task, a command
  -- and a host, and what the columns keep of the present time is shown as the same text: POST /tasks is
  -- answered with 200, and GET of the new task from the tables that keep the times so with the same
  -- reply.
  pub create-get :
      (kept : Time → Time) (name description : String) (host : ℕ) (hosts : List ℕ)
      (command : String) (timeout : ℤ) (parameters : String)
      → str_eq name "" ≡ false
      → str_eq command "" ≡ false
      → find_task (uuid 0) db ≡ none
      → format (kept now) ≡ format now
      → let request : CreateTaskRequest = record {
        name = name;
        description = description;
        host_ids = host ∷ hosts;
        command = command;
        timeout = timeout;
        parameters = parameters;
      } in
        let posted =
          create_task_handler error_text row_id format uuid
            (bound request)
            now
            (quiet db dispatcher order goroutines) in
        let stored : Session = record posted.1 { db = with_kept kept posted.1.db } in
        (posted.0.code ≡ 200)
        × ((get_task_handler error_text row_id format (some (uuid 0)) stored).0 ≡ posted.0)
  unfolding new_task send_success_response task_response
  create-get kept name description host hosts command timeout parameters named given fresh shown =
      let task = new_task (uuid 0) name description (length (host ∷ hosts)) "admin" now in
      let after_post = created name description command (host ∷ hosts) timeout parameters in
      rw (post-created name description host hosts command timeout parameters named given) (
        refl,
        get-found error_text row_id format dispatcher order goroutines (with_kept kept after_post)
              (uuid 0) (with_kept_times kept task)
              (find_task-kept kept after_post (uuid 0)
                ∙ rw (first-append _ db.tasks task fresh (ground (arith, ==_refl (uuid 0)))))
            ∙ rw shown,
      )
