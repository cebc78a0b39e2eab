-- ===== src/TaskService/Failures/Disconnect.antt =====
-- What HandleAgentDisconnection leaves in the tables, where no statement fails.
use devops_manager.Prelude.{
  ℕ, ◌≡◌, refl, Bool, false, ◌==◌, ◌&&◌, none, some, Time, List, [], ◌∷◌, select, update_where, All,
  arith, Option-cases, inl, inr, not, All-update_where, select-update_where,
}
use devops_manager.Models.CommandHost.{CommandHost, CommandHostStatus}
use devops_manager.Models.Command.{Command, CommandStatus}
use devops_manager.Models.CommandHost as Hosts
use devops_manager.Models.Command as Commands
use devops_manager.Db.{Db, Message, Error, ok, err, quiet, find_task, is_live_command}
use devops_manager.Db.Rollback.{transaction-ok}
use devops_manager.TaskService.Progress.{update_task_progress}
use devops_manager.TaskService.Progress.Follow.{followed, update_task_progress-quiet}
use devops_manager.TaskService.Failures.{
  handle_agent_disconnection, disconnect_agent, follow_tasks, distinct_tasks, is_failed,
}

abbrev followed_all : Time → List CommandHostStatus → List ℕ → Db → Db
followed_all now order [] db = db
followed_all now order (id ∷ ids) db =
    followed_all now order ids
      (elim (find_task id db) [ none ↦ db | some t ↦ followed id now order t db ])

update_task_progress-missing :
    (id : ℕ) (now : Time) (db : Db) (disp : Bool) (order : List CommandHostStatus)
    (out : List Message)
    → find_task id db ≡ none
    → update_task_progress id now (quiet db disp order out)
      ≡ (err Error.task_not_found, quiet db disp order out)
unfolding update_task_progress
update_task_progress-missing id now db disp order out missing = rw (missing, update_task_progress)

follow_tasks-quiet :
    (ids : List ℕ) (now : Time) (db : Db) (disp : Bool) (order : List CommandHostStatus)
    (out : List Message)
    → follow_tasks ids now (quiet db disp order out)
      ≡ (ok tt, quiet (followed_all now order ids db) disp order out)
unfolding follow_tasks
follow_tasks-quiet [] now db disp order out = refl
follow_tasks-quiet (id ∷ ids) now db disp order out = elim (Option-cases (find_task id db)) [
  | inl e ↦
      rw (update_task_progress-missing id now db disp order out e)
        (rw e (follow_tasks-quiet ids now db disp order out))
  | inr (t, e) ↦
      rw (update_task_progress-quiet id now db disp order out t e)
        (rw e (follow_tasks-quiet ids now (followed id now order t db) disp order out))
]

-- Only the table of tasks changes.
followed_all-rows :
    (now : Time) (order : List CommandHostStatus) (ids : List ℕ) (db : Db)
    → ((followed_all now order ids db).commands ≡ db.commands)
      × ((followed_all now order ids db).command_hosts ≡ db.command_hosts)
followed_all-rows now order [] db = (refl, refl)
followed_all-rows now order (id ∷ ids) db = elim (Option-cases (find_task id db)) [
  | inl e ↦ rw (e, followed_all) (followed_all-rows now order ids db)
  | inr (t, e) ↦ rw (e, followed_all) (followed_all-rows now order ids (followed id now order t db))
]

-- Commands and host rows of a host that are pending or running.
abbrev pub is_open_command_on : ℕ → Command → Bool
is_open_command_on host c =
    (c.host_id == host && Commands.is_unfinished c.status) && is_live_command c

abbrev pub is_open_row_on : ℕ → CommandHost → Bool
is_open_row_on host ch = ch.host_id == host && Hosts.is_unfinished ch.status

abbrev command_lost : Time → Command → Command
command_lost now c = record c {
  status = CommandStatus.failed;
  finished_at = some now;
  error_msg = "Agent disconnected";
  updated_at = now;
}

abbrev row_lost : Time → CommandHost → CommandHost
row_lost now ch = record ch {
  status = CommandHostStatus.failed;
  finished_at = some now;
  error_message = "Agent disconnected";
  updated_at = now;
}

abbrev lost_db : ℕ → Time → Db → Db
lost_db host now db = record db {
  commands = update_where (is_open_command_on host) (command_lost now) db.commands;
  command_hosts = update_where (is_open_row_on host) (row_lost now) db.command_hosts;
}

abbrev affected : ℕ → Db → List ℕ
affected host db =
    distinct_tasks []
      (select (λ c. (c.host_id == host && is_failed c.status) && is_live_command c) db.commands)

handle_agent_disconnection-quiet :
    (host : ℕ) (now : Time) (db : Db) (disp : Bool) (order : List CommandHostStatus)
    (out : List Message)
    → handle_agent_disconnection host now (quiet db disp order out) ≡ (
      ok tt,
      quiet
          (followed_all now order (affected host (lost_db host now db)) (lost_db host now db))
          disp
          order
          out,
    )
unfolding handle_agent_disconnection
handle_agent_disconnection-quiet host now db disp order out =
    transaction-ok (disconnect_agent host now) db disp order out (
      follow_tasks-quiet (affected host (lost_db host now db)) now (lost_db host now db) disp order
        out)

-- Where no statement fails, HandleAgentDisconnection succeeds; no live command and no host row of
-- the host is then pending or running, and those of other hosts are as they were.
pub handle_agent_disconnection-settles :
    (host : ℕ) (now : Time) (db : Db) (disp : Bool) (order : List CommandHostStatus)
    (out : List Message)
    → let r = handle_agent_disconnection host now (quiet db disp order out) in
      (r.0 ≡ ok tt)
      × All (λ c. is_open_command_on host c ≡ false) r.1.db.commands
      × All (λ ch. is_open_row_on host ch ≡ false) r.1.db.command_hosts
      × (select (λ c. not (c.host_id == host)) r.1.db.commands
          ≡ select (λ c. not (c.host_id == host)) db.commands)
      × (select (λ ch. not (ch.host_id == host)) r.1.db.command_hosts
          ≡ select (λ ch. not (ch.host_id == host)) db.command_hosts)
unfolding Commands.is_unfinished Hosts.is_unfinished
handle_agent_disconnection-settles host now db disp order out =
    let lost : Db = lost_db host now db in
    let rows = followed_all-rows now order (affected host lost) lost in
    rw (handle_agent_disconnection-quiet host now db disp order out, rows.0, rows.1)
      (
        refl,
        All-update_where (λ c. is_open_command_on host c ≡ false) (is_open_command_on host)
            (command_lost now) db.commands (λ c. ground arith),
        All-update_where (λ ch. is_open_row_on host ch ≡ false) (is_open_row_on host) (row_lost now)
            db.command_hosts (λ ch. ground arith),
        select-update_where (λ c. not (c.host_id == host)) (is_open_command_on host)
            (command_lost now) db.commands (λ c. refl) (λ c h. ground arith),
        select-update_where (λ ch. not (ch.host_id == host)) (is_open_row_on host) (row_lost now)
            db.command_hosts (λ ch. refl) (λ ch h. ground arith),
      )
