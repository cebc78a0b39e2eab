-- ===== src/TaskService/Hosts/Totals.antt =====
-- What RemoveTaskHost does to the number of hosts that a task is said to have.
use devops_manager.Prelude.{
  ℕ, ◌+◌, ◌-◌, ◌≡◌, refl, ap, ◌∙◌, Bool, false, not, ◌&&◌, ◌==◌, some, Time, List, [], ◌∷◌, select,
  update_where, count_where, arith, elem,
}
use devops_manager.Models.CommandHost.{CommandHost, CommandHostStatus}
use devops_manager.Models.Command.{Command}
use devops_manager.Models.Task.{Task, TaskStatus}
use devops_manager.Models.Task as Tasks
use devops_manager.Db.{
  Db, Message, ok, quiet, find_task, belongs_to, has_id, is_live_command, is_live_task,
}
use devops_manager.Db.Laws.{find_task-update, command_ids_of-update}
use devops_manager.TaskService.Hosts.{remove_task_host}

abbrev one_less : Time → Task → Task
one_less now t = record t { total_hosts = t.total_hosts - 1; updated_at = now }

abbrev is_command_on : (id host : ℕ) → Command → Bool
is_command_on id host c = (c.host_id == host && has_id id c.task_id) && is_live_command c

abbrev removed_db : (id host : ℕ) → Time → Db → Db
removed_db id host now db = record db {
  tasks = update_where (λ t. t.task_id == id && is_live_task t) (one_less now) db.tasks;
  commands =
      update_where (is_command_on id host) (λ c. record c { deleted_at = some now }) db.commands;
  command_hosts =
      select (λ ch. not (ch.host_id == host && belongs_to id db.commands ch)) db.command_hosts;
}

remove_task_host-quiet :
    (id host : ℕ) (now : Time) (db : Db) (disp : Bool) (order : List CommandHostStatus)
    (out : List Message) (t : Task)
    → find_task id db ≡ some t
    → Tasks.is_running t.status ≡ false
    → remove_task_host id host now (quiet db disp order out)
      ≡ (ok tt, quiet (removed_db id host now db) disp order out)
unfolding remove_task_host
remove_task_host-quiet id host now db disp order out t found idle =
    rw (found, remove_task_host) (rw idle)

-- The host rows of a task, and those of them on one host.
abbrev pub rows_of : ℕ → Db → ℕ
rows_of id db = count_where (belongs_to id db.commands) db.command_hosts

abbrev pub rows_on : (id host : ℕ) → Db → ℕ
rows_on id host db =
    count_where (λ ch. ch.host_id == host && belongs_to id db.commands ch) db.command_hosts

count-removed :
    (p q : CommandHost → Bool) (chs : List CommandHost)
    → count_where p (select (λ ch. not (q ch && p ch)) chs) + count_where (λ ch. q ch && p ch) chs
      ≡ count_where p chs
count-removed p q [] = refl
count-removed p q (ch ∷ chs) = ground (arith, count-removed p q chs)

-- Where no statement fails, RemoveTaskHost on a task that does not run takes away all rows of the
-- task on the host, but always one from the total, down to zero. So the total stays the number of
-- the task's rows if the host had one row, and else does not.
pub remove_task_host-totals :
    (id host : ℕ) (now : Time) (db : Db) (disp : Bool) (order : List CommandHostStatus)
    (out : List Message) (t : Task)
    → find_task id db ≡ some t
    → Tasks.is_running t.status ≡ false
    → let r = remove_task_host id host now (quiet db disp order out) in
      (r.0 ≡ ok tt)
      × (find_task id r.1.db
          ≡ some (record t { total_hosts = t.total_hosts - 1; updated_at = now }))
      × (rows_of id r.1.db + rows_on id host db ≡ rows_of id db)
remove_task_host-totals id host now db disp order out t found idle =
    rw (remove_task_host-quiet id host now db disp order out t found idle) (
      refl,
      find_task-update id (one_less now) db t (λ u. refl) (λ u. refl) found,
      ap
            (λ ids.
              count_where (λ (ch : CommandHost). elem ch.command_id ids)
                (select (λ ch. not (ch.host_id == host && belongs_to id db.commands ch))
                  db.command_hosts)
              + rows_on id host db)
            (command_ids_of-update id (is_command_on id host)
              (λ c. record c { deleted_at = some now }) db.commands (λ c. refl) (λ c. refl))
          ∙ count-removed (belongs_to id db.commands) (λ ch. ch.host_id == host) db.command_hosts,
    )
