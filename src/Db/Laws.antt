-- ===== src/Db/Laws.antt =====
-- How the statements' conditions and updates act together.
use devops_manager.Prelude.{
  ℕ, ◌≡◌, ap, Bool, ◌&&◌, ◌==◌, some, List, update_where, first-update_where, first-holds,
  map-select-update_where,
}
use devops_manager.Models.Command.{Command}
use devops_manager.Models.Task.{Task}
use devops_manager.Db.Effects.{Db}
use devops_manager.Db.Statements.{find_task, update_task, is_live_task, command_ids_of, has_id}

pub find_task-update :
    (id : ℕ) (f : Task → Task) (db : Db) (t : Task)
    → ((u : Task) → (f u).task_id ≡ u.task_id)
    → ((u : Task) → (f u).deleted_at ≡ u.deleted_at)
    → find_task id db ≡ some t
    → find_task id (update_task id f db) ≡ some (f t)
find_task-update id f db t same_id same_mark found = rw (
  first-update_where (λ u. u.task_id == id && is_live_task u)
      (λ u. u.task_id == id && is_live_task u) f db.tasks (λ u. rw (same_id u, same_mark u)),
  found,
  first-holds (λ u. u.task_id == id && is_live_task u) t db.tasks found,
)

-- The sub-select on commands is not changed by an update that keeps the commands' identifiers.
pub command_ids_of-update :
    (id : ℕ) (p : Command → Bool) (f : Command → Command) (cs : List Command)
    → ((c : Command) → (f c).command_id ≡ c.command_id)
    → ((c : Command) → (f c).task_id ≡ c.task_id)
    → command_ids_of id (update_where p f cs) ≡ command_ids_of id cs
command_ids_of-update id p f cs same_id same_task =
    map-select-update_where (λ c. c.command_id) (λ c. has_id id c.task_id) p f cs same_id
      (λ c. ap (has_id id) (same_task c))
