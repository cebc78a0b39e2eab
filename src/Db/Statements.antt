-- ===== src/Db/Statements.antt =====
-- The conditions and updates that the statements of server/pkg/service are made of.
use devops_manager.Prelude.{
  ℕ, Bool, true, false, List, Option, none, some, map, ◌&&◌, ◌==◌, select, first, update_where,
  elem,
}
use devops_manager.Models.CommandHost.{CommandHost}
use devops_manager.Models.Command.{Command}
use devops_manager.Models.Task.{Task}
use devops_manager.Db.Effects.{Db}

abbrev pub is_none {ℓ} : {A : Type ℓ} → Option A → Bool
is_none none = true
is_none (some a) = false

-- `task_id = ?`, where NULL is equal to nothing.
abbrev pub has_id : ℕ → Option ℕ → Bool
has_id id none = false
has_id id (some t) = t == id

abbrev pub is_live_task : Task → Bool
is_live_task t = is_none t.deleted_at

abbrev pub is_live_command : Command → Bool
is_live_command c = is_none c.deleted_at

-- `SELECT command_id FROM commands WHERE task_id = ?`
abbrev pub command_ids_of : ℕ → List Command → List ℕ
command_ids_of task_id cs = map (λ c. c.command_id) (select (λ c. has_id task_id c.task_id) cs)

-- `command_id IN (SELECT command_id FROM commands WHERE task_id = ?)`
abbrev pub belongs_to : ℕ → List Command → CommandHost → Bool
belongs_to task_id cs ch = elem ch.command_id (command_ids_of task_id cs)

-- The live task of an identifier, and its update.
abbrev pub find_task : ℕ → Db → Option Task
find_task id db = first (λ t. t.task_id == id && is_live_task t) db.tasks

abbrev pub update_task : ℕ → (Task → Task) → Db → Db
update_task id f db = record db {
  tasks = update_where (λ t. t.task_id == id && is_live_task t) f db.tasks;
}

abbrev pub find_command : ℕ → Db → Option Command
find_command id db = first (λ c. c.command_id == id && is_live_command c) db.commands

abbrev pub update_commands : (Command → Bool) → (Command → Command) → Db → Db
update_commands p f db = record db {
  commands = update_where (λ c. p c && is_live_command c) f db.commands;
}

abbrev pub update_hosts : (CommandHost → Bool) → (CommandHost → CommandHost) → Db → Db
update_hosts p f db = record db { command_hosts = update_where p f db.command_hosts }

-- The live commands of a task.
abbrev pub commands_of : ℕ → Db → List Command
commands_of task_id db = select (λ c. has_id task_id c.task_id && is_live_command c) db.commands
