-- ===== src/Tests/Service.antt =====
-- The operations of TaskService on the sample tables.
use devops_manager.Prelude.{◌+◌, pos, refl, ◌≡◌, true, false, none, some, [], ◌∷◌, count_where}
use devops_manager.Models.Command.{CommandStatus}
use devops_manager.Models.Task.{TaskStatus}
use devops_manager.Models.Task as Tasks
use devops_manager.Db.{
  Message, Error, ok, quiet, find_task, belongs_to, statement, rollback, transaction, go_send,
}
use devops_manager.TaskService.Lifecycle.{
  create_task, start_task, start_task_body, send_commands, cancel_task, delete_task,
}
use devops_manager.TaskService.Lifecycle.Create.{create_task-total}
use devops_manager.TaskService.Lifecycle.Start.{start_task-spawns, session}
use devops_manager.TaskService.Lifecycle.Cancel.{cancel_task-settles}
use devops_manager.TaskService.Lifecycle.Delete.{delete_task-removes}
use devops_manager.TaskService.Failures.{handle_agent_disconnection}
use devops_manager.TaskService.Failures.Disconnect.{handle_agent_disconnection-settles}
use devops_manager.TaskService.Atomic.{start, run_call, run_call-IsAtomic}
use devops_manager.Tests.Samples.{task, command, waiting, busy}

create_task-total_example :
    count_where
      (λ ch.
        belongs_to 20
          (create_task
            (λ i. i + 20)
            "update"
            ""
            (5 ∷ 6 ∷ [])
            "uptime"
            (pos 30)
            ""
            "admin"
            7
            (quiet busy true [] [])).1.db.commands
          ch)
      (create_task
        (λ i. i + 20)
        "update"
        ""
        (5 ∷ 6 ∷ [])
        "uptime"
        (pos 30)
        ""
        "admin"
        7
        (quiet busy true [] [])).1.db.command_hosts
    ≡ 2
create_task-total_example =
    (create_task-total (λ i. i + 20) "update" "" (5 ∷ 6 ∷ []) "uptime" (pos 30) "" "admin" 7 busy
      true [] [] refl (refl, (refl, tt))).2

start_task-spawns_example :
    (start_task 1 7 (quiet waiting true [] [])).1.goroutines
    ≡ Message.run (command 10 1 5 CommandStatus.pending)
      ∷ Message.run (command 11 1 6 CommandStatus.pending)
      ∷ []
start_task-spawns_example =
    (start_task-spawns 1 7 waiting [] [] (task 1 TaskStatus.pending 2) refl refl).3

cancel_task-settles_example :
    find_task 1 (cancel_task 1 50 (quiet busy true [] [])).1.db
    ≡ some (record (task 1 TaskStatus.running 2) {
      status = TaskStatus.canceled;
      finished_at = some 50;
      updated_at = 50;
    })
unfolding Tasks.is_completed
cancel_task-settles_example =
    (cancel_task-settles 1 50 busy true [] [] (task 1 TaskStatus.running 2) refl refl).1

delete_task-removes_example : find_task 1 (delete_task 1 50 (quiet waiting true [] [])).1.db ≡ none
unfolding Tasks.is_running
delete_task-removes_example =
    (delete_task-removes 1 50 waiting true [] [] (task 1 TaskStatus.pending 2) refl refl).1

handle_agent_disconnection-settles_example :
    (handle_agent_disconnection 6 50 (quiet busy true [] [])).0 ≡ ok tt
handle_agent_disconnection-settles_example =
    (handle_agent_disconnection-settles 6 50 busy true [] []).0

run_call-IsAtomic_example :
    (run_call (start 1) 7 (
      session waiting
        (false ∷ false ∷ false ∷ false ∷ false ∷ false ∷ false ∷ false ∷ true ∷ [])
        []
        [])).1.db
    ≡ waiting
unfolding run_call start_task start_task_body send_commands transaction statement rollback go_send
    Tasks.is_pending
run_call-IsAtomic_example =
    run_call-IsAtomic (start 1) 7
      (session waiting (false ∷ false ∷ false ∷ false ∷ false ∷ false ∷ false ∷ false ∷ true ∷ [])
        [] [])
      Error.db_error refl
