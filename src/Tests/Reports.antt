-- ===== src/Tests/Reports.antt =====
-- Reports of agents, and the verdict on a task.
use devops_manager.Prelude.{pos, refl, ◌≡◌, true, some, List, [], ◌∷◌, arith}
use devops_manager.Models.CommandHost.{CommandHost, CommandHostStatus}
use devops_manager.Models.CommandHost as Hosts
use devops_manager.Models.Command.{CommandStatus}
use devops_manager.Models.Task.{TaskStatus}
use devops_manager.Db.{quiet, find_task, ok, statement, rollback, transaction}
use devops_manager.TaskService.Tally.{count_statuses, same}
use devops_manager.TaskService.Tally.Laws.{IsGroupOrder, FailsOnlyBy}
use devops_manager.TaskService.Progress.{verdict, finished, update_task_progress}
use devops_manager.TaskService.Progress.Outcome.{verdict-finished}
use devops_manager.TaskService.Results.{
  handle_command_result, record_result, store_result, with_execution_time,
}
use devops_manager.TaskService.Results.Reported.{
  handle_command_result-outcome, handle_command_result-last_host,
}
use devops_manager.TimeoutMonitor.{is_command_timeout, handle_single_timeout_command}
use devops_manager.TimeoutMonitor.Settled.{handle_single_timeout_command-settles}
use devops_manager.TimeoutMonitor.Decision.{is_command_timeout-exact}
use devops_manager.Tests.Samples.{task, command, row, report, busy, statuses}

statuses-IsGroupOrder : IsGroupOrder statuses
unfolding same
statuses-IsGroupOrder CommandHostStatus.pending = refl
statuses-IsGroupOrder CommandHostStatus.running = refl
statuses-IsGroupOrder CommandHostStatus.failed = refl
statuses-IsGroupOrder CommandHostStatus.exec_failed = refl
statuses-IsGroupOrder CommandHostStatus.timeout = refl
statuses-IsGroupOrder CommandHostStatus.canceled = refl
statuses-IsGroupOrder CommandHostStatus.completed = refl

-- One host is through, and one has failed.
abbrev one_failed : List CommandHost
one_failed = row 10 5 CommandHostStatus.completed ∷ row 11 6 CommandHostStatus.exec_failed ∷ []

one_failed-FailsOnlyBy : FailsOnlyBy one_failed CommandHostStatus.exec_failed
unfolding same
one_failed-FailsOnlyBy = (refl, λ j. ground arith)

-- One host could not be reached, and one ran out of time.
abbrev two_failed : List CommandHost
two_failed = row 10 5 CommandHostStatus.failed ∷ row 11 6 CommandHostStatus.timeout ∷ []

verdict-finished_example :
    verdict (count_statuses statuses one_failed) 2 ≡ finished TaskStatus.failed
unfolding Hosts.is_unfinished same
verdict-finished_example =
    verdict-finished statuses one_failed statuses-IsGroupOrder CommandHostStatus.exec_failed
      one_failed-FailsOnlyBy

handle_command_result-outcome_example :
    (handle_command_result (report 11 6 (pos 0)) 50 (quiet busy true statuses [])).0 ≡ ok tt
handle_command_result-outcome_example =
    (handle_command_result-outcome (report 11 6 (pos 0)) 50 40 busy true statuses []
      (command 11 1 6 CommandStatus.running) 1 (task 1 TaskStatus.running 2) refl refl refl refl).0

handle_command_result-last_host_example :
    find_task 1 (handle_command_result (report 11 6 (pos 7)) 50 (quiet busy true statuses [])).1.db
    ≡ some (record (task 1 TaskStatus.running 2) {
      completed_hosts = 1;
      failed_hosts = 1;
      updated_at = 50;
      status = TaskStatus.failed;
      finished_at = some 50;
    })
unfolding handle_command_result record_result store_result with_execution_time update_task_progress
    count_statuses transaction statement rollback same Hosts.is_unfinished
handle_command_result-last_host_example =
    handle_command_result-last_host (report 11 6 (pos 7)) 50 busy true statuses []
      (command 11 1 6 CommandStatus.running) 1 (task 1 TaskStatus.running 2)
      CommandHostStatus.exec_failed refl refl refl statuses-IsGroupOrder refl refl
      (refl, λ j. ground arith)

is_command_timeout-exact_example :
    is_command_timeout (command 10 1 5 CommandStatus.running) 30000000003 ≡ true
is_command_timeout-exact_example =
    is_command_timeout-exact (command 10 1 5 CommandStatus.running) 30 2 30000000003 refl refl
      (omega arith) (omega arith) (omega arith)

handle_single_timeout_command-settles_example :
    (handle_single_timeout_command
      (command 11 1 6 CommandStatus.running)
      50
      (quiet busy true statuses [])).0
    ≡ ok tt
handle_single_timeout_command-settles_example =
    (handle_single_timeout_command-settles (command 11 1 6 CommandStatus.running) 50 busy true
      statuses [] 1 (task 1 TaskStatus.running 2) refl refl).0
