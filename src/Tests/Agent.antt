-- ===== src/Tests/Agent.antt =====
-- A command that fails on an agent, and the reply to one.
use devops_manager.Prelude.{◌≡◌, refl, pos, true, false, none, []}
use devops_manager.Models.CommandContent.{CommandContent}
use devops_manager.Db.{quiet}
use devops_manager.Dispatch.{handle_result}
use devops_manager.Agent.Tasks.{
  TaskService, CommandResult, new_task_service, execute_task, command_returns, goroutine_ends,
  with_result, with_end,
}
use devops_manager.Agent.Tasks.Outcomes.{
  Reach, IsValid, executes, returns, ends, here, next, Reach-IsValid,
}
use devops_manager.Agent.Replies.{reply, result}
use devops_manager.Agent.Replies.Silent.{statuses, handle_result-no_status}
use devops_manager.Tests.Samples.{busy}
use devops_manager.Tests.Samples as Samples

abbrev bad : CommandResult
bad = record {
  command = "false";
  stdout = "";
  stderr = "";
  exit_code = pos 1;
  duration = pos 5;
  error = "exit status 1";
}

abbrev begun : TaskService
begun = (execute_task true 11 "false" 10 new_task_service).1

abbrev over : TaskService
over = goroutine_ends 0 30 (command_returns 0 bad begun)

over-Reach : Reach over
unfolding execute_task command_returns goroutine_ends with_result with_end new_task_service
over-Reach =
    next
      (next (next here (executes true 11 "false" 10 new_task_service))
        (returns 0 bad begun _ refl refl))
      (ends 0 30 (command_returns 0 bad begun) _ refl refl)

Reach-IsValid_example : IsValid over
Reach-IsValid_example = Reach-IsValid over-Reach

abbrev order : CommandContent
order = record {
  command_id = 11;
  host_id = 6;
  command = "false";
  parameters = "";
  timeout = none;
  created_at = none;
}

handle_result-no_status_example :
    statuses (handle_result (reply order (result bad)) 50 (quiet busy false Samples.statuses [])).db
    ≡ statuses busy
handle_result-no_status_example =
    handle_result-no_status order (result bad) 50 (quiet busy false Samples.statuses [])
