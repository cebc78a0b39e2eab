-- ===== src/TaskService/Status/Details.antt =====
-- GetTaskProgress and getHostProgressDetails. `cut n` gives the first n bytes of a text, which may end
-- inside a character; a length counts bytes. The goroutine that caches the answer is
-- cache_task_progress of TaskCache.Store.
use Prim.Native.String.{◌++◌, len}
use devops_manager.Prelude.{
  ℕ, ℤ, String, Option, none, some, Time, List, select, map, ltb, if◌then◌else◌,
}
use devops_manager.Models.CommandHost.{CommandHost, CommandHostStatus}
use devops_manager.Db.{Action, Result, Session, read, return, ◌>>=◌, statement, belongs_to, ok, err}
use devops_manager.TaskCache as Cache
use devops_manager.TaskCache.{Redis}
use devops_manager.TaskCache.Store.{get_cached_task_progress}
use devops_manager.TaskService.Status.{StatusAnswer, Percent, get_task_status, running_time}

-- The first bytes of an output, and the length of the whole; none for an output that is empty.
pub record Preview : Type 0 where
  pub text : String
  pub length : ℕ

-- One entry of the list `hostDetails`. A duration is in nanoseconds.
pub record HostDetail : Type 0 where
  pub host_id : ℕ
  pub command_id : ℕ
  pub status : CommandHostStatus
  pub exit_code : ℤ
  pub started_at : Option Time
  pub finished_at : Option Time
  pub execution_time : Option ℤ
  pub error_message : String
  pub created_at : Time
  pub updated_at : Time
  pub duration_seconds : Option ℤ
  pub stdout : Option Preview
  pub stderr : Option Preview

pub record Progress : Type 0 where
  pub task_id : ℕ
  pub progress : Percent
  pub status : StatusAnswer
  pub host_details : List HostDetail

module _ (cut : ℕ → String → String) where
  unfoldable pub preview : String → Option Preview
  preview s =
      if ltb 0 (len s)
      then some
          (record { text = (if ltb 500 (len s) then cut 500 s ++ "..." else s); length = len s })
      else none

  unfoldable pub host_detail : Time → CommandHost → HostDetail
  unfolding running_time preview
  host_detail now ch = record {
    host_id = ch.host_id;
    command_id = ch.command_id;
    status = ch.status;
    exit_code = ch.exit_code;
    started_at = ch.started_at;
    finished_at = ch.finished_at;
    execution_time = ch.execution_time;
    error_message = ch.error_message;
    created_at = ch.created_at;
    updated_at = ch.updated_at;
    duration_seconds = running_time ch.started_at ch.finished_at now;
    stdout = preview ch.stdout;
    stderr = preview ch.stderr;
  }

  module _ (oldest_first : List CommandHost → List CommandHost) where
    unfoldable pub get_host_progress_details : ℕ → Time → Action (List HostDetail)
    unfolding statement host_detail
    get_host_progress_details id now = do
      rows ← read (λ db. oldest_first (select (belongs_to id db.commands) db.command_hosts))
      return (map (host_detail now) rows)

    abbrev pub with_details :
        {Text : Type 0}
        → ℕ
        → Time
        → (Result StatusAnswer × Session) × Redis Text
        → (Result Progress × Session) × Redis Text
    with_details id now ((err e, s), r) = ((err e, s), r)
    with_details id now ((ok a, s), r) = (
      (do
        details ← get_host_progress_details id now
        return (record { task_id = id; progress = a.progress; status = a; host_details = details }))
          s,
      r,
    )

    module _ {Text : Type 0} (unmarshal_progress : Text → Option Progress)
        (unmarshal_status : Text → Option StatusAnswer) where
      abbrev pub or_computed :
          Cache.Result (Option Progress) × Redis Text
          → ℕ
          → Time
          → Session
          → (Result Progress × Session) × Redis Text
      or_computed (Cache.ok (some p), r) id now s = ((ok p, s), r)
      or_computed (Cache.ok none, r) id now s =
          with_details id now (get_task_status unmarshal_status id now r s)
      or_computed (Cache.err e, r) id now s =
          with_details id now (get_task_status unmarshal_status id now r s)

      unfoldable pub get_task_progress :
          ℕ → Time → Redis Text → Session → (Result Progress × Session) × Redis Text
      unfolding get_cached_task_progress get_host_progress_details get_task_status
      get_task_progress id now r s =
          or_computed (get_cached_task_progress unmarshal_progress id now r) id now s
