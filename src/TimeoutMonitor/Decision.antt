-- ===== src/TimeoutMonitor/Decision.antt =====
-- When a command counts as timed out.
use devops_manager.Prelude.{
  ℕ, ◌+◌, ◌*◌, ◌≤◌, ◌<◌, ◌≡◌, pos, some, to_int64_small, max_int64, ltb, arith,
}
use devops_manager.Models.Command.{Command}
use devops_manager.TimeoutMonitor.{is_command_timeout}

module _ (c : Command) (seconds started now : ℕ) where
  -- For a timeout whose nanoseconds fit an int64, and a time since the start that fits too, a
  -- command with a positive timeout counts as timed out exactly when it runs longer than that.
  pub is_command_timeout-exact :
      c.timeout ≡ pos seconds
      → c.started_at ≡ some started
      → 0 < seconds
      → seconds * 1000000000 ≤ max_int64
      → now ≤ started + max_int64
      → is_command_timeout c now ≡ ltb (started + seconds * 1000000000) now
  unfolding is_command_timeout
  is_command_timeout-exact ht hs h fits near = ground (arith, to_int64_small (seconds * 1000000000))
