-- ===== src/Tests/Monitor.antt =====
-- A monitor that keeps two snapshots.
use devops_manager.Prelude.{ℕ, ◌+◌, ◌≡◌, ◌≤◌, refl, List, [], ◌∷◌, length}
use devops_manager.LoadMonitor.{
  SystemLoadMonitor, LoadSnapshot, get_load_history, get_load_statistics,
}
use devops_manager.LoadMonitor.History.{Call, round, callback, run_all, run_all-history}
use devops_manager.LoadMonitor.Extremes.{IsExact, get_load_statistics-IsExact}

abbrev sample : ℕ → ℕ → LoadSnapshot
sample time usage = record {
  timestamp = time;
  cpu_usage = usage;
  memory_usage = usage + 5;
  goroutine_count = 20;
  system_load = usage;
}

abbrev monitor : SystemLoadMonitor
monitor = record {
  current = sample 0 0;
  load_history = [];
  max_history_size = 2;
  alert_thresholds = record {
    cpu_warning = 70;
    cpu_critical = 90;
    memory_warning = 80;
    memory_critical = 95;
    load_warning = 75;
    load_critical = 90;
  };
  alert_callbacks = [];
  called = [];
}

abbrev calls : List Call
calls = round (sample 1 10) ∷ callback 4 ∷ round (sample 2 92) ∷ round (sample 3 30) ∷ []

run_all-history_example :
    ((run_all calls monitor).load_history ≡ sample 2 92 ∷ sample 3 30 ∷ [])
    × (length (run_all calls monitor).load_history ≤ 2)
run_all-history_example = run_all-history calls monitor refl

get_load_statistics-IsExact_example :
    IsExact
      (get_load_history 1 (run_all calls monitor))
      (get_load_statistics 1 (run_all calls monitor))
get_load_statistics-IsExact_example = get_load_statistics-IsExact 1 (run_all calls monitor)
