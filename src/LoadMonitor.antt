-- ===== src/LoadMonitor.antt =====
-- SystemLoadMonitor of server/pkg/service/system_load_monitor.go. The usages and the load, which the
-- source computes with floats from the memory and the number of goroutines, are only compared and
-- stored here: they are numbers in some unit, and a `Measure` is what one round computes. Sums and
-- averages of them are left out.
pub mod History
pub mod Extremes
use devops_manager.Prelude.{
  ℕ, ◌+◌, ◌-◌, ◌*◌, Bool, true, false, not, Option, none, some, Time, List, [], ◌∷◌, ◌++◌, map, leb,
  ltb, if◌then◌else◌, length, select,
}

pub record LoadSnapshot : Type 0 where
  pub timestamp : Time
  pub cpu_usage : ℕ
  pub memory_usage : ℕ
  pub goroutine_count : ℕ
  pub system_load : ℕ

pub record AlertThresholds : Type 0 where
  pub cpu_warning : ℕ
  pub cpu_critical : ℕ
  pub memory_warning : ℕ
  pub memory_critical : ℕ
  pub load_warning : ℕ
  pub load_critical : ℕ

pub data AlertType : Type 0 where
  cpu memory load : AlertType

pub data Level : Type 0 where
  warning critical : Level

pub record Alert : Type 0 where
  pub alert_type : AlertType
  pub level : Level
  pub value : ℕ
  pub threshold : ℕ

-- `current` holds the fields that a round sets. A callback stands as a number; `called` are the calls
-- in goroutines.
pub record SystemLoadMonitor : Type 0 where
  pub current : LoadSnapshot
  pub load_history : List LoadSnapshot
  pub max_history_size : ℕ
  pub alert_thresholds : AlertThresholds
  pub alert_callbacks : List ℕ
  pub called : List (ℕ × Alert)

-- `loadHistory[1:]`
abbrev pub tail {ℓ} : {A : Type ℓ} → List A → List A
tail [] = []
tail (x ∷ xs) = xs

unfoldable pub add_to_history : LoadSnapshot → SystemLoadMonitor → SystemLoadMonitor
add_to_history snapshot m =
    let longer = m.load_history ++ snapshot ∷ [] in
    record m {
      load_history = (if ltb m.max_history_size (length longer) then tail longer else longer);
    }

unfoldable pub trigger_alert : Alert → SystemLoadMonitor → SystemLoadMonitor
trigger_alert a m = record m { called = m.called ++ map (λ k. (k, a)) m.alert_callbacks }

-- One of the three tests of checkAlerts.
unfoldable pub check_alert :
    AlertType → (value warning_at critical_at : ℕ) → SystemLoadMonitor → SystemLoadMonitor
unfolding trigger_alert
check_alert kind value warning_at critical_at m =
    if leb critical_at value
    then trigger_alert
        (record {
          alert_type = kind;
          level = Level.critical;
          value = value;
          threshold = critical_at;
        })
        m
    else if leb warning_at value
    then trigger_alert
        (record { alert_type = kind; level = Level.warning; value = value; threshold = warning_at })
        m
    else m

unfoldable pub check_alerts : SystemLoadMonitor → SystemLoadMonitor
unfolding check_alert
check_alerts m =
    let c = m.current in
    let t = m.alert_thresholds in
    check_alert AlertType.load c.system_load t.load_warning t.load_critical (
      check_alert AlertType.memory c.memory_usage t.memory_warning t.memory_critical
        (check_alert AlertType.cpu c.cpu_usage t.cpu_warning t.cpu_critical m))

-- A round, given the snapshot that it computes.
unfoldable pub update_system_load : LoadSnapshot → SystemLoadMonitor → SystemLoadMonitor
unfolding add_to_history check_alerts
update_system_load snapshot m =
    check_alerts (add_to_history snapshot (record m { current = snapshot }))

-- `cutoff` is the time before now by the duration.
unfoldable pub get_load_history : (cutoff : Time) → SystemLoadMonitor → List LoadSnapshot
get_load_history cutoff m = select (λ s. ltb cutoff s.timestamp) m.load_history

pub record Range : Type 0 where
  pub max : ℕ
  pub min : ℕ

unfoldable pub widen : ℕ → Range → Range
widen v r = record {
  max = (if ltb r.max v then v else r.max);
  min = (if ltb v r.min then v else r.min);
}

-- What the statistics hold beside the sums.
pub record LoadStatistics : Type 0 where
  pub sample_count : ℕ
  pub cpu_range : Range
  pub memory_range : Range
  pub load_range : Range
  pub goroutine_range : Range
  pub current : LoadSnapshot

abbrev pub at_value : ℕ → Range
at_value v = record { max = v; min = v }

-- The loop over the samples after the first; that of the goroutines starts with a maximum of 0.
unfoldable pub range_of : (LoadSnapshot → ℕ) → List LoadSnapshot → Range → Range
unfolding widen
range_of f [] r = r
range_of f (s ∷ ss) r = range_of f ss (widen (f s) r)

unfoldable pub statistics_of : List LoadSnapshot → LoadSnapshot → Option LoadStatistics
unfolding range_of
statistics_of [] current = none
statistics_of (s ∷ ss) current = some (record {
  sample_count = length (s ∷ ss);
  cpu_range = range_of (λ x. x.cpu_usage) ss (at_value s.cpu_usage);
  memory_range = range_of (λ x. x.memory_usage) ss (at_value s.memory_usage);
  load_range = range_of (λ x. x.system_load) ss (at_value s.system_load);
  goroutine_range =
      range_of (λ x. x.goroutine_count) (s ∷ ss) (record { max = 0; min = s.goroutine_count });
  current = current;
})

-- `none` is the map with the error that there is no data.
unfoldable pub get_load_statistics : (cutoff : Time) → SystemLoadMonitor → Option LoadStatistics
unfolding get_load_history statistics_of
get_load_statistics cutoff m = statistics_of (get_load_history cutoff m) m.current

unfoldable pub set_alert_thresholds : AlertThresholds → SystemLoadMonitor → SystemLoadMonitor
set_alert_thresholds t m = record m { alert_thresholds = t }

unfoldable pub add_alert_callback : ℕ → SystemLoadMonitor → SystemLoadMonitor
add_alert_callback k m = record m { alert_callbacks = m.alert_callbacks ++ k ∷ [] }

unfoldable pub is_system_overloaded : SystemLoadMonitor → Bool
is_system_overloaded m = leb m.alert_thresholds.load_warning m.current.system_load

pub data Health : Type 0 where
  healthy in_warning in_danger : Health

-- The status of GetSystemHealth.
unfoldable pub get_system_health : SystemLoadMonitor → Health
get_system_health m =
    if leb m.alert_thresholds.load_critical m.current.system_load
    then Health.in_danger
    else if leb m.alert_thresholds.load_warning m.current.system_load
    then Health.in_warning
    else Health.healthy
