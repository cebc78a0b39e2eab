-- ===== src/LoadMonitor/History.antt =====
-- The history of a monitor over any sequence of calls.
use mathlib.Core.List.{append-nil, append_assoc}
use devops_manager.Prelude.{
  ℕ, suc, zero, ◌-◌, ◌≤◌, ◌≡◌, refl, ap, sym, ◌∙◌, true, false, List, [], ◌∷◌, ◌++◌, ltb, length,
  if◌then◌else◌, drop, arith, Bool-cases, inl, inr, length-append,
}
use devops_manager.LoadMonitor.{
  SystemLoadMonitor, LoadSnapshot, AlertThresholds, tail, add_to_history, update_system_load,
  check_alerts, check_alert, set_alert_thresholds, add_alert_callback, AlertType,
}

-- The calls that change a monitor.
pub data Call : Type 0 where
  round : LoadSnapshot → Call
  thresholds : AlertThresholds → Call
  callback : ℕ → Call

unfoldable pub run : Call → SystemLoadMonitor → SystemLoadMonitor
run (round s) m = update_system_load s m
run (thresholds t) m = set_alert_thresholds t m
run (callback k) m = add_alert_callback k m

unfoldable pub run_all : List Call → SystemLoadMonitor → SystemLoadMonitor
run_all [] m = m
run_all (c ∷ cs) m = run_all cs (run c m)

-- The snapshots of all rounds.
abbrev pub snapshots : List Call → List LoadSnapshot
snapshots [] = []
snapshots (round s ∷ cs) = s ∷ snapshots cs
snapshots (thresholds t ∷ cs) = snapshots cs
snapshots (callback k ∷ cs) = snapshots cs

-- The last `n` of a list.
abbrev pub last_of : ℕ → List LoadSnapshot → List LoadSnapshot
last_of n xs = drop (length xs - n) xs

tail-drop : (n : ℕ) (xs : List LoadSnapshot) → tail (drop n xs) ≡ drop (suc n) xs
tail-drop zero [] = refl
tail-drop zero (x ∷ xs) = refl
tail-drop (suc n) [] = refl
tail-drop (suc n) (x ∷ xs) = tail-drop n xs

length-drop : (k : ℕ) (xs : List LoadSnapshot) → length (drop k xs) ≡ length xs - k
length-drop zero xs = omega arith
length-drop (suc k) [] = omega arith
length-drop (suc k) (x ∷ xs) = omega (arith, length-drop k xs)

drop-append :
    (k : ℕ) (xs ys : List LoadSnapshot) → k ≤ length xs → drop k (xs ++ ys) ≡ drop k xs ++ ys
drop-append zero xs ys h = refl
drop-append (suc k) [] ys h = absurd (omega arith)
drop-append (suc k) (x ∷ xs) ys h = drop-append k xs ys (omega arith)

-- One more snapshot, and the first one dropped where there are too many.
trimmed : (n : ℕ) (xs : List LoadSnapshot) (s : LoadSnapshot) → List LoadSnapshot
trimmed n xs s = if ltb n (length (xs ++ s ∷ [])) then tail (xs ++ s ∷ []) else xs ++ s ∷ []

trimmed-last_of :
    (n : ℕ) (xs : List LoadSnapshot) (s : LoadSnapshot)
    → trimmed n (last_of n xs) s ≡ last_of n (xs ++ s ∷ [])
unfolding trimmed
trimmed-last_of n xs s = elim (Bool-cases (ltb (length xs) n)) [
  | inl e ↦
      let whole : length xs - n ≡ 0 = ground (arith, e) in
      let still : length (xs ++ s ∷ []) - n ≡ 0 = ground (arith, e, length-append xs (s ∷ [])) in
      let fits : ltb n (length (xs ++ s ∷ [])) ≡ false =
        ground (arith, e, length-append xs (s ∷ [])) in
      rw (whole, still, fits)
  | inr e ↦
      let k = length xs - n in
      let next : length (xs ++ s ∷ []) - n ≡ suc k = ground (arith, e, length-append xs (s ∷ [])) in
      let over : ltb n (length (drop k xs ++ s ∷ [])) ≡ true =
        ground (arith, e, length-append (drop k xs) (s ∷ []), length-drop k xs) in
      rw (next, over, ← (drop-append k xs (s ∷ []) (omega arith))) (tail-drop k (xs ++ s ∷ []))
]

drop_nil : (k : ℕ) → drop {A = LoadSnapshot} k [] ≡ []
drop_nil zero = refl
drop_nil (suc k) = refl

-- What a call keeps of the history and its size.
abbrev SameHistory : SystemLoadMonitor → SystemLoadMonitor → Type 0
SameHistory m k = (m.load_history ≡ k.load_history) × (m.max_history_size ≡ k.max_history_size)

check_alert-SameHistory :
    (kind : AlertType) (value warning_at critical_at : ℕ) (m : SystemLoadMonitor)
    → SameHistory (check_alert kind value warning_at critical_at m) m
unfolding check_alert
check_alert-SameHistory kind value warning_at critical_at m = ground arith

check_alerts-SameHistory : (m : SystemLoadMonitor) → SameHistory (check_alerts m) m
unfolding check_alerts
check_alerts-SameHistory m =
    let c = m.current in
    let t = m.alert_thresholds in
    let first = check_alert AlertType.cpu c.cpu_usage t.cpu_warning t.cpu_critical m in
    let second =
      check_alert AlertType.memory c.memory_usage t.memory_warning t.memory_critical first in
    ground (
      arith,
      check_alert-SameHistory AlertType.cpu c.cpu_usage t.cpu_warning t.cpu_critical m,
      check_alert-SameHistory AlertType.memory c.memory_usage t.memory_warning t.memory_critical
          first,
      check_alert-SameHistory AlertType.load c.system_load t.load_warning t.load_critical second,
    )

round-history :
    (s : LoadSnapshot) (m : SystemLoadMonitor)
    → ((update_system_load s m).load_history ≡ trimmed m.max_history_size m.load_history s)
      × ((update_system_load s m).max_history_size ≡ m.max_history_size)
unfolding update_system_load add_to_history trimmed
round-history s m = check_alerts-SameHistory (add_to_history s (record m { current = s }))

run_all-continues :
    (cs : List Call) (n : ℕ) (before : List LoadSnapshot) (m : SystemLoadMonitor)
    → m.max_history_size ≡ n
    → m.load_history ≡ last_of n before
    → (run_all cs m).load_history ≡ last_of n (before ++ snapshots cs)
unfolding run_all run set_alert_thresholds add_alert_callback
run_all-continues [] n before m e h = h ∙ ap (last_of n) (sym (append-nil before))
run_all-continues (round s ∷ cs) n before m e h =
    let (history, size) = round-history s m in
    let next : (update_system_load s m).load_history ≡ last_of n (before ++ s ∷ []) =
      history
      ∙ ap (λ k. trimmed k m.load_history s) e
      ∙ ap (λ xs. trimmed n xs s) h
      ∙ trimmed-last_of n before s in
    run_all-continues cs n (before ++ s ∷ []) (update_system_load s m) (size ∙ e) next
    ∙ ap (last_of n) (append_assoc before (s ∷ []) (snapshots cs))
run_all-continues (thresholds t ∷ cs) n before m e h =
    run_all-continues cs n before (set_alert_thresholds t m) e h
run_all-continues (callback k ∷ cs) n before m e h =
    run_all-continues cs n before (add_alert_callback k m) e h

-- After any sequence of calls, the history of a monitor that started without one is the snapshots of
-- the last rounds in their order, and it is not longer than its size.
pub run_all-history :
    (cs : List Call) (m : SystemLoadMonitor)
    → m.load_history ≡ []
    → ((run_all cs m).load_history ≡ last_of m.max_history_size (snapshots cs))
      × (length (run_all cs m).load_history ≤ m.max_history_size)
run_all-history cs m h =
    let e =
      run_all-continues cs m.max_history_size [] m refl (h ∙ sym (nothing m.max_history_size)) in
    (
      e,
      rw e (omega (arith, length-drop (length (snapshots cs) - m.max_history_size) (snapshots cs))),
    )
  where
    nothing : (n : ℕ) → last_of n [] ≡ []
    nothing n = drop_nil (0 - n)
