-- ===== src/LoadMonitor/Extremes.antt =====
-- The extremes that GetLoadStatistics reports.
use devops_manager.Prelude.{
  ℕ, ◌≤◌, ◌≡◌, refl, sym, ap, subst, ◌∙◌, ◌⊎◌, inl, inr, true, false, none, some, Option, Time,
  List, [], ◌∷◌, All, ltb, length, if◌then◌else◌, arith, Bool-cases,
}
use devops_manager.LoadMonitor.{
  LoadSnapshot, LoadStatistics, Range, widen, range_of, at_value, statistics_of, SystemLoadMonitor,
  get_load_history, get_load_statistics,
}

-- A range holds a value, and its ends are values of the list or the range before.
abbrev Covers : Range → ℕ → Type 0
Covers r v = (r.min ≤ v) × (v ≤ r.max)

abbrev Extends : Range → Range → Type 0
Extends r before = (r.min ≤ before.min) × (before.max ≤ r.max)

widen-Covers :
    (v : ℕ) (r : Range)
    → r.min ≤ r.max
    → Covers (widen v r) v × Extends (widen v r) r × ((widen v r).min ≤ (widen v r).max)
unfolding widen
widen-Covers v r h = ground arith

range_of-Covers :
    (f : LoadSnapshot → ℕ) (ss : List LoadSnapshot) (r : Range)
    → r.min ≤ r.max
    → All (λ s. Covers (range_of f ss r) (f s)) ss × Extends (range_of f ss r) r
unfolding range_of
range_of-Covers f [] r h = (tt, (omega arith, omega arith))
range_of-Covers f (s ∷ ss) r h =
    let step = widen-Covers (f s) r h in
    let rest = range_of-Covers f ss (widen (f s) r) step.2 in
    (
      ((omega (arith, step.0, rest.1), omega (arith, step.0, rest.1)), rest.0),
      (omega (arith, step.1, rest.1), omega (arith, step.1, rest.1)),
    )

-- A value of the list.
abbrev Holds : (LoadSnapshot → ℕ) → ℕ → List LoadSnapshot → Type 0
Holds f v [] = ⊥
Holds f v (s ∷ ss) = (f s ≡ v) ⊎ Holds f v ss

abbrev Attains : (LoadSnapshot → ℕ) → Range → List LoadSnapshot → Range → Type 0
Attains f r ss before =
    ((r.max ≡ before.max) ⊎ Holds f r.max ss) × ((r.min ≡ before.min) ⊎ Holds f r.min ss)

widen-ends :
    (v : ℕ) (r : Range)
    → (((widen v r).max ≡ r.max) ⊎ (v ≡ (widen v r).max))
      × (((widen v r).min ≡ r.min) ⊎ (v ≡ (widen v r).min))
unfolding widen
widen-ends v r = (higher (Bool-cases (ltb r.max v)), lower (Bool-cases (ltb v r.min)))
  where
    higher :
        (ltb r.max v ≡ true) ⊎ (ltb r.max v ≡ false)
        → ((if ltb r.max v then v else r.max) ≡ r.max) ⊎ (v ≡ (if ltb r.max v then v else r.max))
    higher (inl e) = inr (rw e)
    higher (inr e) = inl (rw e)

    lower :
        (ltb v r.min ≡ true) ⊎ (ltb v r.min ≡ false)
        → ((if ltb v r.min then v else r.min) ≡ r.min) ⊎ (v ≡ (if ltb v r.min then v else r.min))
    lower (inl e) = inr (rw e)
    lower (inr e) = inl (rw e)

chain :
    (f : LoadSnapshot → ℕ) (s : LoadSnapshot) (ss : List LoadSnapshot) {last middle first : ℕ}
    → (last ≡ middle) ⊎ Holds f last ss
    → (middle ≡ first) ⊎ (f s ≡ middle)
    → (last ≡ first) ⊎ Holds f last (s ∷ ss)
chain f s ss (inr later) e = inr (inr later)
chain f s ss (inl same) (inl e) = inl (same ∙ e)
chain f s ss (inl same) (inr e) = inr (inl (e ∙ sym same))

range_of-Attains :
    (f : LoadSnapshot → ℕ) (ss : List LoadSnapshot) (r : Range) → Attains f (range_of f ss r) ss r
unfolding range_of
range_of-Attains f [] r = (inl refl, inl refl)
range_of-Attains f (s ∷ ss) r =
    let rest = range_of-Attains f ss (widen (f s) r) in
    let step = widen-ends (f s) r in (chain f s ss rest.0 step.0, chain f s ss rest.1 step.1)

-- The least and the greatest value of a list that is not empty.
abbrev pub IsRangeOf : (LoadSnapshot → ℕ) → List LoadSnapshot → Range → Type 0
IsRangeOf f ss r = All (λ s. Covers r (f s)) ss × Holds f r.max ss × Holds f r.min ss

from_first :
    (f : LoadSnapshot → ℕ) (s : LoadSnapshot) (ss : List LoadSnapshot) {v : ℕ}
    → (v ≡ f s) ⊎ Holds f v ss
    → Holds f v (s ∷ ss)
from_first f s ss (inl e) = inl (sym e)
from_first f s ss (inr h) = inr h

range_of-IsRangeOf :
    (f : LoadSnapshot → ℕ) (s : LoadSnapshot) (ss : List LoadSnapshot)
    → IsRangeOf f (s ∷ ss) (range_of f ss (at_value (f s)))
range_of-IsRangeOf f s ss =
    let covered = range_of-Covers f ss (at_value (f s)) (omega arith) in
    let attained = range_of-Attains f ss (at_value (f s)) in
    ((covered.1, covered.0), from_first f s ss attained.0, from_first f s ss attained.1)

first_widened : (v : ℕ) → widen v (record { max = 0; min = v }) ≡ at_value v
unfolding widen
first_widened v = ground arith

abbrev pub IsExact : List LoadSnapshot → Option LoadStatistics → Type 0
IsExact ss none = ss ≡ []
IsExact ss (some l) =
    (l.sample_count ≡ length ss)
    × IsRangeOf (λ s. s.cpu_usage) ss l.cpu_range
    × IsRangeOf (λ s. s.memory_usage) ss l.memory_range
    × IsRangeOf (λ s. s.system_load) ss l.load_range
    × IsRangeOf (λ s. s.goroutine_count) ss l.goroutine_range

statistics_of-IsExact :
    (ss : List LoadSnapshot) (current : LoadSnapshot) → IsExact ss (statistics_of ss current)
unfolding statistics_of range_of
statistics_of-IsExact [] current = refl
statistics_of-IsExact (s ∷ ss) current = (
  refl,
  range_of-IsRangeOf (λ x. x.cpu_usage) s ss,
  range_of-IsRangeOf (λ x. x.memory_usage) s ss,
  range_of-IsRangeOf (λ x. x.system_load) s ss,
  subst (IsRangeOf (λ x. x.goroutine_count) (s ∷ ss))
      (ap (range_of (λ x. x.goroutine_count) ss) (sym (first_widened s.goroutine_count)))
      (range_of-IsRangeOf (λ x. x.goroutine_count) s ss),
)

-- GetLoadStatistics gives no statistics exactly where no snapshot is later than the cutoff; else
-- their number, and for each of the four quantities the least and the greatest value, which
-- snapshots have.
pub get_load_statistics-IsExact :
    (cutoff : Time) (m : SystemLoadMonitor)
    → IsExact (get_load_history cutoff m) (get_load_statistics cutoff m)
unfolding get_load_statistics
get_load_statistics-IsExact cutoff m = statistics_of-IsExact (get_load_history cutoff m) m.current
