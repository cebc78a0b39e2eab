-- ===== src/TaskService/Tally/Laws.antt =====
-- What the switch over the groups leaves in each counter.
use devops_manager.Prelude.{
  ℕ, ◌+◌, ◌<◌, ◌≤◌, ◌≡◌, ◌⊎◌, inl, inr, refl, Bool, true, false, List, [], ◌∷◌, if◌then◌else◌, ltb,
  ◌&&◌, Bool-cases, count_where, arith,
}
use devops_manager.Models.CommandHost.{CommandHost, CommandHostStatus}
use devops_manager.TaskService.Tally.{
  Counts, no_counts, same, count_of, groups, assign, tally, count_statuses,
}

-- Each status is returned once.
abbrev pub IsGroupOrder : List CommandHostStatus → Type 0
IsGroupOrder order = (k : CommandHostStatus) → count_where (same k) order ≡ 1

-- The three statuses that the switch counts as failures.
abbrev pub is_failure : CommandHostStatus → Bool
is_failure CommandHostStatus.failed = true
is_failure CommandHostStatus.exec_failed = true
is_failure CommandHostStatus.timeout = true
is_failure _ = false

-- The counter that a status is counted by.
abbrev pub counter : CommandHostStatus → Counts → ℕ
counter CommandHostStatus.completed c = c.completed
counter CommandHostStatus.running c = c.running
counter CommandHostStatus.pending c = c.pending
counter CommandHostStatus.canceled c = c.canceled
counter _ c = c.failed

abbrev pub failures : List CommandHost → ℕ
failures rows = count_where (λ ch. is_failure ch.status) rows

pub same_refl : (k : CommandHostStatus) → same k k ≡ true
unfolding same
same_refl CommandHostStatus.pending = refl
same_refl _ = refl

same-eq : (j k : CommandHostStatus) → same j k ≡ true → j ≡ k
unfolding same
same-eq CommandHostStatus.pending CommandHostStatus.pending h = refl
same-eq j k h = ground arith

module _ (rows : List CommandHost) where
  tally-counter :
      (k : CommandHostStatus) (order : List CommandHostStatus) (c : Counts)
      → is_failure k ≡ false
      → counter k (tally (groups order rows) c) ≡ (
          if ltb 0 (count_where (same k) order) && ltb 0 (count_of k rows)
          then count_of k rows
          else counter k c)
  unfolding tally groups same
  tally-counter k [] c h = refl
  tally-counter CommandHostStatus.completed (CommandHostStatus.completed ∷ ks) c h =
      let n = count_of CommandHostStatus.completed rows in
      let k = CommandHostStatus.completed in
      ground (arith, tally-counter k ks c h, tally-counter k ks (assign k n c) h)
  tally-counter k (j ∷ ks) c h =
      ground (arith, tally-counter k ks c h, tally-counter k ks (assign j (count_of j rows) c) h)

  -- The failure counter: of the failing statuses that occur, the last in order.
  last_failed : List CommandHostStatus → ℕ → ℕ
  last_failed [] old = old
  last_failed (k ∷ ks) old =
      last_failed ks (if is_failure k && ltb 0 (count_of k rows) then count_of k rows else old)

  tally-failed :
      (order : List CommandHostStatus) (c : Counts)
      → (tally (groups order rows) c).failed ≡ last_failed order c.failed
  unfolding tally groups last_failed
  tally-failed [] c = refl
  tally-failed (CommandHostStatus.completed ∷ ks) c =
      let k = CommandHostStatus.completed in
      ground (arith, tally-failed ks c, tally-failed ks (assign k (count_of k rows) c))
  tally-failed (k ∷ ks) c =
      ground (arith, tally-failed ks c, tally-failed ks (assign k (count_of k rows) c))

  -- All failing rows have the status `k`.
  abbrev pub FailsOnlyBy : CommandHostStatus → Type 0
  FailsOnlyBy k =
      (is_failure k ≡ true)
      × ((j : CommandHostStatus) → is_failure j ≡ true → same k j ≡ false → count_of j rows ≡ 0)

  last_failed-once :
      (k : CommandHostStatus) (order : List CommandHostStatus) (old : ℕ)
      → FailsOnlyBy k
      → (old ≡ count_of k rows) ⊎ ((old ≡ 0) × (0 < count_where (same k) order))
      → last_failed order old ≡ count_of k rows
  unfolding last_failed
  last_failed-once k [] old only h = ground arith
  last_failed-once k (j ∷ ks) old only h =
      last_failed-once k ks _ only (elim (Bool-cases (same k j)) [
        | inl e ↦ let eq = same-eq k j e in rw (← eq) (ground (arith, only.0, eq))
        | inr e ↦ ground (arith, only.1 j)
      ])

  last_failed_source :
      (order : List CommandHostStatus) (old : ℕ)
      → (last_failed order old ≡ old)
        ⊎ ((k : CommandHostStatus) × (is_failure k ≡ true)
            × (last_failed order old ≡ count_of k rows))
  unfolding last_failed
  last_failed_source [] old = inl refl
  last_failed_source (k ∷ ks) old = elim (Bool-cases (is_failure k && ltb 0 (count_of k rows))) [
    | inl e ↦ rw e (elim (last_failed_source ks (count_of k rows)) [
      | inl now ↦ inr (k, ground arith, now)
      | inr later ↦ inr later
    ])
    | inr e ↦ rw e (last_failed_source ks old)
  ]

failures-split :
    (rows : List CommandHost)
    → failures rows
      ≡ count_of CommandHostStatus.failed rows
        + count_of CommandHostStatus.exec_failed rows
        + count_of CommandHostStatus.timeout rows
unfolding same
failures-split [] = refl
failures-split (ch ∷ rows) = ground (arith, failures-split rows)

failures-only :
    (rows : List CommandHost) (k : CommandHostStatus)
    → FailsOnlyBy rows k
    → failures rows ≡ count_of k rows
unfolding same
failures-only rows CommandHostStatus.failed only = ground (
  arith,
  failures-split rows,
  only.1 CommandHostStatus.exec_failed,
  only.1 CommandHostStatus.timeout,
)
failures-only rows CommandHostStatus.exec_failed only =
    ground (
      arith,
      failures-split rows,
      only.1 CommandHostStatus.failed,
      only.1 CommandHostStatus.timeout,
    )
failures-only rows CommandHostStatus.timeout only = ground (
  arith,
  failures-split rows,
  only.1 CommandHostStatus.failed,
  only.1 CommandHostStatus.exec_failed,
)
failures-only rows k only = ground (arith, only.0)

same-distinct : (i j k : CommandHostStatus) → same i k ≡ true → same j k ≡ true → same i j ≡ true
same-distinct i j k hi hj = cc (same-eq j k hj)

one_kind :
    (i j k : CommandHostStatus)
    → is_failure i ≡ true
    → is_failure j ≡ true
    → same i j ≡ false
    → (if same i k then 1 else 0) + (if same j k then 1 else 0) ≤ (if is_failure k then 1 else 0)
one_kind i j k hi hj h = ground (arith, same-eq i k, same-eq j k, same-distinct i j k)

two_kinds-le-failures :
    (rows : List CommandHost) (i j : CommandHostStatus)
    → is_failure i ≡ true
    → is_failure j ≡ true
    → same i j ≡ false
    → count_of i rows + count_of j rows ≤ failures rows
unfolding same
two_kinds-le-failures [] i j hi hj h = omega arith
two_kinds-le-failures (ch ∷ rows) i j hi hj h =
    omega (arith, two_kinds-le-failures rows i j hi hj h, one_kind i j ch.status hi hj h)

one_kind-lt-failures :
    (rows : List CommandHost) (i j k : CommandHostStatus)
    → is_failure i ≡ true
    → is_failure j ≡ true
    → is_failure k ≡ true
    → same j k ≡ false
    → 0 < count_of j rows
    → 0 < count_of k rows
    → count_of i rows < failures rows
one_kind-lt-failures rows i j k hi hj hk differ pj pk = elim (Bool-cases (same i j)) [
  | inl e ↦ rw (same-eq i j e) (omega (arith, two_kinds-le-failures rows j k hj hk differ))
  | inr e ↦ omega (arith, two_kinds-le-failures rows i j hi hj e)
]

module _ (order : List CommandHostStatus) (rows : List CommandHost)
    (once : IsGroupOrder order) where
  -- Completed, running, pending and canceled hosts are always counted right.
  pub count_statuses-counter :
      (k : CommandHostStatus)
      → is_failure k ≡ false
      → counter k (count_statuses order rows) ≡ count_of k rows
  unfolding count_statuses
  count_statuses-counter CommandHostStatus.completed h = ground (
    arith,
    tally-counter rows CommandHostStatus.completed order no_counts h,
    once CommandHostStatus.completed,
  )
  count_statuses-counter k h = ground (arith, tally-counter rows k order no_counts h, once k)

  -- Where all failures have one status, the failed hosts are counted right too.
  pub count_statuses-failed :
      (k : CommandHostStatus)
      → FailsOnlyBy rows k
      → (count_statuses order rows).failed ≡ failures rows
  unfolding count_statuses
  count_statuses-failed k only =
      rw (tally-failed rows order no_counts, failures-only rows k only)
        (last_failed-once rows k order 0 only (inr (refl, rw (once k) (omega arith))))

  -- Where hosts have failed in two ways, fewer are counted than have failed.
  pub count_statuses-failed_short :
      (j k : CommandHostStatus)
      → is_failure j ≡ true
      → is_failure k ≡ true
      → same j k ≡ false
      → 0 < count_of j rows
      → 0 < count_of k rows
      → (count_statuses order rows).failed < failures rows
  unfolding count_statuses
  count_statuses-failed_short j k hj hk differ pj pk =
      rw (tally-failed rows order no_counts) (elim (last_failed_source rows order 0) [
        | inl unset ↦
            rw unset (omega (arith, one_kind-lt-failures rows j j k hj hj hk differ pj pk))
        | inr (i, hi, e) ↦ rw e (one_kind-lt-failures rows i j k hi hj hk differ pj pk)
      ])
