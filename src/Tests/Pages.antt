-- ===== src/Tests/Pages.antt =====
-- The pages of a list of three tasks, two on each.
use text.Mathlib.Text.{◌==◌ as str_eq}
use native.Mathlib.Bridge.{le_prop}
use mathlib.Core.Logic.Or
use mathlib.Core.List.{Mem, Pairwise, Perm, not-mem-nil, eq-or-mem_of_mem-cons}
use mathlib.Core.List.Perm
use devops_manager.Prelude.{
  ◌≤◌, ◌≢◌, sym, subst, String, Bool, true, false, List, [], ◌∷◌, ltb, if◌then◌else◌, All,
  Bool-cases, inl, inr, arith,
}
use devops_manager.Models.Task.{Task, TaskStatus}
use devops_manager.Db.{Db, quiet}
use devops_manager.TaskService.Queries.{status_text}
use devops_manager.TaskService.Queries.Order.{IsLatestFirst, HaveOwnTimes, Orders}
use devops_manager.TaskService.Queries.Pages.{
  with_status, query, belongs, selected, pages, query-pages,
}
use devops_manager.Tests.Samples.{task, busy, statuses}

-- The latest task first.
insert : Task → List Task → List Task
insert t [] = t ∷ []
insert t (u ∷ us) = if ltb u.created_at t.created_at then t ∷ u ∷ us else u ∷ insert t us

pub latest_first : List Task → List Task
unfolding insert
latest_first [] = []
latest_first (t ∷ ts) = insert t (latest_first ts)

all-mem {κ} :
    (P : Task → Type κ)
    → ((t : Task) → IsProp (P t))
    → (ts : List Task) → All P ts
    → (u : Task) → Mem u ts
    → P u
all-mem P prop [] h u m = absurd (not-mem-nil m)
all-mem P prop (t ∷ ts) h u m =
    Or.elim (prop u) (eq-or-mem_of_mem-cons m) (λ e. subst P (sym e) h.0)
      (λ rest. all-mem P prop ts h.1 u rest)

abbrev IsSorted : List Task → Type 0
IsSorted [] = Unit
IsSorted (t ∷ ts) = All (λ u. u.created_at ≤ t.created_at) ts × IsSorted ts

IsSorted-IsLatestFirst : (ts : List Task) → IsSorted ts → IsLatestFirst ts
IsSorted-IsLatestFirst [] h = Pairwise.nil
IsSorted-IsLatestFirst (t ∷ ts) h =
    Pairwise.cons (all-mem (λ u. u.created_at ≤ t.created_at) (λ u. le_prop) ts h.0)
      (IsSorted-IsLatestFirst ts h.1)

below_mono :
    (t u : Task) (ts : List Task)
    → t.created_at ≤ u.created_at
    → All (λ v. v.created_at ≤ t.created_at) ts
    → All (λ v. v.created_at ≤ u.created_at) ts
below_mono t u [] le h = tt
below_mono t u (v ∷ vs) le h = (omega (arith, h.0), below_mono t u vs le h.1)

below-insert :
    (t u : Task) (ts : List Task)
    → t.created_at ≤ u.created_at
    → All (λ v. v.created_at ≤ u.created_at) ts
    → All (λ v. v.created_at ≤ u.created_at) (insert t ts)
unfolding insert
below-insert t u [] le h = (le, tt)
below-insert t u (v ∷ vs) le h = elim (Bool-cases (ltb v.created_at t.created_at)) [
  | inl e ↦ rw e (le, h)
  | inr e ↦ rw e (h.0, below-insert t u vs le h.1)
]

insert-IsSorted : (t : Task) (ts : List Task) → IsSorted ts → IsSorted (insert t ts)
unfolding insert
insert-IsSorted t [] h = (tt, tt)
insert-IsSorted t (u ∷ us) h = elim (Bool-cases (ltb u.created_at t.created_at)) [
  | inl e ↦
      let le : u.created_at ≤ t.created_at = ground arith in
      rw e ((le, below_mono u t us le h.0), h)
  | inr e ↦
      let le : t.created_at ≤ u.created_at = ground arith in
      rw e (below-insert t u us le h.0, insert-IsSorted t us h.1)
]

insert-perm : (t : Task) (ts : List Task) → Perm (insert t ts) (t ∷ ts)
unfolding insert
insert-perm t [] = Perm.rfl
insert-perm t (u ∷ us) = elim (Bool-cases (ltb u.created_at t.created_at)) [
  | inl e ↦ rw e Perm.rfl
  | inr e ↦ rw e (Perm.trans (Perm.cons u (insert-perm t us)) (Perm.swap t u us))
]

sorted : (ts : List Task) → IsSorted (latest_first ts) × Perm (latest_first ts) ts
unfolding latest_first
sorted [] = (tt, Perm.rfl)
sorted (t ∷ ts) =
    let (s, p) = sorted ts in
    (
      insert-IsSorted t (latest_first ts) s,
      Perm.trans (insert-perm t (latest_first ts)) (Perm.cons t p),
    )

latest_first-Orders : (ts : List Task) → Orders ts (latest_first ts)
latest_first-Orders ts = let (s, p) = sorted ts in (p, IsSorted-IsLatestFirst (latest_first ts) s)

abbrev pub three : Db
three = record busy {
  tasks =
      task 1 TaskStatus.running 2
      ∷ record (task 2 TaskStatus.running 2) { created_at = 9 }
      ∷ record (task 3 TaskStatus.running 2) { created_at = 5 }
      ∷ [];
}

abbrev pub any_name : String → String → Bool
any_name column pattern = true

abbrev AreApart : List Task → Type 0
AreApart [] = Unit
AreApart (t ∷ ts) = All (λ u. t.created_at ≢ u.created_at) ts × AreApart ts

AreApart-own_times : (ts : List Task) → AreApart ts → HaveOwnTimes ts
AreApart-own_times [] h = Pairwise.nil
AreApart-own_times (t ∷ ts) h =
    Pairwise.cons (all-mem (λ u. t.created_at ≢ u.created_at) (λ u. hlevel) ts h.0)
      (AreApart-own_times ts h.1)

query-pages_example :
    let found =
      pages
        (λ page. query str_eq any_name latest_first (with_status "running") page 2)
        2
        (quiet three false statuses []) in
    Perm found (selected str_eq any_name (with_status "running") three) × IsLatestFirst found
unfolding status_text belongs
query-pages_example =
    query-pages str_eq any_name (λ page. latest_first) (with_status "running") 2 2 three false
      statuses [] (λ page. latest_first-Orders three.tasks)
      (AreApart-own_times three.tasks
        (((λ e. omega arith), ((λ e. omega arith), tt)), (((λ e. omega arith), tt), (tt, tt))))
      (omega arith) (omega arith)
