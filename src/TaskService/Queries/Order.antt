-- ===== src/TaskService/Queries/Order.antt =====
-- Lists that ORDER BY created_at DESC may return: the rows from the latest on, where the order of rows
-- with one time is open, and may be another at each query.
use text.Mathlib.TextEquality.{IsScalar-prop}
use mathlib.Core.Logic.Or
use mathlib.Core.Logic.{∥∥₁_elim}
use mathlib.Core.List.{
  Mem, Pairwise, Pairwise-cons, Perm, mem-cons_self, eq-or-mem_of_mem-cons, perm-cons,
}
use mathlib.Core.List.Perm
use mathlib.Core.List.Permᴰ.{Permᴰ}
use devops_manager.Prelude.{◌≤◌, ◌<◌, ◌≡◌, ◌≢◌, refl, sym, subst, List, [], ◌∷◌, length, arith}
use devops_manager.Models.Task.{Task}

Task-set : IsSet Task
Task-set = hlevel (IsScalar-prop)

-- No task stands before one that was created later.
abbrev pub IsLatestFirst : List Task → Type 0
IsLatestFirst = Pairwise (λ t u. u.created_at ≤ t.created_at)

-- No two tasks were created at one time.
abbrev pub HaveOwnTimes : List Task → Type 0
HaveOwnTimes = Pairwise (λ t u. t.created_at ≢ u.created_at)

-- What a query may return for the rows that it selects.
abbrev pub Orders : List Task → List Task → Type 0
Orders rows found = Perm found rows × IsLatestFirst found

abbrev IsLatestFirstStrictly : List Task → Type 0
IsLatestFirstStrictly = Pairwise (λ t u. u.created_at < t.created_at)

strictly : (ts : List Task) → IsLatestFirst ts → HaveOwnTimes ts → IsLatestFirstStrictly ts
strictly [] s d = Pairwise.nil
strictly (t ∷ ts) s d =
    let (below, rest) = Pairwise-cons.0 s in
    let (apart, others) = Pairwise-cons.0 d in
    Pairwise.cons (λ u m. let h = below u m in let n = apart u m in ground (arith, h, n))
      (strictly ts rest others)

-- Of two heads, none is younger than the other.
same_head :
    (t u : Task) (ts us : List Task)
    → ((v : Task) → Mem v ts → v.created_at < t.created_at)
    → ((v : Task) → Mem v us → v.created_at < u.created_at)
    → Mem t (u ∷ us)
    → Mem u (t ∷ ts)
    → t ≡ u
same_head t u ts us below_t below_u in_us in_ts =
    Or.elim (Task-set t u) (eq-or-mem_of_mem-cons in_us) (λ e. e)
      (λ t_in.
        Or.elim (Task-set t u) (eq-or-mem_of_mem-cons in_ts) (λ e. sym e)
          (λ u_in. absurd (let h = below_u t t_in in let k = below_t u u_in in omega arith)))

-- There is one list of the same tasks that goes strictly from the latest on.
order_unique :
    (ts us : List Task) → Perm ts us → IsLatestFirstStrictly ts → IsLatestFirstStrictly us → ts ≡ us
order_unique [] us p s r = Perm.nil-eq p
order_unique (t ∷ ts) [] p s r = Perm.eq-nil p
order_unique (t ∷ ts) (u ∷ us) p s r =
    let (below_t, rest_t) = Pairwise-cons.0 s in
    let (below_u, rest_u) = Pairwise-cons.0 r in
    let e =
      same_head t u ts us below_t below_u ((Perm.mem_iff p).0 mem-cons_self)
        ((Perm.mem_iff p).1 mem-cons_self) in
    let q : Perm (u ∷ ts) (u ∷ us) = subst (λ v. Perm (v ∷ ts) (u ∷ us)) e p in
    let tails = order_unique ts us ((perm-cons u).0 q) rest_t rest_u in λ i. e i ∷ tails i

-- Where no two rows have one time, all that the database may return is one list.
pub Orders-unique :
    (rows found again : List Task)
    → HaveOwnTimes rows
    → Orders rows found
    → Orders rows again
    → found ≡ again
Orders-unique rows found again own (p, s) (q, r) =
    let own_times = λ (l : List Task) (h : Perm rows l).
      Perm.pairwise (λ t u. hlevel) (λ t u n e. n (sym e)) h own in
    order_unique found again (Perm.trans p (Perm.symm q))
      (strictly found s (own_times found (Perm.symm p)))
      (strictly again r (own_times again (Perm.symm q)))

length-Permᴰ : {ts us : List Task} → Permᴰ ts us → length ts ≡ length us
length-Permᴰ Permᴰ.nil = refl
length-Permᴰ (Permᴰ.cons e p) = omega (arith, length-Permᴰ p)
length-Permᴰ (Permᴰ.swap e f) = refl
length-Permᴰ (Permᴰ.trans p q) = omega (arith, length-Permᴰ p, length-Permᴰ q)

pub length-perm : {ts us : List Task} → Perm ts us → length ts ≡ length us
length-perm {ts} {us} p = ∥∥₁_elim {P = length ts ≡ length us} p (hlevel) length-Permᴰ
