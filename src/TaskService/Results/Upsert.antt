-- ===== src/TaskService/Results/Upsert.antt =====
-- The table of results holds at most one row for a command on a host.
use devops_manager.Prelude.{
  ℕ, ◌≤◌, ◌≡◌, refl, Bool, ◌==◌, ◌&&◌, none, some, Time, List, [], ◌∷◌, first, count_where,
  count_where-append, if◌then◌else◌, Option-cases, inl, inr, arith,
}
use devops_manager.Models.CommandResult.{CommandResult}
use devops_manager.Db.{Db}
use devops_manager.TaskService.Results.{
  is_result_of, store_result, stored, update_first, result_rewritten,
}

count-update_first :
    (p q : CommandResult → Bool) (f : CommandResult → CommandResult) (xs : List CommandResult)
    → ((x : CommandResult) → q (f x) ≡ q x)
    → count_where q (update_first p f xs) ≡ count_where q xs
unfolding update_first
count-update_first p q f [] h = refl
count-update_first p q f (x ∷ xs) h = ground (arith, count-update_first p q f xs h, h x)

first-none :
    (p : CommandResult → Bool) (xs : List CommandResult) → first p xs ≡ none → count_where p xs ≡ 0
first-none p [] h = refl
first-none p (x ∷ xs) h = ground (arith, first-none p xs)

first-some :
    (p : CommandResult → Bool) (xs : List CommandResult) (x : CommandResult)
    → first p xs ≡ some x
    → 1 ≤ count_where p xs
first-some p [] x h = cc
first-some p (y ∷ ys) x h = ground (arith, first-some p ys x)

-- How many results a command has on a host.
abbrev pub results_for : (command host : ℕ) → Db → ℕ
results_for command host db =
    count_where (λ x. x.command_id == command && x.host_id == host) db.command_results

-- The condition of the table, at one command and host.
abbrev is_for : (command host : ℕ) → CommandResult → Bool
is_for command host x = x.command_id == command && x.host_id == host

-- Storing a result makes it the one row of its command on its host, if there was at most one, and
-- changes the number of rows of no other command or host.
pub store_result_unique :
    (r : CommandResult) (now : Time) (db : Db) (command host : ℕ)
    → results_for r.command_id r.host_id db ≤ 1
    → results_for command host (store_result r now (first (is_result_of r) db.command_results) db)
      ≡ (if command == r.command_id && host == r.host_id then 1 else results_for command host db)
unfolding store_result
store_result_unique r now db command host h =
    elim (Option-cases (first (is_result_of r) db.command_results)) [
      | inl e ↦
          rw (e, stored)
            (ground (
              arith,
              count_where-append (is_for command host) db.command_results (r ∷ []),
              first-none (is_result_of r) db.command_results e,
            ))
      | inr (x, e) ↦
          rw (e, stored)
            (ground (
              arith,
              count-update_first (is_result_of r) (is_for command host) (result_rewritten r now)
                  db.command_results (λ y. refl),
              first-some (is_result_of r) db.command_results x e,
            ))
    ]
