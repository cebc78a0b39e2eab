-- ===== src/TaskService/Queries/Loading.antt =====
-- What GetTask loads, against the rows that the statements on a task's progress count.
use devops_manager.Prelude.{
  ℕ, ◌≡◌, refl, ap, sym, ◌∙◌, Bool, true, false, some, List, [], ◌∷◌, map, ◌&&◌, ◌==◌, select,
  count_where, count_where-append, count_where-disjoint, elem, All, arith,
}
use devops_manager.Models.CommandHost.{CommandHost, CommandHostStatus}
use devops_manager.Models.Command.{Command}
use devops_manager.Models.Task.{Task}
use devops_manager.Db.{Db, Message, ok, quiet, find_task, commands_of, belongs_to}
use devops_manager.TaskService.Progress.Loaded.{loaded_rows}
use devops_manager.TaskService.Queries.{load_hosts, get_task}

abbrev pub with_rows : Db → Command → Command
with_rows db c = record c {
  command_hosts = select (λ ch. ch.command_id == c.command_id) db.command_hosts;
}

-- No number stands twice in a list.
abbrev pub IsDistinct : List ℕ → Type 0
IsDistinct [] = Unit
IsDistinct (i ∷ is) = (elem i is ≡ false) × IsDistinct is

abbrev pub ids : List Command → List ℕ
ids cs = map (λ c. c.command_id) cs

count_where-select {ℓ} :
    {A : Type ℓ} (p q : A → Bool) (xs : List A)
    → count_where p (select q xs) ≡ count_where (λ x. q x && p x) xs
count_where-select p q [] = refl
count_where-select p q (x ∷ xs) = ground (arith, count_where-select p q xs)

count_where-agree {ℓ} :
    {A : Type ℓ} (p q r : A → Bool) (xs : List A)
    → All (λ x. q x ≡ r x) xs
    → count_where (λ x. q x && p x) xs ≡ count_where (λ x. r x && p x) xs
count_where-agree p q r [] h = refl
count_where-agree p q r (x ∷ xs) h = ground (arith, h.0, count_where-agree p q r xs h.1)

count_where-false {ℓ} : {A : Type ℓ} (xs : List A) → count_where (λ x. false) xs ≡ 0
count_where-false [] = refl
count_where-false (x ∷ xs) = ground (arith, count_where-false xs)

elem-apart : (i j : ℕ) (is : List ℕ) → elem i is ≡ false → (j == i) ≡ true → elem j is ≡ false
elem-apart i j [] h e = refl
elem-apart i j (k ∷ ks) h e = ground (arith, h, e, elem-apart i j ks)

-- Each row of a command in the list is loaded once.
loaded_rows-count :
    (db : Db) (p : CommandHost → Bool) (cs : List Command)
    → IsDistinct (ids cs)
    → count_where p (loaded_rows (map (with_rows db) cs))
      ≡ count_where (λ ch. elem ch.command_id (ids cs) && p ch) db.command_hosts
loaded_rows-count db p [] h = sym (count_where-false db.command_hosts)
loaded_rows-count db p (c ∷ cs) h =
    count_where-append p (with_rows db c).command_hosts (loaded_rows (map (with_rows db) cs))
    ∙ rw
        (
          count_where-select p (λ ch. ch.command_id == c.command_id) db.command_hosts,
          loaded_rows-count db p cs h.1,
        )
        (count_where-disjoint (λ ch. ch.command_id == c.command_id && p ch)
          (λ ch. elem ch.command_id (ids cs) && p ch)
          (λ ch. elem ch.command_id (ids (c ∷ cs)) && p ch) db.command_hosts
          (λ ch. ground (arith, h.0, elem-apart c.command_id ch.command_id (ids cs) h.0)))

module _ (db : Db) (dispatcher : Bool) (order : List CommandHostStatus)
    (goroutines : List Message) where
  load_hosts-loads :
      (cs : List Command)
      → load_hosts cs (quiet db dispatcher order goroutines)
        ≡ (ok (map (with_rows db) cs), quiet db dispatcher order goroutines)
  unfolding load_hosts
  load_hosts-loads [] = refl
  load_hosts-loads (c ∷ cs) = rw (load_hosts-loads cs)

  pub get_task-loads :
      (id : ℕ) (t : Task)
      → find_task id db ≡ some t
      → get_task id (quiet db dispatcher order goroutines) ≡ (
        ok (record t { commands = map (with_rows db) (commands_of id db) }),
        quiet db dispatcher order goroutines,
      )
  unfolding get_task
  get_task-loads id t found = rw (found, load_hosts-loads (commands_of id db))

  -- Where no statement fails, the identifiers of the task's commands are distinct, and no host row
  -- is left of a command that was deleted, GetTask returns the task with each of the host rows that
  -- the statements on its progress count, and with no other: for every test, as many rows pass it.
  pub get_task-rows :
      (id : ℕ) (t : Task) (p : CommandHost → Bool)
      → find_task id db ≡ some t
      → IsDistinct (ids (commands_of id db))
      → All
          (λ ch. elem ch.command_id (ids (commands_of id db)) ≡ belongs_to id db.commands ch)
          db.command_hosts
      → (loaded : Task) × ((get_task id (quiet db dispatcher order goroutines)).0 ≡ ok loaded)
        × (count_where p (loaded_rows loaded.commands)
            ≡ count_where (λ ch. belongs_to id db.commands ch && p ch) db.command_hosts)
  get_task-rows id t p found distinct live = (
    record t { commands = map (with_rows db) (commands_of id db) },
    ap (λ r. r.0) (get_task-loads id t found),
    loaded_rows-count db p (commands_of id db) distinct
        ∙ count_where-agree p (λ ch. elem ch.command_id (ids (commands_of id db)))
            (belongs_to id db.commands) db.command_hosts live,
  )
