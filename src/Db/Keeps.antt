-- ===== src/Db/Keeps.antt =====
-- Actions that keep a view of the tables, whatever statements fail.
use devops_manager.Prelude.{◌≡◌, refl, ◌∙◌, true, false, Option, none, some, [], ◌∷◌}
use devops_manager.Db.Effects.{
  Action, Session, Result, Error, ok, err, transaction, rollback, statement, mark, and_then, ◌>>=◌,
  ◌>>◌, require, return, Db,
}

module _ {κ} {B : Type κ} (view : Db → B) where
  abbrev pub Keeps {ℓ} : {A : Type ℓ} → Action A → Type κ
  Keeps m = (s : Session) → view (m s).1.db ≡ view s.db

  pub return-Keeps {ℓ} : {A : Type ℓ} (a : A) → Keeps (return a)
  return-Keeps a s = refl

  pub statement-Keeps {ℓ} :
      {A : Type ℓ} (f : Db → A × Db) → ((db : Db) → view (f db).1 ≡ view db) → Keeps (statement f)
  unfolding statement
  statement-Keeps f h s =
      elim s.faults as (λ l. view (statement f (record s { faults = l })).1.db ≡ view s.db) [
        | [] ↦ h s.db
        | false ∷ rest ↦ h s.db
        | true ∷ rest ↦ refl
      ]

  pub require-Keeps {ℓ} : {A : Type ℓ} (e : Error) (o : Option A) → Keeps (require e o)
  require-Keeps e none s = refl
  require-Keeps e (some a) s = refl

  and_then-Keeps {ℓ μ} :
      {A : Type ℓ} {C : Type μ} (r : Result A × Session) (f : A → Action C)
      → ((a : A) → Keeps (f a))
      → view (and_then r f).1.db ≡ view r.1.db
  and_then-Keeps (ok a, t) f h = h a t
  and_then-Keeps (err e, t) f h = refl

  pub bind-Keeps {ℓ μ} :
      {A : Type ℓ} {C : Type μ} (m : Action A) (f : A → Action C)
      → Keeps m
      → ((a : A) → Keeps (f a))
      → Keeps (m >>= f)
  bind-Keeps m f hm hf s = and_then-Keeps (m s) f hf ∙ hm s

  rollback-keeps {ℓ} :
      {A : Type ℓ} (r : Result A × Session) (before : Db)
      → view r.1.db ≡ view before
      → view (rollback before r).1.db ≡ view before
  unfolding rollback
  rollback-keeps (ok a, t) before h = h
  rollback-keeps (err e, t) before h = refl

  pub transaction-Keeps {ℓ} : {A : Type ℓ} (m : Action A) → Keeps m → Keeps (transaction m)
  unfolding transaction
  transaction-Keeps m h s =
      let marked = statement-Keeps (λ db. (tt, db)) (λ db. refl) in
      rollback-keeps ((do mark; a ← m; mark; return a) s) s.db (
        bind-Keeps mark (λ _. do a ← m; mark; return a) marked
          (λ _.
            bind-Keeps m (λ a. do mark; return a) h
              (λ a. bind-Keeps mark (λ _. return a) marked (λ _. return-Keeps a)))
          s)
