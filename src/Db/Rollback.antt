-- ===== src/Db/Rollback.antt =====
-- What gorm's Transaction promises of every body.
use devops_manager.Prelude.{
  ◌≡◌, refl, ◌∙◌, arith, Bool, true, false, Option, none, some, List, [], ◌∷◌,
}
use devops_manager.Models.CommandHost.{CommandHostStatus}
use devops_manager.Db.Effects.{
  Action, Session, Result, Error, ok, err, transaction, rollback, quiet, statement, read, and_then,
  ◌>>=◌, require, check, return, Db, Message,
}

rollback-err {ℓ} :
    {A : Type ℓ} (r : Result A × Session) (s : Session) (e : Error)
    → (rollback s.db r).0 ≡ err e
    → (rollback s.db r).1.db ≡ s.db
unfolding rollback
rollback-err (ok a, s') s e h = cc
rollback-err (err e', s') s e h = refl

pub transaction-err {ℓ} :
    {A : Type ℓ} (body : Action A) (s : Session) (e : Error)
    → (transaction body s).0 ≡ err e
    → (transaction body s).1.db ≡ s.db
unfolding transaction
transaction-err body s e h = rollback-err _ s e h

-- Where no statement fails, a transaction does what its body does, and takes back an error's writes.
module _ {ℓ} {A : Type ℓ} (body : Action A) (db : Db) (dispatcher : Bool)
    (order : List CommandHostStatus) (goroutines : List Message) where
  pub transaction-ok :
      {db' : Db} {dispatcher' : Bool} {order' : List CommandHostStatus} {goroutines' : List Message}
      {a : A}
      → body (quiet db dispatcher order goroutines)
        ≡ (ok a, quiet db' dispatcher' order' goroutines')
      → transaction body (quiet db dispatcher order goroutines)
        ≡ (ok a, quiet db' dispatcher' order' goroutines')
  unfolding transaction
  transaction-ok h = rw h

  pub transaction-quiet_err :
      {s : Session} {e : Error}
      → body (quiet db dispatcher order goroutines) ≡ (err e, s)
      → transaction body (quiet db dispatcher order goroutines) ≡ (err e, record s { db = db })
  unfolding transaction
  transaction-quiet_err h = rw h

-- An action that never writes, and one that leaves the tables alone where it fails.
abbrev pub Reads {ℓ} : {A : Type ℓ} → Action A → Type 0
Reads m = (s : Session) → (m s).1.db ≡ s.db

abbrev pub IsAtomic {ℓ} : {A : Type ℓ} → Action A → Type ℓ
IsAtomic m = (s : Session) (e : Error) → (m s).0 ≡ err e → (m s).1.db ≡ s.db

pub read-Reads {ℓ} : {A : Type ℓ} (f : Db → A) → Reads (read f)
unfolding statement
read-Reads f s = elim s.faults as (λ l. (read f (record s { faults = l })).1.db ≡ s.db) [
  | [] ↦ refl
  | b ∷ rest ↦ ground arith
]

after-IsAtomic {ℓ κ} :
    {A : Type ℓ} {B : Type κ} (r : Result A × Session) (f : A → Action B) (s : Session)
    → r.1.db ≡ s.db
    → ((a : A) → IsAtomic (f a))
    → (e : Error) → (and_then r f).0 ≡ err e
    → (and_then r f).1.db ≡ s.db
after-IsAtomic (ok a, t) f s same h e fails = h a t e fails ∙ same
after-IsAtomic (err e', t) f s same h e fails = same

pub bind-IsAtomic {ℓ κ} :
    {A : Type ℓ} {B : Type κ} (m : Action A) (f : A → Action B)
    → Reads m
    → ((a : A) → IsAtomic (f a))
    → IsAtomic (m >>= f)
bind-IsAtomic m f reads h s e fails = after-IsAtomic (m s) f s (reads s) h e fails

pub require-Reads {ℓ} : {A : Type ℓ} (e : Error) (o : Option A) → Reads (require e o)
require-Reads e none s = refl
require-Reads e (some a) s = refl

pub check-Reads : (b : Bool) (e : Error) → Reads (check b e)
check-Reads true e s = refl
check-Reads false e s = refl

discard-IsAtomic {ℓ} :
    {A : Type ℓ} (r : Result A × Session) (s : Session)
    → ((e : Error) → r.0 ≡ err e → r.1.db ≡ s.db)
    → (e : Error) → (and_then r (λ _. return (tt {0}))).0 ≡ err e
    → (and_then r (λ _. return (tt {0}))).1.db ≡ s.db
discard-IsAtomic (ok a, t) s h e fails = cc
discard-IsAtomic (err e', t) s h e fails = h e' refl

-- To drop the result changes nothing of this.
pub returning-IsAtomic {ℓ} :
    {A : Type ℓ} (m : Action A) → IsAtomic m → IsAtomic (m >>= λ _. return (tt {0}))
returning-IsAtomic m h s e fails = discard-IsAtomic (m s) s (h s) e fails
