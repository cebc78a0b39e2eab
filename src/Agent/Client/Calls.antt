-- ===== src/Agent/Client/Calls.antt =====
-- A call that is answered, and the tests that a tick makes before it.
use devops_manager.Prelude.{
  ℕ, ◌≡◌, refl, ap, ◌∙◌, Bool, true, false, not, ◌&&◌, ◌||◌, Option, none, some, if◌then◌else◌,
}
use devops_manager.Agent.Client.{
  GrpcAgent, Returned, response, answered, call_server, CallResult, not_connected, settle,
}

pub both_hold :
    {A : Type 0} (b c : Bool) (x y : A) → b ≡ true → c ≡ true → (if b && c then x else y) ≡ x
both_hold b c x y h k = rw (h, k) refl

pub second_fails : {A : Type 0} (b c : Bool) (x y : A) → c ≡ false → (if b && c then x else y) ≡ y
second_fails true c x y h = rw h refl
second_fails false c x y h = refl

pub either_holds :
    {A : Type 0} (b c : Bool) (x y : A) → b ≡ false → (if not b || c then x else y) ≡ x
either_holds b c x y h = rw h refl

settled_by :
    {A S : Type 0} (client : Option ℕ) {c : ℕ} (a : GrpcAgent) (r : Returned A × S) (s : S)
    → client ≡ some c
    → elim client as (λ x. CallResult A × GrpcAgent × S) [
      | none ↦ (not_connected, a, s)
      | some k ↦ settle a r
    ]
      ≡ settle a r
settled_by none a r s h = cc
settled_by (some k) a r s h = refl

pub call_server-response :
    {A S : Type 0} (remote : S → Returned A × S) (a : GrpcAgent) (s : S) (c : ℕ) (r : A) (s' : S)
    → a.client ≡ some c
    → remote s ≡ (response r, s')
    → call_server remote a s ≡ (answered r, a, s')
unfolding call_server
call_server-response remote a s c r s' h e = settled_by a.client a (remote s) s h ∙ ap (settle a) e
