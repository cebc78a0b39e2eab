-- ===== src/Batch/Groups.antt =====
-- A batch whose updates share a status and a text.
use devops_manager.Prelude.{
  ℕ, ◌≡◌, refl, ap, sym, ◌∙◌, Bool, true, String, Time, List, [], ◌∷◌, ◌++◌, map, All, elem,
}
use mathlib.Core.List.{append-nil, append_assoc}
use text.Mathlib.Text.{◌==◌ as str_eq}
use text.Mathlib.TextEquality.{eq_iff}
use devops_manager.Models.CommandHost.{CommandHostStatus}
use devops_manager.Models.Command.{CommandStatus}
use devops_manager.Db.{Db, Message, ok, quiet, update_commands}
use devops_manager.Batch.{
  CommandStatusUpdate, same_status, same_command_key, add_to_group, grouped, command_fields,
  write_command_groups, batch_update_command_status,
}

abbrev pub last_of {ℓ} : {U : Type ℓ} → U → List U → U
last_of u [] = u
last_of u (v ∷ vs) = last_of v vs

module _ {U : Type 0} (same_key : U → U → Bool) (id_of : U → ℕ) (P : U → Type 0)
    (alike : (u v : U) → P u → P v → same_key u v ≡ true) where
  one_group :
      (us : List U) (ids : List ℕ) (u : U)
      → P u
      → All P us
      → grouped same_key id_of us ((ids, u) ∷ []) ≡ (ids ++ map id_of us, last_of u us) ∷ []
  unfolding grouped add_to_group
  one_group [] ids u p ps = ap (λ js. (js, u) ∷ []) (sym (append-nil ids))
  one_group (v ∷ vs) ids u p ps =
      rw (alike u v p ps.0, grouped)
        (one_group vs (ids ++ id_of v ∷ []) v ps.0 ps.1
          ∙ ap (λ js. (js, last_of v vs) ∷ []) (append_assoc ids (id_of v ∷ []) (map id_of vs)))

  grouped-one :
      (u : U) (us : List U)
      → P u
      → All P us
      → grouped same_key id_of (u ∷ us) [] ≡ (id_of u ∷ map id_of us, last_of u us) ∷ []
  unfolding grouped add_to_group
  grouped-one u us p ps = one_group us (id_of u ∷ []) u p ps

text_refl : (s : String) → str_eq s s ≡ true
text_refl s = (eq_iff s s).1 refl

abbrev pub HasCommandKey : CommandStatus → String → CommandStatusUpdate → Type 0
HasCommandKey s m u = (u.status ≡ s) × (u.error_msg ≡ m)

status_refl : (s : CommandStatus) → same_status s s ≡ true
unfolding same_status
status_refl CommandStatus.pending = refl
status_refl CommandStatus.running = refl
status_refl CommandStatus.completed = refl
status_refl CommandStatus.failed = refl
status_refl CommandStatus.timeout = refl
status_refl CommandStatus.canceled = refl

command_alike :
    (s : CommandStatus) (m : String) (u v : CommandStatusUpdate)
    → HasCommandKey s m u
    → HasCommandKey s m v
    → same_command_key u v ≡ true
unfolding same_command_key
command_alike s m u v p q = rw (p.0, p.1, q.0, q.1, status_refl s, text_refl m)

-- Where no statement fails, a batch for commands in which each update has the same status and the same
-- text gives every live command that it names the fields of the last update: the exit code and the end
-- time of the others are lost. `shuffle` may be anything that leaves a single group as it is.
pub batch_update_command_status-last :
    (shuffle : List (List ℕ × CommandStatusUpdate) → List (List ℕ × CommandStatusUpdate))
    (s : CommandStatus) (m : String) (u : CommandStatusUpdate) (us : List CommandStatusUpdate)
    (now : Time) (db : Db) (disp : Bool) (order : List CommandHostStatus) (out : List Message)
    → ((g : List ℕ × CommandStatusUpdate) → shuffle (g ∷ []) ≡ g ∷ [])
    → HasCommandKey s m u
    → All (HasCommandKey s m) us
    → batch_update_command_status shuffle (u ∷ us) now (quiet db disp order out) ≡ (
      ok tt,
      quiet
          (update_commands
            (λ c. elem c.command_id (map (λ v. v.command_id) (u ∷ us)))
            (command_fields (last_of u us) now)
            db)
          disp
          order
          out,
    )
unfolding batch_update_command_status write_command_groups
batch_update_command_status-last shuffle s m u us now db disp order out single p ps = rw (
  batch_update_command_status,
  grouped-one same_command_key (λ v. v.command_id) (HasCommandKey s m) (command_alike s m) u us p
      ps,
  single (u.command_id ∷ map (λ v. v.command_id) us, last_of u us),
)
