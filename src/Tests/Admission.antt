-- ===== src/Tests/Admission.antt =====
-- A host that registers, is approved, reports and is deleted.
use devops_manager.Prelude.{ℕ, ◌≡◌, refl, true, false, none, some, Time, List, [], ◌∷◌, ◌++◌, arith}
use devops_manager.Admission.{Host, HostInfo, HostStatus, PendingHost, HostState, StatusReport}
use devops_manager.Admission.Spec.{
  approves, registers, rejects, deletes, apply, standing, IsValid, calm,
}
use devops_manager.Admission.Runs.{
  IsCalm, serve_all, apply_all, serve_all-apply_all, serve_all-unasked, serve_all-admits,
}
use devops_manager.Http.Verdicts.{handle, code_for, handle-code_for}

abbrev web : Host
web = record {
  host_id = 3;
  hostname = "web";
  ip = "10.0.0.3";
  os = "linux";
  status = HostStatus.approved;
  tags = [];
  last_seen = 5000000000;
  created_at = 1;
  updated_at = 1;
  deleted_at = none;
}

-- Host 4 was deleted.
abbrev pub table : List Host
table = web ∷ record web { host_id = 4; deleted_at = some 9 } ∷ []

abbrev pub waiting : ℕ → PendingHost
waiting id = record {
  host_id = id;
  hostname = "db";
  ip = "10.0.0.4";
  os = "linux";
  tags = [];
  first_seen = 7;
  last_seen = 8;
}

abbrev pub info : HostInfo
info = record { id = 3; hostname = "web"; ip = "10.0.0.3"; os = "linux"; tags = []; last_seen = 5 }

table-IsValid : IsValid table
table-IsValid = record { unique = λ id. ground arith; admitted = (refl, (refl, tt)) }

abbrev pub moved_report : StatusReport
moved_report = record {
  host_id = 3;
  timestamp = 60;
  ip = some "10.0.0.9";
  tags = ("uptime", "60s") ∷ [];
}

abbrev pub start : HostState
start = calm table (waiting 4 ∷ waiting 5 ∷ []) [] []

pub start-IsCalm : IsCalm start
start-IsCalm = record { valid = table-IsValid; no_faults = refl; redis_there = refl }

abbrev pub stamp : Time → ℕ
stamp t = t

serve_all-apply_all_example :
    standing 5 (serve_all stamp ((approves 5, 20) ∷ (deletes 5, 30) ∷ []) start)
    ≡ record { approved = false; waiting = false; retired = true }
unfolding apply_all apply
serve_all-apply_all_example =
    serve_all-apply_all stamp ((approves 5, 20) ∷ (deletes 5, 30) ∷ []) start 5 start-IsCalm

serve_all-unasked_example :
    (standing 5 (serve_all stamp ((rejects 5, 20) ∷ (approves 4, 30) ∷ []) start)).approved ≡ false
serve_all-unasked_example =
    serve_all-unasked stamp ((rejects 5, 20) ∷ (approves 4, 30) ∷ []) start 5 start-IsCalm
      (refl, (refl, tt)) refl

serve_all-admits_example :
    (standing 6 (
      serve_all stamp
        ((registers (record info { id = 6 }), 20) ∷ ((deletes 3, 25) ∷ []) ++ (approves 6, 30) ∷ [])
        start)).approved
    ≡ true
serve_all-admits_example =
    serve_all-admits stamp (record info { id = 6 }) 6 20 30 ((deletes 3, 25) ∷ []) start
      start-IsCalm refl refl (refl, tt)

handle-code_for_example :
    (handle
      (λ e. "refused")
      stamp
      (approves 5)
      40
      (serve_all stamp ((approves 5, 20) ∷ (deletes 5, 30) ∷ []) start)).0
    ≡ 500
unfolding apply_all apply code_for
handle-code_for_example =
    handle-code_for (λ e. "refused") stamp ((approves 5, 20) ∷ (deletes 5, 30) ∷ []) (approves 5) 40
      start start-IsCalm
