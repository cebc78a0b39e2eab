-- ===== src/Agent/Hosts/Healing.antt =====
-- An agent and the server together: its ticks, with the server's methods as the other end.
use Prim.Native.String.{String, ◌++◌}
use text.Mathlib.Text.{◌==◌ as str_eq}
use devops_manager.Prelude.{
  ℕ, ◌+◌, ◌*◌, ◌≡◌, refl, ap, sym, subst, ◌∙◌, Bool, true, false, not, ◌||◌, ◌==◌, ltb, some, Time,
  if◌then◌else◌, arith, Bool-cases, inl, inr,
}
use devops_manager.Admission.{
  HostInfo, StatusReport, HostState, Error, Result, ok, err, report_host_status, register_host,
  identified,
}
use devops_manager.Admission.Spec.{standing, registers, apply, serve}
use devops_manager.Admission.Runs.{IsCalm, implements, implements-IsCalm}
use devops_manager.Admission.Reports.{report_host_status-IsReported}
use devops_manager.Http.Grpc as Server
use devops_manager.Http.Grpc.{RegisterResponse, HostStatusResponse, registered, reported}
use devops_manager.Agent.Client.{GrpcAgent, Returned, response, answered, Code}
use devops_manager.Agent.Client.Calls.{both_hold, second_fails, either_holds, call_server-response}
use devops_manager.Agent.Hosts.{
  HostAgent, Measured, own_status, after_report, reported_by, registered_by, message_of,
  update_host_info, try_register, report_status, register_tick, report_tick,
}

-- The server as the other end of the calls.
module _ (error_text : Error → String) (generated : Time → ℕ) where
  abbrev pub server_register : Time → HostInfo → HostState → Returned RegisterResponse × HostState
  server_register now info s =
      let r = Server.register error_text generated info now s in (response r.0, r.1)

  abbrev pub server_report :
      Time → StatusReport → HostState → Returned HostStatusResponse × HostState
  server_report now status s =
      let r = Server.report_status error_text status now s in (response r.0, r.1)

-- The agent counts as connected and has a client, and its host has an identifier and a name.
pub record IsLinked (ha : HostAgent) : Type 0 where
  pub connected : ha.grpc_agent.connected ≡ true
  pub client : ℕ
  pub has_client : ha.grpc_agent.client ≡ some client
  pub known : (ha.host_info.id == 0) ≡ false
  pub named : str_eq ha.host_info.hostname "" ≡ false

-- What the agent and the server come to: the agent counts as registered, and its host is approved as
-- it was before, or waits.
abbrev pub Joins : ℕ → HostState → HostAgent × HostState → Type 0
Joins id s r =
    (r.0.is_registered ≡ true)
    × ((standing id r.1).approved ≡ (standing id s).approved)
    × (((standing id r.1).approved || (standing id r.1).waiting) ≡ true)
    × IsCalm r.1

module _ (error_text : Error → String) (generated : Time → ℕ)
    (contains : (text part : String) → Bool) (code_text : Code → String)
    (recognised : contains ("status report failed: " ++ error_text Error.not_approved) "not found"
      ≡ true) where
  after_answer :
      (approved : Bool) (ha : HostAgent) (res : Result (Unit {0}) × HostState)
      → res.0 ≡ (if approved then ok tt else err Error.not_approved)
      → ha.is_registered ≡ true
      → after_report contains code_text (
          reported_by ha
            (answered (reported error_text res).0, ha.grpc_agent, (reported error_text res).1))
        ≡ (record ha { is_registered = approved }, res.1)
  unfolding message_of
  after_answer true ha (ok a, s) e h = ap (λ b. (record ha { is_registered = b }, s)) h
  after_answer true ha (err x, s) e h = cc
  after_answer false ha (ok a, s) e h = cc
  after_answer false ha (err x, s) e h =
      let same : x ≡ Error.not_approved = cc in rw (same, recognised) refl

  -- A report tick keeps the agent registered exactly where its host is approved.
  report_tick-lem :
      (status : StatusReport) (now : Time) (ha : HostAgent) (s : HostState)
      → IsLinked ha
      → IsCalm s
      → ha.is_registered ≡ true
      → report_tick contains code_text (server_report error_text generated now) status ha s ≡ (
        record ha { is_registered = (standing ha.host_info.id s).approved },
        (report_host_status (own_status ha status) now s).1,
      )
  unfolding report_tick report_status Server.report_status
  report_tick-lem status now ha s l c h =
      let res = report_host_status (own_status ha status) now s in
      let told : server_report error_text generated now (own_status ha status) s
          ≡ (response (reported error_text res).0, (reported error_text res).1) =
        rw l.known refl in
      both_hold ha.grpc_agent.connected ha.is_registered _ _ l.connected h
      ∙ ap (λ k. after_report contains code_text (reported_by ha k))
          (call_server-response (server_report error_text generated now (own_status ha status))
            ha.grpc_agent s l.client (reported error_text res).0 (reported error_text res).1
            l.has_client told)
      ∙ after_answer (standing ha.host_info.id s).approved ha res
          (report_host_status-IsReported (own_status ha status) now s c).answer h

  registered_ok :
      (id : ℕ) (now : Time) (ha : HostAgent) (a : GrpcAgent) (res : Result (Unit {0}) × HostState)
      → res.0 ≡ ok tt
      → (let r =
            registered_by now ha
              (answered (registered error_text id res).0, a, (registered error_text id res).1) in
          (r.1.is_registered ≡ true) × (r.2 ≡ res.1))
  registered_ok id now ha a (ok b, s) e = (refl, refl)
  registered_ok id now ha a (err x, s) e = cc

  registered_state :
      (m : Measured) (now : Time) (ha : HostAgent) (s : HostState)
      → IsLinked ha
      → IsCalm s
      → ha.is_registered ≡ false
      → (let r = register_tick (server_register error_text generated now) m now ha s in
          (r.0.is_registered ≡ true)
          × (r.1 ≡ (register_host generated (update_host_info m now ha).host_info now s).1))
  unfolding register_tick try_register Server.register update_host_info serve apply
  registered_state m now ha s l c h =
      let info = (update_host_info m now ha).host_info in
      let res = register_host generated info now s in
      let id = (identified generated info now).id in
      let told : server_register error_text generated now info s
          ≡ (response (registered error_text id res).0, (registered error_text id res).1) =
        rw l.named refl in
      let tried : register_tick (server_register error_text generated now) m now ha s ≡ (
          let r = registered_by now (update_host_info m now ha) (
            answered (registered error_text id res).0,
            ha.grpc_agent,
            (registered error_text id res).1,
          ) in
          (r.1, r.2)) =
        both_hold ha.grpc_agent.connected (not ha.is_registered) _ _ l.connected (ap not h)
        ∙ ap (λ r. (r.1, r.2))
            (either_holds ha.is_registered (ltb (ha.last_register + 3600 * 1000000000) now) _ _ h
              ∙ ap (registered_by now (update_host_info m now ha)) (
                  call_server-response (server_register error_text generated now info) ha.grpc_agent
                    s l.client (registered error_text id res).0 (registered error_text id res).1
                    l.has_client told)) in
      let done =
        registered_ok id now (update_host_info m now ha) ha.grpc_agent res
          (implements generated (registers info) now s c).answer in
      (ap (λ r. r.0.is_registered) tried ∙ done.0, ap (λ r. r.1) tried ∙ done.1)

  register_tick-Joins :
      (m : Measured) (now : Time) (ha : HostAgent) (s : HostState)
      → IsLinked ha
      → IsCalm s
      → ha.is_registered ≡ false
      → Joins ha.host_info.id s
          (register_tick (server_register error_text generated now) m now ha s)
  unfolding update_host_info serve apply
  register_tick-Joins m now ha s l c h =
      let info = (update_host_info m now ha).host_info in
      let q = registers info in
      let r = registered_state m now ha s l c h in
      let moved = (implements generated q now s c).moved ha.host_info.id in
      let stands : standing ha.host_info.id
            (register_tick (server_register error_text generated now) m now ha s).1
          ≡ (apply q (standing ha.host_info.id s)).1 =
        ap (standing ha.host_info.id) r.1 ∙ moved ∙ ground (arith, l.known) in
      (
        r.0,
        ap (λ x. x.approved) stands,
        ground (arith, ap (λ x. x.approved) stands, ap (λ x. x.waiting) stands),
        subst IsCalm (sym r.1) (implements-IsCalm generated q now s c),
      )

  -- The register tick after a report tick.
  then_register :
      (approved : Bool) (m : Measured) (now : Time) (ha : HostAgent) (s s' : HostState)
      → IsLinked ha
      → IsCalm s'
      → standing ha.host_info.id s' ≡ standing ha.host_info.id s
      → (standing ha.host_info.id s).approved ≡ approved
      → Joins ha.host_info.id s (
          register_tick
            (server_register error_text generated now)
            m
            now
            (record ha { is_registered = approved })
            s')
  unfolding register_tick
  then_register true m now ha s s' l c e h =
      subst (Joins ha.host_info.id s) (sym (second_fails ha.grpc_agent.connected false _ _ refl))
        (refl, ap (λ x. x.approved) e, ground (arith, ap (λ x. x.approved) e, h), c)
  then_register false m now ha s s' l c e h =
      let r =
        register_tick-Joins m now (record ha { is_registered = false }) s'
          (record {
            connected = l.connected;
            client = l.client;
            has_client = l.has_client;
            known = l.known;
            named = l.named;
          })
          c refl in
      (r.0, r.1 ∙ ap (λ x. x.approved) e, r.2, r.3)

  -- Where the server is calm, the agent linked, and the text of the server's refusal is one that the agent
  -- recognises: a report tick and the next register tick bring agent and server together again,
  -- whatever both held before and whatever the requests to the server had been. The agent then counts
  -- as registered, and its host is approved where it was before, and waits for its admission where it
  -- was not.
  pub ticks-Joins :
      (status : StatusReport) (m : Measured) (now later : Time) (ha : HostAgent) (s : HostState)
      → IsLinked ha
      → IsCalm s
      → (let r =
            report_tick contains code_text (server_report error_text generated now) status ha s in
          Joins ha.host_info.id s
            (register_tick (server_register error_text generated later) m later r.0 r.1))
  unfolding report_tick
  ticks-Joins status m now later ha s l c = elim (Bool-cases ha.is_registered) [
    | inl h ↦
        let told = report_host_status-IsReported (own_status ha status) now s c in
        subst
          (λ (r : HostAgent × HostState).
            Joins ha.host_info.id s
              (register_tick (server_register error_text generated later) m later r.0 r.1))
          (sym (report_tick-lem status now ha s l c h))
          (then_register (standing ha.host_info.id s).approved m later ha s _ l told.still_calm
            (told.same_standing ha.host_info.id) refl)
    | inr h ↦
        subst
          (λ (r : HostAgent × HostState).
            Joins ha.host_info.id s
              (register_tick (server_register error_text generated later) m later r.0 r.1))
          (sym (second_fails ha.grpc_agent.connected ha.is_registered _ _ h))
          (register_tick-Joins m later ha s l c h)
  ]
