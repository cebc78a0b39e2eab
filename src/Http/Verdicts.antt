-- ===== src/Http/Verdicts.antt =====
-- The status codes of the requests that admit hosts, against the abstract machine of a host.
use Prim.Native.String.{String}
use devops_manager.Prelude.{ℕ, ◌≡◌, refl, ap, ◌∙◌, Time, List, [], ◌∷◌}
use devops_manager.Admission.{
  HostState, Error, Result, ok, err, register_host, approve_host, reject_host, delete_host,
}
use devops_manager.Admission.Spec.{
  Request, registers, approves, rejects, deletes, apply, serve, subject, standing,
}
use devops_manager.Admission.Runs.{
  serve_all, apply_all, serve_all-apply_all, IsCalm, implements, implements-IsCalm,
}
use devops_manager.Http.Reply.{
  Reply, send_message_response, send_success_response, send_error_response,
}
use devops_manager.Http.HostRoutes.{
  answered, answered_or_not_found, register_host_handler, approve_host_handler, reject_host_handler,
  delete_host_handler,
}
use devops_manager.Http.Tasks.{bound}

-- A request and the status code of its reply.
unfoldable pub handle :
    (error_text : Error → String) (generated : Time → ℕ)
    → Request
    → Time
    → HostState
    → ℕ × HostState
handle error_text generated (registers info) now s =
    let r = register_host_handler error_text generated (bound info) now s in (r.0.code, r.1)
handle error_text generated (approves id) now s =
    let r = approve_host_handler error_text id now s in (r.0.code, r.1)
handle error_text generated (rejects id) now s =
    let r = reject_host_handler error_text id s in (r.0.code, r.1)
handle error_text generated (deletes id) now s =
    let r = delete_host_handler error_text id now s in (r.0.code, r.1)

-- What the machine's answer is sent as: its errors are all sent as 500.
unfoldable pub code_for : Result (Unit {0}) → ℕ
code_for (ok a) = 200
code_for (err e) = 500

module _ (error_text : Error → String) where
  answered-code :
      {D : Type 0} (respond : Unit {0} → Reply D) (r : Result (Unit {0}) × HostState)
      → (respond tt).code ≡ 200
      → (answered error_text 500 respond r).0.code ≡ code_for r.0
  unfolding answered code_for send_error_response
  answered-code respond (ok tt, s) h = h
  answered-code respond (err e, s) h = refl

  answered-ok :
      {D : Type 0} (respond : Unit {0} → Reply D) (r : Result (Unit {0}) × HostState)
      → (respond tt).code ≡ 200
      → r.0 ≡ ok tt
      → (answered_or_not_found error_text respond r).0.code ≡ 200
  unfolding answered_or_not_found
  answered-ok respond (ok tt, s) h k = h
  answered-ok respond (err e, s) h k = cc

  module _ (generated : Time → ℕ) where
    handle-calm :
        (q : Request) (now : Time) (s : HostState)
        → IsCalm s
        → (handle error_text generated q now s).0
          ≡ code_for (apply q (standing (subject generated q now) s)).0
    unfolding handle serve apply register_host_handler approve_host_handler reject_host_handler
        delete_host_handler code_for send_message_response send_success_response
    handle-calm (registers info) now s c =
        answered-code _ (register_host generated info now s) refl
        ∙ ap code_for (implements generated (registers info) now s c).answer
    handle-calm (approves id) now s c =
        answered-code _ (approve_host id now s) refl
        ∙ ap code_for (implements generated (approves id) now s c).answer
    handle-calm (rejects id) now s c =
        answered-code _ (reject_host id s) refl
        ∙ ap code_for (implements generated (rejects id) now s c).answer
    handle-calm (deletes id) now s c =
        answered-ok _ (delete_host id now s) refl (implements generated (deletes id) now s c).answer

    serve_all-IsCalm :
        (qs : List (Request × Time)) (s : HostState) → IsCalm s → IsCalm (serve_all generated qs s)
    unfolding serve_all
    serve_all-IsCalm [] s c = c
    serve_all-IsCalm ((q, now) ∷ qs) s c =
        serve_all-IsCalm qs (serve generated q now s).1 (implements-IsCalm generated q now s c)

    -- As long as Redis is there, no call fails and the tables are valid at the start: after any
    -- sequence of requests, the next one is answered over HTTP with 200 where the abstract machine of
    -- its host, run over the same sequence, accepts it, and with 500 where the machine refuses it.
    pub handle-code_for :
        (qs : List (Request × Time)) (q : Request) (now : Time) (s : HostState)
        → IsCalm s
        → (handle error_text generated q now (serve_all generated qs s)).0
          ≡ code_for
              (apply q (
                apply_all generated
                  (subject generated q now)
                  qs
                  (standing (subject generated q now) s))).0
    handle-code_for qs q now s c =
        handle-calm q now (serve_all generated qs s) (serve_all-IsCalm qs s c)
        ∙ ap (λ t. code_for (apply q t).0)
            (serve_all-apply_all generated qs s (subject generated q now) c)
