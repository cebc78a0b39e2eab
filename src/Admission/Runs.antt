-- ===== src/Admission/Runs.antt =====
-- Any sequence of requests, against the abstract machine.
use devops_manager.Prelude.{
  ℕ, ◌≡◌, refl, ap, sym, subst, ◌∙◌, Bool, true, false, ◌==◌, Time, List, [], ◌∷◌, ◌++◌, All,
  if◌then◌else◌, arith,
}
use devops_manager.Admission.Effects.{HostInfo, HostState}
use devops_manager.Admission.Spec.{
  Standing, Request, registers, approves, rejects, deletes, apply, serve, subject, standing,
  IsValid, Implements,
}
use devops_manager.Admission.Refines.{serve-Implements}

unfoldable pub serve_all : (generated : Time → ℕ) → List (Request × Time) → HostState → HostState
serve_all generated [] s = s
serve_all generated ((q, now) ∷ qs) s = serve_all generated qs (serve generated q now s).1

-- What the abstract machine of one host makes of the requests; those about other hosts pass it by.
unfoldable pub apply_all : (generated : Time → ℕ) → ℕ → List (Request × Time) → Standing → Standing
apply_all generated j [] s = s
apply_all generated j ((q, now) ∷ qs) s =
    apply_all generated j qs (if j == subject generated q now then (apply q s).1 else s)

-- Redis is there, no call fails, and the tables are valid.
pub record IsCalm (s : HostState) : Type 0 where
  pub valid : IsValid s.hosts
  pub no_faults : s.faults ≡ []
  pub redis_there : s.redis_set ≡ true

module _ (generated : Time → ℕ) where
  pub implements :
      (q : Request) (now : Time) (s : HostState) → IsCalm s → Implements generated q now s
  implements q now s c =
      let ready : Implements generated q now (record s { redis_set = true; faults = [] }) =
        serve-Implements generated now s.hosts s.pending s.cached s.cached_status c.valid q in
      subst (λ b. Implements generated q now (record s { redis_set = b })) (sym c.redis_there)
        (subst (λ f. Implements generated q now (record s { redis_set = true; faults = f }))
          (sym c.no_faults) ready)

  pub implements-IsCalm :
      (q : Request) (now : Time) (s : HostState) → IsCalm s → IsCalm (serve generated q now s).1
  implements-IsCalm q now s c =
      let i = implements q now s c in
      record { valid = i.kept; no_faults = i.still_calm; redis_there = i.still_set }

  -- HostService refines the abstract machine over every sequence of requests, as long as Redis is
  -- there, no call fails and the tables are valid at the start: the standing of each host afterwards
  -- is the one that the machine of the host computes from its standing before.
  pub serve_all-apply_all :
      (qs : List (Request × Time)) (s : HostState) (j : ℕ)
      → IsCalm s
      → standing j (serve_all generated qs s) ≡ apply_all generated j qs (standing j s)
  unfolding serve_all apply_all
  serve_all-apply_all [] s j c = refl
  serve_all-apply_all ((q, now) ∷ qs) s j c =
      serve_all-apply_all qs (serve generated q now s).1 j (implements-IsCalm q now s c)
      ∙ ap (apply_all generated j qs) ((implements q now s c).moved j)

  abbrev pub approves_host : ℕ → Request → Bool
  approves_host j (approves id) = j == id
  approves_host j _ = false

  machine-unasked :
      (qs : List (Request × Time)) (s : Standing) (j : ℕ)
      → All (λ q. approves_host j q.0 ≡ false) qs
      → s.approved ≡ false
      → (apply_all generated j qs s).approved ≡ false
  unfolding apply_all apply
  machine-unasked [] s j h e = e
  machine-unasked ((registers info, now) ∷ qs) s j h e =
      machine-unasked qs _ j h.1 (ground (arith, e))
  machine-unasked ((approves id, now) ∷ qs) s j h e =
      machine-unasked qs _ j h.1 (ground (arith, e, h.0))
  machine-unasked ((rejects id, now) ∷ qs) s j h e = machine-unasked qs _ j h.1 (ground (arith, e))
  machine-unasked ((deletes id, now) ∷ qs) s j h e = machine-unasked qs _ j h.1 (ground (arith, e))

  -- Under the same conditions, a host that is not approved at the start is not approved after any
  -- sequence of requests none of which asks to approve it.
  pub serve_all-unasked :
      (qs : List (Request × Time)) (s : HostState) (j : ℕ)
      → IsCalm s
      → All (λ q. approves_host j q.0 ≡ false) qs
      → (standing j s).approved ≡ false
      → (standing j (serve_all generated qs s)).approved ≡ false
  serve_all-unasked qs s j c h e =
      ap (λ x. x.approved) (serve_all-apply_all qs s j c) ∙ machine-unasked qs (standing j s) j h e

  machine-others :
      (qs rest : List (Request × Time)) (s : Standing) (j : ℕ)
      → All (λ q. (j == subject generated q.0 q.1) ≡ false) qs
      → apply_all generated j (qs ++ rest) s ≡ apply_all generated j rest s
  unfolding apply_all
  machine-others [] rest s j h = refl
  machine-others ((q, now) ∷ qs) rest s j h = rw (apply_all, h.0) (machine-others qs rest s j h.1)

  machine-admits :
      (info : HostInfo) (id : ℕ) (now later : Time) (qs : List (Request × Time)) (s : Standing)
      → subject generated (registers info) now ≡ id
      → s.retired ≡ false
      → All (λ q. (id == subject generated q.0 q.1) ≡ false) qs
      → (apply_all generated id
          ((registers info, now) ∷ qs ++ (approves id, later) ∷ [])
          s).approved
        ≡ true
  unfolding apply_all apply
  machine-admits info id now later qs s named fresh others =
      rw (apply_all, machine-others qs ((approves id, later) ∷ []) _ id others)
        (ground (arith, named, fresh))

  -- Under the same conditions, a host that was never deleted is approved in the end where it
  -- registers, requests about other hosts follow in any number, and then it is approved.
  pub serve_all-admits :
      (info : HostInfo) (id : ℕ) (now later : Time) (qs : List (Request × Time)) (s : HostState)
      → IsCalm s
      → subject generated (registers info) now ≡ id
      → (standing id s).retired ≡ false
      → All (λ q. (id == subject generated q.0 q.1) ≡ false) qs
      → (standing id (
          serve_all generated ((registers info, now) ∷ qs ++ (approves id, later) ∷ []) s)).approved
        ≡ true
  serve_all-admits info id now later qs s c named fresh others =
      ap (λ x. x.approved)
        (serve_all-apply_all ((registers info, now) ∷ qs ++ (approves id, later) ∷ []) s id c)
      ∙ machine-admits info id now later qs (standing id s) named fresh others
