-- ===== src/Platform/GrpcServer/Readiness.antt =====
-- The log of the readiness.
use family_tree_identity_mic.Shared.{
  ◌≡◌, refl, inl, inr, Bool-cases, true, false, Option, none, some, String, List, [], ◌∷◌, arith,
}
use family_tree_identity_mic.Domain.Errors.{Error}
use family_tree_identity_mic.Platform.GrpcServer.{
  Serving, unknown, serving, not_serving, same_status, Check, Line, became_serving,
  became_not_serving, Server, first_failure, status_after, line_after, publish_status,
  update_readiness,
}

abbrev pub status_of_line : Line → Serving
status_of_line became_serving = serving
status_of_line (became_not_serving name e) = not_serving

-- The lines, newest first, tell of one change after the other, from unknown to the status last given.
abbrev pub Alternates : Serving → List Line → Type 0
Alternates status [] = status ≡ unknown
Alternates status (line ∷ lines) =
    (status_of_line line ≡ status)
    × ((last : Serving) × Alternates last lines × (same_status last status ≡ false))

-- The rounds of checks that a server makes.
unfoldable pub rounds : List (List Check) → Server → Server
rounds [] server = server
rounds (checks ∷ later) server = rounds later (update_readiness checks server)

same_status-eq : (a b : Serving) → same_status a b ≡ true → a ≡ b
same_status-eq unknown unknown e = refl
same_status-eq serving serving e = refl
same_status-eq not_serving not_serving e = refl
same_status-eq _ _ e = absurd (ground arith)

line_after-status :
    (failure : Option (String × Error)) → status_of_line (line_after failure) ≡ status_after failure
line_after-status none = refl
line_after-status (some failure) = refl

publish_status-Alternates :
    (failure : Option (String × Error)) (server : Server)
    → Alternates server.readiness server.log
    → Alternates (publish_status failure server).readiness (publish_status failure server).log
unfolding publish_status
publish_status-Alternates failure server h =
    elim (Bool-cases (same_status server.readiness (status_after failure))) [
      | inl same ↦
          let e = same_status-eq server.readiness (status_after failure) same in rw same (rw e at h)
      | inr other ↦ rw other (line_after-status failure, (server.readiness, h, other))
    ]

-- After any rounds of checks the readiness is logged exactly when it changed: each line differs from
-- the one before it, and the newest tells the status that the server has.
pub rounds-Alternates :
    (all_rounds : List (List Check)) (server : Server)
    → Alternates server.readiness server.log
    → Alternates (rounds all_rounds server).readiness (rounds all_rounds server).log
unfolding rounds update_readiness
rounds-Alternates [] server h = h
rounds-Alternates (checks ∷ later) server h =
    rounds-Alternates later (update_readiness checks server)
      (publish_status-Alternates (first_failure checks) server h)
