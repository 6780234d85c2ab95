-- ===== src/Platform/GrpcServer/Stopping.antt =====
-- That `Serve` stops once its context is cancelled.
use family_tree_identity_mic.Shared.{
  ℕ, ℤ, ◌+◌, ◌≤◌, ◌≡◌, refl, ◌⊎◌, inl, inr, Bool, true, false, Option, none, some, List, arith,
}
use family_tree_identity_mic.Domain.Errors.{Result}
use family_tree_identity_mic.Platform.GrpcServer.{
  Check, Server, Main, waiting, marking, stopping, forcing, awaiting, returned, Stopper, absent,
  calling, blocked, closed, GrpcError, Grpc, running, draining, ended, drained_by_call,
  stopped_by_call, State, Step, Steps, here, then, started,
}
use family_tree_identity_mic.Platform.GrpcServer.Shutdown.{
  StaysEnded, running-StaysEnded, draining-StaysEnded, drained_by_call-StaysEnded, RunsTo,
  serve-cases,
}

-- A step of `Serve` or of the goroutine that it starts, which nobody else has to make possible. The
-- timer of `gracefulStop` counts as `Serve`'s.
abbrev pub is_own : {s t : State} → Step s t → Bool
is_own (Step.cancel e) = false
is_own (Step.tick checks m e) = false
is_own (Step.publish checks m e) = false
is_own (Step.quit m c e) = false
is_own (Step.fail x g e) = false
is_own (Step.drain g e) = false
is_own (Step.see_end x m g e) = true
is_own (Step.see_cancel m c e) = true
is_own (Step.mark m e) = true
is_own (Step.call_graceful_stop m e) = true
is_own (Step.close x m g e) = true
is_own (Step.finish m c e) = true
is_own (Step.expire m e) = true
is_own (Step.call_stop m e) = true
is_own (Step.finish_forced m c e) = true

abbrev pub one_if : Bool → ℕ
one_if true = 1
one_if false = 0

unfoldable pub own_steps : {s t : State} → Steps s t → ℕ
own_steps here = 0
own_steps (then steps step) = one_if (is_own step) + own_steps steps

abbrev pub HasReturned : State → Type 0
HasReturned t = (r : Result (Unit {0})) × (t.main ≡ returned r)

-- How many steps are left at most.
abbrev main_rank : Main → ℕ
main_rank waiting = 5
main_rank marking = 4
main_rank stopping = 3
main_rank forcing = 2
main_rank awaiting = 1
main_rank (returned r) = 0

abbrev stopper_rank : Stopper → ℕ
stopper_rank absent = 2
stopper_rank calling = 2
stopper_rank blocked = 1
stopper_rank closed = 0

abbrev rank : State → ℕ
rank s = main_rank s.main + stopper_rank s.stopper

abbrev IsGoing : Stopper → Type 0
IsGoing absent = ⊥
IsGoing calling = Unit {0}
IsGoing blocked = Unit {0}
IsGoing closed = Unit {0}

abbrev HasEnded : Grpc → Type 0
HasEnded g = (e : Option GrpcError) × (g ≡ ended e)

-- The goroutine runs while `Serve` waits for it, and behind `Stop` the gRPC server has ended.
abbrev IsSound : Main → Stopper → Grpc → Type 0
IsSound waiting p g = p ≡ absent
IsSound marking p g = p ≡ absent
IsSound stopping p g = IsGoing p
IsSound forcing p g = IsGoing p
IsSound awaiting p g = IsGoing p × HasEnded g
IsSound (returned r) p g = Unit {0}

abbrev IsSoundState : State → Type 0
IsSoundState s = IsSound s.main s.stopper s.grpc

IsSound-StaysEnded :
    (m : Main) (p : Stopper) (g g' : Grpc) → StaysEnded g g' → IsSound m p g → IsSound m p g'
IsSound-StaysEnded waiting p g g' stays h = h
IsSound-StaysEnded marking p g g' stays h = h
IsSound-StaysEnded stopping p g g' stays h = h
IsSound-StaysEnded forcing p g g' stays h = h
IsSound-StaysEnded awaiting p g g' stays (going, (e, h)) = (going, (e, stays e h))
IsSound-StaysEnded (returned r) p g g' stays h = h

IsSound-IsGoing :
    (m : Main) (p p' : Stopper) (g : Grpc) → IsGoing p → IsGoing p' → IsSound m p g → IsSound m p' g
IsSound-IsGoing waiting absent p' g going going' h = absurd going
IsSound-IsGoing waiting calling p' g going going' h = absurd (ground arith)
IsSound-IsGoing waiting blocked p' g going going' h = absurd (ground arith)
IsSound-IsGoing waiting closed p' g going going' h = absurd (ground arith)
IsSound-IsGoing marking absent p' g going going' h = absurd going
IsSound-IsGoing marking calling p' g going going' h = absurd (ground arith)
IsSound-IsGoing marking blocked p' g going going' h = absurd (ground arith)
IsSound-IsGoing marking closed p' g going going' h = absurd (ground arith)
IsSound-IsGoing stopping p p' g going going' h = going'
IsSound-IsGoing forcing p p' g going going' h = going'
IsSound-IsGoing awaiting p p' g going going' h = (going', h.1)
IsSound-IsGoing (returned r) p p' g going going' h = tt

stopped_by_call-HasEnded : (g : Grpc) → HasEnded (stopped_by_call g)
stopped_by_call-HasEnded running = (none, refl)
stopped_by_call-HasEnded draining = (none, refl)
stopped_by_call-HasEnded (ended e) = (e, refl)

Step-IsSound : (s t : State) → Step s t → IsSoundState s → IsSoundState t
Step-IsSound s t (Step.cancel e) h = rw e h
Step-IsSound s t (Step.tick checks m e) h = rw e h
Step-IsSound s t (Step.publish checks m e) h = rw e h
Step-IsSound s t (Step.quit m c e) h = rw e h
Step-IsSound s t (Step.fail x g e) h =
    rw e (IsSound-StaysEnded s.main s.stopper s.grpc (ended (some x)) (running-StaysEnded _ _ g) h)
Step-IsSound s t (Step.drain g e) h =
    rw e (IsSound-StaysEnded s.main s.stopper s.grpc (ended none) (draining-StaysEnded _ _ g) h)
Step-IsSound s t (Step.see_end x m g e) h = rw e tt
Step-IsSound s t (Step.see_cancel m c e) h = rw e (rw m at h)
Step-IsSound s t (Step.mark m e) h = rw e tt
Step-IsSound s t (Step.call_graceful_stop p e) h = rw e (
    IsSound-IsGoing s.main s.stopper blocked (drained_by_call s.grpc) (rw p tt) tt (
      IsSound-StaysEnded s.main s.stopper s.grpc (drained_by_call s.grpc)
        (drained_by_call-StaysEnded s.grpc) h))
Step-IsSound s t (Step.close x p g e) h =
    rw e (IsSound-IsGoing s.main s.stopper closed s.grpc (rw p tt) tt h)
Step-IsSound s t (Step.finish m c e) h = rw e tt
Step-IsSound s t (Step.expire m e) h = rw e (rw m at h)
Step-IsSound s t (Step.call_stop m e) h = rw e (rw m at h, stopped_by_call-HasEnded s.grpc)
Step-IsSound s t (Step.finish_forced m c e) h = rw e tt

-- A step of its own takes `Serve` nearer to its end, and no other step takes it away from it.
Step-rank :
    (s t : State) (step : Step s t) → IsSoundState s → one_if (is_own step) + rank t ≤ rank s
Step-rank s t (Step.cancel e) h = rw e (omega arith)
Step-rank s t (Step.tick checks m e) h = rw e (omega arith)
Step-rank s t (Step.publish checks m e) h = rw e (omega arith)
Step-rank s t (Step.quit m c e) h = rw e (omega arith)
Step-rank s t (Step.fail x g e) h = rw e (omega arith)
Step-rank s t (Step.drain g e) h = rw e (omega arith)
Step-rank s t (Step.see_end x m g e) h = rw (e, m) (omega arith)
Step-rank s t (Step.see_cancel m c e) h = rw (e, m) (omega arith)
Step-rank s t (Step.mark m e) h =
    let p : (s.stopper ≡ absent) = rw m at h in rw (e, m, p) (omega arith)
Step-rank s t (Step.call_graceful_stop p e) h = rw (e, p) (omega arith)
Step-rank s t (Step.close x p g e) h = rw (e, p) (omega arith)
Step-rank s t (Step.finish m c e) h = rw (e, m) (omega arith)
Step-rank s t (Step.expire m e) h = rw (e, m) (omega arith)
Step-rank s t (Step.call_stop m e) h = rw (e, m) (omega arith)
Step-rank s t (Step.finish_forced m c e) h = rw (e, m) (omega arith)

Step-cancelled : (s t : State) → Step s t → s.cancelled ≡ true → t.cancelled ≡ true
Step-cancelled s t (Step.cancel e) h = rw e refl
Step-cancelled s t (Step.tick checks m e) h = rw e h
Step-cancelled s t (Step.publish checks m e) h = rw e h
Step-cancelled s t (Step.quit m c e) h = rw e h
Step-cancelled s t (Step.fail x g e) h = rw e h
Step-cancelled s t (Step.drain g e) h = rw e h
Step-cancelled s t (Step.see_end x m g e) h = rw e h
Step-cancelled s t (Step.see_cancel m c e) h = rw e h
Step-cancelled s t (Step.mark m e) h = rw e h
Step-cancelled s t (Step.call_graceful_stop m e) h = rw e h
Step-cancelled s t (Step.close x m g e) h = rw e h
Step-cancelled s t (Step.finish m c e) h = rw e h
Step-cancelled s t (Step.expire m e) h = rw e h
Step-cancelled s t (Step.call_stop m e) h = rw e h
Step-cancelled s t (Step.finish_forced m c e) h = rw e h

-- What holds at the start of some steps holds at their end, and their own steps are paid for.
Steps-rank :
    {s t : State} (steps : Steps s t)
    → IsSoundState s
    → IsSoundState t × (own_steps steps + rank t ≤ rank s)
unfolding own_steps
Steps-rank here h = (h, omega arith)
Steps-rank (then {t} {u} steps step) h =
    let (sound, paid) = Steps-rank steps h in
    let less = Step-rank t u step sound in (Step-IsSound t u step sound, omega arith)

Steps-cancelled : {s t : State} → Steps s t → s.cancelled ≡ true → t.cancelled ≡ true
Steps-cancelled here h = h
Steps-cancelled (then {t} {u} steps step) h = Step-cancelled t u step (Steps-cancelled steps h)

-- `Serve` or its goroutine can take a step.
abbrev pub CanStep : State → Type 0
CanStep s = (t : State) × ((step : Step s t) × (is_own step ≡ true))

waits_last :
    (s : State) (p : Stopper)
    → s.main ≡ awaiting
    → s.stopper ≡ p
    → IsGoing p
    → HasEnded s.grpc
    → CanStep s
waits_last s absent m e going over = absurd going
waits_last s calling m e going over = (_, (Step.call_graceful_stop e refl, refl))
waits_last s blocked m e going (x, g) = (_, (Step.close x e g refl, refl))
waits_last s closed m e going over = (_, (Step.finish_forced m e refl, refl))

goes_on :
    (s : State) (m : Main)
    → s.main ≡ m
    → s.cancelled ≡ true
    → IsSound m s.stopper s.grpc
    → HasReturned s ⊎ CanStep s
goes_on s waiting m c h = inr (_, (Step.see_cancel m c refl, refl))
goes_on s marking m c h = inr (_, (Step.mark m refl, refl))
goes_on s stopping m c h = inr (_, (Step.expire m refl, refl))
goes_on s forcing m c h = inr (_, (Step.call_stop m refl, refl))
goes_on s awaiting m c h = inr (waits_last s s.stopper m refl h.0 h.1)
goes_on s (returned r) m c h = inl (r, m)

rank_bound : (m : Main) (p : Stopper) → main_rank m + stopper_rank p ≤ 7
rank_bound m p = ground arith

-- Once the context of a `Serve` that runs is cancelled, `Serve` and its goroutine take at most seven
-- more steps, however the others interleave; and wherever they stand, either `Serve` has returned or
-- one of these steps can be taken, even if the gRPC server never finishes its pending calls.
pub serve_stops :
    (timeout : ℤ) (checks : List Check) (server : Server) (t u : State)
    → RunsTo timeout checks server t
    → t.cancelled ≡ true
    → (later : Steps t u) → (own_steps later ≤ 7) × (HasReturned u ⊎ CanStep u)
serve_stops timeout checks server t u (s, begun, steps) c later =
    elim (serve-cases timeout checks server) [
      | inl (bad, told) ↦ absurd (ground arith)
      | inr (good, begun') ↦
          let same : (s ≡ started checks server) = ground arith in
          let (sound, _) = Steps-rank steps (rw same refl) in
          let (sound', paid) = Steps-rank later sound in
          let bound = rank_bound t.main t.stopper in
          (omega arith, goes_on u u.main refl (Steps-cancelled later c) sound')
    ]
