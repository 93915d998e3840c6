-- ===== src/Projection/Lease/Tests.antt =====
-- Concrete runs of the lease (packages/node/src/projection-runner.ts).
use ironflow_js.Prelude.{◌+◌, ◌≡◌, refl, true, some, List, [], ◌∷◌}
use ironflow_js.Projection.Lease.{
  Renew, idle, Answer, Event, run, step, acquire_granted, start_renew, set_timer, request_fenced,
  mark_lost, transport_throws, stop_renew, drop_settles, drop_grant, timer_fires, renew_at,
  renew_answered, renew_again,
}
use ironflow_js.Projection.Lease.Renewed.{armed, count, Carries}
use ironflow_js.Projection.Lease.Held.{is_in}
use ironflow_js.Projection.Lease.Kept.{lease_stays_renewed, lost_only_told}

-- The first grant is lost with a renew of it under way; the second is renewed once before the late
-- answer to the first.
abbrev schedule : List Event
schedule =
    Event.grants 4
    ∷ Event.fires
    ∷ Event.fences
    ∷ Event.throws
    ∷ Event.drops
    ∷ Event.misses
    ∷ Event.grants 6
    ∷ Event.fires
    ∷ Event.answers 1 Answer.fenced_off
    ∷ Event.answers 0 Answer.refused
    ∷ []

lease_stays_renewed_example :
    let s = run schedule idle in
    (armed s.timer + count s.grant s.renewing ≡ 1)
    × ((r : Renew) → s.timer ≡ some r → (r.grant ≡ s.grant) × (s.lease ≡ some r.epoch))
    × Carries s.lease (some s.grant) s.renewing
    × (s.leaked ≡ [])
unfolding run step acquire_granted start_renew set_timer request_fenced mark_lost transport_throws
    stop_renew drop_settles drop_grant timer_fires renew_at renew_answered renew_again
lease_stays_renewed_example = lease_stays_renewed schedule refl refl refl

-- The second lease is lost too.
abbrev lost_again : List Event
lost_again =
    Event.grants 4
    ∷ Event.fences
    ∷ Event.throws
    ∷ Event.drops
    ∷ Event.grants 6
    ∷ Event.fires
    ∷ Event.answers 0 Answer.fenced_off
    ∷ []

lost_only_told_example : is_in 6 (run lost_again idle).fenced ≡ true
unfolding run step acquire_granted start_renew set_timer request_fenced mark_lost transport_throws
    stop_renew drop_settles drop_grant timer_fires renew_at renew_answered
lost_only_told_example = lost_only_told lost_again 6 refl refl
