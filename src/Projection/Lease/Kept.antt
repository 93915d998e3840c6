-- ===== src/Projection/Lease/Kept.antt =====
-- The answers to renews; a lease that is held is renewed, and lost only where the server says so
-- (packages/node/src/projection-runner.ts).
use mathlib.Core.List.{append_assoc}
use ironflow_js.Prelude.{
  ℕ, zero, suc, ◌+◌, ◌≡◌, ◌⊎◌, inl, inr, refl, sym, ◌∙◌, true, false, not, ◌&&◌, none, some,
  if_split, List, [], ◌∷◌, ◌++◌, arith,
}
use ironflow_js.Projection.Lease.{
  Renew, Holder, idle, is_holding, serves, set_timer, stop_renew, Answer, renew_again,
  renew_answered, renew_at, Event, step, run,
}
use ironflow_js.Projection.Lease.Renewed.{
  IsRenewed-off, left_bound, sent_held, timer_sent, Carries, IsRenewed-gone, IsRenewed-again,
  counted, armed, count,
}
use ironflow_js.Projection.Lease.Held.{
  is_in, Told, InStand, IsHeld, more_fenced, acquire_granted-IsHeld, acquire_missed-IsHeld,
  acquire_refused-IsHeld, transport_returns-IsHeld, transport_throws-IsHeld, mark_lost-IsHeld,
  request_fenced-IsHeld, drop_settles-IsHeld, stop-IsHeld, stop_drops-IsHeld, stop_releases-IsHeld,
  timer_fires-IsHeld, leaked_fires-IsHeld,
}

-- The request of a renew is no longer under way.
module _ (s : Holder) (h : IsHeld s) (a b : List Renew) (r : Renew)
    (e : s.renewing ≡ a ++ r ∷ b) where
  stands_less : InStand s.stand s.stopping s.grant_lost s.lease s.grant s.renew_grant (a ++ b)
  stands_less = record {
    standing_by = λ f.
        let free = h.stands.standing_by f in
        (free.0, free.1, free.2, omega (arith, counted h.renews a b r e, free.3));
    keeps = h.stands.keeps;
    lets_go = h.stands.lets_go;
  }

  gone-IsHeld :
      (fenced : List ℕ)
      → Told s.grant_lost s.lease fenced
      → (serves r.grant s.renew_grant ≡ false) ⊎ (s.stopping ≡ true)
      → IsHeld (record s { renewing = a ++ b; fenced = fenced })
  gone-IsHeld fenced told why = record {
    renews = IsRenewed-gone h.renews a b r e why;
    told = told;
    stands = stands_less;
  }

  renew_again-IsHeld : IsHeld (renew_again r (record s { renewing = a ++ b }))
  unfolding renew_again set_timer
  renew_again-IsHeld =
      if_split IsHeld (serves r.grant s.renew_grant) _ _
        (λ served. record {
          renews = IsRenewed-again h.renews a b r e served;
          told = h.told;
          stands = stands_less;
        })
        (λ other. gone-IsHeld s.fenced h.told (inl other))

  fenced_before : (f : ℕ) → Told s.grant_lost s.lease (f ∷ s.fenced)
  fenced_before f = more_fenced f s.grant_lost s.lease s.fenced h.told

  fenced_off-IsHeld : IsHeld (renew_answered r Answer.fenced_off (record s { renewing = a ++ b }))
  unfolding renew_answered stop_renew
  fenced_off-IsHeld =
      if_split IsHeld (serves r.grant s.renew_grant && not s.stopping) _ _
        (λ served.
          let sent : s.lease ≡ some r.epoch = sent_held h.renews a b r e (ground (arith, served)) in
          mark_lost-IsHeld
            (record s {
              renewing = a ++ b;
              fenced = r.epoch ∷ s.fenced;
              renew_grant = none;
              timer = none;
            })
            (IsRenewed-off s.stopping s.lease s.grant s.leaked (a ++ b) h.renews.no_leaks
              (left_bound h.renews a b r e))
            (λ f held. ground (arith, held, sent)) (λ f. (h.stands.standing_by f).1) (λ f. refl)
            (λ unheld. absurd (cc (unheld, sent))))
        (λ other. gone-IsHeld (r.epoch ∷ s.fenced) (fenced_before r.epoch) (ground (arith, other)))

  renew_answered-IsHeld :
      (x : Answer) → IsHeld (renew_answered r x (record s { renewing = a ++ b }))
  unfolding renew_answered
  renew_answered-IsHeld Answer.renewed = renew_again-IsHeld
  renew_answered-IsHeld Answer.refused = renew_again-IsHeld
  renew_answered-IsHeld Answer.broken =
      if_split IsHeld s.stopping _ _ (λ stopped. gone-IsHeld s.fenced h.told (inr stopped))
        (λ runs. renew_again-IsHeld)
  renew_answered-IsHeld Answer.fenced_off = fenced_off-IsHeld

renew_at-IsHeld :
    (n : ℕ) (passed rest : List Renew) (x : Answer) (s : Holder)
    → s.renewing ≡ passed ++ rest
    → IsHeld s
    → IsHeld (renew_at n passed rest x s)
unfolding renew_at
renew_at-IsHeld n passed [] x s e h = h
renew_at-IsHeld zero passed (r ∷ rs) x s e h = renew_answered-IsHeld s h passed rs r e x
renew_at-IsHeld (suc n) passed (r ∷ rs) x s e h =
    renew_at-IsHeld n (passed ++ r ∷ []) rs x s (e ∙ sym (append_assoc passed (r ∷ []) rs)) h

step-IsHeld : (e : Event) (s : Holder) → IsHeld s → IsHeld (step e s)
unfolding step
step-IsHeld (Event.grants epoch) s h = acquire_granted-IsHeld epoch s h
step-IsHeld Event.misses s h = acquire_missed-IsHeld s h
step-IsHeld Event.refuses s h = acquire_refused-IsHeld s h
step-IsHeld Event.returns s h = transport_returns-IsHeld s h
step-IsHeld Event.throws s h = transport_throws-IsHeld s h
step-IsHeld Event.fences s h = request_fenced-IsHeld s h
step-IsHeld Event.drops s h = drop_settles-IsHeld s h
step-IsHeld Event.stops s h = stop-IsHeld s h
step-IsHeld Event.stop_drop s h = stop_drops-IsHeld s h
step-IsHeld Event.stop_release s h = stop_releases-IsHeld s h
step-IsHeld Event.fires s h = timer_fires-IsHeld s h
step-IsHeld Event.leak_fires s h = leaked_fires-IsHeld s h
step-IsHeld (Event.answers n x) s h = renew_at-IsHeld n [] s.renewing x s refl h

run-IsHeld : (es : List Event) (s : Holder) → IsHeld s → IsHeld (run es s)
unfolding run
run-IsHeld [] s h = h
run-IsHeld (e ∷ es) s h = run-IsHeld es (step e s) (step-IsHeld e s h)

idle-IsHeld : IsHeld idle
idle-IsHeld = record {
  renews = IsRenewed-off false none 0 [] [] refl tt;
  told = tt;
  stands = record {
    standing_by = λ e. (refl, refl, refl, refl);
    keeps = λ e. absurd (cc e);
    lets_go = λ e. refl;
  };
}

-- After any events: while the transport runs under a lease that is not known to be lost, and the
-- runner is not stopped, exactly one renew of its grant is either armed or under way, and whichever
-- it is, it sends the lease that is held; no armed timer has been forgotten.
pub lease_stays_renewed :
    (es : List Event)
    → let s = run es idle in
      is_holding s.stand ≡ true
      → s.stopping ≡ false
      → s.grant_lost ≡ false
      → (armed s.timer + count s.grant s.renewing ≡ 1)
        × ((r : Renew) → s.timer ≡ some r → (r.grant ≡ s.grant) × (s.lease ≡ some r.epoch))
        × Carries s.lease (some s.grant) s.renewing
        × (s.leaked ≡ [])
lease_stays_renewed es holds runs kept =
    let s = run es idle in
    let h = run-IsHeld es idle idle-IsHeld in
    let own = h.stands.keeps holds runs kept in
    (
      omega (arith, h.renews.at_most own, h.renews.at_least own runs),
      λ r due. timer_sent h.renews own r due,
      rw own at h.renews.carried,
      h.renews.no_leaks,
    )

-- After any events, a runner that takes its lease for lost has been told so of that lease's epoch by
-- the server.
pub lost_only_told :
    (es : List Event) (e : ℕ)
    → let s = run es idle in s.grant_lost ≡ true → s.lease ≡ some e → is_in e s.fenced ≡ true
lost_only_told es e lost held =
    let h = run-IsHeld es idle idle-IsHeld in
    let told : Told (run es idle).grant_lost (some e) (run es idle).fenced = rw held at h.told in
    told lost
