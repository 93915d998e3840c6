-- ===== src/Projection/Lease/Held.antt =====
-- What the runner keeps true of its lease, in every piece of its code but the answers to renews
-- (packages/node/src/projection-runner.ts).
use ironflow_js.Prelude.{
  ℕ, ◌≡◌, refl, Bool, true, false, ◌&&◌, ◌||◌, Option, none, some, Option-split, if_split, List, [],
  ◌∷◌, ◌==◌, arith,
}
use ironflow_js.Projection.Lease.{
  Stand, Renew, Holder, is_standby, is_holding, is_dropping, is_ended, set_timer, stop_renew,
  start_renew, release_lease, end_run, acquire_granted, acquire_missed, acquire_refused,
  transport_returns, transport_throws, mark_lost, note_fenced, request_fenced, drop_grant,
  drop_settles, stop, stop_drops, stop_releases, timer_fires, leaked_fires,
}
use ironflow_js.Projection.Lease.Renewed.{
  IsRenewed, IsRenewed-stopped, IsRenewed-stopping, timer_none, IsRenewed-dropped,
  IsRenewed-started, IsRenewed-fired, count, count_next,
}

abbrev pub is_in : ℕ → List ℕ → Bool
is_in e [] = false
is_in e (f ∷ l) = f == e || is_in e l

-- A lease is taken for lost only when the server has answered so of its epoch.
abbrev pub Told : Bool → Option ℕ → List ℕ → Type 0
Told lost none fenced = Unit
Told lost (some e) fenced = lost ≡ true → is_in e fenced ≡ true

-- What holds where runLeased stands.
pub record InStand (stand : Stand) (stopping lost : Bool) (lease : Option ℕ) (grant : ℕ)
    (rg : Option ℕ) (renewing : List Renew) : Type 0 where
  pub standing_by :
      is_standby stand ≡ true
      → (rg ≡ none) × (lease ≡ none) × (lost ≡ false) × (count grant renewing ≡ 0)
  pub keeps : is_holding stand ≡ true → stopping ≡ false → lost ≡ false → rg ≡ some grant
  pub lets_go : is_dropping stand ≡ true → rg ≡ none

pub record IsHeld (s : Holder) : Type 0 where
  pub renews : IsRenewed s.stopping s.lease s.grant s.renew_grant s.timer s.leaked s.renewing
  pub told : Told s.grant_lost s.lease s.fenced
  pub stands : InStand s.stand s.stopping s.grant_lost s.lease s.grant s.renew_grant s.renewing

pub more_fenced :
    (f : ℕ) (lost : Bool) (lease : Option ℕ) (fenced : List ℕ)
    → Told lost lease fenced
    → Told lost lease (f ∷ fenced)
more_fenced f lost none fenced h = tt
more_fenced f lost (some e) fenced h = λ g. ground (arith, h g)

pub in_ended :
    {stopping lost : Bool} {lease : Option ℕ} {grant : ℕ} {rg : Option ℕ} {renewing : List Renew}
    → InStand Stand.ended stopping lost lease grant rg renewing
in_ended = record {
  standing_by = λ e. absurd (cc e);
  keeps = λ e. absurd (cc e);
  lets_go = λ e. absurd (cc e);
}

pub in_ended_at :
    {stopping lost : Bool} {lease : Option ℕ} {grant : ℕ} {rg : Option ℕ} {renewing : List Renew}
    (stand : Stand)
    → is_ended stand ≡ true
    → InStand stand stopping lost lease grant rg renewing
in_ended_at Stand.ended e = in_ended
in_ended_at Stand.standby e = absurd (cc e)
in_ended_at Stand.holding e = absurd (cc e)
in_ended_at Stand.dropping e = absurd (cc e)

pub unlost :
    (lost : Bool) (lease : Option ℕ) (fenced : List ℕ) → lost ≡ false → Told lost lease fenced
unlost lost none fenced e = tt
unlost lost (some f) fenced e = λ g. absurd (cc (e, g))

pub end_run-IsHeld :
    (s : Holder) (lease : Option ℕ)
    → IsRenewed s.stopping lease s.grant s.renew_grant s.timer s.leaked s.renewing
    → Told s.grant_lost s.lease s.fenced
    → IsHeld (end_run s)
unfolding end_run stop_renew release_lease
end_run-IsHeld s lease renews told =
    if_split IsHeld s.stopping _ _
      (λ stopped. record {
        renews = IsRenewed-stopped renews s.stopping s.lease;
        told = told;
        stands = in_ended;
      })
      (λ runs. record {
        renews = IsRenewed-stopped renews s.stopping none;
        told = tt;
        stands = in_ended;
      })

pub acquire_granted-IsHeld : (epoch : ℕ) (s : Holder) → IsHeld s → IsHeld (acquire_granted epoch s)
unfolding acquire_granted start_renew set_timer
acquire_granted-IsHeld epoch s h =
    if_split IsHeld (is_standby s.stand) _ _
      (λ by.
        let free = h.stands.standing_by by in
        if_split IsHeld s.stopping _ _
          (λ stopped.
            end_run-IsHeld (record s { lease = some epoch }) s.lease h.renews
              (unlost s.grant_lost (some epoch) s.fenced free.2))
          (λ runs. record {
            renews = IsRenewed-started h.renews epoch free.0 free.3;
            told = unlost s.grant_lost (some epoch) s.fenced free.2;
            stands = record {
              standing_by = λ e. absurd (cc e);
              keeps = λ e f g. refl;
              lets_go = λ e. absurd (cc e);
            };
          }))
      (λ away. h)

pub acquire_missed-IsHeld : (s : Holder) → IsHeld s → IsHeld (acquire_missed s)
unfolding acquire_missed
acquire_missed-IsHeld s h =
    if_split IsHeld (is_standby s.stand && s.stopping) _ _
      (λ e. end_run-IsHeld s s.lease h.renews h.told) (λ e. h)

pub acquire_refused-IsHeld : (s : Holder) → IsHeld s → IsHeld (acquire_refused s)
unfolding acquire_refused
acquire_refused-IsHeld s h =
    if_split IsHeld (is_standby s.stand) _ _ (λ e. end_run-IsHeld s s.lease h.renews h.told)
      (λ e. h)

pub transport_returns-IsHeld : (s : Holder) → IsHeld s → IsHeld (transport_returns s)
unfolding transport_returns
transport_returns-IsHeld s h =
    if_split IsHeld (is_holding s.stand) _ _ (λ e. end_run-IsHeld s s.lease h.renews h.told)
      (λ e. h)

pub transport_throws-IsHeld : (s : Holder) → IsHeld s → IsHeld (transport_throws s)
unfolding transport_throws stop_renew
transport_throws-IsHeld s h =
    if_split IsHeld (is_holding s.stand) _ _
      (λ held.
        if_split IsHeld s.grant_lost _ _
          (λ lost. record {
            renews = IsRenewed-stopped h.renews s.stopping s.lease;
            told = h.told;
            stands = record {
              standing_by = λ e. absurd (cc e);
              keeps = λ e. absurd (cc e);
              lets_go = λ e. refl;
            };
          })
          (λ kept. end_run-IsHeld s s.lease h.renews h.told))
      (λ away. h)

pub mark_lost-IsHeld :
    (s : Holder)
    → IsRenewed s.stopping s.lease s.grant s.renew_grant s.timer s.leaked s.renewing
    → ((e : ℕ) → s.lease ≡ some e → is_in e s.fenced ≡ true)
    → (is_standby s.stand ≡ true → s.lease ≡ none)
    → (is_dropping s.stand ≡ true → s.renew_grant ≡ none)
    → (s.lease ≡ none → IsHeld s)
    → IsHeld (mark_lost s)
unfolding mark_lost
mark_lost-IsHeld s renews told by go unheld = Option-split IsHeld s.lease _ _ unheld (λ e held.
    record {
      renews = renews;
      told = rw held (λ f. told e held);
      stands = record {
        standing_by = λ f. absurd (cc (by f, held));
        keeps = λ f g k. absurd (cc k);
        lets_go = go;
      };
    })

pub is_in_first : (e : ℕ) (l : List ℕ) → is_in e (e ∷ l) ≡ true
is_in_first e l = ground arith

pub request_fenced-IsHeld : (s : Holder) → IsHeld s → IsHeld (request_fenced s)
unfolding request_fenced
request_fenced-IsHeld s h =
    mark_lost-IsHeld (record s { fenced = note_fenced s.lease s.fenced }) h.renews
      (λ e held. rw held (is_in_first e s.fenced)) (λ f. (h.stands.standing_by f).1)
      h.stands.lets_go
      (λ unheld. record { renews = h.renews; told = rw unheld tt; stands = h.stands })

pub drop_settles-IsHeld : (s : Holder) → IsHeld s → IsHeld (drop_settles s)
unfolding drop_settles drop_grant
drop_settles-IsHeld s h =
    if_split IsHeld (is_dropping s.stand) _ _
      (λ drops.
        let free = h.stands.lets_go drops in
        record {
          renews = IsRenewed-dropped h.renews free;
          told = tt;
          stands = record {
            standing_by = λ e. (free, refl, refl, count_next s.grant s.renewing h.renews.past);
            keeps = λ e. absurd (cc e);
            lets_go = λ e. absurd (cc e);
          };
        })
      (λ away. h)

pub stop-IsHeld : (s : Holder) → IsHeld s → IsHeld (stop s)
unfolding stop
stop-IsHeld s h = record {
  renews = IsRenewed-stopping h.renews;
  told = h.told;
  stands = record {
    standing_by = h.stands.standing_by;
    keeps = λ e f. absurd (cc f);
    lets_go = h.stands.lets_go;
  };
}

pub stop_drops-IsHeld : (s : Holder) → IsHeld s → IsHeld (stop_drops s)
unfolding stop_drops drop_grant stop_renew
stop_drops-IsHeld s h =
    if_split IsHeld (s.stopping && is_ended s.stand && s.grant_lost) _ _
      (λ e. record {
        renews = IsRenewed-dropped (IsRenewed-stopped h.renews s.stopping s.lease) refl;
        told = tt;
        stands = in_ended_at s.stand (ground (arith, e));
      })
      (λ e. h)

pub stop_releases-IsHeld : (s : Holder) → IsHeld s → IsHeld (stop_releases s)
unfolding stop_releases release_lease stop_renew
stop_releases-IsHeld s h =
    if_split IsHeld s.stopping _ _
      (λ e. record {
        renews = IsRenewed-stopped h.renews s.stopping none;
        told = tt;
        stands = record {
          standing_by = λ f. (refl, refl, (h.stands.standing_by f).2, (h.stands.standing_by f).3);
          keeps = λ f g. absurd (cc (e, g));
          lets_go = λ f. refl;
        };
      })
      (λ e. h)

pub timer_fires-IsHeld : (s : Holder) → IsHeld s → IsHeld (timer_fires s)
unfolding timer_fires
timer_fires-IsHeld s h =
    Option-split IsHeld s.timer _ _ (λ gone. h)
      (λ r due. record {
        renews = IsRenewed-fired h.renews r due;
        told = h.told;
        stands = record {
          standing_by = λ e. absurd (cc (due, timer_none h.renews (h.stands.standing_by e).0));
          keeps = h.stands.keeps;
          lets_go = h.stands.lets_go;
        };
      })

pub leaked_fires_idle : (s : Holder) → s.leaked ≡ [] → leaked_fires s ≡ s
unfolding leaked_fires
leaked_fires_idle s e = ground (arith, e)

pub leaked_fires-IsHeld : (s : Holder) → IsHeld s → IsHeld (leaked_fires s)
leaked_fires-IsHeld s h = rw (leaked_fires_idle s h.renews.no_leaks) h
