-- ===== src/Projection/Lease.antt =====
-- The lease of packages/node/src/projection-runner.ts: runLeased, acquireUntilGranted, startRenew,
-- stopRenew, releaseLease, dropGrant and stop, as pieces of code between awaits.
pub mod Held
pub mod Kept
pub mod Renewed
mod Tests
use ironflow_js.Prelude.{
  ℕ, zero, suc, ◌+◌, Bool, true, false, not, ◌&&◌, Option, none, some, List, [], ◌∷◌, ◌++◌, ◌==◌,
  if◌then◌else◌,
}

-- Where runLeased stands: acquireLease, the transport, dropGrant's await, or behind its `finally`.
pub data Stand : Type 0 where
  standby : Stand
  holding : Stand
  dropping : Stand
  ended : Stand

-- A run of `renew`: the controller of its grant, and the epoch in its body.
pub record Renew : Type 0 where
  pub grant : ℕ
  pub epoch : ℕ

-- `grant` names the controller leaseLost, `grant_lost` is its abort. `timer` is the armed timer
-- behind renewTimer, `leaked` are armed ones that it no longer names. `renewing` are the requests
-- under way. `fenced` is a history: the epochs that the server has answered to be lost.
pub record Holder : Type 0 where
  pub stopping : Bool
  pub stand : Stand
  pub lease : Option ℕ
  pub grant : ℕ
  pub grant_lost : Bool
  pub renew_grant : Option ℕ
  pub timer : Option Renew
  pub leaked : List Renew
  pub renewing : List Renew
  pub fenced : List ℕ

abbrev pub idle : Holder
idle = record {
  stopping = false;
  stand = Stand.standby;
  lease = none;
  grant = 0;
  grant_lost = false;
  renew_grant = none;
  timer = none;
  leaked = [];
  renewing = [];
  fenced = [];
}

abbrev pub is_standby : Stand → Bool
is_standby Stand.standby = true
is_standby _ = false

abbrev pub is_holding : Stand → Bool
is_holding Stand.holding = true
is_holding _ = false

abbrev pub is_dropping : Stand → Bool
is_dropping Stand.dropping = true
is_dropping _ = false

abbrev pub is_ended : Stand → Bool
is_ended Stand.ended = true
is_ended _ = false

-- `this.renewGrant === grant`.
abbrev pub serves : ℕ → Option ℕ → Bool
serves g none = false
serves g (some h) = h == g

abbrev pub overwrite : Option Renew → List Renew → List Renew
overwrite none leaked = leaked
overwrite (some r) leaked = r ∷ leaked

unfoldable pub set_timer : Renew → Holder → Holder
set_timer r s = record s { timer = some r; leaked = overwrite s.timer s.leaked }

unfoldable pub stop_renew : Holder → Holder
stop_renew s = record s { renew_grant = none; timer = none }

unfoldable pub start_renew : ℕ → Holder → Holder
unfolding set_timer
start_renew epoch s =
    set_timer (record { grant = s.grant; epoch = epoch }) (record s { renew_grant = some s.grant })

unfoldable pub release_lease : Holder → Holder
unfolding stop_renew
release_lease s = record (stop_renew s) { lease = none }

-- The `finally` of runLeased: a stop releases the lease behind its last save.
unfoldable pub end_run : Holder → Holder
unfolding stop_renew release_lease
end_run s =
    if s.stopping
    then record (stop_renew s) { stand = Stand.ended }
    else record (release_lease (stop_renew s)) { stand = Stand.ended }

-- An Acquire that is answered with a grant.
unfoldable pub acquire_granted : ℕ → Holder → Holder
unfolding end_run start_renew
acquire_granted epoch s =
    if is_standby s.stand
    then (if s.stopping
        then end_run (record s { lease = some epoch })
        else start_renew epoch (record s { lease = some epoch; stand = Stand.holding }))
    else s

-- Any other answer: it is tried again, unless the intake has stopped.
unfoldable pub acquire_missed : Holder → Holder
unfolding end_run
acquire_missed s = if is_standby s.stand && s.stopping then end_run s else s

-- An old server or an auth error: acquireLease throws.
unfoldable pub acquire_refused : Holder → Holder
unfolding end_run
acquire_refused s = if is_standby s.stand then end_run s else s

unfoldable pub transport_returns : Holder → Holder
unfolding end_run
transport_returns s = if is_holding s.stand then end_run s else s

-- The catch of runLeased, up to dropGrant's await.
unfoldable pub transport_throws : Holder → Holder
unfolding end_run stop_renew
transport_throws s =
    if is_holding s.stand
    then (if s.grant_lost then record (stop_renew s) { stand = Stand.dropping } else end_run s)
    else s

-- `lost` on a lease error of a request that carried the held lease.
unfoldable pub mark_lost : Holder → Holder
mark_lost s = elim s.lease [ none ↦ s | some e ↦ record s { grant_lost = true } ]

abbrev pub note_fenced : Option ℕ → List ℕ → List ℕ
note_fenced none l = l
note_fenced (some e) l = e ∷ l

-- A stream, poll, save or ack is answered that the lease is lost.
unfoldable pub request_fenced : Holder → Holder
unfolding mark_lost
request_fenced s = mark_lost (record s { fenced = note_fenced s.lease s.fenced })

-- dropGrant behind its await; a new controller.
unfoldable pub drop_grant : Holder → Holder
drop_grant s = record s { lease = none; grant = s.grant + 1; grant_lost = false }

unfoldable pub drop_settles : Holder → Holder
unfolding drop_grant
drop_settles s = if is_dropping s.stand then record (drop_grant s) { stand = Stand.standby } else s

unfoldable pub stop : Holder → Holder
stop s = record s { stopping = true }

-- finishStop behind the run and the flushes.
unfoldable pub stop_drops : Holder → Holder
unfolding drop_grant stop_renew
stop_drops s =
    if s.stopping && is_ended s.stand && s.grant_lost then drop_grant (stop_renew s) else s

-- finishStop's `finally`: behind the work, or when its time is up.
unfoldable pub stop_releases : Holder → Holder
unfolding release_lease
stop_releases s = if s.stopping then release_lease s else s

unfoldable pub timer_fires : Holder → Holder
timer_fires s = elim s.timer [
  | none ↦ s
  | some r ↦ record s { timer = none; renewing = r ∷ s.renewing }
]

unfoldable pub leaked_fires : Holder → Holder
leaked_fires s = elim s.leaked [
  | [] ↦ s
  | r ∷ rs ↦ record s { leaked = rs; renewing = r ∷ s.renewing }
]

-- What comes of a Renew: an answer that renews, a lost lease, another refusal, or an exception.
pub data Answer : Type 0 where
  renewed : Answer
  fenced_off : Answer
  refused : Answer
  broken : Answer

-- The end of `renew`: the next one is armed if the grant is still served.
unfoldable pub renew_again : Renew → Holder → Holder
unfolding set_timer
renew_again r s = if serves r.grant s.renew_grant then set_timer r s else s

-- `renew` behind its request.
unfoldable pub renew_answered : Renew → Answer → Holder → Holder
unfolding renew_again stop_renew mark_lost
renew_answered r Answer.renewed s = renew_again r s
renew_answered r Answer.refused s = renew_again r s
renew_answered r Answer.broken s = if s.stopping then s else renew_again r s
renew_answered r Answer.fenced_off s =
    let t : Holder = record s { fenced = r.epoch ∷ s.fenced } in
    if serves r.grant s.renew_grant && not s.stopping then mark_lost (stop_renew t) else t

-- The request at a place of `renewing` is answered.
unfoldable pub renew_at : ℕ → List Renew → List Renew → Answer → Holder → Holder
unfolding renew_answered
renew_at n passed [] a s = s
renew_at zero passed (r ∷ rs) a s = renew_answered r a (record s { renewing = passed ++ rs })
renew_at (suc n) passed (r ∷ rs) a s = renew_at n (passed ++ r ∷ []) rs a s

pub data Event : Type 0 where
  grants : ℕ → Event
  misses : Event
  refuses : Event
  returns : Event
  throws : Event
  fences : Event
  drops : Event
  stops : Event
  stop_drop : Event
  stop_release : Event
  fires : Event
  leak_fires : Event
  answers : ℕ → Answer → Event

unfoldable pub step : Event → Holder → Holder
unfolding acquire_granted acquire_missed acquire_refused transport_returns transport_throws
    request_fenced drop_settles stop stop_drops stop_releases timer_fires leaked_fires renew_at
step (Event.grants epoch) s = acquire_granted epoch s
step Event.misses s = acquire_missed s
step Event.refuses s = acquire_refused s
step Event.returns s = transport_returns s
step Event.throws s = transport_throws s
step Event.fences s = request_fenced s
step Event.drops s = drop_settles s
step Event.stops s = stop s
step Event.stop_drop s = stop_drops s
step Event.stop_release s = stop_releases s
step Event.fires s = timer_fires s
step Event.leak_fires s = leaked_fires s
step (Event.answers n a) s = renew_at n [] s.renewing a s

unfoldable pub run : List Event → Holder → Holder
unfolding step
run [] s = s
run (e ∷ es) s = run es (step e s)
