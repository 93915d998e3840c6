-- ===== src/OfflineQueue/Queue.antt =====
-- The in-memory state of `OfflineQueue` (packages/browser/src/queue/queue.ts) and the parts of its
-- methods that run without an await. The counters are natural numbers: that no decrement meets a
-- zero is part of the invariant of the whole system.
pub mod Triage
pub mod Backoff
use ironflow_js.Prelude.{
  ℕ, ◌+◌, ◌-◌, ◌*◌, ◌^◌, min, String, Bool, true, false, not, ◌||◌, Option, none, some, ltb, ◌==◌,
  str_eq, if◌then◌else◌,
}
use ironflow_js.OfflineQueue.Types.{
  QueuedWriteKind, QueuedWrite, WriteLostReason, expired, identity_mismatch, destination_mismatch,
  unknown_kind, Message, under_other_identity, not_delivered_within, queued_for_other, no_endpoint,
  QueueState, QueueStats, idle, record_version,
}
use ironflow_js.OfflineQueue.Db.{Usage}

-- What the caller may pass: an absent option and one that is `undefined` are both `none`.
pub record ProvidedOptions : Type 0 where
  pub max_items : Option ℕ
  pub max_bytes : Option ℕ
  pub max_retention_ms : Option ℕ
  pub max_dead_lettered : Option ℕ
  pub backoff_initial_ms : Option ℕ
  pub backoff_max_ms : Option ℕ
  pub on_auth_required : Bool
  pub resolve_path : QueuedWriteKind → Option String

pub record Options : Type 0 where
  pub max_items : ℕ
  pub max_bytes : ℕ
  pub max_retention_ms : ℕ
  pub max_dead_lettered : ℕ
  pub backoff_initial_ms : ℕ
  pub backoff_max_ms : ℕ
  -- whether the application gave a callback
  pub on_auth_required : Bool
  pub resolve_path : QueuedWriteKind → Option String

unfoldable pub defaults : (QueuedWriteKind → Option String) → Bool → Options
defaults paths auth = record {
  max_items = 500;
  max_bytes = 5 * 1024 * 1024;
  max_retention_ms = 7 * 24 * 60 * 60 * 1000;
  max_dead_lettered = 100;
  backoff_initial_ms = 1000;
  backoff_max_ms = 60000;
  on_auth_required = auth;
  resolve_path = paths;
}

abbrev pub or_default : Option ℕ → ℕ → ℕ
or_default none d = d
or_default (some n) d = n

-- The constructor: a provided value overrides the default.
unfoldable pub options_of : ProvidedOptions → Options
unfolding defaults
options_of p =
    let d = defaults p.resolve_path p.on_auth_required in
    record {
      max_items = or_default p.max_items d.max_items;
      max_bytes = or_default p.max_bytes d.max_bytes;
      max_retention_ms = or_default p.max_retention_ms d.max_retention_ms;
      max_dead_lettered = or_default p.max_dead_lettered d.max_dead_lettered;
      backoff_initial_ms = or_default p.backoff_initial_ms d.backoff_initial_ms;
      backoff_max_ms = or_default p.backoff_max_ms d.backoff_max_ms;
      on_auth_required = p.on_auth_required;
      resolve_path = p.resolve_path;
    }

pub record Queue : Type 0 where
  -- `opts.identity`, which a new login rebinds
  pub identity : String
  -- `db !== null`
  pub started : Bool
  pub state : QueueState
  pub pending : ℕ
  pub bytes : ℕ
  pub dead_lettered : ℕ
  pub in_flight : ℕ
  pub session_total : ℕ
  pub attempt : ℕ
  pub draining : Bool
  pub stopped : Bool
  pub retry_armed : Bool
  pub refresh_queued : Bool
  pub counter_mutations : ℕ
  pub counter_epoch : ℕ
  pub refresh_retries : ℕ
  pub drain_requested : Bool

-- The fields as the class initialises them.
unfoldable pub new_queue : String → Queue
new_queue identity = record {
  identity = identity;
  started = false;
  state = idle;
  pending = 0;
  bytes = 0;
  dead_lettered = 0;
  in_flight = 0;
  session_total = 0;
  attempt = 0;
  draining = false;
  stopped = false;
  retry_armed = false;
  refresh_queued = false;
  counter_mutations = 0;
  counter_epoch = 0;
  refresh_retries = 0;
  drain_requested = false;
}

unfoldable pub stats : Queue → QueueStats
stats q = record {
  pending = q.pending;
  in_flight = q.in_flight;
  total = q.session_total;
  dead_lettered = q.dead_lettered;
  state = q.state;
}

pub record Mark : Type 0 where
  pub epoch : ℕ
  pub live : Bool

unfoldable pub counter_mark : Queue → Mark
counter_mark q = record { epoch = q.counter_epoch; live = ltb 0 q.counter_mutations }

unfoldable pub counter_raced : Mark → Queue → Bool
counter_raced m q = m.live || (ltb 0 q.counter_mutations || not (q.counter_epoch == m.epoch))

-- `mutate`: what runs before `op` and in its `finally`.
unfoldable pub begin_mutation : Queue → Queue
begin_mutation q = record q { counter_mutations = q.counter_mutations + 1 }

unfoldable pub end_mutation : Queue → Queue
end_mutation q = record q {
  counter_mutations = q.counter_mutations - 1;
  counter_epoch = q.counter_epoch + 1;
}

-- The ceiling of the jittered delay of the retry that is armed next.
unfoldable pub retry_ceiling : Options → ℕ → ℕ
retry_ceiling o attempt = min o.backoff_max_ms (o.backoff_initial_ms * 2 ^ attempt)

unfoldable pub schedule_retry : Queue → Queue
schedule_retry q =
    if q.stopped || q.retry_armed
    then q
    else record q { attempt = q.attempt + 1; retry_armed = true }

unfoldable pub clear_retry : Queue → Queue
clear_retry q = record q { retry_armed = false }

-- The assignments of `refreshCounters` after its two reads.
unfoldable pub commit_refresh : Mark → Usage → ℕ → Queue → Queue
unfolding counter_raced
commit_refresh m u dead q =
    if counter_raced m q
    then (if ltb q.refresh_retries 5
        then record q { refresh_retries = q.refresh_retries + 1 }
        else q)
    else record q { refresh_retries = 0; pending = u.count; bytes = u.bytes; dead_lettered = dead }

pub record Destination : Type 0 where
  pub server_url : String
  pub environment : String

-- What `drainSession` does with the record at the head.
pub data Verdict : Type 0 where
  block : Verdict
  retire : WriteLostReason → Message → Verdict
  send : String → Verdict

unfoldable pub triage : Options → String → ℕ → Destination → QueuedWrite → Verdict
triage o identity now dest w =
    if ltb record_version w.v
    then block
    else if not (str_eq w.identity identity)
    then retire identity_mismatch under_other_identity
    else if ltb o.max_retention_ms (now - w.enqueued_at)
    then retire expired (not_delivered_within o.max_retention_ms)
    else if not (str_eq w.server_url dest.server_url) || not (str_eq w.environment dest.environment)
    then retire destination_mismatch
        (queued_for_other w.server_url w.environment dest.server_url dest.environment)
    else elim (o.resolve_path w.kind) [
      | none ↦ retire unknown_kind (no_endpoint w.kind)
      | some path ↦ send path
    ]

-- A failure of `send`: an `IronflowError` with its status (if any), code and flag, or another error.
pub data Failure : Type 0 where
  ironflow_error : Option ℕ → String → Bool → String → Failure
  other_error : String → Failure

pub data Disposition : Type 0 where
  retry auth poison : Disposition

abbrev pub is_status : ℕ → Option ℕ → Bool
is_status n none = false
is_status n (some m) = m == n

unfoldable pub classify_failure : Failure → Disposition
classify_failure (other_error text) = retry
classify_failure (ironflow_error status code retryable text) =
    if is_status 401 status || str_eq code "unauthenticated"
    then auth
    else if retryable
    then retry
    else poison

abbrev pub text_of : Failure → String
text_of (ironflow_error status code retryable text) = text
text_of (other_error text) = text
