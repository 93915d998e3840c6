-- ===== src/OfflineQueue/Enqueue.antt =====
-- `enqueue` of packages/browser/src/queue/queue.ts: the call up to its await, the two ways in which
-- its transaction ends, and what the call does then.
use Prim.Native.String.{len}
use ironflow_js.Prelude.{
  ℕ, zero, suc, ◌+◌, ◌-◌, String, not, Option, none, some, [], ◌∷◌, ◌++◌, ltb, if◌then◌else◌,
}
use ironflow_js.OfflineQueue.Types.{QueuedWriteKind, NewQueuedWrite, record_version}
use ironflow_js.OfflineQueue.Db.{append}
use ironflow_js.OfflineQueue.Queue.{Options, Destination, begin_mutation, end_mutation}
use ironflow_js.OfflineQueue.State.{System, request_drain}

-- A call, with what it reads on its way: the text of `JSON.stringify` (`none` if that throws or
-- returns undefined), two fresh identifiers, the clock and the destination.
pub record EnqueueInput : Type 0 where
  pub kind : QueuedWriteKind
  pub serialized : Option String
  pub idempotency_key : Option String
  pub fresh_id : String
  pub fresh_key : String
  pub destination : Destination
  pub now : ℕ

pub data Refusal : Type 0 where
  not_started unserializable : Refusal
  full_items full_bytes : ℕ → Refusal

pub data Outcome : Type 0 where
  handles : String → String → Outcome
  refused : Refusal → Outcome

abbrev pub key_or_fresh : Option String → String → String
key_or_fresh none fresh = fresh
key_or_fresh (some k) fresh = k

unfoldable pub new_write : EnqueueInput → String → String → NewQueuedWrite
new_write i body identity = record {
  v = record_version;
  local_id = i.fresh_id;
  idempotency_key = key_or_fresh i.idempotency_key i.fresh_key;
  kind = i.kind;
  server_url = i.destination.server_url;
  environment = i.destination.environment;
  body = body;
  bytes = len body;
  enqueued_at = i.now;
  identity = identity;
}

-- The counters are raised before the await: no other call can pass the caps on the old ones.
unfoldable pub reserve : NewQueuedWrite → System → System
unfolding begin_mutation
reserve w s = record s {
  queue =
      begin_mutation
        (record (s.queue) { pending = s.queue.pending + 1; bytes = s.queue.bytes + w.bytes });
  appending = s.appending ++ w ∷ [];
}

unfoldable pub admit : Options → NewQueuedWrite → System → System × Outcome
unfolding reserve
admit o w s =
    if ltb o.max_items (s.queue.pending + 1)
    then (s, refused (full_items o.max_items))
    else if ltb o.max_bytes (s.queue.bytes + w.bytes)
    then (s, refused (full_bytes o.max_bytes))
    else (reserve w s, handles w.local_id w.idempotency_key)

unfoldable pub enqueue : Options → EnqueueInput → System → System × Outcome
unfolding admit new_write
enqueue o i s = if not s.queue.started then (s, refused not_started) else elim i.serialized [
  | none ↦ (s, refused unserializable)
  | some body ↦ admit o (new_write i body s.queue.identity) s
]

-- The transactions of one store are carried out in the order in which they were issued.
unfoldable pub append_commits : System → System
unfolding append
append_commits s = elim s.appending [
  | [] ↦ s
  | w ∷ ws ↦ record s { db = append w s.db; appending = ws; appended = s.appended + 1 }
]

-- The transaction aborts, for want of quota or otherwise: the reservation is rolled back.
unfoldable pub append_aborts : System → System
unfolding end_mutation
append_aborts s = elim s.appending [
  | [] ↦ s
  | w ∷ ws ↦ record s {
    queue = record (end_mutation s.queue) {
      pending = s.queue.pending - 1;
      bytes = s.queue.bytes - w.bytes;
    };
    appending = ws;
  }
]

unfoldable pub append_settles : System → System
unfolding end_mutation request_drain
append_settles s = elim s.appended [
  | zero ↦ s
  | suc n ↦ request_drain (record s { queue = end_mutation s.queue; appended = n })
]
