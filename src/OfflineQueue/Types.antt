-- ===== src/OfflineQueue/Types.antt =====
-- packages/browser/src/queue/types.ts: the records that the queue stores and reports.
-- A JavaScript number of these records is a natural number: versions, keys, sizes, times in ms.
use ironflow_js.Prelude.{ℕ, String}

abbrev pub record_version : ℕ
record_version = 1

-- `expired`, `rejected`, `identity-mismatch`, `destination-mismatch`, `unknown-kind`.
pub data WriteLostReason : Type 0 where
  expired rejected identity_mismatch destination_mismatch unknown_kind : WriteLostReason

pub data QueuedWriteKind : Type 0 where
  emit stream_append : QueuedWriteKind

-- A write before IndexedDB assigns its key: `Omit<QueuedWrite, "seq">`.
pub record NewQueuedWrite : Type 0 where
  pub v : ℕ
  pub local_id : String
  pub idempotency_key : String
  pub kind : QueuedWriteKind
  pub server_url : String
  pub environment : String
  pub body : String
  pub bytes : ℕ
  pub enqueued_at : ℕ
  pub identity : String

pub record QueuedWrite : Type 0 where
  pub seq : ℕ
  pub rest : NewQueuedWrite
  pub open rest use *

-- The texts of the messages, with what is put into them.
pub data Message : Type 0 where
  under_other_identity : Message
  not_delivered_within : ℕ → Message
  queued_for_other : String → String → String → String → Message
  no_endpoint : QueuedWriteKind → Message
  server_said : String → Message

pub record DeadLetteredWrite : Type 0 where
  pub write : QueuedWrite
  pub reason : WriteLostReason
  pub message : Message
  pub dead_lettered_at : ℕ

pub data QueueState : Type 0 where
  idle flushing paused blocked : QueueState

pub record QueueStats : Type 0 where
  pub pending : ℕ
  pub in_flight : ℕ
  pub total : ℕ
  pub dead_lettered : ℕ
  pub state : QueueState

-- Per-item status; `sent` carries the optional fields of the server's answer outside the model.
pub data WriteStatus : Type 0 where
  pending sent : WriteStatus
  lost : WriteLostReason → Message → WriteStatus
