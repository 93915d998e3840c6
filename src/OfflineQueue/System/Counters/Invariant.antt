-- ===== src/OfflineQueue/System/Counters/Invariant.antt =====
-- The counters of the queue against what is stored, at every await.
use ironflow_js.Prelude.{
  ℕ, ◌+◌, ◌≤◌, ◌≡◌, refl, false, none, some, List, [], ◌∷◌, head?, length, sum_by, length-append,
  sum_by-append, arith,
}
use ironflow_js.OfflineQueue.Types.{NewQueuedWrite, QueuedWrite}
use ironflow_js.OfflineQueue.Db.{bytes_of}
use ironflow_js.OfflineQueue.Db.Sizes.{length-without_seq, bytes_of-without_seq, head?-append}
use ironflow_js.OfflineQueue.Queue.{Queue}
use ironflow_js.OfflineQueue.State.{
  System, Drainer, resting, reading, got, sending, removing, removed, retiring, retired, trimming,
  trimmed, tallying, Refresher, quiet, marked, measured,
}

-- Records that have left the outbox and are still counted.
abbrev pub owed : Drainer → ℕ
owed (removed w) = 1
owed (retired e) = 1
owed (trimming e) = 1
owed (trimmed e) = 1
owed _ = 0

abbrev pub owed_bytes : Drainer → ℕ
owed_bytes (removed w) = w.bytes
owed_bytes (retired e) = e.write.bytes
owed_bytes (trimming e) = e.write.bytes
owed_bytes (trimmed e) = e.write.bytes
owed_bytes _ = 0

-- Whether the drainer is inside a `mutate`.
abbrev pub busy : Drainer → ℕ
busy (removing w) = 1
busy (removed w) = 1
busy (retiring e) = 1
busy (retired e) = 1
busy (trimming e) = 1
busy (trimmed e) = 1
busy (tallying e) = 1
busy _ = 0

-- The record that the drainer works on is the first of the outbox until its removal.
abbrev pub HeldAt : Drainer → List QueuedWrite → Type 0
HeldAt (got m (some w)) l = head? l ≡ some w
HeldAt (sending w) l = head? l ≡ some w
HeldAt (removing w) l = head? l ≡ some w
HeldAt (retiring e) l = head? l ≡ some e.write
HeldAt _ l = Unit {0}

-- A mark is no newer than the queue, and where no mutation overlapped it, what was read still holds.
abbrev pub FreshHead : Drainer → Queue → List QueuedWrite → Type 0
FreshHead (reading m) q l = m.epoch ≤ q.counter_epoch
FreshHead (got m none) q l =
    (m.epoch ≤ q.counter_epoch) × (m.epoch ≡ q.counter_epoch → q.counter_mutations ≡ 0 → l ≡ [])
FreshHead _ q l = Unit {0}

abbrev pub FreshUsage : Refresher → Queue → List QueuedWrite → Type 0
FreshUsage quiet q l = Unit {0}
FreshUsage (marked m) q l = m.epoch ≤ q.counter_epoch
FreshUsage (measured m u) q l =
    (m.epoch ≤ q.counter_epoch)
    × (m.epoch ≡ q.counter_epoch
        → q.counter_mutations ≡ 0
        → (u.count ≡ length l) × (u.bytes ≡ bytes_of l))

abbrev pub new_bytes : List NewQueuedWrite → ℕ
new_bytes = sum_by (λ w. w.bytes)

pub new_bytes_none : (ws : List NewQueuedWrite) → length ws ≡ 0 → new_bytes ws ≡ 0
new_bytes_none [] h = refl
new_bytes_none (w ∷ ws) h = absurd (omega arith)

pub bytes_of_none : (ws : List QueuedWrite) → length ws ≡ 0 → bytes_of ws ≡ 0
bytes_of_none [] h = refl
bytes_of_none (w ∷ ws) h = absurd (omega arith)

-- What is stored, reserved or removed but not yet deducted is counted, up to the requeued records
-- whose counters are due; `counterMutations` is the number of calls inside `mutate`; and where
-- `draining` is unset, no drain is suspended.
pub record IsCounted (s : System) : Type 0 where
  pub items :
      length s.db.outbox + length s.appending + owed s.drainer ≤ s.queue.pending + length s.counting
  pub bytes :
      bytes_of s.db.outbox + new_bytes s.appending + owed_bytes s.drainer
      ≤ s.queue.bytes + bytes_of s.counting
  pub mutations :
      s.queue.counter_mutations
      ≡ length s.appending
        + s.appended
        + length s.requeuing
        + length s.counting
        + s.requeued
        + length s.discarding
        + s.discarded
        + s.missed
        + busy s.drainer
  pub at_rest : s.queue.draining ≡ false → s.drainer ≡ resting
  pub held : HeldAt s.drainer s.db.outbox
  pub head : FreshHead s.drainer s.queue s.db.outbox
  pub usage : FreshUsage s.refresher s.queue s.db.outbox

pub ruleset store_laws =
    (length-append, sum_by-append, head?-append, length-without_seq, bytes_of-without_seq)
