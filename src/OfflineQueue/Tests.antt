-- ===== src/OfflineQueue/Tests.antt =====
-- Runs of the offline queue (packages/browser/src/queue) on small databases.
use ironflow_js.Prelude.{
  ◌+◌, ◌≤◌, ◌≡◌, ◌||◌, refl, true, false, String, none, some, List, [], ◌∷◌, length, All, arith,
}
use ironflow_js.OfflineQueue.Types.{
  NewQueuedWrite, QueuedWrite, emit, DeadLetteredWrite, expired, not_delivered_within,
}
use ironflow_js.OfflineQueue.Db.{Db, bytes_of, trim_dead_lettered}
use ironflow_js.OfflineQueue.Db.Order.{Between, Climbs, last_seq, has_seq}
use ironflow_js.OfflineQueue.Queue.{Options, counter_raced, Destination, triage}
use ironflow_js.OfflineQueue.State.{System, start, stop, measured, refresh_commits}
use ironflow_js.OfflineQueue.State
use ironflow_js.OfflineQueue.Enqueue
use ironflow_js.OfflineQueue.Drain
use ironflow_js.OfflineQueue.Enqueue.{EnqueueInput}
use ironflow_js.OfflineQueue.System.{Event, step, run}
use ironflow_js.OfflineQueue.System.Counters.{
  owed, owed_bytes, new_bytes, counters_cover_store, refresh_exact,
}
use ironflow_js.OfflineQueue.System.Caps.{outbox_capped, bytes_capped}
use ironflow_js.OfflineQueue.System.Order.{sent_in_order}
use ironflow_js.OfflineQueue.System.Kept.{no_write_vanishes}
use ironflow_js.OfflineQueue.System.Future.{IsReadable, future_records_untouched}
use ironflow_js.OfflineQueue.System.Stopped.{IsStopped, stop_is_final}
use ironflow_js.OfflineQueue.System.Delivery.{rounds, IsDelivered, drain_delivers}

abbrev sample : String → NewQueuedWrite
sample id = record {
  v = 1;
  local_id = id;
  idempotency_key = "k";
  kind = emit;
  server_url = "https://a";
  environment = "prod";
  body = "{}";
  bytes = 2;
  enqueued_at = 10;
  identity = "ann";
}

abbrev first : QueuedWrite
first = record { seq = 0; rest = sample "w0" }

abbrev second : QueuedWrite
second = record { seq = 1; rest = sample "w1" }

abbrev two : Db
two = record { outbox = first ∷ second ∷ []; next_key = 2; dead = [] }

abbrev home : Destination
home = record { server_url = "https://a"; environment = "prod" }

abbrev opts : Options
opts = record {
  max_items = 3;
  max_bytes = 100;
  max_retention_ms = 50;
  max_dead_lettered = 1;
  backoff_initial_ms = 1000;
  backoff_max_ms = 60000;
  on_auth_required = true;
  resolve_path = λ k. some "/emit";
}

abbrev third : EnqueueInput
third = record {
  kind = emit;
  serialized = some "{}";
  idempotency_key = none;
  fresh_id = "w2";
  fresh_key = "k2";
  destination = home;
  now = 20;
}

-- One delivery, an enqueue while it is under way, and an expired record.
abbrev busy_day : List Event
busy_day =
    Event.lock_answers true
    ∷ Event.head_reads
    ∷ Event.head_decides 20 home
    ∷ Event.enqueue third
    ∷ Event.send_succeeds
    ∷ Event.append_commits
    ∷ Event.remove_commits
    ∷ Event.append_settles
    ∷ Event.remove_settles
    ∷ Event.head_reads
    ∷ Event.head_decides 90 home
    ∷ Event.retire_commits
    ∷ []

abbrev reread : List Event
reread = Event.request_refresh ∷ Event.refresh_reads ∷ []

no_write_vanishes_example :
    let s = run opts busy_day (start "ann" two) in
    (has_seq 2 s.db.outbox || (has_seq 2 s.accepted || has_seq 2 s.lettered)) ≡ true
unfolding run step start triage Drain.retire_commits Drain.head_decides Drain.head_reads
    Drain.remove_settles Enqueue.append_settles Drain.remove_commits Enqueue.append_commits
    Drain.send_succeeds Enqueue.enqueue Drain.lock_answers
no_write_vanishes_example = no_write_vanishes opts "ann" two busy_day 2 (omega arith) (omega arith)

sent_in_order_example :
    let s = run opts busy_day (start "ann" two) in
    Climbs 0 s.accepted × Between (last_seq 0 s.accepted) s.db.next_key s.db.outbox
sent_in_order_example = sent_in_order opts "ann" two busy_day (omega arith)

counters_cover_store_example :
    let s = run opts busy_day (start "ann" two) in
    (length s.db.outbox + length s.appending + owed s.drainer ≤ s.queue.pending + length s.counting)
    × (bytes_of s.db.outbox + new_bytes s.appending + owed_bytes s.drainer
        ≤ s.queue.bytes + bytes_of s.counting)
counters_cover_store_example = counters_cover_store opts "ann" two busy_day

refresh_exact_example :
    let s = run opts reread (start "ann" two) in
    ((refresh_commits s).queue.pending ≡ length s.db.outbox)
    × ((refresh_commits s).queue.bytes ≡ bytes_of s.db.outbox)
    × (length s.appending + owed s.drainer + length s.counting ≡ 0)
unfolding run step start counter_raced State.refresh_reads State.request_refresh
refresh_exact_example =
    refresh_exact opts "ann" two reread (record { epoch = 0; live = false })
      (record { count = 2; bytes = 4 }) refl refl

outbox_capped_example :
    let s = run opts busy_day (start "ann" two) in length s.db.outbox ≤ 3 + 0 + length s.counting
outbox_capped_example = outbox_capped opts "ann" two busy_day (omega arith)

bytes_capped_example :
    let s = run opts busy_day (start "ann" two) in bytes_of s.db.outbox ≤ 100 + bytes_of s.counting
bytes_capped_example = bytes_capped opts "ann" two busy_day (omega arith) refl

drain_delivers_example :
    IsDelivered
      (first ∷ second ∷ [])
      (run opts (Event.lock_answers true ∷ rounds 20 home two.outbox) (start "ann" two))
unfolding triage
drain_delivers_example =
    drain_delivers opts "ann" 20 home two (omega arith) (("/emit", refl), (("/emit", refl), tt))

future_records_untouched_example :
    let s = run opts busy_day (start "ann" two) in
    All IsReadable s.accepted × All IsReadable s.lettered
future_records_untouched_example = future_records_untouched opts "ann" two busy_day

abbrev halted : System
halted = step opts Event.head_fails (step opts (Event.lock_answers true) (stop (start "ann" two)))

stop_is_final_example :
    IsStopped (run opts busy_day halted)
    × ((run opts busy_day halted).accepted ≡ halted.accepted)
    × ((run opts busy_day halted).lettered ≡ halted.lettered)
unfolding step stop start Drain.head_fails Drain.lock_answers
stop_is_final_example =
    stop_is_final opts busy_day halted (record { stopped = refl; at_rest = refl })

abbrev letter : DeadLetteredWrite
letter = record {
  write = first;
  reason = expired;
  message = not_delivered_within 50;
  dead_lettered_at = 70;
}

abbrev with_letter : Db
with_letter = record { outbox = second ∷ []; next_key = 2; dead = letter ∷ [] }

abbrev newer : DeadLetteredWrite
newer = record letter { write = record { seq = 5; rest = record (sample "w9") { v = 2 } } }

abbrev crowded : Db
crowded = record { outbox = []; next_key = 6; dead = letter ∷ newer ∷ [] }

-- A trim to nothing deletes the old record and keeps the newer one.
trimmed_to_none : (trim_dead_lettered 0 crowded).dead ≡ newer ∷ []
unfolding trim_dead_lettered
trimmed_to_none = refl

busy_day_ends :
    let s = run opts busy_day (start "ann" two) in
    (s.accepted ≡ first ∷ [])
    × (s.lettered ≡ second ∷ [])
    × (length s.db.outbox ≡ 1)
    × (s.queue.pending ≡ 2)
unfolding run step start triage Drain.retire_commits Drain.head_decides Drain.head_reads
    Drain.remove_settles Enqueue.append_settles Drain.remove_commits Enqueue.append_commits
    Drain.send_succeeds Enqueue.enqueue Drain.lock_answers
busy_day_ends = (refl, refl, refl, refl)
