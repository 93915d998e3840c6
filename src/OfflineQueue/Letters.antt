-- ===== src/OfflineQueue/Letters.antt =====
-- `retry` and `discard` of packages/browser/src/queue/queue.ts: what the application does with the
-- dead letters.
use ironflow_js.Prelude.{
  ℕ, zero, suc, ◌+◌, String, Bool, true, false, Option, none, some, List, [], ◌∷◌, ◌++◌, ltb,
  if◌then◌else◌,
}
use ironflow_js.OfflineQueue.Types.{record_version, QueuedWrite}
use ironflow_js.OfflineQueue.Db.{
  Db, get_dead_lettered, requeue_dead_lettered, discard_dead_lettered, count_dead_lettered,
}
use ironflow_js.OfflineQueue.Queue.{begin_mutation, end_mutation}
use ironflow_js.OfflineQueue.State.{System, request_drain}

-- A record of a newer build is refused before anything is changed.
unfoldable pub retry : String → System → System
unfolding begin_mutation get_dead_lettered
retry local_id s =
    if s.queue.started
    then elim (get_dead_lettered local_id s.db) [
      | none ↦ s
      | some e ↦
          if ltb record_version e.write.v
          then s
          else record s { queue = begin_mutation s.queue; requeuing = s.requeuing ++ local_id ∷ [] }
    ]
    else s

unfoldable pub requeue_found : List String → Db × Option QueuedWrite → System → System
requeue_found ids (db, none) s = record s { db = db; requeuing = ids; missed = s.missed + 1 }
requeue_found ids (db, some w) s = record s {
  db = db;
  requeuing = ids;
  counting = s.counting ++ w ∷ [];
}

unfoldable pub requeue_at : List String → ℕ → System → System
unfolding requeue_dead_lettered requeue_found
requeue_at [] now s = s
requeue_at (id ∷ ids) now s = requeue_found ids (requeue_dead_lettered id now s.db) s

unfoldable pub requeue_commits : ℕ → System → System
unfolding requeue_at
requeue_commits now s = requeue_at s.requeuing now s

unfoldable pub requeue_aborts : System → System
unfolding end_mutation
requeue_aborts s = elim s.requeuing [
  | [] ↦ s
  | id ∷ ids ↦ record s { queue = end_mutation s.queue; requeuing = ids }
]

-- The counters follow the commit.
unfoldable pub requeue_counts : System → System
requeue_counts s = elim s.counting [
  | [] ↦ s
  | w ∷ ws ↦ record s {
    queue = record (s.queue) { pending = s.queue.pending + 1; bytes = s.queue.bytes + w.bytes };
    counting = ws;
    requeued = s.requeued + 1;
  }
]

unfoldable pub requeue_settles : System → System
unfolding end_mutation request_drain count_dead_lettered
requeue_settles s = elim s.requeued [
  | zero ↦ s
  | suc n ↦ request_drain (record s {
    queue = end_mutation (record (s.queue) { dead_lettered = count_dead_lettered s.db });
    requeued = n;
  })
]

unfoldable pub miss_settles : System → System
unfolding end_mutation
miss_settles s = elim s.missed [
  | zero ↦ s
  | suc n ↦ record s { queue = end_mutation s.queue; missed = n }
]

unfoldable pub discard : String → System → System
unfolding begin_mutation
discard local_id s =
    if s.queue.started
    then record s { queue = begin_mutation s.queue; discarding = s.discarding ++ local_id ∷ [] }
    else s

abbrev pub discard_found : List String → Db × Bool → System → System
discard_found ids (db, true) s = record s { db = db; discarding = ids; discarded = s.discarded + 1 }
discard_found ids (db, false) s = record s { db = db; discarding = ids; missed = s.missed + 1 }

unfoldable pub discard_commits : System → System
unfolding discard_dead_lettered
discard_commits s = elim s.discarding [
  | [] ↦ s
  | id ∷ ids ↦ discard_found ids (discard_dead_lettered id s.db) s
]

unfoldable pub discard_aborts : System → System
unfolding end_mutation
discard_aborts s = elim s.discarding [
  | [] ↦ s
  | id ∷ ids ↦ record s { queue = end_mutation s.queue; discarding = ids }
]

unfoldable pub discard_settles : System → System
unfolding end_mutation count_dead_lettered
discard_settles s = elim s.discarded [
  | zero ↦ s
  | suc n ↦ record s {
    queue = end_mutation (record (s.queue) { dead_lettered = count_dead_lettered s.db });
    discarded = n;
  }
]
