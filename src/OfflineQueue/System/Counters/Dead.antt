-- ===== src/OfflineQueue/System/Counters/Dead.antt =====
-- The calls of `retry` and `discard` keep the counters in step with the store.
use ironflow_js.Prelude.{ℕ, String, ◌≡◌, refl, Option, none, some, List, [], ◌∷◌, arith}
use ironflow_js.OfflineQueue.Types.{DeadLetteredWrite}
use ironflow_js.OfflineQueue.Db.{find_dead, requeue_entry}
use ironflow_js.OfflineQueue.Letters
use ironflow_js.OfflineQueue.State.{System}
use ironflow_js.OfflineQueue.System.Counters.Invariant.{IsCounted, store_laws}

pub retry-IsCounted : (id : String) (s : System) → IsCounted s → IsCounted (Letters.retry id s)
unfolding Letters.retry
retry-IsCounted id s h = grind (arith, store_laws)

requeue_found-IsCounted :
    (id : String) (ids : List String) (now : ℕ) (o : Option DeadLetteredWrite) (s : System)
    → s.requeuing ≡ id ∷ ids
    → IsCounted s
    → IsCounted (Letters.requeue_found ids (requeue_entry id now s.db o) s)
unfolding Letters.requeue_found requeue_entry
requeue_found-IsCounted id ids now none s e h = ground arith
requeue_found-IsCounted id ids now (some d) s e h = grind (arith, store_laws)

requeue_at-IsCounted :
    (ids : List String) (now : ℕ) (s : System)
    → s.requeuing ≡ ids
    → IsCounted s
    → IsCounted (Letters.requeue_at ids now s)
unfolding Letters.requeue_at
requeue_at-IsCounted [] now s e h = h
requeue_at-IsCounted (id ∷ ids) now s e h =
    requeue_found-IsCounted id ids now (find_dead id s.db.dead) s e h

pub requeue_commits-IsCounted :
    (now : ℕ) (s : System) → IsCounted s → IsCounted (Letters.requeue_commits now s)
unfolding Letters.requeue_commits
requeue_commits-IsCounted now s h = requeue_at-IsCounted s.requeuing now s refl h

pub requeue_aborts-IsCounted : (s : System) → IsCounted s → IsCounted (Letters.requeue_aborts s)
unfolding Letters.requeue_aborts
requeue_aborts-IsCounted s h = grind (arith, store_laws)

pub requeue_counts-IsCounted : (s : System) → IsCounted s → IsCounted (Letters.requeue_counts s)
unfolding Letters.requeue_counts
requeue_counts-IsCounted s h = grind (arith, store_laws)

pub requeue_settles-IsCounted : (s : System) → IsCounted s → IsCounted (Letters.requeue_settles s)
unfolding Letters.requeue_settles
requeue_settles-IsCounted s h = grind (arith, store_laws)

pub miss_settles-IsCounted : (s : System) → IsCounted s → IsCounted (Letters.miss_settles s)
unfolding Letters.miss_settles
miss_settles-IsCounted s h = grind (arith, store_laws)

pub discard-IsCounted : (id : String) (s : System) → IsCounted s → IsCounted (Letters.discard id s)
unfolding Letters.discard
discard-IsCounted id s h = grind (arith, store_laws)

pub discard_commits-IsCounted : (s : System) → IsCounted s → IsCounted (Letters.discard_commits s)
unfolding Letters.discard_commits
discard_commits-IsCounted s h = grind (arith, store_laws)

pub discard_aborts-IsCounted : (s : System) → IsCounted s → IsCounted (Letters.discard_aborts s)
unfolding Letters.discard_aborts
discard_aborts-IsCounted s h = grind (arith, store_laws)

pub discard_settles-IsCounted : (s : System) → IsCounted s → IsCounted (Letters.discard_settles s)
unfolding Letters.discard_settles
discard_settles-IsCounted s h = grind (arith, store_laws)
