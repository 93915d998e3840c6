-- ===== src/OfflineQueue/Db/Status.antt =====
-- Where a write is, after the transactions that move it (packages/browser/src/queue/db.ts).
use ironflow_js.Prelude.{
  ℕ, String, ◌≡◌, refl, none, some, List, [], ◌∷◌, ◌++◌, str_eq, eq_iff, if◌then◌else◌, arith,
}
use ironflow_js.OfflineQueue.Types.{QueuedWrite, DeadLetteredWrite}
use ironflow_js.OfflineQueue.Db.{
  Db, Place, queued, status_of, dead_letter, requeue_dead_lettered, find_dead, find_write, put_dead,
  without_id, key,
}

pub find_dead-without_id :
    (id j : String) (l : List DeadLetteredWrite)
    → find_dead j (without_id id l) ≡ (if str_eq id j then none else find_dead j l)
find_dead-without_id id j [] = ground arith
find_dead-without_id id j (e ∷ es) =
    ground (arith, find_dead-without_id id j es, eq_iff (key e) id, eq_iff (key e) j, eq_iff id j)

pub find_dead-put_dead :
    (e : DeadLetteredWrite) (j : String) (l : List DeadLetteredWrite)
    → find_dead j (put_dead e l) ≡ (if str_eq (key e) j then some e else find_dead j l)
find_dead-put_dead e j [] = refl
find_dead-put_dead e j (d ∷ ds) =
    ground
      (arith, find_dead-put_dead e j ds, eq_iff (key e) (key d), eq_iff (key e) j, eq_iff (key d) j)

-- The ids of the outbox: `add` refuses a localId that is there already.
pub find_write-append :
    (j : String) (l m : List QueuedWrite)
    → find_write j (l ++ m) ≡ elim (find_write j l) [ some w ↦ some w | none ↦ find_write j m ]
find_write-append j [] m = refl
find_write-append j (w ∷ ws) m = ground (arith, find_write-append j ws m)

-- A write that was moved to the dead letters is found there, with its reason and message, whatever
-- the outbox holds.
pub status_of-dead_letter :
    (e : DeadLetteredWrite) (db : Db) → status_of (key e) (dead_letter e db) ≡ Place.dead e
unfolding status_of dead_letter
status_of-dead_letter e db =
    ground (arith, find_dead-put_dead e (key e) db.dead, eq_iff (key e) (key e))

key-find_dead :
    (id : String) (l : List DeadLetteredWrite) (e : DeadLetteredWrite)
    → find_dead id l ≡ some e
    → key e ≡ id
key-find_dead id [] e h = cc
key-find_dead id (d ∷ ds) e h = ground (arith, eq_iff (key d) id, key-find_dead id ds e)

-- A dead letter that is requeued is queued again, no longer dead, and the record that goes to the
-- back carries its idempotency key and body under the next key.
pub requeue_moves :
    (id : String) (now : ℕ) (db : Db) (e : DeadLetteredWrite)
    → status_of id db ≡ Place.dead e
    → let after = requeue_dead_lettered id now db in
      (status_of id after.0 ≡ queued)
      × (after.1 ≡ some e.write)
      × (after.0.outbox
          ≡ db.outbox
            ++ record { seq = db.next_key; rest = record (e.write.rest) { enqueued_at = now } }
              ∷ [])
unfolding status_of requeue_dead_lettered
requeue_moves id now db e h = ground (
  arith,
  key-find_dead id db.dead e,
  find_dead-without_id id id db.dead,
  eq_iff id id,
  eq_iff (key e) id,
  find_write-append id db.outbox
      (record { seq = db.next_key; rest = record (e.write.rest) { enqueued_at = now } } ∷ []),
)
