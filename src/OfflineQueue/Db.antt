-- ===== src/OfflineQueue/Db.antt =====
-- packages/browser/src/queue/db.ts: the two object stores. Each method is its transaction: the
-- outbox is the list of its records in key order (`autoIncrement` gives keys that grow), and the
-- dead letters stand in the order of their keys, the localId. A transaction that IndexedDB refuses
-- changes nothing; the callers model it as a separate event.
pub mod Sizes
pub mod Order
pub mod Status
pub mod Trim
use Prim.Native.Nat.{Ordering}
use Prim.Native.String.{compare}
use ironflow_js.Prelude.{
  ℕ, ◌+◌, ◌-◌, min, String, Bool, true, false, not, Option, none, some, List, [], ◌∷◌, ◌++◌, head?,
  length, take, filter, any, sum_by, ltb, leb, ◌==◌, str_eq, if◌then◌else◌,
}
use ironflow_js.OfflineQueue.Types.{NewQueuedWrite, QueuedWrite, DeadLetteredWrite, record_version}

pub record Db : Type 0 where
  pub outbox : List QueuedWrite
  pub next_key : ℕ
  pub dead : List DeadLetteredWrite

unfoldable pub append : NewQueuedWrite → Db → Db
append w db = record db {
  outbox = db.outbox ++ record { seq = db.next_key; rest = w } ∷ [];
  next_key = db.next_key + 1;
}

unfoldable pub head : Db → Option QueuedWrite
head db = head? db.outbox

abbrev pub without_seq : ℕ → List QueuedWrite → List QueuedWrite
without_seq seq = filter (λ w. not (w.seq == seq))

unfoldable pub remove : ℕ → Db → Db
remove seq db = record db { outbox = without_seq seq db.outbox }

abbrev pub find_write : String → List QueuedWrite → Option QueuedWrite
find_write local_id [] = none
find_write local_id (w ∷ ws) = if str_eq w.local_id local_id then some w else find_write local_id ws

unfoldable pub find_by_local_id : String → Db → Option QueuedWrite
find_by_local_id local_id db = find_write local_id db.outbox

abbrev pub bytes_of : List QueuedWrite → ℕ
bytes_of = sum_by (λ w. w.bytes)

pub record Usage : Type 0 where
  pub count : ℕ
  pub bytes : ℕ

unfoldable pub usage : Db → Usage
usage db = record { count = length db.outbox; bytes = bytes_of db.outbox }

unfoldable pub has_future_records : Db → Bool
has_future_records db = any (λ w. ltb record_version w.v) db.outbox

-- `put` replaces the record of the same key, and keeps the store in key order.
abbrev pub key : DeadLetteredWrite → String
key e = e.write.local_id

abbrev pub put_dead : DeadLetteredWrite → List DeadLetteredWrite → List DeadLetteredWrite
put_dead e [] = e ∷ []
put_dead e (d ∷ ds) =
    let later = put_dead e ds in
    elim (compare (key e) (key d)) [
      | Ordering.lt ↦ e ∷ d ∷ ds
      | Ordering.eq ↦ e ∷ ds
      | Ordering.gt ↦ d ∷ later
    ]

unfoldable pub dead_letter : DeadLetteredWrite → Db → Db
dead_letter e db = record db {
  outbox = without_seq e.write.seq db.outbox;
  dead = put_dead e db.dead;
}

-- `sort((a, b) => a.deadLetteredAt - b.deadLetteredAt)`, which is stable.
abbrev pub insert_by_time : DeadLetteredWrite → List DeadLetteredWrite → List DeadLetteredWrite
insert_by_time e [] = e ∷ []
insert_by_time e (d ∷ ds) =
    if leb e.dead_lettered_at d.dead_lettered_at then e ∷ d ∷ ds else d ∷ insert_by_time e ds

abbrev pub sort_by_time : List DeadLetteredWrite → List DeadLetteredWrite
sort_by_time [] = []
sort_by_time (e ∷ es) = insert_by_time e (sort_by_time es)

unfoldable pub list_dead_lettered : Db → List DeadLetteredWrite
list_dead_lettered db = sort_by_time db.dead

unfoldable pub count_dead_lettered : Db → ℕ
count_dead_lettered db = length db.dead

abbrev pub find_dead : String → List DeadLetteredWrite → Option DeadLetteredWrite
find_dead local_id [] = none
find_dead local_id (e ∷ es) = if str_eq (key e) local_id then some e else find_dead local_id es

abbrev pub without_id : String → List DeadLetteredWrite → List DeadLetteredWrite
without_id local_id = filter (λ e. not (str_eq (key e) local_id))

unfoldable pub get_dead_lettered : String → Db → Option DeadLetteredWrite
get_dead_lettered local_id db = find_dead local_id db.dead

unfoldable pub discard_dead_lettered : String → Db → Db × Bool
discard_dead_lettered local_id db = elim (find_dead local_id db.dead) [
  | none ↦ (db, false)
  | some e ↦ (record db { dead = without_id local_id db.dead }, true)
]

-- `{ ...rest, enqueuedAt }` goes to the back with a fresh key; the result is the entry's own write.
unfoldable pub requeue_entry : String → ℕ → Db → Option DeadLetteredWrite → Db × Option QueuedWrite
unfolding append
requeue_entry local_id now db none = (db, none)
requeue_entry local_id now db (some e) = (
  append (record (e.write.rest) { enqueued_at = now })
      (record db { dead = without_id local_id db.dead }),
  some e.write,
)

unfoldable pub requeue_dead_lettered : String → ℕ → Db → Db × Option QueuedWrite
unfolding requeue_entry
requeue_dead_lettered local_id now db = requeue_entry local_id now db (find_dead local_id db.dead)

pub data Place : Type 0 where
  queued absent : Place
  dead : DeadLetteredWrite → Place

unfoldable pub status_of : String → Db → Place
status_of local_id db = elim (find_dead local_id db.dead) [
  | some e ↦ Place.dead e
  | none ↦ elim (find_write local_id db.outbox) [ some w ↦ queued | none ↦ absent ]
]

-- The records that a trim to `max` deletes: the oldest that this build can read.
abbrev pub evictable : List DeadLetteredWrite → List DeadLetteredWrite
evictable = filter (λ e. leb e.write.v record_version)

abbrev pub excess : ℕ → List DeadLetteredWrite → List DeadLetteredWrite
excess max all = take (min (length all - max) (length (evictable all))) (evictable all)

abbrev pub delete_all : List DeadLetteredWrite → List DeadLetteredWrite → List DeadLetteredWrite
delete_all [] store = store
delete_all (e ∷ es) store = delete_all es (without_id (key e) store)

unfoldable pub trim_dead_lettered : ℕ → Db → Db
unfolding list_dead_lettered
trim_dead_lettered max db =
    let all = list_dead_lettered db in
    if leb (length all) max then db else record db { dead = delete_all (excess max all) db.dead }
