-- ===== src/OfflineQueue/Db/Trim.antt =====
-- The trim of the dead letters (packages/browser/src/queue/db.ts): what it keeps.
use ironflow_js.Prelude.{
  ℕ, zero, suc, ◌<◌, ◌≡◌, refl, none, some, List, [], ◌∷◌, String, eq_iff, take, All, arith,
}
use ironflow_js.OfflineQueue.Types.{DeadLetteredWrite, record_version}
use ironflow_js.OfflineQueue.Db.{
  Db, key, find_dead, insert_by_time, sort_by_time, evictable, excess, delete_all, without_id,
  trim_dead_lettered,
}
use ironflow_js.OfflineQueue.Db.Status.{find_dead-without_id}

-- The store's key path: no two records of one localId.
abbrev pub HasDistinctKeys : List DeadLetteredWrite → Type 0
HasDistinctKeys [] = Unit {0}
HasDistinctKeys (e ∷ es) = (find_dead (key e) es ≡ none) × HasDistinctKeys es

-- Every record of the id is of a newer build.
abbrev IsFutureAt : String → DeadLetteredWrite → Type 0
IsFutureAt id e = key e ≡ id → record_version < e.write.v

absent-IsFutureAt :
    (id : String) (l : List DeadLetteredWrite) → find_dead id l ≡ none → All (IsFutureAt id) l
absent-IsFutureAt id [] h = tt
absent-IsFutureAt id (e ∷ es) h = ground (arith, eq_iff (key e) id, absent-IsFutureAt id es)

found-IsFutureAt :
    (id : String) (l : List DeadLetteredWrite) (e : DeadLetteredWrite)
    → HasDistinctKeys l
    → find_dead id l ≡ some e
    → record_version < e.write.v
    → All (IsFutureAt id) l
found-IsFutureAt id [] e d h v = tt
found-IsFutureAt id (x ∷ xs) e d h v =
    ground (arith, eq_iff (key x) id, found-IsFutureAt id xs e d.1, absent-IsFutureAt id xs)

insert-IsFutureAt :
    (id : String) (e : DeadLetteredWrite) (l : List DeadLetteredWrite)
    → IsFutureAt id e
    → All (IsFutureAt id) l
    → All (IsFutureAt id) (insert_by_time e l)
insert-IsFutureAt id e [] h a = (h, tt)
insert-IsFutureAt id e (d ∷ ds) h a = ground (arith, insert-IsFutureAt id e ds h a.1)

sort-IsFutureAt :
    (id : String) (l : List DeadLetteredWrite)
    → All (IsFutureAt id) l
    → All (IsFutureAt id) (sort_by_time l)
sort-IsFutureAt id [] a = tt
sort-IsFutureAt id (e ∷ es) a =
    insert-IsFutureAt id e (sort_by_time es) a.0 (sort-IsFutureAt id es a.1)

find_dead-evictable :
    (id : String) (l : List DeadLetteredWrite)
    → All (IsFutureAt id) l
    → find_dead id (evictable l) ≡ none
find_dead-evictable id [] a = refl
find_dead-evictable id (e ∷ es) a = ground (arith, eq_iff (key e) id, find_dead-evictable id es a.1)

find_dead-take :
    (id : String) (n : ℕ) (l : List DeadLetteredWrite)
    → find_dead id l ≡ none
    → find_dead id (take n l) ≡ none
find_dead-take id zero l h = refl
find_dead-take id (suc n) [] h = refl
find_dead-take id (suc n) (e ∷ es) h = ground (arith, find_dead-take id n es)

find_dead-delete_all :
    (id : String) (gone l : List DeadLetteredWrite)
    → find_dead id gone ≡ none
    → find_dead id (delete_all gone l) ≡ find_dead id l
find_dead-delete_all id [] l h = refl
find_dead-delete_all id (e ∷ es) l h =
    ground
      (arith, find_dead-delete_all id es (without_id (key e) l), find_dead-without_id (key e) id l)

-- In a store with one record for each localId, a trim to any cap keeps every record of a newer build.
pub trim-keeps_future :
    (max : ℕ) (db : Db) (id : String) (e : DeadLetteredWrite)
    → HasDistinctKeys db.dead
    → find_dead id db.dead ≡ some e
    → record_version < e.write.v
    → find_dead id (trim_dead_lettered max db).dead ≡ some e
unfolding trim_dead_lettered
trim-keeps_future max db id e d h v =
    let future = sort-IsFutureAt id db.dead (found-IsFutureAt id db.dead e d h v) in
    let kept =
      find_dead-delete_all id (excess max (sort_by_time db.dead)) db.dead
        (find_dead-take id _ _ (find_dead-evictable id (sort_by_time db.dead) future)) in
    ground arith
