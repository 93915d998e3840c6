-- ===== src/OfflineQueue/Db/Sizes.antt =====
-- What the transactions of the outbox do to its length, its bytes and its first record.
use ironflow_js.Prelude.{
  ◌+◌, ◌≤◌, ◌≡◌, some, List, [], ◌∷◌, ◌++◌, head?, length, length-filter-le, sum_by-filter-le, not,
  ◌==◌, arith,
}
use ironflow_js.OfflineQueue.Types.{QueuedWrite}
use ironflow_js.OfflineQueue.Db.{without_seq, bytes_of}

pub length-without_seq :
    (w : QueuedWrite) (l : List QueuedWrite)
    → head? l ≡ some w
    → length (without_seq w.seq l) + 1 ≤ length l
length-without_seq w [] h = cc
length-without_seq w (x ∷ xs) h =
    ground (arith, length-filter-le (λ (y : QueuedWrite). not (y.seq == w.seq)) xs)

pub bytes_of-without_seq :
    (w : QueuedWrite) (l : List QueuedWrite)
    → head? l ≡ some w
    → bytes_of (without_seq w.seq l) + w.bytes ≤ bytes_of l
bytes_of-without_seq w [] h = cc
bytes_of-without_seq w (x ∷ xs) h = ground (
  arith,
  sum_by-filter-le (λ (y : QueuedWrite). y.bytes) (λ (y : QueuedWrite). not (y.seq == w.seq)) xs,
)

pub head?-append :
    (w : QueuedWrite) (l ys : List QueuedWrite) → head? l ≡ some w → head? (l ++ ys) ≡ some w
head?-append w [] ys h = cc
head?-append w (x ∷ xs) ys h = h
