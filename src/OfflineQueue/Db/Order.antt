-- ===== src/OfflineQueue/Db/Order.antt =====
-- The keys of the outbox: records in strictly growing order, below the next key.
use ironflow_js.Prelude.{
  ℕ, suc, ◌+◌, ◌≤◌, ◌≡◌, refl, Bool, false, ◌||◌, some, List, [], ◌∷◌, ◌++◌, head?, any, ◌==◌,
  if◌then◌else◌, arith,
}
use ironflow_js.OfflineQueue.Types.{NewQueuedWrite, QueuedWrite}
use ironflow_js.OfflineQueue.Db.{without_seq}

-- Keys from `k` on, growing strictly, all below `n`.
abbrev pub Between : ℕ → ℕ → List QueuedWrite → Type 0
Between k n [] = k ≤ n
Between k n (w ∷ ws) = (k ≤ w.seq) × Between (suc w.seq) n ws

-- Keys from `k` on that never fall.
abbrev pub Climbs : ℕ → List QueuedWrite → Type 0
Climbs k [] = Unit {0}
Climbs k (w ∷ ws) = (k ≤ w.seq) × Climbs w.seq ws

-- The last key of a list, `k` if it is empty.
abbrev pub last_seq : ℕ → List QueuedWrite → ℕ
last_seq k [] = k
last_seq k (w ∷ ws) = last_seq w.seq ws

-- Whether a list has a record of the key.
abbrev pub has_seq : ℕ → List QueuedWrite → Bool
has_seq k = any (λ w. w.seq == k)

pub Between-lower : (j k n : ℕ) (l : List QueuedWrite) → j ≤ k → Between k n l → Between j n l
Between-lower j k n [] h b = omega arith
Between-lower j k n (w ∷ ws) h b = (omega arith, b.1)

pub Between-le : (k n : ℕ) (l : List QueuedWrite) → Between k n l → k ≤ n
Between-le k n [] b = b
Between-le k n (w ∷ ws) b = omega (arith, Between-le (suc w.seq) n ws b.1)

pub Between-append :
    (k n : ℕ) (w : NewQueuedWrite) (l : List QueuedWrite)
    → Between k n l
    → Between k (n + 1) (l ++ record { seq = n; rest = w } ∷ [])
Between-append k n w [] b = (b, omega arith)
Between-append k n w (x ∷ xs) b = (b.0, Between-append (suc x.seq) n w xs b.1)

pub Between-without_seq :
    (s k n : ℕ) (l : List QueuedWrite) → Between k n l → Between k n (without_seq s l)
Between-without_seq s k n [] b = b
Between-without_seq s k n (w ∷ ws) b =
    let ih = Between-without_seq s (suc w.seq) n ws b.1 in
    ground (arith, ih, Between-lower k (suc w.seq) n (without_seq s ws) (omega arith) ih)

pub Between-head :
    (k n : ℕ) (w : QueuedWrite) (l : List QueuedWrite)
    → head? l ≡ some w
    → Between k n l
    → (k ≤ w.seq) × Between w.seq n l
Between-head k n w [] h b = cc
Between-head k n w (x ∷ xs) h b = ground arith

pub Climbs-append :
    (k : ℕ) (w : QueuedWrite) (l : List QueuedWrite)
    → Climbs k l
    → last_seq k l ≤ w.seq
    → Climbs k (l ++ w ∷ [])
Climbs-append k w [] c h = (h, tt)
Climbs-append k w (x ∷ xs) c h = (c.0, Climbs-append x.seq w xs c.1 h)

pub last_seq-append :
    (k : ℕ) (w : QueuedWrite) (l : List QueuedWrite) → last_seq k (l ++ w ∷ []) ≡ w.seq
last_seq-append k w [] = refl
last_seq-append k w (x ∷ xs) = last_seq-append x.seq w xs

pub has_seq-append :
    (k : ℕ) (l m : List QueuedWrite) → has_seq k (l ++ m) ≡ (has_seq k l || has_seq k m)
has_seq-append k [] m = refl
has_seq-append k (x ∷ xs) m = ground (arith, has_seq-append k xs m)

pub has_seq-without_seq :
    (k s : ℕ) (l : List QueuedWrite)
    → has_seq k (without_seq s l) ≡ (if s == k then false else has_seq k l)
has_seq-without_seq k s [] = ground arith
has_seq-without_seq k s (x ∷ xs) = ground (arith, has_seq-without_seq k s xs)
