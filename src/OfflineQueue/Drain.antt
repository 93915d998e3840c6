-- ===== src/OfflineQueue/Drain.antt =====
-- `drain`, `drainSession`, `retire` and `reauthenticate` of packages/browser/src/queue/queue.ts, one
-- function for each piece of code between two awaits. A step that does not fit the place where the
-- drainer is suspended changes nothing.
use ironflow_js.Prelude.{
  ℕ, ◌+◌, ◌-◌, String, Bool, false, ◌||◌, Option, none, some, [], ◌∷◌, ◌++◌, ltb, str_eq,
  if◌then◌else◌,
}
use ironflow_js.OfflineQueue.Types.{
  QueuedWrite, WriteLostReason, rejected, Message, server_said, idle, flushing, paused, blocked,
  sent, lost,
}
use ironflow_js.OfflineQueue.Db.{head, remove, dead_letter, trim_dead_lettered, count_dead_lettered}
use ironflow_js.OfflineQueue.Queue.{
  Options, Queue, Mark, counter_mark, counter_raced, begin_mutation, end_mutation, Destination,
  Verdict, triage, Failure, Disposition, classify_failure, text_of,
}
use ironflow_js.OfflineQueue.State.{
  System, Drainer, locking, reauthenticating, reading, got, sending, removing, removed, retiring,
  retired, trimming, trimmed, tallying, notify, write_lost, rest, back_off, fail,
}

-- The top of the loop of `drainSession`: a stopped session ends as "retry".
unfoldable pub next_head : System → System
unfolding back_off counter_mark
next_head s =
    if s.queue.stopped then back_off s else record s { drainer = reading (counter_mark s.queue) }

-- Another round of the loop of `drain`.
unfoldable pub again : System → System
again s = record s { queue = record (s.queue) { drain_requested = false }; drainer = locking }

-- The end of a session by "auth": at most one re-authentication in each drain.
unfoldable pub ends_auth : Options → System → System
unfolding back_off
ends_auth o s =
    if s.may_reauthenticate
    then (if o.on_auth_required
        then record s { may_reauthenticate = false; drainer = reauthenticating }
        else back_off (record s { may_reauthenticate = false }))
    else back_off s

unfoldable pub ends_idle : System → System
unfolding again rest
ends_idle s = if s.queue.drain_requested then again s else rest s

-- `withFlushLock` calls the session, or finds that another tab holds the lock.
unfoldable pub enter : System → System
unfolding next_head fail
enter s =
    if s.queue.started
    then next_head (record s { queue = record (s.queue) { session_total = s.queue.pending } })
    else fail s

unfoldable pub lock_answers : Bool → System → System
unfolding enter fail
lock_answers granted s = elim s.drainer [ locking ↦ if granted then enter s else fail s | _ ↦ s ]

unfoldable pub head_reads : System → System
unfolding head
head_reads s = elim s.drainer [ reading m ↦ record s { drainer = got m (head s.db) } | _ ↦ s ]

-- `retire` up to its first await.
unfoldable pub retire : WriteLostReason → Message → ℕ → QueuedWrite → System → System
unfolding begin_mutation fail
retire reason message now w s =
    if s.queue.started
    then record s {
      queue = begin_mutation s.queue;
      drainer =
          retiring
            (record { write = w; reason = reason; message = message; dead_lettered_at = now });
    }
    else fail s

-- The store was empty: the counters are derived again, unless a mutation overlapped the read.
unfoldable pub reset_counters : Mark → Queue → Queue
unfolding counter_raced
reset_counters m q = if counter_raced m q then q else record q { pending = 0; bytes = 0 }

unfoldable pub found_empty : Mark → System → System
unfolding reset_counters ends_idle
found_empty m s = ends_idle (record s {
  queue = record (reset_counters m s.queue) { session_total = 0; attempt = 0; state = idle };
})

unfoldable pub obey : ℕ → QueuedWrite → Verdict → System → System
unfolding rest retire
obey now w Verdict.block s = rest (record s { queue = record (s.queue) { state = blocked } })
obey now w (Verdict.retire reason message) s = retire reason message now w s
obey now w (Verdict.send path) s = record s {
  queue = record (s.queue) { state = flushing; in_flight = 1 };
  drainer = sending w;
}

unfoldable pub decide_at : Options → ℕ → Destination → Drainer → System → System
unfolding found_empty obey
decide_at o now dest (got m none) s = found_empty m s
decide_at o now dest (got m (some w)) s = obey now w (triage o s.queue.identity now dest w) s
decide_at o now dest _ s = s

unfoldable pub head_decides : Options → ℕ → Destination → System → System
unfolding decide_at
head_decides o now dest s = decide_at o now dest s.drainer s

-- The server accepts: `mutate` begins.
unfoldable pub send_succeeds : System → System
unfolding begin_mutation
send_succeeds s = elim s.drainer [
  | sending w ↦ record s {
    queue = begin_mutation s.queue;
    drainer = removing w;
    accepted = s.accepted ++ w ∷ [];
  }
  | _ ↦ s
]

abbrev pub pause : System → System
pause s = record s { queue = record (s.queue) { in_flight = 0; state = paused } }

unfoldable pub react : Options → ℕ → QueuedWrite → Failure → Disposition → System → System
unfolding ends_auth back_off retire
react o now w f Disposition.auth s = ends_auth o (pause s)
react o now w f Disposition.retry s = back_off (pause s)
react o now w f Disposition.poison s =
    retire rejected (server_said (text_of f)) now w
      (record s { queue = record (s.queue) { in_flight = 0 } })

unfoldable pub send_fails : Options → ℕ → Failure → System → System
unfolding react classify_failure
send_fails o now f s = elim s.drainer [ sending w ↦ react o now w f (classify_failure f) s | _ ↦ s ]

unfoldable pub remove_commits : System → System
unfolding remove
remove_commits s = elim s.drainer [
  | removing w ↦ record s { db = remove w.seq s.db; drainer = removed w }
  | _ ↦ s
]

-- The `catch` of the send catches a failed `remove` too, which is no `IronflowError`: "retry".
unfoldable pub remove_aborts : System → System
unfolding end_mutation back_off
remove_aborts s = elim s.drainer [
  | removing w ↦ back_off (pause (record s { queue = end_mutation s.queue }))
  | _ ↦ s
]

abbrev pub lower : QueuedWrite → Queue → Queue
lower w q = record q { pending = q.pending - 1; bytes = q.bytes - w.bytes }

unfoldable pub remove_settles : System → System
unfolding end_mutation next_head
remove_settles s = elim s.drainer [
  | removed w ↦ next_head (record s {
    queue = record (end_mutation (lower w s.queue)) { in_flight = 0; attempt = 0 };
    notices = s.notices ++ notify w.local_id sent ∷ [];
  })
  | _ ↦ s
]

unfoldable pub retire_commits : System → System
unfolding dead_letter
retire_commits s = elim s.drainer [
  | retiring e ↦ record s {
    db = dead_letter e s.db;
    drainer = retired e;
    lettered = s.lettered ++ e.write ∷ [];
  }
  | _ ↦ s
]

-- The store is scanned only if its cap could be exceeded.
unfoldable pub retire_continues : Options → System → System
retire_continues o s = elim s.drainer [
  | retired e ↦
      if ltb o.max_dead_lettered (s.queue.dead_lettered + 1)
      then record s { drainer = trimming e }
      else record s { queue = lower e.write s.queue; drainer = tallying e }
  | _ ↦ s
]

unfoldable pub trim_commits : Options → System → System
unfolding trim_dead_lettered
trim_commits o s = elim s.drainer [
  | trimming e ↦ record s { db = trim_dead_lettered o.max_dead_lettered s.db; drainer = trimmed e }
  | _ ↦ s
]

unfoldable pub trim_continues : System → System
trim_continues s = elim s.drainer [
  | trimmed e ↦ record s { queue = lower e.write s.queue; drainer = tallying e }
  | _ ↦ s
]

unfoldable pub tally_settles : System → System
unfolding end_mutation next_head count_dead_lettered
tally_settles s = elim s.drainer [
  | tallying e ↦ next_head (record s {
    queue = end_mutation (record (s.queue) { dead_lettered = count_dead_lettered s.db });
    notices = s.notices ++ notify e.write.local_id (lost e.reason e.message) ∷ write_lost e ∷ [];
  })
  | _ ↦ s
]

-- A storage error inside `retire`, wherever it strikes, ends the drain.
unfoldable pub retire_aborts : System → System
unfolding end_mutation fail
retire_aborts s =
    let failed = fail (record s { queue = end_mutation s.queue }) in
    elim s.drainer [ retiring e ↦ failed | trimming e ↦ failed | tallying e ↦ failed | _ ↦ s ]

-- `db.head()` fails.
unfoldable pub head_fails : System → System
unfolding fail
head_fails s = elim s.drainer [ reading m ↦ fail s | _ ↦ s ]

-- How `onAuthRequired` ends: it fails or takes too long, or names an identity, or none.
pub data AuthResult : Type 0 where
  no_credentials : AuthResult
  credentials : Option String → AuthResult

abbrev pub rebind : Option String → String → String
rebind none current = current
rebind (some identity) current =
    if str_eq identity "" || str_eq identity current then current else identity

unfoldable pub reauthenticates : AuthResult → System → System
unfolding back_off again
reauthenticates r s = elim s.drainer [
  | reauthenticating ↦ elim r [
    | no_credentials ↦ back_off s
    | credentials identity ↦ again (record s {
      queue = record (s.queue) { identity = rebind identity s.queue.identity; attempt = 0 };
    })
  ]
  | _ ↦ s
]
