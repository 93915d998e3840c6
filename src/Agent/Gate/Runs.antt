-- ===== src/Agent/Gate/Runs.antt =====
-- Every call that may run is justified, whatever is asked and answered in which order
-- (packages/agent/src/permissions.ts).
use ironflow_js.Prelude.{
  ◌≡◌, refl, if_split, Option-split, Bool, true, false, not, ◌&&◌, List, [], ◌∷◌, ◌++◌, All-append,
  any, arith,
}
use ironflow_js.Durable.Text.{text_eq}
use ironflow_js.Agent.Gate.{
  classify_tool, Request, same_request, Outcome, Gate, new_gate, is_bash, command_of, parses, allow,
  refuse, begin_asking, check, without, judged_as, judged, grant, settle, answered, cancel_pending,
  Event, note, happens, step, run,
}
use ironflow_js.Agent.Gate.Grants.{
  is_auto, is_denied, holds, tool_granted, command_granted, granted_command, justified, IsJustified,
  Grows, text_eq_self, same_request_self, tools-Grows, grants-Grows, runs-Grows,
}
use ironflow_js.Agent.Gate.Requests.{
  ToolClass-split, All-any, not_denied, All-without, or_left, last_reason, by_first, by_second,
  by_last, or_cons, both, not-not, ask_later,
}

-- A call that runs.
allow-IsJustified :
    (r : Request) (g : Gate) → IsJustified g → justified g r ≡ true → IsJustified (allow r g)
unfolding allow
allow-IsJustified r g h e = record {
  tools = h.tools;
  grants = h.grants;
  asks_judging = h.asks_judging;
  asks_asking = h.asks_asking;
  runs = All-append (λ (q : Request). justified g q ≡ true) g.allowed (r ∷ []) h.runs (e, tt);
}

refuse-IsJustified : (r : Request) (g : Gate) → IsJustified g → IsJustified (refuse r g)
unfolding refuse
refuse-IsJustified r g h = record {
  tools = h.tools;
  grants = h.grants;
  asks_judging = h.asks_judging;
  asks_asking = h.asks_asking;
  runs = h.runs;
}

asking_more :
    (r : Request) (g : Gate)
    → IsJustified g
    → is_denied (classify_tool r.tool) ≡ false
    → IsJustified (record g { asking = g.asking ++ r ∷ [] })
asking_more r g h e = record {
  tools = h.tools;
  grants = h.grants;
  asks_judging = h.asks_judging;
  asks_asking = ask_later r g.asking e h.asks_asking;
  runs = h.runs;
}

begin_asking-IsJustified :
    (r : Request) (g : Gate)
    → IsJustified g
    → is_denied (classify_tool r.tool) ≡ false
    → IsJustified (begin_asking r g)
unfolding begin_asking
begin_asking-IsJustified r g h e =
    Option-split IsJustified (command_of r) _ _ (λ _. asking_more r g h e)
      (λ c _. record {
        tools = h.tools;
        grants = h.grants;
        asks_judging = ask_later r g.judging e h.asks_judging;
        asks_asking = h.asks_asking;
        runs = h.runs;
      })

check-IsJustified : (r : Request) (g : Gate) → IsJustified g → IsJustified (check r g)
unfolding check
check-IsJustified r g h =
    ToolClass-split IsJustified (classify_tool r.tool) _ _ _
      (λ e. allow-IsJustified r g h (rw e refl))
      (λ e.
        if_split IsJustified (any (text_eq r.tool) g.always) _ _
          (λ m.
            let granted = All-any (tool_granted g.for_session) r.tool g.always h.tools m in
            allow-IsJustified r g h (rw (e, granted) (last_reason _ _)))
          (λ _. begin_asking-IsJustified r g h (rw e refl)))
      (refuse-IsJustified r g h)

judged_as-IsJustified :
    (b : Bool) (r : Request) (g : Gate)
    → IsJustified g
    → is_denied (classify_tool r.tool) ≡ false
    → (b ≡ true → any (same_request r) g.by_policy ≡ true)
    → IsJustified (judged_as b r g)
unfolding judged_as
judged_as-IsJustified true r g h e passed =
    allow-IsJustified r g h (by_second _ _ _ _ _ e (passed refl))
judged_as-IsJustified false r g h e passed =
    Option-split IsJustified (command_of r) _ _ (λ _. h)
      (λ c found.
        if_split IsJustified (any (text_eq c) g.commands) _ _
          (λ m.
            let granted = All-any (command_granted g.for_session) c g.commands h.grants m in
            let reason : granted_command g.for_session (command_of r) ≡ true = rw found granted in
            allow-IsJustified r g h (
              by_last _ (is_auto (classify_tool r.tool)) (any (same_request r) g.by_user)
                (any (same_request r) g.by_policy) (tool_granted g.for_session r.tool) _ e reason))
          (λ _. asking_more r g h e))

judged-IsJustified :
    (b : Bool) (r : Request) (g : Gate)
    → IsJustified g
    → (any (same_request r) g.judging ≡ true → b ≡ true → any (same_request r) g.by_policy ≡ true)
    → IsJustified (judged b r g)
unfolding judged
judged-IsJustified b r g h passed =
    if_split IsJustified (any (same_request r) g.judging) _ _
      (λ m.
        judged_as-IsJustified b r (record g { judging = without r g.judging })
          (record {
            tools = h.tools;
            grants = h.grants;
            asks_judging =
                All-without (λ q. is_denied (classify_tool q.tool)) r g.judging h.asks_judging;
            asks_asking = h.asks_asking;
            runs = h.runs;
          })
          (not_denied r g.judging h.asks_judging m) (passed m))
      (λ _. h)

-- What the history holds of an answer to an open prompt.
abbrev Noted : Outcome → Request → Gate → Type 0
Noted Outcome.allow_once r g = any (same_request r) g.by_user ≡ true
Noted Outcome.allow_always r g =
    (any (same_request r) g.by_user ≡ true)
    × ((f : Request → Bool) → f r ≡ true → any f g.for_session ≡ true)
Noted _ r g = Unit

grant-IsJustified :
    (r : Request) (g : Gate)
    → IsJustified g
    → ((f : Request → Bool) → f r ≡ true → any f g.for_session ≡ true)
    → IsJustified (grant r g)
unfolding grant
grant-IsJustified r g h noted =
    if_split IsJustified (not (is_bash r)) _ _
      (λ other. record {
        tools = (
          noted (λ q. text_eq r.tool q.tool && not (is_bash q))
              (both _ _ (text_eq_self r.tool) other),
          h.tools,
        );
        grants = h.grants;
        asks_judging = h.asks_judging;
        asks_asking = h.asks_asking;
        runs = h.runs;
      })
      (λ shell.
        Option-split IsJustified r.command _ _ (λ _. h)
          (λ c e.
            if_split IsJustified (parses c) _ _
              (λ parsed.
                let same : holds c r.command ≡ true = rw e (text_eq_self c) in
                let told =
                  noted (λ q. holds c q.command && is_bash q) (both _ _ same (not-not _ shell)) in
                record {
                  tools = h.tools;
                  grants = (both _ _ told parsed, h.grants);
                  asks_judging = h.asks_judging;
                  asks_asking = h.asks_asking;
                  runs = h.runs;
                })
              (λ _. h)))

grant-by_user : (r : Request) (g : Gate) → (grant r g).by_user ≡ g.by_user
unfolding grant
grant-by_user r g = ground arith

settle-IsJustified :
    (o : Outcome) (r : Request) (g : Gate)
    → IsJustified g
    → is_denied (classify_tool r.tool) ≡ false
    → Noted o r g
    → IsJustified (settle o r g)
unfolding settle
settle-IsJustified Outcome.allow_once r g h e noted =
    allow-IsJustified r g h (by_first _ _ _ _ e noted)
settle-IsJustified Outcome.allow_always r g h e noted =
    let seen : any (same_request r) (grant r g).by_user ≡ true = rw (grant-by_user r g) noted.0 in
    allow-IsJustified r (grant r g) (grant-IsJustified r g h noted.1) (by_first _ _ _ _ e seen)
settle-IsJustified Outcome.reject_once r g h e noted = refuse-IsJustified r g h
settle-IsJustified Outcome.dismissed r g h e noted = refuse-IsJustified r g h

Noted-kept :
    (o : Outcome) (r : Request) (g : Gate)
    → Noted o r g
    → Noted o r (record g { asking = without r g.asking })
Noted-kept Outcome.allow_once r g h = h
Noted-kept Outcome.allow_always r g h = h
Noted-kept Outcome.reject_once r g h = h
Noted-kept Outcome.dismissed r g h = h

answered-IsJustified :
    (o : Outcome) (r : Request) (g : Gate)
    → IsJustified g
    → (any (same_request r) g.asking ≡ true → Noted o r g)
    → IsJustified (answered o r g)
unfolding answered
answered-IsJustified o r g h noted =
    if_split IsJustified (any (same_request r) g.asking) _ _
      (λ m.
        settle-IsJustified o r (record g { asking = without r g.asking })
          (record {
            tools = h.tools;
            grants = h.grants;
            asks_judging = h.asks_judging;
            asks_asking =
                All-without (λ q. is_denied (classify_tool q.tool)) r g.asking h.asks_asking;
            runs = h.runs;
          })
          (not_denied r g.asking h.asks_asking m) (Noted-kept o r g (noted m)))
      (λ _. record {
        tools = h.tools;
        grants = h.grants;
        asks_judging = h.asks_judging;
        asks_asking = h.asks_asking;
        runs = h.runs;
      })

-- A history that grows justifies what it justified.
later-IsJustified :
    (g : Gate) (user policy session : List Request)
    → Grows g (record g { by_user = user; by_policy = policy; for_session = session })
    → IsJustified g
    → IsJustified (record g { by_user = user; by_policy = policy; for_session = session })
later-IsJustified g user policy session grows h =
    let later = record g { by_user = user; by_policy = policy; for_session = session } in
    record {
      tools = tools-Grows g later grows h.tools;
      grants = grants-Grows g later grows h.grants;
      asks_judging = h.asks_judging;
      asks_asking = h.asks_asking;
      runs = runs-Grows g later grows h.runs;
    }

answers-IsJustified :
    (o : Outcome) (r : Request) (g : Gate)
    → IsJustified g
    → IsJustified (answered o r (note (Event.answers o r) g))
unfolding note
answers-IsJustified Outcome.allow_once r g h =
    if_split (λ (n : Gate). IsJustified (answered Outcome.allow_once r n))
      (any (same_request r) g.asking) _ _
      (λ m.
        answered-IsJustified Outcome.allow_once r (record g { by_user = r ∷ g.by_user })
          (later-IsJustified g (r ∷ g.by_user) g.by_policy g.for_session
            (record { user = λ f k. or_cons _ _ k; policy = λ f k. k; session = λ f k. k }) h)
          (λ _. or_left _ _ (same_request_self r)))
      (λ m. answered-IsJustified Outcome.allow_once r g h (λ n. absurd (cc (m, n))))
answers-IsJustified Outcome.allow_always r g h =
    if_split (λ (n : Gate). IsJustified (answered Outcome.allow_always r n))
      (any (same_request r) g.asking) _ _
      (λ m.
        answered-IsJustified Outcome.allow_always r
          (record g { by_user = r ∷ g.by_user; for_session = r ∷ g.for_session })
          (later-IsJustified g (r ∷ g.by_user) g.by_policy (r ∷ g.for_session)
            (record {
              user = λ f k. or_cons _ _ k;
              policy = λ f k. k;
              session = λ f k. or_cons _ _ k;
            })
            h)
          (λ _. (or_left _ _ (same_request_self r), λ f k. or_left _ _ k)))
      (λ m. answered-IsJustified Outcome.allow_always r g h (λ n. absurd (cc (m, n))))
answers-IsJustified Outcome.reject_once r g h =
    answered-IsJustified Outcome.reject_once r g h (λ _. tt)
answers-IsJustified Outcome.dismissed r g h = answered-IsJustified Outcome.dismissed r g h (λ _. tt)

judges-IsJustified :
    (b : Bool) (r : Request) (g : Gate)
    → IsJustified g
    → IsJustified (judged b r (note (Event.judges b r) g))
unfolding note
judges-IsJustified true r g h =
    if_split (λ (n : Gate). IsJustified (judged true r n)) (any (same_request r) g.judging) _ _
      (λ m.
        judged-IsJustified true r (record g { by_policy = r ∷ g.by_policy })
          (later-IsJustified g g.by_user (r ∷ g.by_policy) g.for_session
            (record { user = λ f k. k; policy = λ f k. or_cons _ _ k; session = λ f k. k }) h)
          (λ _ _. or_left _ _ (same_request_self r)))
      (λ m. judged-IsJustified true r g h (λ n _. absurd (cc (m, n))))
judges-IsJustified false r g h = judged-IsJustified false r g h (λ _ e. absurd (cc e))

step-IsJustified : (e : Event) (g : Gate) → IsJustified g → IsJustified (step e g)
unfolding step happens note cancel_pending
step-IsJustified (Event.checks r) g h = check-IsJustified r g h
step-IsJustified (Event.judges b r) g h = judges-IsJustified b r g h
step-IsJustified (Event.answers o r) g h = answers-IsJustified o r g h
step-IsJustified Event.cancels g h = record {
  tools = h.tools;
  grants = h.grants;
  asks_judging = h.asks_judging;
  asks_asking = tt;
  runs = h.runs;
}

run-IsJustified : (es : List Event) (g : Gate) → IsJustified g → IsJustified (run es g)
unfolding run
run-IsJustified [] g h = h
run-IsJustified (e ∷ es) g h = run-IsJustified es (step e g) (step-IsJustified e g h)

-- After any events, each tool that is allowed for the session is one other than bash that the user
-- allowed so in an open prompt, each allowed command is one of bash that the user allowed so and
-- that parseCommand accepts, and each call that may run is of a tool that is not denied and that
-- runs unasked, or was allowed by the user or by isReadOnly, or is covered by what was allowed so
-- for the session.
pub calls-IsJustified : (es : List Event) → IsJustified (run es new_gate)
calls-IsJustified es =
    run-IsJustified es new_gate
      (record { tools = tt; grants = tt; asks_judging = tt; asks_asking = tt; runs = tt })
