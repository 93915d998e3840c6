-- ===== src/Agent/Gate.antt =====
-- classifyTool and PermissionGate of packages/agent/src/permissions.ts: which tool calls run, and
-- which approvals stand for the session.
pub mod Grants
mod Requests
pub mod Runs
use ironflow_js.Prelude.{
  ℕ, Bool, true, false, not, ◌&&◌, ◌||◌, Option, none, some, List, [], ◌∷◌, ◌++◌, map, any, filter,
  ◌==◌, if◌then◌else◌,
}
use ironflow_js.Durable.Text.{Text, codes, text_eq}
use ironflow_js.Agent.Shell.{parse_command}

abbrev pub bash : Text
bash = codes "bash"

abbrev pub ironflow_prefix : Text
ironflow_prefix = codes "mcp__ironflow__"

abbrev pub ironflow_read_tools : List Text
ironflow_read_tools =
    codes "ironflow_server_info"
    ∷ codes "ironflow_overview"
    ∷ codes "ironflow_get_docs"
    ∷ codes "ironflow_list_functions"
    ∷ codes "ironflow_get_function"
    ∷ codes "ironflow_list_projects"
    ∷ codes "ironflow_list_environments"
    ∷ codes "ironflow_list_workers"
    ∷ codes "ironflow_list_runs"
    ∷ codes "ironflow_get_run"
    ∷ codes "ironflow_get_run_steps"
    ∷ codes "ironflow_wait_for_run"
    ∷ codes "ironflow_list_events"
    ∷ codes "ironflow_list_projections"
    ∷ codes "ironflow_projection_status"
    ∷ codes "ironflow_rebuild_projection_status"
    ∷ codes "ironflow_list_entity_streams"
    ∷ codes "ironflow_read_entity_stream"
    ∷ codes "ironflow_kv_list_buckets"
    ∷ codes "ironflow_kv_list_keys"
    ∷ codes "ironflow_kv_get"
    ∷ []

abbrev pub auto_local : List Text
auto_local =
    codes "read"
    ∷ codes "glob"
    ∷ codes "grep"
    ∷ codes "activate_skill"
    ∷ codes "read_skill_resource"
    ∷ []

abbrev pub auto_mcp : List Text
auto_mcp = map (λ t. ironflow_prefix ++ t) ironflow_read_tools

abbrev pub denied : List Text
denied = codes "task" ∷ []

pub data ToolClass : Type 0 where
  auto : ToolClass
  ask : ToolClass
  deny : ToolClass

unfoldable pub classify_tool : Text → ToolClass
unfolding text_eq
classify_tool name =
    if any (text_eq name) denied
    then ToolClass.deny
    else if any (text_eq name) auto_local || any (text_eq name) auto_mcp
    then ToolClass.auto
    else ToolClass.ask

-- A call of `check`: `command` is what `commandOf` finds in the input.
pub record Request : Type 0 where
  pub id : ℕ
  pub tool : Text
  pub command : Option Text

unfoldable pub same_command : Option Text → Option Text → Bool
unfolding text_eq
same_command none none = true
same_command (some c) (some d) = text_eq c d
same_command _ _ = false

unfoldable pub same_request : Request → Request → Bool
unfolding text_eq same_command
same_request r q = r.id == q.id && (text_eq r.tool q.tool && same_command r.command q.command)

pub data Outcome : Type 0 where
  allow_once : Outcome
  allow_always : Outcome
  reject_once : Outcome
  dismissed : Outcome

-- The gate, and the calls of `check` that wait: for isReadOnly, for the user, or, cancelled, for an
-- answer that no longer matters. `allowed` are the calls that may run, `refused` the others. What
-- follows is a history that only `note` writes, from what comes in: the calls that the user allowed
-- in an open prompt, those that they allowed so for the session, and those that isReadOnly passed.
pub record Gate : Type 0 where
  pub always : List Text
  pub commands : List Text
  pub judging : List Request
  pub asking : List Request
  pub cancelled : List Request
  pub allowed : List Request
  pub refused : List Request
  pub by_user : List Request
  pub for_session : List Request
  pub by_policy : List Request

abbrev pub new_gate : Gate
new_gate = record {
  always = [];
  commands = [];
  judging = [];
  asking = [];
  cancelled = [];
  allowed = [];
  refused = [];
  by_user = [];
  for_session = [];
  by_policy = [];
}

abbrev pub is_bash : Request → Bool
is_bash r = text_eq r.tool bash

-- `req.toolName === 'bash' ? commandOf(req.rawInput) : null`.
unfoldable pub command_of : Request → Option Text
command_of r = if is_bash r then r.command else none

unfoldable pub parses : Text → Bool
unfolding parse_command
parses command = elim (parse_command command) [ none ↦ false | some ps ↦ true ]

unfoldable pub allow : Request → Gate → Gate
allow r g = record g { allowed = g.allowed ++ r ∷ [] }

unfoldable pub refuse : Request → Gate → Gate
refuse r g = record g { refused = g.refused ++ r ∷ [] }

-- `check` on a tool that asks, up to its first await.
unfoldable pub begin_asking : Request → Gate → Gate
unfolding command_of
begin_asking r g = elim (command_of r) [
  | none ↦ record g { asking = g.asking ++ r ∷ [] }
  | some c ↦ record g { judging = g.judging ++ r ∷ [] }
]

unfoldable pub check : Request → Gate → Gate
unfolding classify_tool allow refuse begin_asking
check r g = elim (classify_tool r.tool) [
  | deny ↦ refuse r g
  | auto ↦ allow r g
  | ask ↦ if any (text_eq r.tool) g.always then allow r g else begin_asking r g
]

unfoldable pub without : Request → List Request → List Request
unfolding same_request
without r rs = filter (λ q. not (same_request r q)) rs

-- Behind the await of isReadOnly.
unfoldable pub judged_as : Bool → Request → Gate → Gate
unfolding allow command_of
judged_as true r g = allow r g
judged_as false r g = elim (command_of r) [
  | none ↦ g
  | some c ↦
      if any (text_eq c) g.commands then allow r g else record g { asking = g.asking ++ r ∷ [] }
]

unfoldable pub judged : Bool → Request → Gate → Gate
unfolding judged_as without
judged read_only r g =
    if any (same_request r) g.judging
    then judged_as read_only r (record g { judging = without r g.judging })
    else g

-- The grants of an answer "allow_always" to a prompt that is not cancelled.
unfoldable pub grant : Request → Gate → Gate
unfolding parses
grant r g = if not (is_bash r) then record g { always = r.tool ∷ g.always } else elim r.command [
  | none ↦ g
  | some c ↦ if parses c then record g { commands = c ∷ g.commands } else g
]

unfoldable pub settle : Outcome → Request → Gate → Gate
unfolding allow refuse grant
settle Outcome.allow_once r g = allow r g
settle Outcome.allow_always r g = allow r (grant r g)
settle Outcome.reject_once r g = refuse r g
settle Outcome.dismissed r g = refuse r g

-- An answer to a cancelled prompt changes nothing: the call has been refused.
unfoldable pub answered : Outcome → Request → Gate → Gate
unfolding settle without
answered o r g =
    if any (same_request r) g.asking
    then settle o r (record g { asking = without r g.asking })
    else record g { cancelled = without r g.cancelled }

unfoldable pub cancel_pending : Gate → Gate
cancel_pending g = record g {
  asking = [];
  cancelled = g.cancelled ++ g.asking;
  refused = g.refused ++ g.asking;
}

pub data Event : Type 0 where
  checks : Request → Event
  judges : Bool → Request → Event
  answers : Outcome → Request → Event
  cancels : Event

-- The history, in front of what the code does.
unfoldable pub note : Event → Gate → Gate
note (Event.answers Outcome.allow_once r) g =
    if any (same_request r) g.asking then record g { by_user = r ∷ g.by_user } else g
note (Event.answers Outcome.allow_always r) g =
    if any (same_request r) g.asking
    then record g { by_user = r ∷ g.by_user; for_session = r ∷ g.for_session }
    else g
note (Event.judges true r) g =
    if any (same_request r) g.judging then record g { by_policy = r ∷ g.by_policy } else g
note _ g = g

unfoldable pub happens : Event → Gate → Gate
unfolding check judged answered cancel_pending
happens (Event.checks r) g = check r g
happens (Event.judges b r) g = judged b r g
happens (Event.answers o r) g = answered o r g
happens Event.cancels g = cancel_pending g

unfoldable pub step : Event → Gate → Gate
unfolding note happens
step e g = happens e (note e g)

unfoldable pub run : List Event → Gate → Gate
unfolding step
run [] g = g
run (e ∷ es) g = run es (step e g)
