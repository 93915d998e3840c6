-- ===== src/Agent/Gate/Grants.antt =====
-- Why a call may run, and why an approval stands (packages/agent/src/permissions.ts).
use ironflow_js.Prelude.{
  ◌≡◌, refl, Bool, true, false, not, ◌&&◌, ◌||◌, Option, none, some, List, [], ◌∷◌, All, any, arith,
}
use ironflow_js.Durable.Text.{Text, text_eq, text_eq_iff}
use ironflow_js.Agent.Gate.{
  ToolClass, classify_tool, Request, same_request, same_command, Gate, is_bash, command_of, parses,
}

abbrev pub is_auto : ToolClass → Bool
is_auto ToolClass.auto = true
is_auto _ = false

abbrev pub is_denied : ToolClass → Bool
is_denied ToolClass.deny = true
is_denied _ = false

abbrev pub holds : Text → Option Text → Bool
holds c none = false
holds c (some d) = text_eq c d

-- The user allowed the tool for the session, in a prompt that was open.
abbrev pub tool_granted : List Request → Text → Bool
tool_granted log t = any (λ r. text_eq t r.tool && not (is_bash r)) log

-- The user allowed this exact command for the session, in a prompt that was open.
abbrev pub command_granted : List Request → Text → Bool
command_granted log c = any (λ r. holds c r.command && is_bash r) log && parses c

abbrev pub granted_command : List Request → Option Text → Bool
granted_command log none = false
granted_command log (some c) = command_granted log c

-- Why a call may run.
abbrev pub justified : Gate → Request → Bool
justified g r =
    not (is_denied (classify_tool r.tool))
    && (is_auto (classify_tool r.tool)
        || (any (same_request r) g.by_user
            || (any (same_request r) g.by_policy
                || (tool_granted g.for_session r.tool
                    || granted_command g.for_session (command_of r)))))

pub record IsJustified (g : Gate) : Type 0 where
  pub tools : All (λ (t : Text). tool_granted g.for_session t ≡ true) g.always
  pub grants : All (λ (c : Text). command_granted g.for_session c ≡ true) g.commands
  pub asks_judging : All (λ (r : Request). is_denied (classify_tool r.tool) ≡ false) g.judging
  pub asks_asking : All (λ (r : Request). is_denied (classify_tool r.tool) ≡ false) g.asking
  pub runs : All (λ (r : Request). justified g r ≡ true) g.allowed

pub text_eq_self : (s : Text) → text_eq s s ≡ true
text_eq_self s = (text_eq_iff s s).1 refl

same_command_self : (c : Option Text) → same_command c c ≡ true
unfolding same_command
same_command_self none = refl
same_command_self (some c) = text_eq_self c

pub same_request_self : (r : Request) → same_request r r ≡ true
unfolding same_request
same_request_self r = ground (arith, text_eq_self r.tool, same_command_self r.command)

-- The histories only grow.
pub record Grows (g h : Gate) : Type 0 where
  pub user : (f : Request → Bool) → any f g.by_user ≡ true → any f h.by_user ≡ true
  pub policy : (f : Request → Bool) → any f g.by_policy ≡ true → any f h.by_policy ≡ true
  pub session : (f : Request → Bool) → any f g.for_session ≡ true → any f h.for_session ≡ true

pub tool_granted-Grows :
    (g h : Gate) (t : Text)
    → Grows g h
    → tool_granted g.for_session t ≡ true
    → tool_granted h.for_session t ≡ true
tool_granted-Grows g h t w e = w.session (λ r. text_eq t r.tool && not (is_bash r)) e

pub command_granted-Grows :
    (g h : Gate) (c : Text)
    → Grows g h
    → command_granted g.for_session c ≡ true
    → command_granted h.for_session c ≡ true
command_granted-Grows g h c w e = ground (arith, w.session (λ r. holds c r.command && is_bash r))

pub granted_command-Grows :
    (g h : Gate) (c : Option Text)
    → Grows g h
    → granted_command g.for_session c ≡ true
    → granted_command h.for_session c ≡ true
granted_command-Grows g h none w e = e
granted_command-Grows g h (some c) w e = command_granted-Grows g h c w e

or_or :
    (d a u p t c u' p' t' c' : Bool)
    → (u ≡ true → u' ≡ true)
    → (p ≡ true → p' ≡ true)
    → (t ≡ true → t' ≡ true)
    → (c ≡ true → c' ≡ true)
    → (d && (a || (u || (p || (t || c))))) ≡ true
    → (d && (a || (u' || (p' || (t' || c'))))) ≡ true
or_or d a u p t c u' p' t' c' hu hp ht hc h = ground arith

pub justified-Grows :
    (g h : Gate) (r : Request) → Grows g h → justified g r ≡ true → justified h r ≡ true
justified-Grows g h r w e =
    or_or _ _ _ _ _ _ _ _ _ _ (w.user (same_request r)) (w.policy (same_request r))
      (tool_granted-Grows g h r.tool w) (granted_command-Grows g h (command_of r) w) e

All-imp {ℓ κ} :
    {A : Type ℓ} (P Q : A → Type κ) (l : List A) → ((a : A) → P a → Q a) → All P l → All Q l
All-imp P Q [] f h = tt
All-imp P Q (a ∷ l) f h = (f a h.0, All-imp P Q l f h.1)

-- The parts that a longer history keeps.
pub tools-Grows :
    (g h : Gate)
    → Grows g h
    → All (λ (t : Text). tool_granted g.for_session t ≡ true) g.always
    → All (λ (t : Text). tool_granted h.for_session t ≡ true) g.always
tools-Grows g h w k =
    All-imp (λ (t : Text). tool_granted g.for_session t ≡ true)
      (λ (t : Text). tool_granted h.for_session t ≡ true) g.always (λ t. tool_granted-Grows g h t w)
      k

pub grants-Grows :
    (g h : Gate)
    → Grows g h
    → All (λ (c : Text). command_granted g.for_session c ≡ true) g.commands
    → All (λ (c : Text). command_granted h.for_session c ≡ true) g.commands
grants-Grows g h w k =
    All-imp (λ (c : Text). command_granted g.for_session c ≡ true)
      (λ (c : Text). command_granted h.for_session c ≡ true) g.commands
      (λ c. command_granted-Grows g h c w) k

pub runs-Grows :
    (g h : Gate)
    → Grows g h
    → All (λ (r : Request). justified g r ≡ true) g.allowed
    → All (λ (r : Request). justified h r ≡ true) g.allowed
runs-Grows g h w k =
    All-imp (λ (r : Request). justified g r ≡ true) (λ (r : Request). justified h r ≡ true)
      g.allowed (λ r. justified-Grows g h r w) k
