-- ===== src/Agent/Gate/Requests.antt =====
-- Lemmas on lists of calls and on the reasons to run one (packages/agent/src/permissions.ts).
use ironflow_js.Prelude.{
  ◌≡◌, refl, if_split, Bool, true, false, not, ◌&&◌, ◌||◌, List, [], ◌∷◌, ◌++◌, All, All-append,
  any, arith,
}
use ironflow_js.Durable.Text.{Text, text_eq, text_eq_iff}
use ironflow_js.Agent.Gate.{
  auto, ask, deny, ToolClass, classify_tool, Request, same_request, without,
}
use ironflow_js.Agent.Gate.Grants.{is_denied}

pub ToolClass-split {ℓ κ} :
    {A : Type ℓ} (P : A → Type κ) (c : ToolClass) (x y z : A)
    → (c ≡ ToolClass.auto → P x)
    → (c ≡ ToolClass.ask → P y)
    → P z
    → P (elim c [ auto ↦ x | ask ↦ y | deny ↦ z ])
ToolClass-split P ToolClass.auto x y z hx hy hz = hx refl
ToolClass-split P ToolClass.ask x y z hx hy hz = hy refl
ToolClass-split P ToolClass.deny x y z hx hy hz = hz

pub All-any :
    (f : Text → Bool) (t : Text) (l : List Text)
    → All (λ (s : Text). f s ≡ true) l
    → any (text_eq t) l ≡ true
    → f t ≡ true
All-any f t [] h m = cc
All-any f t (s ∷ l) h m = ground (arith, text_eq_iff t s, All-any f t l h.1)

pub All-any_request :
    (f : Request → Bool) (r : Request) (l : List Request)
    → ((q : Request) → same_request r q ≡ true → f q ≡ f r)
    → All (λ (q : Request). f q ≡ false) l
    → any (same_request r) l ≡ true
    → f r ≡ false
All-any_request f r [] k h m = cc
All-any_request f r (q ∷ l) k h m = ground (arith, k q, All-any_request f r l k h.1)

pub same_request-tool : (r q : Request) → same_request r q ≡ true → r.tool ≡ q.tool
unfolding same_request
same_request-tool r q h = ground (arith, text_eq_iff r.tool q.tool)

pub not_denied :
    (r : Request) (l : List Request)
    → All (λ (q : Request). is_denied (classify_tool q.tool) ≡ false) l
    → any (same_request r) l ≡ true
    → is_denied (classify_tool r.tool) ≡ false
not_denied r l h m =
    All-any_request (λ q. is_denied (classify_tool q.tool)) r l
      (λ q s. cc (same_request-tool r q s)) h m

pub All-without :
    (f : Request → Bool) (r : Request) (l : List Request)
    → All (λ (q : Request). f q ≡ false) l
    → All (λ (q : Request). f q ≡ false) (without r l)
unfolding without
All-without f r [] h = tt
All-without f r (q ∷ l) h =
    if_split (All (λ (p : Request). f p ≡ false)) (not (same_request r q)) _ _
      (λ _. (h.0, All-without f r l h.1)) (λ _. All-without f r l h.1)

pub any-append : (f : Request → Bool) (a b : List Request) → any f (a ++ b) ≡ (any f a || any f b)
any-append f [] b = refl
any-append f (q ∷ a) b = ground (arith, any-append f a b)

pub ask_later :
    (r : Request) (l : List Request)
    → is_denied (classify_tool r.tool) ≡ false
    → All (λ (q : Request). is_denied (classify_tool q.tool) ≡ false) l
    → All (λ (q : Request). is_denied (classify_tool q.tool) ≡ false) (l ++ r ∷ [])
ask_later r l e h =
    All-append (λ (q : Request). is_denied (classify_tool q.tool) ≡ false) l (r ∷ []) h (e, tt)

pub or_left : (a b : Bool) → a ≡ true → (a || b) ≡ true
or_left a b h = ground arith

pub last_reason : (u p : Bool) → (true && (false || (u || (p || (true || false))))) ≡ true
last_reason u p = ground arith

pub by_first : (d a u rest : Bool) → d ≡ false → u ≡ true → (not d && (a || (u || rest))) ≡ true
by_first d a u rest h k = ground arith

pub by_second :
    (d a u p rest : Bool) → d ≡ false → p ≡ true → (not d && (a || (u || (p || rest)))) ≡ true
by_second d a u p rest h k = ground arith

pub by_last :
    (d a u p t c : Bool) → d ≡ false → c ≡ true → (not d && (a || (u || (p || (t || c))))) ≡ true
by_last d a u p t c h k = ground arith

pub or_true : (b : Bool) → (b || (true || false)) ≡ true
or_true b = ground arith

pub or_cons : (a b : Bool) → b ≡ true → (a || b) ≡ true
or_cons a b h = ground arith

pub head_reason : (a b c : Bool) → a ≡ true → b ≡ true → ((a && b) || c) ≡ true
head_reason a b c h k = ground arith

pub both : (a b : Bool) → a ≡ true → b ≡ true → (a && b) ≡ true
both a b h k = ground arith

pub not-not : (b : Bool) → not b ≡ false → b ≡ true
not-not b h = ground arith
