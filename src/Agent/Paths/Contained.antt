-- ===== src/Agent/Paths/Contained.antt =====
-- Where resolveInside leads (packages/agent/src/sandbox/contain.ts).
use ironflow_js.Prelude.{
  of_false_eq_true, ◌∙◌, ◌≢◌, if_split, Option-split, AllSome, AllSome-at, ◌≡◌, sym, Bool, true,
  false, ◌||◌, ◌&&◌, Option, none, some, ◌++◌, arith,
}
use ironflow_js.Durable.Text.{Text}
use ironflow_js.Agent.Paths.{
  FilePath, FileSystem, found, within, realpath_loose, resolve_inside_at, outside_home,
  max_link_hops,
}
use ironflow_js.Agent.Paths.Within.{IsPlain, within_iff, enter-IsPlain}
use ironflow_js.Agent.Paths.Leads.{Leads, Lookup-split, realpath_loose-Leads}

-- `realpath` answers paths without "..".
abbrev pub RealpathIsPlain : FileSystem → Type 0
RealpathIsPlain fs = (p q : FilePath) → fs.realpath p ≡ found q → IsPlain q

Leads-IsPlain : {fs : FileSystem} → RealpathIsPlain fs → {p q : FilePath} → Leads fs p q → IsPlain q
Leads-IsPlain clean (Leads.real {p} {q} e) = clean p q e
Leads-IsPlain clean (Leads.link target gone there folder e leads) = Leads-IsPlain clean leads
Leads-IsPlain clean (Leads.below {p} {q} {name} gone absent leads) =
    enter-IsPlain q name (Leads-IsPlain clean leads)
Leads-IsPlain clean (Leads.top gone absent) = tt

led_there :
    (fs : FileSystem) (p t : FilePath) → realpath_loose fs max_link_hops p ≡ some t → Leads fs p t
led_there fs p t e =
    AllSome-at (Leads fs p) (realpath_loose fs max_link_hops p) t
      (realpath_loose-Leads fs max_link_hops p) e

-- Where the path leads, below the real path of `cwd`.
abbrev pub Under : FileSystem → FilePath → FilePath → FilePath → Type 0
Under fs cwd p t =
    (root : FilePath) × (rest : FilePath) × (fs.realpath cwd ≡ found root)
    × Leads fs p t
    × (t ≡ rest ++ root)

outside_home-AllSome {ℓ} :
    (P : FilePath → Type ℓ) (fs : FileSystem) (home : Option FilePath) (search : Bool)
    (target : FilePath)
    → P target
    → AllSome P (outside_home fs home search target)
unfolding outside_home
outside_home-AllSome P fs none search target h = h
outside_home-AllSome P fs (some home) search target h =
    Option-split (AllSome P) (realpath_loose fs max_link_hops home) _ _ (λ _. tt)
      (λ q e.
        if_split (AllSome P) (within q target || (search && within target q)) _ _ (λ _. tt)
          (λ _. h))

pub resolve_inside_at-Under :
    (fs : FileSystem)
    → RealpathIsPlain fs
    → (cwd p : FilePath) (home : Option FilePath) (search : Bool) (t : FilePath)
    → resolve_inside_at fs cwd p home search ≡ some t
    → Under fs cwd p t
unfolding resolve_inside_at
resolve_inside_at-Under fs clean cwd p home search t e =
    let P = AllSome (Under fs cwd p) in
    AllSome-at (Under fs cwd p) (resolve_inside_at fs cwd p home search) t
      (Lookup-split P (fs.realpath cwd) _ _ _
        (λ root real.
          Option-split P (realpath_loose fs max_link_hops p) _ _ (λ _. tt)
            (λ target led.
              if_split P (within root target) _ _
                (λ w. outside_home-AllSome (Under fs cwd p) fs home search target (
                  let leads = led_there fs p target led in
                  let below = (within_iff root target (Leads-IsPlain clean leads)).0 w in
                  (root, below.0, real, leads, below.1)))
                (λ _. tt)))
        (λ _. tt) tt)
      e

-- Neither within the other.
abbrev Away : FilePath → FilePath → Type 0
Away h t = IsPlain t × (within h t ≡ false) × (within t h ≡ false)

neither : (a b : Bool) → (a || (true && b)) ≡ false → (a ≡ false) × (b ≡ false)
neither a b e = ground arith

outside_home-Away :
    (fs : FileSystem) (k h target : FilePath)
    → realpath_loose fs max_link_hops k ≡ some h
    → IsPlain target
    → AllSome (Away h) (outside_home fs (some k) true target)
unfolding outside_home
outside_home-Away fs k h target led plain = rw led (
    if_split (AllSome (Away h)) (within h target || (true && within target h)) _ _ (λ _. tt)
      (λ apart.
        let both = neither (within h target) (within target h) apart in (plain, both.0, both.1)))

-- Where `realpath` answers paths without "..", a search root that resolveInside accepts is not the
-- agent's home, nor below it, nor above it.
pub search_home_unreached :
    (fs : FileSystem)
    → RealpathIsPlain fs
    → (cwd p k h t rest : FilePath) → realpath_loose fs max_link_hops k ≡ some h
    → resolve_inside_at fs cwd p (some k) true ≡ some t
    → (t ≢ rest ++ h) × (h ≢ rest ++ t)
unfolding resolve_inside_at
search_home_unreached fs clean cwd p k h t rest led e =
    let real = Leads-IsPlain clean (led_there fs k h led) in
    let P = AllSome (Away h) in
    let away =
      AllSome-at (Away h) (resolve_inside_at fs cwd p (some k) true) t
        (Lookup-split P (fs.realpath cwd) _ _ _
          (λ root _.
            Option-split P (realpath_loose fs max_link_hops p) _ _ (λ _. tt)
              (λ target to.
                if_split P (within root target) _ _
                  (λ _.
                    outside_home-Away fs k h target led
                      (Leads-IsPlain clean (led_there fs p target to)))
                  (λ _. tt)))
          (λ _. tt) tt)
        e in
    (
      (λ q. of_false_eq_true (sym away.1 ∙ (within_iff h t away.0).1 rest q)),
      (λ q. of_false_eq_true (sym away.2 ∙ (within_iff t h real).1 rest q)),
    )
