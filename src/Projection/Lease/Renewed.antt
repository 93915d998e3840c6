-- ===== src/Projection/Lease/Renewed.antt =====
-- The renewals of the lease, of all grants, as the code keeps track of them
-- (packages/node/src/projection-runner.ts).
use ironflow_js.Prelude.{
  ℕ, suc, ◌+◌, ◌≤◌, ◌≡◌, ◌⊎◌, inl, inr, refl, ap, Bool, true, false, Option, none, some, List, [],
  ◌∷◌, ◌++◌, ◌==◌, All, if◌then◌else◌, arith,
}
use ironflow_js.Projection.Lease.{Renew, serves, overwrite}

abbrev pub armed : Option Renew → ℕ
armed none = 0
armed (some r) = 1

-- The renews of a grant that are under way.
abbrev pub count : ℕ → List Renew → ℕ
count g [] = 0
count g (r ∷ rs) = let n = count g rs in if r.grant == g then suc n else n

abbrev pub has : Option ℕ → Bool
has none = false
has (some e) = true

abbrev pub IsPast : ℕ → List Renew → Type 0
IsPast grant rs = All (λ (r : Renew). r.grant ≤ grant) rs

-- What a renew of the served grant sends is the lease that is held.
abbrev pub Carries : Option ℕ → Option ℕ → List Renew → Type 0
Carries lease rg rs = All (λ (r : Renew). rg ≡ some r.grant → lease ≡ some r.epoch) rs

pub record IsRenewed (stopping : Bool) (lease : Option ℕ) (grant : ℕ) (rg : Option ℕ)
    (timer : Option Renew) (leaked renewing : List Renew) : Type 0 where
  pub no_leaks : leaked ≡ []
  pub served : (rg ≡ none) ⊎ ((rg ≡ some grant) × (has lease ≡ true))
  pub timed :
      (timer ≡ none)
      ⊎ ((r : Renew) × (timer ≡ some r) × (rg ≡ some r.grant) × (lease ≡ some r.epoch))
  pub past : IsPast grant renewing
  pub carried : Carries lease rg renewing
  pub at_most : rg ≡ some grant → armed timer + count grant renewing ≤ 1
  pub at_least : rg ≡ some grant → stopping ≡ false → 1 ≤ armed timer + count grant renewing

count-append : (g : ℕ) (a b : List Renew) → count g (a ++ b) ≡ count g a + count g b
count-append g [] b = omega arith
count-append g (r ∷ a) b = ground (arith, count-append g a b)

All-less :
    (P : Renew → Type 0) (a : List Renew) (r : Renew) (b : List Renew)
    → All P (a ++ r ∷ b)
    → All P (a ++ b)
All-less P [] r b h = h.1
All-less P (q ∷ a) r b h = (h.0, All-less P a r b h.1)

All-at :
    (P : Renew → Type 0) (a : List Renew) (r : Renew) (b : List Renew) → All P (a ++ r ∷ b) → P r
All-at P [] r b h = h.0
All-at P (q ∷ a) r b h = All-at P a r b h.1

carried_none : (lease : Option ℕ) (rs : List Renew) → Carries lease none rs
carried_none lease [] = tt
carried_none lease (r ∷ rs) = (λ e. absurd (cc e), carried_none lease rs)

next_bound : (g : ℕ) (rs : List Renew) → IsPast g rs → IsPast (g + 1) rs
next_bound g [] h = tt
next_bound g (r ∷ rs) h = (omega (arith, h.0), next_bound g rs h.1)

pub count_next : (g : ℕ) (rs : List Renew) → IsPast g rs → count (g + 1) rs ≡ 0
count_next g [] h = refl
count_next g (r ∷ rs) h = ground (arith, h.0, count_next g rs h.1)

-- A grant without renews carries what one likes.
carried_fresh :
    (lease : Option ℕ) (g : ℕ) (rs : List Renew) → count g rs ≡ 0 → Carries lease (some g) rs
carried_fresh lease g [] e = tt
carried_fresh lease g (r ∷ rs) e = (
  λ same. let mine : g ≡ r.grant = cc same in absurd (ground (arith, e, mine)),
  carried_fresh lease g rs (ground (arith, e)),
)

-- Where no grant is served.
pub IsRenewed-off :
    (stopping : Bool) (lease : Option ℕ) (grant : ℕ) (leaked renewing : List Renew)
    → leaked ≡ []
    → IsPast grant renewing
    → IsRenewed stopping lease grant none none leaked renewing
IsRenewed-off stopping lease grant leaked renewing no_leaks past = record {
  no_leaks = no_leaks;
  served = inl refl;
  timed = inl refl;
  past = past;
  carried = carried_none lease renewing;
  at_most = λ e. absurd (cc e);
  at_least = λ e. absurd (cc e);
}

module _ {stopping : Bool} {lease : Option ℕ} {grant : ℕ} {rg : Option ℕ} {timer : Option Renew}
    {leaked renewing : List Renew}
    (h : IsRenewed stopping lease grant rg timer leaked renewing) where
  pub IsRenewed-stopped :
      (stopping' : Bool) (lease' : Option ℕ)
      → IsRenewed stopping' lease' grant none none leaked renewing
  IsRenewed-stopped stopping' lease' =
      IsRenewed-off stopping' lease' grant leaked renewing h.no_leaks h.past

  pub IsRenewed-stopping : IsRenewed true lease grant rg timer leaked renewing
  IsRenewed-stopping = record {
    no_leaks = h.no_leaks;
    served = h.served;
    timed = h.timed;
    past = h.past;
    carried = h.carried;
    at_most = h.at_most;
    at_least = λ e f. absurd (cc f);
  }

  pub timer_none : rg ≡ none → timer ≡ none
  timer_none e = elim h.timed [ inl gone ↦ gone | inr (r, t, q, l) ↦ absurd (cc (e, q)) ]

  pub timer_sent :
      rg ≡ some grant → (r : Renew) → timer ≡ some r → (r.grant ≡ grant) × (lease ≡ some r.epoch)
  timer_sent own r due = elim h.timed [
    | inl gone ↦ absurd (cc (due, gone))
    | inr (q, t, serving, l) ↦
        let same : r ≡ q = cc (due, t) in (cc (same, own, serving), cc (same, l))
  ]

  pub IsRenewed-dropped : rg ≡ none → IsRenewed stopping none (grant + 1) rg timer leaked renewing
  IsRenewed-dropped e =
      rw (e, timer_none e)
        (record {
          no_leaks = h.no_leaks;
          served = inl refl;
          timed = inl refl;
          past = next_bound grant renewing h.past;
          carried = carried_none none renewing;
          at_most = λ q. absurd (cc q);
          at_least = λ q. absurd (cc q);
        })

  pub IsRenewed-started :
      (epoch : ℕ)
      → rg ≡ none
      → count grant renewing ≡ 0
      → let r : Renew = record { grant = grant; epoch = epoch } in
        IsRenewed stopping
          (some epoch)
          grant
          (some grant)
          (some r)
          (overwrite timer leaked)
          renewing
  IsRenewed-started epoch e none_yet = rw (timer_none e) (record {
    no_leaks = h.no_leaks;
    served = inr (refl, refl);
    timed = inr (record { grant = grant; epoch = epoch }, refl, refl, refl);
    past = h.past;
    carried = carried_fresh (some epoch) grant renewing none_yet;
    at_most = λ q. omega (arith, none_yet);
    at_least = λ q f. omega arith;
  })

  pub IsRenewed-fired :
      (r : Renew) → timer ≡ some r → IsRenewed stopping lease grant rg none leaked (r ∷ renewing)
  IsRenewed-fired r e = elim h.timed [
    | inl gone ↦ absurd (cc (e, gone))
    | inr (q, t, serving, l) ↦
        let same : r ≡ q = cc (e, t) in
        let mine : q.grant ≡ grant = elim h.served [
          | inl none_served ↦ absurd (cc (none_served, serving))
          | inr (own, held) ↦ cc (own, serving)
        ] in
        let ours : r.grant ≡ grant = cc (same, mine) in
        record {
          no_leaks = h.no_leaks;
          served = h.served;
          timed = inl refl;
          past = (omega (arith, ours), h.past);
          carried = (λ f. cc (same, l), h.carried);
          at_most = λ f. ground (arith, h.at_most f, e);
          at_least = λ f g. ground (arith, h.at_least f g, e, same, mine);
        }
  ]

  module _ (a b : List Renew) (r : Renew) (e : renewing ≡ a ++ r ∷ b) where
    pub counted : count grant renewing ≡ count grant (a ++ b) + (if r.grant == grant then 1 else 0)
    counted =
        ground (arith, ap (count grant) e, count-append grant a (r ∷ b), count-append grant a b)

    pub left_bound : IsPast grant (a ++ b)
    left_bound = All-less (λ q. q.grant ≤ grant) a r b (rw e at h.past)

    still_carried : Carries lease rg (a ++ b)
    still_carried =
        All-less (λ q. rg ≡ some q.grant → lease ≡ some q.epoch) a r b (rw e at h.carried)

    pub IsRenewed-gone :
        (serves r.grant rg ≡ false) ⊎ (stopping ≡ true)
        → IsRenewed stopping lease grant rg timer leaked (a ++ b)
    IsRenewed-gone why = record {
      no_leaks = h.no_leaks;
      served = h.served;
      timed = h.timed;
      past = left_bound;
      carried = still_carried;
      at_most = λ f. omega (arith, h.at_most f, counted);
      at_least = λ f g. ground (arith, h.at_least f g, counted, why);
    }

    module _ (serving : serves r.grant rg ≡ true) where
      own_grant : (r.grant ≡ grant) × (rg ≡ some grant)
      own_grant = elim h.served [
        | inl gone ↦ absurd (ground (arith, gone, serving))
        | inr (own, held) ↦ (ground (arith, own, serving), own)
      ]

      pub sent_held : lease ≡ some r.epoch
      sent_held =
          All-at (λ q. rg ≡ some q.grant → lease ≡ some q.epoch) a r b (rw e at h.carried)
            (cc (own_grant.0, own_grant.1))

      pub IsRenewed-again :
          IsRenewed stopping lease grant rg (some r) (overwrite timer leaked) (a ++ b)
      IsRenewed-again =
          let only : armed timer + count grant (a ++ b) ≡ 0 =
            ground (arith, h.at_most own_grant.1, counted, own_grant.0) in
          let gone : timer ≡ none = elim h.timed [
            | inl gone ↦ gone
            | inr (q, t, u, v) ↦ absurd (ground (arith, only, t))
          ] in
          rw gone (record {
            no_leaks = h.no_leaks;
            served = h.served;
            timed = inr (r, refl, cc (own_grant.0, own_grant.1), sent_held);
            past = left_bound;
            carried = still_carried;
            at_most = λ f. omega (arith, only);
            at_least = λ f g. omega arith;
          })
