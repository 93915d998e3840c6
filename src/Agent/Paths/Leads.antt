-- ===== src/Agent/Paths/Leads.antt =====
-- Where a path leads, apart from the way in which realpathLoose finds it out
-- (packages/agent/src/sandbox/contain.ts).
use ironflow_js.Prelude.{
  ℕ, zero, suc, ◌≡◌, refl, Option, none, some, Option-split, AllSome, AllSome-at, [], ◌∷◌,
}
use ironflow_js.Durable.Text.{Text}
use ironflow_js.Agent.Paths.{
  FilePath, FileSystem, Lookup, found, missing, failing, parent, enter, resolve, realpath_loose,
}

-- What is there leads to its real path. A dangling link leads where its target leads, seen from
-- where its folder leads. What is not there leads below where its folder leads.
pub data Leads (fs : FileSystem) : FilePath → FilePath → Type 0 where
  real : {p q : FilePath} → fs.realpath p ≡ found q → Leads fs p q
  link :
      {p base x q : FilePath} (target : Text)
      → fs.realpath p ≡ missing
      → fs.lstat p ≡ found x
      → Leads fs (parent p) base
      → fs.read_link p ≡ some target
      → Leads fs (resolve base target) q
      → Leads fs p q
  below :
      {p q : FilePath} {name : Text}
      → fs.realpath (name ∷ p) ≡ missing
      → fs.lstat (name ∷ p) ≡ missing
      → Leads fs p q
      → Leads fs (name ∷ p) (enter q name)
  top : fs.realpath [] ≡ missing → fs.lstat [] ≡ missing → Leads fs [] []

-- To split a call on what it answers.
pub Lookup-split {ℓ κ} :
    {A : Type ℓ} (P : A → Type κ) (l : Lookup) (f : FilePath → A) (m x : A)
    → ((q : FilePath) → l ≡ found q → P (f q))
    → (l ≡ missing → P m)
    → P x
    → P (elim l [ found q ↦ f q | missing ↦ m | failing ↦ x ])
Lookup-split P (found q) f m x hf hm hx = hf q refl
Lookup-split P missing f m x hf hm hx = hm refl
Lookup-split P failing f m x hf hm hx = hx

pub AllSome-map {ℓ κ} :
    {A : Type ℓ} (P Q : A → Type κ) (o : Option A)
    → ((a : A) → P a → Q a)
    → AllSome P o
    → AllSome Q o
AllSome-map P Q none f h = tt
AllSome-map P Q (some a) f h = f a h

pub realpath_loose-Leads :
    (fs : FileSystem) (hops : ℕ) (p : FilePath) → AllSome (Leads fs p) (realpath_loose fs hops p)
unfolding realpath_loose parent
realpath_loose-Leads fs zero [] =
    Lookup-split (AllSome (Leads fs [])) (fs.realpath []) _ _ _ (λ q e. Leads.real e)
      (λ gone.
        Lookup-split (AllSome (Leads fs [])) (fs.lstat []) _ _ _ (λ q e. tt)
          (λ none_there. Leads.top gone none_there) tt)
      tt
realpath_loose-Leads fs zero (name ∷ p) =
    let P = AllSome (Leads fs (name ∷ p)) in
    Lookup-split P (fs.realpath (name ∷ p)) _ _ _ (λ q e. Leads.real e)
      (λ gone.
        Lookup-split P (fs.lstat (name ∷ p)) _ _ _ (λ q e. tt)
          (λ none_there.
            Option-split P (realpath_loose fs zero p) _ _ (λ _. tt)
              (λ q e.
                Leads.below gone none_there
                  (AllSome-at (Leads fs p) _ q (realpath_loose-Leads fs zero p) e)))
          tt)
      tt
realpath_loose-Leads fs (suc hops) [] =
    let P = AllSome (Leads fs []) in
    Lookup-split P (fs.realpath []) _ _ _ (λ q e. Leads.real e)
      (λ gone.
        Lookup-split P (fs.lstat []) _ _ _
          (λ x there.
            Option-split P (realpath_loose fs hops []) _ _ (λ _. tt)
              (λ base eb.
                Option-split P (fs.read_link []) _ _ (λ _. tt)
                  (λ target el.
                    AllSome-map (Leads fs (resolve base target)) (Leads fs []) _
                      (λ q at.
                        Leads.link target gone there
                          (AllSome-at (Leads fs []) _ base (realpath_loose-Leads fs hops []) eb) el
                          at)
                      (realpath_loose-Leads fs hops (resolve base target)))))
          (λ none_there. Leads.top gone none_there) tt)
      tt
realpath_loose-Leads fs (suc hops) (name ∷ p) =
    let P = AllSome (Leads fs (name ∷ p)) in
    Lookup-split P (fs.realpath (name ∷ p)) _ _ _ (λ q e. Leads.real e)
      (λ gone.
        Lookup-split P (fs.lstat (name ∷ p)) _ _ _
          (λ x there.
            Option-split P (realpath_loose fs hops p) _ _ (λ _. tt)
              (λ base eb.
                Option-split P (fs.read_link (name ∷ p)) _ _ (λ _. tt)
                  (λ target el.
                    AllSome-map (Leads fs (resolve base target)) (Leads fs (name ∷ p)) _
                      (λ q at.
                        Leads.link target gone there
                          (AllSome-at (Leads fs p) _ base (realpath_loose-Leads fs hops p) eb) el
                          at)
                      (realpath_loose-Leads fs hops (resolve base target)))))
          (λ none_there.
            Option-split P (realpath_loose fs (suc hops) p) _ _ (λ _. tt)
              (λ q e.
                Leads.below gone none_there
                  (AllSome-at (Leads fs p) _ q (realpath_loose-Leads fs (suc hops) p) e)))
          tt)
      tt
