-- ===== src/Auth/Issue/Ancestries.antt =====
-- The ancestries of a table of credentials to which one is added.
use agent_cloud.Base.{
  ℕ, zero, suc, List, [], ◌∷◌, ◌++◌, Option, none, some, Bool, ◌||◌, ◌≡◌, refl, ◌≤◌, ◌≢◌, arith,
  nat_eq, ◌==◌, includes, In, find, find-In, Option-cases, inl, inr, find-append_some, ap, length,
  All,
}
use agent_cloud.Store.{Grant}
use agent_cloud.Auth.Authority.{ancestry}
use agent_cloud.Auth.Chain.{IsLive, IsFresh}

abbrev pub has_id : ℕ → Grant → Bool
has_id id g = g.id == id

-- A live chain is found again in a longer table.
pub ancestry-append :
    (depth : ℕ) (grants more : List Grant) (id : Option ℕ) (account now : ℕ)
    → IsLive account now id (ancestry depth grants id)
    → ancestry depth (grants ++ more) id ≡ ancestry depth grants id
unfolding ancestry
ancestry-append zero grants more id account now l = refl
ancestry-append (suc depth) grants more none account now l = refl
ancestry-append (suc depth) grants more (some id) account now l =
    elim (Option-cases (find (has_id id) grants)) [
      | inl e ↦ absurd (rw (e, ancestry) at l)
      | inr (g, e) ↦
          rw (find-append_some (has_id id) grants more e, e, ancestry)
            (ap (λ r. g ∷ r)
              (ancestry-append depth grants more g.parent_id account now (rw (e, ancestry) at l).4))
    ]

-- A chain that ends before the limit is found with less depth.
pub ancestry-shorter :
    (depth : ℕ) (grants : List Grant) (id : Option ℕ)
    → length (ancestry (suc depth) grants id) ≤ depth
    → ancestry depth grants id ≡ ancestry (suc depth) grants id
unfolding ancestry
ancestry-shorter zero grants none short = refl
ancestry-shorter zero grants (some id) short = elim (Option-cases (find (has_id id) grants)) [
  | inl e ↦ rw (e, ancestry) refl
  | inr (g, e) ↦ absurd (omega (arith, (rw (e, ancestry, length) at short)))
]
ancestry-shorter (suc depth) grants none short = refl
ancestry-shorter (suc depth) grants (some id) short =
    elim (Option-cases (find (has_id id) grants)) [
      | inl e ↦ rw (e, ancestry) refl
      | inr (g, e) ↦
          rw (e, ancestry)
            (ap (λ r. g ∷ r)
              (ancestry-shorter depth grants g.parent_id
                (omega (arith, (rw (e, ancestry, length) at short)))))
    ]

-- Every row of an ancestry is a row of the table.
pub ancestry-In :
    (depth : ℕ) (grants : List Grant) (id : Option ℕ)
    → All (λ g. In g grants) (ancestry depth grants id)
unfolding ancestry
ancestry-In zero grants id = tt
ancestry-In (suc depth) grants none = tt
ancestry-In (suc depth) grants (some id) = elim (Option-cases (find (has_id id) grants)) [
  | inl e ↦ rw (e, ancestry) tt
  | inr (g, e) ↦
      rw (e, ancestry) (find-In (has_id id) grants e, ancestry-In depth grants g.parent_id)
]

pub unheld-ne :
    (id : ℕ) (grants : List Grant) (g : Grant)
    → find (has_id id) grants ≡ none
    → In g grants
    → g.id ≢ id
unheld-ne id [] g e m = absurd m
unheld-ne id (x ∷ xs) g e (inl p) = ground arith
unheld-ne id (x ∷ xs) g e (inr m) = unheld-ne id xs g (ground arith) m

-- One more id in `seen`, which no row has, changes nothing.
pub IsFresh-more :
    (id : ℕ) (seen more : List ℕ) (chain : List Grant)
    → ((x : ℕ) → includes more x ≡ (includes seen x || id == x))
    → All (λ (g : Grant). g.id ≢ id) chain
    → IsFresh seen chain
    → IsFresh more chain
IsFresh-more id seen more [] e ne f = tt
IsFresh-more id seen more (g ∷ rest) e ne f = (
  ground (arith, e g.id),
  IsFresh-more id (g.id ∷ seen) (g.id ∷ more) rest (λ x. ground (arith, e x)) ne.1 f.1,
)

pub All-mono :
    {P Q : Grant → Type 0} (xs : List Grant) → ((g : Grant) → P g → Q g) → All P xs → All Q xs
All-mono [] k h = tt
All-mono (x ∷ xs) k h = (k x h.0, All-mono xs k h.1)
