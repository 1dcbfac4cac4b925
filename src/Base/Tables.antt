-- ===== src/Base/Tables.antt =====
-- Database tables: lists of rows in insertion order, changed by INSERT and by UPDATE … WHERE.
use agent_cloud.Base.Lists.{length, find, select, All}
use agent_cloud.Base.Tests.{if◌then◌else◌, Bool-cases}
use mathlib.Core.Path.{◌≡◌, refl, ap}
use mathlib.Core.Bool.{Bool, true, false}
use mathlib.Core.Logic.{inl, inr}
use mathlib.Core.Option.{none, some}
use mathlib.Core.List.{List, [], ◌∷◌, ◌++◌, map}
use native.Mathlib.Omega.{arith}

module _ {A : Type 0} where
  abbrev pub insert : A → List A → List A
  insert a xs = xs ++ a ∷ []

  abbrev pub update : (A → Bool) → (A → A) → List A → List A
  update p f [] = []
  update p f (x ∷ xs) = (if p x then f x else x) ∷ update p f xs

  pub length-update : (p : A → Bool) (f : A → A) (xs : List A) → length (update p f xs) ≡ length xs
  length-update p f [] = refl
  length-update p f (x ∷ xs) = omega (arith, length-update p f xs)

  pub All-insert {κ} : (P : A → Type κ) (a : A) (xs : List A) → All P xs → P a → All P (insert a xs)
  All-insert P a [] h pa = (pa, tt)
  All-insert P a (x ∷ xs) h pa = (h.0, All-insert P a xs h.1 pa)

  pub All-update {κ} :
      (P : A → Type κ) (p : A → Bool) (f : A → A) (xs : List A)
      → ((a : A) → p a ≡ true → P a → P (f a))
      → All P xs
      → All P (update p f xs)
  All-update P p f [] keep h = tt
  All-update P p f (x ∷ xs) keep h = elim (Bool-cases (p x)) [
    | inl e ↦ rw e (keep x e h.0, All-update P p f xs keep h.1)
    | inr e ↦ rw e (h.0, All-update P p f xs keep h.1)
  ]

  -- A search by a test that the update does not disturb.
  pub find-update :
      (q p : A → Bool) (f : A → A) (xs : List A)
      → ((a : A) → q (f a) ≡ q a)
      → find q (update p f xs)
        ≡ elim (find q xs) [ none ↦ none | some a ↦ some (if p a then f a else a) ]
  find-update q p f [] keep = refl
  find-update q p f (x ∷ xs) keep = elim (Bool-cases (p x)) [
    | inl e ↦
        rw (e, keep x)
          (elim (Bool-cases (q x)) [
            | inl d ↦ rw (d, e) refl
            | inr d ↦ rw d (find-update q p f xs keep)
          ])
    | inr e ↦ rw e (elim (Bool-cases (q x)) [
      | inl d ↦ rw (d, e) refl
      | inr d ↦ rw d (find-update q p f xs keep)
    ])
  ]

  pub find-update-none :
      (q p : A → Bool) (f : A → A) (xs : List A)
      → ((a : A) → q (f a) ≡ q a)
      → find q xs ≡ none
      → find q (update p f xs) ≡ none
  find-update-none q p f xs keep e = rw (find-update q p f xs keep) (rw e refl)

  pub find-update-some :
      (q p : A → Bool) (f : A → A) (xs : List A) {a : A}
      → ((a : A) → q (f a) ≡ q a)
      → find q xs ≡ some a
      → find q (update p f xs) ≡ some (if p a then f a else a)
  find-update-some q p f xs keep e = rw (find-update q p f xs keep) (rw e refl)

  -- A selection that what is written belongs to, or does not belong to.
  pub select-insert-true :
      (p : A → Bool) (a : A) (xs : List A)
      → p a ≡ true
      → select p (insert a xs) ≡ insert a (select p xs)
  select-insert-true p a [] e = rw e refl
  select-insert-true p a (x ∷ xs) e = elim (Bool-cases (p x)) [
    | inl d ↦ rw d (ap (λ r. x ∷ r) (select-insert-true p a xs e))
    | inr d ↦ rw d (select-insert-true p a xs e)
  ]

  pub select-insert-false :
      (p : A → Bool) (a : A) (xs : List A) → p a ≡ false → select p (insert a xs) ≡ select p xs
  select-insert-false p a [] e = rw e refl
  select-insert-false p a (x ∷ xs) e = elim (Bool-cases (p x)) [
    | inl d ↦ rw d (ap (λ r. x ∷ r) (select-insert-false p a xs e))
    | inr d ↦ rw d (select-insert-false p a xs e)
  ]

  pub select-update :
      (p test : A → Bool) (f : A → A) (xs : List A)
      → ((a : A) → test a ≡ true → (p a ≡ false) × (p (f a) ≡ false))
      → select p (update test f xs) ≡ select p xs
  select-update p test f [] h = refl
  select-update p test f (x ∷ xs) h = elim (Bool-cases (test x)) [
    | inl e ↦ rw (e, (h x e).0, (h x e).1) (select-update p test f xs h)
    | inr e ↦ rw e (elim (Bool-cases (p x)) [
      | inl d ↦ rw d (ap (λ r. x ∷ r) (select-update p test f xs h))
      | inr d ↦ rw d (select-update p test f xs h)
    ])
  ]

-- What an update does not change.
pub map-update :
    {A B : Type 0} (f : A → B) (test : A → Bool) (change : A → A) (xs : List A)
    → ((a : A) → f (change a) ≡ f a)
    → map f (update test change xs) ≡ map f xs
map-update f test change [] h = refl
map-update f test change (x ∷ xs) h = elim (Bool-cases (test x)) [
  | inl e ↦ rw (e, h x) (ap (λ r. f x ∷ r) (map-update f test change xs h))
  | inr e ↦ rw e (ap (λ r. f x ∷ r) (map-update f test change xs h))
]
