-- ===== src/Admission/Budget/Tables.antt =====
-- Reservations under the two writes of an admission: a new allocation, and a larger price.
use agent_cloud.Base.{
  ℕ, ◌+◌, ◌-◌, List, [], ◌∷◌, ◌++◌, Bool, ◌&&◌, ◌≡◌, refl, ◌≤◌, ◌≢◌, arith, ◌==◌, nat_eq, length,
  select, All, In, inl, inr, Bool-cases, ap, ◌∙◌, subst,
}
use agent_cloud.Store.{Allocation}
use agent_cloud.Admission.Reservation.{price}
use agent_cloud.Admission.Admit.{reserve}

module _ {A : Type 0} (p q : A → Bool) where
  pub select-append : (xs ys : List A) → select p (xs ++ ys) ≡ select p xs ++ select p ys
  select-append [] ys = refl
  select-append (x ∷ xs) ys = elim (Bool-cases (p x)) [
    | inl e ↦ rw e (ap (λ r. x ∷ r) (select-append xs ys))
    | inr e ↦ rw e (select-append xs ys)
  ]

  pub select-select : (xs : List A) → select q (select p xs) ≡ select (λ x. p x && q x) xs
  select-select [] = refl
  select-select (x ∷ xs) = ground (arith, select-select xs)

pub sum_by-append : (xs ys : List Allocation) → price (xs ++ ys) ≡ price xs + price ys
sum_by-append [] ys = omega arith
sum_by-append (x ∷ xs) ys = omega (arith, sum_by-append xs ys)

-- The id is the key of the table.
abbrev pub IsKeyed : List Allocation → Type 0
IsKeyed [] = Unit
IsKeyed (x ∷ xs) = All (λ (y : Allocation). y.id ≢ x.id) xs × IsKeyed xs

All-In_ne :
    (xs : List Allocation) (a : Allocation) {id : ℕ}
    → All (λ (y : Allocation). y.id ≢ id) xs
    → In a xs
    → a.id ≢ id
All-In_ne [] a h m = absurd m
All-In_ne (x ∷ xs) a {id} h (inl e) = subst (λ (y : Allocation). y.id ≢ id) e h.0
All-In_ne (x ∷ xs) a h (inr m) = All-In_ne xs a h.1 m

-- A test that does not look at the price.
module _ (q : Allocation → Bool)
    (keep : (a : Allocation) (m : ℕ) → q (record a { hourly_micros = m }) ≡ q a)
    (id micros : ℕ) where
  pub length-reserve :
      (xs : List Allocation) → length (select q (reserve id micros xs)) ≡ length (select q xs)
  length-reserve [] = refl
  length-reserve (x ∷ xs) = ground (arith, keep x micros, length-reserve xs)

  pub All-reserve :
      (P : Allocation → Type 0) (xs : List Allocation)
      → ((a : Allocation) → P a → P (record a { hourly_micros = micros }))
      → All P (select q xs)
      → All P (select q (reserve id micros xs))
  All-reserve P [] k h = tt
  All-reserve P (x ∷ xs) k h = elim (Bool-cases (x.id == id)) [
    | inl t ↦
        rw (t, keep x micros)
          (elim (Bool-cases (q x)) [
            | inl y ↦
                let h' : P x × All P (select q xs) = rw y at h in
                rw y (k x h'.0, All-reserve P xs k h'.1)
            | inr n ↦ rw n (All-reserve P xs k (rw n at h))
          ])
    | inr t ↦ rw t (elim (Bool-cases (q x)) [
      | inl y ↦
          let h' : P x × All P (select q xs) = rw y at h in rw y (h'.0, All-reserve P xs k h'.1)
      | inr n ↦ rw n (All-reserve P xs k (rw n at h))
    ])
  ]

  price-reserve_other :
      (xs : List Allocation)
      → All (λ (y : Allocation). y.id ≢ id) xs
      → price (select q (reserve id micros xs)) ≡ price (select q xs)
  price-reserve_other [] ne = refl
  price-reserve_other (x ∷ xs) ne = ground (arith, keep x micros, price-reserve_other xs ne.1)

  pub price-reserve :
      (a : Allocation) (xs : List Allocation)
      → IsKeyed xs
      → In a xs
      → a.id ≡ id
      → a.hourly_micros ≤ micros
      → price (select q (reserve id micros xs)) ≤ price (select q xs) + (micros - a.hourly_micros)
  price-reserve a [] keyed m e le = absurd m
  price-reserve a (x ∷ xs) keyed (inl same) e le =
      let at_id : x.id ≡ id = ap (λ (y : Allocation). y.id) same ∙ e in
      let rest =
        price-reserve_other xs (subst (λ i. All (λ (y : Allocation). y.id ≢ i) xs) at_id keyed.0) in
      ground (arith, keep x micros, rest, ap (λ (y : Allocation). y.hourly_micros) same)
  price-reserve a (x ∷ xs) keyed (inr m) e le =
      ground (arith, keep x micros, price-reserve a xs keyed.1 m e le, All-In_ne xs a keyed.0 m)
