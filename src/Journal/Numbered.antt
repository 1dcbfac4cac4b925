-- ===== src/Journal/Numbered.antt =====
-- The sequence numbers of the journal.
use agent_cloud.Base.{
  ℕ, suc, ◌+◌, List, [], ◌∷◌, ◌≡◌, sym, ap, subst, ◌==◌, nat_eq, nat_eqb_iff, length, Bool-cases,
  inl, inr, arith,
}
use agent_cloud.Base.Tables.{insert, select-insert-true, select-insert-false}
use agent_cloud.Base.Result.{ok}
use agent_cloud.Store.{Attempt, State}
use agent_cloud.Journal.Prepare.{Effect, attempts_of, new_attempt, prepare_attempt}
use agent_cloud.Journal.WriteAhead.Steps.{prepare_attempt-eq}

-- The numbers count up from the first.
abbrev pub CountsFrom : ℕ → List Attempt → Type 0
CountsFrom first [] = Unit
CountsFrom first (a ∷ rest) = (a.sequence ≡ first) × CountsFrom (suc first) rest

-- The attempts of each operation are numbered 1, 2, 3 and so on, in the order of the journal.
abbrev pub IsNumbered : List Attempt → Type 0
IsNumbered attempts = (operation_id : ℕ) → CountsFrom 1 (attempts_of operation_id attempts)

insert-CountsFrom :
    (first : ℕ) (xs : List Attempt) (a : Attempt)
    → CountsFrom first xs
    → a.sequence ≡ first + length xs
    → CountsFrom first (insert a xs)
insert-CountsFrom first [] a c e = (omega (arith, e), tt)
insert-CountsFrom first (x ∷ xs) a c e =
    (c.0, insert-CountsFrom (suc first) xs a c.1 (omega (arith, e)))

new_attempt-IsNumbered :
    (e : Effect) (xs : List Attempt) → IsNumbered xs → IsNumbered (insert (new_attempt e xs) xs)
new_attempt-IsNumbered e xs numbered id = elim (Bool-cases (e.operation.id == id)) [
  | inl same ↦
      let here : e.operation.id ≡ id = (nat_eqb_iff e.operation.id id).0 same in
      subst (CountsFrom 1)
        (sym
          (select-insert-true (λ (a : Attempt). a.operation_id == id) (new_attempt e xs) xs same))
        (insert-CountsFrom 1 (attempts_of id xs) (new_attempt e xs) (numbered id)
          (omega (arith, ap (λ i. length (attempts_of i xs)) here)))
  | inr other ↦
      subst (CountsFrom 1)
        (sym
          (select-insert-false (λ (a : Attempt). a.operation_id == id) (new_attempt e xs) xs other))
        (numbered id)
]

-- Writing an attempt keeps the attempts of each operation numbered 1, 2, 3 and so on.
pub prepare_attempt-IsNumbered :
    (e : Effect) (s t : State)
    → IsNumbered s.attempts
    → prepare_attempt e s ≡ ok (tt, t)
    → IsNumbered t.attempts
prepare_attempt-IsNumbered e s t numbered h =
    let (_, _, _, _, _, added, _) = prepare_attempt-eq e s h in
    subst IsNumbered (sym added) (new_attempt-IsNumbered e s.attempts numbered)
