-- ===== src/Simulated/Due.antt =====
-- apps/control/src/simulated-provider.ts, `getAction`: an action that is due and not yet carried out, and the
-- rows that are looked for.
use agent_cloud.Base.{
  ℕ, List, [], ◌∷◌, Bool, true, false, none, some, ◌≡◌, refl, sym, ◌∙◌, inl, inr, ◌+◌, ◌≤◌, ltb,
  find, Bool-cases, arith, find-append_none,
}
use agent_cloud.Base.Tables.{insert}
use agent_cloud.Simulated.{Simulation, ActionRow, Cloud, is_action_row, remove}
use agent_cloud.Simulated.Actions.{apply_action, conclude_action, read_action, get_action}

-- Rows that are looked for.
pub find_inserted :
    {A : Type 0} (p : A → Bool) (a : A) (xs : List A)
    → find p xs ≡ none
    → p a ≡ true
    → find p (insert a xs) ≡ some a
find_inserted p a xs e d = find-append_none p xs (a ∷ []) e ∙ rw d refl

pub find_less :
    {A : Type 0} (p q : A → Bool) (xs : List A)
    → ((a : A) → q a ≡ true → p a ≡ true)
    → find p xs ≡ none
    → find q xs ≡ none
find_less p q [] h e = refl
find_less p q (x ∷ xs) h e = elim (Bool-cases (p x)) [
  | inl d ↦ absurd (some_none (sym (rw d refl) ∙ e))
  | inr d ↦ elim (Bool-cases (q x)) [
    | inl c ↦ absurd (apart d (h x c))
    | inr c ↦ rw c (find_less p q xs h (sym (rw d refl) ∙ e))
  ]
]
  where
    some_none : some x ≡ none → ⊥
    some_none g = cc

    apart : {b : Bool} → b ≡ false → b ≡ true → ⊥
    apart g k = cc

pub find-remove : {A : Type 0} (p : A → Bool) (xs : List A) → find p (remove p xs) ≡ none
find-remove p [] = refl
find-remove p (x ∷ xs) = elim (Bool-cases (p x)) [
  | inl d ↦ rw d (find-remove p xs)
  | inr d ↦ rw (d, d) (find-remove p xs)
]

-- An action that is due and not yet carried out.
pub read_due :
    (sim : Simulation) (now action_id : ℕ) (row : ActionRow) (cloud : Cloud)
    → find (is_action_row action_id) cloud.actions ≡ some row
    → ltb now row.ready_at ≡ false
    → row.completed_at ≡ none
    → get_action sim now action_id cloud
      ≡ conclude_action now row cloud (apply_action sim.retain_primary_ips row row.result cloud)
unfolding get_action read_action
read_due sim now action_id row cloud found due waiting = rw found (rw (due, waiting) refl)

pub not_early : (now delay later : ℕ) → now + delay ≤ later → ltb later (now + delay) ≡ false
not_early now delay later h = ground arith
