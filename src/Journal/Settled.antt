-- ===== src/Journal/Settled.antt =====
-- `resolveEffect` as a whole: what it may write into the journal.
pub mod Observed
pub mod Resolved
use agent_cloud.Base.{
  List, [], ◌∷◌, Bool, true, false, ◌≡◌, refl, sym, ap, subst, ◌∙◌, ◌⊎◌, inl, inr, ◌==◌, nat_eq,
  Bool-cases, arith,
}
use agent_cloud.Base.Tables.{update}
use agent_cloud.Contracts.Provider.{EffectResolution}
use agent_cloud.Store.{Attempt, State}
use agent_cloud.Store.Action.Keeps.{IsFrame, Respects}
use agent_cloud.Store.Action.{Action}
use agent_cloud.Journal.WriteAhead.{Continues, Continues-refl, Continues-trans}
use agent_cloud.Journal.WriteAhead.Steps.{IsUntouched}
use agent_cloud.Journal.Resolve.{Settlement, subject, set_resolution}
use agent_cloud.Journal.Evidence.{IsShown, IsRefused}

-- A resolution that the provider's answers carry.
abbrev pub IsGrounded : Settlement → EffectResolution → Type 0
IsGrounded x (EffectResolution.confirmed observed) = IsShown (subject x) observed
IsGrounded x (EffectResolution.failed failure) = IsRefused (subject x) failure
IsGrounded x _ = ⊥

-- What may happen to one entry: it keeps its resolution, or it is the attempt at hand and gets a
-- grounded one.
pub record IsStep (x : Settlement) (a b : Attempt) : Type 0 where
  pub same : Continues a b
  pub outcome : b.outcome ≡ a.outcome
  pub resolution :
      (b.resolution ≡ a.resolution) ⊎ ((a.id ≡ x.attempt.id) × IsGrounded x b.resolution)

-- Entry by entry, with none added and none lost.
abbrev pub AllSteps : Settlement → List Attempt → List Attempt → Type 0
AllSteps x [] [] = Unit
AllSteps x (a ∷ xs) (b ∷ ys) = IsStep x a b × AllSteps x xs ys
AllSteps x _ _ = ⊥

pub record IsSettling (x : Settlement) (s t : State) : Type 0 where
  pub attempts : AllSteps x s.attempts t.attempts
  pub submitted : t.submitted ≡ s.submitted

module _ (x : Settlement) where
  IsStep-refl : (a : Attempt) → IsStep x a a
  IsStep-refl a = record { same = Continues-refl a; outcome = refl; resolution = inl refl }

  step_resolution :
      (a b c : Attempt)
      → b.id ≡ a.id
      → (b.resolution ≡ a.resolution) ⊎ ((a.id ≡ x.attempt.id) × IsGrounded x b.resolution)
      → (c.resolution ≡ b.resolution) ⊎ ((b.id ≡ x.attempt.id) × IsGrounded x c.resolution)
      → (c.resolution ≡ a.resolution) ⊎ ((a.id ≡ x.attempt.id) × IsGrounded x c.resolution)
  step_resolution a b c i (inl p) (inl q) = inl (q ∙ p)
  step_resolution a b c i (inr (j, g)) (inl q) = inr (j, subst (IsGrounded x) (sym q) g)
  step_resolution a b c i p (inr (j, g)) = inr (sym i ∙ j, g)

  IsStep-trans : {a b c : Attempt} → IsStep x a b → IsStep x b c → IsStep x a c
  IsStep-trans {a} {b} {c} p q = record {
    same = Continues-trans p.same q.same;
    outcome = q.outcome ∙ p.outcome;
    resolution = step_resolution a b c p.same.id p.resolution q.resolution;
  }

  AllSteps-refl : (xs : List Attempt) → AllSteps x xs xs
  AllSteps-refl [] = tt
  AllSteps-refl (a ∷ xs) = (IsStep-refl a, AllSteps-refl xs)

  AllSteps-trans :
      (xs ys zs : List Attempt) → AllSteps x xs ys → AllSteps x ys zs → AllSteps x xs zs
  AllSteps-trans [] [] [] p q = tt
  AllSteps-trans (a ∷ xs) (b ∷ ys) (c ∷ zs) p q =
      (IsStep-trans p.0 q.0, AllSteps-trans xs ys zs p.1 q.1)
  AllSteps-trans [] [] (c ∷ zs) p q = absurd q
  AllSteps-trans [] (b ∷ ys) zs p q = absurd p
  AllSteps-trans (a ∷ xs) [] zs p q = absurd p
  AllSteps-trans (a ∷ xs) (b ∷ ys) [] p q = absurd q

  pub settling : IsFrame (IsSettling x)
  settling = record {
    stay = λ s. record { attempts = AllSteps-refl s.attempts; submitted = refl };
    chain = λ s t u p q. record {
      attempts = AllSteps-trans s.attempts t.attempts u.attempts p.attempts q.attempts;
      submitted = q.submitted ∙ p.submitted;
    };
    called = λ s. record { attempts = AllSteps-refl s.attempts; submitted = refl };
  }

  pub IsUntouched-IsSettling : (s t : State) → IsUntouched s t → IsSettling x s t
  IsUntouched-IsSettling s t u = record {
    attempts = subst (AllSteps x s.attempts) (sym u.attempts) (AllSteps-refl s.attempts);
    submitted = u.submitted;
  }

  pub Respects-IsSettling :
      {A : Type 0} {m : Action A} → Respects IsUntouched m → Respects (IsSettling x) m
  Respects-IsSettling u = record { at = λ s. IsUntouched-IsSettling s _ (u.at s) }

  settle_attempts :
      (resolution : EffectResolution) (xs : List Attempt)
      → IsGrounded x resolution
      → AllSteps x xs (
          update
            (λ (a : Attempt). a.id == x.attempt.id)
            (λ a. record a { resolution = resolution })
            xs)
  settle_attempts resolution [] g = tt
  settle_attempts resolution (a ∷ xs) g = elim (Bool-cases (a.id == x.attempt.id)) [
    | inl e ↦ rw e (
      record {
        same = record {
          id = refl;
          account_id = refl;
          operation_id = refl;
          sequence = refl;
          command = refl;
          created_at = refl;
        };
        outcome = refl;
        resolution = inr (ground arith, g);
      },
      settle_attempts resolution xs g,
    )
    | inr e ↦ rw e (IsStep-refl a, settle_attempts resolution xs g)
  ]

  -- The write of a resolution.
  pub set_resolution-IsSettling :
      (resolution : EffectResolution) (s t : State)
      → IsUntouched s t
      → IsGrounded x resolution
      → IsSettling x s (set_resolution x resolution t)
  set_resolution-IsSettling resolution s t u g = record {
    attempts =
        subst (λ xs. AllSteps x xs (set_resolution x resolution t).attempts) u.attempts
          (settle_attempts resolution t.attempts g);
    submitted = u.submitted;
  }
