-- ===== src/Schedules/Keyed.antt =====
-- Schedules have ids of their own.
use agent_cloud.Base.{
  ℕ, List, [], ◌∷◌, Bool, true, false, none, ◌≡◌, refl, sym, ap, ◌∙◌, ◌⊎◌, inl, inr, nat_eq,
  nat_eqb_iff, In, any, find, find-none, if◌then◌else◌, arith,
}
use agent_cloud.Base.Tables.{insert, update}
use agent_cloud.Store.{BackupSchedule}
use agent_cloud.Schedules.{is_schedule}

-- An id names one schedule.
abbrev pub IsKeyed : List BackupSchedule → Type 0
IsKeyed rows = (a b : BackupSchedule) → In a rows → In b rows → a.id ≡ b.id → a ≡ b

In-update :
    {A : Type 0} (test : A → Bool) (f : A → A) (xs : List A) (y : A)
    → In y (update test f xs)
    → (x : A) × In x xs × ((if test x then f x else x) ≡ y)
In-update test f [] y m = absurd m
In-update test f (x ∷ xs) y (inl e) = (x, inl refl, e)
In-update test f (x ∷ xs) y (inr m) = let (z, n, e) = In-update test f xs y m in (z, inr n, e)

pub update-IsKeyed :
    (test : BackupSchedule → Bool) (f : BackupSchedule → BackupSchedule)
    (rows : List BackupSchedule)
    → ((r : BackupSchedule) → (f r).id ≡ r.id)
    → IsKeyed rows
    → IsKeyed (update test f rows)
update-IsKeyed test f rows same keyed a b m n e =
    let (x, mx, ex) = In-update test f rows a m in
    let (y, my, ey) = In-update test f rows b n in
    let xy : x ≡ y = keyed x y mx my (
      sym (id-update x)
      ∙ ap (λ (r : BackupSchedule). r.id) ex
      ∙ e
      ∙ sym (ap (λ (r : BackupSchedule). r.id) ey)
      ∙ id-update y) in
    sym ex ∙ ap (λ r. if test r then f r else r) xy ∙ ey
  where
    id-choose : (c : Bool) (r : BackupSchedule) → (if c then f r else r).id ≡ r.id
    id-choose true r = same r
    id-choose false r = refl

    id-update : (r : BackupSchedule) → (if test r then f r else r).id ≡ r.id
    id-update r = id-choose (test r) r

fresh-In :
    (rows : List BackupSchedule) (a : BackupSchedule) (id : ℕ)
    → find (is_schedule id) rows ≡ none
    → In a rows
    → a.id ≡ id
    → ⊥
fresh-In rows a id e m same =
    contradiction (any (is_schedule id) rows)
      (In-any (is_schedule id) rows a m ((nat_eqb_iff a.id id).1 same))
      (find-none (is_schedule id) rows e)
  where
    contradiction : (b : Bool) → b ≡ true → b ≡ false → ⊥
    contradiction b e d = cc

    In-any :
        (p : BackupSchedule → Bool) (xs : List BackupSchedule) (a : BackupSchedule)
        → In a xs
        → p a ≡ true
        → any p xs ≡ true
    In-any p [] a m h = absurd m
    In-any p (x ∷ xs) a (inl e) h = rw (ap p e ∙ h) refl
    In-any p (x ∷ xs) a (inr m) h = ground (arith, In-any p xs a m h)

In-insert :
    (row : BackupSchedule) (rows : List BackupSchedule) (a : BackupSchedule)
    → In a (insert row rows)
    → In a rows ⊎ (a ≡ row)
In-insert row [] a (inl e) = inr (sym e)
In-insert row [] a (inr m) = absurd m
In-insert row (x ∷ rows) a (inl e) = inl (inl e)
In-insert row (x ∷ rows) a (inr m) = elim (In-insert row rows a m) [
  | inl n ↦ inl (inr n)
  | inr e ↦ inr e
]

pub insert-IsKeyed :
    (row : BackupSchedule) (rows : List BackupSchedule)
    → find (is_schedule row.id) rows ≡ none
    → IsKeyed rows
    → IsKeyed (insert row rows)
insert-IsKeyed row rows fresh keyed a b m n e = go (In-insert row rows a m) (In-insert row rows b n)
  where
    id_of : BackupSchedule → ℕ
    id_of r = r.id

    go : In a rows ⊎ (a ≡ row) → In b rows ⊎ (b ≡ row) → a ≡ b
    go (inl ma) (inl mb) = keyed a b ma mb e
    go (inl ma) (inr eb) = absurd (fresh-In rows a row.id fresh ma (e ∙ ap id_of eb))
    go (inr ea) (inl mb) = absurd (fresh-In rows b row.id fresh mb (sym e ∙ ap id_of ea))
    go (inr ea) (inr eb) = ea ∙ sym eb
