-- ===== src/Schedules/Bounded.antt =====
-- How many daily backups an account can have.
use agent_cloud.Base.{
  ℕ, length-append, ◌≤◌, ◌<◌, List, [], ◌∷◌, Bool, true, false, Option, none, ◌≡◌, refl, sym, ap,
  subst, ◌∙◌, inl, inr, ◌==◌, nat_eq, nat_eqb_iff, leb, select, length, Bool-cases, arith,
  and_split, is_none, In,
}
use agent_cloud.Base.Tables.{insert, update, select-insert-true, select-insert-false}
use agent_cloud.Store.{BackupSchedule, ScheduleAttempt}
use agent_cloud.Schedules.Keyed.{IsKeyed}
use agent_cloud.Schedules.{is_schedule, is_active_of, active_of, rescheduled}

-- No account has more than ten schedules that are active.
abbrev pub IsWithinTen : List BackupSchedule → Type 0
IsWithinTen rows = (account_id : ℕ) → length (active_of account_id rows) ≤ 10

leb-false : (a b : ℕ) → leb a b ≡ false → b < a
leb-false a b e = ground arith

-- Rows that are changed without becoming selected.
length-select-update :
    {A : Type 0} (p test : A → Bool) (f : A → A) (xs : List A)
    → ((a : A) → In a xs → test a ≡ true → p (f a) ≡ true → p a ≡ true)
    → length (select p (update test f xs)) ≤ length (select p xs)
length-select-update p test f [] h = omega arith
length-select-update p test f (x ∷ xs) h =
    let rest = length-select-update p test f xs λ a m. h a (inr m) in
    elim (Bool-cases (test x)) [
      | inl e ↦ rw e (elim (Bool-cases (p (f x))) [
        | inl d ↦ rw (d, h x (inl refl) e d) (omega (arith, rest))
        | inr d ↦ rw d (elim (Bool-cases (p x)) [
          | inl c ↦ rw c (omega (arith, rest))
          | inr c ↦ rw c (omega (arith, rest))
        ])
      ])
      | inr e ↦ rw e (elim (Bool-cases (p x)) [
        | inl c ↦ rw c (omega (arith, rest))
        | inr c ↦ rw c (omega (arith, rest))
      ])
    ]

full-insert :
    (row : BackupSchedule) (rows : List BackupSchedule) (account_id : ℕ)
    → row.account_id ≡ account_id
    → is_active_of account_id row ≡ true
    → leb 10 (length (active_of row.account_id rows)) ≡ false
    → length (active_of account_id (insert row rows)) ≤ 10
full-insert row rows account_id same e free =
    let here : length (active_of row.account_id rows) ≡ length (active_of account_id rows) =
      ap (λ id. length (active_of id rows)) same in
    let grown : length (active_of account_id (insert row rows))
        ≡ length (insert row (active_of account_id rows)) =
      ap length (select-insert-true (is_active_of account_id) row rows e) in
    omega (
      arith,
      here,
      grown,
      length-append (active_of account_id rows) (row ∷ []),
      leb-false 10 (length (active_of row.account_id rows)) free,
    )

pub insert-IsWithinTen :
    (row : BackupSchedule) (rows : List BackupSchedule)
    → leb 10 (length (active_of row.account_id rows)) ≡ false
    → IsWithinTen rows
    → IsWithinTen (insert row rows)
insert-IsWithinTen row rows free h account_id = elim (Bool-cases (is_active_of account_id row)) [
  | inl e ↦
      full-insert row rows account_id
        ((nat_eqb_iff row.account_id account_id).0
          (and_split (row.account_id == account_id) (is_none row.disabled_at) e).0)
        e free
  | inr e ↦
      subst (λ xs. length xs ≤ 10) (sym (select-insert-false (is_active_of account_id) row rows e))
        (h account_id)
]

pub update-IsWithinTen :
    (test : BackupSchedule → Bool) (f : BackupSchedule → BackupSchedule)
    (rows : List BackupSchedule)
    → ((account_id : ℕ) (r : BackupSchedule)
        → In r rows
        → test r ≡ true
        → is_active_of account_id (f r) ≡ true
        → is_active_of account_id r ≡ true)
    → IsWithinTen rows
    → IsWithinTen (update test f rows)
update-IsWithinTen test f rows keep h account_id = omega (
  arith,
  h account_id,
  length-select-update (is_active_of account_id) test f rows (keep account_id),
)

pub rescheduled-IsWithinTen :
    (now : ℕ) (attempt : ScheduleAttempt) (disabled_at : Option ℕ) (row : BackupSchedule)
    (rows : List BackupSchedule)
    → In row rows
    → row.disabled_at ≡ none
    → IsKeyed rows
    → IsWithinTen rows
    → IsWithinTen (update (is_schedule row.id) (rescheduled now attempt disabled_at) rows)
rescheduled-IsWithinTen now attempt disabled_at row rows mine live keyed h =
    update-IsWithinTen (is_schedule row.id) (rescheduled now attempt disabled_at) rows
      (λ account_id r m e d.
        let same : r ≡ row = keyed r row m mine ((nat_eqb_iff r.id row.id).0 e) in
        let open_row : is_none r.disabled_at ≡ true =
          ap (λ (x : BackupSchedule). is_none x.disabled_at) same ∙ ap is_none live in
        rw ((and_split (r.account_id == account_id) (is_none disabled_at) d).0, open_row) refl)
      h
