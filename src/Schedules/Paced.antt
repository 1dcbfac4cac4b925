-- ===== src/Schedules/Paced.antt =====
-- How often a schedule runs.
use agent_cloud.Base.{
  ℕ, ◌+◌, Bool, true, false, Option, none, some, Bool-cases, ◌≡◌, refl, ap, ◌∙◌, ◌⊎◌, inl, inr,
  ◌==◌, ◌&&◌, nat_eq, nat_eqb_iff, ltb, leb, find, is_none, if◌then◌else◌, arith,
}
use agent_cloud.Contracts.Errors.{ErrorCode}
use agent_cloud.Base.Tables.{insert, update, find-update-some}
use agent_cloud.Base.Result.{Result, ok, err, cloud, fault}
use agent_cloud.Store.{Account, BackupSchedule, ScheduleAttempt, State}
use agent_cloud.Schedules.{
  Scheduling, is_schedule, capture_due, revokes, rescheduled, record_attempt, is_due, lock_account,
  advance_row, advance_selected, advance_schedule,
}

-- A refusal that ends a schedule.
abbrev pub IsFinal : ErrorCode → Type 0
IsFinal code = (code ≡ ErrorCode.unauthenticated) ⊎ (code ≡ ErrorCode.permission_denied)

-- What has been made of an attempt: a backup that was admitted is recorded with its run, and a refusal is
-- recorded and ends the schedule if it is final. What is no refusal is not recorded.
abbrev pub Records :
    Scheduling → BackupSchedule → Result ℕ → ScheduleAttempt → Option ℕ → State → State → Type 0
Records env row (ok backup_id) attempt disabled_at s t =
    (attempt ≡ ScheduleAttempt.admitted env.now backup_id)
    × (disabled_at ≡ none)
    × (t.schedule_runs
        ≡ insert
            (record {
              account_id = row.account_id;
              schedule_id = row.id;
              backup_id = backup_id;
              due_at = row.next_run_at;
            })
            s.schedule_runs)
Records env row (err (cloud failure)) attempt disabled_at s t =
    (attempt ≡ ScheduleAttempt.refused env.now failure)
    × ((IsFinal failure.code × (disabled_at ≡ some env.now))
        ⊎ ((¬ IsFinal failure.code) × (disabled_at ≡ none)))
    × (t.schedule_runs ≡ s.schedule_runs)
Records env row (err fault) attempt disabled_at s t = ⊥

-- The run of a schedule that is due has been recorded.
pub record IsRecordedRun (env : Scheduling) (row : BackupSchedule) (s t : State) : Type 0 where
  pub attempt : ScheduleAttempt
  pub disabled_at : Option ℕ
  pub schedules :
      t.schedules
      ≡ update
          (λ (r : BackupSchedule). r.id == row.id)
          (λ r. record r {
            last_attempt = attempt;
            disabled_at = disabled_at;
            next_run_at = env.now + 86400000;
          })
          s.schedules
  pub accounts : t.accounts ≡ s.accounts
  pub outcome : Records env row (capture_due env row s) attempt disabled_at s t

revokes_sound : (code : ErrorCode) → revokes code ≡ true → IsFinal code
revokes_sound ErrorCode.unauthenticated h = inl refl
revokes_sound ErrorCode.permission_denied h = inr refl
revokes_sound _ h = cc

revokes_complete : (code : ErrorCode) → revokes code ≡ false → ¬ IsFinal code
revokes_complete code h (inl e) = cc
revokes_complete code h (inr e) = cc

ended_if :
    (code : ErrorCode) (now : ℕ)
    → (IsFinal code × ((if revokes code then some now else none) ≡ some now))
      ⊎ ((¬ IsFinal code) × ((if revokes code then some now else none) ≡ none))
ended_if code now = elim (Bool-cases (revokes code)) [
  | inl e ↦ rw e (inl (revokes_sound code e, refl))
  | inr e ↦ rw e (inr (revokes_complete code e, refl))
]

-- An attempt is recorded, unless it has thrown what is no `CloudError`.
record_attempt-cases :
    (env : Scheduling) (row : BackupSchedule) (r : Result ℕ) (s : State)
    → capture_due env row s ≡ r
    → ((capture_due env row s ≡ err fault) × (record_attempt env row r s ≡ err fault))
      ⊎ ((t : State) × (record_attempt env row r s ≡ ok (tt, t)) × IsRecordedRun env row s t)
unfolding record_attempt
record_attempt-cases env row (ok backup_id) s e = inr (
  _,
  refl,
  record {
    attempt = ScheduleAttempt.admitted env.now backup_id;
    disabled_at = none;
    schedules = refl;
    accounts = refl;
    outcome = rw e (refl, refl, refl);
  },
)
record_attempt-cases env row (err (cloud failure)) s e = inr (
  _,
  refl,
  record {
    attempt = ScheduleAttempt.refused env.now failure;
    disabled_at = if revokes failure.code then some env.now else none;
    schedules = refl;
    accounts = refl;
    outcome = rw e (refl, ended_if failure.code env.now, refl);
  },
)
record_attempt-cases env row (err fault) s e = inl (e, refl)

run-found :
    (env : Scheduling) (id : ℕ) (row : BackupSchedule) (s t : State)
    → find (is_schedule id) s.schedules ≡ some row
    → (r : IsRecordedRun env row s t)
    → find (is_schedule id) t.schedules ≡ some (rescheduled env.now r.attempt r.disabled_at row)
run-found env id row s t found r =
    ap (find (is_schedule id)) r.schedules
    ∙ find-update-some (is_schedule id) (is_schedule row.id)
        (rescheduled env.now r.attempt r.disabled_at) s.schedules (λ a. refl) found
    ∙ own (row.id == row.id) ((nat_eqb_iff row.id row.id).1 refl)
  where
    own :
        (b : Bool)
        → b ≡ true
        → some (if b then rescheduled env.now r.attempt r.disabled_at row else row)
          ≡ some (rescheduled env.now r.attempt r.disabled_at row)
    own true e = refl
    own false e = cc

locked :
    (id : ℕ) (s : State) (account : Account)
    → find (λ (a : Account). a.id == id) s.accounts ≡ some account
    → lock_account id s ≡ ok account
locked id s account e = rw e refl

not_due :
    (d : Option ℕ) (until now : ℕ) → ltb now until ≡ true → (is_none d && leb until now) ≡ false
not_due d until now e = ground arith

rests :
    (later : Scheduling) (row : BackupSchedule) (t : State) (account : Account)
    → find (λ (a : Account). a.id == row.account_id) t.accounts ≡ some account
    → is_due later.now row ≡ false
    → advance_row later row t ≡ ok (tt, t)
unfolding advance_row
rests later row t account e d = rw (e, d) refl

runs :
    (env : Scheduling) (row : BackupSchedule) (s : State) (account : Account)
    → find (λ (a : Account). a.id == row.account_id) s.accounts ≡ some account
    → is_due env.now row ≡ true
    → advance_row env row s ≡ record_attempt env row (capture_due env row s) s
unfolding advance_row
runs env row s account e d = rw (e, d) refl

selected :
    (env : Scheduling) (id : ℕ) (row : BackupSchedule) (s : State)
    → find (is_schedule id) s.schedules ≡ some row
    → advance_schedule env id s ≡ advance_row env row s
unfolding advance_schedule advance_selected
selected env id row s e = rw e refl

-- The run of a schedule that is due, in an account that exists, throws only if what it tries throws what is
-- no `CloudError`. Otherwise it commits. A backup that is admitted is then recorded in the schedule and in the
-- table of runs. A refusal is recorded in the schedule, which it ends exactly if its code is unauthenticated
-- or permission_denied. And no later run before a day has passed does anything.
pub advance_schedule-again :
    (env : Scheduling) (id : ℕ) (s : State) (row : BackupSchedule) (account : Account)
    → find (is_schedule id) s.schedules ≡ some row
    → find (λ (a : Account). a.id == row.account_id) s.accounts ≡ some account
    → is_due env.now row ≡ true
    → ((capture_due env row s ≡ err fault) × (advance_schedule env id s ≡ err fault))
      ⊎ ((t : State) × (advance_schedule env id s ≡ ok (tt, t))
          × IsRecordedRun env row s t
          × ((later : Scheduling)
              → ltb later.now (env.now + 86400000) ≡ true
              → advance_schedule later id t ≡ ok (tt, t)))
advance_schedule-again env id s row account found exists due =
    elim (record_attempt-cases env row (capture_due env row s) s refl) [
      | inl (c, e) ↦ inl (c, start ∙ e)
      | inr (t, e, r) ↦ inr (
        t,
        start ∙ e,
        r,
        λ later soon.
            selected later id (after t r) t (run-found env id row s t found r)
            ∙ rests later (after t r) t account
                (ap (find (λ (a : Account). a.id == row.account_id)) r.accounts ∙ exists)
                (not_due r.disabled_at (env.now + 86400000) later.now soon),
      )
    ]
  where
    start : advance_schedule env id s ≡ record_attempt env row (capture_due env row s) s
    start = selected env id row s found ∙ runs env row s account exists due

    after : (t : State) → IsRecordedRun env row s t → BackupSchedule
    after t r = rescheduled env.now r.attempt r.disabled_at row
