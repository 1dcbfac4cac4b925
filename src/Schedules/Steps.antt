-- ===== src/Schedules/Steps.antt =====
-- What requests and runs keep, of all schedules.
use agent_cloud.Base.{
  ℕ, true, false, Option, none, some, ◌≡◌, refl, sym, ap, subst, ◌!=◌, ◌||◌, nat_eq, leb, any, find,
  find-In, select, length, is_none, is_some, if◌then◌else◌, Bool-cases, and_split, inl, inr, In,
  arith, ⊤,
}
use agent_cloud.Base.Tables.{insert}
use agent_cloud.Base.Result.{Result, ok, err, cloud, fault, ok-bind, row_or, forbid, forbid-ok}
use agent_cloud.Contracts.Errors.{ErrorCode}
use agent_cloud.Contracts.Policy.{Capability, Principal}
use agent_cloud.Store.{BackupSchedule, ScheduleAttempt, State}
use agent_cloud.Auth.Authority.{Authority, load_authority}
use agent_cloud.Auth.Policy.{authorize}
use agent_cloud.Admission.Cleanup.{owned_machine}
use agent_cloud.Schedules.{
  Scheduling, ScheduleRequest, is_schedule, active_of, is_same_app, is_recent_of, lock_account,
  verified_allocation, new_schedule, create_new, answer_schedule, create_schedule,
  is_owned_schedule, disable_at, write_disabled, disable_schedule, capture_due, record_attempt,
  revokes, is_due, advance_row, advance_selected, advance_schedule,
}
use agent_cloud.Schedules.Keyed.{IsKeyed, insert-IsKeyed, update-IsKeyed}
use agent_cloud.Schedules.Bounded.{
  IsWithinTen, insert-IsWithinTen, update-IsWithinTen, rescheduled-IsWithinTen,
}

-- An id names one schedule, and no account has more than ten schedules that are active.
abbrev pub IsOrderly : State → Type 0
IsOrderly s = IsKeyed s.schedules × IsWithinTen s.schedules

abbrev state_of : State → Result (BackupSchedule × State) → State
state_of s (ok (_, t)) = t
state_of s (err e) = s

abbrev left_by : State → Result (⊤ × State) → State
left_by s (ok (_, t)) = t
left_by s (err e) = s

create_new-writes :
    (env : Scheduling) (principal : Principal) (authority : Authority) (machine_id : ℕ)
    (request : ScheduleRequest) (s t : State) (row : BackupSchedule)
    → create_new env principal authority machine_id request s ≡ ok (row, t)
    → (new : BackupSchedule) × (new.id ≡ request.id)
      × (leb 10 (length (active_of new.account_id s.schedules)) ≡ false)
      × (insert new s.schedules ≡ t.schedules)
unfolding create_new
create_new-writes env principal authority machine_id request s t row e =
    ok-bind (row_or (owned_machine machine_id principal.account_id s) ErrorCode.not_found) _ e
      λ machine _ e1.
        ok-bind (authorize authority.principal Capability.backup_create (some machine.project_id)) _
          e1
          λ _ _ e2. ok-bind (verified_allocation machine.state) _ e2 λ allocation_id _ e3.
            ok-bind
              (forbid
                (any (is_same_app machine_id request.app)
                  (active_of principal.account_id s.schedules))
                ErrorCode.resource_busy)
              _ e3
              λ _ _ e4.
                ok-bind
                  (forbid (leb 10 (length (active_of principal.account_id s.schedules)))
                    ErrorCode.quota_exceeded)
                  _ e4
                  λ _ free e5.
                    ok-bind
                      (forbid
                        (leb 30
                          (length (select (is_recent_of principal.account_id env.now) s.schedules)))
                        ErrorCode.quota_exceeded)
                      _ e5
                      λ _ _ e6. (
                        new_schedule env principal machine allocation_id request,
                        refl,
                        forbid-ok _ ErrorCode.quota_exceeded free,
                        ap (λ r. (state_of s r).schedules) e6,
                      )

answer_schedule-IsOrderly :
    (env : Scheduling) (principal : Principal) (authority : Authority) (machine_id : ℕ)
    (request : ScheduleRequest) (existing : Option BackupSchedule) (s t : State)
    (row : BackupSchedule)
    → IsOrderly s
    → find (is_schedule request.id) s.schedules ≡ existing
    → answer_schedule env principal authority machine_id request existing s ≡ ok (row, t)
    → IsOrderly t
unfolding answer_schedule
answer_schedule-IsOrderly env principal authority machine_id request none s t row (k, w) fresh e =
    let (new, named, free, written) =
      create_new-writes env principal authority machine_id request s t row e in
    (
      subst IsKeyed written (
          insert-IsKeyed new s.schedules
            (subst (λ id. find (is_schedule id) s.schedules ≡ none) (sym named) fresh) k),
      subst IsWithinTen written (insert-IsWithinTen new s.schedules free w),
    )
answer_schedule-IsOrderly env principal authority machine_id request (some existing) s t row h found
      e =
    ok-bind
      (forbid
        (existing.account_id != principal.account_id
          || existing.digest != env.digest machine_id request)
        ErrorCode.idempotency_conflict)
      _ e
      λ _ _ e1.
        ok-bind (authorize authority.principal Capability.backup_create (some existing.project_id))
          _ e1 λ _ _ e2. subst IsOrderly (ap (state_of s) e2) h

create_schedule-IsOrderly :
    (env : Scheduling) (principal : Principal) (machine_id : ℕ) (request : ScheduleRequest)
    (s t : State) (row : BackupSchedule)
    → IsOrderly s
    → create_schedule env principal machine_id request s ≡ ok (row, t)
    → IsOrderly t
unfolding create_schedule
create_schedule-IsOrderly env principal machine_id request s t row h e =
    ok-bind (lock_account principal.account_id s) _ e λ _ _ e1.
      ok-bind (load_authority s env.now principal.grant_id) _ e1 λ authority _.
        answer_schedule-IsOrderly env principal authority machine_id request
          (find (is_schedule request.id) s.schedules) s t row h refl

write_disabled-IsOrderly :
    (env : Scheduling) (row : BackupSchedule) (s : State)
    → IsOrderly s
    → IsOrderly (write_disabled env row s).1
unfolding write_disabled
write_disabled-IsOrderly env row s h = elim (Bool-cases (is_some row.disabled_at)) [
  | inl e ↦ rw e h
  | inr e ↦ rw e (
    update-IsKeyed (is_schedule row.id) (disable_at env.now) s.schedules (λ r. refl) h.0,
    update-IsWithinTen (is_schedule row.id) (disable_at env.now) s.schedules
        (λ account_id r m e d. ground arith) h.1,
  )
]

disable_schedule-IsOrderly :
    (env : Scheduling) (principal : Principal) (id : ℕ) (s t : State) (row : BackupSchedule)
    → IsOrderly s
    → disable_schedule env principal id s ≡ ok (row, t)
    → IsOrderly t
unfolding disable_schedule
disable_schedule-IsOrderly env principal id s t row h e =
    ok-bind (lock_account principal.account_id s) _ e λ _ _ e1.
      ok-bind (load_authority s env.now principal.grant_id) _ e1 λ authority _ e2.
        ok-bind
          (row_or (find (is_owned_schedule id principal.account_id) s.schedules)
            ErrorCode.not_found)
          _ e2
          λ found _ e3.
            ok-bind (authorize authority.principal Capability.backup_create (some found.project_id))
              _ e3
              λ _ _ e4.
                subst IsOrderly (ap (state_of s) e4) (write_disabled-IsOrderly env found s h)

record_attempt-IsOrderly :
    (env : Scheduling) (row : BackupSchedule) (r : Result ℕ) (s t : State)
    → In row s.schedules
    → row.disabled_at ≡ none
    → IsOrderly s
    → record_attempt env row r s ≡ ok (tt, t)
    → IsOrderly t
unfolding record_attempt
record_attempt-IsOrderly env row (ok backup_id) s t mine live (k, w) e =
    subst IsOrderly (ap (left_by s) e) (
      update-IsKeyed _ _ s.schedules (λ r. refl) k,
      rescheduled-IsWithinTen env.now (ScheduleAttempt.admitted env.now backup_id) none row
          s.schedules mine live k w,
    )
record_attempt-IsOrderly env row (err (cloud failure)) s t mine live (k, w) e =
    subst IsOrderly (ap (left_by s) e) (
      update-IsKeyed _ _ s.schedules (λ r. refl) k,
      rescheduled-IsWithinTen env.now (ScheduleAttempt.refused env.now failure)
          (if revokes failure.code then some env.now else none) row s.schedules mine live k w,
    )
record_attempt-IsOrderly env row (err fault) s t mine live h e = cc

is_none-eq : (o : Option ℕ) → is_none o ≡ true → o ≡ none
is_none-eq none e = refl
is_none-eq (some n) e = cc

advance_row-IsOrderly :
    (env : Scheduling) (row : BackupSchedule) (s t : State)
    → In row s.schedules
    → IsOrderly s
    → advance_row env row s ≡ ok (tt, t)
    → IsOrderly t
unfolding advance_row
advance_row-IsOrderly env row s t mine h e = ok-bind (lock_account row.account_id s) _ e λ _ _ e1.
    elim (Bool-cases (is_due env.now row)) [
      | inl due ↦
          record_attempt-IsOrderly env row (capture_due env row s) s t mine
            (is_none-eq row.disabled_at
              (and_split (is_none row.disabled_at) (leb row.next_run_at env.now) due).0)
            h
            (subst
              (λ b.
                (if b then record_attempt env row (capture_due env row s) s else ok (tt, s))
                ≡ ok (tt, t))
              due e1)
      | inr rests ↦
          subst IsOrderly
            (ap (left_by s) (
              subst
                (λ b.
                  (if b then record_attempt env row (capture_due env row s) s else ok (tt, s))
                  ≡ ok (tt, t))
                rests e1))
            h
    ]

advance_selected-IsOrderly :
    (env : Scheduling) (id : ℕ) (found : Option BackupSchedule) (s t : State)
    → find (is_schedule id) s.schedules ≡ found
    → IsOrderly s
    → advance_selected env found s ≡ ok (tt, t)
    → IsOrderly t
unfolding advance_selected
advance_selected-IsOrderly env id none s t row h e = subst IsOrderly (ap (left_by s) e) h
advance_selected-IsOrderly env id (some found) s t row h e =
    advance_row-IsOrderly env found s t (find-In (is_schedule id) s.schedules row) h e

advance_schedule-IsOrderly :
    (env : Scheduling) (id : ℕ) (s t : State)
    → IsOrderly s
    → advance_schedule env id s ≡ ok (tt, t)
    → IsOrderly t
unfolding advance_schedule
advance_schedule-IsOrderly env id s t =
    advance_selected-IsOrderly env id (find (is_schedule id) s.schedules) s t refl

-- The states that come of a state by requests and runs that commit.
pub data Scheduled (s : State) : State → Type 0 where
  untouched : Scheduled s s
  created :
      {t u : State}
      → Scheduled s t
      → (env : Scheduling) (principal : Principal) (machine_id : ℕ) (request : ScheduleRequest)
        (row : BackupSchedule)
      → create_schedule env principal machine_id request t ≡ ok (row, u)
      → Scheduled s u
  disabled :
      {t u : State}
      → Scheduled s t
      → (env : Scheduling) (principal : Principal) (id : ℕ) (row : BackupSchedule)
      → disable_schedule env principal id t ≡ ok (row, u)
      → Scheduled s u
  advanced :
      {t u : State}
      → Scheduled s t
      → (env : Scheduling) (id : ℕ) → advance_schedule env id t ≡ ok (tt, u)
      → Scheduled s u

-- Whatever is requested and run, and in which order: if an id names one schedule and no account has more
-- than ten schedules that are active, then this is so after any sequence of creations, disablings and
-- daily runs that commit.
pub Scheduled-IsOrderly : (s t : State) → Scheduled s t → IsOrderly s → IsOrderly t
Scheduled-IsOrderly s t Scheduled.untouched h = h
Scheduled-IsOrderly s t (Scheduled.created {t = u} before env principal machine_id request row e)
      h =
    create_schedule-IsOrderly env principal machine_id request u t row
      (Scheduled-IsOrderly s u before h) e
Scheduled-IsOrderly s t (Scheduled.disabled {t = u} before env principal id row e) h =
    disable_schedule-IsOrderly env principal id u t row (Scheduled-IsOrderly s u before h) e
Scheduled-IsOrderly s t (Scheduled.advanced {t = u} before env id e) h =
    advance_schedule-IsOrderly env id u t (Scheduled-IsOrderly s u before h) e
