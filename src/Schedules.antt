-- ===== src/Schedules.antt =====
-- `create`, `disable`, `advance` and `reconcile` of apps/control/src/backup-schedules.ts: an app's daily backup.
pub mod Keyed
pub mod Bounded
pub mod Steps
pub mod Paced
use agent_cloud.Base.{
  ℕ, ◌+◌, List, [], ◌∷◌, Bool, true, false, Option, none, some, ◌&&◌, ◌||◌, not, ◌==◌, ◌!=◌, nat_eq,
  ltb, leb, if◌then◌else◌, any, find, select, length, is_none, is_some, ⊤, suc,
}
use agent_cloud.Base.Tables.{insert, update}
use agent_cloud.Base.Result.{
  Result, Error, ok, err, cloud, fault, throw, row_or, require, forbid, ◌>>=◌, ◌>>◌,
}
use agent_cloud.Contracts.Errors.{ErrorCode, Failure}
use agent_cloud.Contracts.Policy.{Capability, Principal}
use agent_cloud.Contracts.Lifecycle.{Machine, MachineState, GuestVerification}
use agent_cloud.Store.{Account, AuditEvent, BackupSchedule, ScheduleAttempt, ScheduleRun, State}
use agent_cloud.Auth.Authority.{Authority, load_authority}
use agent_cloud.Auth.Policy.{authorize}
use agent_cloud.Admission.Cleanup.{owned_machine}

abbrev pub day_ms : ℕ
day_ms = 86400000

abbrev pub hour_ms : ℕ
hour_ms = 3600000

pub record ScheduleRequest : Type 0 where
  pub id : ℕ
  pub app : ℕ
  pub recipe : ℕ

-- The database clock, `backupDigest`, and the `capture` that the schedules are given, which answers with
-- the id of the backup that it has admitted.
pub record Scheduling : Type 0 where
  pub now : ℕ
  pub digest : (machine_id : ℕ) → ScheduleRequest → ℕ
  pub capture : ℕ → Principal → (machine_id recipe : ℕ) → Result ℕ

abbrev pub is_schedule : (id : ℕ) → BackupSchedule → Bool
is_schedule id row = row.id == id

abbrev pub is_active_of : (account_id : ℕ) → BackupSchedule → Bool
is_active_of id row = row.account_id == id && is_none row.disabled_at

abbrev pub active_of : (account_id : ℕ) → List BackupSchedule → List BackupSchedule
active_of id = select (is_active_of id)

abbrev pub is_same_app : (machine_id app : ℕ) → BackupSchedule → Bool
is_same_app machine_id app row = row.machine_id == machine_id && row.app == app

abbrev pub is_recent_of : (account_id now : ℕ) → BackupSchedule → Bool
is_recent_of id now row = row.account_id == id && ltb now (row.created_at + hour_ms)

abbrev pub lock_account : (account_id : ℕ) → State → Result Account
lock_account id s = row_or (find (λ (a : Account). a.id == id) s.accounts) ErrorCode.unauthenticated

-- A daily backup needs a guest that has been verified over SSH.
abbrev pub verified_allocation : MachineState → Result ℕ
verified_allocation (MachineState.allocated id _ _ (GuestVerification.ssh _ _ _ _) _) = ok id
verified_allocation _ = throw ErrorCode.resource_busy

abbrev pub audited : (account_id subject_id : ℕ) → AuditEvent → State → State
audited account_id subject_id event s = record s {
  audit =
      insert (record { account_id = account_id; subject_id = subject_id; event = event }) s.audit;
}

abbrev pub new_schedule :
    Scheduling → Principal → Machine → (allocation_id : ℕ) → ScheduleRequest → BackupSchedule
new_schedule env principal machine allocation_id request = record {
  id = request.id;
  account_id = principal.account_id;
  project_id = machine.project_id;
  machine_id = machine.id;
  allocation_id = allocation_id;
  grant_id = principal.grant_id;
  digest = env.digest machine.id request;
  app = request.app;
  recipe = request.recipe;
  next_run_at = env.now;
  disabled_at = none;
  last_attempt = ScheduleAttempt.none_yet;
  created_at = env.now;
}

unfoldable pub create_new :
    Scheduling
    → Principal
    → Authority
    → (machine_id : ℕ) → ScheduleRequest
    → State
    → Result (BackupSchedule × State)
create_new env principal authority machine_id request s = do
  machine ← row_or (owned_machine machine_id principal.account_id s) ErrorCode.not_found
  authorize authority.principal Capability.backup_create (some machine.project_id)
  allocation_id ← verified_allocation machine.state
  forbid (any (is_same_app machine_id request.app) (active_of principal.account_id s.schedules))
      ErrorCode.resource_busy
  forbid (leb 10 (length (active_of principal.account_id s.schedules))) ErrorCode.quota_exceeded
  forbid (leb 30 (length (select (is_recent_of principal.account_id env.now) s.schedules)))
      ErrorCode.quota_exceeded
  ok (
    new_schedule env principal machine allocation_id request,
    audited principal.account_id request.id AuditEvent.schedule_created (record s {
      schedules = insert (new_schedule env principal machine allocation_id request) s.schedules;
    }),
  )

-- A request that is sent again is answered with its schedule.
unfoldable pub answer_schedule :
    Scheduling
    → Principal
    → Authority
    → (machine_id : ℕ) → ScheduleRequest
    → Option BackupSchedule
    → State
    → Result (BackupSchedule × State)
unfolding create_new
answer_schedule env principal authority machine_id request (some existing) s = do
  forbid
      (existing.account_id != principal.account_id
        || existing.digest != env.digest machine_id request)
      ErrorCode.idempotency_conflict
  authorize authority.principal Capability.backup_create (some existing.project_id)
  ok (existing, s)
answer_schedule env principal authority machine_id request none s =
    create_new env principal authority machine_id request s

unfoldable pub create_schedule :
    Scheduling
    → Principal
    → (machine_id : ℕ) → ScheduleRequest
    → State
    → Result (BackupSchedule × State)
unfolding answer_schedule
create_schedule env principal machine_id request s = do
  lock_account principal.account_id s
  authority ← load_authority s env.now principal.grant_id
  answer_schedule env principal authority machine_id request
      (find (is_schedule request.id) s.schedules) s

abbrev pub is_owned_schedule : (id account_id : ℕ) → BackupSchedule → Bool
is_owned_schedule id account_id row = is_schedule id row && row.account_id == account_id

abbrev pub disable_at : (now : ℕ) → BackupSchedule → BackupSchedule
disable_at now row = record row { disabled_at = some now }

unfoldable pub write_disabled : Scheduling → BackupSchedule → State → BackupSchedule × State
write_disabled env row s = if is_some row.disabled_at then (row, s) else (
  disable_at env.now row,
  audited row.account_id row.id AuditEvent.schedule_disabled
      (record s { schedules = update (is_schedule row.id) (disable_at env.now) s.schedules }),
)

unfoldable pub disable_schedule :
    Scheduling → Principal → (id : ℕ) → State → Result (BackupSchedule × State)
unfolding write_disabled
disable_schedule env principal id s = do
  lock_account principal.account_id s
  authority ← load_authority s env.now principal.grant_id
  row ← row_or (find (is_owned_schedule id principal.account_id) s.schedules) ErrorCode.not_found
  authorize authority.principal Capability.backup_create (some row.project_id)
  ok (write_disabled env row s)

abbrev pub holds_allocation : (allocation_id : ℕ) → MachineState → Bool
holds_allocation id (MachineState.allocated allocation_id _ _ _ _) = allocation_id == id
holds_allocation id _ = false

abbrev pub machine_row : Option Machine → Result Machine
machine_row none = err fault
machine_row (some machine) = ok machine

-- The `try` of `advance`.
unfoldable pub capture_due : Scheduling → BackupSchedule → State → Result ℕ
capture_due env row s = do
  authority ← load_authority s env.now row.grant_id
  authorize authority.principal Capability.backup_create (some row.project_id)
  machine ← machine_row (find (λ (m : Machine). m.id == row.machine_id) s.machines)
  require (holds_allocation row.allocation_id machine.state) ErrorCode.resource_busy
  env.capture s.calls authority.principal machine.id row.recipe

-- What ends a schedule, rather than only its run of today.
abbrev pub revokes : ErrorCode → Bool
revokes ErrorCode.unauthenticated = true
revokes ErrorCode.permission_denied = true
revokes _ = false

abbrev pub rescheduled :
    (now : ℕ) → ScheduleAttempt → (disabled_at : Option ℕ) → BackupSchedule → BackupSchedule
rescheduled now attempt disabled_at row = record row {
  last_attempt = attempt;
  disabled_at = disabled_at;
  next_run_at = now + day_ms;
}

abbrev pub reschedule :
    (now : ℕ) → ScheduleAttempt → (disabled_at : Option ℕ) → BackupSchedule → State → State
reschedule now attempt disabled_at row s = record s {
  schedules = update (is_schedule row.id) (rescheduled now attempt disabled_at) s.schedules;
  calls = suc s.calls;
}

unfoldable pub record_attempt : Scheduling → BackupSchedule → Result ℕ → State → Result (⊤ × State)
record_attempt env row (ok backup_id) s = ok (
  tt,
  reschedule env.now (ScheduleAttempt.admitted env.now backup_id) none row (record s {
    schedule_runs =
        insert
          (record {
            account_id = row.account_id;
            schedule_id = row.id;
            backup_id = backup_id;
            due_at = row.next_run_at;
          })
          s.schedule_runs;
  }),
)
record_attempt env row (err (cloud failure)) s = ok (
  tt,
  reschedule env.now (ScheduleAttempt.refused env.now failure)
      (if revokes failure.code then some env.now else none) row s,
)
record_attempt env row (err fault) s = err fault

abbrev pub is_due : (now : ℕ) → BackupSchedule → Bool
is_due now row = is_none row.disabled_at && leb row.next_run_at now

unfoldable pub advance_row : Scheduling → BackupSchedule → State → Result (⊤ × State)
unfolding capture_due record_attempt
advance_row env row s = do
  lock_account row.account_id s
  if is_due env.now row then record_attempt env row (capture_due env row s) s else ok (tt, s)

unfoldable pub advance_selected : Scheduling → Option BackupSchedule → State → Result (⊤ × State)
unfolding advance_row
advance_selected env none s = ok (tt, s)
advance_selected env (some row) s = advance_row env row s

-- `advance`
unfoldable pub advance_schedule : Scheduling → (id : ℕ) → State → Result (⊤ × State)
unfolding advance_selected
advance_schedule env id s = advance_selected env (find (is_schedule id) s.schedules) s
