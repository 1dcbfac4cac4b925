-- ===== src/Worker/Frames.antt =====
-- What holds of one tick of the worker once it holds of each of its writes. Everything before the one
-- command that a tick may send is an ordinary step.
pub mod Creating
pub mod Acting
pub mod Ticking
pub mod Cleaning
pub mod Ending
pub mod Whole
use agent_cloud.Base.{
  ℕ, Bool, true, false, Option, none, some, ◌≡◌, refl, ◌&&◌, ◌||◌, not, ◌==◌, nat_eq, if◌then◌else◌,
  find, any, is_some, ⊤,
}
use agent_cloud.Base.Result.{ok}
use agent_cloud.Contracts.Errors.{Failure}
use agent_cloud.Contracts.Catalog.{CatalogItem, is_daily}
use agent_cloud.Contracts.Provider.{
  ProviderCommand, ProviderServer, ProviderPrimaryIp, BackupStatus, backup_status_eq, ResourceKind,
  is_server_create_command,
}
use agent_cloud.Contracts.Lifecycle.{
  OperationKind, operation_kind_eq, OperationProgress, BlockedReason, GuestVerification,
}
use agent_cloud.Store.{Attempt, OwnedResource, State}
use agent_cloud.Store.Action.{Action, pure, call, modify, transaction, ◌>>=◌, ◌>>◌}
use agent_cloud.Store.Action.Keeps.{
  IsFrame, Respects, Respects-pure, Respects-call, Respects-transaction, Respects-if, Respects-bind,
  Respects-modify,
}
use agent_cloud.Store.Action.Ends.{
  IsEnding, Pauses, Respects-ends, Pauses-ordinary, Pauses-if, Pauses-done, Pauses-bind,
  Pauses-then, if-ends,
}
use agent_cloud.Journal.Resources.{owned_ref, record_absence}
use agent_cloud.Journal.Prepare.{Authorization}
use agent_cloud.Journal.Submit.{set_progress, journal_effect}
use agent_cloud.Journal.Writes.{Writes}
use agent_cloud.Worker.Work.{
  RuntimeDecision, GuestProvisioning, Work, is_present, is_present_kind, effect_of, block, mismatch,
  effect_for,
}
use agent_cloud.Worker.Complete.{write_failure, fail, complete, commit_completion, completion}
use agent_cloud.Worker.Effects.{
  heed, verify_runtime, is_enable_backup, is_present_server, is_other_server, secure_backups,
  compare_backups, ensure_provider_backups, may_exist, write_compensation, fail_creating,
  begin_failure, is_wrong_ip, deletes_ip, delete_ip, confront_ip, release_ip, cleanup_ip,
  if_released, release_and_complete,
}

-- The writes of a tick: those of the journal, one command, and the ends of an operation.
pub record WorkFrame (R Q : State → State → Type 0) (work : Work) : Type 0 where
  pub ending : IsEnding R Q
  pub writes : Writes R work.operation work.allocation
  pub journal :
      (command : ProviderCommand) (authorization : Authorization)
      → Respects Q (journal_effect (effect_for work command authorization))
  pub completes :
      (server : Option ProviderServer) (verification : Option GuestVerification) (s t : State)
      → commit_completion (completion work server verification) s ≡ ok (tt, t)
      → R s t
  pub fails :
      (error : Failure) (allocation_absent : Bool) (s : State)
      → R s (write_failure work.operation work.machine error allocation_absent work.moment.now s)
  pub compensates : (error : Failure) (s : State) → R s (write_compensation work.operation error s)

-- No server is returned once a command has been sent.
abbrev pub IsDone : Option ProviderServer → Type 0
IsDone server = server ≡ none

abbrev pub IsKept : Bool → Type 0
IsKept released = released ≡ false

module _ {R Q : State → State → Type 0} (work : Work) (W : WorkFrame R Q work) where
  abbrev F : IsFrame R
  F = W.ending.frame

  pub block-Respects : (reason : BlockedReason) → Respects R (block work.operation reason)
  block-Respects reason = W.writes.progress (OperationProgress.blocked reason)

  pub complete-Respects :
      (server : Option ProviderServer) (verification : Option GuestVerification)
      → Respects R (complete (completion work server verification))
  unfolding complete
  complete-Respects server verification =
      Respects-transaction F (commit_completion (completion work server verification))
        λ s _ t h. W.completes server verification s t h

  pub fail-Respects :
      (error : Failure) (allocation_absent : Bool) → Respects R (fail work error allocation_absent)
  unfolding fail
  fail-Respects error allocation_absent = Respects-modify _ (W.fails error allocation_absent)

  pub absence-Respects :
      (row : OwnedResource)
      → Respects R (modify (record_absence work.moment.now work.allocation (owned_ref row)))
  absence-Respects row = Respects-modify _ (W.writes.absence work.moment.now (owned_ref row))

  heed-Respects : (decision : RuntimeDecision) → Respects R (heed work decision)
  unfolding heed
  heed-Respects RuntimeDecision.waiting = Respects-pure F tt
  heed-Respects (RuntimeDecision.blocked reason) = block-Respects reason
  heed-Respects (RuntimeDecision.ready server verification) =
      complete-Respects (some server) (some verification)

  pub verify_runtime-Respects : (guest : GuestProvisioning) → Respects R (verify_runtime work guest)
  unfolding verify_runtime
  verify_runtime-Respects GuestProvisioning.disabled =
      block-Respects BlockedReason.guest_unreachable
  verify_runtime-Respects (GuestProvisioning.enabled ports) =
      Respects-bind F (call (λ n. ports.check n work.operation work.machine work.allocation)) _
        (Respects-call F _) heed-Respects

  stop : Pauses R Q IsDone (mismatch work.operation >> pure none)
  stop =
      Pauses-ordinary W.ending (mismatch work.operation >> pure none)
        (Respects-bind F (mismatch work.operation) _ (block-Respects _) λ _. Respects-pure F none)

  secure_backups-Pauses :
      (server : ProviderServer) (row : OwnedResource) (observed : ProviderServer)
      → Pauses R Q IsDone (secure_backups work server row observed)
  unfolding secure_backups
  secure_backups-Pauses server row observed =
      Pauses-if W.ending (is_other_server server row observed) _ _ stop (
        Pauses-if W.ending (observed.backup_status == BackupStatus.enabled) _ _
          (Pauses-ordinary W.ending (pure (some observed)) (Respects-pure F _))
          (Pauses-if W.ending
            (observed.backup_status == BackupStatus.unknown
              || is_some (effect_of is_enable_backup work.history))
            _ _ stop
            (Pauses-done W.ending
              (journal_effect
                (effect_for work (ProviderCommand.enable_backup server.id) Authorization.fresh))
              none (W.journal _ _) refl)))

  compare_backups-Pauses :
      (server : ProviderServer) (row : Option OwnedResource) (observed : Option ProviderServer)
      → Pauses R Q IsDone (compare_backups work server row observed)
  unfolding compare_backups
  compare_backups-Pauses server (some row) (some observed) =
      secure_backups-Pauses server row observed
  compare_backups-Pauses server (some row) none = stop
  compare_backups-Pauses server none observed = stop

  pub ensure_provider_backups-Pauses :
      (server : ProviderServer) (offer : CatalogItem)
      → Pauses R Q IsDone (ensure_provider_backups work server offer)
  unfolding ensure_provider_backups
  ensure_provider_backups-Pauses server offer =
      Pauses-if W.ending (is_daily offer.provider_backups) _ _
        (Pauses-bind W.ending (call (λ n. work.provider.get_server n server.id)) _
          (Respects-call F _)
          (compare_backups-Pauses server (find (is_present_server server) work.resources)))
        (Pauses-ordinary W.ending (pure (some server)) (Respects-pure F _))

  pub begin_failure-Respects : (error : Failure) → Respects R (begin_failure work error)
  unfolding begin_failure fail_creating
  begin_failure-Respects error =
      let possible_vm = may_exist (effect_of is_server_create_command work.history) in
      let owns_some = any is_present work.resources in
      Respects-if F (work.operation.kind == OperationKind.create) _ _
        (Respects-if F (not possible_vm && owns_some) _ _
          (Respects-bind F (modify (write_compensation work.operation error)) _
            (Respects-modify _ (W.compensates error))
            λ _. W.writes.progress OperationProgress.cleaning_up)
          (fail-Respects error _))
        (fail-Respects error false)

  delete_ip-Respects :
      (row : OwnedResource) (ip : ProviderPrimaryIp) → Respects Q (delete_ip work row ip)
  unfolding delete_ip
  delete_ip-Respects row ip =
      if-ends W.ending (is_wrong_ip row ip) _ _ (Respects-ends W.ending _ (block-Respects _)) (
        if-ends W.ending (is_some (effect_of (deletes_ip ip.id) work.history)) _ _
          (Respects-ends W.ending _ (block-Respects _)) (W.journal _ _))

  confront_ip-Respects :
      (row : OwnedResource) (ip : Option ProviderPrimaryIp) → Respects Q (confront_ip work row ip)
  unfolding confront_ip
  confront_ip-Respects row none = Respects-ends W.ending _ (absence-Respects row)
  confront_ip-Respects row (some ip) = delete_ip-Respects row ip

  release_ip-Pauses : (row : Option OwnedResource) → Pauses R Q IsKept (release_ip work row)
  unfolding release_ip
  release_ip-Pauses none = Pauses-ordinary W.ending (pure true) (Respects-pure F _)
  release_ip-Pauses (some row) =
      Pauses-bind W.ending (call (λ n. work.provider.get_primary_ip n row.provider_id)) _
        (Respects-call F _)
        λ ip.
          Pauses-done W.ending (confront_ip work row ip) false (confront_ip-Respects row ip) refl

  pub cleanup_ip-ends :
      (next : Action ⊤)
      → Respects R next
      → Respects Q (cleanup_ip work >>= λ released. if_released released next)
  unfolding cleanup_ip
  cleanup_ip-ends next k =
      Pauses-then W.ending (cleanup_ip work) _
        (release_ip-Pauses (find (is_present_kind ResourceKind.primary_ip) work.resources))
        (λ released _. if_released-Respects released)
        λ released. Respects-ends W.ending _ (if_released-Respects released)
    where
      if_released-Respects : (released : Bool) → Respects R (if_released released next)
      if_released-Respects true = k
      if_released-Respects false = Respects-pure F tt

  pub release_and_complete-Respects : Respects Q (release_and_complete work)
  unfolding release_and_complete
  release_and_complete-Respects = cleanup_ip-ends _ (complete-Respects none none)
