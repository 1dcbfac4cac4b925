-- ===== src/Simulated.antt =====
-- apps/control/src/simulated-provider.ts: a provider that keeps its servers, addresses and actions in tables
-- of its own, with faults that can be asked for.
pub mod Actions
pub mod Submit
pub mod Once
pub mod Due
pub mod Created
pub mod Destroyed
use agent_cloud.Base.{
  ℕ, ◌+◌, List, [], ◌∷◌, Bool, true, false, Option, none, some, ◌&&◌, ◌||◌, not, ◌==◌, nat_eq, leb,
  ltb, if◌then◌else◌, any, find, select, map, is_some, is_none, all,
}
use agent_cloud.Base.Tables.{insert, update}
use agent_cloud.Base.Result.{Result, ok, err, fault}
use agent_cloud.Contracts.Errors.{ErrorCode, Failure}
use agent_cloud.Contracts.Provider.{
  Labels, Network, network_ip, ProviderCommand, Submission, ProviderAction, ProviderServer,
  ProviderPrimaryIp, Power, BackupStatus, Assignment, is_unassigned, ResourceKind, ResourceRef,
}
use agent_cloud.Journal.Resources.{matches_labels}

pub data SimulationFault : Type 0 where
  no_fault : SimulationFault
  lose_response : (visibility_delay_ms : ℕ) → SimulationFault
  timeout_before_submit duplicate_create reject action_failure : SimulationFault

-- What the constructor is given, but for the catalog.
pub record Simulation : Type 0 where
  pub server_fault : SimulationFault
  pub primary_ip_fault : SimulationFault
  pub action_delay_ms : ℕ
  pub retain_primary_ips : Bool

pub record ServerRow : Type 0 where
  pub id : ℕ
  pub value : ProviderServer
  pub visible_at : ℕ

pub record IpRow : Type 0 where
  pub id : ℕ
  pub value : ProviderPrimaryIp
  pub visible_at : ℕ

pub record ActionRow : Type 0 where
  pub id : ℕ
  pub server_id : ℕ
  pub command : ProviderCommand
  pub result : ProviderAction
  pub ready_at : ℕ
  pub completed_at : Option ℕ

-- `simulated_servers`, `simulated_primary_ips` and `simulated_actions`
pub record Cloud : Type 0 where
  pub servers : List ServerRow
  pub ips : List IpRow
  pub actions : List ActionRow

-- The clock and the random ids that one submission takes.
pub record Draw : Type 0 where
  pub now : ℕ
  pub id : ℕ
  pub duplicate_id : ℕ
  pub action_id : ℕ

abbrev pub rejected_failure : Failure
rejected_failure = record { code = ErrorCode.provider_rejected; retryable = false }

abbrev pub rejection : Submission
rejection = Submission.rejected rejected_failure

abbrev pub visibility : SimulationFault → ℕ
visibility (SimulationFault.lose_response delay) = delay
visibility _ = 0

abbrev pub is_duplicate : SimulationFault → Bool
is_duplicate SimulationFault.duplicate_create = true
is_duplicate _ = false

-- What the caller learns of what has been done.
abbrev pub told : SimulationFault → Submission → Submission
told (SimulationFault.lose_response _) answer = Submission.unknown
told SimulationFault.duplicate_create answer = Submission.unknown
told _ answer = answer

abbrev pub is_server_row : ℕ → ServerRow → Bool
is_server_row id row = row.id == id

abbrev pub is_ip_row : ℕ → IpRow → Bool
is_ip_row id row = row.id == id

abbrev pub is_action_row : ℕ → ActionRow → Bool
is_action_row id row = row.id == id

abbrev pub remove : {A : Type 0} → (A → Bool) → List A → List A
remove test rows = select (λ a. not (test a)) rows

abbrev pub shows_server : (id now : ℕ) → ServerRow → Bool
shows_server id now row = is_server_row id row && leb row.visible_at now

abbrev pub server_value : Option ServerRow → Option ProviderServer
server_value none = none
server_value (some row) = some row.value

abbrev pub ip_value : Option IpRow → Option ProviderPrimaryIp
ip_value none = none
ip_value (some row) = some row.value

unfoldable pub get_server : (now server_id : ℕ) → Cloud → Option ProviderServer
get_server now id cloud = server_value (find (shows_server id now) cloud.servers)

unfoldable pub find_servers : (now : ℕ) → Labels → Cloud → List ProviderServer
find_servers now labels cloud =
    select (λ (s : ProviderServer). matches_labels s.labels labels)
      (map (λ (r : ServerRow). r.value)
        (select (λ (r : ServerRow). leb r.visible_at now) cloud.servers))

unfoldable pub get_primary_ip : (now primary_ip_id : ℕ) → Cloud → Option ProviderPrimaryIp
get_primary_ip now id cloud =
    ip_value (find (λ (r : IpRow). is_ip_row id r && leb r.visible_at now) cloud.ips)

unfoldable pub find_primary_ips : (now : ℕ) → Labels → Cloud → List ProviderPrimaryIp
find_primary_ips now labels cloud =
    select (λ (i : ProviderPrimaryIp). matches_labels i.labels labels)
      (map (λ (r : IpRow). r.value) (select (λ (r : IpRow). leb r.visible_at now) cloud.ips))
