-- ===== src/Admission/Admit/Prepare.antt =====
-- The two halves of `admit` of apps/control/src/lifecycle.ts that check a request and prepare its writes.
use agent_cloud.Base.{
  ℕ, ◌+◌, ◌-◌, List, Option, none, some, Bool, false, ◌&&◌, ◌||◌, not, ◌==◌, ◌!=◌, nat_eq, ltb, max,
  find, any, is_none,
}
use agent_cloud.Base.Tables.{insert, update}
use agent_cloud.Base.Result.{Result, ok, require, forbid, row_or, ◌>>=◌, ◌>>◌}
use agent_cloud.Contracts.Errors.{ErrorCode}
use agent_cloud.Contracts.Policy.{Principal, Size, Region}
use agent_cloud.Contracts.Catalog.{CatalogItem, select_offer, provider_kind_eq, architecture_eq}
use agent_cloud.Contracts.Provider.{Power, power_eq}
use agent_cloud.Contracts.Lifecycle.{
  Machine, MachineSpec, MachineState, MachineAction, LifecycleCommand, Operation, is_destroyed,
  is_operation_terminal, expected_version,
}
use agent_cloud.Store.{Account, Project, Allocation, NetworkProfile, State}
use agent_cloud.Admission.Command.{authorize_command}
use agent_cloud.Admission.Reservation.{Extra, assert_reservation, is_live}
use agent_cloud.Admission.Request.{Admission, Setting, parse_offer}
use agent_cloud.Admission.Cleanup.{owned_machine}

-- `quote`
unfoldable pub quote : Setting → Size → Region → Result CatalogItem
quote env size region = do
  forbid (env.catalog.provider != env.provider) ErrorCode.provider_unavailable
  select_offer env.catalog size region env.now

-- What both kinds of request prepare: the machine, the quoted offer and the state so far.
pub record Prepared : Type 0 where
  pub machine : Machine
  pub offer : Option CatalogItem
  pub state : State

abbrev pub new_machine : Setting → Principal → (project_id : ℕ) → MachineSpec → Machine
new_machine env principal project_id spec = record {
  id = env.new_machine_id;
  account_id = principal.account_id;
  project_id = project_id;
  spec = spec;
  provider = env.provider;
  state = MachineState.provisioning env.new_allocation_id;
  version = 1;
  created_at = env.now;
}

abbrev pub new_allocation : Setting → Principal → CatalogItem → Allocation
new_allocation env principal offer = record {
  id = env.new_allocation_id;
  account_id = principal.account_id;
  machine_id = env.new_machine_id;
  provider = env.provider;
  server_id = none;
  network_profile = NetworkProfile.managed_ipv4;
  currency = offer.currency;
  hourly_micros = offer.hourly_micros;
  offer = some offer;
  retired_at = none;
}

-- A live machine of the project that has the name.
abbrev pub has_name : (project_id name : ℕ) → Machine → Bool
has_name project_id name m =
    m.project_id == project_id && m.spec.name == name && not (is_destroyed m.state)

abbrev pub is_project : (id account_id : ℕ) → Project → Bool
is_project id account_id p = p.id == id && p.account_id == account_id

abbrev pub one_more : CatalogItem → Extra
one_more offer = record { machines = 1; price = offer.hourly_micros; currency = offer.currency }

unfoldable pub prepare_create :
    Setting → State → Principal → Account → (project_id : ℕ) → MachineSpec → Result Prepared
prepare_create env s principal account project_id spec = do
  authorize_command principal project_id (LifecycleCommand.create spec)
  row_or (find (is_project project_id principal.account_id) s.projects) ErrorCode.not_found
  forbid (any (has_name project_id spec.name) s.machines) ErrorCode.resource_busy
  offer ← quote env spec.size spec.region
  assert_reservation s principal account env.limits (one_more offer)
  ok (record {
    machine = new_machine env principal project_id spec;
    offer = some offer;
    state = record s {
      machines = insert (new_machine env principal project_id spec) s.machines;
      allocations = insert (new_allocation env principal offer) s.allocations;
    };
  })

-- The offer and the state after the part of an action that is only for resizing.
abbrev pub is_powered_off : MachineState → Bool
is_powered_off (MachineState.allocated _ _ power _ _) = power == Power.off
is_powered_off _ = false

abbrev pub reserve : (allocation_id micros : ℕ) → List Allocation → List Allocation
reserve allocation_id micros =
    update (λ (a : Allocation). a.id == allocation_id) (λ a. record a { hourly_micros = micros })

-- What a resize adds: a reservation is never lowered before the new size is seen.
abbrev pub larger : Allocation → CatalogItem → Extra
larger allocation offer = record {
  machines = 0;
  price = max allocation.hourly_micros offer.hourly_micros - allocation.hourly_micros;
  currency = offer.currency;
}

unfoldable pub prepare_resize :
    Setting
    → State
    → Principal
    → Account
    → Machine
    → Allocation
    → Size
    → Result (CatalogItem × State)
prepare_resize env s principal account machine allocation size = do
  require (is_powered_off machine.state) ErrorCode.resource_busy
  offer ← quote env size machine.spec.region
  current ← parse_offer allocation.offer
  forbid (offer.architecture != current.architecture) ErrorCode.invalid_input
  forbid (ltb offer.disk_gb current.disk_gb) ErrorCode.invalid_input
  assert_reservation s principal account env.limits (larger allocation offer)
  ok (
    offer,
    record s {
      allocations =
          reserve allocation.id (max allocation.hourly_micros offer.hourly_micros) s.allocations;
    },
  )

unfoldable pub prepare_offer :
    Setting
    → State
    → Principal
    → Account
    → Machine
    → Allocation
    → MachineAction
    → Result (Option CatalogItem × State)
unfolding prepare_resize
prepare_offer env s principal account machine allocation (MachineAction.resize _ size) = do
  (offer, s') ← prepare_resize env s principal account machine allocation size
  ok (some offer, s')
prepare_offer env s principal account machine allocation _ = ok (none, s)

abbrev pub is_busy : (machine_id : ℕ) → Operation → Bool
is_busy machine_id op = op.machine_id == machine_id && not (is_operation_terminal op)

abbrev pub holds : (machine_id : ℕ) → Allocation → Bool
holds machine_id a = a.machine_id == machine_id && is_live a

abbrev pub bump_version : (machine_id version : ℕ) → List Machine → List Machine
bump_version machine_id version =
    update (λ (m : Machine). m.id == machine_id) (λ m. record m { version = version + 1 })

unfoldable pub prepare_action :
    Setting → State → Principal → Account → (machine_id : ℕ) → MachineAction → Result Prepared
unfolding prepare_offer
prepare_action env s principal account machine_id action = do
  machine ← row_or (owned_machine machine_id principal.account_id s) ErrorCode.not_found
  authorize_command principal machine.project_id (LifecycleCommand.act action)
  require (machine.version == expected_version action) ErrorCode.version_conflict
  forbid (any (is_busy machine.id) s.operations) ErrorCode.resource_busy
  allocation ← row_or (find (holds machine.id) s.allocations) ErrorCode.resource_busy
  forbid (is_none allocation.server_id || is_destroyed machine.state) ErrorCode.resource_busy
  (offer, s') ← prepare_offer env s principal account machine allocation action
  ok (record {
    machine = machine;
    offer = offer;
    state = record s' { machines = bump_version machine.id machine.version s'.machines };
  })

unfoldable pub prepare : Setting → State → Principal → Account → Admission → Result Prepared
unfolding prepare_create prepare_action
prepare env s principal account (Admission.create project_id spec) =
    prepare_create env s principal account project_id spec
prepare env s principal account (Admission.action machine_id command) =
    prepare_action env s principal account machine_id command
