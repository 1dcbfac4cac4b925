-- ===== src/Worker/Frames/Whole.antt =====
-- A tick from the operation's row on.
use agent_cloud.Base.{
  some, false, ◌≡◌, refl, sym, subst, ◌⊎◌, inl, inr, ◌==◌, nat_eq, find, Bool-cases, Option-cases,
  ⊤,
}
use agent_cloud.Base.Result.{Result}
use agent_cloud.Contracts.Catalog.{provider_kind_eq}
use agent_cloud.Contracts.Lifecycle.{Operation, Machine, is_operation_terminal, is_cleanup}
use agent_cloud.Store.{Allocation, State}
use agent_cloud.Journal.Prepare.{has_id}
use agent_cloud.Worker.Work.{is_machine, is_reservation}
use agent_cloud.Worker.Advance.{
  Tick, gather, cleanup_work, advance_reserved, advance_open, advance_found, advance_locked,
  advance_existing, advance_operation,
}
use agent_cloud.Worker.Frames.{WorkFrame}
use agent_cloud.Worker.Frames.Ticking.{advance_work-Respects}
use agent_cloud.Worker.Frames.Cleaning.{CleanupFrame, advance_cleanup-Respects}

-- The rows that a tick works on.
pub record Found (x : Tick) (s : State) : Type 0 where
  pub operation : Operation
  pub machine : Machine
  pub allocation : Allocation
  pub is_row : find (has_id x.operation_id) s.operations ≡ some operation
  pub is_open : is_operation_terminal operation ≡ false
  pub has_machine : find (is_machine operation.machine_id) s.machines ≡ some machine
  pub has_allocation : find (is_reservation machine.id) s.allocations ≡ some allocation

-- A tick does nothing, or it works on the rows that it has found.
abbrev pub Advances : Tick → State → Result ⊤ × State → Type 0
Advances x s r =
    (r.1 ≡ s) ⊎ ((f : Found x s) × (r ≡ advance_reserved x f.operation f.machine f.allocation s))

advance_open-Advances :
    (x : Tick) (operation : Operation) (s : State)
    → find (has_id x.operation_id) s.operations ≡ some operation
    → is_operation_terminal operation ≡ false
    → Advances x s (advance_open x operation s)
unfolding advance_open
advance_open-Advances x operation s row live =
    elim (Option-cases (find (is_machine operation.machine_id) s.machines)) [
      | inl e ↦ inl (rw e refl)
      | inr (machine, e) ↦ elim (Bool-cases (machine.provider == x.provider.kind)) [
        | inl p ↦ elim (Option-cases (find (is_reservation machine.id) s.allocations)) [
          | inl d ↦ inl (rw (e, p, d) refl)
          | inr (allocation, d) ↦ inr (
            record {
              operation = operation;
              machine = machine;
              allocation = allocation;
              is_row = row;
              is_open = live;
              has_machine = e;
              has_allocation = d;
            },
            rw (e, p, d) refl,
          )
        ]
        | inr p ↦ inl (rw (e, p) refl)
      ]
    ]

pub advance_operation-Advances : (x : Tick) (s : State) → Advances x s (advance_operation x s)
unfolding advance_operation advance_existing advance_locked advance_found
advance_operation-Advances x s = elim (Option-cases (find (has_id x.operation_id) s.operations)) [
  | inl e ↦ inl (rw e refl)
  | inr (operation, e) ↦ elim (Bool-cases (is_operation_terminal operation)) [
    | inl d ↦ inl (rw (e, e, d) refl)
    | inr d ↦ rw (e, e, d) (advance_open-Advances x operation s e d)
  ]
]

-- What holds of the writes of a tick holds of the work on the rows that it has found.
pub advance_reserved-related :
    {R Q : State → State → Type 0} (x : Tick) (operation : Operation) (machine : Machine)
    (allocation : Allocation) (s : State)
    → WorkFrame R Q (gather x operation machine allocation s)
    → CleanupFrame R Q (cleanup_work x operation allocation)
    → Q s (advance_reserved x operation machine allocation s).1
unfolding advance_reserved
advance_reserved-related x operation machine allocation s works cleans =
    elim (Bool-cases (is_cleanup operation.intent)) [
      | inl e ↦ rw e ((advance_cleanup-Respects _ cleans).at s)
      | inr e ↦ rw e ((advance_work-Respects _ works).at s)
    ]

-- What holds of the writes of a tick holds of the tick.
pub advance_operation-related :
    {R Q : State → State → Type 0} (x : Tick) (s : State)
    → Q s s
    → ((f : Found x s) → WorkFrame R Q (gather x f.operation f.machine f.allocation s))
    → ((f : Found x s) → CleanupFrame R Q (cleanup_work x f.operation f.allocation))
    → Q s (advance_operation x s).1
advance_operation-related {R} {Q} x s stay works cleans = elim (advance_operation-Advances x s) [
  | inl same ↦ subst (Q s) (sym same) stay
  | inr (f, went) ↦
      subst (λ (r : Result ⊤ × State). Q s r.1) (sym went)
        (advance_reserved-related x f.operation f.machine f.allocation s (works f) (cleans f))
]
