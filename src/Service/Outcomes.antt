-- ===== src/Service/Outcomes.antt =====
-- How a call of internal/workflow/service.go ends: what a refusal and what a change leave.
use relay_flow.Prelude.{String, Result, ok, err, lookup, ◌≡◌, inl}
use relay_flow.Registry.{Entries}
use relay_flow.Registry.Laws.{IsKeyed}
use relay_flow.Store.Disk.{Disk, FileSnapshot, rollback_failed, Ran}
use relay_flow.Store.Recovery.{Ends}
use relay_flow.Store.Crashes.{Settles, IsFinal}
use relay_flow.Store.Replace.{Either, AfterFailure}
use relay_flow.Service.{ServiceError, storage, rollback_incomplete, Ports, State, Reply}
use relay_flow.Service.Bindings.{Synced}

-- The disk after a refusal: the old pair, unless a rollback failed.
abbrev pub AfterRefusal : FileSnapshot → FileSnapshot → ServiceError → Disk → Type 0
AfterRefusal old new (storage e) d = AfterFailure old new e d
AfterRefusal old new (rollback_incomplete e files bindings) d = Either old new d
AfterRefusal old new _ d = Settles old d

abbrev pub IsRolledBack : ServiceError → Type 0
IsRolledBack (rollback_incomplete e files bindings) = ⊥
IsRolledBack _ = Unit

pub Settles-AfterRefusal :
    (old new : FileSnapshot) (e : ServiceError) (d : Disk)
    → Settles old d
    → AfterRefusal old new e d
Settles-AfterRefusal old new (storage (rollback_failed c e)) d h = inl h
Settles-AfterRefusal old new (rollback_incomplete e files bindings) d h = inl h
Settles-AfterRefusal old new _ d h = h

pub AfterRefusal-Either :
    (old new : FileSnapshot) (e : ServiceError) (d : Disk)
    → AfterRefusal old new e d
    → Either old new d
AfterRefusal-Either old new (storage (rollback_failed c e)) d h = h
AfterRefusal-Either old new (rollback_incomplete e files bindings) d h = h
AfterRefusal-Either old new _ d h = inl h

-- The same workflows under the same names.
abbrev pub SameEntries : Entries → Entries → Type 0
SameEntries m m' = (n : String) → lookup n m' ≡ lookup n m

-- What a refusal leaves of the memory.
pub record Undone (p : Ports) (st : State) (e : ServiceError) (st' : State) : Type 0 where
  pub entries : SameEntries st.registry st'.registry
  pub keyed : IsKeyed st'.registry
  pub synced : Synced p.wired st → IsRolledBack e → Synced p.wired st'

pub record Refused (p : Ports) (st : State) (old new : FileSnapshot) (e : ServiceError)
    (st' : State) (d : Disk) : Type 0 where
  pub memory : Undone p st e st'
  pub disk : AfterRefusal old new e d

pub record Committed (p : Ports) (st : State) (forth : Entries → Entries) (new : FileSnapshot)
    (st' : State) (d : Disk) : Type 0 where
  pub entries : st'.registry ≡ forth st.registry
  pub keyed : IsKeyed st'.registry
  pub synced : Synced p.wired st'
  pub disk : IsFinal new d

-- How a call of the service ends.
abbrev pub Replied :
    {A : Type 0}
    → Ports
    → State
    → (Entries → Entries)
    → FileSnapshot
    → FileSnapshot
    → A
    → Result ServiceError A
    → State
    → Disk
    → Type 0
Replied p st forth old new a (ok b) st' d = (b ≡ a) × Committed p st forth new st' d
Replied p st forth old new a (err e) st' d = Refused p st old new e st' d

abbrev pub Answers :
    {A : Type 0}
    → Ports
    → State
    → (Entries → Entries)
    → FileSnapshot
    → FileSnapshot
    → A
    → Ran (Reply A)
    → Type 0
Answers p st forth old new a =
    Ends (λ r d. Replied p st forth old new a r.result r.state d) (λ e d. ⊥) (Either old new)
