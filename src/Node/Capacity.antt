-- ===== src/Node/Capacity.antt =====
-- apps/supplier-node/src/capacity.ts: the gate of a node. The release function that `acquire` returns
-- is the number of a lease; `leases` holds the variable `released` of each.
pub mod Admission
pub mod Counts
pub mod Minutes
pub mod Window
use token_streaming.Common.{
  ℕ, zero, suc, ◌+◌, ◌-◌, Bool, true, false, ◌||◌, Option, none, some, List, [], ◌∷◌, ◌++◌, length,
  ltb, leb, if◌then◌else◌,
}
use token_streaming.Common.Outcome.{Outcome, ok, err}
use token_streaming.Node.Errors.{NodeError, capacity_exceeded}

pub record CapacityEntry : Type 0 where
  pub occurred_at : ℕ
  pub tokens : ℕ

-- The parameters of the constructor.
pub record NodeLimits : Type 0 where
  pub requests_per_minute : ℕ
  pub tokens_per_minute : ℕ
  pub concurrency : ℕ

pub record Gate : Type 0 where
  pub entries : List CapacityEntry
  pub active : ℕ
  pub leases : List Bool

-- A new gate.
abbrev pub closed_gate : Gate
closed_gate = record { entries = []; active = 0; leases = [] }

-- `occurredAt <= nowMs - 60_000`
abbrev pub is_expired : ℕ → CapacityEntry → Bool
is_expired now entry = leb (entry.occurred_at + 60_000) now

unfoldable pub prune : ℕ → List CapacityEntry → List CapacityEntry
prune now [] = []
prune now (entry ∷ entries) =
    let rest = prune now entries in if is_expired now entry then rest else entry ∷ entries

-- `entries.reduce((sum, entry) => sum + entry.tokens, 0)`
abbrev pub used_tokens : List CapacityEntry → ℕ
used_tokens [] = 0
used_tokens (entry ∷ entries) = entry.tokens + used_tokens entries

abbrev pub full : NodeError
full = record { code = capacity_exceeded; status = 429; retryable = true }

-- The entries are pruned whether or not the request is admitted.
unfoldable pub acquire : NodeLimits → ℕ → ℕ → Gate → Gate × Outcome NodeError ℕ
acquire limits estimated_tokens now gate =
    let entries = prune now gate.entries in
    if leb limits.concurrency gate.active
    then (record gate { entries = entries }, err full)
    else if leb limits.requests_per_minute (length entries)
        || ltb limits.tokens_per_minute (used_tokens entries + estimated_tokens)
    then (record gate { entries = entries }, err full)
    else (
      record {
        entries = entries ++ record { occurred_at = now; tokens = estimated_tokens } ∷ [];
        active = suc gate.active;
        leases = gate.leases ++ false ∷ [];
      },
      ok (length gate.leases),
    )

-- `released` of a lease; `none` where there is no such lease.
unfoldable pub released_at : List Bool → ℕ → Option Bool
released_at [] n = none
released_at (b ∷ leases) zero = some b
released_at (b ∷ leases) (suc n) = released_at leases n

unfoldable pub mark : List Bool → ℕ → List Bool
mark [] n = []
mark (b ∷ leases) zero = true ∷ leases
mark (b ∷ leases) (suc n) = b ∷ mark leases n

-- The function that `acquire` returns, for the lease of a number.
unfoldable pub release : ℕ → Gate → Gate
release lease gate = elim (released_at gate.leases lease) [
  | none ↦ gate
  | some true ↦ gate
  | some false ↦ record gate { active = gate.active - 1; leases = mark gate.leases lease }
]

-- What a node does with its gate.
pub data Use : Type 0 where
  acquired : (estimated_tokens now : ℕ) → Use
  released : (lease : ℕ) → Use

abbrev pub use_gate : NodeLimits → Use → Gate → Gate
use_gate limits (acquired estimated_tokens now) gate = (acquire limits estimated_tokens now gate).0
use_gate limits (released lease) gate = release lease gate

abbrev pub run_gate : NodeLimits → List Use → Gate → Gate
run_gate limits [] gate = gate
run_gate limits (u ∷ uses) gate = run_gate limits uses (use_gate limits u gate)
