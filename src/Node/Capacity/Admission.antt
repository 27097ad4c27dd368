-- ===== src/Node/Capacity/Admission.antt =====
-- When a gate admits a request (apps/supplier-node/src/capacity.ts).
use token_streaming.Common.{
  ℕ, suc, ◌+◌, ◌≤◌, ◌≡◌, ◌↔◌, refl, sym, ap, false, ◌||◌, ◌⊎◌, inl, inr, [], ◌∷◌, ◌++◌, length, ltb,
  leb, Bool-cases, arith,
}
use token_streaming.Common.Outcome.{Outcome, ok, err}
use token_streaming.Node.Errors.{NodeError}
use token_streaming.Node.Capacity.{NodeLimits, Gate, prune, full, used_tokens, acquire}

-- The gate that a refusal leaves, and the one that an admission leaves.
abbrev pub pruned_gate : ℕ → Gate → Gate
pruned_gate now gate = record gate { entries = prune now gate.entries }

abbrev pub admitted_gate : ℕ → ℕ → Gate → Gate
admitted_gate estimated_tokens now gate = record {
  entries = prune now gate.entries ++ record { occurred_at = now; tokens = estimated_tokens } ∷ [];
  active = suc gate.active;
  leases = gate.leases ++ false ∷ [];
}

-- The request fits beside what the gate holds at the time.
pub record IsFree (limits : NodeLimits) (estimated_tokens now : ℕ) (gate : Gate) : Type 0 where
  pub parallel : suc gate.active ≤ limits.concurrency
  pub requests : suc (length (prune now gate.entries)) ≤ limits.requests_per_minute
  pub tokens : used_tokens (prune now gate.entries) + estimated_tokens ≤ limits.tokens_per_minute

-- A request is refused and leaves the gate pruned, or it fits and is admitted.
pub acquire-cases :
    (limits : NodeLimits) (estimated_tokens now : ℕ) (gate : Gate)
    → (acquire limits estimated_tokens now gate ≡ (pruned_gate now gate, err full))
      ⊎ (IsFree limits estimated_tokens now gate
          × (acquire limits estimated_tokens now gate
              ≡ (admitted_gate estimated_tokens now gate, ok (length gate.leases))))
unfolding acquire
acquire-cases limits estimated_tokens now gate =
    let kept = prune now gate.entries in
    elim (Bool-cases (leb limits.concurrency gate.active)) [
      | inl busy ↦ inl (rw busy refl)
      | inr free ↦
          elim (Bool-cases (
            leb limits.requests_per_minute (length kept)
            || ltb limits.tokens_per_minute (used_tokens kept + estimated_tokens))) [
              | inl spent ↦ inl (rw (free, spent) refl)
              | inr left ↦ inr (
                record { parallel = ground arith; requests = ground arith; tokens = ground arith },
                rw (free, left) refl,
              )
            ]
    ]

admitted-of_IsFree :
    (limits : NodeLimits) (estimated_tokens now : ℕ) (gate : Gate)
    → IsFree limits estimated_tokens now gate
    → acquire limits estimated_tokens now gate
      ≡ (admitted_gate estimated_tokens now gate, ok (length gate.leases))
unfolding acquire
admitted-of_IsFree limits estimated_tokens now gate free =
    let parallel = free.parallel in
    let requests = free.requests in
    let tokens = free.tokens in
    let kept = prune now gate.entries in
    let idle : leb limits.concurrency gate.active ≡ false = ground arith in
    let left : (leb limits.requests_per_minute (length kept)
          || ltb limits.tokens_per_minute (used_tokens kept + estimated_tokens))
        ≡ false =
      ground arith in
    rw (idle, left) refl

IsFree-of_admitted :
    (limits : NodeLimits) (estimated_tokens now lease : ℕ) (gate : Gate)
    → (acquire limits estimated_tokens now gate).1 ≡ ok lease
    → (lease ≡ length gate.leases) × IsFree limits estimated_tokens now gate
IsFree-of_admitted limits estimated_tokens now lease gate h =
    elim (acquire-cases limits estimated_tokens now gate) [
      | inl refused ↦ let bad = rw refused at h in cc
      | inr (free, admitted) ↦ let same = rw admitted at h in (ok_length lease same, free)
    ]
  where
    ok_length :
        (n : ℕ)
        → ◌≡◌ {A = Outcome NodeError ℕ} (ok (length gate.leases)) (ok n)
        → n ≡ length gate.leases
    ok_length n e = cc

-- A request is admitted exactly if a slot is free and, beside the entries that are not pruned, one more
-- request and its estimated tokens fit; the lease it gets is the next number.
pub acquire_iff :
    (limits : NodeLimits) (estimated_tokens now lease : ℕ) (gate : Gate)
    → ((acquire limits estimated_tokens now gate).1 ≡ ok lease)
      ↔ ((lease ≡ length gate.leases) × IsFree limits estimated_tokens now gate)
acquire_iff limits estimated_tokens now lease gate = (
  IsFree-of_admitted limits estimated_tokens now lease gate,
  λ (same, free). rw (admitted-of_IsFree limits estimated_tokens now gate free) (ap ok (sym same)),
)
