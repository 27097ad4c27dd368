-- ===== src/Node/Runtime/Leases.antt =====
-- The gate counts the running executions (apps/supplier-node/src/runtime.ts).
use token_streaming.Common.{
  ℕ, zero, suc, ◌≡◌, ◌≢◌, ◌∙◌, refl, sym, ap, subst, Bool, false, Option, some, List, [], ◌∷◌,
  arith,
}
use token_streaming.Node.Capacity.{NodeLimits, Gate, release, released_at, mark}
use token_streaming.Node.Requests.{InferenceRequest}
use token_streaming.Node.Executions.{
  Caller, Settlement, Execution, running, settled, execution_at, settle_at,
}
use token_streaming.Node.Runtime.Admitted.{
  running_count, Free, Leased, IsCounted, released_at-mark_other,
}

Leased-marked :
    (leases : List Bool) (lease : ℕ) (es : List Execution)
    → Free lease es
    → Leased leases es
    → Leased (mark leases lease) es
Leased-marked leases lease [] free held = tt
Leased-marked leases lease (running b q l ∷ es) (d, free) (at, apart, held) = (
  released_at-mark_other leases l lease (λ e. d (sym e)) at,
  apart,
  Leased-marked leases lease es free held,
)
Leased-marked leases lease (settled o ∷ es) free held = Leased-marked leases lease es free held

Free-settle_at :
    (lease : ℕ) (es : List Execution) (n : ℕ) (result : Settlement)
    → Free lease es
    → Free lease (settle_at es n result)
unfolding settle_at
Free-settle_at lease [] n result free = tt
Free-settle_at lease (running b q l ∷ es) zero result (d, free) = free
Free-settle_at lease (settled o ∷ es) zero result free = free
Free-settle_at lease (running b q l ∷ es) (suc n) result (d, free) =
    (d, Free-settle_at lease es n result free)
Free-settle_at lease (settled o ∷ es) (suc n) result free = Free-settle_at lease es n result free

Free-at :
    (k : ℕ) (es : List Execution) (n : ℕ) (caller : Caller) (request : InferenceRequest) (lease : ℕ)
    → Free k es
    → execution_at es n ≡ some (running caller request lease)
    → k ≢ lease
unfolding execution_at
Free-at k [] n caller request lease free h = cc
Free-at k (running b q l ∷ es) zero caller request lease (d, free) h =
    λ e. d (e ∙ sym (same_lease h))
  where
    same_lease :
        ◌≡◌ {A = Option Execution} (some (running b q l)) (some (running caller request lease))
        → l ≡ lease
    same_lease e = cc
Free-at k (settled o ∷ es) zero caller request lease free h = cc
Free-at k (running b q l ∷ es) (suc n) caller request lease (d, free) h =
    Free-at k es n caller request lease free h
Free-at k (settled o ∷ es) (suc n) caller request lease free h =
    Free-at k es n caller request lease free h

running_count-settle_at :
    (es : List Execution) (n : ℕ) (caller : Caller) (request : InferenceRequest) (lease : ℕ)
    (result : Settlement)
    → execution_at es n ≡ some (running caller request lease)
    → running_count es ≡ suc (running_count (settle_at es n result))
unfolding execution_at settle_at
running_count-settle_at [] n caller request lease result h = cc
running_count-settle_at (running b q l ∷ es) zero caller request lease result h = refl
running_count-settle_at (settled o ∷ es) zero caller request lease result h = cc
running_count-settle_at (running b q l ∷ es) (suc n) caller request lease result h =
    ap (λ k. suc k) (running_count-settle_at es n caller request lease result h)
running_count-settle_at (settled o ∷ es) (suc n) caller request lease result h =
    running_count-settle_at es n caller request lease result h

released_at-Leased :
    (leases : List Bool) (es : List Execution) (n : ℕ) (caller : Caller)
    (request : InferenceRequest) (lease : ℕ)
    → Leased leases es
    → execution_at es n ≡ some (running caller request lease)
    → released_at leases lease ≡ some false
unfolding execution_at
released_at-Leased leases [] n caller request lease held h = cc
released_at-Leased leases (running b q l ∷ es) zero caller request lease (at, free, held) h =
    let same : l ≡ lease = cc in subst (λ k. released_at leases k ≡ some false) same at
released_at-Leased leases (settled o ∷ es) zero caller request lease held h = cc
released_at-Leased leases (running b q l ∷ es) (suc n) caller request lease (at, free, held) h =
    released_at-Leased leases es n caller request lease held h
released_at-Leased leases (settled o ∷ es) (suc n) caller request lease held h =
    released_at-Leased leases es n caller request lease held h

Leased-settle_at :
    (leases : List Bool) (es : List Execution) (n : ℕ) (caller : Caller)
    (request : InferenceRequest) (lease : ℕ) (result : Settlement)
    → Leased leases es
    → execution_at es n ≡ some (running caller request lease)
    → Leased (mark leases lease) (settle_at es n result)
unfolding execution_at settle_at
Leased-settle_at leases [] n caller request lease result held h = cc
Leased-settle_at leases (running b q l ∷ es) zero caller request lease result (at, free, held) h =
    let same : l ≡ lease = cc in
    Leased-marked leases lease es (subst (λ k. Free k es) same free) held
Leased-settle_at leases (settled o ∷ es) zero caller request lease result held h = cc
Leased-settle_at leases (running b q l ∷ es) (suc n) caller request lease result (at, free, held)
      h =
    (
      released_at-mark_other leases l lease (Free-at l es n caller request lease free h) at,
      Free-settle_at l es n result free,
      Leased-settle_at leases es n caller request lease result held h,
    )
Leased-settle_at leases (settled o ∷ es) (suc n) caller request lease result held h =
    Leased-settle_at leases es n caller request lease result held h

-- To settle an execution releases its lease.
pub release-IsCounted :
    (limits : NodeLimits) (gate : Gate) (es : List Execution) (n : ℕ) (caller : Caller)
    (request : InferenceRequest) (lease : ℕ) (result : Settlement)
    → IsCounted limits gate es
    → execution_at es n ≡ some (running caller request lease)
    → IsCounted limits (release lease gate) (settle_at es n result)
unfolding release
release-IsCounted limits gate es n caller request lease result c h =
    rw (released_at-Leased gate.leases es n caller request lease (c.leased) h, release)
      (record {
        counted =
            let n1 = c.counted in
            let n2 = running_count-settle_at es n caller request lease result h in omega arith;
        parallel = let n1 = c.parallel in omega arith;
        leased = Leased-settle_at gate.leases es n caller request lease result (c.leased) h;
      })
