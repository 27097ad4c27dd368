-- ===== src/Node/Runtime/Admitted.antt =====
-- The leases of a node that admits an execution (apps/supplier-node/src/runtime.ts).
use token_streaming.Common.{
  ℕ, zero, suc, ◌+◌, ◌≤◌, ◌<◌, ◌≡◌, ◌≢◌, inl, inr, refl, ap, Bool, false, some, List, [], ◌∷◌, ◌++◌,
  length, arith,
}
use token_streaming.Node.Capacity.{NodeLimits, Gate, acquire, released_at, mark}
use token_streaming.Node.Capacity.Admission.{pruned_gate, acquire-cases}
use token_streaming.Node.Requests.{InferenceRequest}
use token_streaming.Node.Executions.{
  Caller, Settlement, Execution, running, settled, started_execution,
}

-- How many executions run.
abbrev pub running_count : List Execution → ℕ
running_count [] = 0
running_count (running caller request lease ∷ es) = suc (running_count es)
running_count (settled outcome ∷ es) = running_count es

-- No running execution holds the lease.
abbrev pub Free : ℕ → List Execution → Type 0
Free lease [] = Unit
Free lease (running caller request l ∷ es) = (lease ≢ l) × Free lease es
Free lease (settled outcome ∷ es) = Free lease es

-- Each running execution holds a lease of its own that is not released.
abbrev pub Leased : List Bool → List Execution → Type 0
Leased leases [] = Unit
Leased leases (running caller request lease ∷ es) =
    (released_at leases lease ≡ some false) × Free lease es × Leased leases es
Leased leases (settled outcome ∷ es) = Leased leases es

pub record IsCounted (limits : NodeLimits) (gate : Gate) (executions : List Execution)
    : Type 0 where
  pub counted : gate.active ≡ running_count executions
  pub parallel : gate.active ≤ limits.concurrency
  pub leased : Leased gate.leases executions

released_at-append :
    (leases more : List Bool) (n : ℕ)
    → released_at leases n ≡ some false
    → released_at (leases ++ more) n ≡ some false
unfolding released_at
released_at-append [] more n h = cc
released_at-append (b ∷ leases) more zero h = h
released_at-append (b ∷ leases) more (suc n) h = released_at-append leases more n h

released_at-last :
    (leases : List Bool) → released_at (leases ++ false ∷ []) (length leases) ≡ some false
unfolding released_at
released_at-last [] = refl
released_at-last (b ∷ leases) = released_at-last leases

released_at-below :
    (leases : List Bool) (n : ℕ) → released_at leases n ≡ some false → n < length leases
unfolding released_at
released_at-below [] n h = cc
released_at-below (b ∷ leases) zero h = omega arith
released_at-below (b ∷ leases) (suc n) h = let below = released_at-below leases n h in omega arith

pub released_at-mark_other :
    (leases : List Bool) (m n : ℕ)
    → m ≢ n
    → released_at leases m ≡ some false
    → released_at (mark leases n) m ≡ some false
unfolding released_at mark
released_at-mark_other [] m n differs h = cc
released_at-mark_other (b ∷ leases) zero zero differs h = absurd (differs refl)
released_at-mark_other (b ∷ leases) zero (suc n) differs h = h
released_at-mark_other (b ∷ leases) (suc m) zero differs h = h
released_at-mark_other (b ∷ leases) (suc m) (suc n) differs h =
    released_at-mark_other leases m n (λ e. differs (ap (λ k. suc k) e)) h

Leased-append :
    (leases more : List Bool) (es : List Execution) → Leased leases es → Leased (leases ++ more) es
Leased-append leases more [] held = tt
Leased-append leases more (running caller request lease ∷ es) (at, free, held) =
    (released_at-append leases more lease at, free, Leased-append leases more es held)
Leased-append leases more (settled outcome ∷ es) held = Leased-append leases more es held

Free-append :
    (lease : ℕ) (es : List Execution) (caller : Caller) (request : InferenceRequest) (l : ℕ)
    → Free lease es
    → lease ≢ l
    → Free lease (es ++ running caller request l ∷ [])
Free-append lease [] caller request l free differs = (differs, tt)
Free-append lease (running b q k ∷ es) caller request l (d, free) differs =
    (d, Free-append lease es caller request l free differs)
Free-append lease (settled outcome ∷ es) caller request l free differs =
    Free-append lease es caller request l free differs

Leased-running :
    (leases : List Bool) (es : List Execution) (caller : Caller) (request : InferenceRequest)
    → Leased leases es
    → Leased (leases ++ false ∷ []) (es ++ running caller request (length leases) ∷ [])
Leased-running leases [] caller request held = (released_at-last leases, tt, tt)
Leased-running leases (running b q k ∷ es) caller request (at, free, held) = (
  released_at-append leases (false ∷ []) k at,
  Free-append k es caller request (length leases) free
      (λ same. let below = released_at-below leases k at in absurd (omega arith)),
  Leased-running leases es caller request held,
)
Leased-running leases (settled outcome ∷ es) caller request held =
    Leased-running leases es caller request held

Leased-settled :
    (leases : List Bool) (es : List Execution) (outcome : Settlement)
    → Leased leases es
    → Leased leases (es ++ settled outcome ∷ [])
Leased-settled leases [] outcome held = tt
Leased-settled leases (running b q k ∷ es) outcome (at, free, held) =
    (at, Free-settled k es free, Leased-settled leases es outcome held)
  where
    Free-settled : (k : ℕ) (es : List Execution) → Free k es → Free k (es ++ settled outcome ∷ [])
    Free-settled k [] free = tt
    Free-settled k (running b q l ∷ es) (d, free) = (d, Free-settled k es free)
    Free-settled k (settled o ∷ es) free = Free-settled k es free
Leased-settled leases (settled o ∷ es) outcome held = Leased-settled leases es outcome held

running_count-append :
    (es fs : List Execution) → running_count (es ++ fs) ≡ running_count es + running_count fs
running_count-append [] fs = omega arith
running_count-append (running b q l ∷ es) fs = omega (arith, running_count-append es fs)
running_count-append (settled o ∷ es) fs = running_count-append es fs

-- An execution that is refused keeps the count.
pub rejected-IsCounted :
    (limits : NodeLimits) (gate : Gate) (es : List Execution) (outcome : Settlement)
    → IsCounted limits gate es
    → IsCounted limits gate (es ++ settled outcome ∷ [])
rejected-IsCounted limits gate es outcome c = record {
  counted = let n = c.counted in omega (arith, running_count-append es (settled outcome ∷ []));
  parallel = c.parallel;
  leased = Leased-settled gate.leases es outcome (c.leased);
}

-- To start an execution keeps the count.
pub acquire-IsCounted :
    (limits : NodeLimits) (estimated_tokens now : ℕ) (gate : Gate) (es : List Execution)
    (caller : Caller) (request : InferenceRequest)
    → IsCounted limits gate es
    → IsCounted limits
        ((acquire limits estimated_tokens now gate).0)
        (es ++ started_execution caller request ((acquire limits estimated_tokens now gate).1) ∷ [])
acquire-IsCounted limits estimated_tokens now gate es caller request c =
    elim (acquire-cases limits estimated_tokens now gate) [
      | inl refused ↦ rw refused (
          rejected-IsCounted limits (pruned_gate now gate) es _
            (record { counted = c.counted; parallel = c.parallel; leased = c.leased }))
      | inr (free, admitted) ↦ rw admitted (record {
        counted =
            let n = c.counted in
            omega
              (arith, running_count-append es (running caller request (length gate.leases) ∷ []));
        parallel = free.parallel;
        leased = Leased-running gate.leases es caller request (c.leased);
      })
    ]
