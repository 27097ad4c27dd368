-- ===== src/Node/Tests.antt =====
-- Runs of the capacity gate, and the theorems at inputs (apps/supplier-node/src/capacity.ts).
use token_streaming.Common.{◌≤◌, ◌≡◌, ◌↔◌, refl, false, true, List, [], ◌∷◌, length, arith}
use token_streaming.Common.Outcome.{ok}
use token_streaming.Node.Capacity.{
  NodeLimits, Gate, closed_gate, prune, acquire, released_at, mark, release, Use, acquired,
  released, run_gate,
}
use token_streaming.Node.Capacity.Counts.{IsWithinNode, run_gate-IsWithinNode}
use token_streaming.Node.Capacity.Admission.{IsFree, acquire_iff}
use token_streaming.Node.Capacity.Minutes.{minute_requests, minute_tokens}
use token_streaming.Node.Capacity.Window.{admissions, admissions_within_minute}

abbrev limits : NodeLimits
limits = record { requests_per_minute = 2; tokens_per_minute = 100; concurrency = 2 }

-- The third request finds the gate full, the fourth finds the minute over.
abbrev day : List Use
day =
    acquired 40 1_000
    ∷ acquired 50 2_000
    ∷ acquired 5 3_000
    ∷ released 0
    ∷ released 0
    ∷ acquired 60 61_000
    ∷ []

abbrev after_day : Gate
after_day = record {
  entries = record { occurred_at = 2_000; tokens = 50 } ∷ [];
  active = 1;
  leases = true ∷ false ∷ [];
}

day_ends : run_gate limits day closed_gate ≡ after_day
unfolding prune acquire released_at mark release
day_ends = refl

day_admits : length (admissions limits day closed_gate) ≡ 2
unfolding prune acquire released_at mark release
day_admits = refl

run_gate-IsWithinNode_example : IsWithinNode limits (run_gate limits day closed_gate)
run_gate-IsWithinNode_example = run_gate-IsWithinNode limits day

acquire_iff_example :
    ((acquire limits 50 61_500 after_day).1 ≡ ok 2)
    ↔ ((2 ≡ length after_day.leases) × IsFree limits 50 61_500 after_day)
acquire_iff_example = acquire_iff limits 50 61_500 2 after_day

admissions_within_minute_example :
    (minute_requests 60_500 (admissions limits day closed_gate) ≤ 2)
    × (minute_tokens 60_500 (admissions limits day closed_gate) ≤ 100)
admissions_within_minute_example =
    admissions_within_minute limits day 1_000 60_500
      (omega arith, (omega arith, (omega arith, (omega arith, tt))))
