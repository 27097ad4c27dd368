-- ===== src/Node/Journal/Keeping.antt =====
-- A claim that lies in the maps and in the file stays there while it is live
-- (apps/supplier-node/src/replay-journal.ts).
use token_streaming.Common.{
  ℕ, ◌+◌, ◌≤◌, ◌≡◌, ◌≢◌, ◌∙◌, ap, Bool, true, false, not, ◌||◌, some, if◌then◌else◌, Memᴰ,
  Bool-cases, inl, inr, ltb, leb, sym,
}
use mathlib.Core.List.Memᴰ
use token_streaming.Common.Outcome.{Outcome, ok, err}
use token_streaming.Js.Texts.{Text}
use token_streaming.Js.Maps.{lookup, prune_map, lookup-set_other, lookup-prune_map, lookup-Memᴰ}
use token_streaming.Node.Errors.{Thrown}
use token_streaming.Node.Journal.File.{
  Setup, Entry, Journal, Line, nonce_line, request_line, journal_lines, prune_journal, compact,
  Replacing, replaced, not_replaced, replaced_badly, maximum_journal_bytes, file_bytes, guarded,
  Disk, Writing, written, broken, make_room, write_if, write_line, append,
  maybe_compact_after_append, append_compaction_threshold, size_compaction_threshold_bytes,
  fail_closed,
}
use token_streaming.Node.Journal.{Kept, keep_nonce, keep_request, then_keep}

-- A claim, as it is kept and written.
pub data Claim : Type 0 where
  nonce_claim : (key : Text) → (expires_at : ℕ) → Claim
  request_claim : (key : Text) → Entry → Claim

abbrev pub claim_expiry : Claim → ℕ
claim_expiry (nonce_claim key expires_at) = expires_at
claim_expiry (request_claim key entry) = entry.expires_at

abbrev pub claim_line : Claim → Line
claim_line (nonce_claim key expires_at) = nonce_line key expires_at
claim_line (request_claim key entry) = request_line key entry

-- The maps hold the claim.
abbrev pub Holds : Claim → Kept → Type 0
Holds (nonce_claim key expires_at) kept = lookup key kept.0 ≡ some expires_at
Holds (request_claim key entry) kept = lookup key kept.1 ≡ some entry

abbrev pub maps : Journal → Kept
maps j = (j.nonces, j.requests)

pub record Keeps (claim : Claim) (j : Journal) : Type 0 where
  pub held : Holds claim (maps j)
  pub filed : Memᴰ (claim_line claim) j.file

Memᴰ-journal_lines :
    (claim : Claim) (j : Journal) → Holds claim (maps j) → Memᴰ (claim_line claim) (journal_lines j)
unfolding journal_lines
Memᴰ-journal_lines (nonce_claim key expires_at) j h =
    Memᴰ.append_left _
      (Memᴰ.map (λ e. nonce_line (e.0) (e.1)) (lookup-Memᴰ key expires_at j.nonces h))
Memᴰ-journal_lines (request_claim key entry) j h =
    Memᴰ.append_right _
      (Memᴰ.map (λ e. request_line (e.0) (e.1)) (lookup-Memᴰ key entry j.requests h))

pub keep_nonce-Keeps :
    (claim : Claim) (key : Text) (expires_at : ℕ) (j : Journal)
    → ((e : ℕ) → claim ≢ nonce_claim key e)
    → Keeps claim j
    → Keeps claim (keep_nonce key expires_at j)
keep_nonce-Keeps (nonce_claim k e) key expires_at j differs keeps = record {
  held =
      lookup-set_other key k expires_at j.nonces
        (λ same. differs e (ap (λ t. nonce_claim t e) (sym same)))
      ∙ keeps.held;
  filed = keeps.filed;
}
keep_nonce-Keeps (request_claim k e) key expires_at j differs keeps = record {
  held = keeps.held;
  filed = keeps.filed;
}

pub keep_request-Keeps :
    (claim : Claim) (key : Text) (entry : Entry) (j : Journal)
    → ((e : Entry) → claim ≢ request_claim key e)
    → Keeps claim j
    → Keeps claim (keep_request key entry j)
keep_request-Keeps (nonce_claim k e) key entry j differs keeps = record {
  held = keeps.held;
  filed = keeps.filed;
}
keep_request-Keeps (request_claim k e) key entry j differs keeps = record {
  held =
      lookup-set_other key k entry j.requests
        (λ same. differs e (ap (λ t. request_claim t e) (sym same)))
      ∙ keeps.held;
  filed = keeps.filed;
}

module _ (s : Setup) (claim : Claim) (now : ℕ) (live : now ≤ claim_expiry claim) where
  pub prune_journal-Keeps : (j : Journal) → Keeps claim j → Keeps claim (prune_journal now j)
  unfolding prune_journal
  prune_journal-Keeps j keeps = record { held = held claim live (keeps.held); filed = keeps.filed }
    where
      held :
          (c : Claim)
          → now ≤ claim_expiry c
          → Holds c (maps j)
          → Holds c (
            prune_map (λ e. e) now j.nonces,
            prune_map (λ (e : Entry). e.expires_at) now j.requests,
          )
      held (nonce_claim k e) alive h = lookup-prune_map (λ n. n) now k e j.nonces alive h
      held (request_claim k e) alive h =
          lookup-prune_map (λ (n : Entry). n.expires_at) now k e j.requests alive h

  pub compact-Keeps :
      (disk : Replacing) (j : Journal) → Keeps claim j → Keeps claim (compact s disk now j).0
  unfolding compact
  compact-Keeps disk j keeps =
      let pruned = prune_journal-Keeps j keeps in
      let lines = journal_lines (prune_journal now j) in
      elim (Bool-cases (ltb maximum_journal_bytes (file_bytes s lines))) [
        | inl large ↦ rw large pruned
        | inr fits ↦
            rw fits (go disk pruned (Memᴰ-journal_lines claim (prune_journal now j) (pruned.held)))
      ]
    where
      after : Replacing → Journal × Bool
      after replaced = (
        record (prune_journal now j) {
          appended_since_compaction = 0;
          last_compacted_at = now;
          file = journal_lines (prune_journal now j);
        },
        true,
      )
      after not_replaced = (prune_journal now j, false)
      after replaced_badly =
          (record (prune_journal now j) { file = journal_lines (prune_journal now j) }, false)

      go :
          (disk : Replacing)
          → Keeps claim (prune_journal now j)
          → Memᴰ (claim_line claim) (journal_lines (prune_journal now j))
          → Keeps claim (after disk).0
      go replaced pruned m = record { held = pruned.held; filed = m }
      go not_replaced pruned m = pruned
      go replaced_badly pruned m = record { held = pruned.held; filed = m }

  pub guarded-Keeps :
      (j : Journal) (done : Bool) → Keeps claim j → Keeps claim (guarded (j, done)).0
  guarded-Keeps j true keeps = keeps
  guarded-Keeps j false keeps = record { held = keeps.held; filed = keeps.filed }

  make_room-Keeps :
      (disk : Disk) (line : Line) (j : Journal)
      → Keeps claim j
      → Keeps claim (make_room s disk now line j).0
  unfolding make_room
  make_room-Keeps disk line j keeps =
      elim (Bool-cases
        (not (ltb maximum_journal_bytes (file_bytes s j.file + (s.line_bytes line + 1))))) [
          | inl fits ↦ rw fits keeps
          | inr full ↦ rw full (compact-Keeps disk.first_compaction j keeps)
        ]

  write_if-Keeps :
      (writing : Writing) (line : Line) (j : Journal) (room : Bool)
      → Keeps claim j
      → Keeps claim (write_if writing line (j, room)).0
  unfolding write_line
  write_if-Keeps written line j true keeps = record {
    held = keeps.held;
    filed = Memᴰ.append_left _ (keeps.filed);
  }
  write_if-Keeps (broken left) line j true keeps = record {
    held = keeps.held;
    filed = Memᴰ.append_left _ (keeps.filed);
  }
  write_if-Keeps writing line j false keeps = record { held = keeps.held; filed = keeps.filed }

  pub append-Keeps :
      (disk : Disk) (line : Line) (j : Journal)
      → Keeps claim j
      → Keeps claim (append s disk now line j).0
  unfolding append
  append-Keeps disk line j keeps =
      elim disk.first_stat
        as (λ b.
          Keeps claim
            (if b
              then write_if disk.writing line (make_room s disk now line j)
              else fail_closed j).0) [
                | true ↦
                    write_if-Keeps disk.writing line ((make_room s disk now line j).0)
                      ((make_room s disk now line j).1) (make_room-Keeps disk line j keeps)
                | false ↦ record { held = keeps.held; filed = keeps.filed }
              ]

  pub maybe_compact_after_append-Keeps :
      (disk : Disk) (j : Journal)
      → Keeps claim j
      → Keeps claim (maybe_compact_after_append s disk now j).0
  unfolding maybe_compact_after_append
  maybe_compact_after_append-Keeps disk j keeps =
      let compacted =
        guarded-Keeps ((compact s disk.last_compaction now j).0)
          ((compact s disk.last_compaction now j).1) (compact-Keeps disk.last_compaction j keeps) in
      elim (Bool-cases (
        leb append_compaction_threshold j.appended_since_compaction
        || leb (j.last_compacted_at + s.compaction_interval) now)) [
          | inl due ↦ rw due compacted
          | inr later ↦ rw later (elim (Bool-cases disk.last_stat) [
            | inl reads ↦
                rw reads
                  (elim (Bool-cases (leb size_compaction_threshold_bytes (file_bytes s j.file))) [
                    | inl large ↦ rw large compacted
                    | inr small ↦ rw small keeps
                  ])
            | inr fails ↦ rw fails (record { held = keeps.held; filed = keeps.filed })
          ])
        ]

  pub then_keep-Keeps :
      (disk : Disk) (keep : Journal → Journal) (j : Journal) (out : Outcome Thrown (Unit {0}))
      → ((k : Journal) → Keeps claim k → Keeps claim (keep k))
      → Keeps claim j
      → Keeps claim (then_keep s disk now keep (j, out)).0
  then_keep-Keeps disk keep j (ok u) kept keeps =
      maybe_compact_after_append-Keeps disk (keep j) (kept j keeps)
  then_keep-Keeps disk keep j (err e) kept keeps = keeps
