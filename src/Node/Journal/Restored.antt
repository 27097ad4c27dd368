-- ===== src/Node/Journal/Restored.antt =====
-- A journal that has not failed is restored by a restart (apps/supplier-node/src/replay-journal.ts).
use token_streaming.Common.{
  ℕ, ◌≤◌, ◌≡◌, ◌∙◌, refl, ap, subst, Bool, true, false, ◌||◌, Option, none, some, List, [], ◌∷◌,
  ltb, if-holds, arith,
}
use token_streaming.Js.{max_safe}
use token_streaming.Js.Maps.{prune_map}
use token_streaming.Js.Maps.Distinct.{prune_map-prune_map}
use token_streaming.Node.Journal.File.{
  Setup, Journal, Line, journal_lines, file_bytes, prune_journal, compact, Replacing, replaced,
  maximum_journal_bytes,
}
use token_streaming.Node.Journal.{
  Kept, Host, up, down, opened, started, loaded_journal, open_journal, load,
}
use token_streaming.Node.Journal.Reloading.{nonce_expiry, entry_expiry}
use token_streaming.Node.Journal.Sound.{IsSound, Finished, compact-IsSound, journal_lines-prune}
use token_streaming.Node.Journal.Formed.{load-IsFormed}
use token_streaming.Node.Journal.Upkeep.{
  claim_nonce-Healthy, claim_request-Healthy, compact_now-Healthy,
}
use token_streaming.Node.Journal.Events.{
  Event, nonce_claimed, request_claimed, compacted, restarted, event_time, host_file, step, run,
}
use token_streaming.Node.Journal.Accepted.{HexDigests}

-- The expiry that an event claims is a safe integer.
abbrev pub IsSafe : Event → Type 0
IsSafe (nonce_claimed disk nonce expires_at now) = expires_at ≤ max_safe
IsSafe (request_claimed disk request_id body_sha256 expires_at now) = expires_at ≤ max_safe
IsSafe (compacted disk now) = Unit
IsSafe (restarted disk now) = Unit

-- The clock does not go back.
abbrev pub IsTimely : ℕ → List Event → Type 0
IsTimely last [] = Unit
IsTimely last (event ∷ events) =
    (last ≤ event_time event) × IsSafe event × IsTimely (event_time event) events

abbrev pub last_time : ℕ → List Event → ℕ
last_time last [] = last
last_time last (event ∷ events) = last_time (event_time event) events

abbrev SoundHost : Setup → ℕ → Host → Type 0
SoundHost s now (down file) = Unit
SoundHost s now (up j) = j.terminal_failure ≡ false → IsSound s now j

-- What a restart makes of a journal.
abbrev pub restored : ℕ → Journal → Journal
restored now j = record {
  nonces = prune_map nonce_expiry now j.nonces;
  requests = prune_map entry_expiry now j.requests;
  appended_since_compaction = 0;
  last_compacted_at = now;
  terminal_failure = false;
  file = journal_lines (prune_journal now j);
}

module _ (s : Setup) (hex : HexDigests s) where
  opened-SoundHost :
      (now : ℕ) (r : Journal × Bool) → Finished (IsSound s now) r → SoundHost s now (opened r)
  opened-SoundHost now (j, true) sound = λ h. sound
  opened-SoundHost now (j, false) sound = tt

  started-SoundHost :
      (disk : Replacing) (now : ℕ) (file : List Line) (found : Option Kept)
      → load s now file ([], []) ≡ found
      → SoundHost s now (started s disk now file found)
  started-SoundHost disk now file none read = tt
  started-SoundHost disk now file (some kept) read =
      let (dn, dr, sn, sr) =
        load-IsFormed s now (hex.hmac) file ([], []) kept read (tt, tt, tt, tt) in
      opened-SoundHost now (compact s disk now (loaded_journal now file kept)) (
        compact-IsSound s disk now (loaded_journal now file kept) (record {
          nonces_distinct = dn;
          requests_distinct = dr;
          nonces_storable = sn;
          requests_storable = sr;
        }))

  open_journal-SoundHost :
      (disk : Replacing) (now : ℕ) (file : List Line)
      → SoundHost s now (open_journal s disk now file)
  unfolding open_journal
  open_journal-SoundHost disk now file =
      if-holds (SoundHost s now)
        (ltb s.compaction_interval 1_000
          || ltb 3_600_000 s.compaction_interval
          || ltb maximum_journal_bytes (file_bytes s file))
        _ _ (λ _. tt) (λ _. started-SoundHost disk now file (load s now file ([], [])) refl)

  step-SoundHost :
      (last : ℕ) (event : Event) (host : Host)
      → last ≤ event_time event
      → IsSafe event
      → SoundHost s last host
      → SoundHost s (event_time event) (step s event host)
  step-SoundHost last (restarted disk now) host le safe sound =
      open_journal-SoundHost disk now (host_file host)
  step-SoundHost last (nonce_claimed disk nonce e now) (down file) le safe sound = tt
  step-SoundHost last (request_claimed disk request_id body e now) (down file) le safe sound = tt
  step-SoundHost last (compacted disk now) (down file) le safe sound = tt
  step-SoundHost last (nonce_claimed disk nonce e now) (up j) le safe sound =
      claim_nonce-Healthy s hex last now le j sound disk nonce e safe
  step-SoundHost last (request_claimed disk request_id body e now) (up j) le safe sound =
      claim_request-Healthy s hex last now le j sound disk request_id body e safe
  step-SoundHost last (compacted disk now) (up j) le safe sound =
      compact_now-Healthy s hex last now le j sound disk

  run-SoundHost :
      (last : ℕ) (events : List Event) (host : Host)
      → IsTimely last events
      → SoundHost s last host
      → SoundHost s (last_time last events) (run s events host)
  run-SoundHost last [] host timely sound = sound
  run-SoundHost last (event ∷ events) host (le, safe, timely) sound =
      run-SoundHost (event_time event) events (step s event host) timely
        (step-SoundHost last event host le safe sound)

  compact_fits :
      (now : ℕ) (j : Journal)
      → file_bytes s (journal_lines (prune_journal now j)) ≤ maximum_journal_bytes
      → compact s replaced now j ≡ (
        record (prune_journal now j) {
          appended_since_compaction = 0;
          last_compacted_at = now;
          file = journal_lines (prune_journal now j);
        },
        true,
      )
  unfolding compact
  compact_fits now j small =
      let fits : ltb maximum_journal_bytes (file_bytes s (journal_lines (prune_journal now j)))
          ≡ false =
        ground arith in
      rw fits refl

  reloaded : ℕ → Journal → Journal
  reloaded t k =
      loaded_journal t k.file
        (prune_map nonce_expiry t k.nonces, prune_map entry_expiry t k.requests)

  prune_journal-reloaded : (t : ℕ) (k : Journal) → prune_journal t (reloaded t k) ≡ reloaded t k
  unfolding prune_journal reloaded
  prune_journal-reloaded t k =
      ap
        (λ n.
          loaded_journal t k.file
            (n, prune_map entry_expiry t (prune_map entry_expiry t k.requests)))
        (prune_map-prune_map nonce_expiry t t k.nonces (omega arith))
      ∙ ap (λ r. loaded_journal t k.file (prune_map nonce_expiry t k.nonces, r))
          (prune_map-prune_map entry_expiry t t k.requests (omega arith))

  journal_lines-reloaded :
      (t : ℕ) (k : Journal) → journal_lines (reloaded t k) ≡ journal_lines (prune_journal t k)
  unfolding journal_lines prune_journal reloaded
  journal_lines-reloaded t k = refl

  compact_pruned :
      (t : ℕ) (k : Journal)
      → file_bytes s (journal_lines k) ≤ maximum_journal_bytes
      → compact s replaced t (reloaded t k) ≡ (restored t k, true)
  unfolding reloaded
  compact_pruned t k small =
      let same = prune_journal-reloaded t k in
      let lines = ap journal_lines same ∙ journal_lines-reloaded t k in
      let less = journal_lines-prune s t k in
      compact_fits t (reloaded t k) (rw lines (omega arith))
      ∙ ap
          (λ (j : Journal). (
            record j {
              appended_since_compaction = 0;
              last_compacted_at = t;
              file = journal_lines j;
            },
            true,
          ))
          same
      ∙ ap
          (λ l. (
            record (reloaded t k) {
              appended_since_compaction = 0;
              last_compacted_at = t;
              file = l;
            },
            true,
          ))
          (journal_lines-reloaded t k)

  module _ (start : List Line) (disk : Replacing) (first : ℕ) (events : List Event)
      (k : Journal) where
    running-IsSound :
        IsTimely first events
        → run s events (open_journal s disk first start) ≡ up k
        → k.terminal_failure ≡ false
        → IsSound s (last_time first events) k
    running-IsSound timely reached healthy =
        let sound =
          run-SoundHost first events (open_journal s disk first start) timely
            (open_journal-SoundHost disk first start) in
        subst (SoundHost s (last_time first events)) reached sound healthy

    -- A running journal that has not failed keeps its file within 16 MiB, and the file says what the
    -- maps hold: whatever file the node started on, whatever claims, compactions and restarts came,
    -- however the disk took them, to load the file at any time from the last event on gives the live
    -- nonces and the live requests of the maps, in their order. (The clock does not go back, the
    -- expiries are safe integers, and digests are 64 hexadecimal digits.)
    pub running_file :
        (t : ℕ)
        → IsTimely first events
        → run s events (open_journal s disk first start) ≡ up k
        → k.terminal_failure ≡ false
        → last_time first events ≤ t
        → (file_bytes s k.file ≤ maximum_journal_bytes)
          × (load s t k.file ([], [])
              ≡ some (prune_map nonce_expiry t k.nonces, prune_map entry_expiry t k.requests))
    running_file t timely reached healthy until =
        let sound = running-IsSound timely reached healthy in (sound.bounded, sound.mirrors t until)

    -- Such a journal can always be restarted: where the interval is one that the constructor takes and
    -- the disk takes the new file, a restart at any time from the last event on succeeds, and gives
    -- the live entries of the maps, with a file of just these.
    pub open_journal_restores :
        (t : ℕ)
        → 1_000 ≤ s.compaction_interval
        → s.compaction_interval ≤ 3_600_000
        → IsTimely first events
        → run s events (open_journal s disk first start) ≡ up k
        → k.terminal_failure ≡ false
        → last_time first events ≤ t
        → open_journal s replaced t k.file ≡ up (restored t k)
    unfolding open_journal reloaded
    open_journal_restores t long short timely reached healthy until =
        let sound = running-IsSound timely reached healthy in
        let valid : (ltb s.compaction_interval 1_000
              || ltb 3_600_000 s.compaction_interval
              || ltb maximum_journal_bytes (file_bytes s k.file))
            ≡ false =
          let bounded = sound.bounded in ground arith in
        rw (valid, sound.mirrors t until)
          (ap opened
            (compact_pruned t k (let a = sound.covered in let b = sound.bounded in omega arith)))
