-- ===== src/Node/Journal/Remembered.antt =====
-- What a journal has accepted is not accepted again (apps/supplier-node/src/replay-journal.ts).
use token_streaming.Common.{
  ℕ, ◌≤◌, ◌≡◌, refl, Bool, true, false, ◌||◌, Option, none, some, List, [], ◌∷◌, Memᴰ, All, ltb,
  if-holds,
}
use token_streaming.Node.Journal.File.{
  Setup, Journal, Line, Replacing, compact, maximum_journal_bytes, file_bytes,
}
use token_streaming.Node.Journal.{
  Kept, Host, up, down, opened, load, open_journal, started, loaded_journal,
}
use token_streaming.Node.Journal.Keeping.{Claim, claim_expiry, claim_line, Keeps, compact-Keeps}
use token_streaming.Node.Journal.Loading.{IsStorable, load-claim}
use token_streaming.Node.Journal.Events.{
  Event, nonce_claimed, request_claimed, compacted, restarted, event_time, host_file, step, run,
}
use token_streaming.Node.Journal.Claims.{claim_nonce-Keeps, claim_request-Keeps, compact_now-Keeps}

-- The claim is known, or will be after a restart.
abbrev pub Remembers : Claim → Host → Type 0
Remembers claim (down file) = Memᴰ (claim_line claim) file
Remembers claim (up j) = Keeps claim j

module _ (s : Setup) (claim : Claim) (storable : IsStorable claim) where
  opened-Remembers :
      (j : Journal) (done : Bool) → Keeps claim j → Remembers claim (opened (j, done))
  opened-Remembers j true keeps = keeps
  opened-Remembers j false keeps = keeps.filed

  pub open_journal-Remembers :
      (disk : Replacing) (now : ℕ) (file : List Line)
      → now ≤ claim_expiry claim
      → Memᴰ (claim_line claim) file
      → Remembers claim (open_journal s disk now file)
  unfolding open_journal
  open_journal-Remembers disk now file live m =
      if-holds (Remembers claim)
        (ltb s.compaction_interval 1_000
          || ltb 3_600_000 s.compaction_interval
          || ltb maximum_journal_bytes (file_bytes s file))
        _ _ (λ _. m) (λ _. go (load s now file ([], [])) refl)
    where
      go :
          (found : Option Kept)
          → load s now file ([], []) ≡ found
          → Remembers claim (started s disk now file found)
      go none read = m
      go (some kept) read =
          let j = loaded_journal now file kept in
          opened-Remembers ((compact s disk now j).0) ((compact s disk now j).1) (
            compact-Keeps s claim now live disk j (record {
              held = load-claim s now file claim ([], []) kept storable live m read;
              filed = m;
            }))

  host_file-Memᴰ : (host : Host) → Remembers claim host → Memᴰ (claim_line claim) (host_file host)
  host_file-Memᴰ (down file) m = m
  host_file-Memᴰ (up j) keeps = keeps.filed

  step-Remembers :
      (event : Event) (host : Host)
      → event_time event ≤ claim_expiry claim
      → Remembers claim host
      → Remembers claim (step s event host)
  step-Remembers (restarted disk now) host live m =
      open_journal-Remembers disk now (host_file host) live (host_file-Memᴰ host m)
  step-Remembers (nonce_claimed disk nonce e now) (down file) live m = m
  step-Remembers (request_claimed disk request_id body e now) (down file) live m = m
  step-Remembers (compacted disk now) (down file) live m = m
  step-Remembers (nonce_claimed disk nonce e now) (up j) live keeps =
      claim_nonce-Keeps s claim now live disk nonce e j keeps
  step-Remembers (request_claimed disk request_id body e now) (up j) live keeps =
      claim_request-Keeps s claim now live disk request_id body e j keeps
  step-Remembers (compacted disk now) (up j) live keeps =
      compact_now-Keeps s claim now live disk j keeps

  pub run-Remembers :
      (events : List Event) (host : Host)
      → All (λ event. event_time event ≤ claim_expiry claim) events
      → Remembers claim host
      → Remembers claim (run s events host)
  run-Remembers [] host lives m = m
  run-Remembers (event ∷ events) host lives m =
      run-Remembers events (step s event host) (lives.1) (step-Remembers event host (lives.0) m)
