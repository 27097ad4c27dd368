-- ===== src/Node/Journal/Events.antt =====
-- What happens to a journal and its file (apps/supplier-node/src/replay-journal.ts): claims,
-- compactions, and restarts of the node. A node that stops within an operation is one whose disk
-- refuses the rest of it, before a restart.
use token_streaming.Common.{ℕ, List, [], ◌∷◌}
use token_streaming.Js.Texts.{Text}
use token_streaming.Node.Journal.File.{Setup, Journal, Line, Replacing, Disk, compact_now}
use token_streaming.Node.Journal.{Host, up, down, claim_nonce, claim_request, open_journal}

pub data Event : Type 0 where
  nonce_claimed : Disk → (nonce : Text) → (expires_at now : ℕ) → Event
  request_claimed : Disk → (request_id body_sha256 : Text) → (expires_at now : ℕ) → Event
  compacted : Disk → (now : ℕ) → Event
  restarted : Replacing → (now : ℕ) → Event

abbrev pub event_time : Event → ℕ
event_time (nonce_claimed disk nonce expires_at now) = now
event_time (request_claimed disk request_id body_sha256 expires_at now) = now
event_time (compacted disk now) = now
event_time (restarted disk now) = now

abbrev pub host_file : Host → List Line
host_file (down file) = file
host_file (up j) = j.file

abbrev pub use_journal : Setup → Event → Journal → Journal
use_journal s (nonce_claimed disk nonce expires_at now) j =
    (claim_nonce s disk nonce expires_at now j).0
use_journal s (request_claimed disk request_id body_sha256 expires_at now) j =
    (claim_request s disk request_id body_sha256 expires_at now j).0
use_journal s (compacted disk now) j = (compact_now s disk now j).0
use_journal s (restarted disk now) j = j

abbrev pub step : Setup → Event → Host → Host
step s (restarted disk now) host = open_journal s disk now (host_file host)
step s event (down file) = down file
step s event (up j) = up (use_journal s event j)

abbrev pub run : Setup → List Event → Host → Host
run s [] host = host
run s (event ∷ events) host = run s events (step s event host)
