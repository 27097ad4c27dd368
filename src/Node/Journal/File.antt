-- ===== src/Node/Journal/File.antt =====
-- apps/supplier-node/src/replay-journal.ts: the maps and the file of a journal, its compaction and its
-- lines. The file is held as its lines without the empty ones, a line as the value that `JSON.parse`
-- gives for it.
use token_streaming.Common.{
  ℕ, suc, ◌+◌, ◌*◌, Bool, true, false, not, ◌&&◌, ◌||◌, Option, none, some, List, [], ◌∷◌, ◌++◌,
  map, ltb, leb, nat_eq, if◌then◌else◌,
}
use token_streaming.Common.Outcome.{Outcome, ok, err}
use token_streaming.Js.{natural}
use token_streaming.Js.Texts.{Text, text, text_eq}
use token_streaming.Js.Maps.{prune_map}
use token_streaming.Js.Json.{Json, str, num, object, field, end}
use token_streaming.Node.Journal.Records.{is_sha256}
use token_streaming.Node.Errors.{Thrown, coded, internal_error}

-- A line of the file; `unreadable` makes `JSON.parse` throw.
pub data Line : Type 0 where
  parsed : Json → Line
  unreadable : Line

-- What the node is given: its hash functions, in hexadecimal, the size of a line without its line
-- feed, the gateway token and the compaction interval.
pub record Setup : Type 0 where
  pub sha256 : Text → Text
  pub hmac : Text → Text → Text
  pub line_bytes : Line → ℕ
  pub gateway_token : Text
  pub compaction_interval : ℕ

pub record Entry : Type 0 where
  pub body_commitment : Text
  pub expires_at : ℕ

-- The object and its file.
pub record Journal : Type 0 where
  pub nonces : List (Text × ℕ)
  pub requests : List (Text × Entry)
  pub appended_since_compaction : ℕ
  pub last_compacted_at : ℕ
  pub terminal_failure : Bool
  pub file : List Line

-- `MAXIMUM_JOURNAL_BYTES`, `SIZE_COMPACTION_THRESHOLD_BYTES`
abbrev pub maximum_journal_bytes : ℕ
maximum_journal_bytes = 16 * 1024 * 1024

abbrev pub size_compaction_threshold_bytes : ℕ
size_compaction_threshold_bytes = 8 * 1024 * 1024

-- `APPEND_COMPACTION_THRESHOLD`
abbrev pub append_compaction_threshold : ℕ
append_compaction_threshold = 1_000

-- `replayProtectionUnavailable`
abbrev pub unavailable : Thrown
unavailable = coded (record { code = internal_error; status = 503; retryable = true })

-- `BODY_COMMITMENT_DOMAIN`
unfoldable pub body_commitment_domain : Text
unfolding text
body_commitment_domain = text "gongsuanyun.supplier-node.replay-body-commitment.v2" ++ 10 ∷ []

abbrev pub keyed_commitment : Setup → Text → Text
keyed_commitment s body_sha256 = s.hmac s.gateway_token (body_commitment_domain ++ body_sha256)

-- `createBodyCommitment`, `none` where it throws.
unfoldable pub create_body_commitment : Setup → Text → Option Text
create_body_commitment s body_sha256 =
    if is_sha256 body_sha256 then some (keyed_commitment s body_sha256) else none

-- The lines that the source stringifies.
unfoldable pub nonce_line : Text → ℕ → Line
unfolding text
nonce_line key expires_at = parsed (
    object (
      field (text "version") (num (natural 2)) (
        field (text "kind") (str (text "nonce")) (
          field (text "key") (str key) (field (text "expiresAt") (num (natural expires_at)) end)))))

unfoldable pub request_line : Text → Entry → Line
unfolding text
request_line key entry = parsed (
    object (
      field (text "version") (num (natural 2)) (
        field (text "kind") (str (text "request")) (
          field (text "key") (str key) (
            field (text "bodyCommitment") (str entry.body_commitment)
              (field (text "expiresAt") (num (natural entry.expires_at)) end))))))

-- The size of a file; each line ends by a line feed.
unfoldable pub file_bytes : Setup → List Line → ℕ
file_bytes s [] = 0
file_bytes s (line ∷ lines) = s.line_bytes line + 1 + file_bytes s lines

unfoldable pub prune_journal : ℕ → Journal → Journal
prune_journal now j = record j {
  nonces = prune_map (λ e. e) now j.nonces;
  requests = prune_map (λ (e : Entry). e.expires_at) now j.requests;
}

-- The lines that `compact` writes.
unfoldable pub journal_lines : Journal → List Line
journal_lines j =
    map (λ e. nonce_line (e.0) (e.1)) j.nonces ++ map (λ e. request_line (e.0) (e.1)) j.requests

-- How the disk takes a replacement of the file: by `replaced_badly` the new file is in its place and
-- a later call throws.
pub data Replacing : Type 0 where
  replaced not_replaced replaced_badly : Replacing

-- How the disk takes a line: `broken` throws and leaves some lines behind the old ones.
pub data Writing : Type 0 where
  written : Writing
  broken : List Line → Writing

-- How the disk takes the calls of one operation, in their order: whether `statSync` returns, and the
-- outcomes of a compaction before and after the line.
pub record Disk : Type 0 where
  pub first_stat : Bool
  pub first_compaction : Replacing
  pub second_stat : Bool
  pub writing : Writing
  pub last_stat : Bool
  pub last_compaction : Replacing

-- `compact`; `false` where it throws.
unfoldable pub compact : Setup → Replacing → ℕ → Journal → Journal × Bool
compact s disk now j =
    let pruned = prune_journal now j in
    let lines = journal_lines pruned in
    if ltb maximum_journal_bytes (file_bytes s lines) then (pruned, false) else elim disk [
      | replaced ↦ (
        record pruned { appended_since_compaction = 0; last_compacted_at = now; file = lines },
        true,
      )
      | not_replaced ↦ (pruned, false)
      | replaced_badly ↦ (record pruned { file = lines }, false)
    ]

-- `this.terminalFailure = error; throw replayProtectionUnavailable()`
abbrev pub fail_closed : Journal → Journal × Outcome Thrown (Unit {0})
fail_closed j = (record j { terminal_failure = true }, err unavailable)

-- `try { this.compact(nowMs) } catch`
abbrev pub guarded : Journal × Bool → Journal × Outcome Thrown (Unit {0})
guarded (j, true) = (j, ok tt)
guarded (j, false) = fail_closed j

unfoldable pub compact_now : Setup → Disk → ℕ → Journal → Journal × Outcome Thrown (Unit {0})
compact_now s disk now j =
    if j.terminal_failure
    then (j, err unavailable)
    else guarded (compact s disk.last_compaction now j)

-- The part of `append` that compares sizes; `false` where it throws.
unfoldable pub make_room : Setup → Disk → ℕ → Line → Journal → Journal × Bool
make_room s disk now line j =
    let fits = λ (k : Journal).
      not (ltb maximum_journal_bytes (file_bytes s k.file + (s.line_bytes line + 1))) in
    if fits j
    then (j, true)
    else (let (k, done) = compact s disk.first_compaction now j in
        (k, done && disk.second_stat && fits k))

-- The part of `append` that writes.
unfoldable pub write_line : Writing → Line → Journal → Journal × Outcome Thrown (Unit {0})
write_line written line j = (
  record j {
    file = j.file ++ line ∷ [];
    appended_since_compaction = suc j.appended_since_compaction;
  },
  ok tt,
)
write_line (broken left) line j = fail_closed (record j { file = j.file ++ left })

abbrev pub write_if : Writing → Line → Journal × Bool → Journal × Outcome Thrown (Unit {0})
write_if writing line (j, true) = write_line writing line j
write_if writing line (j, false) = fail_closed j

unfoldable pub append : Setup → Disk → ℕ → Line → Journal → Journal × Outcome Thrown (Unit {0})
append s disk now line j =
    if disk.first_stat
    then write_if disk.writing line (make_room s disk now line j)
    else fail_closed j

unfoldable pub maybe_compact_after_append :
    Setup → Disk → ℕ → Journal → Journal × Outcome Thrown (Unit {0})
maybe_compact_after_append s disk now j =
    if leb append_compaction_threshold j.appended_since_compaction
      || leb (j.last_compacted_at + s.compaction_interval) now
    then guarded (compact s disk.last_compaction now j)
    else if not disk.last_stat
    then fail_closed j
    else if leb size_compaction_threshold_bytes (file_bytes s j.file)
    then guarded (compact s disk.last_compaction now j)
    else (j, ok tt)
