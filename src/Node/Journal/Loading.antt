-- ===== src/Node/Journal/Loading.antt =====
-- What `load` reads back from the file (apps/supplier-node/src/replay-journal.ts).
use token_streaming.Common.{
  ℕ, ◌≤◌, ◌≡◌, ◌∙◌, sym, ap, subst, true, some, List, [], ◌∷◌, Memᴰ, Option-cases, inl, inr, arith,
}
use mathlib.Core.Option.{some-injective}
use token_streaming.Js.{natural, max_safe}
use token_streaming.Js.Texts.{Text, text, text_beq, text_beq_iff}
use token_streaming.Js.Maps.{lookup-set, lookup-set_self}
use token_streaming.Js.Json.{str, num, property, as_text, as_natural, keys}
use token_streaming.Node.Journal.File.{
  Setup, Entry, Line, parsed, unreadable, nonce_line, request_line,
}
use token_streaming.Node.Journal.{Kept, record_commitment, load_record, load_line, load}
use token_streaming.Node.Journal.Records.{
  Record, nonce, request, Commitment, is_sha256, as_sha256, as_version, parse_fields, parse_record,
}
use token_streaming.Node.Journal.Keeping.{
  Claim, nonce_claim, request_claim, claim_expiry, claim_line, Holds,
}

-- The claim can be written and read: digests in hexadecimal, and a safe integer.
abbrev pub IsStorable : Claim → Type 0
IsStorable (nonce_claim key expires_at) = (is_sha256 key ≡ true) × (expires_at ≤ max_safe)
IsStorable (request_claim key entry) =
    (is_sha256 key ≡ true)
    × (is_sha256 entry.body_commitment ≡ true)
    × (entry.expires_at ≤ max_safe)

abbrev pub claim_record : Claim → Record
claim_record (nonce_claim key expires_at) = nonce key expires_at
claim_record (request_claim key entry) =
    request key (Commitment.body_commitment entry.body_commitment) entry.expires_at

as_sha256-str : (s : Text) → is_sha256 s ≡ true → as_sha256 (some (str s)) ≡ some s
unfolding as_sha256 as_text
as_sha256-str s hex = rw hex

as_natural-natural : (n : ℕ) → n ≤ max_safe → as_natural (some (num (natural n))) ≡ some n
unfolding as_natural
as_natural-natural n safe = ground arith

-- A line that the node writes is read as the claim that it was written for.
pub load_line-claim_line :
    (s : Setup) (now : ℕ) (claim : Claim) (kept : Kept)
    → IsStorable claim
    → load_line s now (claim_line claim) kept ≡ load_record s now (claim_record claim) kept
unfolding load_line nonce_line request_line parse_record parse_fields text property as_text keys
    text_beq as_version
load_line-claim_line s now (nonce_claim key e) kept (hex, safe) =
    ground
      (arith, as_sha256-str key hex, as_natural-natural e safe, as_natural-natural 2 (omega arith))
load_line-claim_line s now (request_claim key entry) kept (hex, committed, safe) = ground (
  arith,
  as_sha256-str key hex,
  as_sha256-str entry.body_commitment committed,
  as_natural-natural entry.expires_at safe,
  as_natural-natural 2 (omega arith),
)

-- A record that is live is loaded under a key that was not there.
pub load_record-claim :
    (s : Setup) (now : ℕ) (claim : Claim) (kept next : Kept)
    → now ≤ claim_expiry claim
    → load_record s now (claim_record claim) kept ≡ some next
    → Holds claim next
unfolding load_record record_commitment
load_record-claim s now (nonce_claim key e) (nonces, requests) next live h =
    ground (arith, lookup-set_self key e nonces)
load_record-claim s now (request_claim key entry) (nonces, requests) next live h =
    ground (arith, lookup-set_self key entry requests)

pub load_record-Holds :
    (s : Setup) (now : ℕ) (r : Record) (claim : Claim) (kept next : Kept)
    → load_record s now r kept ≡ some next
    → Holds claim kept
    → Holds claim next
unfolding load_record record_commitment
load_record-Holds s now (nonce key e) (nonce_claim k e') (nonces, requests) next h holds =
    ground (arith, lookup-set key k e nonces, text_beq_iff key k)
load_record-Holds s now (nonce key e) (request_claim k e') (nonces, requests) next h holds =
    ground arith
load_record-Holds s now (request key body e) (nonce_claim k e') (nonces, requests) next h holds =
    let read = Option-cases (record_commitment s body) in ground arith
load_record-Holds s now (request key body e) (request_claim k e') (nonces, requests) next h holds =
    elim (Option-cases (record_commitment s body)) [
      | inl missing ↦ ground arith
      | inr (commitment, made) ↦
          let entry : Entry = record { body_commitment = commitment; expires_at = e } in
          ground (arith, lookup-set key k entry requests, text_beq_iff key k)
    ]

load_line-Holds :
    (s : Setup) (now : ℕ) (line : Line) (claim : Claim) (kept next : Kept)
    → load_line s now line kept ≡ some next
    → Holds claim kept
    → Holds claim next
unfolding load_line
load_line-Holds s now unreadable claim kept next h holds = cc
load_line-Holds s now (parsed value) claim kept next h holds =
    elim (Option-cases (parse_record value)) [
      | inl bad ↦ let no_kept = rw (bad, load_line) at h in cc
      | inr (r, good) ↦ load_record-Holds s now r claim kept next (rw (good, load_line) at h) holds
    ]

pub load-step :
    (s : Setup) (now : ℕ) (line : Line) (lines : List Line) (kept final : Kept)
    → load s now (line ∷ lines) kept ≡ some final
    → (next : Kept) × (load_line s now line kept ≡ some next) × (load s now lines next ≡ some final)
unfolding load
load-step s now line lines kept final h = elim (Option-cases (load_line s now line kept)) [
  | inl bad ↦ let no_kept = rw (bad, load) at h in cc
  | inr (next, read) ↦ (next, read, rw (read, load) at h)
]

load-Holds :
    (s : Setup) (now : ℕ) (lines : List Line) (claim : Claim) (kept final : Kept)
    → load s now lines kept ≡ some final
    → Holds claim kept
    → Holds claim final
unfolding load
load-Holds s now [] claim kept final h holds =
    subst (Holds claim) (some-injective kept final h) holds
load-Holds s now (line ∷ lines) claim kept final h holds =
    let (next, read, rest) = load-step s now line lines kept final h in
    load-Holds s now lines claim next final rest
      (load_line-Holds s now line claim kept next read holds)

-- What the file holds and is live is in the maps that are loaded.
pub load-claim :
    (s : Setup) (now : ℕ) (lines : List Line) (claim : Claim) (kept final : Kept)
    → IsStorable claim
    → now ≤ claim_expiry claim
    → Memᴰ (claim_line claim) lines
    → load s now lines kept ≡ some final
    → Holds claim final
load-claim s now [] claim kept final storable live m h = elim m [ ]
load-claim s now (line ∷ lines) claim kept final storable live (Memᴰ.head same) h =
    let (next, read, rest) = load-step s now line lines kept final h in
    let at : load_record s now (claim_record claim) kept ≡ some next =
      sym (load_line-claim_line s now claim kept storable)
      ∙ ap (λ l. load_line s now l kept) same
      ∙ read in
    load-Holds s now lines claim next final rest (load_record-claim s now claim kept next live at)
load-claim s now (line ∷ lines) claim kept final storable live (Memᴰ.tail m) h =
    let (next, read, rest) = load-step s now line lines kept final h in
    load-claim s now lines claim next final storable live m rest
