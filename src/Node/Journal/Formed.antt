-- ===== src/Node/Journal/Formed.antt =====
-- What `load` gives is well formed (apps/supplier-node/src/replay-journal.ts).
use token_streaming.Common.{
  ℕ, ◌≤◌, ◌≡◌, refl, sym, subst, Bool, true, false, ◌||◌, Option, none, some, List, [], ◌∷◌, All,
  All-append, ltb, ◌==◌, nat_eq, is_some, length, if-holds, Bool-cases, Option-cases, inl, inr,
  arith,
}
use mathlib.Core.Option.{some-injective}
use token_streaming.Js.{max_safe, natural}
use token_streaming.Js.Texts.{Text, text, text_eq}
use token_streaming.Js.Maps.{lookup, set}
use token_streaming.Js.Maps.Distinct.{IsDistinct, set_fresh, set-IsDistinct}
use token_streaming.Js.Json.{
  Json, Fields, null, bool, num, str, array, object, keys, property, as_text, as_natural,
}
use token_streaming.Node.Journal.File.{
  Setup, Entry, Line, parsed, unreadable, create_body_commitment,
}
use token_streaming.Node.Journal.{Kept, record_commitment, load_record, load_line, load}
use token_streaming.Node.Journal.Records.{
  Record, nonce, request, Commitment, is_sha256, as_sha256, as_version, parse_request, parse_kind,
  ◌>>=◌, ◌>>◌, parse_fields, parse_record,
}
use token_streaming.Node.Journal.Keeping.{nonce_claim, request_claim}
use token_streaming.Node.Journal.Loading.{IsStorable, load-step}
use token_streaming.Node.Journal.Reloading.{StorableNonces, StorableRequests}

>>=-eq-some :
    {A B : Type 0} (o : Option A) (next : A → Option B) (b : B)
    → (o >>= next) ≡ some b
    → (a : A) × (o ≡ some a) × (next a ≡ some b)
>>=-eq-some none next b h = cc
>>=-eq-some (some a) next b h = (a, refl, h)

>>-eq-some :
    {B : Type 0} (test : Bool) (next : Option B) (b : B)
    → (test >> next) ≡ some b
    → (test ≡ true) × (next ≡ some b)
>>-eq-some true next b h = (refl, h)
>>-eq-some false next b h = cc

as_natural-safe : (v : Option Json) (n : ℕ) → as_natural v ≡ some n → n ≤ max_safe
unfolding as_natural
as_natural-safe none n h = cc
as_natural-safe (some null) n h = cc
as_natural-safe (some (bool b)) n h = cc
as_natural-safe (some (num (natural k))) n h = ground arith
as_natural-safe (some (num _)) n h = cc
as_natural-safe (some (str t)) n h = cc
as_natural-safe (some (array items)) n h = cc
as_natural-safe (some (object fields)) n h = cc

as_sha256-hex : (v : Option Json) (t : Text) → as_sha256 v ≡ some t → is_sha256 t ≡ true
unfolding as_sha256
as_sha256-hex v t h = elim (Option-cases (as_text v)) [
  | inl missing ↦ let bad = rw (missing, as_sha256) at h in cc
  | inr (found, e) ↦ let good = rw (e, as_sha256) at h in ground arith
]

-- The digests of a record have their form.
abbrev HexCommitment : Commitment → Type 0
HexCommitment (Commitment.body_sha256 t) = is_sha256 t ≡ true
HexCommitment (Commitment.body_commitment t) = is_sha256 t ≡ true

abbrev IsReadable : Record → Type 0
IsReadable (nonce key e) = (is_sha256 key ≡ true) × (e ≤ max_safe)
IsReadable (request key body e) = (is_sha256 key ≡ true) × HexCommitment body × (e ≤ max_safe)

parse_request-IsReadable :
    (fields : Fields) (version : ℕ) (key : Text) (e : ℕ) (r : Record)
    → is_sha256 key ≡ true
    → e ≤ max_safe
    → parse_request fields version key e ≡ some r
    → IsReadable r
unfolding parse_request
parse_request-IsReadable fields version key e r hex safe h =
    let (counted, h1) = >>-eq-some (length (keys fields) == 5) _ r h in
    let (digest, read, h2) = >>=-eq-some (as_sha256 _) _ r h1 in
    subst IsReadable (some-injective _ r h2) (
      hex,
      if-holds HexCommitment (version == 1) _ _ (λ _. as_sha256-hex _ digest read)
          (λ _. as_sha256-hex _ digest read),
      safe,
    )

parse_kind-IsReadable :
    (fields : Fields) (version : ℕ) (key : Text) (e : ℕ) (r : Record) (is_nonce : Bool)
    → is_sha256 key ≡ true
    → e ≤ max_safe
    → parse_kind fields version key e is_nonce ≡ some r
    → IsReadable r
parse_kind-IsReadable fields version key e r true hex safe h =
    let (counted, same) = >>-eq-some (length (keys fields) == 4) (some (nonce key e)) r h in
    subst IsReadable (some-injective _ r same) (hex, safe)
parse_kind-IsReadable fields version key e r false hex safe h =
    parse_request-IsReadable fields version key e r hex safe h

parse_record-IsReadable : (value : Json) (r : Record) → parse_record value ≡ some r → IsReadable r
unfolding parse_record parse_fields
parse_record-IsReadable (object fields) r h =
    let (version, v, h1) = >>=-eq-some (as_version (property (text "version") fields)) _ r h in
    let (kind, k, h2) = >>=-eq-some (as_text (property (text "kind") fields)) _ r h1 in
    let (known, h3) = >>-eq-some (kind == text "nonce" || kind == text "request") _ r h2 in
    let (key, read, h4) = >>=-eq-some (as_sha256 (property (text "key") fields)) _ r h3 in
    let (e, n, h5) = >>=-eq-some (as_natural (property (text "expiresAt") fields)) _ r h4 in
    let hex = as_sha256-hex _ key read in
    let safe = as_natural-safe _ e n in
    parse_kind-IsReadable fields version key e r (kind == text "nonce") hex safe h5
parse_record-IsReadable null r h = cc
parse_record-IsReadable _ r h = cc

abbrev pub IsFormed : Kept → Type 0
IsFormed (nonces, requests) =
    IsDistinct nonces × IsDistinct requests × StorableNonces nonces × StorableRequests requests

set-All {κ} :
    {V : Type 0} (P : Text × V → Type κ) (key : Text) (v : V) (m : List (Text × V))
    → is_some (lookup key m) ≡ false
    → All P m
    → P (key, v)
    → All P (set key v m)
set-All P key v m absent h p =
    let missing : lookup key m ≡ none = elim (Option-cases (lookup key m)) [
      | inl gone ↦ gone
      | inr (w, found) ↦ let bad = rw found at absent in cc
    ] in
    subst (All P) (sym (set_fresh key v m missing)) (All-append P m _ h (p, tt))

module _ (s : Setup) (now : ℕ) (hex : (key t : Text) → is_sha256 (s.hmac key t) ≡ true) where
  record_commitment-hex :
      (body : Commitment) (c : Text)
      → HexCommitment body
      → record_commitment s body ≡ some c
      → is_sha256 c ≡ true
  unfolding record_commitment create_body_commitment
  record_commitment-hex (Commitment.body_sha256 t) c good h =
      subst (λ d. is_sha256 d ≡ true) (some-injective _ c (rw good at h)) (hex s.gateway_token _)
  record_commitment-hex (Commitment.body_commitment t) c good h =
      subst (λ d. is_sha256 d ≡ true) (some-injective t c h) good

  load_record-IsFormed :
      (r : Record) (kept next : Kept)
      → IsReadable r
      → load_record s now r kept ≡ some next
      → IsFormed kept
      → IsFormed next
  unfolding load_record
  load_record-IsFormed (nonce key e) (nonces, requests) next good h (dn, dr, sn, sr) =
      elim (Bool-cases (ltb e now)) [
        | inl past ↦ subst IsFormed (some-injective _ next (rw past at h)) (dn, dr, sn, sr)
        | inr live ↦ elim (Bool-cases (is_some (lookup key nonces))) [
          | inl there ↦ let bad = rw (live, there) at h in cc
          | inr absent ↦ subst IsFormed (some-injective _ next (rw (live, absent) at h)) (
            set-IsDistinct key e nonces dn,
            dr,
            set-All (λ f. IsStorable (nonce_claim (f.0) (f.1))) key e nonces absent sn good,
            sr,
          )
        ]
      ]
  load_record-IsFormed (request key body e) (nonces, requests) next (hk, hb, he) h
        (dn, dr, sn, sr) =
      elim (Bool-cases (ltb e now)) [
        | inl past ↦ subst IsFormed (some-injective _ next (rw past at h)) (dn, dr, sn, sr)
        | inr live ↦ elim (Option-cases (record_commitment s body)) [
          | inl missing ↦ let bad = rw (live, missing, load_record) at h in cc
          | inr (c, made) ↦ elim (Bool-cases (is_some (lookup key requests))) [
            | inl there ↦ let bad = rw (live, made, load_record, there) at h in cc
            | inr absent ↦
                let entry : Entry = record { body_commitment = c; expires_at = e } in
                subst IsFormed (some-injective _ next (rw (live, made, load_record, absent) at h)) (
                  dn,
                  set-IsDistinct key entry requests dr,
                  sn,
                  set-All (λ f. IsStorable (request_claim (f.0) (f.1))) key entry requests absent sr
                      (hk, record_commitment-hex body c hb made, he),
                )
          ]
        ]
      ]

  load_line-IsFormed :
      (line : Line) (kept next : Kept)
      → load_line s now line kept ≡ some next
      → IsFormed kept
      → IsFormed next
  unfolding load_line
  load_line-IsFormed unreadable kept next h formed = cc
  load_line-IsFormed (parsed value) kept next h formed = elim (Option-cases (parse_record value)) [
    | inl bad ↦ let no_kept = rw (bad, load_line) at h in cc
    | inr (r, good) ↦
        load_record-IsFormed r kept next (parse_record-IsReadable value r good)
          (rw (good, load_line) at h) formed
  ]

  pub load-IsFormed :
      (lines : List Line) (kept final : Kept)
      → load s now lines kept ≡ some final
      → IsFormed kept
      → IsFormed final
  unfolding load
  load-IsFormed [] kept final h formed = subst IsFormed (some-injective kept final h) formed
  load-IsFormed (line ∷ lines) kept final h formed =
      let (next, read, rest) = load-step s now line lines kept final h in
      load-IsFormed lines next final rest (load_line-IsFormed line kept next read formed)
