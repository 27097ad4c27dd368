-- ===== src/Node/Journal/Growing.antt =====
-- A claim that is written and kept leaves a sound journal (apps/supplier-node/src/replay-journal.ts).
use token_streaming.Common.{
  ℕ, suc, ◌+◌, ◌≤◌, ◌≡◌, ◌∙◌, sym, subst, none, some, List, [], ◌∷◌, ◌++◌, map, All, All-append,
  arith,
}
use token_streaming.Js.Texts.{Text}
use token_streaming.Js.Maps.{lookup, set, prune_map}
use token_streaming.Js.Maps.Distinct.{
  set_fresh, set-IsDistinct, prune_map-set_fresh, lookup-prune_none,
}
use token_streaming.Node.Journal.File.{
  Setup, Entry, Journal, Line, nonce_line, request_line, journal_lines, file_bytes,
  maximum_journal_bytes,
}
use token_streaming.Node.Journal.{
  Kept, load, load_record, record_commitment, keep_nonce, keep_request,
}
use token_streaming.Node.Journal.Keeping.{Claim, nonce_claim, request_claim, claim_line}
use token_streaming.Node.Journal.Loading.{IsStorable, claim_record}
use token_streaming.Node.Journal.Reloading.{
  nonce_expiry, entry_expiry, load-append, load-claim_line,
}
use token_streaming.Node.Journal.Sound.{IsSound, file_bytes-append}

-- The journal once a line is written.
abbrev pub with_line : Line → Journal → Journal
with_line line j = record j {
  file = j.file ++ line ∷ [];
  appended_since_compaction = suc j.appended_since_compaction;
}

file_bytes-line :
    (s : Setup) (line : Line) (lines : List Line)
    → file_bytes s (lines ++ line ∷ []) ≡ file_bytes s lines + (s.line_bytes line + 1)
unfolding file_bytes
file_bytes-line s line lines = omega (arith, file_bytes-append s lines (line ∷ []))

map-set_fresh :
    {V : Type 0} (s : Setup) (f : Text × V → Line) (key : Text) (v : V) (m : List (Text × V))
    → lookup key m ≡ none
    → file_bytes s (map f (set key v m)) ≡ file_bytes s (map f m) + (s.line_bytes (f (key, v)) + 1)
unfolding lookup set file_bytes
map-set_fresh s f key v [] absent = omega arith
map-set_fresh s f key v ((k, w) ∷ m) absent = ground (arith, map-set_fresh s f key v m)

module _ (s : Setup) (now : ℕ) (j : Journal) (sound : IsSound s now j) where
  load-with_line :
      (t : ℕ) (claim : Claim) (next : Kept)
      → now ≤ t
      → IsStorable claim
      → load_record s t
          (claim_record claim)
          (prune_map nonce_expiry t j.nonces, prune_map entry_expiry t j.requests)
        ≡ some next
      → load s t (j.file ++ claim_line claim ∷ []) ([], []) ≡ some next
  unfolding load
  load-with_line t claim next until storable h =
      load-append s t j.file (claim_line claim ∷ []) ([], []) _ (sound.mirrors t until)
      ∙ load-claim_line s t claim [] _ next storable h

  pub keep_nonce-IsSound :
      (key : Text) (expires_at : ℕ)
      → lookup key j.nonces ≡ none
      → IsStorable (nonce_claim key expires_at)
      → file_bytes s j.file + (s.line_bytes (nonce_line key expires_at) + 1) ≤ maximum_journal_bytes
      → IsSound s now (keep_nonce key expires_at (with_line (nonce_line key expires_at) j))
  unfolding journal_lines load_record
  keep_nonce-IsSound key expires_at absent storable fits =
      let formed = sound.formed in
      let line = nonce_line key expires_at in
      record {
        formed = record {
          nonces_distinct = set-IsDistinct key expires_at j.nonces (formed.nonces_distinct);
          requests_distinct = formed.requests_distinct;
          nonces_storable =
              subst (λ m. All (λ (e : Text × ℕ). IsStorable (nonce_claim (e.0) (e.1))) m)
                (sym (set_fresh key expires_at j.nonces absent))
                (All-append (λ (e : Text × ℕ). IsStorable (nonce_claim (e.0) (e.1))) j.nonces _
                  (formed.nonces_storable) (storable, tt));
          requests_storable = formed.requests_storable;
        };
        mirrors = λ t until.
            load-with_line t (nonce_claim key expires_at)
              (
                prune_map nonce_expiry t (set key expires_at j.nonces),
                prune_map entry_expiry t j.requests,
              )
              until storable
              (let gone = lookup-prune_none nonce_expiry t key j.nonces absent in
                ground (arith, prune_map-set_fresh nonce_expiry t key expires_at j.nonces absent));
        bounded = omega (arith, file_bytes-line s line j.file, fits);
        covered =
            let c = sound.covered in
            omega (
              arith,
              file_bytes-line s line j.file,
              file_bytes-append s,
              map-set_fresh s (λ e. nonce_line (e.0) (e.1)) key expires_at j.nonces absent,
            );
      }

  pub keep_request-IsSound :
      (key : Text) (entry : Entry)
      → lookup key j.requests ≡ none
      → IsStorable (request_claim key entry)
      → file_bytes s j.file + (s.line_bytes (request_line key entry) + 1) ≤ maximum_journal_bytes
      → IsSound s now (keep_request key entry (with_line (request_line key entry) j))
  unfolding journal_lines load_record record_commitment
  keep_request-IsSound key entry absent storable fits =
      let formed = sound.formed in
      let line = request_line key entry in
      record {
        formed = record {
          nonces_distinct = formed.nonces_distinct;
          requests_distinct = set-IsDistinct key entry j.requests (formed.requests_distinct);
          nonces_storable = formed.nonces_storable;
          requests_storable =
              subst (λ m. All (λ (e : Text × Entry). IsStorable (request_claim (e.0) (e.1))) m)
                (sym (set_fresh key entry j.requests absent))
                (All-append (λ (e : Text × Entry). IsStorable (request_claim (e.0) (e.1)))
                  j.requests _ (formed.requests_storable) (storable, tt));
        };
        mirrors = λ t until.
            load-with_line t (request_claim key entry)
              (
                prune_map nonce_expiry t j.nonces,
                prune_map entry_expiry t (set key entry j.requests),
              )
              until storable
              (let gone = lookup-prune_none entry_expiry t key j.requests absent in
                ground (arith, prune_map-set_fresh entry_expiry t key entry j.requests absent));
        bounded = omega (arith, file_bytes-line s line j.file, fits);
        covered =
            let c = sound.covered in
            omega (
              arith,
              file_bytes-line s line j.file,
              file_bytes-append s,
              map-set_fresh s (λ e. request_line (e.0) (e.1)) key entry j.requests absent,
            );
      }
