-- ===== src/Node/Journal/Reloading.antt =====
-- A file of claims is loaded as the live ones (apps/supplier-node/src/replay-journal.ts).
use token_streaming.Common.{
  ℕ, ◌≡◌, ◌∙◌, refl, sym, ap, some, List, [], ◌∷◌, ◌++◌, map, All, ltb, Bool-cases, inl, inr, arith,
}
use mathlib.Core.List.{append-nil}
use mathlib.Core.Option.{some-injective}
use token_streaming.Js.Texts.{Text}
use token_streaming.Js.Maps.{lookup, set, prune_map}
use token_streaming.Js.Maps.Distinct.{IsDistinct, IsFreshIn, put_all, put_all_distinct}
use token_streaming.Node.Journal.File.{
  Setup, Entry, Journal, Line, nonce_line, request_line, journal_lines,
}
use token_streaming.Node.Journal.{Kept, record_commitment, load_record, load_line, load}
use token_streaming.Node.Journal.Keeping.{Claim, nonce_claim, request_claim, claim_line}
use token_streaming.Node.Journal.Loading.{IsStorable, claim_record, load-step, load_line-claim_line}

abbrev pub entry_expiry : Entry → ℕ
entry_expiry entry = entry.expires_at

abbrev pub nonce_expiry : ℕ → ℕ
nonce_expiry expires_at = expires_at

-- The entries of the maps can be written and read.
abbrev pub StorableNonces : List (Text × ℕ) → Type 0
StorableNonces m = All (λ e. IsStorable (nonce_claim (e.0) (e.1))) m

abbrev pub StorableRequests : List (Text × Entry) → Type 0
StorableRequests m = All (λ e. IsStorable (request_claim (e.0) (e.1))) m

module _ (s : Setup) (now : ℕ) where
  load-cons :
      (line : Line) (lines : List Line) (kept next : Kept)
      → load_line s now line kept ≡ some next
      → load s now (line ∷ lines) kept ≡ load s now lines next
  unfolding load
  load-cons line lines kept next h = rw (h, load) refl

  pub load-append :
      (xs ys : List Line) (kept next : Kept)
      → load s now xs kept ≡ some next
      → load s now (xs ++ ys) kept ≡ load s now ys next
  unfolding load
  load-append [] ys kept next h = ap (load s now ys) (some-injective kept next h)
  load-append (line ∷ xs) ys kept next h =
      let (mid, read, rest) = load-step s now line xs kept next h in
      load-cons line (xs ++ ys) kept mid read ∙ load-append xs ys mid next rest

  pub load-claim_line :
      (claim : Claim) (lines : List Line) (kept next : Kept)
      → IsStorable claim
      → load_record s now (claim_record claim) kept ≡ some next
      → load s now (claim_line claim ∷ lines) kept ≡ load s now lines next
  load-claim_line claim lines kept next storable h =
      load-cons (claim_line claim) lines kept next
        (load_line-claim_line s now claim kept storable ∙ h)

  load_nonces :
      (m acc acc' : List (Text × ℕ)) (requests : List (Text × Entry)) (lines : List Line)
      → StorableNonces m
      → put_all nonce_expiry now m acc ≡ some acc'
      → load s now (map (λ e. nonce_line (e.0) (e.1)) m ++ lines) (acc, requests)
        ≡ load s now lines (acc', requests)
  unfolding put_all load_record
  load_nonces [] acc acc' requests lines storable h =
      ap (λ l. load s now lines (l, requests)) (some-injective acc acc' h)
  load_nonces ((k, e) ∷ m) acc acc' requests lines storable h =
      let rest = map (λ (f : Text × ℕ). nonce_line (f.0) (f.1)) m ++ lines in
      elim (Bool-cases (ltb e now)) [
        | inl past ↦
            load-claim_line (nonce_claim k e) rest (acc, requests) (acc, requests) (storable.0)
              (ground arith)
            ∙ load_nonces m acc acc' requests lines (storable.1) (ground arith)
        | inr live ↦
            load-claim_line (nonce_claim k e) rest (acc, requests) (set k e acc, requests)
              (storable.0) (ground arith)
            ∙ load_nonces m (set k e acc) acc' requests lines (storable.1) (ground arith)
      ]

  load_requests :
      (m acc acc' : List (Text × Entry)) (nonces : List (Text × ℕ)) (lines : List Line)
      → StorableRequests m
      → put_all entry_expiry now m acc ≡ some acc'
      → load s now (map (λ e. request_line (e.0) (e.1)) m ++ lines) (nonces, acc)
        ≡ load s now lines (nonces, acc')
  unfolding put_all load_record record_commitment
  load_requests [] acc acc' nonces lines storable h =
      ap (λ l. load s now lines (nonces, l)) (some-injective acc acc' h)
  load_requests ((k, e) ∷ m) acc acc' nonces lines storable h =
      let rest = map (λ (f : Text × Entry). request_line (f.0) (f.1)) m ++ lines in
      elim (Bool-cases (ltb e.expires_at now)) [
        | inl past ↦
            load-claim_line (request_claim k e) rest (nonces, acc) (nonces, acc) (storable.0)
              (ground arith)
            ∙ load_requests m acc acc' nonces lines (storable.1) (ground arith)
        | inr live ↦
            load-claim_line (request_claim k e) rest (nonces, acc) (nonces, set k e acc)
              (storable.0) (ground arith)
            ∙ load_requests m (set k e acc) acc' nonces lines (storable.1) (ground arith)
      ]

  IsFreshIn-nil {ℓ} : {V : Type ℓ} (m : List (Text × V)) → IsFreshIn [] m
  unfolding lookup
  IsFreshIn-nil [] = tt
  IsFreshIn-nil (e ∷ m) = (refl, IsFreshIn-nil m)

  -- The lines that a compaction writes are loaded as the live entries of the maps.
  pub load-journal_lines :
      (j : Journal)
      → IsDistinct j.nonces
      → IsDistinct j.requests
      → StorableNonces j.nonces
      → StorableRequests j.requests
      → load s now (journal_lines j) ([], [])
        ≡ some (prune_map nonce_expiry now j.nonces, prune_map entry_expiry now j.requests)
  unfolding journal_lines load
  load-journal_lines j dn dr sn sr =
      load_nonces j.nonces [] (prune_map nonce_expiry now j.nonces) []
        (map (λ e. request_line (e.0) (e.1)) j.requests) sn
        (put_all_distinct nonce_expiry now j.nonces [] dn (IsFreshIn-nil j.nonces))
      ∙ ap (λ l. load s now l (prune_map nonce_expiry now j.nonces, [])) (sym (append-nil _))
      ∙ load_requests j.requests [] (prune_map entry_expiry now j.requests)
          (prune_map nonce_expiry now j.nonces) [] sr
          (put_all_distinct entry_expiry now j.requests [] dr (IsFreshIn-nil j.requests))
