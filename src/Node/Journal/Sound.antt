-- ===== src/Node/Journal/Sound.antt =====
-- A sound journal: the file says what the maps hold, within its size
-- (apps/supplier-node/src/replay-journal.ts).
use token_streaming.Common.{
  ℕ, ◌+◌, ◌≤◌, ◌≡◌, ◌∙◌, refl, sym, ap, Bool, true, false, some, List, [], ◌∷◌, ◌++◌, map, ltb,
  if-holds, arith,
}
use token_streaming.Js.Texts.{Text}
use token_streaming.Js.Maps.{prune_map}
use token_streaming.Js.Maps.Distinct.{
  IsDistinct, prune_map-IsDistinct, prune_map-prune_map, All-prune_map,
}
use token_streaming.Node.Journal.File.{
  Setup, Journal, Line, nonce_line, request_line, journal_lines, file_bytes, prune_journal, compact,
  Replacing, replaced, not_replaced, replaced_badly, maximum_journal_bytes,
}
use token_streaming.Node.Journal.{load}
use token_streaming.Node.Journal.Reloading.{
  nonce_expiry, entry_expiry, StorableNonces, StorableRequests, load-journal_lines,
}

pub file_bytes-append :
    (s : Setup) (xs ys : List Line) → file_bytes s (xs ++ ys) ≡ file_bytes s xs + file_bytes s ys
unfolding file_bytes
file_bytes-append s [] ys = omega arith
file_bytes-append s (line ∷ xs) ys = omega (arith, file_bytes-append s xs ys)

file_bytes-prune {ℓ} :
    {V : Type ℓ} (s : Setup) (f : Text × V → Line) (expiry : V → ℕ) (now : ℕ) (m : List (Text × V))
    → file_bytes s (map f (prune_map expiry now m)) ≤ file_bytes s (map f m)
unfolding file_bytes prune_map
file_bytes-prune s f expiry now [] = omega arith
file_bytes-prune s f expiry now ((k, v) ∷ m) = ground (arith, file_bytes-prune s f expiry now m)

-- The keys differ, and the entries can be written.
pub record IsWellFormed (j : Journal) : Type 0 where
  pub nonces_distinct : IsDistinct j.nonces
  pub requests_distinct : IsDistinct j.requests
  pub nonces_storable : StorableNonces j.nonces
  pub requests_storable : StorableRequests j.requests

pub record IsSound (s : Setup) (now : ℕ) (j : Journal) : Type 0 where
  pub formed : IsWellFormed j
  pub mirrors :
      (t : ℕ)
      → now ≤ t
      → load s t j.file ([], [])
        ≡ some (prune_map nonce_expiry t j.nonces, prune_map entry_expiry t j.requests)
  pub bounded : file_bytes s j.file ≤ maximum_journal_bytes
  pub covered : file_bytes s (journal_lines j) ≤ file_bytes s j.file

prune_journal-IsWellFormed :
    (now : ℕ) (j : Journal) → IsWellFormed j → IsWellFormed (prune_journal now j)
unfolding prune_journal
prune_journal-IsWellFormed now j f = record {
  nonces_distinct = prune_map-IsDistinct nonce_expiry now j.nonces (f.nonces_distinct);
  requests_distinct = prune_map-IsDistinct entry_expiry now j.requests (f.requests_distinct);
  nonces_storable = All-prune_map nonce_expiry _ now j.nonces (f.nonces_storable);
  requests_storable = All-prune_map entry_expiry _ now j.requests (f.requests_storable);
}

pub journal_lines-prune :
    (s : Setup) (now : ℕ) (j : Journal)
    → file_bytes s (journal_lines (prune_journal now j)) ≤ file_bytes s (journal_lines j)
unfolding journal_lines prune_journal
journal_lines-prune s now j =
    let a = file_bytes-prune s (λ e. nonce_line (e.0) (e.1)) nonce_expiry now j.nonces in
    let b = file_bytes-prune s (λ e. request_line (e.0) (e.1)) entry_expiry now j.requests in
    omega (arith, file_bytes-append s)

pub prune_journal-IsSound :
    (s : Setup) (last now : ℕ) (j : Journal)
    → last ≤ now
    → IsSound s last j
    → IsSound s now (prune_journal now j)
unfolding prune_journal
prune_journal-IsSound s last now j le sound = record {
  formed = prune_journal-IsWellFormed now j (sound.formed);
  mirrors = λ t until.
      sound.mirrors t (omega arith)
      ∙ sym (
          ap (λ n. some (n, prune_map entry_expiry t j.requests))
            (prune_map-prune_map nonce_expiry now t j.nonces until))
      ∙ sym (
          ap (λ r. some (prune_map nonce_expiry t (prune_map nonce_expiry now j.nonces), r))
            (prune_map-prune_map entry_expiry now t j.requests until));
  bounded = sound.bounded;
  covered = let small = journal_lines-prune s now j in let c = sound.covered in omega arith;
}

-- What a compaction that returned leaves.
abbrev pub Finished : (Journal → Type 0) → Journal × Bool → Type 0
Finished P (j, true) = P j
Finished P (j, false) = Unit

lines_of_maps :
    (j : Journal) (appended last : ℕ) (file : List Line)
    → journal_lines
        (record j { appended_since_compaction = appended; last_compacted_at = last; file = file })
      ≡ journal_lines j
unfolding journal_lines
lines_of_maps j appended last file = refl

-- A compaction that returns leaves a sound journal.
pub compact-IsSound :
    (s : Setup) (disk : Replacing) (now : ℕ) (j : Journal)
    → IsWellFormed j
    → Finished (IsSound s now) (compact s disk now j)
unfolding compact
compact-IsSound s disk now j formed =
    if-holds (Finished (IsSound s now)) (ltb maximum_journal_bytes (file_bytes s lines)) _ _
      (λ _. tt) (λ fits. go disk fits)
  where
    pruned : Journal
    pruned = prune_journal now j

    lines : List Line
    lines = journal_lines pruned

    good : IsWellFormed pruned
    good = prune_journal-IsWellFormed now j formed

    new : Journal
    new = record pruned { appended_since_compaction = 0; last_compacted_at = now; file = lines }

    same_lines : journal_lines new ≡ lines
    same_lines = lines_of_maps pruned 0 now lines

    after : Replacing → Journal × Bool
    after replaced = (new, true)
    after not_replaced = (pruned, false)
    after replaced_badly = (record pruned { file = lines }, false)

    go :
        (disk : Replacing)
        → ltb maximum_journal_bytes (file_bytes s lines) ≡ false
        → Finished (IsSound s now) (after disk)
    go replaced fits = record {
      formed = record {
        nonces_distinct = good.nonces_distinct;
        requests_distinct = good.requests_distinct;
        nonces_storable = good.nonces_storable;
        requests_storable = good.requests_storable;
      };
      mirrors = λ t until.
          load-journal_lines s t pruned (good.nonces_distinct) (good.requests_distinct)
            (good.nonces_storable) (good.requests_storable);
      bounded = ground arith;
      covered = omega (arith, ap (file_bytes s) same_lines);
    }
    go not_replaced fits = tt
    go replaced_badly fits = tt
