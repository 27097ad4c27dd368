-- ===== src/Node/Journal/Healthy.antt =====
-- Each operation leaves a sound journal, or one that has failed
-- (apps/supplier-node/src/replay-journal.ts).
use token_streaming.Common.{
  ℕ, ◌+◌, ◌≤◌, ◌≡◌, refl, Bool, true, false, not, ◌&&◌, ◌||◌, ltb, leb, if-holds, arith,
}
use token_streaming.Common.Outcome.{Outcome, ok, err}
use token_streaming.Node.Errors.{Thrown}
use token_streaming.Node.Journal.File.{
  Setup, Journal, Line, file_bytes, compact, Replacing, maximum_journal_bytes, Disk, Writing,
  written, broken, make_room, write_if, write_line, append, guarded, maybe_compact_after_append,
  append_compaction_threshold, size_compaction_threshold_bytes,
}
use token_streaming.Node.Journal.{then_keep}
use token_streaming.Node.Journal.Sound.{IsSound, Finished, compact-IsSound}
use token_streaming.Node.Journal.Growing.{with_line}

-- The result has failed, or has the property.
abbrev pub Healthy : (Journal → Type 0) → Journal × Outcome Thrown (Unit {0}) → Type 0
Healthy P (j, out) = j.terminal_failure ≡ false → P j

-- The result has the property, or has failed and throws.
abbrev pub Settled : (Journal → Type 0) → Journal × Outcome Thrown (Unit {0}) → Type 0
Settled P (j, ok _) = P j
Settled P (j, err _) = j.terminal_failure ≡ true

-- What an operation wants to be so of its maps before it writes.
abbrev pub Lasts : Setup → (Journal → Type 0) → Type 0
Lasts s P = (disk : Replacing) (now : ℕ) (j : Journal) → P j → P (compact s disk now j).0

-- Room for a line.
abbrev pub Fits : Setup → Line → Journal → Type 0
Fits s line j = file_bytes s j.file + (s.line_bytes line + 1) ≤ maximum_journal_bytes

pub guarded-Healthy :
    (P : Journal → Type 0) (r : Journal × Bool) → Finished P r → Healthy P (guarded r)
guarded-Healthy P (j, true) p h = p
guarded-Healthy P (j, false) p h = cc

module _ (s : Setup) (now : ℕ) where
  pub maybe_compact_after_append-Healthy :
      (disk : Disk) (j : Journal)
      → IsSound s now j
      → Healthy (IsSound s now) (maybe_compact_after_append s disk now j)
  unfolding maybe_compact_after_append
  maybe_compact_after_append-Healthy disk j sound =
      let compacted =
        guarded-Healthy (IsSound s now) (compact s disk.last_compaction now j)
          (compact-IsSound s disk.last_compaction now j (sound.formed)) in
      if-holds (Healthy (IsSound s now))
        (leb append_compaction_threshold j.appended_since_compaction
          || leb (j.last_compacted_at + s.compaction_interval) now)
        _ _ (λ _. compacted)
        (λ _.
          if-holds (Healthy (IsSound s now)) (not disk.last_stat) _ _ (λ _ h. cc)
            (λ _.
              if-holds (Healthy (IsSound s now))
                (leb size_compaction_threshold_bytes (file_bytes s j.file)) _ _ (λ _. compacted)
                (λ _ h. sound)))

  pub then_keep-Healthy :
      (disk : Disk) (keep : Journal → Journal) (r : Journal × Outcome Thrown (Unit {0}))
      → Settled (λ k. IsSound s now (keep k)) r
      → Healthy (IsSound s now) (then_keep s disk now keep r)
  then_keep-Healthy disk keep (j, ok u) sound =
      maybe_compact_after_append-Healthy disk (keep j) sound
  then_keep-Healthy disk keep (j, err e) failed = λ h. cc

  module _ (P : Journal → Type 0) (lasts : Lasts s P) (line : Line) where
    room-Finished :
        (r : Journal × Bool) (stat test : Bool)
        → Finished (IsSound s now) r
        → P r.0
        → (test ≡ true → Fits s line r.0)
        → Finished (λ k. IsSound s now k × P k × Fits s line k) (r.0, r.1 && stat && test)
    room-Finished (j, true) true true sound p fits = (sound, p, fits refl)
    room-Finished (j, true) true false sound p fits = tt
    room-Finished (j, true) false test sound p fits = tt
    room-Finished (j, false) stat test sound p fits = tt

    make_room-Finished :
        (disk : Disk) (j : Journal)
        → IsSound s now j
        → P j
        → Finished (λ k. IsSound s now k × P k × Fits s line k) (make_room s disk now line j)
    unfolding make_room
    make_room-Finished disk j sound p =
        let compacted = compact s disk.first_compaction now j in
        let fits = λ (k : Journal).
          not (ltb maximum_journal_bytes (file_bytes s k.file + (s.line_bytes line + 1))) in
        if-holds (Finished (λ k. IsSound s now k × P k × Fits s line k)) (fits j) _ _
          (λ room. (sound, p, ground arith))
          (λ _.
            room-Finished compacted disk.second_stat (fits compacted.0)
              (compact-IsSound s disk.first_compaction now j (sound.formed))
              (lasts disk.first_compaction now j p) (λ room. ground arith))

    write_if-Settled :
        (writing : Writing) (r : Journal × Bool) (Q : Journal → Type 0)
        → ((k : Journal) → IsSound s now k → P k → Fits s line k → Q (with_line line k))
        → Finished (λ k. IsSound s now k × P k × Fits s line k) r
        → Settled Q (write_if writing line r)
    unfolding write_line
    write_if-Settled written (j, true) Q next (sound, p, fits) = next j sound p fits
    write_if-Settled (broken left) (j, true) Q next ready = refl
    write_if-Settled writing (j, false) Q next ready = refl

    -- An append that returns has written the line to a journal with the property.
    pub append-Settled :
        (disk : Disk) (j : Journal) (Q : Journal → Type 0)
        → IsSound s now j
        → P j
        → ((k : Journal) → IsSound s now k → P k → Fits s line k → Q (with_line line k))
        → Settled Q (append s disk now line j)
    unfolding append
    append-Settled disk j Q sound p next =
        if-holds (Settled Q) disk.first_stat _ _
          (λ _.
            write_if-Settled disk.writing (make_room s disk now line j) Q next
              (make_room-Finished disk j sound p))
          (λ _. refl)
