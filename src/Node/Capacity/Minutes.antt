-- ===== src/Node/Capacity/Minutes.antt =====
-- The entries of a minute, and what pruning drops (apps/supplier-node/src/capacity.ts).
use token_streaming.Common.{
  ℕ, ◌+◌, ◌≤◌, ◌≡◌, refl, ap, Bool, ◌&&◌, inl, inr, List, [], ◌∷◌, ◌++◌, length, All, ltb, leb,
  if◌then◌else◌, Bool-cases, arith,
}
use token_streaming.Node.Capacity.{CapacityEntry, is_expired, prune, used_tokens}

-- The entry stands in the minute that ends at `t`.
abbrev pub is_in_minute : ℕ → CapacityEntry → Bool
is_in_minute t entry = leb entry.occurred_at t && ltb t (entry.occurred_at + 60_000)

abbrev pub total : (CapacityEntry → ℕ) → List CapacityEntry → ℕ
total weight [] = 0
total weight (entry ∷ entries) = weight entry + total weight entries

abbrev pub in_minute : (CapacityEntry → ℕ) → ℕ → List CapacityEntry → ℕ
in_minute weight t [] = 0
in_minute weight t (entry ∷ entries) =
    let rest = in_minute weight t entries in
    if is_in_minute t entry then weight entry + rest else rest

-- The requests and the tokens of the minute that ends at `t`.
abbrev pub minute_requests : ℕ → List CapacityEntry → ℕ
minute_requests t entries = in_minute (λ e. 1) t entries

abbrev pub minute_tokens : ℕ → List CapacityEntry → ℕ
minute_tokens t entries = in_minute (λ e. e.tokens) t entries

abbrev pub Gone : ℕ → CapacityEntry → Type 0
Gone now entry = entry.occurred_at + 60_000 ≤ now

pub Gone-later :
    (now later : ℕ) (xs : List CapacityEntry)
    → now ≤ later
    → All (Gone now) xs
    → All (Gone later) xs
Gone-later now later [] le h = tt
Gone-later now later (x ∷ xs) le h = (omega (arith, h.0), Gone-later now later xs le (h.1))

pub prune-split :
    (now : ℕ) (entries : List CapacityEntry)
    → (expired : List CapacityEntry) × (entries ≡ expired ++ prune now entries)
      × All (Gone now) expired
unfolding prune
prune-split now [] = ([], refl, tt)
prune-split now (entry ∷ entries) = elim (Bool-cases (is_expired now entry)) [
  | inl old ↦
      let (expired, same, gone) = prune-split now entries in
      let first : Gone now entry = ground arith in
      (entry ∷ expired, rw old (ap (λ l. entry ∷ l) same), (first, gone))
  | inr new ↦ ([], rw new refl, tt)
]

module _ (weight : CapacityEntry → ℕ) where
  pub in_minute-append :
      (t : ℕ) (xs ys : List CapacityEntry)
      → in_minute weight t (xs ++ ys) ≡ in_minute weight t xs + in_minute weight t ys
  in_minute-append t [] ys = omega arith
  in_minute-append t (x ∷ xs) ys = let rest = in_minute-append t xs ys in ground arith

  pub in_minute-Gone :
      (t now : ℕ) (xs : List CapacityEntry)
      → now ≤ t
      → All (Gone now) xs
      → in_minute weight t xs ≡ 0
  in_minute-Gone t now [] le h = refl
  in_minute-Gone t now (x ∷ xs) le h =
      let rest = in_minute-Gone t now xs le (h.1) in let first = h.0 in ground arith

  pub in_minute-total : (t : ℕ) (xs : List CapacityEntry) → in_minute weight t xs ≤ total weight xs
  in_minute-total t [] = omega arith
  in_minute-total t (x ∷ xs) = let rest = in_minute-total t xs in ground arith

  -- One more entry keeps every minute within the cap, if it fits beside those that are not gone.
  pub one_more :
      (t now cap : ℕ) (expired kept : List CapacityEntry) (entry : CapacityEntry)
      → entry.occurred_at ≡ now
      → All (Gone now) expired
      → in_minute weight t (expired ++ kept) ≤ cap
      → total weight kept + weight entry ≤ cap
      → in_minute weight t ((expired ++ kept) ++ entry ∷ []) ≤ cap
  one_more t now cap expired kept entry at gone before fits =
      let whole = in_minute-append t (expired ++ kept) (entry ∷ []) in
      elim (Bool-cases (leb now t)) [
        | inl late ↦
            let none_left = in_minute-Gone t now expired (ground arith) gone in
            let parts = in_minute-append t expired kept in
            let most = in_minute-total t kept in
            let single = in_minute-total t (entry ∷ []) in
            omega (arith, whole, none_left, parts, most, single, fits)
        | inr early ↦
            let outside : in_minute weight t (entry ∷ []) ≡ 0 = ground arith in
            omega (arith, whole, outside, before)
      ]

pub total-tokens : (xs : List CapacityEntry) → total (λ e. e.tokens) xs ≡ used_tokens xs
total-tokens [] = refl
total-tokens (x ∷ xs) = ap (λ n. x.tokens + n) (total-tokens xs)

pub total-length : (xs : List CapacityEntry) → total (λ e. 1) xs ≡ length xs
total-length [] = refl
total-length (x ∷ xs) = omega (arith, total-length xs)
