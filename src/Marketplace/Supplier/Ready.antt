-- ===== src/Marketplace/Supplier/Ready.antt =====
-- What it takes to be activated (packages/marketplace-domain/src/supplier.ts).
use token_streaming.Common.{
  ℕ, ◌≤◌, ◌<◌, ◌≡◌, ◌∙◌, refl, ap, Bool, true, false, ◌&&◌, Option, none, some, List, [], ◌∷◌, Memᴰ,
  All, arith, find, find-Memᴰ, leb, ltb, ◌==◌, inl, inr, Bool-cases, if◌then◌else◌,
}
use token_streaming.Common.Outcome.{Outcome, ok, some_ok, filter_ok, >>=-eq-ok, ok-injective}
use token_streaming.Js.{Engine}
use token_streaming.Js.Texts.{Text}
use token_streaming.Marketplace.Protocol.{
  SupplierKind, SupplierStatus, VerificationKind, VerificationStatus, AuthorizationStatus,
  Verification, Authorization, SupplierState, kind_eq, outcome_eq, authorization_eq,
}
use token_streaming.Marketplace.Validation.{timestamp_of, parse_timestamp, is_active_at}
use token_streaming.Marketplace.Supplier.Rules.{
  required_verification_kinds, is_authorization_active, is_current, has_current_verification,
  missing_required_verification_kinds, has_active_authorization, negate,
}
use token_streaming.Marketplace.Supplier.Applied.{IsReady}
use token_streaming.Marketplace.Supplier.Contexts.{parse_timestamp_iff-ok}

-- Without an expiry, or with a later one.
abbrev pub IsUnexpired : Engine → Option Text → ℕ → Type 0
IsUnexpired js none at = Unit
IsUnexpired js (some t) at = (expires : ℕ) × (timestamp_of js t ≡ some expires) × (at < expires)

pub record IsVerified (js : Engine) (verifications : List Verification) (at : ℕ)
    (kind : VerificationKind) : Type 0 where
  pub verification : Verification
  pub held : Memᴰ verification verifications
  pub of_kind : verification.kind ≡ kind
  pub passed : verification.status ≡ VerificationStatus.verified
  pub unexpired : IsUnexpired js verification.expires_at at

-- The verifications that each kind of supplier needs.
abbrev pub HasAll : SupplierKind → (VerificationKind → Type 0) → Type 0
HasAll SupplierKind.individual P =
    P VerificationKind.identity × P VerificationKind.tax × P VerificationKind.payout
HasAll SupplierKind.organization P =
    P VerificationKind.business
    × P VerificationKind.beneficial_ownership
    × P VerificationKind.tax
    × P VerificationKind.payout

pub record IsAuthorized (js : Engine) (authorizations : List Authorization) (at : ℕ) : Type 0 where
  pub authorization : Authorization
  pub held : Memᴰ authorization authorizations
  pub active : authorization.status ≡ AuthorizationStatus.active
  pub from : ℕ
  pub until : ℕ
  pub reads_from : timestamp_of js authorization.valid_from ≡ some from
  pub reads_until : timestamp_of js authorization.valid_until ≡ some until
  pub begun : from ≤ at
  pub lasting : at < until

-- A supplier that may be activated at the instant.
pub record MayStart (js : Engine) (found : SupplierState) (instant : Text) : Type 0 where
  pub waits : found.status ≡ SupplierStatus.pending_verification
  pub at : ℕ
  pub timed : timestamp_of js instant ≡ some at
  pub complete : HasAll found.kind (IsVerified js found.verifications at)
  pub authorized : IsAuthorized js found.authorizations at

module _ {E A : Type 0} (p : A → Outcome E Bool) where
  filter_ok-none : (xs : List A) → filter_ok p xs ≡ ok [] → All (λ x. p x ≡ ok false) xs
  filter_ok-none [] h = tt
  filter_ok-none (x ∷ xs) h =
      let (kept, k, h1) = >>=-eq-ok (p x) _ h in
      let (rest, r, h2) = >>=-eq-ok (filter_ok p xs) _ h1 in
      let (dropped, empty) = none_kept kept rest (ok-injective h2) in
      (k ∙ ap ok dropped, filter_ok-none xs (r ∙ ap ok empty))
    where
      none_kept :
          (kept : Bool) (rest : List A)
          → (if kept then x ∷ rest else rest) ≡ []
          → (kept ≡ false) × (rest ≡ [])
      none_kept true rest e = cc
      none_kept false rest e = (refl, e)

  some_ok-found : (xs : List A) → some_ok p xs ≡ ok true → (x : A) × Memᴰ x xs × (p x ≡ ok true)
  some_ok-found [] h = cc
  some_ok-found (x ∷ xs) h =
      let (found, f, h1) = >>=-eq-ok (p x) _ h in
      elim (Bool-cases found) [
        | inl passes ↦ (x, Memᴰ.head refl, f ∙ ap ok passes)
        | inr missed ↦
            let rest = rw missed at h1 in
            let (y, held, passes) = some_ok-found xs rest in (y, Memᴰ.tail held, passes)
      ]

negate-false : (m : Outcome _ Bool) → negate m ≡ ok false → m ≡ ok true
negate-false m h =
    let (b, e, h1) = >>=-eq-ok m _ h in let same : b ≡ true = ground arith in e ∙ ap ok same

module _ (js : Engine) (instant : Text) (at : ℕ) (timed : timestamp_of js instant ≡ some at) where
  unexpired :
      (found : Option Verification)
      → is_current js instant found ≡ ok true
      → (v : Verification) × (found ≡ some v) × IsUnexpired js v.expires_at at
  unfolding is_current
  unexpired none h = cc
  unexpired (some v) h = (v, refl, go v.expires_at refl)
    where
      go : (e : Option Text) → v.expires_at ≡ e → IsUnexpired js e at
      go none here = tt
      go (some t) here =
          let h0 = rw (here, is_current) at h in
          let (expires, x, h1) = >>=-eq-ok (parse_timestamp js t) _ h0 in
          let (now, n, h2) = >>=-eq-ok (parse_timestamp js instant) _ h1 in
          let read = parse_timestamp_iff-ok js instant now n in
          let same : now ≡ at = cc in
          let later : ltb now expires ≡ true = ok-injective h2 in
          (expires, parse_timestamp_iff-ok js t expires x, ground arith)

  IsVerified-of_current :
      (state : SupplierState) (kind : VerificationKind)
      → has_current_verification js state instant kind ≡ ok true
      → IsVerified js state.verifications at kind
  unfolding has_current_verification
  IsVerified-of_current state kind h =
      let test : Verification → Bool =
        λ v. v.kind == kind && v.status == VerificationStatus.verified in
      let (v, found, fresh) = unexpired (find test state.verifications) h in
      let (held, passes) = find-Memᴰ test state.verifications v found in
      let of_kind : (v.kind == kind) ≡ true = ground arith in
      let passed : (v.status == VerificationStatus.verified) ≡ true = ground arith in
      record {
        verification = v;
        held = held;
        of_kind = (kind_eq.beq_iff v.kind kind).0 of_kind;
        passed = (outcome_eq.beq_iff v.status VerificationStatus.verified).0 passed;
        unexpired = fresh;
      }

  HasAll-of_none_missing :
      (state : SupplierState)
      → missing_required_verification_kinds js state instant ≡ ok []
      → HasAll state.kind (IsVerified js state.verifications at)
  unfolding missing_required_verification_kinds required_verification_kinds
  HasAll-of_none_missing state h = go state.kind (
      filter_ok-none (λ kind. negate (has_current_verification js state instant kind))
        (required_verification_kinds state.kind) h)
    where
      verified :
          (kind : VerificationKind)
          → negate (has_current_verification js state instant kind) ≡ ok false
          → IsVerified js state.verifications at kind
      verified kind n = IsVerified-of_current state kind (negate-false _ n)

      go :
          (k : SupplierKind)
          → All
              (λ kind. negate (has_current_verification js state instant kind) ≡ ok false)
              (required_verification_kinds k)
          → HasAll k (IsVerified js state.verifications at)
      go SupplierKind.individual (a, (b, (c, _))) = (verified _ a, verified _ b, verified _ c)
      go SupplierKind.organization (a, (b, (c, (d, _)))) =
          (verified _ a, verified _ b, verified _ c, verified _ d)

  IsAuthorized-of_active :
      (a : Authorization) (authorizations : List Authorization)
      → Memᴰ a authorizations
      → is_authorization_active js instant a ≡ ok true
      → IsAuthorized js authorizations at
  unfolding is_authorization_active is_active_at
  IsAuthorized-of_active a authorizations held h =
      elim (Bool-cases (a.status == AuthorizationStatus.active)) [
        | inr other ↦ let bad = rw (other, is_authorization_active) at h in cc
        | inl active ↦
            let h0 = rw (active, is_authorization_active) at h in
            let (now, n, h1) = >>=-eq-ok (parse_timestamp js instant) _ h0 in
            let (from, f, h2) = >>=-eq-ok (parse_timestamp js a.valid_from) _ h1 in
            let read = parse_timestamp_iff-ok js instant now n in
            let same : now ≡ at = cc in
            elim (Bool-cases (leb from now)) [
              | inr early ↦ let bad = rw early at h2 in cc
              | inl begun ↦
                  let h3 = rw begun at h2 in
                  let (until, u, h4) = >>=-eq-ok (parse_timestamp js a.valid_until) _ h3 in
                  let lasting : ltb now until ≡ true = ok-injective h4 in
                  record {
                    authorization = a;
                    held = held;
                    active =
                        (authorization_eq.beq_iff a.status AuthorizationStatus.active).0 active;
                    from = from;
                    until = until;
                    reads_from = parse_timestamp_iff-ok js a.valid_from from f;
                    reads_until = parse_timestamp_iff-ok js a.valid_until until u;
                    begun = ground arith;
                    lasting = ground arith;
                  }
            ]
      ]

  pub MayStart-of_IsReady :
      (found : SupplierState) → IsReady js found instant → MayStart js found instant
  unfolding has_active_authorization
  MayStart-of_IsReady found ready =
      let (a, held, active) =
        some_ok-found (is_authorization_active js instant) found.authorizations
          (ready.authorized) in
      record {
        waits = ready.waits;
        at = at;
        timed = timed;
        complete = HasAll-of_none_missing found (ready.complete);
        authorized = IsAuthorized-of_active a found.authorizations held active;
      }
