-- ===== src/Node/Signature/Payload.antt =====
-- The signed payload determines the call (apps/supplier-node/src/signature.ts).
use token_streaming.Common.{
  ℕ, suc, ◌+◌, ◌-◌, ◌*◌, ◌^◌, ◌≤◌, ◌≡◌, refl, sym, subst, Bool, true, not, [], ◌∷◌, ◌++◌, all,
  length, nat_eq, ◌==◌, arith,
}
use native.Mathlib.Nat.{le_trans, mul-le-mul_right, mul_assoc, pow-succ'}
use token_streaming.Js.{max_safe}
use token_streaming.Js.Texts.{Text, is_digit}
use token_streaming.Js.Decimal.{read, read_from}
use token_streaming.Node.Signature.{
  SignatureInput, signature_payload, is_timestamp, is_nonce, is_job_id, is_url_unit, is_job_unit,
  replay_window,
}

-- The text holds no line feed.
abbrev pub IsOneLine : Text → Type 0
IsOneLine t = all (λ c. not (c == 10)) t ≡ true

all_mono :
    (p q : ℕ → Bool) (t : Text)
    → ((c : ℕ) → p c ≡ true → q c ≡ true)
    → all p t ≡ true
    → all q t ≡ true
all_mono p q [] le h = refl
all_mono p q (c ∷ t) le h =
    let rest = all_mono p q t le (ground arith) in let first = le c (ground arith) in ground arith

first_line :
    (x y rest other : Text)
    → IsOneLine x
    → IsOneLine y
    → (x ++ 10 ∷ rest) ≡ (y ++ 10 ∷ other)
    → (x ≡ y) × (rest ≡ other)
first_line [] [] rest other hx hy h = (refl, cc)
first_line [] (d ∷ y) rest other hx hy h =
    let same : ◌≡◌ {A = ℕ} 10 d = cc in let bad = rw (← same) at hy in cc
first_line (c ∷ x) [] rest other hx hy h = let same : c ≡ 10 = cc in let bad = rw same at hx in cc
first_line (c ∷ x) (d ∷ y) rest other hx hy h =
    let (e, r) = first_line x y rest other (ground arith) (ground arith) (cc) in
    let same : c ≡ d = cc in (cc, r)

pub is_timestamp-IsOneLine : (t : Text) → is_timestamp t ≡ true → IsOneLine t
unfolding is_timestamp
is_timestamp-IsOneLine t h =
    all_mono is_digit (λ c. not (c == 10)) t (λ c d. ground arith) (ground arith)

pub is_nonce-IsOneLine : (t : Text) → is_nonce t ≡ true → IsOneLine t
unfolding is_nonce
is_nonce-IsOneLine t h =
    all_mono is_url_unit (λ c. not (c == 10)) t (λ c d. ground arith) (ground arith)

pub is_job_id-IsOneLine : (t : Text) → is_job_id t ≡ true → IsOneLine t
unfolding is_job_id
is_job_id-IsOneLine [] h = refl
is_job_id-IsOneLine (c ∷ t) h =
    let rest = all_mono is_job_unit (λ c. not (c == 10)) t (λ c d. ground arith) (ground arith) in
    ground arith

pub signature_payload-injective :
    (a b : SignatureInput)
    → IsOneLine a.timestamp
    → IsOneLine a.nonce
    → IsOneLine a.job_id
    → IsOneLine b.timestamp
    → IsOneLine b.nonce
    → IsOneLine b.job_id
    → signature_payload a ≡ signature_payload b
    → a ≡ b
unfolding signature_payload
signature_payload-injective a b t n j t' n' j' h =
    let (same_timestamp, h1) = first_line a.timestamp b.timestamp _ _ t t' h in
    let (same_nonce, h2) = first_line a.nonce b.nonce _ _ n n' h1 in
    let (same_job, same_body) = first_line a.job_id b.job_id _ _ j j' h2 in cc

scaled : (a b p : ℕ) → a ≤ b * 10 → a * p ≤ b * (10 * p)
scaled a b p h = subst (λ m. a * p ≤ m) (mul_assoc b 10 p) (mul-le-mul_right p h)

read_from-bound :
    (n : ℕ) (t : Text) → all is_digit t ≡ true → suc (read_from n t) ≤ (n + 1) * 10 ^ length t
unfolding read_from
read_from-bound n [] h = omega arith
read_from-bound n (c ∷ t) h =
    let ih = read_from-bound (n * 10 + (c - b'0')) t (ground arith) in
    let digit : c - b'0' ≤ 9 = ground arith in
    let wide = scaled (n * 10 + (c - b'0') + 1) (n + 1) (10 ^ length t) (omega arith) in
    le_trans ih (
      subst (λ m. (n * 10 + (c - b'0') + 1) * 10 ^ length t ≤ (n + 1) * m)
        (sym (pow-succ' 10 (length t))) wide)

-- The number of a timestamp is safe, also with the window added.
pub is_timestamp-safe : (t : Text) → is_timestamp t ≡ true → read t + replay_window ≤ max_safe
unfolding read is_timestamp
is_timestamp-safe t h =
    let bound = read_from-bound 0 t (ground arith) in
    let thirteen : length t ≡ 13 = ground arith in let few = rw thirteen at bound in omega arith
