-- ===== src/Marketplace/Evidence/Matches.antt =====
-- The tests that packages/marketplace-domain/src/execution-evidence.ts and artifact-evidence.ts share,
-- as statements.
use token_streaming.Common.{ℕ, ◌+◌, ◌≤◌, ◌≡◌, ◌↔◌, refl, ap, Bool, true, ◌&&◌, nat_eq, ◌==◌, arith}
use token_streaming.Js.{Value, str}
use token_streaming.Js.Texts.{Text, text_eq, text_beq_iff}
use token_streaming.Marketplace.Evidence.{
  Usage, clock_skew, same_usage, is_within_clock_window, is_text,
}

-- The completion lies between the start and the check, five minutes of clock difference allowed.
pub record IsTimely (completed started verified : ℕ) : Type 0 where
  pub not_before : started ≤ completed + clock_skew
  pub not_after : completed ≤ verified + clock_skew

pub window_iff :
    (completed started verified : ℕ)
    → (is_within_clock_window completed started verified ≡ true)
      ↔ IsTimely completed started verified
unfolding is_within_clock_window
window_iff completed started verified = ((λ h. ground arith), (λ w. ground arith))

pub same_of_usage : (a b : Usage) → same_usage a b ≡ true → a ≡ b
unfolding same_usage
same_of_usage a b h =
    let (i, o, t) = three _ _ _ h in
    same a b ((nat_eq.beq_iff _ _).0 i) ((nat_eq.beq_iff _ _).0 o) ((nat_eq.beq_iff _ _).0 t)
  where
    three : (p q r : Bool) → (p && q && r) ≡ true → (p ≡ true) × (q ≡ true) × (r ≡ true)
    three p q r e = ground arith

    same :
        (u v : Usage)
        → u.input_tokens ≡ v.input_tokens
        → u.output_tokens ≡ v.output_tokens
        → u.total_tokens ≡ v.total_tokens
        → u ≡ v
    same u v i o t k = record { input_tokens = i k; output_tokens = o k; total_tokens = t k }

pub usage_of_same : (a b : Usage) → a ≡ b → same_usage a b ≡ true
unfolding same_usage
usage_of_same a b e = rw e (self b)
  where
    self :
        (u : Usage)
        → (u.input_tokens == u.input_tokens
            && u.output_tokens == u.output_tokens
            && u.total_tokens == u.total_tokens)
          ≡ true
    self u = ground arith

pub text_of_is : (v : Value) (s : Text) → is_text v s ≡ true → v ≡ str s
unfolding is_text
text_of_is (str t) s h = ap str ((text_beq_iff t s).0 h)
text_of_is _ s h = cc

pub is_of_text : (v : Value) (s : Text) → v ≡ str s → is_text v s ≡ true
unfolding is_text
is_of_text v s e = rw e ((text_beq_iff s s).1 refl)

pub is_text_iff : (v : Value) (s : Text) → (is_text v s ≡ true) ↔ (v ≡ str s)
is_text_iff v s = (text_of_is v s, is_of_text v s)
