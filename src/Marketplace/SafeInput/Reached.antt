-- ===== src/Marketplace/SafeInput/Reached.antt =====
-- What an accepted input looks like, stated by reachability in the object graph
-- (packages/marketplace-domain/src/validation.ts, `assertSafeInput`).
use token_streaming.Common.{
  subst, ℕ, zero, suc, ◌+◌, ◌≤◌, ◌≡◌, refl, Bool, true, false, List, [], ◌∷◌, Memᴰ, All, All-Memᴰ,
  ltb, contains, arith, nat_eq,
}
use token_streaming.Common.Outcome.{ok, throw_if, >>=-eq-ok, throw_if-eq-ok}
use token_streaming.Js.{
  non_finite, Value, undefined, null, exotic, bool, num, str, ref, Engine, entries,
}
use token_streaming.Js.Texts.{Text}
use token_streaming.Marketplace.SafeInput.{
  Pending, is_forbidden_key, is_classed, push_entries, walk, assert_safe_input,
}

-- `Reaches js v n w`: `n` property accesses lead from `v` to `w`.
pub data Reaches (js : Engine) : Value → ℕ → Value → Type 0 where
  here : {v : Value} → Reaches js v zero v
  into :
      {r : ℕ} {key : Text} {child : Value} {n : ℕ} {w : Value}
      → Memᴰ (key, child) (entries (js.heap r))
      → Reaches js child n w
      → Reaches js (ref r) (suc n) w

-- A value that may stand at depth `n`.
abbrev pub IsClean : Engine → ℕ → Value → Type 0
IsClean js n exotic = ⊥
IsClean js n (num non_finite) = ⊥
IsClean js n (ref r) =
    (n ≤ 12)
    × (is_classed (js.heap r) ≡ false)
    × All (λ (e : Text × Value). is_forbidden_key e.0 ≡ false) (entries (js.heap r))
IsClean js n _ = Unit

abbrev AllClean : Engine → Pending → Type 0
AllClean js (v, depth) = (n : ℕ) (w : Value) → Reaches js v n w → IsClean js (depth + n) w

abbrev is_ref : Value → Bool
is_ref (ref r) = true
is_ref _ = false

IsClean-leaf :
    (js : Engine) (depth n : ℕ) (v : Value) → is_ref v ≡ false → IsClean js depth v → IsClean js n v
IsClean-leaf js depth n (ref r) leaf h = cc
IsClean-leaf js depth n exotic leaf h = h
IsClean-leaf js depth n (num non_finite) leaf h = h
IsClean-leaf js depth n _ leaf h = tt

leaf-AllClean :
    (js : Engine) (v : Value) (depth : ℕ)
    → is_ref v ≡ false
    → IsClean js depth v
    → AllClean js (v, depth)
leaf-AllClean js v depth leaf clean n w here = IsClean-leaf js depth _ v leaf clean
leaf-AllClean js v depth leaf clean n w (into m reach) = cc

-- What is pushed, and what stood on the stack, is on the new stack; the keys are allowed.
push_entries_lem :
    (P : Pending → Type 0) (depth : ℕ) (fields : List (Text × Value)) (stack next : List Pending)
    → push_entries depth fields stack ≡ ok next
    → All P next
    → All P stack
      × All (λ (e : Text × Value). P (e.1, depth)) fields
      × All (λ (e : Text × Value). is_forbidden_key e.0 ≡ false) fields
unfolding push_entries
push_entries_lem P depth [] stack next h all = let same : stack ≡ next = cc in (rw same all, tt, tt)
push_entries_lem P depth ((key, child) ∷ fields) stack next h all =
    let (_, allowed, h') = >>=-eq-ok (throw_if (is_forbidden_key key) _) _ h in
    let (pushed, below, keys) =
      push_entries_lem P depth fields ((child, depth) ∷ stack) next h' all in
    (pushed.1, (pushed.0, below), (throw_if-eq-ok _ _ allowed, keys))

-- A child at one more access.
ref-AllClean :
    (js : Engine) (r depth : ℕ)
    → IsClean js depth (ref r)
    → All (λ (e : Text × Value). AllClean js (e.1, depth + 1)) (entries (js.heap r))
    → AllClean js (ref r, depth)
ref-AllClean js r depth clean children n w here = (omega (arith, clean.0), clean.1, clean.2)
ref-AllClean js r depth clean children (suc n) w (into {key} {child} m reach) =
    let below =
      All-Memᴰ (λ (e : Text × Value). AllClean js (e.1, depth + 1)) (entries (js.heap r)) children
        m in
    let shift : depth + 1 + n ≡ depth + suc n = omega arith in
    subst (λ k. IsClean js k w) shift (below n w reach)

walk-AllClean :
    (js : Engine) (seen : List ℕ) (room : ℕ) (stack : List Pending)
    → walk js seen room stack ≡ ok tt
    → All (AllClean js) stack
unfolding walk
walk-AllClean js seen room [] h = tt
walk-AllClean js seen room ((undefined, d) ∷ stack) h =
    (leaf-AllClean js undefined d refl tt, walk-AllClean js seen room stack h)
walk-AllClean js seen room ((null, d) ∷ stack) h =
    (leaf-AllClean js null d refl tt, walk-AllClean js seen room stack h)
walk-AllClean js seen room ((exotic, d) ∷ stack) h = cc
walk-AllClean js seen room ((bool b, d) ∷ stack) h =
    (leaf-AllClean js (bool b) d refl tt, walk-AllClean js seen room stack h)
walk-AllClean js seen room ((num non_finite, d) ∷ stack) h = cc
walk-AllClean js seen room ((num n, d) ∷ stack) h =
    (leaf-AllClean js (num n) d refl tt, walk-AllClean js seen room stack h)
walk-AllClean js seen room ((str s, d) ∷ stack) h =
    (leaf-AllClean js (str s) d refl tt, walk-AllClean js seen room stack h)
walk-AllClean js seen zero ((ref r, d) ∷ stack) h = cc
walk-AllClean js seen (suc room) ((ref r, d) ∷ stack) h =
    let (_, fresh, h1) = >>=-eq-ok (throw_if (contains seen r) _) _ h in
    let (_, shallow, h2) = >>=-eq-ok (throw_if (ltb 12 d) _) _ h1 in
    let (_, plain_object, h3) = >>=-eq-ok (throw_if (is_classed (js.heap r)) _) _ h2 in
    let (next, pushed, h4) = >>=-eq-ok (push_entries (d + 1) (entries (js.heap r)) stack) _ h3 in
    let later = walk-AllClean js (r ∷ seen) room next h4 in
    let (below, children, keys) =
      push_entries_lem (AllClean js) (d + 1) _ stack next pushed later in
    let level : ltb 12 d ≡ false = throw_if-eq-ok _ _ shallow in
    let clean : IsClean js d (ref r) = (ground arith, throw_if-eq-ok _ _ plain_object, keys) in
    (ref-AllClean js r d clean children, below)

-- Whatever an accepted input leads to by property accesses: no bigint, function, symbol or
-- non-finite number; every object is plain or an array, at most 12 accesses deep, and none of its
-- keys is credential-like.
pub assert_safe_input-IsClean :
    (js : Engine) (input : Value) (n : ℕ) (w : Value)
    → assert_safe_input js input ≡ ok tt
    → Reaches js input n w
    → IsClean js n w
unfolding assert_safe_input
assert_safe_input-IsClean js input n w accepted reach =
    let clean = walk-AllClean js [] 1000 ((input, 0) ∷ []) accepted in
    let shift : 0 + n ≡ n = omega arith in subst (λ k. IsClean js k w) shift (clean.0 n w reach)
