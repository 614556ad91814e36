-- ===== src/Overflow/Boundary.antt =====
-- The walk back from the byte limit ends at the last whole character that fits.
use prehnite.Prelude.{
  ℕ, zero, suc, ◌+◌, ◌-◌, ◌/◌, ◌%◌, ◌<◌, ◌≤◌, ◌≡◌, refl, sym, ap, ◌∙◌, Bool, true, false, not, [],
  ◌∷◌, ◌++◌, inl, inr, arith, ltb, leb, length, get_or, take, length-append, if◌then◌else◌,
  Bool-cases,
}
use mathlib.Core.Path.{subst}
use prehnite.Text.{Str}
use prehnite.Text.Utf8.{Bytes, IsScalar, AllScalar, encode_char, encode}
use prehnite.Overflow.{is_continuation, walk_back}

-- A table of Booleans for the numbers below a bound.
holds_below : (ℕ → Bool) → ℕ → Bool
holds_below p zero = true
holds_below p (suc n) = if holds_below p n then p n else false

holds_below-lookup :
    (p : ℕ → Bool) (bound c : ℕ) → c < bound → holds_below p bound ≡ true → p c ≡ true
unfolding holds_below
holds_below-lookup p zero c below h = absurd (omega arith)
holds_below-lookup p (suc bound) c below h = ground (arith, holds_below-lookup p bound c)

continuation_table : holds_below (λ x. is_continuation (0x80 + x)) 64 ≡ true
unfolding holds_below is_continuation
continuation_table = refl

ascii_table : holds_below (λ x. not (is_continuation x)) 128 ≡ true
unfolding holds_below is_continuation
ascii_table = refl

lead_table : holds_below (λ x. not (is_continuation (0xC0 + x))) 64 ≡ true
unfolding holds_below is_continuation
lead_table = refl

abbrev AllContinuation : Bytes → Type 0
AllContinuation [] = Unit
AllContinuation (b ∷ bs) = (is_continuation b ≡ true) × AllContinuation bs

-- What an encoded character looks like: a first byte that is no continuation, then continuations.
record IsSequence (bs : Bytes) : Type 0 where
  lead : ℕ
  rest : Bytes
  shape : bs ≡ lead ∷ rest
  lead_ok : is_continuation lead ≡ false
  rest_ok : AllContinuation rest

low : (x : ℕ) → is_continuation (0x80 + x % 64) ≡ true
low x = holds_below-lookup _ 64 (x % 64) (omega arith) continuation_table

ascii : (c : ℕ) → c < 0x80 → is_continuation c ≡ false
ascii c h =
    ground
      (arith, holds_below-lookup (λ x. not (is_continuation x)) 128 c (omega arith) ascii_table)

high : (x : ℕ) → x < 64 → is_continuation (0xC0 + x) ≡ false
high x h = ground (
  arith,
  holds_below-lookup (λ x. not (is_continuation (0xC0 + x))) 64 x (omega arith) lead_table,
)

high_three : (x : ℕ) → x < 16 → is_continuation (0xE0 + x) ≡ false
high_three x h =
    let e : 0xE0 + x ≡ 0xC0 + (0x20 + x) = omega arith in rw e (high (0x20 + x) (omega arith))

high_four : (x : ℕ) → x < 16 → is_continuation (0xF0 + x) ≡ false
high_four x h =
    let e : 0xF0 + x ≡ 0xC0 + (0x30 + x) = omega arith in rw e (high (0x30 + x) (omega arith))

encode_char-IsSequence : (c : ℕ) → IsScalar c → IsSequence (encode_char c)
unfolding encode_char
encode_char-IsSequence c s = elim (Bool-cases (ltb c 0x80)) [
  | inl e ↦ record {
    lead = c;
    rest = [];
    shape = ground arith;
    lead_ok = ascii c (ground arith);
    rest_ok = tt;
  }
  | inr e ↦ elim (Bool-cases (ltb c 0x800)) [
    | inl f ↦ record {
      lead = 0xC0 + c / 64;
      rest = (0x80 + c % 64) ∷ [];
      shape = ground arith;
      lead_ok = high (c / 64) (ground arith);
      rest_ok = (low c, tt);
    }
    | inr f ↦ elim (Bool-cases (ltb c 0x10000)) [
      | inl g ↦ record {
        lead = 0xE0 + c / 4096;
        rest = (0x80 + c / 64 % 64) ∷ (0x80 + c % 64) ∷ [];
        shape = ground arith;
        lead_ok = high_three (c / 4096) (ground arith);
        rest_ok = (low (c / 64), (low c, tt));
      }
      | inr g ↦ record {
        lead = 0xF0 + c / 262144;
        rest = (0x80 + c / 4096 % 64) ∷ (0x80 + c / 64 % 64) ∷ (0x80 + c % 64) ∷ [];
        shape = ground arith;
        lead_ok = high_four (c / 262144) (ground arith);
        rest_ok = (low (c / 4096), (low (c / 64), (low c, tt)));
      }
    ]
  ]
]

-- A byte among the continuations, whatever follows.
get_or-AllContinuation :
    (cs ys : Bytes) (k : ℕ)
    → AllContinuation cs
    → k < length cs
    → is_continuation (get_or (cs ++ ys) k 0) ≡ true
get_or-AllContinuation [] ys k h lt = absurd (omega arith)
get_or-AllContinuation (c ∷ cs) ys zero h lt = h.0
get_or-AllContinuation (c ∷ cs) ys (suc k) h lt = get_or-AllContinuation cs ys k h.1 (omega arith)

-- A limit inside the first character leaves nothing.
walk_back_inside :
    (b : ℕ) (cs ys : Bytes) (k : ℕ)
    → AllContinuation cs
    → k ≤ length cs
    → walk_back (b ∷ cs ++ ys) k ≡ 0
unfolding walk_back
walk_back_inside b cs ys zero h le = refl
walk_back_inside b cs ys (suc k) h le =
    rw (get_or-AllContinuation cs ys k h (omega arith)) (walk_back_inside b cs ys k h (omega arith))

get_or-append : (xs ys : Bytes) (k : ℕ) → get_or (xs ++ ys) (length xs + k) 0 ≡ get_or ys k 0
get_or-append [] ys k = let e : 0 + k ≡ k = omega arith in rw e
get_or-append (x ∷ xs) ys k =
    let e : suc (length xs) + k ≡ suc (length xs + k) = omega arith in rw e (get_or-append xs ys k)

-- Beyond the first character the walk is that over what follows it.
walk_back-append :
    (b : ℕ) (cs ys : Bytes) (k : ℕ)
    → is_continuation (get_or ys 0 0) ≡ false
    → walk_back ((b ∷ cs) ++ ys) (length (b ∷ cs) + k) ≡ length (b ∷ cs) + walk_back ys k
unfolding walk_back
walk_back-append b cs ys zero h =
    let e : suc (length cs) + 0 ≡ suc (length cs) = omega arith in
    let g : get_or (cs ++ ys) (length cs + 0) 0 ≡ get_or ys 0 0 = get_or-append cs ys 0 in
    let e' : length cs + 0 ≡ length cs = omega arith in rw e (rw (← e') (rw (g, h) (rw e')))
walk_back-append b cs ys (suc k) h =
    let e : suc (length cs) + suc k ≡ suc (suc (length cs) + k) = omega arith in
    let e' : suc (length cs) + k ≡ length cs + suc k = omega arith in
    let g : is_continuation (get_or (cs ++ ys) (suc (length cs) + k) 0)
        ≡ is_continuation (get_or ys (suc k) 0) =
      rw e' (ap is_continuation (get_or-append cs ys (suc k))) in
    rw e (ground (arith, g, walk_back-append b cs ys k h))

take-append : (xs ys : Bytes) (k : ℕ) → take (length xs + k) (xs ++ ys) ≡ xs ++ take k ys
take-append [] ys k = let e : 0 + k ≡ k = omega arith in rw e
take-append (x ∷ xs) ys k =
    let e : suc (length xs) + k ≡ suc (length xs + k) = omega arith in
    rw e (ap (λ (t : Bytes). x ∷ t) (take-append xs ys k))

-- The characters of a text that fit into `n` bytes, greedily.
unfoldable pub fit : ℕ → Str → Str
fit n [] = []
fit n (c ∷ s) =
    let rest = fit (n - length (encode_char c)) s in
    if leb (length (encode_char c)) n then c ∷ rest else []

-- An encoded text that is not empty does not begin with a continuation.
encode_lead :
    (s : Str)
    → AllScalar s
    → 0 < length (encode s)
    → is_continuation (get_or (encode s) 0 0) ≡ false
unfolding encode
encode_lead [] h lt = absurd (omega arith)
encode_lead (c ∷ s) h lt = let q = encode_char-IsSequence c h.0 in rw q.shape q.lead_ok

module _ {xs : Bytes} (q : IsSequence xs) (ys : Bytes) where
  cut_inside : (n : ℕ) → n < length xs → take (walk_back (xs ++ ys) n) (xs ++ ys) ≡ []
  cut_inside n lt =
      let le : suc n ≤ length (q.lead ∷ q.rest) = rw q.shape at lt in
      rw q.shape (rw (walk_back_inside q.lead q.rest ys n q.rest_ok (omega arith)) refl)

  cut_beyond :
      (k : ℕ)
      → is_continuation (get_or ys 0 0) ≡ false
      → take (walk_back (xs ++ ys) (length xs + k)) (xs ++ ys) ≡ xs ++ take (walk_back ys k) ys
  cut_beyond k h = rw q.shape (
      rw (walk_back-append q.lead q.rest ys k h)
        (take-append (q.lead ∷ q.rest) ys (walk_back ys k)))

-- Cutting the bytes where the walk back ends is encoding the characters that fit.
pub take-walk_back :
    (s : Str) (n : ℕ)
    → AllScalar s
    → n < length (encode s)
    → take (walk_back (encode s) n) (encode s) ≡ encode (fit n s)
unfolding encode fit
take-walk_back [] n h lt = absurd (omega arith)
take-walk_back (c ∷ s) n h lt =
    let q = encode_char-IsSequence c h.0 in
    let l : length (encode_char c ++ encode s) ≡ length (encode_char c) + length (encode s) =
      length-append (encode_char c) (encode s) in
    elim (Bool-cases (leb (length (encode_char c)) n)) [
      | inl e ↦
          let e' : n ≡ length (encode_char c) + (n - length (encode_char c)) = ground arith in
          let k = n - length (encode_char c) in
          rw e (
            subst
              (λ m.
                take (walk_back (encode_char c ++ encode s) m) (encode_char c ++ encode s)
                ≡ encode_char c ++ encode (fit k s))
              (sym e')
              (cut_beyond q (encode s) k (encode_lead s h.1 (omega arith))
                ∙ ap (λ t. encode_char c ++ t) (take-walk_back s k h.1 (omega arith))))
      | inr e ↦ rw e (cut_inside q (encode s) n (ground arith))
    ]
