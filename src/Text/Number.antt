-- ===== src/Text/Number.antt =====
-- `int(s)` on a text of ASCII characters: spaces at the ends, a sign, digits with single
-- underscores between them; anything else is a `ValueError`. And `str(n)` of a natural number.
use prehnite.Prelude.{
  ℕ, zero, suc, ◌+◌, ◌-◌, ◌*◌, ◌/◌, ◌%◌, Bool, false, ◌&&◌, ◌||◌, [], ◌∷◌, Option, none, some, leb,
  ltb, ◌==◌, nat_eq, if◌then◌else◌,
}
use prehnite.Prelude.Int.{ℤ, pos, negsuc}
use prehnite.Text.{Str}
use prehnite.Text.Lines.{strip}

is_digit : ℕ → Bool
is_digit c = leb b'0' c && leb c b'9'

-- `last` says that the character before was a digit.
scan : Bool → ℕ → Str → Option ℕ
scan last n [] = if last then some n else none
scan last n (c ∷ s) =
    let rest = scan (is_digit c) (if is_digit c then n * 10 + (c - b'0') else n) s in
    if is_digit c || c == b'_' && last then rest else none

negate : Option ℕ → Option ℤ
negate none = none
negate (some zero) = some (pos 0)
negate (some (suc n)) = some (negsuc n)

positive : Option ℕ → Option ℤ
positive none = none
positive (some n) = some (pos n)

signed : Str → Option ℤ
signed [] = none
signed (c ∷ s) =
    if c == b'-'
    then negate (scan false 0 s)
    else if c == b'+'
    then positive (scan false 0 s)
    else positive (scan false 0 (c ∷ s))

unfoldable pub parse_int : Str → Option ℤ
unfolding signed scan negate positive is_digit strip
parse_int s = signed (strip s)

digits : ℕ → ℕ → Str → Str
digits zero n later = later
digits (suc fuel) n later =
    let more = digits fuel (n / 10) ((b'0' + n % 10) ∷ later) in
    if ltb n 10 then (b'0' + n) ∷ later else more

-- `str(n)`: a number has fewer than n + 1 digits, and at least one.
unfoldable pub str_nat : ℕ → Str
unfolding digits
str_nat n = digits (suc n) n []

unfoldable pub str_int : ℤ → Str
str_int (pos n) = str_nat n
str_int (negsuc n) = b'-' ∷ str_nat (suc n)
