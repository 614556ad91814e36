-- ===== src/Text/Utf8.antt =====
-- UTF-8 as Python's codec does it: `str.encode("utf-8")`, and `bytes.decode("utf-8",
-- errors="replace")`, which puts U+FFFD for each maximal ill-formed part.
pub mod RoundTrip
use prehnite.Prelude.{
  ℕ, zero, suc, ◌+◌, ◌-◌, ◌*◌, ◌/◌, ◌%◌, ◌<◌, ◌≤◌, ◌⊎◌, Bool, ◌&&◌, List, [], ◌∷◌, ◌++◌, ltb, leb,
  ◌==◌, nat_eq, if◌then◌else◌,
}
use prehnite.Text.{Str}

abbrev pub Bytes : Type 0
Bytes = List ℕ

-- A Unicode scalar value: what the codec can encode (on a lone surrogate it raises).
abbrev pub IsScalar : ℕ → Type 0
IsScalar c = (c < 0xD800) ⊎ ((0xE000 ≤ c) × (c < 0x110000))

abbrev pub AllScalar : Str → Type 0
AllScalar [] = Unit
AllScalar (c ∷ s) = IsScalar c × AllScalar s

unfoldable pub encode_char : ℕ → Bytes
encode_char c =
    if ltb c 0x80
    then c ∷ []
    else if ltb c 0x800
    then (0xC0 + c / 64) ∷ (0x80 + c % 64) ∷ []
    else if ltb c 0x10000
    then (0xE0 + c / 4096) ∷ (0x80 + c / 64 % 64) ∷ (0x80 + c % 64) ∷ []
    else (0xF0 + c / 262144) ∷ (0x80 + c / 4096 % 64) ∷ (0x80 + c / 64 % 64) ∷ (0x80 + c % 64) ∷ []

-- `s.encode("utf-8")`
unfoldable pub encode : Str → Bytes
unfolding encode_char
encode [] = []
encode (c ∷ s) = encode_char c ++ encode s

-- Inside a sequence: how many bytes it wants, the value so far, and the range of the next byte.
pub data Pending : Type 0 where
  idle : Pending
  more : ℕ → ℕ → ℕ → ℕ → Pending

abbrev replacement : ℕ
replacement = 0xFFFD

between : ℕ → ℕ → ℕ → Bool
between lo b hi = leb lo b && leb b hi

-- The first byte of a sequence.
start : ℕ → Str × Pending
unfolding between
start b =
    if ltb b 0x80
    then (b ∷ [], idle)
    else if between 0xC2 b 0xDF
    then ([], more 1 (b - 0xC0) 0x80 0xBF)
    else if b == 0xE0
    then ([], more 2 0 0xA0 0xBF)
    else if b == 0xED
    then ([], more 2 0xD 0x80 0x9F)
    else if between 0xE1 b 0xEF
    then ([], more 2 (b - 0xE0) 0x80 0xBF)
    else if b == 0xF0
    then ([], more 3 0 0x90 0xBF)
    else if between 0xF1 b 0xF3
    then ([], more 3 (b - 0xF0) 0x80 0xBF)
    else if b == 0xF4
    then ([], more 3 4 0x80 0x8F)
    else (replacement ∷ [], idle)

-- The next byte of a sequence that wants `n` more.
continue : ℕ → ℕ → Str × Pending
continue n value = if n == 1 then (value ∷ [], idle) else ([], more (n - 1) value 0x80 0xBF)

-- An ill-formed part ends before the byte that does not fit; that byte starts anew.
restart : ℕ → Str × Pending
unfolding start
restart b = let (out, st) = start b in (replacement ∷ out, st)

step : Pending → ℕ → Str × Pending
unfolding start continue restart between
step idle b = start b
step (more n value lo hi) b =
    if between lo b hi then continue n (value * 64 + (b - 0x80)) else restart b

-- The bytes run out in the middle of a sequence.
flush : Pending → Str
flush idle = []
flush (more n value lo hi) = replacement ∷ []

pub decode_from : Pending → Bytes → Str
unfolding step flush
decode_from st [] = flush st
decode_from st (b ∷ bs) = let (out, st') = step st b in out ++ decode_from st' bs

-- `bs.decode("utf-8", errors="replace")`
unfoldable pub decode : Bytes → Str
unfolding decode_from
decode bs = decode_from idle bs
