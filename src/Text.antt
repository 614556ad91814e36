-- ===== src/Text.antt =====
-- Python's `str` as the sequence of its code points, with the operations that the program calls.
pub mod Utf8
pub mod Lines
pub mod Number
pub mod Order
pub mod Paths
use Prim.Native.Char.{code}
use prehnite.Prelude.{
  ℕ, zero, suc, ◌-◌, String, Bool, true, false, ◌&&◌, ◌||◌, List, [], ◌∷◌, ◌++◌, ltb, leb, length,
  take, drop, any, ◌==◌, nat_eq, list_eq, if◌then◌else◌,
}

abbrev pub Str : Type 0
Str = List ℕ

-- A literal of the source.
abbrev pub lit : String → Str
lit String.[] = []
lit (String.◌∷◌ c s) = code c ∷ lit s

-- `a < b` on `str`: the order of `sorted`.
unfoldable pub str_ltb : Str → Str → Bool
str_ltb [] [] = false
str_ltb [] (b ∷ bs) = true
str_ltb (a ∷ as') [] = false
str_ltb (a ∷ as') (b ∷ bs) = ltb a b || a == b && str_ltb as' bs

-- `s.endswith(t)`
unfoldable pub ends_with : Str → Str → Bool
ends_with s t = leb (length t) (length s) && drop (length s - length t) s == t
