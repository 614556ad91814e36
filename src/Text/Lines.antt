-- ===== src/Text/Lines.antt =====
-- Reading a text file line by line, with `line.strip()`, as the trajectory readers do. A carriage
-- return ends a line too (universal newlines); the empty line that "\r\n" then gives is skipped by
-- every reader.
use prehnite.Prelude.{
  ℕ, ◌≡◌, refl, Bool, false, ◌&&◌, ◌||◌, List, [], ◌∷◌, ◌++◌, leb, ◌==◌, nat_eq, if◌then◌else◌,
}
use prehnite.Text.{Str}

abbrev pub newline : ℕ
newline = 10

-- `str.isspace` of one character.
unfoldable pub is_space : ℕ → Bool
is_space c =
    leb 9 c && leb c 13
    || leb 28 c && leb c 32
    || c == 0x85
    || c == 0xA0
    || c == 0x1680
    || leb 0x2000 c && leb c 0x200A
    || c == 0x2028
    || c == 0x2029
    || c == 0x202F
    || c == 0x205F
    || c == 0x3000

unfoldable pub lstrip : Str → Str
lstrip [] = []
lstrip (c ∷ s) = let rest = lstrip s in if is_space c then rest else c ∷ s

rcons : ℕ → Str → Str
rcons c [] = if is_space c then [] else c ∷ []
rcons c (d ∷ s) = c ∷ d ∷ s

unfoldable pub rstrip : Str → Str
unfolding rcons
rstrip [] = []
rstrip (c ∷ s) = rcons c (rstrip s)

-- `s.strip()`
unfoldable pub strip : Str → Str
strip s = lstrip (rstrip s)

unfoldable pub is_line_end : ℕ → Bool
is_line_end c = c == 10 || c == 13

longer : ℕ → List Str → List Str
longer c [] = (c ∷ []) ∷ []
longer c (l ∷ ls) = (c ∷ l) ∷ ls

-- `for line in fh`, without the line ends.
unfoldable pub lines : Str → List Str
unfolding longer
lines [] = []
lines (c ∷ s) = if is_line_end c then [] ∷ lines s else longer c (lines s)

-- `if not line: continue`
drop_blank : List Str → List Str
drop_blank [] = []
drop_blank ([] ∷ ls) = drop_blank ls
drop_blank ((c ∷ l) ∷ ls) = (c ∷ l) ∷ drop_blank ls

strip_all : List Str → List Str
strip_all [] = []
strip_all (l ∷ ls) = strip l ∷ strip_all ls

-- The stripped lines that are not empty.
unfoldable pub records : Str → List Str
unfolding drop_blank strip_all
records content = drop_blank (strip_all (lines content))

abbrev pub OneLine : Str → Type 0
OneLine [] = Unit
OneLine (c ∷ s) = (is_line_end c ≡ false) × OneLine s

lines-append : (l s : Str) → OneLine l → lines (l ++ newline ∷ s) ≡ l ∷ lines s
unfolding lines is_line_end
lines-append [] s h = refl
lines-append (c ∷ l) s h = rw h.0 (rw (lines-append l s h.1))

-- One complete line in front, which is not blank and has no space at its ends.
pub records-append :
    (c : ℕ) (l s : Str)
    → OneLine (c ∷ l)
    → strip (c ∷ l) ≡ c ∷ l
    → records ((c ∷ l) ++ newline ∷ s) ≡ (c ∷ l) ∷ records s
unfolding records
records-append c l s h e = rw (lines-append (c ∷ l) s h) (rw e)

pub records-nil : records [] ≡ []
unfolding records lines
records-nil = refl

lines_last : (c : ℕ) (l : Str) → OneLine (c ∷ l) → lines (c ∷ l) ≡ (c ∷ l) ∷ []
unfolding lines is_line_end
lines_last c [] h = rw h.0
lines_last c (d ∷ l) h = rw h.0 (rw (lines_last d l h.1))

-- A line at the end of the file that was not ended.
pub records_last :
    (c : ℕ) (l : Str) → OneLine (c ∷ l) → strip (c ∷ l) ≡ c ∷ l → records (c ∷ l) ≡ (c ∷ l) ∷ []
unfolding records
records_last c l h e = rw (lines_last c l h) (rw e)
