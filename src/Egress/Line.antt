-- ===== src/Egress/Line.antt =====
-- Reading the request line of a well-formed CONNECT request, whatever the sizes of the chunks it
-- comes in.
use prehnite.Prelude.{
  ℕ, ◌≡◌, ◌≤◌, refl, sym, ap, ◌∙◌, Bool, true, false, not, ◌&&◌, List, [], ◌∷◌, ◌++◌, append_assoc,
  append-nil, map, none, some, arith, all, length, length-append, leb, ltb, ◌==◌, nat_eq, list_eq,
  Bool-cases, inl, inr,
}
use prehnite.Text.{Str}
use prehnite.Text.Lines.{is_space}
use prehnite.Text.Utf8.{Bytes}
use prehnite.Egress.{
  Recv, chunk, has_crlf, first_line, read_request_line, decode_ascii, extend_word, words_from,
  rsplit_colon,
}

abbrev pub concat : List Bytes → Bytes
concat [] = []
concat (c ∷ cs) = c ++ concat cs

-- No call of `recv` gives the empty chunk that ends the stream.
abbrev pub AllNonempty : List Bytes → Type 0
AllNonempty [] = Unit
AllNonempty ([] ∷ cs) = ⊥
AllNonempty ((b ∷ bs) ∷ cs) = AllNonempty cs

first_line-append :
    (buf more : Bytes) → has_crlf buf ≡ true → first_line (buf ++ more) ≡ first_line buf
unfolding has_crlf first_line
first_line-append [] more h = cc
first_line-append (b ∷ []) more h = cc
first_line-append (b ∷ c ∷ bs) more h = ground (arith, first_line-append (c ∷ bs) more)

-- The line that the reading stops with is the first line of all the bytes.
pub read_request_line-chunks :
    (cs : List Bytes) (buf : Bytes)
    → AllNonempty cs
    → has_crlf (buf ++ concat cs) ≡ true
    → length (buf ++ concat cs) ≤ 16384
    → (buf' : Bytes) × (rest : List Recv) × (read_request_line (map chunk cs) buf
        ≡ some (buf', rest))
      × (first_line buf' ≡ first_line (buf ++ concat cs))
unfolding read_request_line
read_request_line-chunks [] buf a h l =
    let e = append-nil buf in (buf, [], rw (sym (ap has_crlf e) ∙ h) refl, sym (ap first_line e))
read_request_line-chunks ([] ∷ cs) buf a h l = elim a [ ]
read_request_line-chunks ((b ∷ bs) ∷ cs) buf a h l = elim (Bool-cases (has_crlf buf)) [
  | inl t ↦ (buf, chunk (b ∷ bs) ∷ map chunk cs, rw t refl, sym (first_line-append buf _ t))
  | inr f ↦
      let e : (buf ++ b ∷ bs) ++ concat cs ≡ buf ++ ((b ∷ bs) ++ concat cs) =
        append_assoc buf (b ∷ bs) (concat cs) in
      let m : ltb 16384 (length (buf ++ b ∷ bs)) ≡ false =
        ground (arith, length-append (buf ++ b ∷ bs) (concat cs), ap length e) in
      let (buf', rest, r, q) =
        read_request_line-chunks cs (buf ++ b ∷ bs) a (ap has_crlf e ∙ h) (rw e l) in
      (buf', rest, rw f (rw m r), q ∙ ap first_line e)
]

-- A visible ASCII character.
unfoldable pub is_visible : ℕ → Bool
is_visible c = leb 33 c && leb c 126

-- Text before the first "\r\n" that has no carriage return itself.
pub first_line-line :
    (s : Str) (rest : Bytes) → all (λ c. ltb 31 c) s ≡ true → first_line (s ++ 13 ∷ 10 ∷ rest) ≡ s
unfolding first_line all
first_line-line [] rest h = refl
first_line-line (c ∷ []) rest h = ground arith
first_line-line (c ∷ d ∷ s) rest h = ground (arith, first_line-line (d ∷ s) rest)

pub has_crlf-line : (s : Str) (rest : Bytes) → has_crlf (s ++ 13 ∷ 10 ∷ rest) ≡ true
unfolding has_crlf
has_crlf-line [] rest = refl
has_crlf-line (c ∷ []) rest = ground arith
has_crlf-line (c ∷ d ∷ s) rest = ground (arith, has_crlf-line (d ∷ s) rest)

pub decode_ascii-lem : (s : Str) → all (λ c. ltb c 128) s ≡ true → decode_ascii s ≡ s
unfolding decode_ascii all
decode_ascii-lem [] h = refl
decode_ascii-lem (c ∷ s) h = ground (arith, decode_ascii-lem s)

pub words_from-word :
    (w s : Str) → all is_visible w ≡ true → words_from (w ++ 32 ∷ s) ≡ w ∷ words_from s
unfolding words_from extend_word all is_visible is_space
words_from-word [] s h = refl
words_from-word (c ∷ w) s h = ground (arith, words_from-word w s)

rsplit_colon-none : (p : Str) → all (λ c. not (c == b':')) p ≡ true → rsplit_colon p ≡ none
unfolding rsplit_colon all
rsplit_colon-none [] h = refl
rsplit_colon-none (c ∷ p) h = ground (arith, rsplit_colon-none p)

pub rsplit_colon-last :
    (host p : Str)
    → all (λ c. not (c == b':')) p ≡ true
    → rsplit_colon (host ++ b':' ∷ p) ≡ some (host, p)
unfolding rsplit_colon
rsplit_colon-last [] p h = rw (rsplit_colon-none p h) refl
rsplit_colon-last (c ∷ host) p h = rw (rsplit_colon-last host p h) refl
