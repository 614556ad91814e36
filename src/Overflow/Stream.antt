-- ===== src/Overflow/Stream.antt =====
-- What `cap_stream` returns and what it leaves on disk.
use prehnite.Prelude.{
  ℕ, ◌-◌, ◌<◌, ◌≤◌, ◌≡◌, refl, ap, ◌∙◌, [], ◌∷◌, ◌++◌, inl, inr, arith, leb, length, append-nil,
  length-append, none, some, list_eq, list_beq_iff, nat_eq, beq_refl, take, if◌then◌else◌,
  Bool-cases, Option-cases,
}
use prehnite.Prelude.Dict.{lookup, insert, lookup-insert}
use prehnite.Text.{Str}
use prehnite.Text.Utf8.{Bytes, AllScalar, encode_char, encode, decode}
use prehnite.Text.Utf8.RoundTrip.{decode-encode}
use prehnite.Schemas.{Value, str}
use prehnite.Overflow.{OverflowDir, write_once, cap_stream, walk_back}
use prehnite.Overflow.Boundary.{fit, take-walk_back}

-- `v` is the longest prefix of `text`, in whole characters, whose encoding has at most `max_bytes`
-- bytes; `rest` is what was cut off.
pub record IsCut (max_bytes : ℕ) (text : Str) (v : Value) : Type 0 where
  pub head : Str
  pub rest : Str
  pub shown : v ≡ str head
  pub split : head ++ rest ≡ text
  pub bounded : length (encode head) ≤ max_bytes
  pub greedy : (c : ℕ) (r : Str) → rest ≡ c ∷ r → max_bytes < length (encode (head ++ c ∷ []))

left_over : ℕ → Str → Str
left_over n [] = []
left_over n (c ∷ s) =
    let rest = left_over (n - length (encode_char c)) s in
    if leb (length (encode_char c)) n then rest else c ∷ s

fit-AllScalar : (n : ℕ) (s : Str) → AllScalar s → AllScalar (fit n s)
unfolding fit
fit-AllScalar n [] h = tt
fit-AllScalar n (c ∷ s) h = elim (Bool-cases (leb (length (encode_char c)) n)) [
  | inl e ↦ rw e (h.0, fit-AllScalar (n - length (encode_char c)) s h.1)
  | inr e ↦ rw e tt
]

fit-append-left_over : (n : ℕ) (s : Str) → fit n s ++ left_over n s ≡ s
unfolding fit left_over
fit-append-left_over n [] = refl
fit-append-left_over n (c ∷ s) = ground (arith, fit-append-left_over (n - length (encode_char c)) s)

length-encode-fit : (n : ℕ) (s : Str) → length (encode (fit n s)) ≤ n
unfolding fit encode
length-encode-fit n [] = omega arith
length-encode-fit n (c ∷ s) =
    let k = n - length (encode_char c) in
    elim (Bool-cases (leb (length (encode_char c)) n)) [
      | inl e ↦
          rw e (
            ground (arith, length-encode-fit k s, length-append (encode_char c) (encode (fit k s))))
      | inr e ↦ rw e (omega arith)
    ]

fit_greedy :
    (n : ℕ) (s : Str) (c : ℕ) (r : Str)
    → left_over n s ≡ c ∷ r
    → n < length (encode (fit n s ++ c ∷ []))
unfolding fit left_over encode
fit_greedy n [] c r h = cc
fit_greedy n (d ∷ s) c r h =
    let k = n - length (encode_char d) in
    elim (Bool-cases (leb (length (encode_char d)) n)) [
      | inl e ↦ rw e (
          ground (
            arith,
            fit_greedy k s c r (rw e at h),
            length-append (encode_char d) (encode (fit k s ++ c ∷ [])),
          ))
      | inr e ↦ rw e (ground (arith, length-append (encode_char c) []))
    ]

short-IsCut :
    (max_bytes : ℕ) (text : Str)
    → length (encode text) ≤ max_bytes
    → IsCut max_bytes text (str text)
short-IsCut max_bytes text h = record {
  head = text;
  rest = [];
  shown = refl;
  split = append-nil text;
  bounded = h;
  greedy = λ c r e. cc;
}

long-IsCut :
    (max_bytes : ℕ) (text : Str)
    → AllScalar text
    → max_bytes < length (encode text)
    → IsCut max_bytes text (str (decode (take (walk_back (encode text) max_bytes) (encode text))))
long-IsCut max_bytes text s h = record {
  head = fit max_bytes text;
  rest = left_over max_bytes text;
  shown = ap str (
      ap decode (take-walk_back text max_bytes s h)
      ∙ decode-encode (fit max_bytes text) (fit-AllScalar max_bytes text s));
  split = fit-append-left_over max_bytes text;
  bounded = length-encode-fit max_bytes text;
  greedy = fit_greedy max_bytes text;
}

module _ (sha256 : Bytes → Str) (max_bytes : ℕ) where
  -- Whatever the length of the text, the returned text is its longest prefix, in whole characters,
  -- whose UTF-8 form has at most `max_bytes` bytes.
  pub cap_stream-IsCut :
      (text : Str) (dir : OverflowDir)
      → AllScalar text
      → IsCut max_bytes text (cap_stream sha256 max_bytes (str text) dir).0.0
  unfolding cap_stream
  cap_stream-IsCut text dir s = elim (Bool-cases (leb (length (encode text)) max_bytes)) [
    | inl e ↦ rw e (short-IsCut max_bytes text (ground arith))
    | inr e ↦ rw e (long-IsCut max_bytes text s (ground arith))
  ]

-- Every file of the directory bears the hash of its content.
abbrev pub IsAddressed : (Bytes → Str) → OverflowDir → Type 0
IsAddressed sha256 dir =
    (name : Str) (content : Bytes) → lookup name dir ≡ some content → sha256 content ≡ name

-- No other bytes have the hash of these.
abbrev pub IsCollisionFree : (Bytes → Str) → Bytes → Type 0
IsCollisionFree sha256 bytes = (other : Bytes) → sha256 other ≡ sha256 bytes → other ≡ bytes

module _ (name : Str) (content : Bytes) (dir : OverflowDir) where
  write_once_fresh : lookup name dir ≡ none → write_once name content dir ≡ insert name content dir
  unfolding write_once
  write_once_fresh h = rw (h, write_once)

  write_once_known : {old : Bytes} → lookup name dir ≡ some old → write_once name content dir ≡ dir
  unfolding write_once
  write_once_known h = rw (h, write_once)

  write_once-keeps :
      (j : Str) (old : Bytes)
      → lookup j dir ≡ some old
      → lookup j (write_once name content dir) ≡ some old
  write_once-keeps j old h = elim (Option-cases (lookup name dir)) [
    | inl e ↦ rw (write_once_fresh e) (rw lookup-insert (ground (arith, list_beq_iff name j)))
    | inr (known, e) ↦ rw (write_once_known e) h
  ]

module _ (sha256 : Bytes → Str) (content : Bytes) (dir : OverflowDir)
    (addressed : IsAddressed sha256 dir) where
  write_once-IsAddressed : IsAddressed sha256 (write_once (sha256 content) content dir)
  write_once-IsAddressed name c h = elim (Option-cases (lookup (sha256 content) dir)) [
    | inl e ↦ ground (
      arith,
      list_beq_iff (sha256 content) name,
      addressed name c,
      lookup-insert (sha256 content) name content dir,
      rw (write_once_fresh (sha256 content) content dir e) at h,
    )
    | inr (known, e) ↦ addressed name c (rw (write_once_known (sha256 content) content dir e) at h)
  ]

  lookup-write_once :
      IsCollisionFree sha256 content
      → lookup (sha256 content) (write_once (sha256 content) content dir) ≡ some content
  lookup-write_once unique = elim (Option-cases (lookup (sha256 content) dir)) [
    | inl e ↦
        rw (write_once_fresh (sha256 content) content dir e)
          (rw lookup-insert (rw (beq_refl (sha256 content))))
    | inr (known, e) ↦
        rw (write_once_known (sha256 content) content dir e)
          (e ∙ ap some (unique known (addressed (sha256 content) known e)))
  ]

-- What a call of `cap_stream` leaves on disk.
pub record IsSpilled (sha256 : Bytes → Str) (max_bytes : ℕ) (text : Str)
    (before after : OverflowDir) : Type 0 where
  pub addressed : IsAddressed sha256 after
  pub kept : (j : Str) (old : Bytes) → lookup j before ≡ some old → lookup j after ≡ some old
  pub recovered :
      max_bytes < length (encode text) → lookup (sha256 (encode text)) after ≡ some (encode text)
  pub untouched : length (encode text) ≤ max_bytes → after ≡ before

-- No file is lost, every file keeps the hash of its content as its name, and if the text was cut
-- its whole encoding is found under its hash; a text that fits writes nothing. (Assumed: the hash
-- of this text belongs to no other bytes.)
pub cap_stream-IsSpilled :
    (sha256 : Bytes → Str) (max_bytes : ℕ) (text : Str) (dir : OverflowDir)
    → IsAddressed sha256 dir
    → IsCollisionFree sha256 (encode text)
    → IsSpilled sha256 max_bytes text dir (cap_stream sha256 max_bytes (str text) dir).1
unfolding cap_stream
cap_stream-IsSpilled sha256 max_bytes text dir addressed unique =
    elim (Bool-cases (leb (length (encode text)) max_bytes)) [
      | inl e ↦ rw e (record {
        addressed = addressed;
        kept = λ j old h. h;
        recovered = λ h. absurd (ground arith);
        untouched = λ h. refl;
      })
      | inr e ↦ rw e (record {
        addressed = write_once-IsAddressed sha256 (encode text) dir addressed;
        kept = write_once-keeps (sha256 (encode text)) (encode text) dir;
        recovered = λ h. lookup-write_once sha256 (encode text) dir addressed unique;
        untouched = λ h. absurd (ground arith);
      })
    ]

-- Capping the same text again, at any limit that it passes, writes nothing: the directory is the
-- one that the first call left.
pub cap_stream_again :
    (sha256 : Bytes → Str) (m n : ℕ) (text : Str) (dir : OverflowDir)
    → IsAddressed sha256 dir
    → IsCollisionFree sha256 (encode text)
    → m < length (encode text)
    → let after = (cap_stream sha256 m (str text) dir).1 in
      (cap_stream sha256 n (str text) after).1 ≡ after
cap_stream_again sha256 m n text dir addressed unique long =
    let spilled = cap_stream-IsSpilled sha256 m text dir addressed unique in
    let found = spilled.recovered long in
    unfold cap_stream in
    elim (Bool-cases (leb (length (encode text)) n)) [
      | inl e ↦ rw e
      | inr e ↦ rw e (write_once_known _ (encode text) _ found)
    ]
