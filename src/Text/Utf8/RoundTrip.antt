-- ===== src/Text/Utf8/RoundTrip.antt =====
-- Decoding what was encoded gives the text back.
use prehnite.Prelude.{
  ◌∙◌, ℕ, ◌<◌, ◌≤◌, ◌≡◌, refl, ap, [], ◌∷◌, ◌++◌, inl, inr, arith, ltb, Bool-cases,
}
use prehnite.Text.{Str}
use prehnite.Text.Utf8.{Bytes, IsScalar, AllScalar, encode_char, encode, idle, decode_from, decode}

module _ (c : ℕ) (bs : Bytes) where
  decode_one : c < 0x80 → decode_from idle (encode_char c ++ bs) ≡ c ∷ decode_from idle bs
  unfolding decode_from encode_char
  decode_one h = ground arith

  decode_two :
      0x80 ≤ c → c < 0x800 → decode_from idle (encode_char c ++ bs) ≡ c ∷ decode_from idle bs
  unfolding decode_from encode_char
  decode_two h k = ground arith

  decode_three :
      0x800 ≤ c
      → c < 0x10000
      → IsScalar c
      → decode_from idle (encode_char c ++ bs) ≡ c ∷ decode_from idle bs
  unfolding decode_from encode_char
  decode_three h k s = ground arith

  decode_four :
      0x10000 ≤ c → c < 0x110000 → decode_from idle (encode_char c ++ bs) ≡ c ∷ decode_from idle bs
  unfolding decode_from encode_char
  decode_four h k = ground arith

decode_char :
    (c : ℕ) (bs : Bytes)
    → IsScalar c
    → decode_from idle (encode_char c ++ bs) ≡ c ∷ decode_from idle bs
decode_char c bs s = elim (Bool-cases (ltb c 0x80)) [
  | inl e ↦ decode_one c bs (ground arith)
  | inr e ↦ elim (Bool-cases (ltb c 0x800)) [
    | inl f ↦ decode_two c bs (ground arith) (ground arith)
    | inr f ↦ elim (Bool-cases (ltb c 0x10000)) [
      | inl g ↦ decode_three c bs (ground arith) (ground arith) s
      | inr g ↦ decode_four c bs (ground arith) (ground arith)
    ]
  ]
]

decode_from-encode : (s : Str) → AllScalar s → decode_from idle (encode s) ≡ s
unfolding encode
decode_from-encode [] h = unfold decode_from in refl
decode_from-encode (c ∷ s) h =
    decode_char c (encode s) h.0 ∙ ap (λ (t : Str). c ∷ t) (decode_from-encode s h.1)

pub decode-encode : (s : Str) → AllScalar s → decode (encode s) ≡ s
unfolding decode
decode-encode s h = decode_from-encode s h
