-- ===== src/Tests/OverflowTests.antt =====
-- The stream caps on small texts; the "hash" here is the identity, which has no collisions.
use prehnite.Prelude.{◌<◌, ◌≡◌, refl, [], ◌∷◌, arith, length, list_eq, string_eq}
use prehnite.Prelude.Dict.{lookup}
use prehnite.Text.{Str, lit}
use prehnite.Text.Utf8.{Bytes, encode, decode}
use prehnite.Schemas.{str, Payload}
use prehnite.Overflow.{cap_stream, cap_command_data, walk_back, is_continuation}
use prehnite.Overflow.Stream.{
  IsCut, IsSpilled, cap_stream-IsCut, cap_stream-IsSpilled, cap_stream_again,
}
use prehnite.Overflow.Command.{IsCapped, cap_command_data-IsCapped}
use prehnite.Text.Utf8.RoundTrip.{decode-encode}

abbrev hash : Bytes → Str
hash bytes = bytes

-- "aé€b": 1, 2, 3 and 1 bytes.
abbrev mixed : Str
mixed = 97 ∷ 233 ∷ 8364 ∷ 98 ∷ []

decode_ill_formed : decode (0x61 ∷ 0xE2 ∷ 0x82 ∷ 0x62 ∷ 0xC3 ∷ []) ≡ 97 ∷ 0xFFFD ∷ 98 ∷ 0xFFFD ∷ []
unfolding decode
decode_ill_formed = refl

cut_inside_char : (cap_stream hash 5 (str mixed) []).0.0 ≡ str (97 ∷ 233 ∷ [])
unfolding cap_stream walk_back encode decode is_continuation
cut_inside_char = refl

decode-encode_example : decode (encode mixed) ≡ mixed
decode-encode_example = decode-encode mixed (omega arith)

cap_stream-IsCut_example : IsCut 5 mixed (cap_stream hash 5 (str mixed) []).0.0
cap_stream-IsCut_example = cap_stream-IsCut hash 5 mixed [] (omega arith)

cap_stream-IsSpilled_example : IsSpilled hash 5 mixed [] (cap_stream hash 5 (str mixed) []).1
cap_stream-IsSpilled_example =
    cap_stream-IsSpilled hash 5 mixed [] (λ name content h. unfold lookup in cc) (λ other h. h)

mixed_long : 5 < length (encode mixed)
unfolding encode
mixed_long = omega arith

cap_stream_again_example :
    (cap_stream hash 3 (str mixed) (cap_stream hash 5 (str mixed) []).1).1
    ≡ (cap_stream hash 5 (str mixed) []).1
cap_stream_again_example =
    cap_stream_again hash 5 3 mixed [] (λ name content h. unfold lookup in cc) (λ other h. h)
      mixed_long

abbrev output : Payload
output = ("cmd", str (lit "ls")) ∷ ("stdout", str mixed) ∷ ("stderr", str []) ∷ []

cap_command_data-IsCapped_example : IsCapped 5 output (cap_command_data hash 5 output []).0
cap_command_data-IsCapped_example = cap_command_data-IsCapped hash 5 output []
