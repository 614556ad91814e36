-- ===== src/Overflow/Command.antt =====
-- `cap_command_data`: the two streams of a command's payload.
use Prim.Native.String.{◌++◌ as ◌<>◌}
use prehnite.Prelude.{
  ℕ, ◌≡◌, refl, ◌∙◌, String, false, List, [], ◌∷◌, inl, inr, arith, leb, length, Option, some, ◌==◌,
  string_eq, contains, beq_refl, Bool-cases,
}
use prehnite.Prelude.Dict.{lookup, lookup-insert}
use prehnite.Text.{Str}
use prehnite.Text.Utf8.{Bytes, AllScalar, encode}
use prehnite.Schemas.{Value, str, Payload}
use prehnite.Overflow.{OverflowDir, cap_stream, cap_string, cap_command_data, merge_meta}
use prehnite.Overflow.Stream.{IsCut, cap_stream-IsCut}

module _ (sha256 : Bytes → Str) (max_bytes : ℕ) where
  -- A field's step writes its own key and its three metadata keys.
  lookup-cap_string_ne :
      (field prefix : String) (o : Option Value) (out : Payload) (dir : OverflowDir) (k : String)
      → (field == k) ≡ false
      → (prefix <> "_" <> "truncated" == k) ≡ false
      → (prefix <> "_" <> "overflow_sha256" == k) ≡ false
      → (prefix <> "_" <> "original_bytes" == k) ≡ false
      → lookup k (cap_string sha256 max_bytes field prefix o out dir).0 ≡ lookup k out
  unfolding cap_string cap_stream merge_meta
  lookup-cap_string_ne field prefix (some (str text)) out dir k a b c d =
      elim (Bool-cases (leb (length (encode text)) max_bytes)) [
        | inl e ↦ rw e (simp (lookup-insert, a))
        | inr e ↦ rw e (simp (lookup-insert, a, b, c, d))
      ]
  lookup-cap_string_ne field prefix _ out dir k a b c d = refl

  lookup-cap_string_self :
      (field prefix : String) (text : Str) (out : Payload) (dir : OverflowDir)
      → (prefix <> "_" <> "truncated" == field) ≡ false
      → (prefix <> "_" <> "overflow_sha256" == field) ≡ false
      → (prefix <> "_" <> "original_bytes" == field) ≡ false
      → lookup field (cap_string sha256 max_bytes field prefix (some (str text)) out dir).0
        ≡ some (cap_stream sha256 max_bytes (str text) dir).0.0
  unfolding cap_string cap_stream merge_meta
  lookup-cap_string_self field prefix text out dir b c d =
      elim (Bool-cases (leb (length (encode text)) max_bytes)) [
        | inl e ↦ rw e (simp (lookup-insert, beq_refl))
        | inr e ↦ rw e (simp (lookup-insert, beq_refl, b, c, d))
      ]

  module _ (command_data : Payload) (dir : OverflowDir) where
    after_stdout : Payload × OverflowDir
    after_stdout =
        cap_string sha256 max_bytes "stdout" "stdout" (lookup "stdout" command_data) command_data
          dir

    lookup-stdout :
        (text : Str)
        → lookup "stdout" command_data ≡ some (str text)
        → lookup "stdout" (cap_command_data sha256 max_bytes command_data dir).0
          ≡ some (cap_stream sha256 max_bytes (str text) dir).0.0
    unfolding cap_command_data after_stdout
    lookup-stdout text h =
        lookup-cap_string_ne "stderr" "stderr" (lookup "stderr" after_stdout.0) after_stdout.0
          after_stdout.1 "stdout" refl refl refl refl
        ∙ rw h (lookup-cap_string_self "stdout" "stdout" text command_data dir refl refl refl)

    lookup-stderr :
        (text : Str)
        → lookup "stderr" command_data ≡ some (str text)
        → lookup "stderr" (cap_command_data sha256 max_bytes command_data dir).0
          ≡ some (cap_stream sha256 max_bytes (str text) after_stdout.1).0.0
    unfolding cap_command_data after_stdout
    lookup-stderr text h =
        let e : lookup "stderr" after_stdout.0 ≡ some (str text) =
          lookup-cap_string_ne "stdout" "stdout" _ command_data dir "stderr" refl refl refl refl
          ∙ h in
        rw e (
          lookup-cap_string_self "stderr" "stderr" text after_stdout.0 after_stdout.1 refl refl
            refl)

abbrev pub written_keys : List String
written_keys =
    "stdout" ∷ "stdout_truncated" ∷ "stdout_overflow_sha256" ∷ "stdout_original_bytes" ∷ "stderr"
    ∷ "stderr_truncated" ∷ "stderr_overflow_sha256" ∷ "stderr_original_bytes" ∷ []

lookup-other :
    (sha256 : Bytes → Str) (max_bytes : ℕ) (command_data : Payload) (dir : OverflowDir) (k : String)
    → contains written_keys k ≡ false
    → lookup k (cap_command_data sha256 max_bytes command_data dir).0 ≡ lookup k command_data
unfolding cap_command_data contains
lookup-other sha256 max_bytes command_data dir k h =
    lookup-cap_string_ne sha256 max_bytes "stderr" "stderr" _ _ _ k (ground arith) (ground arith)
      (ground arith) (ground arith)
    ∙ lookup-cap_string_ne sha256 max_bytes "stdout" "stdout" _ command_data dir k (ground arith)
        (ground arith) (ground arith) (ground arith)

-- A value that is the cut of a text, found under a key.
abbrev pub CutAt : ℕ → String → Str → Payload → Type 0
CutAt max_bytes key text out = (v : Value) × (lookup key out ≡ some v) × IsCut max_bytes text v

pub record IsCapped (max_bytes : ℕ) (before after : Payload) : Type 0 where
  pub stdout :
      (text : Str)
      → lookup "stdout" before ≡ some (str text)
      → AllScalar text
      → CutAt max_bytes "stdout" text after
  pub stderr :
      (text : Str)
      → lookup "stderr" before ≡ some (str text)
      → AllScalar text
      → CutAt max_bytes "stderr" text after
  pub others : (k : String) → contains written_keys k ≡ false → lookup k after ≡ lookup k before

-- Both streams of the payload come out cut to the limit, each to its longest prefix that fits, and
-- no key other than the two streams and their six metadata keys changes.
pub cap_command_data-IsCapped :
    (sha256 : Bytes → Str) (max_bytes : ℕ) (command_data : Payload) (dir : OverflowDir)
    → IsCapped max_bytes command_data (cap_command_data sha256 max_bytes command_data dir).0
cap_command_data-IsCapped sha256 max_bytes command_data dir = record {
  stdout = λ text h s. (
    _,
    lookup-stdout sha256 max_bytes command_data dir text h,
    cap_stream-IsCut sha256 max_bytes text dir s,
  );
  stderr = λ text h s. (
    _,
    lookup-stderr sha256 max_bytes command_data dir text h,
    cap_stream-IsCut sha256 max_bytes text _ s,
  );
  others = lookup-other sha256 max_bytes command_data dir;
}
