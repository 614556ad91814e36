-- ===== src/Overflow.antt =====
-- overflow.py: a stream of command output is cut to a number of bytes, and the whole of it is kept
-- under its hash. The directory is a dictionary from file names to contents; the hash is a
-- parameter.
pub mod Boundary
pub mod Stream
pub mod Command
use Prim.Native.Nat.{bit_and}
use Prim.Native.String.{◌++◌ as ◌<>◌}
use prehnite.Prelude.{
  ℕ, zero, suc, ◌*◌, String, Bool, true, List, [], ◌∷◌, Option, none, some, leb, length, get_or,
  take, ◌==◌, nat_eq, string_eq, list_eq, if◌then◌else◌,
}
use prehnite.Prelude.Int.{pos}
use prehnite.Prelude.Dict.{Dict, lookup, insert}
use prehnite.Text.{Str}
use prehnite.Text.Utf8.{Bytes, encode, decode}
use prehnite.Schemas.{Value, null, bool, int, str, array, object, Payload}

abbrev pub default_max_bytes : ℕ
default_max_bytes = 8 * 1024

-- `<root>/overflow`
abbrev pub OverflowDir : Type 0
OverflowDir = Dict Str Bytes

abbrev pub capped_fields : List (String × String)
capped_fields = ("stdout", "stdout") ∷ ("stderr", "stderr") ∷ []

-- `(b & 0xC0) == 0x80`
unfoldable pub is_continuation : ℕ → Bool
is_continuation b = bit_and b 0xC0 == 0x80

-- `while cut > 0 and …: cut -= 1`
unfoldable pub walk_back : Bytes → ℕ → ℕ
walk_back encoded zero = zero
walk_back encoded (suc cut) =
    let further = walk_back encoded cut in
    if is_continuation (get_or encoded (suc cut) 0) then further else suc cut

-- `if not out_path.exists(): out_path.write_bytes(encoded)`
unfoldable pub write_once : Str → Bytes → OverflowDir → OverflowDir
write_once name content dir = elim (lookup name dir) [
  | some old ↦ dir
  | none ↦ insert name content dir
]

module _ (sha256 : Bytes → Str) (max_bytes : ℕ) where
  pub cap_text : Str → OverflowDir → (Value × Payload) × OverflowDir
  cap_text text dir =
      let encoded = encode text in
      let sha = sha256 encoded in
      if leb (length encoded) max_bytes then ((str text, []), dir) else (
        (
          str (decode (take (walk_back encoded max_bytes) encoded)),
          ("truncated", bool true)
              ∷ ("overflow_sha256", str sha)
              ∷ ("original_bytes", int (pos (length encoded)))
              ∷ [],
        ),
        write_once sha encoded dir,
      )

  -- The possibly truncated value, its metadata, and the directory.
  unfoldable pub cap_stream : Value → OverflowDir → (Value × Payload) × OverflowDir
  unfolding cap_text
  cap_stream (str text) dir = cap_text text dir
  cap_stream null dir = ((null, []), dir)
  cap_stream v dir = ((v, []), dir)

  -- `for k, v in meta.items(): out[f"{prefix}_{k}"] = v`
  merge_meta : String → Payload → Payload → Payload
  merge_meta prefix [] out = out
  merge_meta prefix ((k, v) ∷ meta) out = merge_meta prefix meta (insert (prefix <> "_" <> k) v out)

  cap_string : String → String → Option Value → Payload → OverflowDir → Payload × OverflowDir
  cap_string field prefix (some (str text)) out dir =
      let ((capped, meta), dir') = cap_stream (str text) dir in
      (merge_meta prefix meta (insert field capped out), dir')
  cap_string field prefix _ out dir = (out, dir)

  cap_fields : List (String × String) → Payload → OverflowDir → Payload × OverflowDir
  unfolding cap_string merge_meta
  cap_fields [] out dir = (out, dir)
  cap_fields ((field, prefix) ∷ rest) out dir =
      let (out', dir') = cap_string field prefix (lookup field out) out dir in
      cap_fields rest out' dir'

  unfoldable pub cap_command_data : Payload → OverflowDir → Payload × OverflowDir
  unfolding cap_fields
  cap_command_data command_data dir = cap_fields capped_fields command_data dir
