-- ===== src/Egress.antt =====
-- egress_proxy.py: the allowlist and one connection of the CONNECT proxy. The sockets are
-- arguments: what `recv` gives, call by call, and what the connection upstream gives; the clock
-- gives the duration. Writing to the client is taken to succeed. The threads of `_pump` and the
-- life of the server are not modelled.
pub mod Allowlist
pub mod Line
pub mod Handler
pub mod Guard
use prehnite.Prelude.{
  ℕ, zero, suc, ◌+◌, Bool, true, false, not, ◌&&◌, ◌||◌, List, [], ◌∷◌, ◌++◌, Option, none, some,
  ltb, leb, any, contains, length, take, filter, ◌-◌, ◌==◌, nat_eq, list_eq, if◌then◌else◌,
}
use prehnite.Prelude.Int.{ℤ}
use prehnite.Text.{Str, lit, ends_with}
use prehnite.Text.Lines.{is_space}
use prehnite.Text.Number.{parse_int}
use prehnite.Text.Utf8.{Bytes}

unfoldable pub default_allowlist : List Str
default_allowlist =
    lit "pypi.org"
    ∷ lit "pythonhosted.org"
    ∷ lit "github.com"
    ∷ lit "githubusercontent.com"
    ∷ lit "registry.npmjs.org"
    ∷ lit "crates.io"
    ∷ lit "static.crates.io"
    ∷ lit "httpbin.org"
    ∷ lit "example.com"
    ∷ []

unfoldable pub matches_allowlist : Str → List Str → Bool
matches_allowlist host allow =
    if contains allow host then true else any (λ a. ends_with host (b'.' ∷ a)) allow

-- What one call of `client.recv(4096)` gives: bytes (none at the end of the stream) or an
-- `OSError`.
pub data Recv : Type 0 where
  chunk : Bytes → Recv
  os_error : Recv

-- `socket.create_connection`: a connection, an `OSError` with its text, or an exception that the
-- handler does not catch (a `UnicodeError` for a label that is empty or too long, an `OverflowError`
-- for a port that is out of range).
pub data Upstream : Type 0 where
  connected raised : Upstream
  refused : Str → Upstream

-- The first line of the responses that the handler sends.
pub data Response : Type 0 where
  established bad_request forbidden method_not_allowed bad_gateway : Response

-- The payload of `on_attempt`.
pub record Attempt : Type 0 where
  pub host : Str
  pub port : ℤ
  pub allowed : Bool
  pub reason : Str
  pub duration_ms : ℕ

-- What the handler does to the world, in order; `connect` is the call of `create_connection`.
pub data Effect : Type 0 where
  connect : Str → ℤ → Effect
  report : Attempt → Effect
  respond : Response → Effect
  forward : Bytes → Effect

-- `sep in buf`
unfoldable pub has_crlf : Bytes → Bool
has_crlf [] = false
has_crlf (b ∷ []) = false
has_crlf (b ∷ c ∷ bs) = if b == 13 && c == 10 then true else has_crlf (c ∷ bs)

unfoldable pub has_blank_line : Bytes → Bool
has_blank_line [] = false
has_blank_line (b ∷ bs) =
    if take 4 (b ∷ bs) == 13 ∷ 10 ∷ 13 ∷ 10 ∷ [] then true else has_blank_line bs

-- `buf.split(b"\r\n", 1)[0]`
unfoldable pub first_line : Bytes → Bytes
first_line [] = []
first_line (b ∷ []) = b ∷ []
first_line (b ∷ c ∷ bs) =
    let rest = first_line (c ∷ bs) in if b == 13 && c == 10 then [] else b ∷ rest

-- Reading up to the first "\r\n": the buffer, and the calls of `recv` that are left. `none` is a
-- return without an answer. No more calls are the end of the stream.
unfoldable pub read_request_line : List Recv → Bytes → Option (Bytes × List Recv)
read_request_line [] buf = if has_crlf buf then some (buf, []) else none
read_request_line (os_error ∷ rs) buf = if has_crlf buf then some (buf, os_error ∷ rs) else none
read_request_line (chunk [] ∷ rs) buf = if has_crlf buf then some (buf, chunk [] ∷ rs) else none
read_request_line (chunk (b ∷ bs) ∷ rs) buf =
    let rest = read_request_line rs (buf ++ b ∷ bs) in
    if has_crlf buf
    then some (buf, chunk (b ∷ bs) ∷ rs)
    else if ltb 16384 (length (buf ++ b ∷ bs))
    then none
    else rest

-- Reading up to the first empty line; the calls of `recv` that are left.
unfoldable pub drain : List Recv → Bytes → List Recv
drain [] buf = []
drain (os_error ∷ rs) buf = if has_blank_line buf then os_error ∷ rs else rs
drain (chunk [] ∷ rs) buf = if has_blank_line buf then chunk [] ∷ rs else rs
drain (chunk (b ∷ bs) ∷ rs) buf =
    let rest = drain rs (buf ++ b ∷ bs) in if has_blank_line buf then chunk (b ∷ bs) ∷ rs else rest

-- What `forward` of `_pump` sends upstream.
unfoldable pub pump : List Recv → Bytes
pump [] = []
pump (os_error ∷ rs) = []
pump (chunk [] ∷ rs) = []
pump (chunk (b ∷ bs) ∷ rs) = b ∷ bs ++ pump rs

-- `.decode("ascii", errors="replace")`
unfoldable pub decode_ascii : Bytes → Str
decode_ascii [] = []
decode_ascii (b ∷ bs) = (if ltb b 128 then b else 0xFFFD) ∷ decode_ascii bs

-- The head of the list gets a character more.
pub extend_word : ℕ → List Str → List Str
extend_word c [] = (c ∷ []) ∷ []
extend_word c (w ∷ ws) = (c ∷ w) ∷ ws

-- The words of a text, with an empty word before a space at its start.
unfoldable pub words_from : Str → List Str
unfolding extend_word
words_from [] = []
words_from (c ∷ s) = if is_space c then [] ∷ words_from s else extend_word c (words_from s)

-- `s.split()`
unfoldable pub split_words : Str → List Str
split_words s = filter (λ w. not (w == [])) (words_from s)

-- `s.upper()` of ASCII and U+FFFD.
unfoldable pub upper : Str → Str
upper [] = []
upper (c ∷ s) = (if leb b'a' c && leb c b'z' then c - 32 else c) ∷ upper s

-- `s.rsplit(":", 1)`, if there is a colon.
unfoldable pub rsplit_colon : Str → Option (Str × Str)
rsplit_colon [] = none
rsplit_colon (c ∷ s) = elim (rsplit_colon s) [
  | some (h, p) ↦ some (c ∷ h, p)
  | none ↦ if c == b':' then some ([], s) else none
]

-- What the request line asks for: a target, a CONNECT without one, or something else.
pub data Request : Type 0 where
  target : Str → ℤ → Request
  no_target no_connect : Request

with_port : Str → Option ℤ → Request
with_port host none = no_target
with_port host (some port) = target host port

parse_target : Option (Str × Str) → Request
unfolding with_port
parse_target none = no_target
parse_target (some (host, port_s)) = with_port host (parse_int port_s)

parse_parts : List Str → Request
unfolding parse_target
parse_parts [] = no_connect
parse_parts (w ∷ []) = no_connect
parse_parts (w ∷ t ∷ ws) =
    if upper w == lit "CONNECT" then parse_target (rsplit_colon t) else no_connect

unfoldable pub parse_request : Str → Request
unfolding parse_parts
parse_request line = parse_parts (split_words line)

module _ (allowlist : List Str) (create_connection : Str → ℤ → Upstream) (duration_ms : ℕ) where
  pub after_connect : Str → ℤ → List Recv → Upstream → List Effect
  after_connect host port rs connected =
      connect host port
      ∷ report (record {
        host = host;
        port = port;
        allowed = true;
        reason = lit "matched allowlist";
        duration_ms = duration_ms;
      })
      ∷ respond established
      ∷ forward (pump rs)
      ∷ []
  after_connect host port rs (refused e) =
      connect host port
      ∷ report (record {
        host = host;
        port = port;
        allowed = true;
        reason = lit "upstream connect failed: " ++ e;
        duration_ms = duration_ms;
      })
      ∷ respond bad_gateway
      ∷ []
  after_connect host port rs raised = connect host port ∷ []

  pub answer : Request → Bytes → List Recv → List Effect
  unfolding after_connect
  answer no_target buf rs = respond bad_request ∷ []
  answer no_connect buf rs = respond method_not_allowed ∷ []
  answer (target host port) buf rs =
      if matches_allowlist host allowlist
      then after_connect host port (drain rs buf) (create_connection host port)
      else report (record {
        host = host;
        port = port;
        allowed = false;
        reason = lit "not in allowlist";
        duration_ms = 0;
      })
        ∷ respond forbidden
        ∷ []

  -- `_Handler.handle`
  unfoldable pub handle : List Recv → List Effect
  unfolding answer
  handle rs = elim (read_request_line rs []) [
    | none ↦ []
    | some (buf, rest) ↦ answer (parse_request (decode_ascii (first_line buf))) buf rest
  ]
