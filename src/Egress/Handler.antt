-- ===== src/Egress/Handler.antt =====
-- What the handler does for a well-formed CONNECT request, and what it never does.
use mathlib.Core.Path.{subst}
use prehnite.Prelude.{
  ℕ, ◌≡◌, ◌≤◌, refl, sym, ap, ◌∙◌, Bool, true, false, not, ◌&&◌, List, [], ◌∷◌, ◌++◌, map, some,
  arith, all, filter, length, leb, ltb, ◌==◌, nat_eq, list_eq, list_beq,
}
use prehnite.Prelude.Int.{ℤ}
use prehnite.Text.{Str, lit}
use prehnite.Text.Lines.{is_space}
use prehnite.Text.Number.{parse_int}
use prehnite.Text.Utf8.{Bytes}
use prehnite.Egress.{
  Recv, chunk, Upstream, connected, raised, refused, established, forbidden, bad_gateway, Effect,
  connect, report, respond, forward, has_crlf, first_line, read_request_line, drain, pump,
  decode_ascii, words_from, split_words, upper, target, with_port, parse_target, parse_parts,
  parse_request, matches_allowlist, after_connect, answer, handle,
}
use prehnite.Egress.Line.{
  concat, AllNonempty, read_request_line-chunks, is_visible, first_line-line, has_crlf-line,
  decode_ascii-lem, words_from-word, rsplit_colon-last,
}

-- `CONNECT host:port HTTP/1.1`
abbrev pub connect_line : Str → Str → Str → Str
connect_line method host port_s = method ++ 32 ∷ ((host ++ b':' ∷ port_s) ++ 32 ∷ lit "HTTP/1.1")

-- A target that the request line can carry.
abbrev pub IsTarget : Str → Str → Str → ℤ → Type 0
IsTarget method host port_s port =
    (all is_visible method ≡ true)
    × (upper method ≡ lit "CONNECT")
    × (all is_visible host ≡ true)
    × (all is_visible port_s ≡ true)
    × (all (λ c. not (c == b':')) port_s ≡ true)
    × (parse_int port_s ≡ some port)

all-append : (p : ℕ → Bool) (s t : Str) → all p s ≡ true → all p t ≡ true → all p (s ++ t) ≡ true
unfolding all
all-append p [] t h g = g
all-append p (c ∷ s) t h g = ground (arith, all-append p s t)

all-weaken :
    (p q : ℕ → Bool) (s : Str)
    → ((c : ℕ) → p c ≡ true → q c ≡ true)
    → all p s ≡ true
    → all q s ≡ true
unfolding all
all-weaken p q [] i h = refl
all-weaken p q (c ∷ s) i h = ground (arith, i c, all-weaken p q s i)

words_from-connect_line :
    (method host port_s : Str)
    → all is_visible method ≡ true
    → all is_visible host ≡ true
    → all is_visible port_s ≡ true
    → words_from (connect_line method host port_s)
      ≡ method ∷ (host ++ b':' ∷ port_s) ∷ lit "HTTP/1.1" ∷ []
unfolding is_space
words_from-connect_line method host port_s m h p =
    words_from-word method ((host ++ b':' ∷ port_s) ++ 32 ∷ lit "HTTP/1.1") m
    ∙ ap (λ ws. method ∷ ws)
        (words_from-word (host ++ b':' ∷ port_s) (lit "HTTP/1.1")
            (all-append is_visible host (b':' ∷ port_s) h (unfold all is_visible in p))
          ∙ (unfold words_from in refl))

parse_request-connect_line :
    (method host port_s : Str) (port : ℤ)
    → IsTarget method host port_s port
    → parse_request (connect_line method host port_s) ≡ target host port
unfolding parse_request split_words parse_parts parse_target with_port list_beq
parse_request-connect_line [] host port_s port (m, u, h, p, n, i) =
    absurd (unfold upper in ground arith)
parse_request-connect_line (c ∷ method) [] port_s port (m, u, h, p, n, i) =
    rw (words_from-connect_line (c ∷ method) [] port_s m h p)
      (unfold filter in rw u (rw (rsplit_colon-last [] port_s n) (rw i refl)))
parse_request-connect_line (c ∷ method) (d ∷ host) port_s port (m, u, h, p, n, i) =
    rw (words_from-connect_line (c ∷ method) (d ∷ host) port_s m h p)
      (unfold filter in rw u (rw (rsplit_colon-last (d ∷ host) port_s n) (rw i refl)))

is_printable : ℕ → Bool
is_printable c = leb 32 c && leb c 126

connect_line-is_printable :
    (method host port_s : Str)
    → all is_visible method ≡ true
    → all is_visible host ≡ true
    → all is_visible port_s ≡ true
    → all is_printable (connect_line method host port_s) ≡ true
connect_line-is_printable method host port_s m h p =
    let step : (c : ℕ) → is_visible c ≡ true → is_printable c ≡ true =
      λ c v. unfold is_visible is_printable in ground arith in
    let m' : all is_printable method ≡ true = all-weaken is_visible is_printable method step m in
    let h' : all is_printable host ≡ true = all-weaken is_visible is_printable host step h in
    let p' : all is_printable port_s ≡ true = all-weaken is_visible is_printable port_s step p in
    all-append is_printable method _ m' (
      unfold all is_printable in
      all-append is_printable (host ++ b':' ∷ port_s) (32 ∷ lit "HTTP/1.1")
        (all-append is_printable host (b':' ∷ port_s) h' (unfold all is_printable in p')) refl)

-- What a request for a target has to do, by whether the host is allowed and by what the connection
-- upstream gives.
abbrev pub Answers : Str → ℤ → ℕ → Bool → Upstream → List Effect → Type 0
Answers host port duration_ms false upstream es =
    es
    ≡ report (record {
      host = host;
      port = port;
      allowed = false;
      reason = lit "not in allowlist";
      duration_ms = 0;
    })
      ∷ respond forbidden
      ∷ []
Answers host port duration_ms true (refused e) es =
    es
    ≡ connect host port
      ∷ report (record {
        host = host;
        port = port;
        allowed = true;
        reason = lit "upstream connect failed: " ++ e;
        duration_ms = duration_ms;
      })
      ∷ respond bad_gateway
      ∷ []
Answers host port duration_ms true raised es = es ≡ connect host port ∷ []
Answers host port duration_ms true connected es =
    (sent : Bytes) × (es
      ≡ connect host port
        ∷ report (record {
          host = host;
          port = port;
          allowed = true;
          reason = lit "matched allowlist";
          duration_ms = duration_ms;
        })
        ∷ respond established
        ∷ forward sent
        ∷ [])

module _ (allowlist : List Str) (create_connection : Str → ℤ → Upstream) (duration_ms : ℕ) where
  -- A connection's chunks hold the request, its line end and anything after.
  abbrev pub IsRequest : List Bytes → Str → Str → Str → ℤ → Bytes → Type 0
  IsRequest cs method host port_s port more =
      AllNonempty cs
      × (concat cs ≡ connect_line method host port_s ++ 13 ∷ 10 ∷ more)
      × (length (concat cs) ≤ 16384)
      × IsTarget method host port_s port

  handle-read :
      (rs rest : List Recv) (buf : Bytes)
      → read_request_line rs [] ≡ some (buf, rest)
      → handle allowlist create_connection duration_ms rs
        ≡ answer allowlist create_connection duration_ms
            (parse_request (decode_ascii (first_line buf)))
            buf
            rest
  unfolding handle
  handle-read rs rest buf h = rw (h, handle) refl

  handle-answer :
      (cs : List Bytes) (method host port_s : Str) (port : ℤ) (more : Bytes)
      → IsRequest cs method host port_s port more
      → (buf : Bytes) × (rest : List Recv) × (handle allowlist create_connection duration_ms
            (map chunk cs)
          ≡ answer allowlist create_connection duration_ms (target host port) buf rest)
  handle-answer cs method host port_s port more (a, e, l, t) =
      let line = connect_line method host port_s in
      let printable = connect_line-is_printable method host port_s t.0 t.2 t.3 in
      let (buf, rest, r, q) =
        read_request_line-chunks cs [] a (ap has_crlf e ∙ has_crlf-line line more) l in
      let above =
        all-weaken is_printable (λ c. ltb 31 c) line (λ c v. unfold is_printable in ground arith)
          printable in
      let ascii =
        all-weaken is_printable (λ c. ltb c 128) line (λ c v. unfold is_printable in ground arith)
          printable in
      let f : first_line buf ≡ line = q ∙ ap first_line e ∙ first_line-line line more above in
      let g : parse_request (decode_ascii (first_line buf)) ≡ target host port =
        ap (λ b. parse_request (decode_ascii b)) f
        ∙ ap parse_request (decode_ascii-lem line ascii)
        ∙ parse_request-connect_line method host port_s port t in
      (
        buf,
        rest,
        handle-read (map chunk cs) rest buf r
            ∙ ap (λ q. answer allowlist create_connection duration_ms q buf rest) g,
      )

  answer-Answers :
      (host : Str) (port : ℤ) (buf : Bytes) (rest : List Recv) (allowed : Bool) (up : Upstream)
      → matches_allowlist host allowlist ≡ allowed
      → create_connection host port ≡ up
      → Answers host port duration_ms allowed up
          (answer allowlist create_connection duration_ms (target host port) buf rest)
  unfolding answer after_connect
  answer-Answers host port buf rest false up m u = rw m refl
  answer-Answers host port buf rest true connected m u = (pump (drain rest buf), rw m (rw u refl))
  answer-Answers host port buf rest true raised m u = rw m (rw u refl)
  answer-Answers host port buf rest true (refused e) m u = rw m (rw u refl)

  -- A CONNECT request for a host and a port, in whatever nonempty chunks it comes, of at most
  -- 16384 bytes, gets what its target has to get: a host that the allowlist does not match is
  -- reported as denied and answered 403, with no connection upstream; an allowed one is
  -- connected to, and reported with the outcome and answered 200 if the connection was made and
  -- 502 if it gave an OSError; if the connection raised anything else, the handler ends with
  -- neither a report nor an answer.
  pub handle-Answers :
      (cs : List Bytes) (method host port_s : Str) (port : ℤ) (more : Bytes)
      → IsRequest cs method host port_s port more
      → Answers host port duration_ms
          (matches_allowlist host allowlist)
          (create_connection host port)
          (handle allowlist create_connection duration_ms (map chunk cs))
  handle-Answers cs method host port_s port more h =
      let (buf, rest, q) = handle-answer cs method host port_s port more h in
      subst
        (Answers host port duration_ms (matches_allowlist host allowlist)
          (create_connection host port))
        (sym q) (answer-Answers host port buf rest _ _ refl refl)
