-- ===== src/Egress/Guard.antt =====
-- What the handler never does, whatever the client sends.
use prehnite.Prelude.{ℕ, ◌≡◌, refl, true, false, List, [], ◌∷◌, Bool-cases, Option-cases, inl, inr}
use prehnite.Prelude.Int.{ℤ}
use prehnite.Text.{Str}
use prehnite.Text.Utf8.{Bytes}
use prehnite.Egress.{
  Recv, Upstream, connected, raised, refused, Response, established, bad_request, forbidden,
  method_not_allowed, bad_gateway, Effect, connect, report, respond, forward, read_request_line,
  drain, Request, target, no_target, no_connect, matches_allowlist, after_connect, answer, handle,
}

-- How far a handler has come: nothing done, a connection tried, an answer owed, a tunnel that is
-- open, or the end.
pub data Stage : Type 0 where
  fresh tunnel over : Stage
  tried : Str → ℤ → Upstream → Stage
  owing : Response → Stage

-- What an answer leads to.
abbrev next : Response → Stage
next established = tunnel
next r = over

-- An answer to a request without a target.
abbrev IsRefusal : Response → Type 0
IsRefusal bad_request = Unit
IsRefusal method_not_allowed = Unit
IsRefusal r = ⊥

module _ (allowlist : List Str) (create_connection : Str → ℤ → Upstream) where
  -- The effects that may come from a stage on.
  abbrev pub Follows : Stage → List Effect → Type 0
  Follows fresh [] = Unit
  Follows fresh (connect host port ∷ es) =
      (matches_allowlist host allowlist ≡ true)
      × Follows (tried host port (create_connection host port)) es
  Follows fresh (report a ∷ es) =
      (a.allowed ≡ false)
      × (matches_allowlist a.host allowlist ≡ false)
      × Follows (owing forbidden) es
  Follows fresh (respond r ∷ es) = IsRefusal r × Follows over es
  Follows (tried host port raised) [] = Unit
  Follows (tried host port connected) (report a ∷ es) =
      (a.host ≡ host) × (a.port ≡ port) × (a.allowed ≡ true) × Follows (owing established) es
  Follows (tried host port (refused e)) (report a ∷ es) =
      (a.host ≡ host) × (a.port ≡ port) × (a.allowed ≡ true) × Follows (owing bad_gateway) es
  Follows (owing r) (respond s ∷ es) = (s ≡ r) × Follows (next r) es
  Follows tunnel (forward bytes ∷ es) = Follows over es
  Follows over [] = Unit
  Follows stage es = ⊥

  abbrev pub IsGuarded : List Effect → Type 0
  IsGuarded es = Follows fresh es

  module _ (duration_ms : ℕ) where
    after_connect-IsGuarded :
        (host : Str) (port : ℤ) (rest : List Recv) (up : Upstream)
        → create_connection host port ≡ up
        → matches_allowlist host allowlist ≡ true
        → IsGuarded (after_connect allowlist create_connection duration_ms host port rest up)
    unfolding after_connect
    after_connect-IsGuarded host port rest connected u m = rw u (m, (refl, refl, refl, (refl, tt)))
    after_connect-IsGuarded host port rest raised u m = rw u (m, tt)
    after_connect-IsGuarded host port rest (refused e) u m =
        rw u (m, (refl, refl, refl, (refl, tt)))

    answer-IsGuarded :
        (q : Request) (buf : Bytes) (rest : List Recv)
        → IsGuarded (answer allowlist create_connection duration_ms q buf rest)
    unfolding answer
    answer-IsGuarded (target host port) buf rest =
        elim (Bool-cases (matches_allowlist host allowlist)) [
          | inl t ↦ rw t (after_connect-IsGuarded host port (drain rest buf) _ refl t)
          | inr f ↦ rw f (refl, f, (refl, tt))
        ]
    answer-IsGuarded no_target buf rest = (tt, tt)
    answer-IsGuarded no_connect buf rest = (tt, tt)

    -- Whatever the client sends, the handler does nothing at all, or answers 400 or 405 and
    -- nothing more, or deals with one attempt at a host. If the allowlist does not match the
    -- host, the attempt is reported as denied and answered 403, and there is no connection. If
    -- it does, the handler connects once; if that raised anything but an OSError, nothing
    -- follows; else this very host and port are reported as allowed, right after the
    -- connection, and answered 200 if it was made and 502 if not, and bytes are forwarded only
    -- after a 200.
    pub handle-IsGuarded :
        (rs : List Recv) → IsGuarded (handle allowlist create_connection duration_ms rs)
    unfolding handle
    handle-IsGuarded rs = elim (Option-cases (read_request_line rs [])) [
      | inl e ↦ rw (e, handle) tt
      | inr ((buf, rest), e) ↦ rw (e, handle) (answer-IsGuarded _ buf rest)
    ]
