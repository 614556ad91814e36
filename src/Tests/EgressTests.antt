-- ===== src/Tests/EgressTests.antt =====
-- One CONNECT request in two chunks, against a small allowlist.
use prehnite.Prelude.{
  ◌≡◌, ◌↔◌, ◌⊎◌, refl, true, false, List, [], ◌∷◌, ◌++◌, map, arith, all, contains, list_eq, nat_eq,
  any, list_beq,
}
use prehnite.Prelude.Int.{ℤ, pos}
use prehnite.Text.{Str, lit, ends_with}
use prehnite.Text.Lines.{strip, lstrip, rstrip, is_space}
use prehnite.Text.Number.{parse_int}
use prehnite.Text.Utf8.{Bytes}
use prehnite.Egress.{chunk, Upstream, refused, handle, matches_allowlist, upper}
use prehnite.Egress.Allowlist.{matches_allowlist_iff}
use prehnite.Egress.Line.{is_visible}
use prehnite.Egress.Handler.{Answers, IsTarget, handle-Answers}
use prehnite.Egress.Guard.{IsGuarded, handle-IsGuarded}

abbrev allowlist : List Str
allowlist = lit "pypi.org" ∷ lit "github.com" ∷ []

abbrev up : Str → ℤ → Upstream
up host port = refused (lit "timed out")

abbrev chunks : List Bytes
chunks = lit "CONN" ∷ (lit "ECT api.github.com:443 HTTP/1.1" ++ 13 ∷ 10 ∷ 13 ∷ 10 ∷ []) ∷ []

matches_allowlist_iff_example : (matches_allowlist (lit "api.github.com") allowlist ≡ true) ↔ (
    (a : Str) × (contains allowlist a ≡ true)
    × ((lit "api.github.com" ≡ a) ⊎ ((u : Str) × (lit "api.github.com" ≡ u ++ b'.' ∷ a))))
matches_allowlist_iff_example = matches_allowlist_iff (lit "api.github.com") allowlist

suffix_only : matches_allowlist (lit "notgithub.com") allowlist ≡ false
unfolding matches_allowlist any contains ends_with list_beq
suffix_only = refl

target_lem : IsTarget (lit "CONNECT") (lit "api.github.com") (lit "443") (pos 443)
unfolding all is_visible upper parse_int strip lstrip rstrip is_space list_beq
target_lem = (refl, refl, refl, refl, refl, refl)

handle-Answers_example :
    Answers
      (lit "api.github.com")
      (pos 443)
      7
      (matches_allowlist (lit "api.github.com") allowlist)
      (up (lit "api.github.com") (pos 443))
      (handle allowlist up 7 (map chunk chunks))
handle-Answers_example =
    handle-Answers allowlist up 7 chunks (lit "CONNECT") (lit "api.github.com") (lit "443")
      (pos 443) (13 ∷ 10 ∷ []) (tt, refl, omega arith, target_lem)

handle-IsGuarded_example : IsGuarded allowlist up (handle allowlist up 7 (map chunk chunks))
handle-IsGuarded_example = handle-IsGuarded allowlist up 7 (map chunk chunks)
