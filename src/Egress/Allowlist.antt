-- ===== src/Egress/Allowlist.antt =====
-- Which hosts `matches_allowlist` lets through.
use prehnite.Prelude.{
  ℕ, zero, suc, ◌-◌, ◌≡◌, ◌↔◌, ◌⊎◌, inl, inr, refl, sym, ap, ◌∙◌, Bool, true, List, [], ◌∷◌, ◌++◌,
  arith, any, contains, length, length-append, take, drop, leb, ◌==◌, nat_eq, list_eq, list_beq_iff,
  beq_refl, Bool-cases,
}
use prehnite.Text.{Str, ends_with}
use prehnite.Egress.{matches_allowlist}

take-drop : (n : ℕ) (s : Str) → take n s ++ drop n s ≡ s
take-drop zero s = refl
take-drop (suc n) [] = refl
take-drop (suc n) (c ∷ s) = ap (λ t. c ∷ t) (take-drop n s)

drop-append : (s t : Str) → drop (length s) (s ++ t) ≡ t
drop-append [] t = refl
drop-append (c ∷ s) t = drop-append s t

-- `s.endswith(t)` finds the text before `t`.
ends_with_iff : (s t : Str) → (ends_with s t ≡ true) ↔ ((u : Str) × (s ≡ u ++ t))
unfolding ends_with
ends_with_iff s t = (
  λ h. (
    take (length s - length t) s,
    sym (take-drop (length s - length t) s)
        ∙ ap (λ r. take (length s - length t) s ++ r)
            ((list_beq_iff (drop (length s - length t) s) t).0 (ground arith)),
  ),
  λ (u, e).
      let l : length (u ++ t) - length t ≡ length u = omega (arith, length-append u t) in
      let m : leb (length t) (length (u ++ t)) ≡ true = ground (arith, length-append u t) in
      rw e (rw m (rw l (rw (drop-append u t) (beq_refl t)))),
)

-- An element of the list that passes the test.
any_iff :
    (p : Str → Bool) (xs : List Str)
    → (any p xs ≡ true) ↔ ((a : Str) × (contains xs a ≡ true) × (p a ≡ true))
unfolding any contains
any_iff p [] = (λ h. absurd (ground arith), λ (a, c, h). cc)
any_iff p (x ∷ xs) = (
  λ h. elim (Bool-cases (p x)) [
    | inl t ↦ (x, rw (beq_refl x) refl, t)
    | inr f ↦ let (a, c, t) = (any_iff p xs).0 (rw f at h) in (a, ground (arith, c), t)
  ],
  λ (a, c, h). elim (Bool-cases (p x)) [
    | inl t ↦ rw t refl
    | inr f ↦ elim (Bool-cases (x == a)) [
      | inl e ↦
          let q : x ≡ a = (list_beq_iff x a).0 e in absurd (ground (arith, sym q, ap p q, h, f))
      | inr n ↦ rw f ((any_iff p xs).1 (a, rw n at c, h))
    ]
  ],
)

-- A host is let through if and only if it is an entry of the allowlist, or is an entry after a
-- dot after some text.
pub matches_allowlist_iff :
    (host : Str) (allow : List Str)
    → (matches_allowlist host allow ≡ true) ↔ (
        (a : Str) × (contains allow a ≡ true) × ((host ≡ a) ⊎ ((u : Str) × (host ≡ u ++ b'.' ∷ a))))
unfolding matches_allowlist
matches_allowlist_iff host allow = (
  λ h. elim (Bool-cases (contains allow host)) [
    | inl t ↦ (host, t, inl refl)
    | inr f ↦
        let (a, c, e) = (any_iff (λ a. ends_with host (b'.' ∷ a)) allow).0 (rw f at h) in
        (a, c, inr ((ends_with_iff host (b'.' ∷ a)).0 e))
  ],
  λ (a, c, r). elim (Bool-cases (contains allow host)) [
    | inl t ↦ rw t refl
    | inr f ↦ rw f (
        (any_iff (λ a. ends_with host (b'.' ∷ a)) allow).1 (
          a,
          c,
          elim r [
            | inl e ↦ absurd (ground (arith, ap (contains allow) e, c, f))
            | inr u ↦ (ends_with_iff host (b'.' ∷ a)).1 u
          ],
        ))
  ],
)
