-- ===== src/Server/Requests/Paired.antt =====
-- Which keys two dictionaries have.
use mathlib.Core.List.{append_cancel_right}
use prehnite.Prelude.{
  ◌≡◌, refl, sym, ap, ◌∙◌, true, false, ◌++◌, inl, inr, ◌==◌, nat_eq, list_eq, Bool-cases,
  if◌then◌else◌, beq_refl, beq_false,
}
use prehnite.Prelude.Dict.{Dict, insert, erase, has_key, lookup-insert, lookup-erase}
use prehnite.Text.{Str, lit}
use prehnite.Server.Registry.{Session, session_file}

-- A descriptor stands on disk for each session, and for nothing else that has a session's name.
abbrev pub IsPaired : Dict Str Session → Dict Str Str → Type 0
IsPaired sessions descriptors =
    (sid : Str) → has_key sid sessions ≡ has_key (session_file sid) descriptors

session_file_beq : (a b : Str) → (session_file a == session_file b) ≡ (a == b)
unfolding session_file
session_file_beq a b = elim (Bool-cases (a == b)) [
  | inl t ↦ rw ((list_eq.beq_iff a b).0 t) (beq_refl (b ++ lit ".json") ∙ sym (beq_refl b))
  | inr f ↦
      beq_false (a ++ lit ".json") (b ++ lit ".json")
        (λ e. cc (append_cancel_right a b (lit ".json") e, beq_refl b, f))
      ∙ sym f
]

module _ {A : Type 0} where
  has_key-insert :
      (k j : Str) (v : A) (d : Dict Str A)
      → has_key j (insert k v d) ≡ (if k == j then true else has_key j d)
  has_key-insert k j v d =
      rw (lookup-insert k j v d, has_key)
        (elim (Bool-cases (k == j)) [ inl t ↦ simp t refl | inr f ↦ simp f refl ])

  has_key-erase :
      (k j : Str) (d : Dict Str A) → has_key j (erase k d) ≡ (if k == j then false else has_key j d)
  has_key-erase k j d =
      rw (lookup-erase k j d, has_key)
        (elim (Bool-cases (k == j)) [ inl t ↦ simp t refl | inr f ↦ simp f refl ])

-- A key that is there is there after an assignment to it, and no other comes.
has_key-present :
    {A : Type 0} (k : Str) (v : A) (d : Dict Str A)
    → has_key k d ≡ true
    → (j : Str) → has_key j (insert k v d) ≡ has_key j d
has_key-present k v d h j = rw (has_key-insert k j v d) (elim (Bool-cases (k == j)) [
  | inl t ↦ simp t (sym h ∙ ap (λ i. has_key i d) ((list_eq.beq_iff k j).0 t))
  | inr f ↦ simp f refl
])

module _ (s : Dict Str Session) (d : Dict Str Str) (paired : IsPaired s d) (k : Str) where
  pub insert-IsPaired :
      (sess : Session) (text : Str) → IsPaired (insert k sess s) (insert (session_file k) text d)
  insert-IsPaired sess text j = rw (has_key-insert k j sess s) (
      rw (has_key-insert (session_file k) (session_file j) text d)
        (rw (session_file_beq k j) (rw (paired j) refl)))

  pub keep-IsPaired : (sess : Session) → has_key k s ≡ true → IsPaired (insert k sess s) d
  keep-IsPaired sess h j = has_key-present k sess s h j ∙ paired j

  pub erase-IsPaired : IsPaired (erase k s) (erase (session_file k) d)
  erase-IsPaired j = rw (has_key-erase k j s) (
      rw (has_key-erase (session_file k) (session_file j) d)
        (rw (session_file_beq k j) (rw (paired j) refl)))
