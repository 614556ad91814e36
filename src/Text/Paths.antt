-- ===== src/Text/Paths.antt =====
-- `pathlib`: paths compare by their parts, so a file of a directory stands before one whose name
-- only begins with the directory's; `sorted` of paths by insertion.
use prehnite.Prelude.{
  ◌≡◌, ◌⊎◌, refl, sym, ap, ◌∙◌, inl, inr, Bool, true, false, ◌||◌, ◌&&◌, List, [], ◌∷◌, arith, ◌==◌,
  nat_eq, list_eq, list_beq_iff, contains, beq_refl, Bool-cases, if◌then◌else◌, ℕ,
}
use prehnite.Text.{Str, str_ltb}
use prehnite.Text.Order.{str_ltb_irrefl, str_ltb_trans, str_ltb_total}

-- The first of the parts gets a character more.
extend_part : ℕ → List Str → List Str
extend_part c [] = (c ∷ []) ∷ []
extend_part c (p ∷ ps) = (c ∷ p) ∷ ps

-- The parts between the slashes.
unfoldable pub path_parts : Str → List Str
unfolding extend_part
path_parts [] = [] ∷ []
path_parts (c ∷ s) = let rest = path_parts s in if c == b'/' then [] ∷ rest else extend_part c rest

-- `a < b` on lists of `str`.
unfoldable pub parts_ltb : List Str → List Str → Bool
parts_ltb [] [] = false
parts_ltb [] (b ∷ bs) = true
parts_ltb (a ∷ as') [] = false
parts_ltb (a ∷ as') (b ∷ bs) = str_ltb a b || a == b && parts_ltb as' bs

-- `a < b` on `Path`.
unfoldable pub path_ltb : Str → Str → Bool
path_ltb a b = parts_ltb (path_parts a) (path_parts b)

unfoldable pub insert_path : Str → List Str → List Str
insert_path x [] = x ∷ []
insert_path x (y ∷ ys) =
    let rest = insert_path x ys in if path_ltb y x then y ∷ rest else x ∷ y ∷ ys

unfoldable pub sorted_paths : List Str → List Str
sorted_paths [] = []
sorted_paths (x ∷ xs) = insert_path x (sorted_paths xs)

not-less-cases : (a b : Str) → str_ltb b a ≡ false → (str_ltb a b ≡ true) ⊎ (a ≡ b)
not-less-cases a b h = elim (Bool-cases (str_ltb a b)) [
  | inl t ↦ inl t
  | inr f ↦ inr (str_ltb_total a b f h)
]

less-not : (a b : Str) → str_ltb a b ≡ true → (str_ltb b a ≡ false) × ((b == a) ≡ false)
less-not a b h = (
  ground (arith, str_ltb_trans a b a, str_ltb_irrefl a),
  ground (arith, list_beq_iff b a, str_ltb_irrefl a, ap (str_ltb a)),
)

-- The first parts of two paths, the second of which is not less than the first.
pub heads-cases :
    (a b : Str) (r : Bool)
    → (str_ltb b a || b == a && r) ≡ false
    → (str_ltb a b ≡ true) ⊎ ((a ≡ b) × (r ≡ false))
heads-cases a b r h = elim (Bool-cases (str_ltb b a)) [
  | inl t ↦ absurd (ground (arith, t))
  | inr f ↦ elim (not-less-cases a b f) [
    | inl l ↦ inl l
    | inr e ↦ inr (e, ground (arith, list_beq_iff b a, sym e))
  ]
]

less-above : (a c : Str) (r : Bool) → str_ltb a c ≡ true → (str_ltb c a || c == a && r) ≡ false
less-above a c r h = let (f, g) = less-not a c h in rw f (rw g refl)

parts_ltb_trans :
    (x y z : List Str) → parts_ltb y x ≡ false → parts_ltb z y ≡ false → parts_ltb z x ≡ false
unfolding parts_ltb
parts_ltb_trans [] [] [] h k = refl
parts_ltb_trans [] [] (c ∷ z) h k = refl
parts_ltb_trans [] (b ∷ y) [] h k = cc
parts_ltb_trans [] (b ∷ y) (c ∷ z) h k = refl
parts_ltb_trans (a ∷ x) [] z h k = cc
parts_ltb_trans (a ∷ x) (b ∷ y) [] h k = cc
parts_ltb_trans (a ∷ x) (b ∷ y) (c ∷ z) h k = elim (heads-cases a b (parts_ltb y x) h) [
  | inl l ↦ elim (heads-cases b c (parts_ltb z y) k) [
    | inl m ↦ less-above a c _ (str_ltb_trans a b c l m)
    | inr (e, s) ↦ less-above a c _ (rw (sym e) l)
  ]
  | inr (d, r) ↦ elim (heads-cases b c (parts_ltb z y) k) [
    | inl m ↦ less-above a c _ (rw d m)
    | inr (e, s) ↦
        rw (sym e)
          (rw (sym d) (rw (str_ltb_irrefl a) (rw (beq_refl a) (parts_ltb_trans x y z r s))))
  ]
]

-- No path of the list comes before this one.
abbrev pub NoneBefore : Str → List Str → Type 0
NoneBefore x [] = Unit
NoneBefore x (y ∷ ys) = (path_ltb y x ≡ false) × NoneBefore x ys

-- Every path stands behind those that are less.
abbrev pub InPathOrder : List Str → Type 0
InPathOrder [] = Unit
InPathOrder (x ∷ xs) = NoneBefore x xs × InPathOrder xs

NoneBefore-trans :
    (x y : Str) (zs : List Str) → path_ltb y x ≡ false → NoneBefore y zs → NoneBefore x zs
unfolding path_ltb
NoneBefore-trans x y [] h k = tt
NoneBefore-trans x y (z ∷ zs) h (k, ks) =
    (parts_ltb_trans (path_parts x) (path_parts y) (path_parts z) h k, NoneBefore-trans x y zs h ks)

parts_ltb_asym : (x y : List Str) → parts_ltb x y ≡ true → parts_ltb y x ≡ false
unfolding parts_ltb
parts_ltb_asym [] [] h = refl
parts_ltb_asym [] (b ∷ y) h = refl
parts_ltb_asym (a ∷ x) [] h = cc
parts_ltb_asym (a ∷ x) (b ∷ y) h = elim (Bool-cases (str_ltb a b)) [
  | inl l ↦ less-above a b _ l
  | inr f ↦
      let (e, r) : ((a == b) ≡ true) × (parts_ltb x y ≡ true) =
        (ground (arith, f), ground (arith, f)) in
      let d = (list_beq_iff a b).0 e in
      rw (sym d) (rw (str_ltb_irrefl a) (rw (beq_refl a) (parts_ltb_asym x y r)))
]

NoneBefore-insert_path :
    (x z : Str) (ys : List Str)
    → path_ltb x z ≡ false
    → NoneBefore z ys
    → NoneBefore z (insert_path x ys)
unfolding insert_path
NoneBefore-insert_path x z [] h k = (h, tt)
NoneBefore-insert_path x z (y ∷ ys) h (k, ks) = elim (Bool-cases (path_ltb y x)) [
  | inl t ↦ rw t (k, NoneBefore-insert_path x z ys h ks)
  | inr f ↦ rw f (h, (k, ks))
]

insert_path-InPathOrder :
    (x : Str) (ys : List Str) → InPathOrder ys → InPathOrder (insert_path x ys)
unfolding insert_path
insert_path-InPathOrder x [] h = (tt, tt)
insert_path-InPathOrder x (y ∷ ys) (a, h) = elim (Bool-cases (path_ltb y x)) [
  | inl t ↦ rw t (
    NoneBefore-insert_path x y ys (unfold path_ltb in parts_ltb_asym _ _ t) a,
    insert_path-InPathOrder x ys h,
  )
  | inr f ↦ rw f ((f, NoneBefore-trans x y ys f a), (a, h))
]

pub sorted_paths-InPathOrder : (xs : List Str) → InPathOrder (sorted_paths xs)
unfolding sorted_paths
sorted_paths-InPathOrder [] = tt
sorted_paths-InPathOrder (x ∷ xs) = insert_path-InPathOrder x _ (sorted_paths-InPathOrder xs)

contains-insert_path :
    (x a : Str) (ys : List Str) → contains (insert_path x ys) a ≡ (x == a || contains ys a)
unfolding insert_path contains
contains-insert_path x a [] = refl
contains-insert_path x a (y ∷ ys) = ground (arith, contains-insert_path x a ys)

pub contains-sorted_paths : (a : Str) (xs : List Str) → contains (sorted_paths xs) a ≡ contains xs a
unfolding sorted_paths contains
contains-sorted_paths a [] = refl
contains-sorted_paths a (x ∷ xs) =
    contains-insert_path x a (sorted_paths xs) ∙ ap (λ b. x == a || b) (contains-sorted_paths a xs)
