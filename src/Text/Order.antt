-- ===== src/Text/Order.antt =====
-- The order of `str` is a strict total order; `sorted(set(xs))` by insertion.
use mathlib.Core.Path.{ap₂}
use prehnite.Prelude.{
  ◌≡◌, refl, sym, ap, ◌∙◌, inl, inr, true, false, ◌||◌, List, [], ◌∷◌, arith, ◌==◌, nat_eq, list_eq,
  list_beq_iff, contains, append-nil, beq_refl, ◌++◌, Bool-cases, if◌then◌else◌,
}
use prehnite.Text.{Str, str_ltb}

pub str_ltb_irrefl : (a : Str) → str_ltb a a ≡ false
unfolding str_ltb
str_ltb_irrefl [] = refl
str_ltb_irrefl (c ∷ s) = ground (arith, str_ltb_irrefl s)

pub str_ltb_trans : (a b c : Str) → str_ltb a b ≡ true → str_ltb b c ≡ true → str_ltb a c ≡ true
unfolding str_ltb
str_ltb_trans [] [] c h k = cc
str_ltb_trans [] (y ∷ b) [] h k = cc
str_ltb_trans [] (y ∷ b) (z ∷ c) h k = refl
str_ltb_trans (x ∷ a) [] c h k = cc
str_ltb_trans (x ∷ a) (y ∷ b) [] h k = cc
str_ltb_trans (x ∷ a) (y ∷ b) (z ∷ c) h k = ground (arith, str_ltb_trans a b c)

pub str_ltb_total : (a b : Str) → str_ltb a b ≡ false → str_ltb b a ≡ false → a ≡ b
unfolding str_ltb
str_ltb_total [] [] h k = refl
str_ltb_total [] (y ∷ b) h k = cc
str_ltb_total (x ∷ a) [] h k = cc
str_ltb_total (x ∷ a) (y ∷ b) h k = ground (arith, str_ltb_total a b)

unfoldable pub insert_sorted : Str → List Str → List Str
insert_sorted x [] = x ∷ []
insert_sorted x (y ∷ ys) =
    let rest = insert_sorted x ys in
    if x == y then y ∷ ys else if str_ltb x y then x ∷ y ∷ ys else y ∷ rest

-- `sorted(set(xs))`; where the elements are distinct, `sorted(xs)`
unfoldable pub sorted_set : List Str → List Str
sorted_set [] = []
sorted_set (x ∷ xs) = insert_sorted x (sorted_set xs)

pub insert_sorted_comm :
    (x y : Str) (l : List Str)
    → insert_sorted x (insert_sorted y l) ≡ insert_sorted y (insert_sorted x l)
unfolding insert_sorted
insert_sorted_comm x y [] = ground (
  arith,
  list_beq_iff x y,
  list_beq_iff y x,
  str_ltb_total x y,
  str_ltb_irrefl x,
  str_ltb_trans x y x,
)
insert_sorted_comm x y (z ∷ l) = ground (
  arith,
  insert_sorted_comm x y l,
  list_beq_iff x y,
  list_beq_iff y x,
  list_beq_iff x z,
  list_beq_iff y z,
  str_ltb_total x y,
  str_ltb_irrefl x,
  str_ltb_irrefl y,
  str_ltb_trans x y x,
  str_ltb_trans x y z,
  str_ltb_trans y x z,
  str_ltb_trans x z y,
  str_ltb_trans y z x,
  str_ltb_total x z,
  str_ltb_total y z,
)

-- Adding an element anywhere is adding it in front.
sorted_set-append-cons :
    (xs : List Str) (y : Str) (ys : List Str)
    → sorted_set (xs ++ (y ∷ ys)) ≡ insert_sorted y (sorted_set (xs ++ ys))
unfolding sorted_set
sorted_set-append-cons [] y ys = refl
sorted_set-append-cons (x ∷ xs) y ys =
    ap (insert_sorted x) (sorted_set-append-cons xs y ys)
    ∙ insert_sorted_comm x y (sorted_set (xs ++ ys))

-- The order of the two sides of a union does not show.
pub sorted_set-append_comm : (xs ys : List Str) → sorted_set (xs ++ ys) ≡ sorted_set (ys ++ xs)
unfolding sorted_set
sorted_set-append_comm [] ys = ap sorted_set (sym (append-nil ys))
sorted_set-append_comm (x ∷ xs) ys =
    ap (insert_sorted x) (sorted_set-append_comm xs ys) ∙ sym (sorted_set-append-cons ys x xs)

contains-insert_sorted :
    (x a : Str) (l : List Str) → contains (insert_sorted x l) a ≡ (x == a || contains l a)
unfolding insert_sorted contains
contains-insert_sorted x a [] = refl
contains-insert_sorted x a (y ∷ l) =
    ground
      (arith, list_beq_iff x y, list_beq_iff x a, list_beq_iff y a, contains-insert_sorted x a l)

pub contains-sorted_set : (a : Str) (xs : List Str) → contains (sorted_set xs) a ≡ contains xs a
unfolding sorted_set contains
contains-sorted_set a [] = refl
contains-sorted_set a (x ∷ xs) =
    contains-insert_sorted x a (sorted_set xs) ∙ ap (λ b. x == a || b) (contains-sorted_set a xs)

abbrev pub AllAbove : Str → List Str → Type 0
AllAbove x [] = Unit
AllAbove x (y ∷ l) = (str_ltb x y ≡ true) × AllAbove x l

-- Strictly ascending.
abbrev pub IsAscending : List Str → Type 0
IsAscending [] = Unit
IsAscending (x ∷ l) = AllAbove x l × IsAscending l

AllAbove-trans : (x y : Str) (l : List Str) → str_ltb x y ≡ true → AllAbove y l → AllAbove x l
AllAbove-trans x y [] h k = tt
AllAbove-trans x y (z ∷ l) h (k, ks) = (str_ltb_trans x y z h k, AllAbove-trans x y l h ks)

AllAbove-insert_sorted :
    (z x : Str) (l : List Str) → str_ltb z x ≡ true → AllAbove z l → AllAbove z (insert_sorted x l)
unfolding insert_sorted
AllAbove-insert_sorted z x [] h k = (h, tt)
AllAbove-insert_sorted z x (y ∷ l) h (k, ks) = ground (arith, AllAbove-insert_sorted z x l h ks)

insert_sorted-IsAscending :
    (x : Str) (l : List Str) → IsAscending l → IsAscending (insert_sorted x l)
unfolding insert_sorted
insert_sorted-IsAscending x [] h = (tt, tt)
insert_sorted-IsAscending x (y ∷ l) (a, h) = elim (Bool-cases (x == y)) [
  | inl e ↦ rw e (a, h)
  | inr n ↦ rw n (elim (Bool-cases (str_ltb x y)) [
    | inl lt ↦ rw lt ((lt, AllAbove-trans x y l lt a), (a, h))
    | inr ge ↦ rw ge (
      AllAbove-insert_sorted y x l (ground (arith, list_beq_iff x y, str_ltb_total x y)) a,
      insert_sorted-IsAscending x l h,
    )
  ])
]

pub sorted_set-IsAscending : (xs : List Str) → IsAscending (sorted_set xs)
unfolding sorted_set
sorted_set-IsAscending [] = tt
sorted_set-IsAscending (x ∷ xs) = insert_sorted-IsAscending x _ (sorted_set-IsAscending xs)

pub not-contains_above : (x : Str) (l : List Str) → AllAbove x l → contains l x ≡ false
unfolding contains
not-contains_above x [] h = refl
not-contains_above x (y ∷ l) (h, hs) =
    ground (arith, list_beq_iff y x, str_ltb_irrefl x, not-contains_above x l hs, ap (str_ltb x))

AllAbove-cons : (x y : Str) (l : List Str) → str_ltb x y ≡ true → AllAbove y l → AllAbove x (y ∷ l)
AllAbove-cons x y l h k = (h, AllAbove-trans x y l h k)

-- The least of an ascending list is in no ascending list that begins above it.
not-same_below :
    (x y : Str) (l m : List Str)
    → str_ltb x y ≡ true
    → AllAbove y m
    → contains (x ∷ l) x ≡ contains (y ∷ m) x
    → ⊥
unfolding contains
not-same_below x y l m h b e =
    ground (arith, beq_refl x, not-contains_above x (y ∷ m) (AllAbove-cons x y m h b))

same_tails :
    (x y : Str) (l m : List Str)
    → x ≡ y
    → AllAbove x l
    → AllAbove y m
    → ((a : Str) → contains (x ∷ l) a ≡ contains (y ∷ m) a)
    → (a : Str) → contains l a ≡ contains m a
unfolding contains
same_tails x y l m p h k e a = elim (Bool-cases (x == a)) [
  | inl t ↦
      let q : x ≡ a = (list_beq_iff x a).0 t in
      rw (← q) (not-contains_above x l h ∙ sym (rw p (not-contains_above y m k)))
  | inr f ↦ ground (arith, e a, ap (λ z. z == a) p)
]

-- Two ascending lists with the same elements are equal.
pub IsAscending-ext :
    (l m : List Str)
    → IsAscending l
    → IsAscending m
    → ((a : Str) → contains l a ≡ contains m a)
    → l ≡ m
IsAscending-ext [] [] h k e = refl
IsAscending-ext [] (y ∷ m) h k e = unfold contains in ground (arith, e y, beq_refl y)
IsAscending-ext (x ∷ l) [] h k e = unfold contains in ground (arith, e x, beq_refl x)
IsAscending-ext (x ∷ l) (y ∷ m) (a, h) (b, k) e =
    let tails = λ (p : x ≡ y). IsAscending-ext l m h k (same_tails x y l m p a b e) in
    elim (Bool-cases (str_ltb x y)) [
      | inl lt ↦ absurd (not-same_below x y l m lt b (e x))
      | inr ge ↦ elim (Bool-cases (str_ltb y x)) [
        | inl gt ↦ absurd (not-same_below y x m l gt a (sym (e y)))
        | inr le ↦ let p = str_ltb_total x y ge le in ap₂ ◌∷◌ p (tails p)
      ]
    ]
