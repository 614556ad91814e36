-- ===== src/Loader/Ascending.antt =====
-- The order of `discover_tasks`' paths, described by their parts.
use mathlib.Core.Path.{ap₂}
use prehnite.Prelude.{◌≡◌, ◌⊎◌, refl, sym, ap, inl, inr, true, false, List, [], ◌∷◌, ◌++◌}
use prehnite.Text.{Str, str_ltb}
use prehnite.Text.Paths.{
  path_parts, parts_ltb, path_ltb, heads-cases, NoneBefore, InPathOrder, sorted_paths,
  sorted_paths-InPathOrder,
}

-- Up to some place the parts are the same, and there the first list ends or has the lesser part.
abbrev pub ComesBefore : List Str → List Str → Type 0
ComesBefore xs ys =
    (common : List Str) × (b : Str) × (bs : List Str) × (ys ≡ common ++ b ∷ bs)
    × ((xs ≡ common)
        ⊎ ((a : Str) × (as' : List Str) × (xs ≡ common ++ a ∷ as') × (str_ltb a b ≡ true)))

-- All of these paths have the parts of this one, or come behind it.
abbrev pub AllBehind : Str → List Str → Type 0
AllBehind x [] = Unit
AllBehind x (y ∷ ys) =
    ((path_parts x ≡ path_parts y) ⊎ ComesBefore (path_parts x) (path_parts y)) × AllBehind x ys

abbrev pub AreAscending : List Str → Type 0
AreAscending [] = Unit
AreAscending (x ∷ xs) = AllBehind x xs × AreAscending xs

ComesBefore-cons :
    (a b : Str) (xs ys : List Str) → a ≡ b → ComesBefore xs ys → ComesBefore (a ∷ xs) (b ∷ ys)
ComesBefore-cons a b xs ys e (common, c, cs, q, inl h) =
    (a ∷ common, c, cs, ap₂ ◌∷◌ (sym e) q, inl (ap (λ l. a ∷ l) h))
ComesBefore-cons a b xs ys e (common, c, cs, q, inr (d, ds, h, l)) =
    (a ∷ common, c, cs, ap₂ ◌∷◌ (sym e) q, inr (d, ds, ap (λ l. a ∷ l) h, l))

parts_ltb-ComesBefore : (xs ys : List Str) → parts_ltb ys xs ≡ false → (xs ≡ ys) ⊎ ComesBefore xs ys
unfolding parts_ltb
parts_ltb-ComesBefore [] [] h = inl refl
parts_ltb-ComesBefore [] (b ∷ bs) h = inr ([], b, bs, refl, inl refl)
parts_ltb-ComesBefore (a ∷ xs) [] h = cc
parts_ltb-ComesBefore (a ∷ xs) (b ∷ ys) h = elim (heads-cases a b (parts_ltb ys xs) h) [
  | inl l ↦ inr ([], b, ys, refl, inr (a, xs, refl, l))
  | inr (e, r) ↦ elim (parts_ltb-ComesBefore xs ys r) [
    | inl q ↦ inl (ap₂ ◌∷◌ e q)
    | inr k ↦ inr (ComesBefore-cons a b xs ys e k)
  ]
]

NoneBefore-AllBehind : (x : Str) (ys : List Str) → NoneBefore x ys → AllBehind x ys
unfolding path_ltb
NoneBefore-AllBehind x [] h = tt
NoneBefore-AllBehind x (y ∷ ys) (f, h) =
    (parts_ltb-ComesBefore (path_parts x) (path_parts y) f, NoneBefore-AllBehind x ys h)

InPathOrder-AreAscending : (xs : List Str) → InPathOrder xs → AreAscending xs
InPathOrder-AreAscending [] h = tt
InPathOrder-AreAscending (x ∷ xs) (a, h) =
    (NoneBefore-AllBehind x xs a, InPathOrder-AreAscending xs h)

pub sorted_paths-AreAscending : (xs : List Str) → AreAscending (sorted_paths xs)
sorted_paths-AreAscending xs = InPathOrder-AreAscending _ (sorted_paths-InPathOrder xs)
