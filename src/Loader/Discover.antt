-- ===== src/Loader/Discover.antt =====
-- What `discover_tasks` returns.
use prehnite.Prelude.{
  ◌≡◌, refl, sym, ap, ◌∙◌, Bool, true, false, ◌||◌, ◌&&◌, filter, beq_refl, List, [], ◌∷◌, ◌++◌,
  append_assoc, append-nil, map, Option, none, some, arith, ◌==◌, nat_eq, list_eq, if◌then◌else◌,
  Bool-cases, inl, inr, list_beq_iff, contains,
}
use prehnite.Prelude.Dict.{Dict, lookup, insert, keys, values, has_key, NodupKeys, insert-NodupKeys}
use prehnite.Text.{Str, lit, ends_with}
use prehnite.Text.Paths.{sorted_paths, contains-sorted_paths}
use prehnite.Schemas.{Fields, Task}
use prehnite.Errors.{Error, Result, ok, err, ◌>>=◌}
use prehnite.Loader.Ascending.{AreAscending, sorted_paths-AreAscending}
use prehnite.Loader.{Yaml, Files, load_task, add_task, discover_from, yaml_files, discover_tasks}

values-insert :
    (k : Str) (v : Task) (d : Dict Str Task)
    → has_key k d ≡ false
    → values (insert k v d) ≡ values d ++ (v ∷ [])
unfolding values insert lookup
values-insert k v [] h = refl
values-insert k v ((j, w) ∷ d) h = ground (arith, values-insert k v d)

bind-ok :
    {A B : Type 0} (m : Result A) (f : A → Result B) (b : B)
    → (m >>= f) ≡ ok b
    → (a : A) × (m ≡ ok a) × (f a ≡ ok b)
bind-ok (ok a) f b h = (a, refl, h)
bind-ok (err e) f b h = absurd (ground arith)

-- Every task is kept under its own id.
abbrev KeyedById : Dict Str Task → Type 0
KeyedById [] = Unit
KeyedById ((k, t) ∷ d) = (k ≡ t.id) × KeyedById d

ok-inj : {a b : List Task} → ok a ≡ ok b → a ≡ b
ok-inj h = cc

insert-KeyedById : (t : Task) (d : Dict Str Task) → KeyedById d → KeyedById (insert t.id t d)
unfolding insert
insert-KeyedById t [] h = (refl, tt)
insert-KeyedById t ((k, u) ∷ d) (e, h) = elim (Bool-cases (k == t.id)) [
  | inl y ↦ rw y ((list_beq_iff k t.id).0 y, h)
  | inr n ↦ rw n (e, insert-KeyedById t d h)
]

if-ok :
    {A : Type 0} (b : Bool) (e : Error) (x y : A)
    → (if b then err e else ok x) ≡ ok y
    → (b ≡ false) × (y ≡ x)
if-ok true e x y h = absurd (ground arith)
if-ok false e x y h = (refl, cc)

add_task-ok :
    (sl : Str → Yaml) (va : Fields → Result Task) (t : Task) (d d' : Dict Str Task)
    → add_task sl va t d ≡ ok d'
    → (has_key t.id d ≡ false) × (d' ≡ insert t.id t d)
unfolding add_task
add_task-ok sl va t d d' h = if-ok (has_key t.id d) _ _ _ h

-- No two tasks have one id.
abbrev pub HaveDistinctIds : List Task → Type 0
HaveDistinctIds [] = Unit
HaveDistinctIds (t ∷ ts) =
    (contains (map (λ (u : Task). u.id) ts) t.id ≡ false) × HaveDistinctIds ts

has_key-cons :
    (b : Bool) (t : Task) (o : Option Task)
    → (b || (elim o [ none ↦ false | some v ↦ true ]))
      ≡ (elim (if b then some t else o) [ none ↦ false | some v ↦ true ])
has_key-cons true t o = refl
has_key-cons false t o = refl

contains-values :
    (a : Str) (d : Dict Str Task)
    → KeyedById d
    → contains (map (λ (u : Task). u.id) (values d)) a ≡ has_key a d
unfolding contains values lookup
contains-values a [] h = refl
contains-values a ((k, t) ∷ d) (e, h) =
    ap (λ i. i == a || contains (map (λ (u : Task). u.id) (values d)) a) (sym e)
    ∙ ap (λ r. k == a || r) (contains-values a d h)
    ∙ has_key-cons (k == a) t (lookup a d)

values-HaveDistinctIds :
    (d : Dict Str Task) → KeyedById d → NodupKeys d → HaveDistinctIds (values d)
unfolding values
values-HaveDistinctIds [] h n = tt
values-HaveDistinctIds ((k, t) ∷ d) (e, h) (f, n) = (
  ap (contains (map (λ (u : Task). u.id) (values d))) (sym e)
      ∙ contains-values k d h
      ∙ ap (λ o. elim o [ none ↦ false | some v ↦ true ]) f,
  values-HaveDistinctIds d h n,
)

contains-filter :
    (f : Str → Bool) (a : Str) (xs : List Str) → contains (filter f xs) a ≡ (contains xs a && f a)
unfolding contains filter
contains-filter f a [] = refl
contains-filter f a (x ∷ xs) = elim (Bool-cases (x == a)) [
  | inl e ↦ rw ((list_beq_iff x a).0 e) (ground (arith, beq_refl a, contains-filter f a xs))
  | inr n ↦ ground (arith, n, contains-filter f a xs)
]

contains-append :
    (a : Str) (xs ys : List Str) → contains (xs ++ ys) a ≡ (contains xs a || contains ys a)
unfolding contains
contains-append a [] ys = refl
contains-append a (x ∷ xs) ys = ground (arith, contains-append a xs ys)

-- The paths under the root whose names end in one of the two suffixes.
abbrev pub ArePathsOf : Files → List Str → Type 0
ArePathsOf files paths =
    (path : Str)
    → contains paths path ≡ (
        contains (keys files) path && (ends_with path (lit ".yaml") || ends_with path (lit ".yml")))

yaml_files-contains : (files : Files) → ArePathsOf files (yaml_files files)
unfolding yaml_files
yaml_files-contains files path =
    let is_yaml : Str → Bool = λ q. ends_with q (lit ".yaml") in
    let is_yml : Str → Bool = λ q. ends_with q (lit ".yml") in
    contains-append path (filter is_yaml (keys files)) (filter is_yml (keys files))
    ∙ ap (λ b. b || contains (filter is_yml (keys files)) path)
        (contains-filter is_yaml path (keys files))
    ∙ ap (λ b. (contains (keys files) path && is_yaml path) || b)
        (contains-filter is_yml path (keys files))
    ∙ ground arith

module _ (safe_load : Str → Yaml) (validate : Fields → Result Task) where
  -- The tasks are what the paths load, one by one.
  abbrev pub Loads : Files → List Str → List Task → Type 0
  Loads files [] [] = Unit
  Loads files (p ∷ ps) [] = ⊥
  Loads files [] (t ∷ ts) = ⊥
  Loads files (p ∷ ps) (t ∷ ts) =
      (load_task safe_load validate p (lookup p files) ≡ ok t) × Loads files ps ts

  discover_from-Loads :
      (files : Files) (paths : List Str) (d : Dict Str Task) (ts : List Task)
      → KeyedById d
      → NodupKeys d
      → discover_from safe_load validate files paths d ≡ ok ts
      → (news : List Task) × (ts ≡ values d ++ news)
        × (Loads files paths news)
        × (HaveDistinctIds ts)
  unfolding discover_from
  discover_from-Loads files [] d ts k n h =
      let e : ts ≡ values d = ok-inj (sym h) in
      ([], e ∙ sym (append-nil _), tt, rw e (values-HaveDistinctIds d k n))
  discover_from-Loads files (p ∷ ps) d ts k n h =
      let (t, l, g) =
        bind-ok (load_task safe_load validate p (lookup p files))
          (λ task. add_task safe_load validate task d >>= discover_from safe_load validate files ps)
          ts h in
      let (d', a, f) =
        bind-ok (add_task safe_load validate t d) (discover_from safe_load validate files ps) ts
          g in
      let (fresh, e) = add_task-ok safe_load validate t d d' a in
      let (news, v, r, u) =
        discover_from-Loads files ps (insert t.id t d) ts (insert-KeyedById t d k)
          (insert-NodupKeys t.id t d n)
          (ap (discover_from safe_load validate files ps) (sym e) ∙ f) in
      (
        t ∷ news,
        v ∙ ap (λ vs. vs ++ news) (values-insert t.id t d fresh) ∙ append_assoc (values d) _ _,
        (l, r),
        u,
      )

  -- The tasks that discover_tasks returns are what these paths load, one for each path: the
  -- paths under the root whose names end in .yaml or .yml, in ascending order, which is the
  -- order of the first parts in which two paths differ, and a path that ends there comes first.
  -- No two of the tasks have one id.
  pub discover_tasks-Loads :
      (files : Files) (ts : List Task)
      → discover_tasks safe_load validate files ≡ ok ts
      → (paths : List Str) × (AreAscending paths)
        × (ArePathsOf files paths)
        × (Loads files paths ts)
        × (HaveDistinctIds ts)
  unfolding discover_tasks
  discover_tasks-Loads files ts h =
      let paths = sorted_paths (yaml_files files) in
      let (news, v, r, u) = discover_from-Loads files paths [] ts tt tt h in
      (
        paths,
        sorted_paths-AreAscending (yaml_files files),
        λ path. contains-sorted_paths path (yaml_files files) ∙ yaml_files-contains files path,
        rw v (unfold values in r),
        u,
      )
