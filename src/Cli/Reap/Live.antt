-- ===== src/Cli/Reap/Live.antt =====
-- What belongs to a session that is still described is not reaped.
use prehnite.Prelude.{
  ℕ, ◌≡◌, refl, sym, ap, ◌∙◌, Bool, true, false, not, ◌||◌, List, [], ◌∷◌, ◌++◌, Option, none, some,
  String, arith, any, filter, contains, ◌==◌, nat_eq, list_eq, string_eq, list_beq_iff,
  if◌then◌else◌, Bool-cases, inl, inr,
}
use prehnite.Prelude.Dict.{lookup}
use prehnite.Text.{Str, lit}
use prehnite.Schemas.{Value, str, object, Fields}
use prehnite.Errors.{Result, ok, err, ◌>>=◌}
use prehnite.Server.Branch.{to_str}
use prehnite.Cli.Summary.{truth}
use prehnite.Cli.Reap.{
  Container, Image, LogFile, get_field, short_id, id_if_true, ids_of, live_ids, is_orphan,
  is_orphan_image, find_orphan_snapshot_images, Reaped, reap,
}

-- The container goes by the id, in full or in its first twelve characters.
abbrev pub goes_by : Str → Container → Bool
goes_by cid c = c.id == cid || short_id c == cid

-- The image is labelled with the session's id.
abbrev pub is_labelled : Str → Image → Bool
is_labelled sid img = elim (lookup (lit "prehnite.session_id") img.labels) [
  | none ↦ false
  | some s ↦ s == sid
]

-- Two results, combined.
both-ok :
    {C : Type 0} (m n : Result (List Str)) (f : List Str → List Str → C) (c : C)
    → (do a ← m; b ← n; ok (f a b)) ≡ ok c
    → (a : List Str) × (b : List Str) × (m ≡ ok a) × (n ≡ ok b) × (c ≡ f a b)
both-ok (ok a) (ok b) f c h = (a, b, refl, refl, cc)
both-ok (ok a) (err e) f c h = absurd (ground arith)
both-ok (err e) n f c h = absurd (ground arith)

ok-inj : {a b : List Str} → ok a ≡ ok b → a ≡ b
ok-inj h = cc

contains-append_left :
    (a : Str) (xs ys : List Str) → contains xs a ≡ true → contains (xs ++ ys) a ≡ true
unfolding contains
contains-append_left a [] ys h = absurd (ground arith)
contains-append_left a (x ∷ xs) ys h = ground (arith, contains-append_left a xs ys)

contains-append_right :
    (a : Str) (xs ys : List Str) → contains ys a ≡ true → contains (xs ++ ys) a ≡ true
unfolding contains
contains-append_right a [] ys h = h
contains-append_right a (x ∷ xs) ys h = ground (arith, contains-append_right a xs ys)

-- Of two ids only one of which is in the list, neither is the other.
beq-contains :
    (live : List Str) (a b : Str)
    → contains live a ≡ true
    → contains live b ≡ false
    → (b == a) ≡ false
beq-contains live a b h k = elim (Bool-cases (b == a)) [
  | inl t ↦
      let q : b ≡ a = (list_beq_iff b a).0 t in absurd (ground (arith, ap (contains live) q, h, k))
  | inr f ↦ f
]

goes_by-is_orphan :
    (live : List Str) (cid : Str) (c : Container)
    → contains live cid ≡ true
    → is_orphan live c ≡ true
    → goes_by cid c ≡ false
unfolding is_orphan
goes_by-is_orphan live cid c h o =
    let p : contains live c.id ≡ false = ground (arith, o) in
    let q : contains live (short_id c) ≡ false = ground (arith, o) in
    rw (beq-contains live cid c.id h p) (beq-contains live cid (short_id c) h q)

any-filter-false {ℓ} :
    {A : Type ℓ} (p q : A → Bool) (xs : List A)
    → ((x : A) → q x ≡ true → p x ≡ false)
    → any p (filter q xs) ≡ false
unfolding any filter
any-filter-false p q [] h = refl
any-filter-false p q (x ∷ xs) h = elim (Bool-cases (q x)) [
  | inl t ↦ rw t (rw (h x t) (any-filter-false p q xs h))
  | inr f ↦ rw f (any-filter-false p q xs h)
]

is_labelled-is_orphan_image :
    (live : List Str) (sid : Str) (img : Image)
    → (sid == []) ≡ false
    → contains live sid ≡ true
    → is_orphan_image live img ≡ true
    → is_labelled sid img ≡ false
unfolding is_orphan_image
is_labelled-is_orphan_image live sid img n h o =
    labelled (lookup (lit "prehnite.session_id") img.labels) o
  where
    labelled :
        (found : Option Str)
        → (elim found [ none ↦ true | some s ↦ if s == [] then true else not (contains live s) ])
          ≡ true
        → (elim found [ none ↦ false | some s ↦ s == sid ]) ≡ false
    labelled none o = refl
    labelled (some s) o = elim (Bool-cases (contains live s)) [
      | inr f ↦ beq-contains live sid s h f
      | inl t ↦ elim (Bool-cases (s == [])) [
        | inl e ↦
            let q : s ≡ [] = (list_beq_iff s []).0 e in
            rw q (elim (Bool-cases ([] == sid)) [
              | inl z ↦
                  let y : [] ≡ sid = (list_beq_iff [] sid).0 z in
                  absurd (ground (arith, ap (λ x. x == []) y, n))
              | inr z ↦ z
            ])
        | inr e ↦ absurd (ground (arith, t, e, o))
      ]
    ]

-- Nothing that goes by the container's id or bears the session's label is reaped.
abbrev pub Spares : Str → Str → Reaped → Type 0
Spares cid sid r =
    (any (goes_by cid) r.containers ≡ false) × (any (is_labelled sid) r.images ≡ false)

if-Spares :
    (cid sid : Str) (dry_run : Bool) (plan : Reaped)
    → Spares cid sid plan
    → Spares cid sid (if dry_run then record { containers = []; images = []; logs = [] } else plan)
unfolding any
if-Spares cid sid true plan h = (refl, refl)
if-Spares cid sid false plan h = h

find_orphan_snapshot_images-spared :
    (live : List Str) (sid : Str) (images : Option (List Image))
    → (sid == []) ≡ false
    → contains live sid ≡ true
    → any (is_labelled sid) (find_orphan_snapshot_images images live) ≡ false
unfolding find_orphan_snapshot_images any
find_orphan_snapshot_images-spared live sid none n h = refl
find_orphan_snapshot_images-spared live sid (some images) n h =
    any-filter-false (is_labelled sid) (is_orphan_image live) images
      λ img o. is_labelled-is_orphan_image live sid img n h o

module _ (loads : Str → Option Value) (show : Value → Str) where
  -- A session file that gives a nonempty text under the key.
  abbrev pub Describes : String → Str → Str → Type 0
  Describes key text name =
      (fs : Fields) × (loads text ≡ some (object fs))
      × (get_field key fs none ≡ some (str name))
      × ((name == []) ≡ false)

  ids_of-Describes :
      (key : String) (text name : Str)
      → Describes key text name
      → ids_of loads show key (loads text) ≡ ok (name ∷ [])
  unfolding ids_of id_if_true truth to_str
  ids_of-Describes key text name (fs, l, g, n) = rw l (rw g (rw n refl))

  contains-ids_of :
      (key : String) (text name : Str) (ids : List Str)
      → Describes key text name
      → ids_of loads show key (loads text) ≡ ok ids
      → contains ids name ≡ true
  unfolding contains
  contains-ids_of key text name ids d h =
      let e : ids ≡ name ∷ [] = ok-inj (sym h ∙ ids_of-Describes key text name d) in
      rw e (rw ((list_beq_iff name name).1 refl) refl)

  contains-live_ids :
      (key : String) (before after : List (Option Str)) (text name : Str) (ids : List Str)
      → Describes key text name
      → live_ids loads show key (before ++ (some text ∷ after)) ≡ ok ids
      → contains ids name ≡ true
  unfolding live_ids
  contains-live_ids key [] after text name ids d h =
      let (a, b, p, q, e) =
        both-ok (ids_of loads show key (loads text)) (live_ids loads show key after) ◌++◌ ids h in
      rw e (contains-append_left name a b (contains-ids_of key text name a d p))
  contains-live_ids key (none ∷ before) after text name ids d h =
      contains-live_ids key before after text name ids d h
  contains-live_ids key (some t ∷ before) after text name ids d h =
      let (a, b, p, q, e) =
        both-ok (ids_of loads show key (loads t))
          (live_ids loads show key (before ++ (some text ∷ after))) ◌++◌ ids h in
      rw e (contains-append_right name a b (contains-live_ids key before after text name b d q))

  -- If a session file names a container and a session, no container that goes by that id, in full
  -- or in its first twelve characters, is reaped, and no image labelled with that session.
  pub reap-Spares :
      (dry_run : Bool) (before after : List (Option Str)) (text cid sid : Str)
      (labelled descended : Option (List Container)) (images : Option (List Image)) (cutoff : ℕ)
      (logs : List LogFile) (r : Reaped)
      → Describes "container_id" text cid
      → Describes "session_id" text sid
      → reap loads show dry_run
          (before ++ (some text ∷ after))
          labelled
          descended
          images
          cutoff
          logs
        ≡ ok r
      → Spares cid sid r
  unfolding reap
  reap-Spares dry_run before after text cid sid labelled descended images cutoff logs r c s h =
      let files = before ++ (some text ∷ after) in
      let (sessions, containers, p, q, e) =
        both-ok (live_ids loads show "session_id" files) (live_ids loads show "container_id" files)
          _ r h in
      let live_c = contains-live_ids "container_id" before after text cid containers c q in
      let live_s = contains-live_ids "session_id" before after text sid sessions s p in
      rw e (
        if-Spares cid sid dry_run _ (
          any-filter-false (goes_by cid) (is_orphan containers) _
              (λ x o. goes_by-is_orphan containers cid x live_c o),
          find_orphan_snapshot_images-spared sessions sid images s.3 live_s,
        ))
