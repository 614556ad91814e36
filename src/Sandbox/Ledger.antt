-- ===== src/Sandbox/Ledger.antt =====
-- Every container and every snapshot image that a sandbox made is its own or was removed.
pub mod Branches
pub mod Kept
pub mod Released
use prehnite.Prelude.{
  ℕ, suc, ◌≡◌, ◌⊎◌, inl, inr, refl, sym, ap, ◌∙◌, Bool, true, false, not, List, [], ◌∷◌, ◌++◌,
  Option, none, some, arith, contains, ◌==◌, nat_eq, list_eq, beq_refl, if◌then◌else◌, Bool-cases,
  Option-cases,
}
use prehnite.Text.{Str}
use prehnite.Sandbox.{
  ContainerKwargs, Event, connected, connect_failed, proxy_started, proxy_stopped, created,
  create_failed, started, start_failed, stop_called, remove_called, committed, commit_failed,
  image_remove_called, attached, attach_failed, executed, exec_failed, client_closed, Log, Sandbox,
}
use prehnite.Sandbox.Start.{
  Outcome, left_behind, teardown_proxy, discard_container, remove_images, delete_snapshots,
  close_client, stop,
}

remove_first : Str → List Str → List Str
remove_first x [] = []
remove_first x (y ∷ ys) = if x == y then ys else y ∷ remove_first x ys

-- The containers that were made or found and whose removal was not asked for.
unfoldable pub live_containers : Log → List Str
unfolding remove_first
live_containers [] = []
live_containers (created kwargs id ∷ log) = id ∷ live_containers log
live_containers (attached id ∷ log) = id ∷ live_containers log
live_containers (remove_called id ∷ log) = remove_first id (live_containers log)
live_containers (_ ∷ log) = live_containers log

-- The snapshot images that were made and whose removal was not asked for.
unfoldable pub live_images : Log → List Str
unfolding remove_first
live_images [] = []
live_images (committed repository tag changes ∷ log) = live_images log ++ (tag ∷ [])
live_images (image_remove_called tag ∷ log) = remove_first tag (live_images log)
live_images (_ ∷ log) = live_images log

abbrev pub option_list : Option Str → List Str
option_list none = []
option_list (some id) = id ∷ []

-- The log agrees with what the sandbox still holds.
abbrev pub IsAccounted : Sandbox × Log → Type 0
IsAccounted (sb, log) =
    (live_containers log ≡ option_list sb.container_id)
    × (live_images log ≡ sb.snapshot_ids)
    × ((sb.client ≡ true) ⊎ (sb.snapshot_ids ≡ []))

remove_first_self : (x : Str) (xs : List Str) → remove_first x (x ∷ xs) ≡ xs
unfolding remove_first
remove_first_self x xs = rw (beq_refl x) refl

pub live_containers-cycle :
    (kwargs : ContainerKwargs) (id : Str) (log : Log)
    → live_containers (remove_called id ∷ start_failed id ∷ created kwargs id ∷ log)
      ≡ live_containers log
unfolding live_containers
live_containers-cycle kwargs id log = remove_first_self id _

pub teardown_proxy-IsAccounted :
    (sb : Sandbox) (log : Log) → IsAccounted (sb, log) → IsAccounted (teardown_proxy sb log)
unfolding teardown_proxy
teardown_proxy-IsAccounted sb log h = elim (Option-cases sb.proxy) [
  | inl e ↦ rw e h
  | inr (port, e) ↦ rw e (unfold live_containers live_images in h)
]

pub discard_container-IsAccounted :
    (sb : Sandbox) (log : Log)
    → IsAccounted (sb, log)
    → (IsAccounted (discard_container sb log))
      × ((discard_container sb log).0.container_id ≡ none)
      × ((discard_container sb log).0.client ≡ sb.client)
unfolding discard_container
discard_container-IsAccounted sb log (c, i, o) = elim (Option-cases sb.container_id) [
  | inl e ↦ rw e ((c ∙ ap option_list e, i, o), refl, refl)
  | inr (id, e) ↦ rw e (
      unfold live_containers live_images in
      ((ap (remove_first id) (c ∙ ap option_list e) ∙ remove_first_self id [], i, o), refl, refl))
]

live_containers-remove_images :
    (tags : List Str) (log : Log) → live_containers (remove_images tags log) ≡ live_containers log
unfolding remove_images
live_containers-remove_images [] log = refl
live_containers-remove_images (tag ∷ tags) log =
    live_containers-remove_images tags (image_remove_called tag ∷ log)
    ∙ (unfold live_containers in refl)

live_images-remove_images :
    (tags : List Str) (log : Log)
    → live_images log ≡ tags
    → live_images (remove_images tags log) ≡ []
unfolding remove_images
live_images-remove_images [] log h = h
live_images-remove_images (tag ∷ tags) log h =
    live_images-remove_images tags (image_remove_called tag ∷ log)
      (unfold live_images in (ap (remove_first tag) h ∙ remove_first_self tag tags))

delete_snapshots-IsAccounted :
    (sb : Sandbox) (log : Log)
    → IsAccounted (sb, log)
    → (IsAccounted (delete_snapshots sb log))
      × ((delete_snapshots sb log).0.snapshot_ids ≡ [])
      × ((delete_snapshots sb log).0.container_id ≡ sb.container_id)
unfolding delete_snapshots
delete_snapshots-IsAccounted sb log (c, i, inl o) = rw o (
  (
    live_containers-remove_images sb.snapshot_ids log ∙ c,
    live_images-remove_images sb.snapshot_ids log i,
    inr refl,
  ),
  refl,
  refl,
)
delete_snapshots-IsAccounted sb log (c, i, inr o) = elim (Bool-cases sb.client) [
  | inl t ↦ rw t (
    (
      live_containers-remove_images sb.snapshot_ids log ∙ c,
      live_images-remove_images sb.snapshot_ids log i,
      inr refl,
    ),
    refl,
    refl,
  )
  | inr f ↦ rw f ((c, i, inr o), o, refl)
]

close_client-IsAccounted :
    (sb : Sandbox) (log : Log)
    → IsAccounted (sb, log)
    → sb.snapshot_ids ≡ []
    → IsAccounted (close_client sb log)
unfolding close_client
close_client-IsAccounted sb log (c, i, o) n = elim (Bool-cases sb.client) [
  | inl t ↦ rw t (unfold live_containers live_images in (c, i, inr n))
  | inr f ↦ rw f (c, i, inr n)
]

teardown_proxy-same :
    (sb : Sandbox) (log : Log)
    → ((teardown_proxy sb log).0.snapshot_ids ≡ sb.snapshot_ids)
      × ((teardown_proxy sb log).0.container_id ≡ sb.container_id)
unfolding teardown_proxy
teardown_proxy-same sb log = elim (Option-cases sb.proxy) [
  | inl e ↦ rw e (refl, refl)
  | inr (port, e) ↦ rw e (refl, refl)
]

close_client-same :
    (sb : Sandbox) (log : Log)
    → ((close_client sb log).0.snapshot_ids ≡ sb.snapshot_ids)
      × ((close_client sb log).0.container_id ≡ sb.container_id)
unfolding close_client
close_client-same sb log = elim (Bool-cases sb.client) [
  | inl t ↦ rw t (refl, refl)
  | inr f ↦ rw f (refl, refl)
]

-- After `stop` the sandbox holds nothing.
pub stop-IsAccounted :
    (sb : Sandbox) (log : Log)
    → IsAccounted (sb, log)
    → (IsAccounted (stop sb log))
      × ((stop sb log).0.container_id ≡ none)
      × ((stop sb log).0.snapshot_ids ≡ [])
unfolding stop
stop-IsAccounted sb log h =
    let (h1, c1, _) = discard_container-IsAccounted sb log h in
    let (h2, s2, c2) = delete_snapshots-IsAccounted _ _ h1 in
    let h3 = teardown_proxy-IsAccounted _ _ h2 in
    let (s3, c3) = teardown_proxy-same _ _ in
    let (s4, c4) = close_client-same _ _ in
    (close_client-IsAccounted _ _ h3 (s3 ∙ s2), c4 ∙ c3 ∙ c2 ∙ c1, s4 ∙ s3 ∙ s2)
