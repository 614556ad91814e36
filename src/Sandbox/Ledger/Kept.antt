-- ===== src/Sandbox/Ledger/Kept.antt =====
-- Every operation keeps the account, whatever Docker answers.
use prehnite.Prelude.{
  ℕ, ◌≡◌, inl, refl, sym, ap, ◌∙◌, true, not, List, [], ◌∷◌, ◌++◌, Option, none, some, contains,
  nat_eq, list_eq,
}
use prehnite.Text.{Str}
use prehnite.Errors.{Result, ok, err}
use prehnite.Schemas.{NetworkMode, restricted, full}
use prehnite.Sandbox.{
  ContainerKwargs, connected, proxy_started, created, start_failed, remove_called, Log, Created,
  container, not_found, api_error, Docker, Sandbox, snapshot_changes,
}
use prehnite.Sandbox.Start.{
  left_behind, after_failed_start, start_container, create_container, create, create_from,
  with_proxy, connect_client, start,
}
use prehnite.Sandbox.Ops.{
  commit_result, snapshot, restart_container, recreate_container, recreate, revert,
}
use prehnite.Sandbox.Ledger.{
  live_containers, live_images, option_list, IsAccounted, live_containers-cycle,
  teardown_proxy-IsAccounted, discard_container-IsAccounted,
}
use prehnite.Sandbox.Ledger.Branches.{
  if-IsAccounted, if-on-IsAccounted, if-off-IsAccounted, option-IsAccounted,
}

module _ (docker : Docker) where
  -- A sandbox without a container that has a client.
  abbrev IsReady : Sandbox → Log → Type 0
  IsReady sb log =
      (live_containers log ≡ [])
      × (live_images log ≡ sb.snapshot_ids)
      × (sb.client ≡ true)
      × (sb.container_id ≡ none)

  proxied-IsReady :
      (sb : Sandbox) (log : Log) (hosts : List Str) (port : ℕ)
      → IsReady sb log
      → IsReady (record sb { proxy = some port }) (proxy_started hosts port ∷ log)
  unfolding live_containers live_images
  proxied-IsReady sb log hosts port h = h

  account : (sb : Sandbox) (log : Log) → IsReady sb log → IsAccounted (sb, log)
  account sb log (c, i, o, n) = (c ∙ sym (ap option_list n), i, inl o)

  start_container-IsAccounted :
      (kwargs : ContainerKwargs) (id : Str) (o : Option Str) (sb : Sandbox) (log : Log)
      → IsReady sb log
      → IsAccounted (left_behind (start_container docker id o sb (created kwargs id ∷ log)))
  unfolding start_container
  start_container-IsAccounted kwargs id none sb log (c, i, o, n) =
      unfold live_containers live_images in (ap (λ ids. id ∷ ids) c, i, inl o)
  start_container-IsAccounted kwargs id (some message) sb log h =
      failed (docker.remove (start_failed id ∷ created kwargs id ∷ log) id)
    where
      removed : IsAccounted (sb, remove_called id ∷ start_failed id ∷ created kwargs id ∷ log)
      removed =
          let (c, i, o) = account sb log h in
          (live_containers-cycle kwargs id log ∙ c, (unfold live_images in i), o)

      failed :
          (r : Option Str)
          → IsAccounted (
              left_behind (
                after_failed_start docker id message r sb
                  (start_failed id ∷ created kwargs id ∷ log)))
      failed none = unfold after_failed_start in teardown_proxy-IsAccounted sb _ removed
      failed (some e) = unfold after_failed_start in removed

  create_container-IsAccounted :
      (kwargs : ContainerKwargs) (made : Created) (sb : Sandbox) (log : Log)
      → IsReady sb log
      → IsAccounted (left_behind (create_container docker kwargs made sb log))
  unfolding create_container
  create_container-IsAccounted kwargs (not_found e) sb log h =
      teardown_proxy-IsAccounted sb _ (unfold live_containers live_images in account sb log h)
  create_container-IsAccounted kwargs (api_error e) sb log h =
      teardown_proxy-IsAccounted sb _ (unfold live_containers live_images in account sb log h)
  create_container-IsAccounted kwargs (container id) sb log h =
      start_container-IsAccounted kwargs id _ sb log h

  create-IsAccounted :
      (r : Result ContainerKwargs) (sb : Sandbox) (log : Log)
      → IsReady sb log
      → IsAccounted (left_behind (create docker r sb log))
  unfolding create
  create-IsAccounted (err e) sb log h = account sb log h
  create-IsAccounted (ok kwargs) sb log h = create_container-IsAccounted kwargs _ sb log h

  with_proxy-IsAccounted :
      (mode : NetworkMode) (sb : Sandbox) (log : Log)
      → IsReady sb log
      → IsAccounted (left_behind (with_proxy docker mode sb log))
  unfolding with_proxy create_from
  with_proxy-IsAccounted NetworkMode.none sb log h = create-IsAccounted _ sb log h
  with_proxy-IsAccounted full sb log h = create-IsAccounted _ sb log h
  with_proxy-IsAccounted restricted sb log h =
      if-IsAccounted sb.has_callback _ _ (create-IsAccounted _ _ _ (proxied-IsReady sb log _ _ h))
        (account sb log h)

  connect_client-IsAccounted :
      (r : Option Str) (sb : Sandbox) (log : Log)
      → IsAccounted (sb, log)
      → sb.container_id ≡ none
      → IsAccounted (left_behind (connect_client docker r sb log))
  unfolding connect_client
  connect_client-IsAccounted (some m) sb log h e = unfold live_containers live_images in h
  connect_client-IsAccounted none sb log (c, i, o) e =
      with_proxy-IsAccounted sb.task.network.mode (record sb { client = true }) (connected ∷ log)
        (unfold live_containers live_images in (c ∙ ap option_list e, i, refl, e))

  pub start-IsAccounted :
      (sb : Sandbox) (log : Log)
      → IsAccounted (sb, log)
      → IsAccounted (left_behind (start docker sb log))
  unfolding start
  start-IsAccounted sb log h =
      option-IsAccounted sb.container_id _ _ (connect_client-IsAccounted _ sb log h) (λ id e. h)

  commit_result-IsAccounted :
      (tag : Str) (changes : List Str) (r : Option Str) (sb : Sandbox) (log : Log)
      → IsAccounted (sb, log)
      → sb.client ≡ true
      → IsAccounted (left_behind (commit_result docker tag changes r sb log))
  unfolding commit_result live_containers live_images
  commit_result-IsAccounted tag changes none sb log (c, i, o) t =
      (c, ap (λ tags. tags ++ (tag ∷ [])) i, inl t)
  commit_result-IsAccounted tag changes (some e) sb log h t = h

  pub snapshot-IsAccounted :
      (tag : Str) (labels : List (Str × Str)) (sb : Sandbox) (log : Log)
      → IsAccounted (sb, log)
      → IsAccounted (left_behind (snapshot docker tag labels sb log))
  unfolding snapshot
  snapshot-IsAccounted tag labels sb log h =
      option-IsAccounted sb.container_id _ _ (λ e. h)
        λ id e.
          if-on-IsAccounted sb.client _ _
            (commit_result-IsAccounted tag (snapshot_changes labels) _ sb log h) h

  restart_container-IsAccounted :
      (kwargs : ContainerKwargs) (id : Str) (o : Option Str) (sb : Sandbox) (log : Log)
      → IsReady sb log
      → IsAccounted (left_behind (restart_container docker id o sb (created kwargs id ∷ log)))
  unfolding restart_container
  restart_container-IsAccounted kwargs id none sb log (c, i, o, n) =
      unfold live_containers live_images in (ap (λ ids. id ∷ ids) c, i, inl o)
  restart_container-IsAccounted kwargs id (some message) sb log h =
      let (c, i, o) = account sb log h in
      (live_containers-cycle kwargs id log ∙ c, (unfold live_images in i), o)

  recreate-IsAccounted :
      (r : Result ContainerKwargs) (sb : Sandbox) (log : Log)
      → IsReady sb log
      → IsAccounted (left_behind (recreate docker r sb log))
  unfolding recreate
  recreate-IsAccounted (err e) sb log h = account sb log h
  recreate-IsAccounted (ok kwargs) sb log h = made (docker.create log kwargs)
    where
      made : (m : Created) → IsAccounted (left_behind (recreate_container docker kwargs m sb log))
      made (not_found e) = unfold recreate_container live_containers live_images in account sb log h
      made (api_error e) = unfold recreate_container live_containers live_images in account sb log h
      made (container id) =
          unfold recreate_container in restart_container-IsAccounted kwargs id _ sb log h

  pub revert-IsAccounted :
      (tag : Str) (sb : Sandbox) (log : Log)
      → IsAccounted (sb, log)
      → IsAccounted (left_behind (revert docker tag sb log))
  unfolding revert
  revert-IsAccounted tag sb log h =
      let ((c, i, o), n, k) = discard_container-IsAccounted sb log h in
      if-IsAccounted (not (contains sb.snapshot_ids tag)) _ _ h (
        if-off-IsAccounted sb.client _ _ h
          λ t. recreate-IsAccounted _ _ _ (c ∙ ap option_list n, i, k ∙ t, n))
