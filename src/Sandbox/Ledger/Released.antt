-- ===== src/Sandbox/Ledger/Released.antt =====
-- The account over a whole life of a sandbox.
use prehnite.Prelude.{ℕ, ◌≡◌, inl, inr, refl, ap, ◌∙◌, Bool, List, [], ◌∷◌, Option, none, some}
use prehnite.Text.{Str}
use prehnite.Schemas.{Task}
use prehnite.Sandbox.{
  Log, Created, container, not_found, api_error, Executed, ran, exec_error, Docker, Sandbox,
  new_sandbox,
}
use prehnite.Sandbox.Start.{left_behind, stop}
use prehnite.Sandbox.Ops.{
  get_container, connect_existing, attach, exec_result, exec, Op, start_op, stop_op, snapshot_op,
  revert_op, attach_op, exec_op, perform_op, perform_ops,
}
use prehnite.Sandbox.Ledger.{
  live_containers, live_images, option_list, IsAccounted, stop-IsAccounted,
}
use prehnite.Sandbox.Ledger.Branches.{option-IsAccounted}
use prehnite.Sandbox.Ledger.Kept.{start-IsAccounted, snapshot-IsAccounted, revert-IsAccounted}

module _ (docker : Docker) where
  get_container-IsAccounted :
      (id : Str) (found : Created) (sb : Sandbox) (log : Log)
      → IsAccounted (sb, log)
      → sb.container_id ≡ none
      → IsAccounted (left_behind (get_container docker id found sb log))
  unfolding get_container live_containers live_images
  get_container-IsAccounted id (container id') sb log (c, i, o) e =
      (ap (λ ids. id' ∷ ids) (c ∙ ap option_list e), i, o)
  get_container-IsAccounted id (not_found m) sb log h e = h
  get_container-IsAccounted id (api_error m) sb log h e = h

  connect_existing-IsAccounted :
      (id : Str) (r : Option Str) (sb : Sandbox) (log : Log)
      → IsAccounted (sb, log)
      → sb.container_id ≡ none
      → IsAccounted (left_behind (connect_existing docker id r sb log))
  unfolding connect_existing
  connect_existing-IsAccounted id (some m) sb log h e = unfold live_containers live_images in h
  connect_existing-IsAccounted id none sb log (c, i, o) e =
      get_container-IsAccounted id _ _ _ (unfold live_containers live_images in (c, i, inl refl)) e

  attach-IsAccounted :
      (id : Str) (sb : Sandbox) (log : Log)
      → IsAccounted (sb, log)
      → IsAccounted (left_behind (attach docker id sb log))
  unfolding attach
  attach-IsAccounted id sb log h =
      option-IsAccounted sb.container_id _ _ (connect_existing-IsAccounted id _ sb log h)
        (λ old e. h)

  exec_result-IsAccounted :
      (id cmd : Str) (limit : ℕ) (x : Executed) (sb : Sandbox) (log : Log)
      → IsAccounted (sb, log)
      → IsAccounted (left_behind (exec_result docker id cmd limit x sb log))
  unfolding exec_result live_containers live_images
  exec_result-IsAccounted id cmd limit (ran code output ms) sb log h = h
  exec_result-IsAccounted id cmd limit (exec_error m) sb log h = h

  pub exec-IsAccounted :
      (cmd : Str) (sb : Sandbox) (log : Log)
      → IsAccounted (sb, log)
      → IsAccounted (left_behind (exec docker cmd sb log))
  unfolding exec
  exec-IsAccounted cmd sb log h =
      option-IsAccounted sb.container_id _ _ (λ e. h)
        (λ id e. exec_result-IsAccounted id cmd sb.task.exec_timeout_seconds _ sb log h)

  perform_op-IsAccounted :
      (op : Op) (sb : Sandbox) (log : Log)
      → IsAccounted (sb, log)
      → IsAccounted (perform_op docker op sb log)
  unfolding perform_op
  perform_op-IsAccounted start_op sb log h = start-IsAccounted docker sb log h
  perform_op-IsAccounted stop_op sb log h = (stop-IsAccounted sb log h).0
  perform_op-IsAccounted (snapshot_op tag labels) sb log h =
      snapshot-IsAccounted docker tag labels sb log h
  perform_op-IsAccounted (revert_op tag) sb log h = revert-IsAccounted docker tag sb log h
  perform_op-IsAccounted (attach_op id) sb log h = attach-IsAccounted id sb log h
  perform_op-IsAccounted (exec_op cmd) sb log h = exec-IsAccounted cmd sb log h

  perform_ops-IsAccounted :
      (ops : List Op) (sb : Sandbox) (log : Log)
      → IsAccounted (sb, log)
      → IsAccounted (perform_ops docker ops sb log)
  unfolding perform_ops
  perform_ops-IsAccounted [] sb log h = h
  perform_ops-IsAccounted (op ∷ ops) sb log h =
      perform_ops-IsAccounted ops _ _ (perform_op-IsAccounted op sb log h)

-- What a sandbox holds after some calls, and what a `stop` leaves.
abbrev pub IsReleased : Sandbox × Log → Type 0
IsReleased (sb, log) =
    (IsAccounted (sb, log))
    × (live_containers (stop sb log).1 ≡ [])
    × (live_images (stop sb log).1 ≡ [])

-- Whatever Docker answers and whatever was called, start, stop, snapshot, revert, attach and exec
-- in any order, errors included: the only container whose removal was not asked for is the one the
-- sandbox holds, the only snapshot images are those it lists, and a stop asks for the removal of
-- both, so that nothing is left.
pub sandbox-IsReleased :
    (docker : Docker) (ops : List Op) (task : Task) (has_callback : Bool)
    → IsReleased (perform_ops docker ops (new_sandbox task has_callback) [])
sandbox-IsReleased docker ops task has_callback =
    let h =
      perform_ops-IsAccounted docker ops (new_sandbox task has_callback) []
        (unfold live_containers live_images in (refl, refl, inr refl)) in
    let ((c, i, o), n, s) = stop-IsAccounted _ _ h in (h, c ∙ ap option_list n, i ∙ s)
