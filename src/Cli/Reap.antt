-- ===== src/Cli/Reap.antt =====
-- `prehnite reap`: which containers, snapshot images and batch logs are removed. Docker's listings,
-- the session files and the log files are arguments; `json.loads` and `str(v)` of a value that is no
-- text are parameters.
pub mod Live
use prehnite.Prelude.{
  ℕ, Bool, true, false, not, ◌&&◌, List, [], ◌∷◌, ◌++◌, map, Option, none, some, String, ltb, take,
  filter, contains, ◌==◌, nat_eq, list_eq, string_eq, if◌then◌else◌,
}
use prehnite.Prelude.Dict.{Dict, lookup, insert, values}
use prehnite.Text.{Str, lit}
use prehnite.Text.Order.{sorted_set}
use prehnite.Schemas.{Value, null, bool, int, str, array, object, Fields, no_fields, field}
use prehnite.Errors.{Result, ok, err, ◌>>=◌, attribute_error}
use prehnite.Server.Branch.{to_str}
use prehnite.Cli.Summary.{truth}

pub record Container : Type 0 where
  pub id : Str

pub record Image : Type 0 where
  pub id : Str
  pub labels : Dict Str Str

pub record LogFile : Type 0 where
  pub path : Str
  pub mtime : ℕ

-- `payload.get(key)`; of two equal keys `json.loads` keeps the last.
unfoldable pub get_field : String → Fields → Option Value → Option Value
get_field key no_fields found = found
get_field key (field k v fs) found = get_field key fs (if k == key then some v else found)

-- `_short_id`
unfoldable pub short_id : Container → Str
short_id c = take 12 c.id

module _ (loads : Str → Option Value) (show : Value → Str) where
  -- `if cid: ids.add(str(cid))`
  unfoldable pub id_if_true : Option Value → List Str
  id_if_true none = []
  id_if_true (some v) = if truth (some v) then to_str show v ∷ [] else []

  unfoldable pub ids_of : String → Option Value → Result (List Str)
  unfolding id_if_true
  ids_of key none = ok []
  ids_of key (some (object fs)) = ok (id_if_true (get_field key fs none))
  ids_of key (some null) = err attribute_error
  ids_of key (some v) = err attribute_error

  -- The session files' ids under a key: `_live_session_container_ids`, `_live_session_ids`. A file
  -- that cannot be read is `none`; it and one that is no JSON are skipped.
  unfoldable pub live_ids : String → List (Option Str) → Result (List Str)
  unfolding ids_of
  live_ids key [] = ok []
  live_ids key (none ∷ files) = live_ids key files
  live_ids key (some text ∷ files) = do
    ids ← ids_of key (loads text)
    more ← live_ids key files
    ok (ids ++ more)

add_containers : List Container → Dict Str Container → Dict Str Container
add_containers [] seen = seen
add_containers (c ∷ cs) seen = add_containers cs (insert c.id c seen)

-- A listing that fails is `none`.
add_listing : Option (List Container) → Dict Str Container → Dict Str Container
unfolding add_containers
add_listing none seen = seen
add_listing (some cs) seen = add_containers cs seen

unfoldable pub find_prehnite_containers :
    Option (List Container) → Option (List Container) → List Container
unfolding add_listing
find_prehnite_containers labelled descended =
    values (add_listing descended (add_listing labelled []))

unfoldable pub is_orphan : List Str → Container → Bool
is_orphan live c = not (contains live (short_id c)) && not (contains live c.id)

unfoldable pub is_orphan_image : List Str → Image → Bool
is_orphan_image live img = elim (lookup (lit "prehnite.session_id") img.labels) [
  | none ↦ true
  | some sid ↦ if sid == [] then true else not (contains live sid)
]

unfoldable pub find_orphan_snapshot_images : Option (List Image) → List Str → List Image
find_orphan_snapshot_images none live = []
find_orphan_snapshot_images (some images) live = filter (is_orphan_image live) images

-- The paths of distinct files, sorted.
unfoldable pub find_stale_logs : ℕ → List LogFile → List Str
find_stale_logs cutoff files =
    sorted_set (map (λ (f : LogFile). f.path) (filter (λ (f : LogFile). ltb f.mtime cutoff) files))

-- The removals asked for, in order.
pub record Reaped : Type 0 where
  pub containers : List Container
  pub images : List Image
  pub logs : List Str

module _ (loads : Str → Option Value) (show : Value → Str) where
  -- `_cmd_reap`, once the daemon is reached.
  unfoldable pub reap :
      Bool
      → List (Option Str)
      → Option (List Container)
      → Option (List Container)
      → Option (List Image)
      → ℕ
      → List LogFile
      → Result Reaped
  reap dry_run sessions labelled descended images cutoff logs = do
    live_sessions ← live_ids loads show "session_id" sessions
    live_containers ← live_ids loads show "container_id" sessions
    ok (
        if dry_run then record { containers = []; images = []; logs = [] } else record {
          containers =
              filter (is_orphan live_containers) (find_prehnite_containers labelled descended);
          images = find_orphan_snapshot_images images live_sessions;
          logs = find_stale_logs cutoff logs;
        })
