-- ===== src/Loader.antt =====
-- tasks/loader.py. YAML and the validation of a task are parameters; a path that is no file has no
-- content. Messages keep their fixed text and the path.
pub mod Ascending
pub mod Discover
use prehnite.Prelude.{
  filter, ℕ, Bool, true, false, List, [], ◌∷◌, ◌++◌, Option, none, some, ◌==◌, nat_eq, list_eq,
  if◌then◌else◌,
}
use prehnite.Prelude.Dict.{Dict, lookup, insert, keys, values, has_key}
use prehnite.Text.{Str, lit, ends_with}
use prehnite.Text.Paths.{sorted_paths}
use prehnite.Schemas.{Fields, Task}
use prehnite.Errors.{Result, ok, err, ◌>>=◌, task_load_error}

-- What `yaml.safe_load` gives: an error, a mapping, or something else.
pub data Yaml : Type 0 where
  yaml_error : Str → Yaml
  mapping : Fields → Yaml
  other : Yaml

-- What stands under the root, by path with slashes between the parts; `none` is a directory.
abbrev pub Files : Type 0
Files = Dict Str (Option Str)

-- `_yaml_files`: what `rglob` finds by the ends of the names, directories too.
unfoldable pub yaml_files : Files → List Str
yaml_files files =
    filter (λ path. ends_with path (lit ".yaml")) (keys files)
    ++ filter (λ path. ends_with path (lit ".yml")) (keys files)

module _ (safe_load : Str → Yaml) (validate : Fields → Result Task) where
  from_validation : Str → Result Task → Result Task
  from_validation path (ok task) = ok task
  from_validation path (err e) = err (task_load_error (path ++ lit ": schema validation failed"))

  from_yaml : Str → Yaml → Result Task
  unfolding from_validation
  from_yaml path (yaml_error e) = err (task_load_error (path ++ lit ": invalid YAML: " ++ e))
  from_yaml path other =
      err (task_load_error (path ++ lit ": expected a YAML mapping at the top level"))
  from_yaml path (mapping raw) = from_validation path (validate raw)

  unfoldable pub load_task : Str → Option (Option Str) → Result Task
  unfolding from_yaml
  load_task path (some (some text)) = from_yaml path (safe_load text)
  load_task path (some none) = err (task_load_error (lit "task file not found: " ++ path))
  load_task path none = err (task_load_error (lit "task file not found: " ++ path))

  -- The body of the loop of `discover_tasks`.
  unfoldable pub add_task : Task → Dict Str Task → Result (Dict Str Task)
  add_task task tasks =
      if has_key task.id tasks
      then err (task_load_error (lit "duplicate task id " ++ task.id))
      else ok (insert task.id task tasks)

  unfoldable pub discover_from : Files → List Str → Dict Str Task → Result (List Task)
  discover_from files [] tasks = ok (values tasks)
  discover_from files (path ∷ paths) tasks = do
    task ← load_task path (lookup path files)
    tasks' ← add_task task tasks
    discover_from files paths tasks'

  -- `discover_tasks` over a directory that is there.
  unfoldable pub discover_tasks : Files → Result (List Task)
  discover_tasks files = discover_from files (sorted_paths (yaml_files files)) []
