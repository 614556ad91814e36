-- ===== src/Tests/LoaderTests.antt =====
-- Three task files, whose text is the task's id, and a file of another kind.
use prehnite.Prelude.{List, filter, ◌≡◌, refl, [], ◌∷◌, none, some, list_beq, list_eq, nat_eq}
use prehnite.Prelude.Dict.{keys, lookup, insert, values}
use prehnite.Text.{Str, lit, str_ltb, ends_with}
use prehnite.Text.Paths.{sorted_paths, insert_path, path_ltb, path_parts, parts_ltb}
use prehnite.Schemas.{NetworkMode, str, Fields, no_fields, field, Task}
use prehnite.Errors.{Result, ok, err, validation_error}
use prehnite.Loader.Ascending.{AreAscending}
use prehnite.Loader.{
  Yaml, mapping, Files, load_task, add_task, discover_from, yaml_files, discover_tasks,
}
use prehnite.Loader.Discover.{ArePathsOf, Loads, HaveDistinctIds, discover_tasks-Loads}

abbrev safe_load : Str → Yaml
safe_load text = mapping (field "id" (str text) no_fields)

abbrev task_of : Str → Task
task_of name = record {
  id = name;
  description = [];
  image = lit "base";
  network = record { mode = NetworkMode.none; extra_allow = [] };
  timeout_seconds = 600;
  exec_timeout_seconds = 60;
  workdir = lit "/workspace";
  setup = [];
  verify = [];
  tags = [];
  difficulty = none;
}

abbrev validate : Fields → Result Task
validate (field k (str s) fs) = ok (task_of s)
validate _ = err validation_error

abbrev files : Files
files =
    (lit "fix.yaml", some (lit "third"))
    ∷ (lit "notes.txt", some (lit "no task"))
    ∷ (lit "fix-2/b.yml", some (lit "second"))
    ∷ (lit "fix/a.yaml", some (lit "first"))
    ∷ []

discovered :
    discover_tasks safe_load validate files
    ≡ ok (task_of (lit "first") ∷ task_of (lit "second") ∷ task_of (lit "third") ∷ [])
unfolding discover_tasks discover_from load_task add_task yaml_files filter ends_with sorted_paths
    insert_path path_ltb path_parts parts_ltb str_ltb keys lookup insert values list_beq
discovered = refl

discover_tasks-Loads_example :
    (paths : List Str) × (AreAscending paths)
    × (ArePathsOf files paths)
    × (Loads safe_load validate files paths
        (task_of (lit "first") ∷ task_of (lit "second") ∷ task_of (lit "third") ∷ []))
    × HaveDistinctIds (task_of (lit "first") ∷ task_of (lit "second") ∷ task_of (lit "third") ∷ [])
discover_tasks-Loads_example = discover_tasks-Loads safe_load validate files _ discovered
