-- ===== src/Tests/ReapTests.antt =====
-- Two containers, one of which a session file names.
use prehnite.Prelude.{
  ◌≡◌, refl, false, List, [], ◌∷◌, ◌++◌, Option, none, some, list_beq, string_eq, filter, contains,
}
use prehnite.Prelude.Dict.{lookup, insert, values}
use prehnite.Text.{Str, lit}
use prehnite.Text.Order.{sorted_set, insert_sorted}
use prehnite.Schemas.{Value, str, object, no_fields, field}
use prehnite.Errors.{ok}
use prehnite.Server.Branch.{to_str}
use prehnite.Cli.Summary.{truth}
use prehnite.Cli.Reap.{
  Container, Image, LogFile, Reaped, reap, get_field, live_ids, ids_of, id_if_true, is_orphan,
  is_orphan_image, short_id, find_prehnite_containers, find_orphan_snapshot_images, find_stale_logs,
}
use prehnite.Cli.Reap.Live.{Spares, reap-Spares}

-- One descriptor; any other text is no JSON.
abbrev loads : Str → Option Value
loads [] = none
loads (c ∷ s) =
    some (
      object
        (field "session_id" (str (lit "s1")) (field "container_id" (str (lit "c1")) no_fields)))

abbrev show : Value → Str
show v = []

abbrev mine : Image
mine = record { id = lit "i1"; labels = (lit "prehnite.session_id", lit "s1") ∷ [] }

abbrev other : Image
other = record { id = lit "i2"; labels = [] }

abbrev containers : List Container
containers = (record { id = lit "c1" }) ∷ (record { id = lit "c2" }) ∷ []

abbrev log : LogFile
log = record { path = lit "a.log"; mtime = 5 }

abbrev reaped : Reaped
reaped = record {
  containers = (record { id = lit "c2" }) ∷ [];
  images = other ∷ [];
  logs = lit "a.log" ∷ [];
}

reaped_lem :
    reap loads show false
      ([] ++ (some (lit "d") ∷ (none ∷ [])))
      (some containers)
      none
      (some (mine ∷ other ∷ []))
      9
      (log ∷ [])
    ≡ ok reaped
unfolding reap live_ids ids_of id_if_true get_field truth to_str is_orphan is_orphan_image short_id
    find_prehnite_containers find_orphan_snapshot_images find_stale_logs filter contains lookup
    insert values sorted_set insert_sorted list_beq
reaped_lem = refl

reap-Spares_example : Spares (lit "c1") (lit "s1") reaped
reap-Spares_example =
    reap-Spares loads show false [] (none ∷ []) (lit "d") (lit "c1") (lit "s1") (some containers)
      none (some (mine ∷ other ∷ [])) 9 (log ∷ []) reaped
      (_, refl, unfold get_field in refl, unfold list_beq in refl)
      (_, refl, unfold get_field in refl, unfold list_beq in refl) reaped_lem
