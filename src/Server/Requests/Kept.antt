-- ===== src/Server/Requests/Kept.antt =====
-- The server between two requests.
use mathlib.Core.Path.{subst}
use prehnite.Runner.Sealed.{any_type}
use prehnite.Prelude.{
  ◌≡◌, refl, sym, ap, Bool, true, false, Option, none, some, ◌==◌, nat_eq, list_eq, if◌then◌else◌,
  ℕ,
}
use prehnite.Prelude.Dict.{Dict, lookup, insert, erase, has_key, lookup-insert, lookup-erase}
use prehnite.Text.{Str, lit}
use prehnite.Errors.{Result, ok, err}
use prehnite.Schemas.{EventType, egress_attempt, run_finished, error}
use prehnite.Trajectory.Sessions.Written.{IsOpen}
use prehnite.Session.{Host, World, bound, ◌>>◌, finish_payload}
use prehnite.Runner.Kept.{IsStable}
use prehnite.Runner.Writes.{write_event-IsOpen, write_event-ok}
use prehnite.Server.Tools.{finish_action, abort_action, stop_session, close_writer}
use prehnite.Server.Tools.Calls.{
  exec_action-Keeps, note_action-Keeps, fork_action-Keeps, revert_action-Keeps,
}
use prehnite.Server.Registry.{
  Session, Server, Json, persist_session, delete_session_file, enter, leave, put_session,
  keep_session,
}
use prehnite.Server.Requests.{
  exec_session, note_session, fork_session, persist_reverted, revert_session, pop_session,
  finish_session, delete_aborted, abort_session,
}
use prehnite.Server.Requests.Paired.{IsPaired, insert-IsPaired, keep-IsPaired, erase-IsPaired}

abbrev is_some : Option Session → Bool
is_some none = false
is_some (some sess) = true

abbrev pub HasOpen : Option Session → Type 0
HasOpen none = Unit
HasOpen (some sess) = IsOpen sess.writer

-- Each session has its descriptor on disk and nothing else has one; each session's writer is open.
abbrev pub IsServing : Server → Type 0
IsServing srv =
    IsPaired srv.sessions srv.descriptors × ((sid : Str) → HasOpen (lookup sid srv.sessions))

if-HasOpen :
    (b : Bool) (o p : Option Session) → HasOpen o → HasOpen p → HasOpen (if b then o else p)
if-HasOpen true o p h k = h
if-HasOpen false o p h k = k

pub insert-HasOpen :
    (k : Str) (sess : Session) (s : Dict Str Session)
    → ((j : Str) → HasOpen (lookup j s))
    → IsOpen sess.writer
    → (j : Str) → HasOpen (lookup j (insert k sess s))
insert-HasOpen k sess s a o j =
    subst HasOpen (sym (lookup-insert k j sess s)) (if-HasOpen (k == j) _ _ o (a j))

erase-HasOpen :
    (k : Str) (s : Dict Str Session)
    → ((j : Str) → HasOpen (lookup j s))
    → (j : Str) → HasOpen (lookup j (erase k s))
erase-HasOpen k s a j = subst HasOpen (sym (lookup-erase k j s)) (if-HasOpen (k == j) _ _ tt (a j))

abbrev pub OpenWorld : World → Type 0
OpenWorld w = IsOpen w.run.writer

pub OpenWorld-IsStable :
    (host : Host) (types : EventType → Bool)
    → types egress_attempt ≡ true
    → IsStable host types OpenWorld
OpenWorld-IsStable host types e = record {
  hears = e;
  on_write = λ type payload w t h. write_event-IsOpen host type payload w h;
  on_start = λ w h. h;
  on_exec = λ cmd w h. h;
}

-- A step of a session that is there: only its object changes.
keep_session-IsServing :
    (sid : Str) (sess : Session) (n : ℕ) (w : World) (srv : Server)
    → IsServing srv
    → has_key sid srv.sessions ≡ true
    → OpenWorld w
    → IsServing (keep_session sid sess n w srv)
unfolding keep_session put_session
keep_session-IsServing sid sess n w srv (p, a) h o =
    (keep-IsPaired srv.sessions srv.descriptors p sid _ h, insert-HasOpen sid _ srv.sessions a o)

module _ (host : Host) (json : Json) where
  stable : IsStable host any_type OpenWorld
  stable = OpenWorld-IsStable host any_type refl

  pub exec_session-IsServing :
      (sid cmd : Str) (found : Option Session) (srv : Server)
      → IsServing srv
      → lookup sid srv.sessions ≡ found
      → IsServing (exec_session host json sid cmd found srv).1
  unfolding exec_session
  exec_session-IsServing sid cmd none srv h e = h
  exec_session-IsServing sid cmd (some sess) srv h e =
      keep_session-IsServing sid sess _ _ srv h (ap is_some e) (
        exec_action-Keeps host any_type OpenWorld stable cmd refl (enter sess srv)
          (subst HasOpen e (h.1 sid)))

  pub note_session-IsServing :
      (sid thought : Str) (found : Option Session) (srv : Server)
      → IsServing srv
      → lookup sid srv.sessions ≡ found
      → IsServing (note_session host json sid thought found srv).1
  unfolding note_session
  note_session-IsServing sid thought none srv h e = h
  note_session-IsServing sid thought (some sess) srv h e =
      keep_session-IsServing sid sess _ _ srv h (ap is_some e) (
        note_action-Keeps host any_type OpenWorld stable thought refl (enter sess srv)
          (subst HasOpen e (h.1 sid)))

  pub fork_session-IsServing :
      (sid snap_id : Str) (found : Option Session) (srv : Server)
      → IsServing srv
      → lookup sid srv.sessions ≡ found
      → IsServing (fork_session host json sid snap_id found srv).1
  unfolding fork_session
  fork_session-IsServing sid snap_id none srv h e = h
  fork_session-IsServing sid snap_id (some sess) srv h e =
      keep_session-IsServing sid sess _ _ srv h (ap is_some e) (
        fork_action-Keeps host any_type OpenWorld stable (λ sb log w h. h) sid snap_id refl
          (enter sess srv) (subst HasOpen e (h.1 sid)))

  persist_reverted-IsServing :
      {A : Type 0} (r : Result A) (sid : Str) (sess : Session) (n : ℕ) (w : World) (now : Str)
      (srv : Server)
      → IsServing srv
      → has_key sid srv.sessions ≡ true
      → OpenWorld w
      → IsServing (persist_reverted host json r sid sess w now (keep_session sid sess n w srv))
  unfolding persist_reverted persist_session keep_session put_session
  persist_reverted-IsServing (err e) sid sess n w now srv h k o =
      unfold keep_session put_session in keep_session-IsServing sid sess n w srv h k o
  persist_reverted-IsServing (ok a) sid sess n w now srv h k o = (
    insert-IsPaired srv.sessions srv.descriptors h.0 sid _ _,
    insert-HasOpen sid _ srv.sessions h.1 o,
  )

  pub revert_session-IsServing :
      (sid snapshot_id now : Str) (found : Option Session) (srv : Server)
      → IsServing srv
      → lookup sid srv.sessions ≡ found
      → IsServing (revert_session host json sid snapshot_id now found srv).1
  unfolding revert_session
  revert_session-IsServing sid snapshot_id now none srv h e = h
  revert_session-IsServing sid snapshot_id now (some sess) srv h e =
      persist_reverted-IsServing _ sid sess _ _ now srv h (ap is_some e) (
        revert_action-Keeps host any_type OpenWorld stable (λ sb log w h. h) snapshot_id refl
          (enter sess srv) (subst HasOpen e (h.1 sid)))

  erased-IsServing :
      (sid : Str) (w : World) (path : Str) (srv : Server)
      → IsServing srv
      → IsServing (delete_session_file sid (leave path w (pop_session sid srv)))
  unfolding delete_session_file pop_session
  erased-IsServing sid w path srv (p, a) =
      (erase-IsPaired srv.sessions srv.descriptors p sid, erase-HasOpen sid srv.sessions a)

  pub finish_session-IsServing :
      (sid : Str) (found : Option Session) (srv : Server)
      → IsServing srv
      → IsServing (finish_session host json sid found srv).1
  unfolding finish_session
  finish_session-IsServing sid none srv h = h
  finish_session-IsServing sid (some sess) srv h =
      erased-IsServing sid
        (finish_action host sess.task sess.trajectory_path sess.agent_command_count
          (enter sess srv)).1
        sess.trajectory_path srv h

  -- `abort_task` does not raise while the writer is open.
  aborted_ok :
      {A : Type 0} (o : Result A × World) (a : A)
      → o.0 ≡ ok a
      → (bound (λ b. stop_session host >> close_writer) o).0 ≡ ok tt
  unfolding stop_session close_writer
  aborted_ok (ok b, w) a e = refl
  aborted_ok (err x, w) a e = cc

  abort_action-ok : (w : World) → OpenWorld w → (abort_action host w).0 ≡ ok tt
  unfolding abort_action
  abort_action-ok w o =
      let (x, q) =
        write_event-ok host run_finished (finish_payload error (lit "aborted by agent")) w o in
      aborted_ok _ x q

  delete_aborted-ok :
      {A : Type 0} (r : Result A) (a : A) (sid : Str) (srv : Server)
      → r ≡ ok a
      → delete_aborted r sid srv ≡ delete_session_file sid srv
  unfolding delete_aborted
  delete_aborted-ok (ok b) a sid srv e = refl
  delete_aborted-ok (err x) a sid srv e = cc

  pub abort_session-IsServing :
      (sid : Str) (found : Option Session) (srv : Server)
      → IsServing srv
      → lookup sid srv.sessions ≡ found
      → IsServing (abort_session host json sid found srv).1
  unfolding abort_session
  abort_session-IsServing sid none srv h e = h
  abort_session-IsServing sid (some sess) srv h e =
      let r = abort_action-ok (enter sess srv) (subst HasOpen e (h.1 sid)) in
      rw (delete_aborted-ok _ tt sid _ r)
        (erased-IsServing sid (abort_action host (enter sess srv)).1 sess.trajectory_path srv h)
