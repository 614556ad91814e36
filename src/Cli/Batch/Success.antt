-- ===== src/Cli/Batch/Success.antt =====
-- A trajectory that tells of success, from its events.
use prehnite.Prelude.{
  string_eq, ◌++◌, ◌∙◌, ap, ◌⊎◌, ◌==◌, ◌≡◌, refl, true, List, [], ◌∷◌, Option, none, some, inl, inr,
  Bool-cases, nat_eq, list_eq, list_beq, list_beq_iff,
}
use prehnite.Prelude.Dict.{lookup}
use prehnite.Text.{Str, lit}
use prehnite.Errors.{Result, ok, err}
use prehnite.Schemas.{
  EventType, run_started, setup_command, agent_command, agent_thought, egress_attempt,
  session_forked, session_reverted, verify_command, run_finished, TrajectoryEvent, Value,
}
use prehnite.Trajectory.{Codec, read_trajectory}
use prehnite.Server.Branch.{to_str}
use prehnite.Cli.Batch.{
  last_result, last_event, finish_result, is_success, outcome_text, outcome_from_trajectory,
}

module _ (codec : Codec) (show : Value → Str) where
  -- The last event of a trajectory ends a run, and says "passed" or "skipped".
  pub record TellsSuccess (content : Str) : Type 0 where
    pub before : List TrajectoryEvent
    pub last : TrajectoryEvent
    pub said : Value
    pub readable : read_trajectory codec (some content) ≡ ok (before ++ (last ∷ []))
    pub ends_run : last.type ≡ run_finished
    pub result : lookup "result" last.payload ≡ some said
    pub success : (to_str show said ≡ lit "passed") ⊎ (to_str show said ≡ lit "skipped")

  last_event-append :
      (es : List TrajectoryEvent) (e : TrajectoryEvent)
      → last_event es ≡ some e
      → (before : List TrajectoryEvent) × (es ≡ before ++ (e ∷ []))
  unfolding last_event
  last_event-append [] e h = cc
  last_event-append (d ∷ []) e h = ([], cc)
  last_event-append (d ∷ f ∷ es) e h =
      let (before, q) = last_event-append (f ∷ es) e h in (d ∷ before, ap (λ t. d ∷ t) q)

  finish_result-run_finished :
      (t : EventType) (e : TrajectoryEvent) (v : Option Value)
      → finish_result t e ≡ some v
      → (t ≡ run_finished) × (lookup "result" e.payload ≡ v)
  unfolding finish_result
  finish_result-run_finished run_started e v h = cc
  finish_result-run_finished setup_command e v h = cc
  finish_result-run_finished agent_command e v h = cc
  finish_result-run_finished agent_thought e v h = cc
  finish_result-run_finished egress_attempt e v h = cc
  finish_result-run_finished session_forked e v h = cc
  finish_result-run_finished session_reverted e v h = cc
  finish_result-run_finished verify_command e v h = cc
  finish_result-run_finished run_finished e v h = (refl, cc)

  is_success-cases : (s : Str) → is_success s ≡ true → (s ≡ lit "passed") ⊎ (s ≡ lit "skipped")
  unfolding is_success
  is_success-cases s = elim (Bool-cases (s == lit "passed")) [
    | inl p ↦ λ h. inl ((list_beq_iff s (lit "passed")).0 p)
    | inr q ↦ rw q (λ h. inr ((list_beq_iff s (lit "skipped")).0 h))
  ]

  module _ (content : Str) (es : List TrajectoryEvent)
      (readable : read_trajectory codec (some content) ≡ ok es) where
    result-TellsSuccess :
        (e : TrajectoryEvent) (result : Option (Option Value))
        → last_event es ≡ some e
        → finish_result e.type e ≡ result
        → is_success (outcome_text show result) ≡ true
        → TellsSuccess content
    unfolding outcome_text is_success list_beq
    result-TellsSuccess e none l f h = cc
    result-TellsSuccess e (some none) l f h = cc
    result-TellsSuccess e (some (some v)) l f h =
        let (before, q) = last_event-append es e l in
        let (t, r) = finish_result-run_finished e.type e (some v) f in
        record {
          before = before;
          last = e;
          said = v;
          readable = readable ∙ ap ok q;
          ends_run = t;
          result = r;
          success = is_success-cases (to_str show v) h;
        }

    last_event-TellsSuccess :
        (last : Option TrajectoryEvent)
        → last_event es ≡ last
        → is_success (outcome_text show (last_result (ok es))) ≡ true
        → TellsSuccess content
    unfolding last_result
    last_event-TellsSuccess none l =
        rw (l, last_result) (unfold outcome_text is_success list_beq in (λ h. cc))
    last_event-TellsSuccess (some e) l = rw (l, last_result) (λ h. result-TellsSuccess e _ l refl h)

  read-TellsSuccess :
      (content : Str) (r : Result (List TrajectoryEvent))
      → read_trajectory codec (some content) ≡ r
      → is_success (outcome_text show (last_result r)) ≡ true
      → TellsSuccess content
  read-TellsSuccess content (err e) q h = unfold last_result outcome_text is_success list_beq in cc
  read-TellsSuccess content (ok es) q h = last_event-TellsSuccess content es q _ refl h

  pub outcome-TellsSuccess :
      (content : Str)
      → is_success (outcome_from_trajectory codec show content) ≡ true
      → TellsSuccess content
  unfolding outcome_from_trajectory
  outcome-TellsSuccess content h = read-TellsSuccess content _ refl h
