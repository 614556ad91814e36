-- ===== src/Runner/Phases.antt =====
-- The life of a session as its events tell it: an automaton that reads a trajectory.
use prehnite.Prelude.{
  ℕ, ◌≤◌, ◌≡◌, refl, ◌∙◌, Bool, true, false, List, [], ◌∷◌, ◌++◌, Option, arith, ◌==◌, nat_eq,
  string_eq,
}
use prehnite.Prelude.Dict.{lookup}
use prehnite.Schemas.{
  Value, EventType, run_started, setup_command, agent_command, agent_thought, egress_attempt,
  session_forked, session_reverted, verify_command, run_finished, TrajectoryEvent, Payload,
}

pub data Phase : Type 0 where
  fresh setting_up in_agent verifying finished broken : Phase

-- The setup commands come after the start, then the agent's events, then the verify commands; after
-- the end there is nothing. Egress attempts may come at any time.
unfoldable pub step : EventType → Phase → Phase
step egress_attempt p = p
step run_started fresh = setting_up
step run_started p = broken
step setup_command setting_up = setting_up
step setup_command p = broken
step agent_command setting_up = in_agent
step agent_command in_agent = in_agent
step agent_command p = broken
step agent_thought setting_up = in_agent
step agent_thought in_agent = in_agent
step agent_thought p = broken
step session_forked setting_up = in_agent
step session_forked in_agent = in_agent
step session_forked p = broken
step session_reverted setting_up = in_agent
step session_reverted in_agent = in_agent
step session_reverted p = broken
step verify_command setting_up = verifying
step verify_command in_agent = verifying
step verify_command verifying = verifying
step verify_command p = broken
step run_finished finished = broken
step run_finished broken = broken
step run_finished p = finished

unfoldable pub phase_from : Phase → List TrajectoryEvent → Phase
phase_from p [] = p
phase_from p (e ∷ es) = phase_from (step e.type p) es

noted : EventType → Payload → Option Value → Option Value
noted run_finished payload v = lookup "result" payload
noted _ payload v = v

-- The result that the last run_finished event tells.
unfoldable pub result_from : Option Value → List TrajectoryEvent → Option Value
unfolding noted
result_from v [] = v
result_from v (e ∷ es) = result_from (noted e.type e.payload v) es

pub phase_from-append :
    (p : Phase) (es : List TrajectoryEvent) (e : TrajectoryEvent)
    → phase_from p (es ++ e ∷ []) ≡ step e.type (phase_from p es)
unfolding phase_from
phase_from-append p [] e = refl
phase_from-append p (f ∷ es) e = phase_from-append (step f.type p) es e

result_from-append :
    (v : Option Value) (es : List TrajectoryEvent) (e : TrajectoryEvent)
    → result_from v (es ++ e ∷ []) ≡ noted e.type e.payload (result_from v es)
unfolding result_from
result_from-append v [] e = refl
result_from-append v (f ∷ es) e = result_from-append (noted f.type f.payload v) es e

noted_finish :
    (t : EventType) (payload : Payload) (v : Option Value)
    → t ≡ run_finished
    → noted t payload v ≡ lookup "result" payload
unfolding noted
noted_finish t payload v e = rw e refl

pub result_from-finish :
    (v : Option Value) (es : List TrajectoryEvent) (e : TrajectoryEvent)
    → e.type ≡ run_finished
    → result_from v (es ++ e ∷ []) ≡ lookup "result" e.payload
result_from-finish v es e h =
    result_from-append v es e ∙ noted_finish e.type e.payload (result_from v es) h

noted_egress :
    (t : EventType) (payload : Payload) (v : Option Value)
    → t ≡ egress_attempt
    → noted t payload v ≡ v
unfolding noted
noted_egress t payload v e = rw e refl

pub result_from-egress :
    (v : Option Value) (es : List TrajectoryEvent) (e : TrajectoryEvent)
    → e.type ≡ egress_attempt
    → result_from v (es ++ e ∷ []) ≡ result_from v es
result_from-egress v es e h =
    result_from-append v es e ∙ noted_egress e.type e.payload (result_from v es) h

abbrev pub rank : Phase → ℕ
rank fresh = 0
rank setting_up = 1
rank in_agent = 2
rank verifying = 3
rank finished = 4
rank broken = 5

-- The types of event that a phase up to this rank takes.
abbrev pub taken : ℕ → EventType → Bool
taken k egress_attempt = true
taken k setup_command = k == 1
taken k agent_command = k == 2
taken k agent_thought = k == 2
taken k session_forked = k == 2
taken k session_reverted = k == 2
taken k verify_command = k == 3
taken k _ = false

abbrev pub IsWithin : ℕ → ℕ → Phase → Type 0
IsWithin lo hi p = (lo ≤ rank p) × (rank p ≤ hi)

pub step-IsWithin :
    (k : ℕ) (t : EventType) (p : Phase)
    → taken k t ≡ true
    → IsWithin 1 k p
    → IsWithin 1 k (step t p)
unfolding step
step-IsWithin k egress_attempt p e h = h
step-IsWithin k setup_command fresh e h = ground (arith, e, h)
step-IsWithin k setup_command setting_up e h = ground (arith, e, h)
step-IsWithin k setup_command in_agent e h = ground (arith, e, h)
step-IsWithin k setup_command verifying e h = ground (arith, e, h)
step-IsWithin k setup_command finished e h = ground (arith, e, h)
step-IsWithin k setup_command broken e h = ground (arith, e, h)
step-IsWithin k agent_command fresh e h = ground (arith, e, h)
step-IsWithin k agent_command setting_up e h = ground (arith, e, h)
step-IsWithin k agent_command in_agent e h = ground (arith, e, h)
step-IsWithin k agent_command verifying e h = ground (arith, e, h)
step-IsWithin k agent_command finished e h = ground (arith, e, h)
step-IsWithin k agent_command broken e h = ground (arith, e, h)
step-IsWithin k verify_command fresh e h = ground (arith, e, h)
step-IsWithin k verify_command setting_up e h = ground (arith, e, h)
step-IsWithin k verify_command in_agent e h = ground (arith, e, h)
step-IsWithin k verify_command verifying e h = ground (arith, e, h)
step-IsWithin k verify_command finished e h = ground (arith, e, h)
step-IsWithin k verify_command broken e h = ground (arith, e, h)
step-IsWithin k run_started p e h = cc
step-IsWithin k agent_thought fresh e h = ground (arith, e, h)
step-IsWithin k agent_thought setting_up e h = ground (arith, e, h)
step-IsWithin k agent_thought in_agent e h = ground (arith, e, h)
step-IsWithin k agent_thought verifying e h = ground (arith, e, h)
step-IsWithin k agent_thought finished e h = ground (arith, e, h)
step-IsWithin k agent_thought broken e h = ground (arith, e, h)
step-IsWithin k session_forked fresh e h = ground (arith, e, h)
step-IsWithin k session_forked setting_up e h = ground (arith, e, h)
step-IsWithin k session_forked in_agent e h = ground (arith, e, h)
step-IsWithin k session_forked verifying e h = ground (arith, e, h)
step-IsWithin k session_forked finished e h = ground (arith, e, h)
step-IsWithin k session_forked broken e h = ground (arith, e, h)
step-IsWithin k session_reverted fresh e h = ground (arith, e, h)
step-IsWithin k session_reverted setting_up e h = ground (arith, e, h)
step-IsWithin k session_reverted in_agent e h = ground (arith, e, h)
step-IsWithin k session_reverted verifying e h = ground (arith, e, h)
step-IsWithin k session_reverted finished e h = ground (arith, e, h)
step-IsWithin k session_reverted broken e h = ground (arith, e, h)
step-IsWithin k run_finished p e h = cc

pub step_start-fresh : (p : Phase) → IsWithin 0 0 p → step run_started p ≡ setting_up
unfolding step
step_start-fresh fresh h = refl
step_start-fresh setting_up h = absurd (omega arith)
step_start-fresh in_agent h = absurd (omega arith)
step_start-fresh verifying h = absurd (omega arith)
step_start-fresh finished h = absurd (omega arith)
step_start-fresh broken h = absurd (omega arith)

pub step_finish : (p : Phase) → IsWithin 0 3 p → step run_finished p ≡ finished
unfolding step
step_finish fresh h = refl
step_finish setting_up h = refl
step_finish in_agent h = refl
step_finish verifying h = refl
step_finish finished h = absurd (omega arith)
step_finish broken h = absurd (omega arith)

pub taken-egress : (t : EventType) → taken 0 t ≡ true → t ≡ egress_attempt
taken-egress egress_attempt h = refl
taken-egress run_started h = cc
taken-egress setup_command h = cc
taken-egress agent_command h = cc
taken-egress agent_thought h = cc
taken-egress session_forked h = cc
taken-egress session_reverted h = cc
taken-egress verify_command h = cc
taken-egress run_finished h = cc

pub IsWithin-weaken :
    (lo hi lo' hi' : ℕ) (p : Phase) → lo' ≤ lo → hi ≤ hi' → IsWithin lo hi p → IsWithin lo' hi' p
IsWithin-weaken lo hi lo' hi' p l h (a, b) = (omega arith, omega arith)
