-- ===== src/Schemas.antt =====
-- schemas.py: the values, the events and the tasks that cross the program's modules.
-- `data: dict[str, object]` holds JSON values; its keys are literals of the source.
use prehnite.Prelude.{ℕ, String, Bool, List, Option}
use prehnite.Prelude.Int.{ℤ}
use prehnite.Prelude.Dict.{Dict}
use prehnite.Text.{Str}

mutual
  pub data Value : Type 0 where
    null : Value
    bool : Bool → Value
    int : ℤ → Value
    str : Str → Value
    array : Items → Value
    object : Fields → Value

  pub data Items : Type 0 where
    no_items : Items
    item : (first : Value) (rest : Items) → Items

  pub data Fields : Type 0 where
    no_fields : Fields
    field : (key : String) (first : Value) (rest : Fields) → Fields

abbrev pub Payload : Type 0
Payload = Dict String Value

pub data EventType : Type 0 where
  run_started setup_command agent_command agent_thought egress_attempt session_forked : EventType
  session_reverted verify_command run_finished : EventType

pub EventType-discrete : Discrete EventType
EventType-discrete = hlevel

pub record TrajectoryEvent : Type 0 where
  pub seq : ℕ
  pub ts : Str
  pub type : EventType
  pub payload : Payload

pub data NetworkMode : Type 0 where
  none restricted full : NetworkMode

pub record NetworkSpec : Type 0 where
  pub mode : NetworkMode
  pub extra_allow : List Str

pub record Task : Type 0 where
  pub id : Str
  pub description : Str
  pub image : Str
  pub network : NetworkSpec
  pub timeout_seconds : ℕ
  pub exec_timeout_seconds : ℕ
  pub workdir : Str
  pub setup : List Str
  pub verify : List Str
  pub tags : List Str
  pub difficulty : Option Str

pub data RunStatus : Type 0 where
  passed failed error : RunStatus

pub record CommandResult : Type 0 where
  pub cmd : Str
  pub exit_code : ℤ
  pub stdout : Str
  pub stderr : Str
  pub duration_ms : ℕ
