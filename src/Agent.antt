-- ===== src/Agent.antt =====
-- What the program takes from the packages ollie/pkg/agent and ollie/pkg/backend, which are not
-- part of this repository: the interface agent.Core, its events and its generation parameters.
-- A core is a value that each call may read and change. Nothing is assumed of it here.
use ollie_9p.Prelude.{Bytes, Bool, Option, List}
use ollie_9p.Prelude.Int.{ℤ}
use ollie_9p.Prelude.Outcome.{Act}

-- agent.Event
pub record Event : Type 0 where
  pub role : Bytes
  pub name : Bytes
  pub content : Bytes

-- backend.GenerationParams over a type of floats; a nil pointer is `none`.
pub record GenerationParams (Float : Type 0) : Type 0 where
  pub max_tokens : ℤ
  pub temperature : Option Float
  pub frequency_penalty : Option Float
  pub presence_penalty : Option Float

-- Go's float64 with strconv.ParseFloat (`none` is its error) and the verb `%g`.
pub record Floats : Type 1 where
  pub Float : Type 0
  pub parse_float : Bytes → Option Float
  pub format_float : Float → Bytes

pub record AgentCore : Type 1 where
  pub floats : Floats
  -- The state behind the interface value.
  pub K : Type 0
  -- A message of the history, and the line that the JSON encoder writes for it.
  pub Message : Type 0
  pub encode_json : Message → Bytes
  pub state : K → Bytes
  pub cwd : K → Bytes
  pub backend_name : K → Bytes
  pub model_name : K → Bytes
  pub agent_name : K → Bytes
  pub usage : K → Bytes
  pub cost : K → Bytes
  pub ctx_sz : K → Bytes
  pub list_models : K → Bytes
  pub system_prompt : K → Bytes
  pub context : K → List Message
  pub is_running : K → Bool
  pub generation_params : K → GenerationParams floats.Float
  pub interrupt : K → K
  pub close : K → K
  -- Submit publishes events one by one and returns when the turn is over.
  pub submit : Bytes → K → List Event × K
  pub queue : Bytes → K → K
  pub pop_queue : K → Option Bytes × K
  pub set_cwd : Bytes → Act K (Unit {0})
  pub set_session_id : Bytes → Act K (Unit {0})
  pub set_generation_params : GenerationParams floats.Float → Act K (Unit {0})
  -- WaitChange on the state: the new value, or `none` where the context ends first. Other
  -- goroutines may have changed the core meanwhile.
  pub wait_change : Bytes → K → Option Bytes × K
