-- ===== src/Docker/Requests.antt =====
-- Requests to Docker, replies of the proxy, and handlers as trees: each request to Docker stands with
-- what the handler does on each outcome.
use remote_ops_mcp.Prelude.{ℕ, String, Bool, Option, none, some, List}
use remote_ops_mcp.Docker.Json.{Json}

-- The body of POST /containers/REF/exec: `User` and `Env` where they are given, and `Cmd`.
pub record ExecSpec : Type 0 where
  pub user : Option String
  pub env : Option (List String)
  pub cmd : List String

-- The body of POST /containers/create: the host address is 127.0.0.1, no restart, not privileged.
pub record Candidate : Type 0 where
  pub image : String
  pub network : String
  pub host_port : ℕ
  pub container_port : ℕ

-- A number as JavaScript reads it from a text; `between n` is a fraction above n and below n + 1.
pub data Number : Type 0 where
  natural between : ℕ → Number
  negative infinite not_a_number : Number

pub record ListQuery : Type 0 where
  pub all : Bool
  pub limit : Option Number
  pub size : Option Bool

pub record LogQuery : Type 0 where
  pub stdout : Bool
  pub stderr : Bool
  pub timestamps : Bool
  pub tail : Number
  pub since : Option String
  pub until : Option String

-- One constructor for each method and path that the proxy sends to the socket.
pub data Request : Type 0 where
  list_all ping version : Request
  list_containers : ListQuery → Request
  inspect_container : String → Request
  read_logs : String → LogQuery → Request
  create_exec : String → ExecSpec → Request
  start_exec : String → Request
  inspect_exec : String → Request
  change_container : String → String → Request
  create_container : String → Candidate → Request
  start_container : String → Request
  remove_container : String → Request
  load_image : String → Request

pub record Answer : Type 0 where
  pub status : ℕ
  pub content_type : Option String
  pub body : List ℕ

-- What `dockerRequest` resolves or is rejected with.
pub data Outcome : Type 0 where
  answered : Answer → Outcome
  rejected : String → Outcome

pub record Output : Type 0 where
  pub stdout : String
  pub stderr : String

-- What the proxy sends back: an error code, the body of an answer with its content type, or the
-- fields of its own JSON text.
pub data Reply : Type 0 where
  problem : ℕ → String → Reply
  relay : ℕ → List ℕ → String → Reply
  relay_text : ℕ → String → String → Reply
  health : Reply
  image_loaded : String → List ℕ → Reply
  candidate_started : String → String → Candidate → Reply
  candidate_absent candidate_removed : String → Reply
  executed : Json → Output → Reply
  read_back : String → String → Json → Output → Reply
  action_done : String → String → Reply
  listing : List Json → Reply

pub data Script : Type 0 where
  reply : Reply → Script
  -- an exception
  throws : String → Script
  ask : Request → (Outcome → Script) → Script

abbrev pub on_answer : (Answer → Script) → Outcome → Script
on_answer next (answered a) = next a
on_answer next (rejected e) = throws e

-- await dockerRequest(...)
abbrev pub await : Request → (Answer → Script) → Script
await r next = ask r (on_answer next)

-- The two ways on from an optional value.
abbrev pub with_some : {A : Type 0} → Option A → Script → (A → Script) → Script
with_some none otherwise next = otherwise
with_some (some value) otherwise next = next value

-- A call of the proxy; `size` is the length of its body, `json` what JSON.parse makes of the body, an
-- empty one read as "{}" (`none`: it throws).
pub record Call : Type 0 where
  pub method : String
  pub pathname : String
  pub search : String
  pub params : List (String × String)
  pub size : ℕ
  pub json : Option Json
