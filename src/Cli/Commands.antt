-- ===== src/Cli/Commands.antt =====
-- taskrunner/cli/main.py: what the commands call and print. The network is a parameter: the stub of a
-- client at a target, and the answer of the HTTP interface at an address.
use Prim.Native.String.{◌++◌}
use distributed_task_runner.Base.{String, Bool, Option, none, some, List, [], ◌∷◌}
use distributed_task_runner.Base.Dict.{Dict}
use distributed_task_runner.Models.{Value, Fields, object, end, field, TaskSpec, TaskEnvelope}
use distributed_task_runner.Dicts.{task_dict}
use distributed_task_runner.Config.{Platform, Settings, grpc_target}
use distributed_task_runner.Client.{Stub, submit_request, retry_request, cancel_request}
use distributed_task_runner.Cli.{SubmitOptions, submitted_spec}

-- What `urlopen` gives: the text of a response, or a URLError.
pub data Fetched : Type 0 where
  body : String → Fetched
  url_error : String → Fetched

-- How a command ends: with what it prints, with a BadParameter, or with another exception.
pub data Command : Type 0 where
  prints : String → Command
  bad_parameter : String → Command
  fails : Command

-- The output of a command that prints more than once, and its end.
pub record Screen : Type 0 where
  pub lines : List String
  pub end : Command

-- `dumps` and `loads` are `json` on the messages; `shown` is `json.dumps(…, indent=2, default=str)`.
pub record Tools (S : Type 0) : Type 0 where
  pub dumps : Value → String
  pub loads : String → Option Value
  pub shown : Value → String
  pub stub_at : (target : String) → Stub S
  pub urlopen : (url : String) → S → Fetched × S

-- The keyword arguments that a payload gives. Another value than an object has no `items`, which the
-- message needs.
unfoldable pub items : Fields → Dict Value
items end = []
items (field key value rest) = (key, value) ∷ items rest

unfoldable pub payload_of : Option Value → Option (Dict Value)
unfolding items
payload_of (some (object fields)) = some (items fields)
payload_of _ = none

module _ {S : Type 0} (tools : Tools S) (platform : Platform) (settings : Settings) where
  -- `typer.echo` of the task that a call of the client gives.
  unfoldable pub echo_task : Option TaskEnvelope × S → Command × S
  unfolding task_dict
  echo_task (none, s) = (fails, s)
  echo_task (some task, s) = (prints (tools.shown (task_dict task)), s)

  -- The stub of `SchedulerClient(settings.grpc_target)`.
  unfoldable pub client : Stub S
  unfolding grpc_target
  client = tools.stub_at (grpc_target platform settings)

  unfoldable pub submit_payload :
      SubmitOptions → (exists : Bool) → Option (Dict Value) → S → Command × S
  unfolding submitted_spec submit_request echo_task client
  submit_payload options exists none s = (fails, s)
  submit_payload options exists (some payload) s =
      let spec : TaskSpec = submitted_spec (record options { payload = payload }) exists in
      echo_task (submit_request tools.dumps tools.loads client spec s)

  -- The payload of the options is read from its text.
  unfoldable pub submit_command :
      SubmitOptions → (payload : String) (exists : Bool) → S → Command × S
  unfolding submit_payload payload_of
  submit_command options payload exists s =
      submit_payload options exists (payload_of (tools.loads payload)) s

  unfoldable pub retry_command : (task_id : String) → S → Command × S
  unfolding retry_request echo_task client
  retry_command task_id s = echo_task (retry_request tools.dumps tools.loads client task_id s)

  unfoldable pub cancel_command : (task_id : String) → S → Command × S
  unfolding cancel_request echo_task client
  cancel_command task_id s = echo_task (cancel_request tools.dumps tools.loads client task_id s)

  unfoldable pub api_url : (path : String) → String
  api_url path =
      "http://" ++ (settings.api_host ++ (":" ++ (platform.shown settings.api_port ++ path)))

  -- `typer.echo` of what `_api_get` reads.
  unfoldable pub echo_value : (url : String) → Fetched → Command
  echo_value url (url_error reason) =
      bad_parameter ("cannot reach monitoring API at " ++ (url ++ (": " ++ reason)))
  echo_value url (body s) = elim (tools.loads s) [
    | none ↦ fails
    | some value ↦ prints (tools.shown value)
  ]

  unfoldable pub api_get : (path : String) → S → Command × S
  unfolding api_url echo_value
  api_get path s =
      let url = api_url path in
      let (answer, s') = tools.urlopen url s in (echo_value url answer, s')

  unfoldable pub workers_command : S → Command × S
  unfolding api_get
  workers_command s = api_get "/workers" s

  unfoldable pub queues_command : S → Command × S
  unfolding api_get
  queues_command s = api_get "/queues" s

  unfoldable pub logs_command : (entity_id : String) → S → Command × S
  unfolding api_get
  logs_command entity_id s = api_get ("/logs/" ++ entity_id) s

  -- A round of `monitor`, and those behind it; an exception ends it.
  abbrev pub and_rounds : Command → Screen → Screen
  and_rounds (prints line) more = record more { lines = line ∷ more.lines }
  and_rounds (bad_parameter why) more = record { lines = []; end = bad_parameter why }
  and_rounds fails more = record { lines = []; end = fails }

  -- Each round is the network as it stands then; behind them comes a KeyboardInterrupt.
  unfoldable pub monitor_command : (rounds : List S) → Screen
  unfolding api_get
  monitor_command [] = record { lines = []; end = prints "monitor stopped" }
  monitor_command (s ∷ rest) = and_rounds (api_get "/metrics" s).0 (monitor_command rest)
