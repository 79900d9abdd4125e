-- ===== src/Cli.antt =====
-- taskrunner/cli/main.py: how the command line is read, `_csv_set` and `_target`, and the
-- specification that `submit` makes.
pub mod Parts
pub mod Commands
pub mod Operators
pub mod Starting
mod Tests
use Prim.Native.Char.{Char, code}
use Prim.Native.String.{◌++◌}
use distributed_task_runner.Base.{
  ℕ, String, Bool, true, false, ◌||◌, ◌&&◌, not, Option, none, some, List, [], ◌∷◌, map, select,
  eqb, leb, ltb, ◌==◌, if◌then◌else◌,
}
use distributed_task_runner.Base.Int.{ℤ, pos}
use distributed_task_runner.Base.Dict.{Dict}
use distributed_task_runner.Base.Text.{add}
use distributed_task_runner.Models.{Value, TaskKind, TaskSpec}

abbrev pub comma : ℕ
comma = 44

abbrev pub path_colon : ℕ
path_colon = 58

-- The characters that `str.strip()` takes away.
unfoldable pub is_space : ℕ → Bool
is_space c =
    leb 9 c && leb c 13
    || leb 28 c && leb c 32
    || eqb c 0x85
    || eqb c 0xa0
    || eqb c 0x1680
    || leb 0x2000 c && leb c 0x200a
    || eqb c 0x2028
    || eqb c 0x2029
    || eqb c 0x202f
    || eqb c 0x205f
    || eqb c 0x3000

-- `s.split(sep)` for a separator of one character.
unfoldable pub in_first : Char → List String → List String
in_first c [] = (String.◌∷◌ c "") ∷ []
in_first c (part ∷ parts) = String.◌∷◌ c part ∷ parts

unfoldable pub split : (sep : ℕ) → String → List String
unfolding in_first
split sep String.[] = "" ∷ []
split sep (String.◌∷◌ c s) =
    let parts = split sep s in if eqb (code c) sep then "" ∷ parts else in_first c parts

-- `s.strip()`: the front, then the end.
unfoldable pub lstrip : String → String
unfolding is_space
lstrip String.[] = ""
lstrip (String.◌∷◌ c s) = let rest = lstrip s in if is_space (code c) then rest else String.◌∷◌ c s

unfoldable pub is_blank : String → Bool
is_blank String.[] = true
is_blank (String.◌∷◌ c s) = false

unfoldable pub rstrip : String → String
unfolding is_space is_blank
rstrip String.[] = ""
rstrip (String.◌∷◌ c s) =
    let rest = rstrip s in if is_space (code c) && is_blank rest then "" else String.◌∷◌ c rest

unfoldable pub strip : String → String
unfolding lstrip rstrip
strip s = rstrip (lstrip s)

unfoldable pub kept_parts : List String → List String
unfolding strip is_blank add
kept_parts [] = []
kept_parts (part ∷ parts) =
    let rest = kept_parts parts in if is_blank (strip part) then rest else add (strip part) rest

unfoldable pub csv_set : String → List String
unfolding split kept_parts
csv_set value = kept_parts (split comma value)

unfoldable pub has_colon : String → Bool
has_colon String.[] = false
has_colon (String.◌∷◌ c s) = eqb (code c) path_colon || has_colon s

-- `exists` is `task_path.exists()`, and `text` is `str(task_path)`.
unfoldable pub target : (text function : String) (exists : Bool) → String
unfolding has_colon
target text function exists =
    if has_colon text && not exists then text else text ++ (":" ++ function)

-- The options of `submit`, of which `payload` is the JSON value once it has been read.
pub record SubmitOptions : Type 0 where
  pub task_path : String
  pub function : String
  pub payload : Dict Value
  pub kind : TaskKind
  pub queue : String
  pub priority : ℤ
  pub delay : ℤ
  pub retries : ℤ
  pub affinity : String

-- The `TaskSpec(…)` of `submit`; what the command does not set has the default of the class.
unfoldable pub submitted_spec : SubmitOptions → (exists : Bool) → TaskSpec
unfolding target csv_set
submitted_spec options exists = record {
  target = target options.task_path options.function exists;
  payload = options.payload;
  kind = options.kind;
  queue = options.queue;
  priority = options.priority;
  delay_seconds = options.delay;
  max_retries = options.retries;
  retry_backoff_seconds = pos 1500000;
  timeout_seconds = pos 60000000;
  affinity = csv_set options.affinity;
  depends_on = [];
  batch_key = none;
}
