-- ===== src/Codec.antt =====
-- taskrunner/grpc/codec.py: the messages, and what the functions for each of the four share. A
-- message has the fields that taskrunner/grpc/protos/taskrunner.proto declares, with the defaults
-- of proto3; the entries of a map field keep their order. `none` is a ValueError.
pub mod Specs
pub mod Records
pub mod Trip
pub mod Results
pub mod Tasks
mod Tests
use distributed_task_runner.Base.{
  ◌^◌, String, Bool, true, false, ◌&&◌, Option, none, some, List, [], ◌∷◌, ◌==◌, if◌then◌else◌,
}
use distributed_task_runner.Base.Int.{ℤ, pos, negsuc, ltb_ℤ, leb_ℤ, eqb_ℤ}
use distributed_task_runner.Base.Text.{str_leb, add}
use distributed_task_runner.Models.{
  TaskKind, cpu, io, async, scheduled, TaskStatus, pending, queued, running, acked, succeeded,
  failed, retrying, cancelled, dead_lettered, status_text, WorkerStatus, starting, idle, busy,
  draining, offline,
}

-- A value of an int32 field.
unfoldable pub fits : ℤ → Bool
fits n = leb_ℤ (negsuc 2147483647) n && ltb_ℤ n (pos 2147483648)

-- `sorted(…)` on a set of texts.
unfoldable pub place : String → List String → List String
place x [] = x ∷ []
place x (y ∷ ys) = if str_leb x y then x ∷ y ∷ ys else y ∷ place x ys

unfoldable pub sorted : List String → List String
unfolding place
sorted [] = []
sorted (x ∷ xs) = place x (sorted xs)

-- `set(…)`
unfoldable pub set_of : List String → List String
unfolding add
set_of [] = []
set_of (x ∷ xs) = add x (set_of xs)

-- `value or ""` and `text or None`.
unfoldable pub text_of : Option String → String
text_of none = ""
text_of (some s) = s

unfoldable pub given : String → Option String
given s = if s == "" then none else some s

-- `n or default`
unfoldable pub number_or : ℤ → ℤ → ℤ
number_or n default = if eqb_ℤ n (pos 0) then default else n

-- `Enum(text)`: the member with that value.
unfoldable pub by_value : {A : Type 0} → (A → String) → List A → String → Option A
by_value value [] s = none
by_value value (x ∷ xs) s = if value x == s then some x else by_value value xs s

-- `str(kind)` and `TaskKind(text)`.
unfoldable pub kind_text : TaskKind → String
kind_text cpu = "cpu"
kind_text io = "io"
kind_text async = "async"
kind_text scheduled = "scheduled"

unfoldable pub to_kind : String → Option TaskKind
unfolding by_value kind_text
to_kind = by_value kind_text (cpu ∷ io ∷ async ∷ scheduled ∷ [])

-- `TaskStatus(text)`
unfoldable pub to_status : String → Option TaskStatus
unfolding by_value status_text
to_status = by_value status_text (
    pending ∷ queued ∷ running ∷ acked ∷ succeeded ∷ failed ∷ retrying ∷ cancelled ∷ dead_lettered
    ∷ [])

unfoldable pub worker_status_text : WorkerStatus → String
worker_status_text starting = "starting"
worker_status_text idle = "idle"
worker_status_text busy = "busy"
worker_status_text draining = "draining"
worker_status_text offline = "offline"

unfoldable pub to_worker_status : String → Option WorkerStatus
unfolding by_value worker_status_text
to_worker_status = by_value worker_status_text (starting ∷ idle ∷ busy ∷ draining ∷ offline ∷ [])
