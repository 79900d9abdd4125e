-- ===== src/Worker/Sockets.antt =====
-- taskrunner/workers/ipc.py: the pipe, the socket listener and the end of `IPCChannels`. The files of
-- the system are told by their paths.
use Prim.Native.String
use distributed_task_runner.Base.{
  ℕ, ◌≡◌, refl, String, Bool, true, false, ◌&&◌, not, Option, none, some, List, [], ◌∷◌, ◌++◌, ◌==◌,
  if◌then◌else◌, eq_iff,
}
use distributed_task_runner.Models.{Value}

pub data Address : Type 0 where
  inet : (host : String) (port : ℕ) → Address
  unix : (path : String) → Address

-- A connection of the pipe: whether it is open, and what has been sent to it.
pub record Connection : Type 0 where
  pub is_open : Bool
  pub inbox : List Value

-- What stands outside the process: the files, and whether the block of shared memory has its name.
pub record System : Type 0 where
  pub is_nt : Bool
  pub exists : String → Bool
  pub linked : Bool

-- `listener` is the address to which it was asked to bind; on a port of 0 the system chooses one.
pub record Endpoints : Type 0 where
  pub parent_pipe : Connection
  pub child_pipe : Connection
  pub mapped : Bool
  pub socket_path : String
  pub listener : Option Address
  pub listening : Bool

unfoldable pub default_socket_path : (is_nt : Bool) (pid : String) → String
default_socket_path is_nt pid =
    let named = String.◌++◌ "/tmp/taskrunner-" (String.◌++◌ pid ".sock") in
    if is_nt then "127.0.0.1:0" else named

-- The rest of `__init__`.
unfoldable pub new_endpoints : (pid : String) → System → Endpoints × System
unfolding default_socket_path
new_endpoints pid system = (
  record {
    parent_pipe = record { is_open = true; inbox = [] };
    child_pipe = record { is_open = true; inbox = [] };
    mapped = true;
    socket_path = default_socket_path system.is_nt pid;
    listener = none;
    listening = false;
  },
  record system { linked = true },
)

-- `os.unlink`, which may find no file.
unfoldable pub unlink : String → System → System
unlink path system = record system { exists = λ other. not (other == path) && system.exists other }

-- `bind` of a socket to a path makes its file.
unfoldable pub bind : String → System → System
bind path system = record system {
  exists = λ other. if other == path then true else system.exists other;
}

unfoldable pub start_socket_listener : Endpoints → System → Endpoints × System
unfolding unlink bind
start_socket_listener ends system =
    if system.is_nt
    then (record ends { listener = some (inet "127.0.0.1" 0); listening = true }, system)
    else (
      record ends { listener = some (unix ends.socket_path); listening = true },
      bind ends.socket_path (unlink ends.socket_path system),
    )

-- `send` on one end of the pipe puts the payload in the inbox of the other; `none` is an OSError.
unfoldable pub send_pipe : (sender receiver : Connection) → Value → Option Connection
send_pipe sender receiver payload =
    if sender.is_open && receiver.is_open
    then some (record receiver { inbox = receiver.inbox ++ payload ∷ [] })
    else none

-- `recv`; `none` is an OSError, or a wait where nothing has been sent.
unfoldable pub recv_pipe : Connection → Option (Value × Connection)
recv_pipe c =
    if c.is_open
    then elim c.inbox [ [] ↦ none | payload ∷ rest ↦ some (payload, record c { inbox = rest }) ]
    else none

-- Whether `close` returns: a block of shared memory without a name raises a FileNotFoundError.
unfoldable pub close : Endpoints → System → Bool × (Endpoints × System)
unfolding unlink
close ends system =
    let closed : Endpoints = record ends {
      parent_pipe = record ends.parent_pipe { is_open = false };
      child_pipe = record ends.child_pipe { is_open = false };
      mapped = false;
      listening = false;
    } in
    let unnamed : System = record system { linked = false } in
    if system.linked
    then (true, (closed, if system.is_nt then unnamed else unlink ends.socket_path unnamed))
    else (false, (closed, system))

-- Once the channels are closed behind the start of a listener, on a POSIX system there
-- is no file at their path and no block of shared memory by their name.
pub close-start_socket_listener :
    (ends : Endpoints) (system : System)
    → system.is_nt ≡ false
    → system.linked ≡ true
    → let (started, system') = start_socket_listener ends system in
      let (returned, after) = close started system' in
      (returned ≡ true) × (after.1.exists ends.socket_path ≡ false) × (after.1.linked ≡ false)
unfolding close start_socket_listener unlink bind
close-start_socket_listener ends system posix linked =
    let itself : (ends.socket_path == ends.socket_path) ≡ true =
      (eq_iff ends.socket_path ends.socket_path).1 refl in
    rw (posix, linked, itself) (refl, refl, refl)
