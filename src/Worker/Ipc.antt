-- ===== src/Worker/Ipc.antt =====
-- taskrunner/workers/ipc.py: the queues and the shared counters of `IPCChannels`. The shared memory
-- is the list of its 64 bytes; `struct` packs a number of a `Q` field as eight bytes, the most
-- significant one first, and raises an error, here `none`, where it does not fit. The pipe and the
-- socket stand in Sockets.
use distributed_task_runner.Base.{
  ℕ, zero, suc, ◌+◌, ◌*◌, ◌/◌, ◌%◌, ◌^◌, ◌&&◌, Option, none, some, List, [], ◌∷◌, ◌++◌, ltb, take,
  if◌then◌else◌,
}
use distributed_task_runner.Models.{Value}

-- `xs[n:]` on bytes.
unfoldable pub skip : ℕ → List ℕ → List ℕ
skip zero xs = xs
skip (suc n) [] = []
skip (suc n) (x ∷ xs) = skip n xs

-- `bytes(n)`
unfoldable pub zeros : ℕ → List ℕ
zeros zero = []
zeros (suc n) = 0 ∷ zeros n

-- The last `k` bytes of a number.
unfoldable pub bytes_of : (k : ℕ) → ℕ → List ℕ
bytes_of zero n = []
bytes_of (suc k) n = bytes_of k (n / 256) ++ (n % 256) ∷ []

-- The number that bytes spell behind `high`.
unfoldable pub number_of : (high : ℕ) → List ℕ → ℕ
number_of high [] = high
number_of high (b ∷ bs) = number_of (high * 256 + b) bs

-- The queues hold what has been put there and not taken.
pub record IpcChannels : Type 0 where
  pub task_queue : List Value
  pub result_queue : List Value
  pub shared_metrics : List ℕ

unfoldable pub new_channels : IpcChannels
unfolding zeros
new_channels = record { task_queue = []; result_queue = []; shared_metrics = zeros 64 }

abbrev pub word : ℕ
word = 2 ^ 64

-- `struct.pack("!QQQ", a, b, c)`
unfoldable pub pack : (a b c : ℕ) → Option (List ℕ)
unfolding bytes_of
pack a b c =
    if ltb a word && ltb b word && ltb c word
    then some (bytes_of 8 a ++ (bytes_of 8 b ++ bytes_of 8 c))
    else none

-- `struct.unpack("!QQQ", bytes)` of 24 bytes.
unfoldable pub unpack : List ℕ → ℕ × ℕ × ℕ
unfolding number_of skip
unpack bytes = (
  number_of 0 (take 8 bytes),
  number_of 0 (take 8 (skip 8 bytes)),
  number_of 0 (take 8 (skip 16 bytes)),
)

unfoldable pub write_shared_counters :
    (running completed failed : ℕ) → IpcChannels → Option IpcChannels
unfolding pack skip
write_shared_counters running completed failed ipc = elim (pack running completed failed) [
  | none ↦ none
  | some packed ↦ some (record ipc { shared_metrics = packed ++ skip 24 ipc.shared_metrics })
]

unfoldable pub read_shared_counters : IpcChannels → ℕ × ℕ × ℕ
unfolding unpack
read_shared_counters ipc = unpack (take 24 ipc.shared_metrics)
