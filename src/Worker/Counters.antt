-- ===== src/Worker/Counters.antt =====
-- taskrunner/workers/ipc.py: what is read of the shared counters is what was written.
use distributed_task_runner.Base.{
  ℕ, zero, suc, ◌+◌, ◌*◌, ◌/◌, ◌%◌, ◌<◌, ◌≡◌, refl, ◌∙◌, some, List, [], ◌∷◌, ◌++◌, arith, take,
}
use distributed_task_runner.Worker.Ipc.{
  skip, bytes_of, number_of, IpcChannels, word, pack, unpack, write_shared_counters,
  read_shared_counters,
}

number_of-append :
    (high : ℕ) (xs : List ℕ) (b : ℕ) → number_of high (xs ++ b ∷ []) ≡ number_of high xs * 256 + b
unfolding number_of
number_of-append high [] b = refl
number_of-append high (x ∷ xs) b = number_of-append (high * 256 + x) xs b

-- One more than the greatest number of `k` bytes.
bound : ℕ → ℕ
bound zero = 1
bound (suc k) = bound k * 256

number_of-bytes_of : (k n : ℕ) → n < bound k → number_of 0 (bytes_of k n) ≡ n
unfolding bytes_of number_of bound
number_of-bytes_of zero n h = omega arith
number_of-bytes_of (suc k) n h =
    let rest = number_of-bytes_of k (n / 256) (omega arith) in
    number_of-append 0 (bytes_of k (n / 256)) (n % 256) ∙ omega (arith, rest)

number_of-word : (n : ℕ) → n < word → number_of 0 (bytes_of 8 n) ≡ n
unfolding bound
number_of-word n h = number_of-bytes_of 8 n h

triple : {a a' b b' c c' : ℕ} → a ≡ a' → b ≡ b' → c ≡ c' → Path (ℕ × ℕ × ℕ) (a, b, c) (a', b', c')
triple p q r = λ i. (p i, q i, r i)

unpack-words :
    (a b c : ℕ) (rest : List ℕ)
    → a < word
    → b < word
    → c < word
    → unpack (take 24 ((bytes_of 8 a ++ (bytes_of 8 b ++ bytes_of 8 c)) ++ rest)) ≡ (a, b, c)
unfolding unpack bytes_of skip
unpack-words a b c rest la lb lc =
    triple (number_of-word a la) (number_of-word b lb) (number_of-word c lc)

pack_fits :
    (a b c : ℕ)
    → a < word
    → b < word
    → c < word
    → pack a b c ≡ some (bytes_of 8 a ++ (bytes_of 8 b ++ bytes_of 8 c))
unfolding pack
pack_fits a b c la lb lc = ground arith

-- Three counters below 2 ^ 64 that are written to the shared memory are what is read from it, and
-- the rest of the worker's channels is as it was.
pub read_shared_counters-write_shared_counters :
    (running completed failed : ℕ) (ipc : IpcChannels)
    → running < word
    → completed < word
    → failed < word
    → (ipc' : IpcChannels) × (write_shared_counters running completed failed ipc ≡ some ipc')
      × (read_shared_counters ipc' ≡ (running, completed, failed))
      × (ipc'.task_queue ≡ ipc.task_queue)
      × (ipc'.result_queue ≡ ipc.result_queue)
unfolding write_shared_counters read_shared_counters
read_shared_counters-write_shared_counters running completed failed ipc lr lc lf =
    let bytes = bytes_of 8 running ++ (bytes_of 8 completed ++ bytes_of 8 failed) in
    let rest = skip 24 ipc.shared_metrics in
    (
      record ipc { shared_metrics = bytes ++ rest },
      rw (pack_fits running completed failed lr lc lf, write_shared_counters) refl,
      unpack-words running completed failed rest lr lc lf,
      refl,
      refl,
    )
