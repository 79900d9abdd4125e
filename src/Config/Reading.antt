-- ===== src/Config/Reading.antt =====
-- taskrunner/shared/config.py: which environments are refused, and what the others give.
use distributed_task_runner.Base.{
  ◌≡◌, refl, ◌∙◌, inl, inr, ◌⊎◌, String, Option, none, some, Option-cases,
}
use distributed_task_runner.Base.Int.{ℤ}
use distributed_task_runner.Config.{
  Settings, Platform, default_settings, getenv, number_env, assemble, from_env,
}

-- The variables that are numbers, with the settings that they have when they are not set.
pub data Variable : Type 0 where
  grpc_port api_port interval timeout lease queue_depth capacity : Variable

abbrev pub name_of : Variable → String
name_of grpc_port = "TASKRUNNER_SCHEDULER_GRPC_PORT"
name_of api_port = "TASKRUNNER_API_PORT"
name_of interval = "TASKRUNNER_HEARTBEAT_INTERVAL_SECONDS"
name_of timeout = "TASKRUNNER_HEARTBEAT_TIMEOUT_SECONDS"
name_of lease = "TASKRUNNER_LEASE_SECONDS"
name_of queue_depth = "TASKRUNNER_MAX_QUEUE_DEPTH"
name_of capacity = "TASKRUNNER_WORKER_CAPACITY"

abbrev pub reader_of : Platform → Variable → String → Option ℤ
reader_of platform interval = platform.float
reader_of platform timeout = platform.float
reader_of platform lease = platform.float
reader_of platform _ = platform.int

abbrev pub number_in : Settings → Variable → ℤ
number_in s grpc_port = s.scheduler_grpc_port
number_in s api_port = s.api_port
number_in s interval = s.heartbeat_interval_seconds
number_in s timeout = s.heartbeat_timeout_seconds
number_in s lease = s.lease_seconds
number_in s queue_depth = s.max_queue_depth
number_in s capacity = s.worker_capacity

-- The number that a variable stands for: the default, if it is not set, or what its text reads as.
pub data ReadsAs (platform : Platform) (v : Variable) (n : ℤ) : Type 0 where
  unset :
      platform.environ (name_of v) ≡ none
      → n ≡ number_in (default_settings platform) v
      → ReadsAs platform v n
  given :
      (s : String)
      → platform.environ (name_of v) ≡ some s
      → reader_of platform v s ≡ some n
      → ReadsAs platform v n

-- The variable is set to a text that is no number.
pub record Unreadable (platform : Platform) (v : Variable) : Type 0 where
  pub written : String
  pub is_set : platform.environ (name_of v) ≡ some written
  pub no_number : reader_of platform v written ≡ none

module _ (platform : Platform) where
  value_of : Variable → Option ℤ
  value_of v =
      number_env platform (reader_of platform v) (name_of v)
        (number_in (default_settings platform) v)

  value_of_reads :
      (v : Variable)
      → ((value_of v ≡ none) × Unreadable platform v)
        ⊎ ((n : ℤ) × (value_of v ≡ some n) × ReadsAs platform v n)
  unfolding value_of number_env
  value_of_reads v = elim (Option-cases (platform.environ (name_of v))) [
    | inl none_set ↦ inr (
      number_in (default_settings platform) v,
      rw (none_set, number_env, value_of) refl,
      unset none_set refl,
    )
    | inr (s, set) ↦ elim (Option-cases (reader_of platform v s)) [
      | inl bad ↦ inl (
        rw (set, number_env, value_of) bad,
        record { written = s; is_set = set; no_number = bad },
      )
      | inr (n, good) ↦ inr (n, rw (set, number_env, value_of) good, given s set good)
    ]
  ]

  from_env_of_values :
      from_env platform
      ≡ assemble platform
          (value_of grpc_port)
          (value_of api_port)
          (value_of interval)
          (value_of timeout)
          (value_of lease)
          (value_of queue_depth)
          (value_of capacity)
  unfolding from_env value_of default_settings
  from_env_of_values = refl

  -- Settings made of what the environment says.
  pub Made : Settings → Type 0
  Made s = (v : Variable) → (n : ℤ) × ReadsAs platform v n × (number_in s v ≡ n)

  numbers : (a b c d e f g : ℤ) → Settings
  numbers a b c d e f g = record (default_settings platform) {
    scheduler_host =
        getenv platform "TASKRUNNER_SCHEDULER_HOST" (default_settings platform).scheduler_host;
    scheduler_grpc_port = a;
    api_host = getenv platform "TASKRUNNER_API_HOST" (default_settings platform).api_host;
    api_port = b;
    sqlite_path =
        platform.path
          (getenv platform "TASKRUNNER_SQLITE_PATH" (default_settings platform).sqlite_path);
    heartbeat_interval_seconds = c;
    heartbeat_timeout_seconds = d;
    lease_seconds = e;
    max_queue_depth = f;
    worker_capacity = g;
    log_level = getenv platform "TASKRUNNER_LOG_LEVEL" (default_settings platform).log_level;
  }

  numbers-Made :
      (a b c d e f g : ℤ)
      → ReadsAs platform grpc_port a
      → ReadsAs platform api_port b
      → ReadsAs platform interval c
      → ReadsAs platform timeout d
      → ReadsAs platform lease e
      → ReadsAs platform queue_depth f
      → ReadsAs platform capacity g
      → Made (numbers a b c d e f g)
  unfolding Made numbers
  numbers-Made a b c d e f g ra rb rc rd re rf rg grpc_port = (a, ra, refl)
  numbers-Made a b c d e f g ra rb rc rd re rf rg api_port = (b, rb, refl)
  numbers-Made a b c d e f g ra rb rc rd re rf rg interval = (c, rc, refl)
  numbers-Made a b c d e f g ra rb rc rd re rf rg timeout = (d, rd, refl)
  numbers-Made a b c d e f g ra rb rc rd re rf rg lease = (e, re, refl)
  numbers-Made a b c d e f g ra rb rc rd re rf rg queue_depth = (f, rf, refl)
  numbers-Made a b c d e f g ra rb rc rd re rf rg capacity = (g, rg, refl)

  -- The settings cannot be read exactly if a variable that is a number is set to a text that does not
  -- read as one. Otherwise each number is that of its variable, or its default if that is not set.
  pub from_env-reads :
      ((v : Variable) × (from_env platform ≡ none) × Unreadable platform v)
      ⊎ ((s : Settings) × (from_env platform ≡ some s) × Made s)
  unfolding assemble numbers
  from_env-reads =
      let made = assemble platform in
      elim (value_of_reads grpc_port) [
        | inl (h, bad) ↦ inl (
          grpc_port,
          from_env_of_values ∙ λ i.
              made (h i) (value_of api_port) (value_of interval) (value_of timeout) (value_of lease)
                (value_of queue_depth) (value_of capacity),
          bad,
        )
        | inr (a, ha, ra) ↦ elim (value_of_reads api_port) [
          | inl (h, bad) ↦ inl (
            api_port,
            from_env_of_values ∙ λ i.
                made (ha i) (h i) (value_of interval) (value_of timeout) (value_of lease)
                  (value_of queue_depth) (value_of capacity),
            bad,
          )
          | inr (b, hb, rb) ↦ elim (value_of_reads interval) [
            | inl (h, bad) ↦ inl (
              interval,
              from_env_of_values ∙ λ i.
                  made (ha i) (hb i) (h i) (value_of timeout) (value_of lease)
                    (value_of queue_depth) (value_of capacity),
              bad,
            )
            | inr (c, hc, rc) ↦ elim (value_of_reads timeout) [
              | inl (h, bad) ↦ inl (
                timeout,
                from_env_of_values ∙ λ i.
                    made (ha i) (hb i) (hc i) (h i) (value_of lease) (value_of queue_depth)
                      (value_of capacity),
                bad,
              )
              | inr (d, hd, rd) ↦ elim (value_of_reads lease) [
                | inl (h, bad) ↦ inl (
                  lease,
                  from_env_of_values ∙ λ i.
                      made (ha i) (hb i) (hc i) (hd i) (h i) (value_of queue_depth)
                        (value_of capacity),
                  bad,
                )
                | inr (e, he, re) ↦ elim (value_of_reads queue_depth) [
                  | inl (h, bad) ↦ inl (
                    queue_depth,
                    from_env_of_values ∙ λ i.
                        made (ha i) (hb i) (hc i) (hd i) (he i) (h i) (value_of capacity),
                    bad,
                  )
                  | inr (f, hf, rf) ↦ elim (value_of_reads capacity) [
                    | inl (h, bad) ↦ inl (
                      capacity,
                      from_env_of_values ∙ λ i.
                          made (ha i) (hb i) (hc i) (hd i) (he i) (hf i) (h i),
                      bad,
                    )
                    | inr (g, hg, rg) ↦
                        let settings = numbers a b c d e f g in
                        inr (
                          settings,
                          from_env_of_values ∙ λ i.
                              made (ha i) (hb i) (hc i) (hd i) (he i) (hf i) (hg i),
                          numbers-Made a b c d e f g ra rb rc rd re rf rg,
                        )
                  ]
                ]
              ]
            ]
          ]
        ]
      ]
