-- ===== src/Lib.antt =====
-- Distributed task runner: a model of the program's core, and what has been proved of it.
--
-- A scheduler keeps a queue of tasks and hands them to workers, which report their results. The
-- files below follow the program's modules.
--
--   Base      the names that the other files share; lists, integers (`int`, and times), `dict`,
--             `str` and `set[str]` as the program uses them.
--   Models    taskrunner/shared/models.py: statuses, specifications, envelopes, workers, results.
--   Heapq     Python's `heapq` and `list.remove`, as the queue uses them.
--   Broker    taskrunner/queue/broker.py: `InMemoryTaskQueue` (its own header lists its files).
--   Events    taskrunner/shared/events.py: `EventBus`, with Events/Delivery on what is received.
--   Service   taskrunner/scheduler/service.py: how the scheduler starts and stops.
--   Store     taskrunner/database/store.py: what the statements of `SQLiteStore` write,
--             and in Store/Queries what they read.
--   Codec     taskrunner/grpc/codec.py, with the messages of taskrunner/grpc/protos/taskrunner.proto:
--             Codec/Specs and Records have the functions, Trip and Results what arrives. `json` is a
--             parameter.
--   Engine    taskrunner/scheduler/engine.py: `SchedulerEngine` over the queue, the store and the
--             bus. Engine/Tasks, Workers, Reserving, Reports and Metrics have its methods, Services
--             its background loops; Alive, Scaling, Batches and Outcomes prove what they promise.
--   Locks     taskrunner/shared/locks.py: the lock of each key, its waiters and who is inside.
--             The engine holds one only around calls that do not wait, so its methods leave it out.
--   Dicts     taskrunner/shared/models.py: the methods `to_dict`.
--   Worker    taskrunner/workers: Worker/Start makes a worker; Ipc has the shared counters of ipc.py,
--             Sockets its pipe and socket; Executor has how executor.py runs a task, and Runtime the
--             coroutines of manager.py, as parts that run from one `await` to the next. Counters,
--             Sound, Histories, Doomed, Ends, Stops and Outcomes prove what holds of them.
--   Config    taskrunner/shared/config.py: the settings, and how the environment gives them.
--   Client    taskrunner/grpc/client.py: each call as a message made, a call of the stub, which is a
--             parameter, and a reply read. Client/Served is on a stub that reaches the servicer.
--   Monitoring taskrunner/monitoring/metrics.py: the metrics, read part by part.
--   Api       taskrunner/api/app.py: the handlers, in Api/Reading those that only read, and in
--             Api/Watching the web socket, with Queues, Turns and Streams on what it sends.
--   Cli       taskrunner/cli/main.py: how options are read, and in Cli/Commands the commands over a
--             network, which is a parameter; Starting and Operators are on what they do.
--   Server    taskrunner/grpc/server.py: each method as a message read, a call of the engine and a
--             message made.
--   Cluster   the scheduler and a worker together: a task is run, reported over the servicer, settled.
--
-- A function keeps the name of the method that it models, without a leading underscore. A method
-- that changes its object takes the old state and returns the new one beside its result, and an
-- exception is a result, `raised`, beside the state that it leaves.
--
-- Conventions of the model. A time or a duration, a float in the source, is a whole number of
-- microseconds, so the rounding of floats is not modelled. A quotient is kept as a fraction. Each
-- reading of a clock is an argument, since the clock may run on, or be set back, between two of them.
-- Task objects, which several containers and callers share, stand in a store behind references. A
-- set is a list in the order in which an iteration visits it, and the theorems hold for every order.
-- The threads that share the queue take turns: its lock makes each method one step, and a call of
-- `reserve` that waits is a sequence of rounds between which other steps happen. In `submit` of the
-- engine such rounds run before the row is saved and before the task is returned; its other methods,
-- which wait for nothing, are one step.
--
-- No loop needs fuel: each recurs on a list, and the call of `reserve` that waits on the schedule of
-- its rounds.
--
-- Not modelled: the servers, the handlers of signals, logging and printing, which are input and
-- output; `TaskEnvelope.from_dict`, which nothing calls; the schema of the tables; the code that
-- protoc generates; the libraries behind gRPC, FastAPI and SQLite.
-- The interpreter that loads a task's function, the pools that run it and the transport of a worker
-- are parameters: what they answer is an argument, in every order that it may come in.
pub mod Api
pub mod Base
pub mod Broker
pub mod Cli
pub mod Client
pub mod Cluster
pub mod Codec
pub mod Config
pub mod Dicts
pub mod Engine
pub mod Events
pub mod Heapq
pub mod Locks
pub mod Models
pub mod Monitoring
pub mod Server
pub mod Service
pub mod Store
pub mod Worker
