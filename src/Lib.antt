-- ===== src/Lib.antt =====
-- A model of the workforce job system, and proofs about it. A manager keeps jobs in a store, queues
-- them and proposes each to a worker that is connected over TCP; the worker accepts or rejects it,
-- and when it is dispatched runs the binary of its task and reports the result.
--
-- The parts and their files:
--   Contract/        contract/job.go, task.go, run.go and worker.go: the data that both sides share.
--     `Transition` of the atomic worker state is `transition`.
--   Worker           worker/handle_message.go and worker/worker.go: the state of one connection of
--     a worker is the record `Worker`, and `handlePropose`, `handleDispatch`, `handleSystem`,
--     `handleCancel`, `releaseTask`, `checkDeps` and `HeartbeatRoutine` are functions on it with the
--     same names; `step` is `handleMessage` with the timer and the ends of runs, and `run` a history.
--     The proofs are in Worker/Books, Accounting, Proposals and Lifecycle.
--   Window           worker/window/window.go: the ring of samples behind the metrics of a worker.
--   Manager/WorkerConn    manager/worker_conn.go: a worker as the manager counts it.
--   Manager/WorkerPool    manager/worker_pool.go and worker_selector.go: the connected workers and
--     their two indices. A connection is a number that `conns` maps to its state, since connections
--     are shared and outlive their place in the indices.
--   Manager/Retry    `mergeRetryPolicy` and `retryDelay` of manager/worker_conn_handler.go.
--   Locksmith        manager/locksmith/cache.go: the cache in which the manager keeps which jobs a
--     worker has rejected; `eligibleWorkers` reads it.
--   Store            manager/store/memstore.go: jobs, tasks, runs and webhooks; Store/Logs has the
--     run logs and their subscribers, Store/Updates what a change of one job does to a lookup, and
--     Store/Listing the listings; its Shuffles is about a map that each call ranges over in another
--     order.
--   FileStore/       manager/store/fsstore.go, fsstore_journal.go and fsstore_snapshot.go. Entries has the
--     journal and its replay, State the store with its files (`Disk`), Operations the operations,
--     named as those of Store, and Logs the logs; Writer is `runWriter`, with `compact` in turns between
--     which clients go on, `OpenFSStore`, `Close` and a crash of the process. Requests has a client's
--     requests and the histories of requests and turns. The proofs: Views and Values say what the maps
--     hold, Changes, Loading and Replay what operations, snapshots and journals make of them, Recovery,
--     Turns and Preserving that the files and the channel always rebuild the store; Reopening, Closing,
--     Draining, Faults, Logs/Lines and Logs/Restart are about the store that opens next; Samples has
--     the data of its tests. Contract/JsonOrBytes is contract/json_or_bytes.go.
--   Protocol/        contract/proto_message.go: the flags of a line, over the interface `Netargv` of
--     lowbit.dev/netargv, the numbers in them (`Atoi`, `%d`) and the factories, named as in the
--     source without their version (`propose_factory` is `proposeV0Factory`). The text of a line, as
--     it is written and as netargv splits it into flags, is not modelled.
--   Webhooks         manager/webhooks/dispatcher.go: `fire` is each of the `FireJob...` methods with
--     the data of its event, `enqueue` and `processPending` keep their names.
--   Manager/Config   manager/config.go; Manager/Artifact is the interface of the registry,
--     manager/artifact/registry.go, which is a parameter.
--   Manager/Queue    manager/priority_heap.go over container/heap: an array of items, each with the
--     number that stands for its pointer. Order, Values, Sift, Pop, Push and Counts are the proofs.
--   Manager/Messages the messages of a worker that the handlers read and the lines they write.
--   Manager/Server   the state of manager/manager.go that the handlers share: the store, the pool,
--     the queue, the cancelled jobs, the timers of retries and the lines that were sent.
--   Manager/Handlers manager/worker_conn_handler.go: a handler for each message; Failures has
--     `handleJobError` and `handleFailJob`, Subjobs `handleSubjobsEmitted`, Step
--     `handleResultMessage` and `handleWorkerMessage`. Results, Retries and Consolidation are proofs.
--   Manager/Lifecycle     manager/manager.go: `cancelJobByID`, `OnJobsRequeued`, `RecoverJobs` and
--     `failJobDirect`; its proofs are Cancellation, Requeue and Recovery.
--   Manager/Dispatcher    manager/dispatcher.go: `ProcessQueue` and what it calls; its proofs are
--     Passes, Sent and Conserved.
--   Manager/Demand   `checkResourceShortage` of manager/dispatcher.go with the events of
--     manager/resource_management.go, and `HasPendingForPlatform`; Cooldown is its proof.
--   Manager/Samples  the data of the tests.
-- Prelude/ has what these share: 64-bit integers, maps, lists by native numbers, equality tests.
--
-- How they interact. A pass of the dispatcher takes jobs from the queue, asks the pool for the
-- workers that may take one and sends a proposal. The answer comes back as a message, which the
-- handlers turn into changes of the store, the pool, the queue and the webhooks; a job that failed
-- comes back to the queue by a timer, a parent when all its children have completed, the jobs of a
-- lost worker by `OnJobsRequeued` and those of a restart by `RecoverJobs`.
--
-- How Go is read. A pointer receiver is a state that goes in and comes out. An `int`, an `int64` and
-- a `time.Duration` are integers that wrap at 64 bits; a time is its nanoseconds since the zero time
-- as a natural number, and the durations of the cache and of the heartbeat timeout of the manager
-- are not negative. A map is an association list, with one binding for each key where a proof needs
-- it, and a `range` follows the list; another order is another list. An error is an absent result, a sum or a flag; a panic is an
-- absent result or a flag. The clock, the random identifiers and the outcome of each I/O call are
-- arguments. Floats, the sets of lowbit.dev/sets and the lanes of lowbit.dev/seriallane, which run
-- the functions given to them one at a time, are not modelled beyond what their users need: floats
-- and sets are parameters, the latter with the laws of membership, and a lane runs its function.
--
-- encoding/json, the ulid generator, the signing of addresses, the selection of a worker and the
-- registry of artifacts are parameters of the server (`Outside`, `choose`, `sign`, the registry), and
-- the reading of durations and floats is one of the factories (`Decoders`).
-- For the file store, encoding/json is the record `Json`, with the law `IsJson` that a struct is read
-- as it was written but for the values of type JsonOrBytes, and `JsonText` for these; texts are valid
-- UTF-8. The entries that wait for room in the channel are part of its queue.
-- The manager's handlers run each as one step with one reading of the clock, but `consolidate_parent`
-- takes what other handlers do between its `GetJob` and its `UpdateJob`; the stores of the manager
-- are one memory store, as manager/dispatcher_test.go sets them up. A handler that would wait for a
-- lock that it holds itself (`fire_failed`) has that outcome as a value.
--
-- Loops are recursion on their list, but for these: `QuarantineEvict` runs on the clock readings of
-- its rounds, following the cursors of `ListJobs` on a number of pages, the heap's `up` and `down`
-- on the length of the array, which bounds the depth of the heap, and the loops that pop jobs on the
-- size of the queue, which each pop lessens.
--
-- Not modelled: HTTP routes, processes, the errors of opening the files of the store and the connection
-- itself, which are I/O; the rate limiter, the statistics of the queue, draining and stopping the
-- manager, the report of idle workers and the artifact caches.
pub mod Prelude
pub mod Contract
pub mod Worker
pub mod Window
pub mod Manager
pub mod Locksmith
pub mod Store
pub mod Webhooks
pub mod Protocol
pub mod FileStore
