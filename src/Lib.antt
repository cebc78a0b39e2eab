-- ===== src/Lib.antt =====
-- devops_manager: a server that runs shell commands on many hosts through agents. A task names a
-- command and a set of hosts. For each host the server stores a row of the table commands and a row
-- of commands_hosts, sends the command to the agent of the host, and writes the agent's reports to
-- the rows; the task's counters and status follow them. A queue manager decides when a queued task
-- is started.
--
-- The parts, and the code each is about:
-- - Prelude: Boolean tests, lists as tables, int64, instants and durations of Go's package time.
-- - Models: the rows and their methods (api/models/task.go, command.go, command_host.go,
--   command_result.go), the message CommandContent, and Counting (UpdateProgress).
-- - Db: the tables, SQL statements that may fail, gorm's Transaction, and the messages to agents. A
--   method of the service is an `Action`: from a `Session` to a result or an error, and a
--   `Session`. `faults` says which statements fail, so that a theorem about every session is about
--   every failure of the database. Keeps is the view of the tables that an action leaves as it is.
-- - TaskService (server/pkg/service/task_service.go): Tally and Progress
--   (updateTaskProgressInTransaction), Lifecycle (CreateTask, StartTask, StopTask, CancelTask,
--   DeleteTask), Hosts (AddTaskHosts, RemoveTaskHost, GetTaskHosts), Results (HandleCommandResult,
--   UpdateCommandStatus), Failures (HandleHostConnectionChange, HandleAgentDisconnection,
--   HandleCommandExecutionError, updateCommandDispatchFailed, RetryFailedCommand), Status
--   (GetTaskStatus with its cache, and Status/Details, GetTaskProgress), Queries (GetTask and the
--   lists of tasks and commands; Order, Pages, Loading), Queueing (UpdateTask, StartTaskWithQueue
--   and the calls that are passed on to the queue manager), and Atomic, the methods that run in a
--   transaction.
-- - TimeoutMonitor (server/pkg/service/timeout_monitor.go): a round of the monitor, and the test
--   for a command's timeout.
-- - TaskQueue (server/pkg/service/task_queue_manager.go): Types (the manager's record), Insert
--   (insertTaskByPriority), Loads (the map hostLoads), Guard (the mutex, and how a method ends),
--   Channels (the workers'), Manager (EnqueueTask, processQueue, executeTask, CancelTask,
--   GetTaskPosition, adjustConcurrency and getSystemLoad, with the mutex), Select (selectWorker and
--   its strategies), Status (GetQueueStatus, NewTaskQueueManager) and Shutdown (the workers and
--   Shutdown as a step relation).
-- - ConnectionPool (server/pkg/controller/grpc_task_controller.go): the pool of agent connections;
--   Contexts (what each operation keeps), History (any sequence of calls) and Health (the check).
-- - Dispatch (the rest of that file): ConnectForCommands message by message, SendCommandToAgent,
--   heartbeats, broadcasts, and disconnections step by step; Pool (what keeps the pool sound),
--   History (any sequence of events) and Streams (overlapping streams, and sends that fail).
-- - Agent: Tasks (agent/pkg/service/task_service.go) with Outcomes, the states that its goroutines
--   and calls reach, and Replies (handleCommand of agent/pkg/controller/grpc_task_controller.go)
--   with Silent, what the server makes of a reply; Client (agent/pkg/grpc/client.go), Connection
--   (agent/pkg/service/connection_service.go) and Hosts (agent/pkg/service/host_service.go), and
--   Hosts/Healing, the agent's ticks with the server's methods as the other end.
-- - Admission (server/pkg/service/host_service.go, api/models/host.go): Effects, Rows and Service
--   (the tables, Redis and the methods of HostService), Spec (the abstract machine of one host),
--   Tables, Refines and Runs (that the methods implement it, one by one and in sequence), Reports
--   (status reports), Stale (the cache).
-- - TaskCache (server/pkg/service/task_cache_service.go): keys, entries that expire, and the
--   deletions; Store (the methods that store and read), Fresh (what is read after what).
-- - Cleanup (server/pkg/service/database_optimizer.go): CleanupOldRecords; Orphans, what it
--   deletes.
-- - Batch (server/pkg/service/database_optimizer.go and task_service.go): the batches of status
--   updates by groups (Groups), and the queue and the loop that fill them (Queue).
-- - Audit (server/pkg/service/audit_service.go): the logs of actions and executions; Queries (the
--   lists and the history of a command), Rows and Trail (that history over any sequence of calls)
--   and Retention (CleanupOldAuditLogs).
-- - LoadMonitor (server/pkg/service/system_load_monitor.go): a round, the alerts and the queries;
--   History (any sequence of calls) and Extremes (GetLoadStatistics).
-- - Http: Reply (CommonResponse and what sends it) and Params (page, size and strconv.Atoi); Tasks
--   and Tasks/Lists (the handlers of server/pkg/controller/http_task_controller.go), HostRoutes (of
--   http_host_controller.go, which the routes lead to), Hosts (of http_controller.go, which no
--   route leads to) and Grpc (grpc_host_controller.go). Effects, Paging, Created and Verdicts are
--   about requests to the handlers.
-- - Tests: sample tables and queues, with the theorems applied to them.
--
-- How they interact: the timeout monitor, HandleCommandResult, HandleAgentDisconnection,
-- HandleCommandExecutionError and RetryFailedCommand end in `update_task_progress`; AddTaskHosts
-- shares the loop of CreateTask; the queue manager calls StartTask, whose outcome is an argument of
-- `finish_task`. The controller of Dispatch holds a pool and a session: it calls
-- HandleCommandResult and HandleHostConnectionChange. The message that an agent's `reply` makes is
-- what `handle_result` of Dispatch reads. The registrations and reports of an agent go by Client to
-- Register and ReportStatus of Http/Grpc. StartTaskWithQueue loads the task by GetTask and calls
-- EnqueueTask. The handlers of Http call the methods of TaskService and Admission, and turn a
-- result or an error into a reply; the Spec of Admission says which status codes they give.
--
-- Bounds and fuel: identifiers are only compared and stand as numbers. Counters are numbers without
-- a bound, since they count rows. A timeout is multiplied in int64 with its wrap, and a difference
-- of instants saturates. Loops are structural recursion but that of processQueue, which is on fuel:
-- one unit more than tasks wait is enough where the worker that is picked can take its task
-- (TaskQueue/Manager/Termination), and no fuel is where it cannot (TaskQueue/Manager/Livelock).
--
-- Not modelled: the order in which a database returns the groups of a GROUP BY is a parameter, of
-- which the theorems assume that each status comes once. A goroutine that is to send a message is
-- an element of `goroutines`; when it runs is left open. The interleaving of two transactions is
-- left to the database. Whether a gRPC stream takes a message (`sends`), the identifier that
-- generateHostID makes (`generated`), and what a shell command gives are parameters. In Admission,
-- JSON is taken to give back what was written to Redis; in TaskCache it is a parameter, and so are
-- the order of an ORDER BY, which may be another for each query (`latest_first`), how texts match
-- in LIKE, what time.Parse and Format give (`format`), the primary keys of the rows (`row_id`), and
-- what a column keeps of a time (`kept`), which only the theorem on POST and GET of a task takes
-- into account. OptimizedHandleCommandResult, which no code calls, writes a status that is no
-- status. What the load monitor computes with floats (usages, averages and the recommended
-- concurrency) is left out, as the language has none; so are its metrics and the statistics of
-- memory. The statistics of tasks and of the audit log, the summaries of executions, and the
-- handlers that only call one of their methods or one of maintenance, aggregate rows for a report;
-- that CreateTask and StartTask write to the audit log is left out of them, since they only log its
-- errors. The measurements that the agent reports, its HTTP pages, the configuration and the
-- frontend are input and output.
pub mod Prelude
pub mod Models
pub mod Db
pub mod TaskService
pub mod TimeoutMonitor
pub mod TaskCache
pub mod TaskQueue
pub mod Tests
pub mod ConnectionPool
pub mod Audit
pub mod Batch
pub mod Cleanup
pub mod Dispatch
pub mod LoadMonitor
pub mod Http
pub mod Agent
pub mod Admission
