-- ===== src/Lib.antt =====
-- The CMA controller of the managed agents: the tables that it keeps, the transactions on them, the
-- scheduler that reconciles a context with its provider session, the A2A service and the push
-- notifications; and the application before it: its threads and turns, the handlers of Slack's
-- events, and the receiver of pushes.
--
-- Common: Boolean tests with SQL's reading of NULL, tables as lists of rows, and the relation
--   `Evolves` between a table and a later one.
-- Store: the tables of backend/migrations (cma_contexts, cma_tasks, cma_input_requests,
--   cma_clarification_requests) as records. `Db` holds them and the server's CURRENT_TIMESTAMP.
-- Runtime: backend/src/managed_agents_app/cma_controller/repository.py (Identity) and
--   runtime_repository.py (Admission, Lease, Review, Requests, Tasks). One function per operation,
--   of the operation's name; each is one transaction. Transaction is a `with connect(...)` block:
--   an exception rolls it back. Moves has all of them as one step relation, by any caller.
-- Scheduler: scheduler.py. An action takes a world (tables, log of the calls outside, preview
--   hints, turn) to a result and a world. `Env` says, for each turn, which transactions of other
--   workers have committed since the last one, whether the database answers, and what each service
--   answers: the provider, the pending-input store, the policy engine and the queues. A theorem
--   over all `Env` is over every interleaving at the grain of whole transactions and calls, and
--   over every failure of a service. Keeps is the program logic of these actions; each part's Kept
--   module applies it.
-- Push: push_repository.py (Configs, Claims) and push_dispatcher.py (Dispatcher), in the same style.
-- Threads: db/thread_repository.py and db/repositories.py of backend/src/managed_agents_app: the
--   application's threads, the surfaces (a Slack thread) bound to them, the logical sends and the
--   claim on a thread's context initialization. Moves has every transaction as one move, by any
--   caller. A call of get_or_create_surface_thread takes what others commit between its reads and
--   its writes as functions on the tables.
-- Slack: db/slack_a2a_repository.py: ingress events (Ingress), a task's projection into a Slack
--   thread (Projections) and the messages of a projection (Items). Moves as for Threads.
-- Sink: a2a_event_sink/app.py, the receiver of pushes: its checks of headers, body and identity, the
--   two reads of the threads' tables, and the update that it hands to the bus.
-- Turns: agent_control_plane/service.py: send_turn, over the threads' tables, with what other
--   callers commit before each of its transactions.
-- Service: service.py and request_handler.py: the pages of a task list, and the loop of
--   agent_control_plane/service.py that follows them.
--   World, Send and Continue: send, _continue and cancel, over the tables, the store of pending inputs
--   and the triggers; each ends with the task that get_task is asked for. History: the history of a
--   task's view in task_view.py.
-- Handlers: handlers/agent_input.py: a Slack message, a stop and a tool confirmation, as actions that
--   may raise, over the tables of Threads and Slack.
-- Admin: admin.py, the resolution of a held task. Runtime/Retry: with_dsql_retry of
--   backend/src/managed_agents_app/db/connection.py.
-- Tests: runs at concrete inputs, and the theorems applied to them.
--
-- Choices. Identifiers, object keys and texts that are only compared are numbers in the order of
-- their texts, 0 being the empty one; times are whole seconds. A row that an UPDATE changes
-- keeps its place, and INSERT appends. with_dsql_retry repeats an operation that lost to a
-- concurrent one, so an operation is one transaction, whose failures are among the
-- environment's. The local clock of the lease check in _evaluate_policy is the server's. A
-- timeout of a policy call is an answer of the environment. Loops are structural recursion on
-- the rows and events that were read, so only two functions run on fuel:
-- get_or_create_surface_thread, which never needs a second round, and all_pages, which needs
-- more rounds than there are tasks. A policy request leaves out the agent id and the runtime,
-- which are constants. The checks and unique keys of the schema are modelled where a statement
-- of the operations can violate them. Logging has no effect on the tables or the services and is
-- left out. In Handlers the database may fail at every step, and a transaction of a handler may
-- commit with its caller told otherwise; the claim's own `fail_ingress` is such a transaction
-- too.
--
-- Not modelled: get_task and the status messages of a task's view, the other commands of the
-- administrator, the projection of a task into Slack messages, the adapters of the services,
-- entry points, the web applications.
mod Common
pub mod Store
pub mod Runtime
pub mod Scheduler
pub mod Push
pub mod Admin
pub mod Threads
pub mod Slack
pub mod Sink
pub mod Turns
pub mod Service
pub mod Handlers
mod Tests
