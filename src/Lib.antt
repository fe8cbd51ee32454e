-- ===== src/Lib.antt =====
-- vicoop-bridge connects A2A callers to agents that run behind a client on another machine. The
-- server (packages/server) takes a caller's task, binds its task id to an execution, and sends it
-- over a WebSocket to the client (packages/client) that serves the agent. The client answers with
-- numbered frames (packages/protocol), which the server checks, acknowledges and passes on to the
-- caller's stream. A connection that drops leaves its bindings under a grace hold for as long as a
-- reconnect may bring the missing frames.
--
-- Prelude: numbers, texts, lists, equality as an instance, and `Dict`, JavaScript's `Map` as a list
-- of entries in the order of insertion.
--
-- Protocol: the frames of packages/protocol/src/index.ts. Values: JSON. Content: messages, parts,
-- statuses, artifacts, and `part_to_a2x` for packages/server/src/parts.ts. Frames: `UpFrame`,
-- `DownFrame` and the capabilities. A frame is the value that its schema has parsed.
--
-- Protocol/FederatedPrincipal: packages/protocol/src/federated-principal.ts, on texts as lists of code
-- points, so that their lengths in UTF-8 and in UTF-16 can be counted.
--
-- Server: packages/server/src.
--   State: the fields of `Registry` (registry.ts) and `ToolApprovals` (tool-approvals.ts). A task
--   binding is a shared mutable object, so it stands in a heap, and `===` is equality of references.
--   The calls on a stream and on a socket are recorded in order. A timer is an entry with the time
--   at which it is due, and `now` is the clock.
--   Registry: one function for each method of registry.ts that is modelled, with the source's name in
--   snake case (`registerAgent` is `register_agent`); a loop is a fold over the snapshot that the source
--   iterates, so it needs no fuel. The callback of a hold's timer is `fire_timer`.
--   Receipts: the terminal receipts of registry.ts.
--   Approvals, ApprovalTick: tool-approvals.ts; `received` is `acknowledge_received`, and the timer
--   callback of `tick` is `on_tick`.
--   TerminalError, WireStatus, AgentIds: terminal-error.ts, the translations of ws.ts and
--   `approvalStatus`, reserved-agent-ids.ts.
--   Acceptance: `acceptTaskFrame` of ws.ts and what it calls. Frames: `processAuthedFrame`, one
--   function for each case of its switch. Connection: `authenticateAndRegister`, card-resolver.ts
--   and the handlers of `handleConnection`; the token lookup is asynchronous, so its continuation
--   `on_authenticated` is an event of its own, which may come after the close.
--   Reachable: all of these as the steps of a relation, in any order.
--   Below these, Registry/Sound is the invariant, and Preservation and Operations are about it;
--   Acceptance/Laws, Effect, Once and Rejected are about the acceptance of frames, Registry/Hold,
--   Release and Disconnect about closes, Approvals/Decisions about decisions, Connection/Authority
--   about what a socket may do, Receipts/Laws about receipts. Frames/Replay folds
--   `processAuthedFrame` over the frames of a replay that leave a task running. Fixtures and Examples
--   hold tests.
--
--   EventQueue: event-queue.ts, its queue together with the generator of its one consumer; `Call` is
--   what may be called, and Fifo is about any sequence of calls.
--
--   UsageRpc: usage-rpc.ts; what its promises came to is recorded, its timer is `on_usage_timer`, and
--   Once is about how often a request is settled.
--   Principal: auth/principal.ts, on the texts of Protocol/FederatedPrincipal; `toLowerCase` is a
--   parameter. Unverified is about what a caller claims of its email.
--   Payments: x402/gate.ts over the `MerchantGate` of the SDK and the other names that it takes from
--   there, a parameter `Sdk` whose answers may depend on all calls made in the turn. Payments/Usage:
--   x402/usage.ts.
--   Executor: executor.ts. Request: what a turn starts from. Dispatch: `executeStream` up to its loop;
--   the waits for the payment gate and for the store split it into `admit`, which reads the registry,
--   and `begin_turn`, which changes it. Stream: its loop, as a fold over what the queue yields, which
--   needs no fuel, and what follows. Settlement: `settleTerminal`. Artifacts, Metadata: the functions
--   on history, artifacts and metadata. Cancel: `cancelCurrent`. Below these, Stream/Paid, Withheld and
--   Closed are about what a caller is shown, Dispatch/Untouched and Sound about the registry,
--   Artifacts/Chunks about chunks, Metadata/Forwarded about what is forwarded.
--   TaskStore: postgres-task-store.ts, one task's row; `updateTask` and `markExecution` lock it, so that
--   each is one function. The state of `executionWriter` (execution-marker.ts) is an argument of the
--   first and a result of the second. Marker: execution-marker.ts, and what is stripped before a
--   write. Latest, Superseded and Private are about the marker, about late writes, and about what does
--   not stay in a row.
--   CallerContext: caller-context.ts, over the schemas in Protocol/CallerContext, and the caller that
--   the executor puts into a task; Executor takes of it only whether there is one. RoundTrip is about
--   what an agent reads of it.
--   ExecutionScope: execution-scope.ts. The hash is a parameter, of which only the result's form is
--   checked, as the source does; Preimage is about what is hashed, Authority about who gets a scope.
--
-- Client: packages/client/src.
--   State: the fields of `Client` (client.ts). Runs are shared objects, so they stand in a heap; the
--   calls on a socket are recorded in order; a retained text is the frame that it encodes, with its
--   number of bytes. A limit of the options is a `Setting`, since it may be missing or not finite.
--   Pending: the replay buffer, its acknowledgements and its expiry. Pending/Sending: how frames are
--   sent and replayed, over the length of a frame's JSON, a parameter. Connection: the handlers of a
--   socket and of the timers, named after the event. Connection/Runs: `runTask` in its two halves,
--   `begin_run` and `end_run`, since it waits for a backend between them, and cancellation.
--   Reachable: all of these as the steps of a relation. Below it, Retained is the invariant of the
--   buffer with one module for each group of operations, Delivery is about the fate of a frame, and
--   Closing and Closing/Back about the ends of a connection.
--   RemoteApproval: remote-approval.ts. A promise that waits is an entry, and what promises resolved to
--   is recorded; Decisions is about the answers, Single about the requests that wait.
--   Scheduler: caller-execution-scheduler.ts. A lease that was not given back is an entry, so that
--   giving it back again does nothing, as the source's flag has it. The loop of `drain` runs on fuel:
--   the number of executions that the global limit still allows, since each round starts one.
--   Scheduler/Limits is about its counters, Scheduler/Leases about the leases that are out. Fixtures
--   and Examples hold tests.
--
-- Replay: a client and a server together, after a reconnect.
--
-- Not modelled: logs and audit events, since nothing reads them back; the database behind the
-- token lookup, whose answer is an argument; the pricing of an agent; of registry.ts, the
-- parsing of the grace time, `serializeDispatch`, the updates of a live agent's callers and
-- pricing, and the listeners, of which the calls are recorded; the call of
-- `resolveUsageResponse` in ws.ts, since UsageRpc is modelled by itself. In Reachable, the
-- executor appears as the steps that create, bind and release a binding; a cancellation, which
-- finishes a stream that is still bound, is modelled in Executor/Cancel only. Of executor.ts:
-- the unary `execute`, the inactivity watchdog, and saves that fail. Of x402: the prices and the
-- store. Of postgres-task-store.ts: reads, listings, retention and the columns of the owner,
-- which are queries. Of client.ts: the probe of a backend's capabilities, whose card is an
-- argument; the random delay of a reconnect, an argument too; `processTask`, whose frames appear
-- as steps that emit any frame; the calls of the approvals' broker, which are recorded, since
-- the broker is modelled by itself. The backends and runtimes of the client, which drive other
-- programs, the admin side and the HTTP side are not modelled.
pub mod Prelude
pub mod Protocol
pub mod Client
pub mod Server
pub mod Replay
