-- ===== src/Lib.antt =====
-- A verification library for the Lumen SDK, a Go client that finds inference nodes on the local network,
-- balances gRPC calls over them, and validates and assembles the messages it exchanges with them.
--
-- The parts and how they interact. Discovery resolves nodes, each with an identity (a deployment and a
-- node id) whose key names it everywhere (pkg/discovery/operational.go, here Discovery.Identity). The
-- resolver hands their addresses to a gRPC balancer (pkg/client/lumen_balancer.go), which keeps a SubConn
-- for each node, counts its hard failures and lets it cool down, fetches its capabilities, and publishes a
-- picker that routes each call by the task it asks for. The pool (pkg/client/pool.go) normalises the options
-- and reads the registry that the balancer keeps in step. Before a call, pkg/types/task_contract.go and
-- pkg/types/tensor_metadata.go check the request; after it, pkg/types/response_assembly.go puts the chunks of
-- the answer together.
--
-- Base: shared helpers. Base.Text has Go strings as lists of code points, with the functions of the Go
--   library that the program calls; Base.Dict maps as association lists; Base.Unique the loops that keep the
--   first of each name; Base.Int integers; Base.Results errors as values. Base.Text.HostPort has the functions
--   of Go's net package on addresses, Base.Text.Case lower and upper case.
-- Types.Proto: the fields of the protobuf messages. Types.Names: constants.
-- Types.Assembly: AssembleInferResponses. `scan_totals` is its first loop, `fill` the second, `join` the
--   third; Spec, Fill, Join, Complete and Sound have its specification and proofs.
-- Types.Tensor: the descriptor in the metadata (Shape reads its JSON array), validateTensorPayload and the
--   checks of a whole message (Payload), and their meaning (Sound).
-- Types.Tensor.Marshal: the text of a shape; RoundTrip about reading it again.
-- Types.Requests, Types.Floats: the requests of the tasks, their constructors and options, with floating-point
--   numbers as a parameter.
-- Types.Parsers: pkg/types/parsers.go, with the decoding of JSON as an argument.
-- Types.Builder: InferRequestBuilder of pkg/types/builders.go; Tasks has the builders of each task and
--   TensorBatchingKey from pkg/types/task_contract.go; Written, Valid, Faces, Images and Batch about what
--   the validation and the batching make of a built request.
-- Types.Task: ValidateTaskRequest, with Sound and Panics about it. A nil pointer that the code dereferences
--   is an error of its own. The test of an image MIME type belongs to a third-party library and is an
--   argument.
-- Discovery.Identity: NodeIdentity, ResolvedNode, NodeAvailability; Keys has the laws of the keys.
-- Discovery.NodeInfo: what the SDK tells of a node (pkg/discovery/types.go).
-- Discovery.Events, Discovery.Static, Discovery.Mdns: the events of discovery, the static resolver, and the mDNS
--   resolver with its loop of polls (pkg/discovery/resolver.go, static_resolver.go, mdns_resolver.go); Mdns.Sweep
--   and Mdns.Expiry about the loop.
-- Discovery.Wire: the messages of the host broker as events (pkg/discovery/broker_wire.go); Endpoint about the
--   addresses in them.
-- Client.Pool: PoolOptions.normalized, mergeTasks and the other helpers on task lists; Laws about them.
-- Client.Resolver: the resolver of pkg/client/lumen_resolver.go, its events and the addresses that it hands to
--   gRPC; Laws about the nodes that it holds.
-- Client.Chunker: ChunkPayload and the requests that LumenClient.Infer sends (pkg/client/chunker.go,
--   pkg/client/client.go); Laws about the chunks, Requests about the requests for one chunk or several.
-- Discovery.Services: which tasks and services a node offers, with the cache of its tasks (pkg/discovery/types.go).
-- Config: pkg/config/config.go and defaults.go; Config.Env the overrides by environment variables.
-- Client.New: NewLumenClient of pkg/client/client.go, which makes the pool and the resolvers of a configuration.
-- Client.Infer: LumenClient.Infer of pkg/client/client.go with everything that it calls, from the validation
--   to the assembly, InferStream, and the counters of the client, to which each return path has its own
--   additions; Counted and Laws about them.
-- Client.Contracts: FindTaskContract and the contract that it returns (pkg/types/task_contract_helpers.go).
-- Client.Balancer: State has the records of the balancer, the cooldown, the picker's and the registry's
--   rebuilding; Handlers has UpdateClientConnState, the SubConn listener, ExitIdle and Build; Picker has Pick
--   and its Done callback; Fetch the capability fetch and its loop. Machine is the relation of all steps, in
--   which each handler is one step, since it runs under the balancer's lock; Kept and Frame are the rule for
--   invariants of single nodes. Nodes has what the pool reads of the registry.
-- Utils.Breaker: the circuit breaker of pkg/utils/retry.go; Utils.Retry which errors are retried;
--   Utils.Errors: pkg/utils/errors.go.
-- Utils.Health: the checkers of pkg/utils/health.go; Health.Monitor its monitor, whose loops are the goroutines
--   of Start, with Order and Laws about its stop channel.
-- HostBroker.NodeWatch: the hub of pkg/hostbroker/node_watch.go with the messages of wire.go; Laws about what a
--   client knows that receives them.
-- Session: the composition of the hub, the wire format and the resolver of the client: the nodes that a client
--   holds after the messages of the hub, which the read pump of pkg/discovery/broker_resolver.go passes on.
--
-- Bounds and conventions. SubConn states are shared by pointer in the code: a pointer is a number and the
-- balancer's `store` is the memory. Durations are the bit patterns of int64 where the code does arithmetic on
-- them, and doubling a cooldown wraps around; a time is a number of nanoseconds with `none` for the zero time.
-- The number of hard failures of a node is the bit pattern of an int, which wraps around: the invariant on
-- cooldowns is stated for fewer than 2 ^ 63 steps. The picker's counter is the bit pattern of an int64 that
-- wraps around, and a negative index is Go's panic.
-- Go ranges over a map in no fixed order; the models take the order of the association list. The clock, what
-- the network answers, and gRPC's NewSubConn are arguments. The chunker's loop runs on fuel, the length
-- of the payload, which is enough since each round takes a byte at least; the other loops run over lists, and
-- the unbounded loop of the capability fetch is given by its step.
--
-- Not modelled: the protobuf code, which is generated; mDNS queries, WebSocket and HTTP sessions, logging and
-- the service manager of the operating system, which are I/O; the command-line programs; the structs of
-- results and the floating-point operations on them; the loop of retries, which is a third-party
-- library's; the metrics of the client; YAML files.
pub mod Base
pub mod Types
pub mod Discovery
pub mod Client
pub mod Utils
pub mod HostBroker
pub mod Session
pub mod Config
