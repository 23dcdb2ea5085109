-- ===== src/Lib.antt =====
-- Nephtys, a gateway that runs stream sources (websocket, SSE, REST polling, webhook, gRPC), puts
-- their events through a configurable pipeline and publishes them to NATS JetStream.
--
-- The parts and how they interact. The stream manager (internal/server/manager.go) admits a
-- stream: it checks the id and the port claim, builds a pipeline generation, opens the source,
-- persists the configuration (internal/store/kv.go) and starts a supervisor. The supervisor runs
-- the source's sessions (internal/connector) under a restart policy (internal/server/restart.go).
-- A session publishes through the generation in force (internal/pipeline), whose chain ends in the
-- broker (internal/broker/nats.go). A REST request passes the guard (internal/server/auth.go) and
-- the routes (internal/server/server.go); the handlers (internal/server/handlers.go) decode and
-- validate it (internal/server/validate.go) and call the manager; what they serve of a stream's
-- configuration and errors is redacted (internal/server/redact.go). The command
-- (cmd/nephtys/main.go) wires the parts together, and checks a configuration by the same functions.
--
-- The files, each after the code that it models:
--   Domain/Event, Config, StringList
--                                 internal/domain/event.go
--   Pipeline/Validate             internal/pipeline/validate.go
--   Pipeline/Dedup                internal/pipeline/dedup.go; Dedup/Spec is what it promises
--   Pipeline/Batch                the worker of internal/pipeline/batch.go
--   Pipeline/Generation           internal/pipeline/generation.go with the goroutines of batch.go
--   Pipeline/Chain                internal/pipeline/pipeline.go
--   Pipeline/Middleware           filter.go, transform.go, enrich.go and threshold.go beside it
--   Pipeline/Builder              internal/pipeline/builder.go
--   Server/Restart                internal/server/restart.go
--   Server/Validate, Decode       internal/server/validate.go
--   Server/Supervisor             supervise of internal/server/manager.go
--   Server/Manager                StreamManager of internal/server/manager.go
--   Server/Handlers, Health       internal/server/handlers.go and health.go
--   Server/Auth, Routes           internal/server/auth.go and server.go
--   Server/Redact                 internal/server/redact.go; Redact/Message is redactForAPI
--   Store                         internal/store/kv.go
--   Broker                        encodeEvent and Publish of internal/broker/nats.go
--   Broker/Connection             its connection, stream and probes
--   Connector/Sse                 the read loop of internal/connector/sse.go; Sse/Session is Run
--   Telemetry                     internal/telemetry/metrics.go
--   Connector/Webhook, Websocket, RestPoller, Grpc, Redact
--                                 the files of these names in internal/connector
--   Connector/Payload             the wrapping of a payload that they share
--   Config                        internal/config/config.go
--   Process                       cmd/nephtys/main.go
--   Replay                        docs/replay/consumer.go; Replay/Line is printMessage
--   Host                          the calls of Go's standard library that stay parameters, and
--                                 in Host/Text the splitting and joining of texts
--   Prelude, Fixtures             shared helpers, and the values that the tests share
-- A function keeps its name in snake case; a handler or an operation takes the state and returns
-- it, and an error is a value. The children of a part hold what is proved of it, the Tests modules
-- concrete inputs.
--
-- How the state is modelled. A Go map is Prelude/Map: the newest entry of a key is in force, and a
-- range sees each key once. A generation is a machine: `act` is one step of one goroutine, `run`
-- any interleaving. The manager's lock makes each operation one function; UpdatePipeline is the two
-- halves between which it gives the lock up, and Server/Manager/Reach interleaves everything. The
-- supervisor's loop goes through a list of turns, a turn being what the source, the clock and the
-- cancellation answer in one pass: no fuel is needed, and a theorem on any list of turns is one on
-- every run. The loops of the connectors and of the replay consumer go through what the network
-- answers in the same way. The only fuel is in Host/Decimal, where it is the number that is printed
-- plus one. The KV bucket, the server's streams and the registry of metrics are interfaces, whose
-- documented laws are records named Documented (Store/Entries, Broker/Ensured, Telemetry/Life).
--
-- Numbers. A duration is a count of nanoseconds in ℤ, an int is a ℤ that Atoi bounds by 2 ^ 63; a
-- finite float64 counts multiples of 2 ^ -1074, and the threshold's comparison also has the
-- infinities and NaN. Counters of metrics, sizes and times are ℕ and do not wrap around: none
-- reaches 2 ^ 63 in the life of a process.
--
-- Not modelled: what goes over the network (seen through what it answers), the path cleaning of
-- http.ServeMux, the values of counters and histograms, logging, flags, the load generator, generated
-- gRPC stubs.
pub mod Prelude
pub mod Domain
pub mod Host
pub mod Pipeline
pub mod Broker
pub mod Store
pub mod Telemetry
pub mod Process
pub mod Replay
pub mod Config
pub mod Connector
pub mod Server
pub mod Fixtures
