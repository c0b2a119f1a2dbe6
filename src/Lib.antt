-- ===== src/Lib.antt =====
-- The agent runtime: runs are created in a repository, leased by workers, executed by an engine that
-- talks to a model and to tools, and their events published from an outbox.
--
-- The parts, and the files that model them:
--   * Domain.antt: internal/domain/types.go. Times are nanoseconds since the zero time as natural
--     numbers, durations and Go's `int` are integers that wrap at 64 bits (Prelude/Int.antt), and
--     `json.RawMessage` is its text.
--   * Store.antt and Store/: internal/store/store.go and hash.go (records, the terminal statuses,
--     RequestHash), and internal/store/memory.go in Store/Memory/, a file for each group of methods.
--     The state behind the mutex is the record MemoryRepository; a method is a function that returns
--     the next state and the result, with an error as a value, and since every method holds the
--     mutex an interleaving of clients is a list of calls (Store/History.antt). A Go map is an
--     association list with distinct keys, in an order of its own. Store/Interface.antt is the
--     interface that the worker and the HTTP API use.
--   * Model.antt: internal/model/model.go.
--   * Engine.antt and Engine/: internal/engine. State.antt is state.go; Emit.antt has the closures
--     of Execute that send events, Turn.antt is runModelTurn, Tools.antt executePendingTools, and
--     Loop.antt the rest of Execute. The clock, the context, the consumer of the output channel, the
--     adapter and the tools are a record of functions on a state of their own
--     (Engine/Environment.antt), so that each answer may depend on all that happened before. The
--     channels of a model turn are the list of what the `select` receives, in any order.
--   * Worker.antt and Worker/: internal/worker/worker.go over the interface. What `select` receives
--     in executeLease is a list, in which others may change the repository between any two steps;
--     the heartbeat is seen by the errors that it reports and the changes that it makes.
--   * Outbox.antt and Outbox/: internal/outbox/outbox.go and publisher.go, with the repository, the
--     sink and the clock as a record of functions.
--     Table.antt has the statements of internal/outbox/postgres/repository.go on the table of
--     migrations/001_runtime.up.sql and 002_outbox_leasing.up.sql.
--   * Schema.antt and Schema/: internal/schema/validator.go on decoded JSON. A read of a Go map is a
--     scan of the fields of an object, and a type assertion that fails is an outcome of its own.
--   * Tool.antt and Tool/: internal/tool/registry.go, over handlers that change a world.
--   * Http.antt and Http/: internal/httpapi/handler.go over the interface. Request.antt has requests,
--     replies and checks, Runs.antt createRun and getRun, Events.antt streamEvents; a stream is a list
--     of rounds, each with the changes that others make between its reads, and the connection says
--     which writes succeed.
--   * Adapter.antt and Adapter/: internal/model/openaicompat/adapter.go (Call.antt, Chunks.antt,
--     Emission.antt, Consume.antt, Cost.antt) and internal/model/fake/adapter.go (Fake.antt). Each
--     `select` on the context either goes on or finds it done. Body.antt is about the request.
--   * Postgres.antt and Postgres/: internal/store/postgres/repository.go, each method as one step on
--     the tables of migrations/001_runtime.up.sql (Tables.antt, Methods.antt, Leases.antt).
--   * Scenarios.antt and Scenarios/: concrete runs.
--
-- Bounds and fuel. uint64 counters wrap at 2^64, `int` sums at 2^63. The loop of Execute runs on
-- fuel, 2 * MaxTurns + 3 rounds, which is enough: a turn takes a round for the model and a round for
-- its tools, and the turn after the last is refused. It is assumed that limits are far from the
-- range of `int` (below 2^62 tool calls), that a model turn receives fewer than 2^62 items and ends,
-- and that the context has an error once it is done (IsModest and Laws, Engine/Soundness.antt).
-- The buffer of the output channel is not counted. A send of `emit` is taken to come to its end: the
-- consumer receives, or ends the context. The plain send of emitTerminal may be taken or not; if the
-- buffer is full and the consumer has stopped, the goroutine waits in it for ever, which is an ending
-- of its own (`never_closes`).
--
-- Not modelled: the commands, which read flags and environment variables, build the parts and print.
-- PostgreSQL is taken to execute the statements as its documentation says, with each transaction as
-- one step, and to keep the identifiers of the outbox distinct. A database error that rolls a
-- transaction of the run repository back is left out. JSON, SHA-256, hexadecimal, HTTP, URLs and
-- line scanning are parameters (Encoders, Codec, Decoding, JsonCodec, HttpResponse). The copies that
-- the Go code makes of records are not visible in values. The ticker loops of Worker.Run and
-- Publisher.Run are left out, and so are the capabilities of adapters, which nothing reads.
pub mod Prelude
pub mod Domain
pub mod Store
pub mod Model
pub mod Engine
pub mod Worker
pub mod Outbox
pub mod Schema
pub mod Tool
pub mod Http
pub mod Adapter
pub mod Postgres
pub mod Scenarios
