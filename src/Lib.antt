-- ===== src/Lib.antt =====
-- Xyllo, a telemetry ingestion service in Go: what its packages do, and what they guarantee.
--
-- An HTTP request (internal/ingestor) passes authentication (internal/auth), is translated into a
-- canonical event (internal/translator) and is queued by the dispatcher (internal/dispatcher),
-- whose workers run each payload through the chain of handlers (internal/middleware, with the rate
-- limiter). What passes goes to the batcher (internal/batcher), what does not goes to the dead
-- letter queue (internal/dlq) with an error of internal/xlerr as its reason. Events also come from
-- Redis streams (internal/streamingestor over internal/redisstore). All report to internal/metrics,
-- and config/ says how they are built.
--
-- Base: shared names and helpers. A Go string and a byte slice are lists of bytes (Bytes); an int,
--   int64 or time.Duration (in nanoseconds) is an integer (ℤ); a map is an association list.
-- Config: the structs of config/config.go. Config.Load: defaults, validate and Load; the files, the
--   environment and the YAML decoder are its parameters. Its children are about what it accepts and
--   returns. Config.Durations: BatcherConfig.UnmarshalYAML, with time.ParseDuration.
-- Metrics: internal/metrics/metrics.go. An active provider is the sequence of calls that it has
--   received, which is what any implementation of the interface is given. Metrics.Prometheus is
--   internal/metrics/prometheus.go over the client library as a parameter.
-- Xlerr: internal/xlerr/xlerr.go, with Go's error values and their texts.
-- Batcher: internal/batcher/batcher.go. `exported` holds each batch that Flush takes out.
-- Middleware: internal/middleware. Bucket is ratelimit.go; the chain is middleware.go, with the two
--   validators in Validators.
-- Json: what the code uses of encoding/json: a parser (Json.Parse), the decoding of an object into
--   a map (Json.Objects), and an encoder (Json.Encode). Its other children relate the two: Steps
--   takes a reading apart, Rewriting says which changes of a text keep the value that is read from
--   it, and Compact and Append are two such changes.
-- Dlq: internal/dlq/dlq.go. The outcome of a call of the operating system is an argument. The file
--   and the log hold entries; Dlq.Lines and Dlq.Recovery are about the lines that encode them.
-- Auth: internal/auth/auth.go. The JWT library is a parameter.
-- Translator: internal/translator/translator.go; texts of decoding errors are a parameter.
-- Pool: internal/pool/pool.go.
-- Ingestor: internal/ingestor/ingestor.go, from the routes to the handlers. There a pooled payload
--   is a value; Ingestor.Arrays is about the arrays that payloads keep and that an event's body may
--   share until it is serialised. Ingestor.Startup is Start: what its listeners do is a sequence of
--   events.
-- RedisStore: internal/redisstore/redisstore.go, by what Redis answers.
-- StreamIngestor: internal/streamingestor/streamingestor.go: the setup of the groups and the loop
--   of one region's consumer. Ends is about the loop's end.
-- Dispatcher: internal/dispatcher/dispatcher.go as a state with one function for each step of a
--   goroutine (`submit`, `work`, `close_buf`), and schedules of such steps in any order (`runs`).
--   Moves lists the transitions; the other children are about whole schedules.
-- System: the parts together, as an interleaving of requests, stream messages and steps of the
--   dispatcher (`happen`, `history`), with what clients and Redis are told of each. Samples: data
--   that several tests share.
--
-- The steps of a worker are: the receive from the channel; the chain's handlers on the payload with
-- the batcher's append or the reports to the metrics; the push of a dead letter; and the flush. A
-- push and a flush hold a lock throughout. The step of the chain is one although its handlers take
-- their locks one after another: the shared state that it touches (limiter, metrics, clock) is
-- passed through the chain in order. The clock may go on between any two steps. Shutdown's wait is
-- the state in which all workers have returned; Drain bounds the workers' steps up to it. Loops run
-- over lists. Only the JSON parser, the printing of decimals and the reading of durations take
-- fuel: more than twice the length of the text, of which each second nested call has read a byte
-- (Json.Fuel), 20 digits for 64 bits, and the length of the text, of which each round reads a byte
-- (Config.Durations.Rounds).
--
-- Left out: rounding of floats (a token is 10^9 units, so the products are exact), overflow of
-- counters, unbuffered channels, log output other than the dead letters', the text of a JSON
-- decoding error, invalid UTF-8 in JSON strings, values nested deeper than 10,000 levels, which
-- encoding/json refuses, a nil payload of a dead letter, which is written as null, the path,
-- handler and timeouts of the HTTP servers, what the Redis client library does, and the goroutines
-- and the WaitGroup of the stream ingestor's Start. `exported` of the batcher keeps each batch that
-- Flush takes out, although the source drops it; that a payload was given to the batcher says no
-- more.
pub mod Base
pub mod Config
pub mod Metrics
pub mod Xlerr
pub mod Batcher
pub mod Middleware
pub mod Dlq
pub mod Dispatcher
pub mod Auth
pub mod Json
pub mod Translator
pub mod Pool
pub mod Ingestor
pub mod RedisStore
pub mod StreamIngestor
pub mod Samples
pub mod System
