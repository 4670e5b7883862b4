-- ===== src/Lib.antt =====
-- The certificate proxy: a gRPC server that stands between the sender of certificates and the
-- agglayer, holds suspicious certificates back for a configured delay, and can be stopped.
--
-- Paths are given from the root of the repository.
--
-- The parts, and the files that model them:
--   Store, Store/Initial: the SQLite file, internal/certificate/sqlite.go and models.go. World holds
--     the tables; every statement is a list operation, GetProcessableCertificates is
--     get_processable_certificates and so on. Store/Duration has the int64 durations of Go.
--   Service: internal/certificate/service.go. ProcessPendingCertificates reads the rows that are
--     due from the store and passes each on with SendToAggSender.
--   Scheduler: internal/certificate/schedule.go, the task of one interval: it reads the status that
--     the kill switch sets and calls the service.
--   Grpc, Suspicion, Metadata, BigEndian: internal/certificate/grpc.go. SubmitCertificate asks the
--     service whether the chain is delayed and Suspicion what the certificate is worth, and either
--     stores the certificate or sends it at once; GetCertificateHeader answers from the table while
--     a certificate waits.
--   Tokens: internal/certificate/tokens.go, the configured dollar values.
--   Hashing: internal/certificate/hashing.go, the identifier of a certificate.
--   Api: internal/certificate/api.go, the handlers of the kill switch, of the restart and of the
--     override. handle_switch is what the first two share. Pages: the pages of the same file, as the
--     data that they print; Pages/Texts has formatAmount and truncateJSON.
--   Proto: the messages under pkg/proto, each pointer as an option.
--   Proxy: internal/certificate/proxy_handler.go and proxy.go. The two forwarding goroutines of a call
--     are records, the select of the handler two functions, and Proxy.Step lets them take turns in
--     any order.
--   Metrics: internal/metrics/updater.go and prometheus.go, with the sums in Metrics/Totals.
--     Metadata/Decoding has what is read back from the summary that Metadata writes.
--   Loader: internal/certificate/marshal.go, over the values of Decoded. Loader/Form is a printer of
--     its own, for the round trip.
--   Startup: cmd/proxy/main.go from the flags to the servers, which calls the store, the service, the
--     token values and the reporter of the metrics.
--   Text, Json: the functions of the Go library that the code calls, on bytes.
--   System: the calls of the handlers, of the server and of the scheduler over one state.
--   Examples: concrete inputs for the theorems.
--
-- A stateful function is a map from World to an outcome and a World (World.M). An outcome is a
-- value, an error, or a panic. World.Env is what lies outside of the repository: the clock, the
-- driver (a statement may fail at any time), bcrypt, the encoding of messages, the remote calls,
-- and keccak256, of which Ethereum.IsKeccak names what is relied on. The number of a statement,
-- of a reading of the clock or of a call is an argument of each answer.
--
-- Bounds: numbers are natural numbers. The parsers of numbers, the durations, bytesToUint64 and the
-- 32-byte amounts keep the wrap-around or the cut of the source; sums of big.Int have none. Times
-- are nanoseconds from some beginning. A printed number has at most 20 digits, which is enough for
-- a uint64.
--
-- Not modelled: the servers, the signals and the shutdown (I/O), the health endpoint, and the loops
-- that call UpdateMetrics. But for the streams of the proxy, calls run one
-- after the other: the model has no interleaving of two handlers. A float64 is a mantissa and an
-- exponent; its conversions, json.Unmarshal, time.ParseDuration and the division of big.Float are
-- parameters. Writing a response is taken to succeed, and text other than ASCII is not folded to
-- lower case.
mod Prelude
pub mod Text
pub mod Proto
pub mod BigEndian
pub mod Tokens
pub mod Ethereum
pub mod Hashing
pub mod Json
pub mod World
pub mod Store
pub mod Service
pub mod Scheduler
pub mod Metadata
pub mod Suspicion
pub mod Grpc
pub mod Api
pub mod System
pub mod Decoded
pub mod Loader
pub mod Startup
mod Examples
pub mod Proxy
pub mod Metrics
pub mod Pages
