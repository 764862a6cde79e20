-- ===== src/Lib.antt =====
-- This library models a Go instrumentation library: the packages `tags` and `stats`, which record measurements
-- under tags and aggregate them into views, and the gRPC plugin, which records every call of a client and of a server.
--
-- The program and the files that model it (paths from the repository's root):
--
-- - `tags/key.go`, `tags/keys_manager.go`: Tags/Key and Tags/KeysManager, the keys of tags and their process-wide
--   registry. A pointer to a key is an address with the object it points to. A method of the registry holds
--   its mutex throughout, so it is one step on the record `KeysManager`.
-- - `tags/tag.go`, `tags/tag_set.go`, `tags/tag_set_builder.go`: Tags/TagSet. The Go map of a tag set is an
--   association list (Base/GoMap), whose order is the order of the iteration; a built builder holds nil.
-- - `tags/tag_set_codec.go`: Tags/Buffer is the growing buffer that the encoder and the decoder share, Tags/Varint
--   the two varint functions of Go's `encoding/binary`, Tags/Codec the encoder (Encode), the reading of
--   single values (Reader), the decoder (Decode), which creates keys in the registry, and what is there for
--   integers (Integers).
-- - `tags/values_bytes.go`: Tags/Values, the values of a tag set for the keys of a view, by which package
--   stats files its data; Tags/Values/Sort stands for `sort.Slice`.
-- - `stats/aggregation.go`, `stats/aggregation_value.go`: Stats/Aggregation, counts and distributions.
-- - `stats/aggregator.go`, `stats/aggregator_cumulative.go`, `stats/aggregator_slidingtime.go`,
--   `stats/aggregator_slidingcount.go`, `stats/window.go`: Stats/Aggregator, Stats/SlidingTime and Stats/SlidingCount, with
--   the circular slices of both in Stats/Ring.
-- - `stats/measure.go`, `stats/measure_int64.go`, `stats/measure_float64.go` and the maps of `stats/worker.go`:
--   Stats/Registry. Measures and views are addresses; what never changes about them is given by `Objects`.
-- - `stats/view.go`, `stats/collector.go`, `stats/subscription.go`: Stats/View, with the comparisons of rows in
--   Stats/View/Rows and those of their values in Stats/Aggregation/Equal.
-- - `stats/worker.go`, `stats/worker_commands.go`: Stats/Commands (the state and the requests), Stats/Handlers (one
--   function for each `handleCommand`) and Stats/Worker (the report and the loop over what is received). The
--   worker is one goroutine, so a request is handled whole before the next one.
--
-- - `tags/context.go`: Grpc/Context, over an interface of what the plugin uses of contexts.
-- - `plugins/grpc/handlers.go`: Grpc/Composite, a handler that calls handlers.
-- - `plugins/grpc/stats/client_handler.go`, `plugins/grpc/stats/server_handler.go`: Grpc/Client and Grpc/Server, with
--   Grpc/Method for the names of methods and Grpc/Process for the state and for what both sides share. What a
--   handler records is a request to the worker of package stats, in the list `sent`. Grpc/Life is gRPC driving a
--   handler through one call, with events of other calls in between; Grpc/Propagation joins a client, the
--   transport and a server.
-- - `plugins/grpc/stats/types.go`, `plugins/grpc/stats/client_metrics.go`, `plugins/grpc/stats/server_metrics.go`:
--   Grpc/Defaults, the default keys, measures and views and their registration through Stats/Api.
--
-- The worker files a sample by the values string of its tag set, finds or makes the aggregator of that
-- string, and reads the tags back from the string for each row it reports.
--
-- How code becomes definitions: a function that can panic or fail returns a `Result` (Base/Outcome) or, where
-- a panic is its only failure, an `Option` (Base/Panic). Bytes are numbers below 256, and a string is its
-- bytes. A 64-bit integer is its pattern and wraps around modulo 2 ^ 64. Floats are an interface
-- (Stats/Float64) without laws. Times and durations are natural numbers of nanoseconds, and the multiples of a
-- duration that a window of time computes wrap around like int64. Which channels a report can send to, and which
-- of them are closed, is a parameter of the report, since their owners decide on it. A nil measure is the
-- address 0: a request that uses it panics.
--
-- Fuel: the decoder's loop gets the number of bytes of its input, of which each round reads one at least. A uint64 has at
-- most ten groups of seven bits, and the varint loop gets the nine rounds after the first. The loop that
-- moves a window of time on gets one round more than there are nanoseconds up to now, each round
-- moving the end of the current entry on by one nanosecond at least where subintervals are not empty.
-- Where they are empty the Go loop does not end, and the model runs out of any fuel.
--
-- The exported functions of `stats/worker.go` are in Stats/Api: a call is the handling of its request with the
-- wait for its answer. Calls that overlap are requests that the loop takes one after the other.
--
-- Not modelled: printers; that a row of a cumulative window shares its value with the aggregator, so that it
-- goes on changing after it was sent (a row holds the value of its moment here); negative durations and
-- numbers of subintervals of windows; a nil tag set in a context; views made with
-- a nil window, aggregation or key; the logs of the gRPC plugin, and the packages context
-- and gRPC themselves, which are parameters with their documented behaviour as hypotheses; and `samples`, a
-- demonstration.
pub mod Base
pub mod Tags
pub mod Stats
pub mod Grpc
