-- ===== src/Grpc/Defaults/ClientMetrics.antt =====
-- plugins/grpc/stats/client_metrics.go: the default measures and views of a gRPC client.
use instrumentation_go.Base.{List, [], ◌∷◌, codes}
use instrumentation_go.Tags.Key.{key_string}
use instrumentation_go.Stats.Float64.{Float64}
use instrumentation_go.Stats.Aggregator.{window_cumulative}
use instrumentation_go.Stats.View.{View, new_view}
use instrumentation_go.Grpc.Process.{Variables, Measures}
use instrumentation_go.Grpc.Defaults.{
  MeasureInfo, new_measure, call_keys, unit_byte, unit_count, unit_millisecond, agg_count,
  agg_dist_bytes, agg_dist_millis, agg_dist_counts, window_sliding_hour, window_sliding_minute,
}

abbrev pub client_measures : Measures → List MeasureInfo
client_measures ms =
    new_measure ms.error_count (codes "/grpc.io/client/error_count") (codes "RPC Errors") unit_count
    ∷ new_measure ms.latency (codes "/grpc.io/client/roundtrip_latency")
        (codes "RPC roundtrip latency in msecs") unit_millisecond
    ∷ new_measure ms.request_bytes (codes "/grpc.io/client/request_bytes") (codes "Request bytes")
        unit_byte
    ∷ new_measure ms.response_bytes (codes "/grpc.io/client/response_bytes")
        (codes "Response bytes") unit_byte
    ∷ new_measure ms.started_count (codes "/grpc.io/client/started_count")
        (codes "Number of client RPCs (streams) started") unit_count
    ∷ new_measure ms.finished_count (codes "/grpc.io/client/finished_count")
        (codes "Number of client RPCs (streams) finished") unit_count
    ∷ new_measure ms.request_count (codes "/grpc.io/client/request_count")
        (codes "Number of client RPC request messages") unit_count
    ∷ new_measure ms.response_count (codes "/grpc.io/client/response_count")
        (codes "Number of client RPC response messages") unit_count
    ∷ []

abbrev pub client_views : {R : Type 0} ⦃f : Float64 R⦄ → Variables → List (View R)
client_views v =
    new_view (codes "grpc.io/client/error_count/distribution_cumulative") (codes "RPC Errors")
      (key_string v.key_op_status ∷ key_string v.key_service ∷ key_string v.key_method ∷ [])
      v.client.error_count agg_count window_cumulative
    ∷ new_view (codes "grpc.io/client/roundtrip_latency/distribution_cumulative")
        (codes "Latency in msecs") (call_keys v) v.client.latency agg_dist_millis window_cumulative
    ∷ new_view (codes "grpc.io/client/request_bytes/distribution_cumulative")
        (codes "Request bytes") (call_keys v) v.client.request_bytes agg_dist_bytes
        window_cumulative
    ∷ new_view (codes "grpc.io/client/response_bytes/distribution_cumulative")
        (codes "Response bytes") (call_keys v) v.client.response_bytes agg_dist_bytes
        window_cumulative
    ∷ new_view (codes "grpc.io/client/request_count/distribution_cumulative")
        (codes "Count of request messages per client RPC") (call_keys v) v.client.request_count
        agg_dist_counts window_cumulative
    ∷ new_view (codes "grpc.io/client/response_count/distribution_cumulative")
        (codes "Count of response messages per client RPC") (call_keys v) v.client.response_count
        agg_dist_counts window_cumulative
    ∷ new_view (codes "grpc.io/client/roundtrip_latency/minute_interval")
        (codes "Minute stats for latency in msecs") (call_keys v) v.client.latency agg_dist_millis
        window_sliding_minute
    ∷ new_view (codes "grpc.io/client/request_bytes/minute_interval")
        (codes "Minute stats for request size in bytes") (call_keys v) v.client.request_bytes
        agg_count window_sliding_minute
    ∷ new_view (codes "grpc.io/client/response_bytes/minute_interval")
        (codes "Minute stats for response size in bytes") (call_keys v) v.client.response_bytes
        agg_count window_sliding_minute
    ∷ new_view (codes "grpc.io/client/error_count/minute_interval")
        (codes "Minute stats for rpc errors") (call_keys v) v.client.error_count agg_count
        window_sliding_minute
    ∷ new_view (codes "grpc.io/client/started_count/minute_interval")
        (codes "Minute stats on the number of client RPCs started") (call_keys v)
        v.client.started_count agg_count window_sliding_minute
    ∷ new_view (codes "grpc.io/client/finished_count/minute_interval")
        (codes "Minute stats on the number of client RPCs finished") (call_keys v)
        v.client.finished_count agg_count window_sliding_minute
    ∷ new_view (codes "grpc.io/client/request_count/minute_interval")
        (codes "Minute stats on the count of request messages per client RPC") (call_keys v)
        v.client.request_count agg_count window_sliding_minute
    ∷ new_view (codes "grpc.io/client/response_count/minute_interval")
        (codes "Minute stats on the count of response messages per client RPC") (call_keys v)
        v.client.response_count agg_count window_sliding_minute
    ∷ new_view (codes "grpc.io/client/roundtrip_latency/hour_interval")
        (codes "Hour stats for latency in msecs") (call_keys v) v.client.latency agg_dist_millis
        window_sliding_hour
    ∷ new_view (codes "grpc.io/client/request_bytes/hour_interval")
        (codes "Hour stats for request size in bytes") (call_keys v) v.client.request_bytes
        agg_count window_sliding_hour
    ∷ new_view (codes "grpc.io/client/response_bytes/hour_interval")
        (codes "Hour stats for response size in bytes") (call_keys v) v.client.response_bytes
        agg_count window_sliding_hour
    ∷ new_view (codes "grpc.io/client/error_count/hour_interval")
        (codes "Hour stats for rpc errors") (call_keys v) v.client.error_count agg_count
        window_sliding_hour
    ∷ new_view (codes "grpc.io/client/started_count/hour_interval")
        (codes "Hour stats on the number of client RPCs started") (call_keys v)
        v.client.started_count agg_count window_sliding_hour
    ∷ new_view (codes "grpc.io/client/finished_count/hour_interval")
        (codes "Hour stats on the number of client RPCs finished") (call_keys v)
        v.client.finished_count agg_count window_sliding_hour
    ∷ new_view (codes "grpc.io/client/request_count/hour_interval")
        (codes "Hour stats on the count of request messages per client RPC") (call_keys v)
        v.client.request_count agg_count window_sliding_hour
    ∷ new_view (codes "grpc.io/client/response_count/hour_interval")
        (codes "Hour stats on the count of response messages per client RPC") (call_keys v)
        v.client.response_count agg_count window_sliding_hour
    ∷ []
