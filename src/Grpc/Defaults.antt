-- ===== src/Grpc/Defaults.antt =====
-- The variables of plugins/grpc/stats/types.go, and how its `init` creates the default keys, measures
-- and views. `log.Fatalf` and `panic` end the process: both are a panic here.
pub mod ClientMetrics
pub mod ServerMetrics
pub mod Created
pub mod Measured
pub mod Registered
pub mod Initialised
use instrumentation_go.Base.{
  ℕ, ◌*◌, List, [], ◌∷◌, Option, none, some, Bytes, codes, map, Result, ok, err, panics,
  out_of_fuel, ◌>>=◌,
}
use instrumentation_go.Tags.Key.{KeyString, Key, key_string}
use instrumentation_go.Tags.KeysManager.{KeysManager, create_key_string}
use instrumentation_go.Tags.KeysManager as Keys
use instrumentation_go.Stats.Outcome.{Outcome}
use instrumentation_go.Stats.Float64.{Float64}
use instrumentation_go.Stats.Aggregation.{Aggregation, aggregation_count, aggregation_distribution}
use instrumentation_go.Stats.Aggregator.{Window, window_sliding_time}
use instrumentation_go.Stats.Commands.{Objects, Worker, sends_error}
use instrumentation_go.Grpc.Process.{Variables}
use instrumentation_go.Stats.Api.{
  Reply, replies, new_measure_int64, register_view, force_collection,
}

-- What a measure is made of, and the address of the object.
pub record MeasureInfo : Type 0 where
  pub address : ℕ
  pub name : Bytes
  pub description : Bytes
  pub unit : Bytes

abbrev pub unit_byte : Bytes
unit_byte = codes "By"

abbrev pub unit_count : Bytes
unit_count = codes "1"

abbrev pub unit_millisecond : Bytes
unit_millisecond = codes "ms"

abbrev pub minute : ℕ
minute = 60_000_000_000

abbrev pub hour : ℕ
hour = 60 * minute

abbrev pub window_sliding_hour : Window
window_sliding_hour = window_sliding_time hour 6

abbrev pub window_sliding_minute : Window
window_sliding_minute = window_sliding_time minute 6

abbrev pub rpc_bytes_bucket_boundaries : List ℕ
rpc_bytes_bucket_boundaries =
    0 ∷ 1024 ∷ 2048 ∷ 4096 ∷ 16384 ∷ 65536 ∷ 262144 ∷ 1048576 ∷ 4194304 ∷ 16777216 ∷ 67108864
    ∷ 268435456 ∷ 1073741824 ∷ 4294967296 ∷ []

abbrev pub rpc_millis_bucket_boundaries : List ℕ
rpc_millis_bucket_boundaries =
    0 ∷ 1 ∷ 2 ∷ 3 ∷ 4 ∷ 5 ∷ 6 ∷ 8 ∷ 10 ∷ 13 ∷ 16 ∷ 20 ∷ 25 ∷ 30 ∷ 40 ∷ 50 ∷ 65 ∷ 80 ∷ 100 ∷ 130
    ∷ 160 ∷ 200 ∷ 250 ∷ 300 ∷ 400 ∷ 500 ∷ 650 ∷ 800 ∷ 1000 ∷ 2000 ∷ 5000 ∷ 10000 ∷ 20000 ∷ 50000
    ∷ 100000 ∷ []

abbrev pub rpc_count_bucket_boundaries : List ℕ
rpc_count_bucket_boundaries =
    0 ∷ 1 ∷ 2 ∷ 4 ∷ 8 ∷ 16 ∷ 32 ∷ 64 ∷ 128 ∷ 256 ∷ 512 ∷ 1024 ∷ 2048 ∷ 4096 ∷ 8192 ∷ 16384 ∷ 32768
    ∷ 65536 ∷ []

abbrev pub new_measure : ℕ → Bytes → Bytes → Bytes → MeasureInfo
new_measure address name description unit = record {
  address = address;
  name = name;
  description = description;
  unit = unit;
}

-- The keys of most views.
abbrev pub call_keys : Variables → List Key
call_keys v = key_string v.key_service ∷ key_string v.key_method ∷ []

module _ {R : Type 0} ⦃f : Float64 R⦄ where
  abbrev pub agg_count : Aggregation R
  agg_count = aggregation_count

  -- The bounds are floats.
  abbrev pub agg_dist_bytes : Aggregation R
  agg_dist_bytes = aggregation_distribution (map f.of_int64 rpc_bytes_bucket_boundaries)

  abbrev pub agg_dist_millis : Aggregation R
  agg_dist_millis = aggregation_distribution (map f.of_int64 rpc_millis_bucket_boundaries)

  abbrev pub agg_dist_counts : Aggregation R
  agg_dist_counts = aggregation_distribution (map f.of_int64 rpc_count_bucket_boundaries)

abbrev pub or_fatal : KeysManager × Result Keys.Error KeyString → Outcome (KeysManager × KeyString)
or_fatal (km, ok k) = ok (km, k)
or_fatal (km, err e) = panics
or_fatal (km, panics) = panics
or_fatal (km, out_of_fuel) = out_of_fuel

pub record DefaultKeys : Type 0 where
  pub service : KeyString
  pub method : KeyString
  pub op_status : KeyString

unfoldable pub create_default_keys : KeysManager → Outcome (KeysManager × DefaultKeys)
unfolding create_key_string
create_default_keys km = do
  (km₁, service) ← or_fatal (create_key_string (codes "grpc.service") km)
  (km₂, method) ← or_fatal (create_key_string (codes "grpc.method") km₁)
  (km₃, op_status) ← or_fatal (create_key_string (codes "grpc.opstatus") km₂)
  ok (km₃, record { service = service; method = method; op_status = op_status })

-- Both `registerDefaultsServer` and `registerDefaultsClient` create the keys.
unfoldable pub init_keys : KeysManager → Outcome (KeysManager × DefaultKeys)
unfolding create_default_keys
init_keys km = do (km', keys) ← create_default_keys km; create_default_keys km'

module _ {R : Type 0} ⦃f : Float64 R⦄ where
  -- An error, and a call that does not come back with nil.
  abbrev pub nil_or_fatal : Worker R × Reply R → Outcome (Worker R)
  nil_or_fatal (w, replies (sends_error none)) = ok w
  nil_or_fatal (w, _) = panics

  unfoldable pub create_measures : Objects R → List ℕ → Worker R → Outcome (Worker R)
  create_measures o [] w = ok w
  create_measures o (m ∷ ms) w = do
    r ← new_measure_int64 o m w
    w' ← nil_or_fatal r
    create_measures o ms w'

  unfoldable pub register_views : Objects R → List ℕ → Worker R → Outcome (Worker R)
  register_views o [] w = ok w
  register_views o (v ∷ vs) w = do
    r ← register_view o (some v) w
    w₁ ← nil_or_fatal r
    r₁ ← force_collection o (some v) w₁
    w₂ ← nil_or_fatal r₁
    register_views o vs w₂

  -- The default measures and views of one side, which are at the given addresses.
  unfoldable pub register_defaults : Objects R → List ℕ → List ℕ → Worker R → Outcome (Worker R)
  unfolding create_measures register_views
  register_defaults o ms vs w = do w' ← create_measures o ms w; register_views o vs w'

  -- The measures and views of the server, and then those of the client.
  unfoldable pub init_defaults :
      Objects R → List ℕ → List ℕ → List ℕ → List ℕ → Worker R → Outcome (Worker R)
  unfolding register_defaults
  init_defaults o server_ms server_vs client_ms client_vs w = do
    w' ← register_defaults o server_ms server_vs w
    register_defaults o client_ms client_vs w'
