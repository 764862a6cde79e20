-- ===== src/Grpc/Examples/Tables.antt =====
-- The tables of plugins/grpc/stats/server_metrics.go and client_metrics.go, registered in a new worker.
use instrumentation_go.Base.{
  eqb_iff, arith, ◌≡◌, Bool, ◌||◌, ◌≢◌, false, ℕ, ◌+◌, refl, List, [], ◌∷◌, ◌++◌, map, Option, none,
  some, Bytes, codes, All, eqb, if◌then◌else◌, nat_eq, bytes_eq, zero, suc, get_elem?,
}
use instrumentation_go.Base.GoMap.{lookup}
use instrumentation_go.Tags.Key.{KeyString}
use instrumentation_go.Stats.Outcome.{Returns}
use instrumentation_go.Stats.Examples.{naturals}
use instrumentation_go.Stats.Aggregation.{aggregation_count}
use instrumentation_go.Stats.Aggregator.{window_cumulative}
use instrumentation_go.Stats.View.{View, new_view}
use instrumentation_go.Stats.Commands.{Objects, new_worker}
use instrumentation_go.Grpc.Process.{Variables}
use instrumentation_go.Grpc.Defaults.{MeasureInfo, init_defaults}
use instrumentation_go.Grpc.Defaults.ClientMetrics.{client_measures, client_views}
use instrumentation_go.Grpc.Defaults.ServerMetrics.{server_measures, server_views}
use instrumentation_go.Grpc.Defaults.Measured.{IsNewMeasure, IsNewView}
use instrumentation_go.Grpc.Defaults.Registered.{Collects}
use instrumentation_go.Grpc.Defaults.Initialised.{IsSide, IsRegistered, init_defaults-Collects}

abbrev key_at : ℕ → Bytes → KeyString
key_at n name = record { addr = n; name = name; id = n }

abbrev variables : Variables
variables = record {
  key_service = key_at 0 (codes "grpc.service");
  key_method = key_at 1 (codes "grpc.method");
  key_op_status = key_at 2 (codes "grpc.opstatus");
  client_rpc_key = 1;
  server_rpc_key = 2;
  server = record {
    error_count = 16;
    latency = 1;
    request_bytes = 2;
    response_bytes = 3;
    started_count = 4;
    finished_count = 5;
    request_count = 6;
    response_count = 7;
  };
  client = record {
    error_count = 8;
    latency = 9;
    request_bytes = 10;
    response_bytes = 11;
    started_count = 12;
    finished_count = 13;
    request_count = 14;
    response_count = 15;
  };
}

abbrev measure_named : ℕ → List MeasureInfo → Bytes
measure_named a [] = []
measure_named a (i ∷ is) = if eqb i.address a then i.name else measure_named a is

abbrev no_view : View ℕ
no_view = new_view [] [] [] 0 aggregation_count window_cumulative

abbrev view_or : Option (View ℕ) → View ℕ
view_or none = no_view
view_or (some v) = v

-- The views are at the places they have in the two tables, the server's first.
abbrev objects : Objects ℕ
objects = record {
  view_at = λ n. view_or (get_elem? (server_views variables ++ client_views variables) n);
  measure_name =
      λ n. measure_named n (server_measures variables.server ++ client_measures variables.client);
}

abbrev numbers : ℕ → ℕ → List ℕ
numbers start zero = []
numbers start (suc n) = start ∷ numbers (start + 1) n

abbrev server_ms : List ℕ
server_ms = map (λ i. i.address) (server_measures variables.server)

abbrev client_ms : List ℕ
client_ms = map (λ i. i.address) (client_measures variables.client)

abbrev has_nil : List ℕ → Bool
has_nil [] = false
has_nil (m ∷ ms) = eqb m 0 || has_nil ms

all_real : (ms : List ℕ) → has_nil ms ≡ false → All (λ m. m ≢ 0) ms
all_real [] h = tt
all_real (m ∷ ms) h = ((λ e. ground (arith, eqb_iff m 0)), all_real ms (ground arith))

server-IsSide : IsSide objects server_ms (numbers 0 22)
server-IsSide = record {
  measures_differ = refl;
  views_differ = refl;
  real = all_real server_ms refl;
  measured = refl;
}

client-IsSide : IsSide objects client_ms (numbers 22 22)
client-IsSide = record {
  measures_differ = refl;
  views_differ = refl;
  real = all_real client_ms refl;
  measured = refl;
}

no_measures : (ms : List ℕ) → All (IsNewMeasure objects new_worker) ms
unfolding new_worker lookup
no_measures [] = tt
no_measures (m ∷ ms) = (refl, no_measures ms)

no_views : (vs : List ℕ) → All (IsNewView objects new_worker) vs
unfolding new_worker lookup
no_views [] = tt
no_views (v ∷ vs) = (refl, no_views vs)

init_defaults-Collects_example :
    Returns
      (λ w'.
        IsRegistered objects w' server_ms (numbers 0 22)
        × IsRegistered objects w' client_ms (numbers 22 22)
        × ((v : ℕ) → Collects objects new_worker v → Collects objects w' v))
      (init_defaults objects server_ms (numbers 0 22) client_ms (numbers 22 22) new_worker)
init_defaults-Collects_example =
    init_defaults-Collects objects server_ms (numbers 0 22) client_ms (numbers 22 22) new_worker
      server-IsSide client-IsSide refl refl (no_measures server_ms, no_views (numbers 0 22))
      (no_measures client_ms, no_views (numbers 22 22))
