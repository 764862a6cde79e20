-- ===== src/Grpc/Life/Effects.antt =====
-- What one event does in the handlers of plugins/grpc/stats to the data of every call.
use instrumentation_go.Base.{
  ℕ, ◌≡◌, refl, false, Option, none, some, Bytes, eqb, eqb_iff, inl, inr, Bool-cases, Option-cases,
}
use instrumentation_go.Stats.Outcome.{Returns}
use instrumentation_go.Stats.Float64.{Float64}
use instrumentation_go.Grpc.Context.{Contexts}
use instrumentation_go.Grpc.Process.{
  Variables, Measures, Process, RpcData, begin, in_header, out_header, in_trailer, out_trailer,
  unexpected, in_payload, out_payload, ends, rpc_data_in, count_request, count_response,
  add_request, add_response, record_int64_in, record_end, finish,
}
use instrumentation_go.Grpc.Client as Client
use instrumentation_go.Grpc.Server as Server
use instrumentation_go.Grpc.Life.{is_out_payload, is_in_payload}
use instrumentation_go.Grpc.Life.Counts.{points_at, after, HasEffects}

module _ {R Ctx : Type 0} ⦃f : Float64 R⦄ ⦃c : Contexts Ctx⦄ where
  count_request-data :
      (key m now n : ℕ) (ctx : Ctx) (p : Process R) (d : ℕ)
      → (count_request key m now n ctx p).data_at d
        ≡ after (points_at d (rpc_data_in key ctx)) false (p.data_at d)
  unfolding count_request add_request record_int64_in
  count_request-data key m now n ctx p d = elim (Option-cases (rpc_data_in key ctx)) [
    | inl e ↦ rw (count_request, e) refl
    | inr (x, e) ↦ elim (Bool-cases (eqb x d)) [
      | inl same ↦ rw (count_request, e, same, (eqb_iff x d).0 same) refl
      | inr other ↦ rw (count_request, e, other) refl
    ]
  ]

  count_response-data :
      (key m now n : ℕ) (ctx : Ctx) (p : Process R) (d : ℕ)
      → (count_response key m now n ctx p).data_at d
        ≡ after false (points_at d (rpc_data_in key ctx)) (p.data_at d)
  unfolding count_response add_response record_int64_in
  count_response-data key m now n ctx p d = elim (Option-cases (rpc_data_in key ctx)) [
    | inl e ↦ rw (count_response, e) refl
    | inr (x, e) ↦ elim (Bool-cases (eqb x d)) [
      | inl same ↦ rw (count_response, e, same, (eqb_iff x d).0 same) refl
      | inr other ↦ rw (count_response, e, other) refl
    ]
  ]

  record_end-data :
      (v : Variables) (ms : Measures) (now : ℕ) (error : Option Bytes) (x : RpcData) (ctx : Ctx)
      (p : Process R) (d : ℕ)
      → Returns (λ q. q.data_at d ≡ p.data_at d) (record_end v ms now error x ctx p)
  unfolding record_end
  record_end-data v ms now none x ctx p d = refl
  record_end-data v ms now (some code) x ctx p d = refl

  finish-data :
      (v : Variables) (ms : Measures) (key now : ℕ) (error : Option Bytes) (ctx : Ctx)
      (p : Process R) (d : ℕ)
      → Returns (λ q. q.data_at d ≡ p.data_at d) (finish v ms key now error ctx p)
  unfolding finish
  finish-data v ms key now error ctx p d = elim (Option-cases (rpc_data_in key ctx)) [
    | inl e ↦ rw (finish, e) refl
    | inr (x, e) ↦ rw (finish, e) (record_end-data v ms now error (p.data_at x) ctx p d)
  ]

module _ {R Ctx : Type 0} ⦃f : Float64 R⦄ ⦃c : Contexts Ctx⦄ (v : Variables) where
  pub client-HasEffects :
      HasEffects {R = R} {Ctx = Ctx}
        (Client.handle_rpc v)
        v.client_rpc_key
        is_out_payload
        is_in_payload
  unfolding Client.handle_rpc Client.handle_out_payload Client.handle_in_payload Client.handle_end
  client-HasEffects now begin ctx p d = refl
  client-HasEffects now in_header ctx p d = refl
  client-HasEffects now out_header ctx p d = refl
  client-HasEffects now in_trailer ctx p d = refl
  client-HasEffects now out_trailer ctx p d = refl
  client-HasEffects now unexpected ctx p d = refl
  client-HasEffects now (out_payload n) ctx p d =
      count_request-data v.client_rpc_key v.client.request_bytes now n ctx p d
  client-HasEffects now (in_payload n) ctx p d =
      count_response-data v.client_rpc_key v.client.response_bytes now n ctx p d
  client-HasEffects now (ends error) ctx p d =
      finish-data v v.client v.client_rpc_key now error ctx p d

  pub server-HasEffects :
      HasEffects {R = R} {Ctx = Ctx}
        (Server.handle_rpc v)
        v.server_rpc_key
        is_in_payload
        is_out_payload
  unfolding Server.handle_rpc Server.handle_out_payload Server.handle_in_payload Server.handle_end
  server-HasEffects now begin ctx p d = refl
  server-HasEffects now in_header ctx p d = refl
  server-HasEffects now out_header ctx p d = refl
  server-HasEffects now in_trailer ctx p d = refl
  server-HasEffects now out_trailer ctx p d = refl
  server-HasEffects now unexpected ctx p d = refl
  server-HasEffects now (in_payload n) ctx p d =
      count_request-data v.server_rpc_key v.server.request_bytes now n ctx p d
  server-HasEffects now (out_payload n) ctx p d =
      count_response-data v.server_rpc_key v.server.response_bytes now n ctx p d
  server-HasEffects now (ends error) ctx p d =
      finish-data v v.server v.server_rpc_key now error ctx p d
