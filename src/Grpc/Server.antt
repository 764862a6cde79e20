-- ===== src/Grpc/Server.antt =====
-- plugins/grpc/stats/server_handler.go: the handler of a gRPC server, in the terms of Grpc/Client.
-- `GenerateServerTrailer` returns nil.
use instrumentation_go.Base.{
  ℕ, Bool, Option, none, some, Bytes, if◌then◌else◌, Result, ok, err, panics, out_of_fuel, ◌>>=◌,
}
use instrumentation_go.Tags.KeysManager.{KeysManager}
use instrumentation_go.Tags.TagSet.{TagSet, new_tag_set_builder}
use instrumentation_go.Tags.Codec.Decode.{decode_from_full_signature}
use instrumentation_go.Tags.Codec.Reader as Reading
use instrumentation_go.Stats.Outcome.{Outcome}
use instrumentation_go.Stats.Float64.{Float64}
use instrumentation_go.Grpc.Context.{Contexts, instrumentation_key, rpc_data, new_context}
use instrumentation_go.Grpc.Composite.{Handler}
use instrumentation_go.Grpc.Method.{service_and_method}
use instrumentation_go.Grpc.Process.{
  Variables, Process, RpcStats, begin, in_header, out_header, in_trailer, out_trailer, unexpected,
  in_payload, out_payload, ends, build_call, allocate, record_int64_in, in_context, count_request,
  count_response, finish,
}

-- The tags that came with the call, if any did.
unfoldable pub received_tags :
    Option Bytes → KeysManager → KeysManager × Result Reading.Error (Option TagSet)
unfolding decode_from_full_signature
received_tags none km = (km, ok none)
received_tags (some tags_bin) km =
    let (km', decoded) = decode_from_full_signature tags_bin km in
    (km', decoded >>= λ ts. ok (some ts))

module _ {R Ctx : Type 0} ⦃f : Float64 R⦄ ⦃c : Contexts Ctx⦄ (v : Variables) where
  -- The last part of `createTagSet` and of `TagRPC`: `d` is the data of the call. An error of the decoder
  -- ends the tagging.
  unfoldable pub tag_received :
      ℕ
      → ℕ
      → Bytes
      → Bytes
      → Ctx
      → Process R
      → Result Reading.Error (Option TagSet)
      → Outcome (Process R × Option Ctx)
  unfolding new_context build_call new_tag_set_builder record_int64_in
  tag_received d now service method ctx p (ok ts) = do
    ts' ← build_call v service method (new_tag_set_builder ts)
    let ctx₁ = new_context ts' ctx
    let p₁ = record_int64_in now v.server.started_count 1 ctx₁ p
    ok (p₁, some (c.with_value (instrumentation_key v.server_rpc_key) (rpc_data d) ctx₁))
  tag_received d now service method ctx p (err e) = ok (p, some ctx)
  tag_received d now service method ctx p panics = panics
  tag_received d now service method ctx p out_of_fuel = out_of_fuel

  unfoldable pub tag_call :
      ℕ → ℕ → Bytes → Bytes → Ctx → Process R → Outcome (Process R × Option Ctx)
  unfolding allocate received_tags tag_received
  tag_call start now service method ctx p =
      let p₁ = allocate start p in
      let (km, received) = received_tags (c.incoming ctx) p₁.keys in
      tag_received p.allocated now service method ctx (record p₁ { keys = km }) received

  unfoldable pub tag_named : ℕ → ℕ → Bytes → Ctx → Process R → Outcome (Process R × Option Ctx)
  unfolding tag_call service_and_method
  tag_named start now full_method_name ctx p = elim (service_and_method full_method_name) [
    | none ↦ ok (p, some ctx)
    | some names ↦ tag_call start now names.0 names.1 ctx p
  ]

  unfoldable pub tag_rpc :
      Bool → ℕ → ℕ → Option Bytes → Option Ctx → Process R → Outcome (Process R × Option Ctx)
  unfolding tag_named
  tag_rpc verbose start now info none p = ok (p, none)
  tag_rpc verbose start now none (some ctx) p = if verbose then panics else ok (p, some ctx)
  tag_rpc verbose start now (some full_method_name) (some ctx) p =
      tag_named start now full_method_name ctx p

  unfoldable pub handle_in_payload : ℕ → ℕ → Ctx → Process R → Process R
  handle_in_payload = count_request v.server_rpc_key v.server.request_bytes

  unfoldable pub handle_out_payload : ℕ → ℕ → Ctx → Process R → Process R
  handle_out_payload = count_response v.server_rpc_key v.server.response_bytes

  unfoldable pub handle_end : ℕ → Option Bytes → Ctx → Process R → Outcome (Process R)
  handle_end = finish v v.server v.server_rpc_key

  unfoldable pub handle_rpc : ℕ → RpcStats → Option Ctx → Process R → Outcome (Process R)
  unfolding handle_out_payload handle_in_payload handle_end
  handle_rpc now begin ctx p = ok p
  handle_rpc now in_header ctx p = ok p
  handle_rpc now out_header ctx p = ok p
  handle_rpc now in_trailer ctx p = ok p
  handle_rpc now out_trailer ctx p = ok p
  handle_rpc now unexpected ctx p = ok p
  handle_rpc now (in_payload n) ctx p = in_context ctx λ x. ok (handle_in_payload now n x p)
  handle_rpc now (out_payload n) ctx p = in_context ctx λ x. ok (handle_out_payload now n x p)
  handle_rpc now (ends error) ctx p = in_context ctx λ x. handle_end now error x p

  -- The server's handler as a value of gRPC's interface, which does nothing for connections. An info comes
  -- with the two times that are read while it is handled, an event with its time.
  unfoldable pub new_server_handler :
      Bool → Handler (Process R) (Option Ctx) Unit Unit (ℕ × ℕ × Option Bytes) (ℕ × RpcStats)
  unfolding tag_rpc handle_rpc
  new_server_handler verbose = record {
    tag_conn = λ info a. ok a;
    handle_conn = λ ctx x s. ok s;
    tag_rpc = λ (start, now, info) (p, ctx). tag_rpc verbose start now info ctx p;
    handle_rpc = λ ctx (now, stats) p. handle_rpc now stats ctx p;
  }
