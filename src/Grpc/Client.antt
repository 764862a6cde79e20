-- ===== src/Grpc/Client.antt =====
-- plugins/grpc/stats/client_handler.go: the handler of a gRPC client. `verbose` is `glog.V(2)`, and the
-- log itself is left out. A nil context or a nil info is `none`.
use instrumentation_go.Base.{ℕ, Bool, Option, none, some, Bytes, if◌then◌else◌, ok, panics, ◌>>=◌}
use instrumentation_go.Tags.TagSet.{new_tag_set_builder}
use instrumentation_go.Tags.Codec.Encode.{encode_to_full_signature}
use instrumentation_go.Stats.Outcome.{Outcome}
use instrumentation_go.Stats.Float64.{Float64}
use instrumentation_go.Stats.View.{or_panic}
use instrumentation_go.Grpc.Context.{
  Contexts, instrumentation_key, rpc_data, from_context, new_context,
}
use instrumentation_go.Grpc.Composite.{Handler}
use instrumentation_go.Grpc.Method.{service_and_method}
use instrumentation_go.Grpc.Process.{
  Variables, Process, RpcStats, begin, in_header, out_header, in_trailer, out_trailer, unexpected,
  in_payload, out_payload, ends, build_call, allocate, record_int64_in, in_context, count_request,
  count_response, finish,
}

module _ {R Ctx : Type 0} ⦃f : Float64 R⦄ ⦃c : Contexts Ctx⦄ (v : Variables) where
  -- Behind the guards: the tags of the application are encoded for the server, and the context gets those
  -- of the call and its data.
  unfoldable pub tag_call :
      ℕ → ℕ → Bytes → Bytes → Ctx → Process R → Outcome (Process R × Option Ctx)
  unfolding allocate from_context new_context build_call new_tag_set_builder record_int64_in
  tag_call start now service method ctx p = do
    let p₁ = allocate start p
    let ts = from_context ctx
    encoded ← or_panic (encode_to_full_signature ts)
    let ctx₁ = c.set_tags encoded ctx
    ts' ← build_call v service method (new_tag_set_builder (some ts))
    let ctx₂ = new_context ts' ctx₁
    let p₂ = record_int64_in now v.client.started_count 1 ctx₂ p₁
    ok (p₂, some (c.with_value (instrumentation_key v.client_rpc_key) (rpc_data p.allocated) ctx₂))

  -- With the full name of the method, as the info has it.
  unfoldable pub tag_named : ℕ → ℕ → Bytes → Ctx → Process R → Outcome (Process R × Option Ctx)
  unfolding tag_call service_and_method
  tag_named start now full_method_name ctx p = elim (service_and_method full_method_name) [
    | none ↦ ok (p, some ctx)
    | some names ↦ tag_call start now names.0 names.1 ctx p
  ]

  -- The log line for a nil info reads a field of the info.
  unfoldable pub tag_rpc :
      Bool → ℕ → ℕ → Option Bytes → Option Ctx → Process R → Outcome (Process R × Option Ctx)
  unfolding tag_named
  tag_rpc verbose start now info none p = ok (p, none)
  tag_rpc verbose start now none (some ctx) p = if verbose then panics else ok (p, some ctx)
  tag_rpc verbose start now (some full_method_name) (some ctx) p =
      tag_named start now full_method_name ctx p

  unfoldable pub handle_out_payload : ℕ → ℕ → Ctx → Process R → Process R
  handle_out_payload = count_request v.client_rpc_key v.client.request_bytes

  unfoldable pub handle_in_payload : ℕ → ℕ → Ctx → Process R → Process R
  handle_in_payload = count_response v.client_rpc_key v.client.response_bytes

  unfoldable pub handle_end : ℕ → Option Bytes → Ctx → Process R → Outcome (Process R)
  handle_end = finish v v.client v.client_rpc_key

  unfoldable pub handle_rpc : ℕ → RpcStats → Option Ctx → Process R → Outcome (Process R)
  unfolding handle_out_payload handle_in_payload handle_end
  handle_rpc now begin ctx p = ok p
  handle_rpc now in_header ctx p = ok p
  handle_rpc now out_header ctx p = ok p
  handle_rpc now in_trailer ctx p = ok p
  handle_rpc now out_trailer ctx p = ok p
  handle_rpc now unexpected ctx p = ok p
  handle_rpc now (out_payload n) ctx p = in_context ctx λ x. ok (handle_out_payload now n x p)
  handle_rpc now (in_payload n) ctx p = in_context ctx λ x. ok (handle_in_payload now n x p)
  handle_rpc now (ends error) ctx p = in_context ctx λ x. handle_end now error x p

  -- The client's handler as a value of gRPC's interface, which does nothing for connections. An info comes
  -- with the two times that are read while it is handled, an event with its time.
  unfoldable pub new_client_handler :
      Bool → Handler (Process R) (Option Ctx) Unit Unit (ℕ × ℕ × Option Bytes) (ℕ × RpcStats)
  unfolding tag_rpc handle_rpc
  new_client_handler verbose = record {
    tag_conn = λ info a. ok a;
    handle_conn = λ ctx x s. ok s;
    tag_rpc = λ (start, now, info) (p, ctx). tag_rpc verbose start now info ctx p;
    handle_rpc = λ ctx (now, stats) p. handle_rpc now stats ctx p;
  }
