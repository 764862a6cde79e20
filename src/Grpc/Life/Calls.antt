-- ===== src/Grpc/Life/Calls.antt =====
-- What a whole call leaves behind, by the handlers of plugins/grpc/stats.
use instrumentation_go.Base.{
  subst, ℕ, ◌≡◌, ◌∙◌, ◌+◌, ◌-◌, ◌%◌, ◌^◌, refl, ap, Bool, List, [], ◌∷◌, ◌++◌, Option, none, some,
  Bytes, All, ◌==◌, if◌then◌else◌, ok, arith,
}
use instrumentation_go.Base.GoMap.{lookup, HasDistinctKeys, lookup-insert}
use instrumentation_go.Tags.Key.{Key, key_string, key_eq}
use instrumentation_go.Tags.KeysManager.{KeysManager}
use instrumentation_go.Tags.TagSet.{TagSet, new_tag_set}
use instrumentation_go.Tags.TagSet.Laws.{upsert_all_append}
use instrumentation_go.Stats.Outcome.{Outcome, Returns, Returns-bind, Returns-map}
use instrumentation_go.Stats.Float64.{Float64}
use instrumentation_go.Stats.Commands.{Command, Measurement, measurement_int64, measurement_float64}
use instrumentation_go.Grpc.Context.{Contexts, IsContexts, from_context}
use instrumentation_go.Grpc.Method.{service_and_method}
use instrumentation_go.Grpc.Process.{
  Variables, Measures, Process, RpcData, RpcStats, ends, rpc_data_in, finish, record_end,
  final_measurements,
}
use instrumentation_go.Grpc.Client as Client
use instrumentation_go.Grpc.Server as Server
use instrumentation_go.Grpc.Tagging.{
  IsTagged, call_value, tags_or_new, client_tag_rpc-IsTagged, server_tag_rpc-IsTagged,
}
use instrumentation_go.Grpc.Life.{
  Occurrence, is_out_payload, is_in_payload, number, run, run_to_end, whole_call,
}
use instrumentation_go.Grpc.Life.Counts.{IsCounted, HasEffects, IsApart, run-IsCounted}
use instrumentation_go.Grpc.Life.Effects.{client-HasEffects, server-HasEffects}

-- The values of the tags under which the end of a call is recorded: an error adds its text.
abbrev pub end_value : Variables → Option Bytes → (Key → Option Bytes) → Key → Option Bytes
end_value v none value k = value k
end_value v (some error_code) value k =
    if key_string v.key_op_status == k then some error_code else value k

-- The data of a call that began at a time and had some events.
abbrev pub final_data :
    {Ctx : Type 0} → (RpcStats → Bool) → (RpcStats → Bool) → ℕ → List (Occurrence Ctx) → RpcData
final_data is_request is_response start es = record {
  start_time = start;
  req_count = number is_request es % 2 ^ 64;
  resp_count = number is_response es % 2 ^ 64;
}

same_data :
    (x y : RpcData)
    → x.start_time ≡ y.start_time
    → x.req_count ≡ y.req_count
    → x.resp_count ≡ y.resp_count
    → x ≡ y
same_data x y s q r = λ i. record { start_time = s i; req_count = q i; resp_count = r i }

counted-final_data :
    {Ctx : Type 0} (is_request is_response : RpcStats → Bool) (start : ℕ)
    (es : List (Occurrence Ctx)) (x y : RpcData)
    → x ≡ record { start_time = start; req_count = 0; resp_count = 0 }
    → IsCounted is_request is_response es x y
    → y ≡ final_data is_request is_response start es
counted-final_data is_request is_response start es x y e h =
    same_data y (final_data is_request is_response start es)
      (h.same_start ∙ ap (λ (r : RpcData). r.start_time) e)
      (omega (arith, h.requests, ap (λ (r : RpcData). r.req_count) e))
      (omega (arith, h.responses, ap (λ (r : RpcData). r.resp_count) e))

end_value-same :
    (v : Variables) (error : Option Bytes) (value value' : Key → Option Bytes)
    → ((k : Key) → value k ≡ value' k)
    → (k : Key) → end_value v error value k ≡ end_value v error value' k
end_value-same v none value value' h k = h k
end_value-same v (some error_code) value value' h k =
    ap (λ b. if key_string v.key_op_status == k then some error_code else b) (h k)

module _ {R : Type 0} ⦃f : Float64 R⦄ where
  -- The count of an error, if there is one.
  abbrev pub error_measurements : Measures → Option Bytes → List (Measurement R)
  error_measurements ms none = []
  error_measurements ms (some error_code) = measurement_int64 ms.error_count 1 ∷ []

  -- The measurements of the end of a call: the two counts, one finished call, the milliseconds since the start,
  -- and the count of an error.
  abbrev pub end_measurements : Measures → ℕ → Option Bytes → RpcData → List (Measurement R)
  end_measurements ms now error x =
      measurement_int64 ms.request_count x.req_count
      ∷ measurement_int64 ms.response_count x.resp_count
      ∷ measurement_int64 ms.finished_count 1
      ∷ measurement_float64 ms.latency
          (f.div (f.of_int64 ((now + 2 ^ 64 - x.start_time) % 2 ^ 64)) (f.of_int64 1_000_000))
      ∷ error_measurements ms error

  -- The last of the requests sent records the measurements of the given data, under tags of the given
  -- values.
  abbrev pub RecordsEnd :
      Variables → Measures → ℕ → Option Bytes → RpcData → (Key → Option Bytes) → Process R → Type 0
  RecordsEnd v ms now error x value q =
      (ts : TagSet) × (before : List (Command R)) × (q.sent
        ≡ before ++ Command.record_all now ts (end_measurements ms now error x) ∷ [])
      × ((k : Key) → lookup k ts.m ≡ end_value v error value k)

module _ {R Ctx : Type 0} ⦃f : Float64 R⦄ ⦃c : Contexts Ctx⦄ (v : Variables) where
  record_end-RecordsEnd :
      (ms : Measures) (now : ℕ) (error : Option Bytes) (x : RpcData) (ctx : Ctx) (p : Process R)
      → HasDistinctKeys (from_context ctx).m
      → Returns
          (RecordsEnd v ms now error x (λ k. lookup k (from_context ctx).m))
          (record_end v ms now error x ctx p)
  unfolding record_end final_measurements
  record_end-RecordsEnd ms now none x ctx p h = (from_context ctx, p.sent, refl, λ k. refl)
  record_end-RecordsEnd ms now (some code) x ctx p h =
      rw (upsert_all_append (from_context ctx).m new_tag_set h) (
        _,
        p.sent,
        refl,
        λ k. lookup-insert (key_string v.key_op_status) k code (from_context ctx).m,
      )

  finish-RecordsEnd :
      (ms : Measures) (key now d : ℕ) (error : Option Bytes) (ctx : Ctx) (p : Process R)
      → rpc_data_in key ctx ≡ some d
      → HasDistinctKeys (from_context ctx).m
      → Returns
          (RecordsEnd v ms now error (p.data_at d) (λ k. lookup k (from_context ctx).m))
          (finish v ms key now error ctx p)
  unfolding finish
  finish-RecordsEnd ms key now d error ctx p e h =
      rw (finish, e) (record_end-RecordsEnd ms now error (p.data_at d) ctx p h)

  module _ (handle : ℕ → RpcStats → Option Ctx → Process R → Outcome (Process R)) (ms : Measures)
      (key : ℕ) (is_request is_response : RpcStats → Bool) where
    run_to_end-RecordsEnd :
        HasEffects handle key is_request is_response
        → ((now : ℕ) (error : Option Bytes) (ctx : Ctx) (p : Process R)
            → handle now (ends error) (some ctx) p ≡ finish v ms key now error ctx p)
        → (started start now : ℕ) (service method : Bytes) (base : TagSet)
          (es : List (Occurrence Ctx)) (end_time : ℕ) (error : Option Bytes) (p q : Process R)
          (own : Ctx)
        → IsTagged v key started start now service method base p q own
        → All (IsApart key p.allocated) es
        → Returns
            (RecordsEnd v ms end_time error
              (final_data is_request is_response start es)
              (call_value v service method base))
            (run_to_end handle es end_time error (q, some own))
    run_to_end-RecordsEnd effects at_end started start now s m base es end_time error p q own t
          apart =
        Returns-bind
          (λ r. IsCounted is_request is_response es (q.data_at p.allocated) (r.data_at p.allocated))
          (RecordsEnd v ms end_time error (final_data is_request is_response start es)
            (call_value v s m base))
          (run handle own es q) (handle end_time (ends error) (some own))
          (run-IsCounted handle key is_request is_response effects own p.allocated es q t.found
            apart (rw t.fresh (omega arith)) (rw t.fresh (omega arith)))
          λ r counted. rw (at_end end_time error own r) (
            Returns-map
              (RecordsEnd v ms end_time error (r.data_at p.allocated)
                (λ k. lookup k (from_context own).m))
              (RecordsEnd v ms end_time error (final_data is_request is_response start es)
                (call_value v s m base))
              (finish v ms key end_time error own r)
              (finish-RecordsEnd ms key end_time p.allocated error own r t.found t.distinct)
              λ z (ts, before, sent, values). (
                ts,
                before,
                subst
                    (λ y.
                      z.sent
                      ≡ before
                        ++ Command.record_all end_time ts (end_measurements ms end_time error y)
                          ∷ [])
                    (counted-final_data is_request is_response start es (q.data_at p.allocated)
                      (r.data_at p.allocated) t.fresh counted)
                    sent,
                λ k. values k ∙ end_value-same v error _ (call_value v s m base) t.tags k,
              ))

  -- The life of a client's call whose full name has two slashes, in a context whose tags have distinct
  -- keys: whatever events of this call and of calls with other data come in between, the handler does
  -- not fail, and at the end it records, as its last request, the numbers of the messages that were sent
  -- and received modulo 2 ^ 64, one finished call, the elapsed time and, where there is an error, one error.
  -- These go under the tags of the context with the service, the method and the text of an error.
  pub client_whole_call :
      IsContexts c
      → (verbose : Bool) (start now : ℕ) (full_method_name service method : Bytes) (ctx : Ctx)
        (es : List (Occurrence Ctx)) (end_time : ℕ) (error : Option Bytes) (p : Process R)
      → service_and_method full_method_name ≡ some (service, method)
      → HasDistinctKeys (from_context ctx).m
      → All (IsApart v.client_rpc_key p.allocated) es
      → Returns
          (RecordsEnd v v.client end_time error
            (final_data is_out_payload is_in_payload start es)
            (call_value v service method (from_context ctx)))
          (whole_call
            (Client.handle_rpc v)
            (Client.tag_rpc v verbose start now (some full_method_name) (some ctx) p)
            es
            end_time
            error)
  unfolding whole_call Client.handle_rpc Client.handle_end
  client_whole_call laws verbose start now full s m ctx es end_time error p e h apart =
      Returns-bind _
        (RecordsEnd v v.client end_time error (final_data is_out_payload is_in_payload start es)
          (call_value v s m (from_context ctx)))
        (Client.tag_rpc v verbose start now (some full) (some ctx) p) _
        (client_tag_rpc-IsTagged laws v verbose start now full s m ctx p e h)
        λ r (own, eq, t, sent). rw eq (
          run_to_end-RecordsEnd (Client.handle_rpc v) v.client v.client_rpc_key is_out_payload
            is_in_payload (client-HasEffects v) (λ now error ctx p. refl) v.client.started_count
            start now s m (from_context ctx) es end_time error p r.0 own t apart)

  -- The life of a server's call whose full name has two slashes, where no tags came with it or the decoder
  -- takes those that did, with distinct keys: whatever events of this call and of calls with other data
  -- come in between, the handler does not fail, and at the end it records, as its last request, the
  -- numbers of the messages that were received and sent modulo 2 ^ 64, one finished call, the elapsed time
  -- and, where there is an error, one error. These go under the received tags with the service, the
  -- method and the text of an error.
  pub server_whole_call :
      IsContexts c
      → (verbose : Bool) (start now : ℕ) (full_method_name service method : Bytes) (ctx : Ctx)
        (km : KeysManager) (base : Option TagSet) (es : List (Occurrence Ctx)) (end_time : ℕ)
        (error : Option Bytes) (p : Process R)
      → service_and_method full_method_name ≡ some (service, method)
      → Server.received_tags (c.incoming ctx) p.keys ≡ (km, ok base)
      → HasDistinctKeys (tags_or_new base).m
      → All (IsApart v.server_rpc_key p.allocated) es
      → Returns
          (RecordsEnd v v.server end_time error
            (final_data is_in_payload is_out_payload start es)
            (call_value v service method (tags_or_new base)))
          (whole_call
            (Server.handle_rpc v)
            (Server.tag_rpc v verbose start now (some full_method_name) (some ctx) p)
            es
            end_time
            error)
  unfolding whole_call Server.handle_rpc Server.handle_end
  server_whole_call laws verbose start now full s m ctx km base es end_time error p e received h
        apart =
      Returns-bind _
        (RecordsEnd v v.server end_time error (final_data is_in_payload is_out_payload start es)
          (call_value v s m (tags_or_new base)))
        (Server.tag_rpc v verbose start now (some full) (some ctx) p) _
        (server_tag_rpc-IsTagged laws v verbose start now full s m ctx p km base e received h)
        λ r (own, eq, t, keys). rw eq (
          run_to_end-RecordsEnd (Server.handle_rpc v) v.server v.server_rpc_key is_in_payload
            is_out_payload (server-HasEffects v) (λ now error ctx p. refl) v.server.started_count
            start now s m (tags_or_new base) es end_time error p r.0 own t apart)
