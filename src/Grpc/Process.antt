-- ===== src/Grpc/Process.antt =====
-- plugins/grpc/stats/types.go: the state of a process that the two handlers share, and what their
-- methods have in common. A handler that records sends a request to the worker of package stats: `sent`
-- has these requests in their order.
use instrumentation_go.Base.{
  ℕ, ◌+◌, ◌-◌, ◌%◌, ◌^◌, List, [], ◌∷◌, ◌++◌, Option, none, some, Bytes, eqb, if◌then◌else◌, Result,
  ok, err, panics, out_of_fuel, ◌>>=◌,
}
use instrumentation_go.Tags.Key.{KeyString}
use instrumentation_go.Tags.KeysManager.{KeysManager}
use instrumentation_go.Tags.TagSet.{
  TagSet, TagSetBuilder, new_tag_set_builder, upsert_string, build,
}
use instrumentation_go.Tags.TagSet as TagSets
use instrumentation_go.Stats.Outcome.{Outcome}
use instrumentation_go.Stats.Float64.{Float64}
use instrumentation_go.Stats.Commands.{Measurement, measurement_float64, measurement_int64, Command}
use instrumentation_go.Grpc.Context.{
  CtxValue, tag_set, rpc_data, foreign_value, instrumentation_key, Contexts, from_context,
}

pub record RpcData : Type 0 where
  pub start_time : ℕ
  pub req_count : ℕ
  pub resp_count : ℕ

-- The measures of one side; measures are addresses.
pub record Measures : Type 0 where
  pub error_count : ℕ
  pub latency : ℕ
  pub request_bytes : ℕ
  pub response_bytes : ℕ
  pub started_count : ℕ
  pub finished_count : ℕ
  pub request_count : ℕ
  pub response_count : ℕ

-- The variables of the package, as its `init` has left them.
pub record Variables : Type 0 where
  pub key_service : KeyString
  pub key_method : KeyString
  pub key_op_status : KeyString
  pub client_rpc_key : ℕ
  pub server_rpc_key : ℕ
  pub client : Measures
  pub server : Measures

-- `allocated` is the address of the next `rpcData`.
pub record Process (R : Type 0) : Type 0 where
  pub keys : KeysManager
  pub data_at : ℕ → RpcData
  pub allocated : ℕ
  pub sent : List (Command R)

-- The events that gRPC reports; the length of a payload is a 64-bit pattern, and `none` is a nil error.
pub data RpcStats : Type 0 where
  begin in_header out_header in_trailer out_trailer unexpected : RpcStats
  in_payload out_payload : ℕ → RpcStats
  ends : Option Bytes → RpcStats

abbrev pub get_built : Option TagSet → Result TagSets.Error TagSet
get_built none = panics
get_built (some ts) = ok ts

-- `UpsertString` returns no error, and a builder that was just made is not built yet.
abbrev pub no_error : Result TagSets.Error TagSet → Outcome TagSet
no_error (ok ts) = ok ts
no_error (err e) = panics
no_error panics = panics
no_error out_of_fuel = out_of_fuel

-- A builder's tag set with one more tag.
unfoldable pub build_with : KeyString → Bytes → TagSetBuilder → Outcome TagSet
unfolding upsert_string build
build_with k s tb = no_error (do tb₁ ← upsert_string k s tb; get_built (build tb₁).1)

-- A builder's tag set with the service and the method.
unfoldable pub build_call : Variables → Bytes → Bytes → TagSetBuilder → Outcome TagSet
unfolding upsert_string build
build_call v service method tb = no_error (do
  tb₁ ← upsert_string v.key_service service tb
  tb₂ ← upsert_string v.key_method method tb₁
  get_built (build tb₂).1)

module _ {R : Type 0} where
  abbrev pub send : Command R → Process R → Process R
  send c p = record p { sent = p.sent ++ c ∷ [] }

  abbrev pub update_data : ℕ → RpcData → Process R → Process R
  update_data d x p = record p { data_at = λ e. if eqb d e then x else p.data_at e }

  -- `&rpcData{startTime: startTime}`, at the address `p.allocated`.
  unfoldable pub allocate : ℕ → Process R → Process R
  allocate start_time p =
      record (update_data p.allocated
        (record { start_time = start_time; req_count = 0; resp_count = 0 }) p) {
          allocated = p.allocated + 1;
        }

  -- `atomic.AddUint64`.
  unfoldable pub add_request : ℕ → Process R → Process R
  add_request d p =
      let x = p.data_at d in update_data d (record x { req_count = (x.req_count + 1) % 2 ^ 64 }) p

  unfoldable pub add_response : ℕ → Process R → Process R
  add_response d p =
      let x = p.data_at d in update_data d (record x { resp_count = (x.resp_count + 1) % 2 ^ 64 }) p

abbrev pub as_rpc_data : Option CtxValue → Option ℕ
as_rpc_data (some (rpc_data d)) = some d
as_rpc_data (some (tag_set ts)) = none
as_rpc_data (some foreign_value) = none
as_rpc_data none = none

-- `time.Since` of a time, as a 64-bit pattern.
abbrev pub since : ℕ → ℕ → ℕ
since start now = (now + 2 ^ 64 - start) % 2 ^ 64

abbrev pub millisecond : ℕ
millisecond = 1_000_000

module _ {Ctx : Type 0} ⦃c : Contexts Ctx⦄ where
  -- `ctx.Value(key).(*rpcData)`.
  unfoldable pub rpc_data_in : ℕ → Ctx → Option ℕ
  rpc_data_in key ctx = as_rpc_data (c.value (instrumentation_key key) ctx)

module _ {R : Type 0} ⦃f : Float64 R⦄ where
  -- The measurements that the end of every call records.
  unfoldable pub final_measurements : Measures → ℕ → RpcData → List (Measurement R)
  final_measurements ms now x =
      measurement_int64 ms.request_count x.req_count
      ∷ measurement_int64 ms.response_count x.resp_count
      ∷ measurement_int64 ms.finished_count 1
      ∷ measurement_float64 ms.latency
          (f.div (f.of_int64 (since x.start_time now)) (f.of_int64 millisecond))
      ∷ []

module _ {R Ctx : Type 0} ⦃f : Float64 R⦄ ⦃c : Contexts Ctx⦄ where
  -- The method of an event calls `ctx.Value`, so that a nil context panics.
  abbrev pub in_context : Option Ctx → (Ctx → Outcome (Process R)) → Outcome (Process R)
  in_context none handle = panics
  in_context (some ctx) handle = handle ctx

  unfoldable pub record_int64_in : ℕ → ℕ → ℕ → Ctx → Process R → Process R
  unfolding from_context
  record_int64_in now m n ctx = send (Command.record_int64 now (from_context ctx) m n)

  -- A message of the request, in the call with the given key.
  unfoldable pub count_request : ℕ → ℕ → ℕ → ℕ → Ctx → Process R → Process R
  unfolding rpc_data_in record_int64_in add_request
  count_request key m now n ctx p = elim (rpc_data_in key ctx) [
    | none ↦ p
    | some d ↦ add_request d (record_int64_in now m n ctx p)
  ]

  unfoldable pub count_response : ℕ → ℕ → ℕ → ℕ → Ctx → Process R → Process R
  unfolding rpc_data_in record_int64_in add_response
  count_response key m now n ctx p = elim (rpc_data_in key ctx) [
    | none ↦ p
    | some d ↦ add_response d (record_int64_in now m n ctx p)
  ]

  unfoldable pub record_end :
      Variables → Measures → ℕ → Option Bytes → RpcData → Ctx → Process R → Outcome (Process R)
  unfolding final_measurements from_context build_with new_tag_set_builder
  record_end v ms now none x ctx p =
      ok (send (Command.record_all now (from_context ctx) (final_measurements ms now x)) p)
  record_end v ms now (some error_code) x ctx p = do
    ts ← build_with v.key_op_status error_code (new_tag_set_builder (some (from_context ctx)))
    ok (
        send
          (Command.record_all now ts
            (final_measurements ms now x ++ measurement_int64 ms.error_count 1 ∷ []))
          p)

  unfoldable pub finish :
      Variables → Measures → ℕ → ℕ → Option Bytes → Ctx → Process R → Outcome (Process R)
  unfolding rpc_data_in record_end
  finish v ms key now error ctx p = elim (rpc_data_in key ctx) [
    | none ↦ ok p
    | some d ↦ record_end v ms now error (p.data_at d) ctx p
  ]
