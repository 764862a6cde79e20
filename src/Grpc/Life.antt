-- ===== src/Grpc/Life.antt =====
-- The life of one call, as gRPC drives a handler of plugins/grpc/stats: the call is tagged, then events
-- come in, those of the call and, in between, those of other calls, and then the call ends.
pub mod Counts
pub mod Effects
pub mod Calls
use instrumentation_go.Base.{
  ℕ, ◌+◌, Bool, true, false, ◌&&◌, List, [], ◌∷◌, Option, none, some, Bytes, if◌then◌else◌, panics,
  ok, ◌>>=◌,
}
use instrumentation_go.Stats.Outcome.{Outcome}
use instrumentation_go.Grpc.Process.{Process, RpcStats, in_payload, out_payload, ends}

-- `other` is the context of another call, and `none` for an event of the call itself.
pub record Occurrence (Ctx : Type 0) : Type 0 where
  pub now : ℕ
  pub stats : RpcStats
  pub other : Option Ctx

abbrev pub is_out_payload : RpcStats → Bool
is_out_payload (out_payload n) = true
is_out_payload _ = false

abbrev pub is_in_payload : RpcStats → Bool
is_in_payload (in_payload n) = true
is_in_payload _ = false

abbrev pub is_own : {Ctx : Type 0} → Option Ctx → Bool
is_own none = true
is_own (some ctx) = false

-- How many events of the call itself pass a test.
unfoldable pub number : {Ctx : Type 0} → (RpcStats → Bool) → List (Occurrence Ctx) → ℕ
number test [] = 0
number test (e ∷ es) =
    let behind = number test es in if test e.stats && is_own e.other then 1 + behind else behind

abbrev pub context_of : {Ctx : Type 0} → Ctx → Option Ctx → Ctx
context_of own none = own
context_of own (some ctx) = ctx

module _ {R Ctx : Type 0}
    (handle : ℕ → RpcStats → Option Ctx → Process R → Outcome (Process R)) where
  unfoldable pub run : Ctx → List (Occurrence Ctx) → Process R → Outcome (Process R)
  run own [] p = ok p
  run own (e ∷ es) p = do p' ← handle e.now e.stats (some (context_of own e.other)) p; run own es p'

  abbrev pub run_to_end :
      List (Occurrence Ctx) → ℕ → Option Bytes → Process R × Option Ctx → Outcome (Process R)
  run_to_end es end_time error (p, none) = panics
  run_to_end es end_time error (p, some own) = do
    p' ← run own es p
    handle end_time (ends error) (some own) p'

  -- With the outcome of tagging the call.
  unfoldable pub whole_call :
      Outcome (Process R × Option Ctx)
      → List (Occurrence Ctx)
      → ℕ
      → Option Bytes
      → Outcome (Process R)
  unfolding run
  whole_call tagged es end_time error = do r ← tagged; run_to_end es end_time error r
