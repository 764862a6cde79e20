-- ===== src/Grpc/Life/Counts.antt =====
-- The counts of a call in plugins/grpc/stats, over any events of it and of other calls.
use instrumentation_go.Base.{
  ℕ, ◌≡◌, ◌<◌, ◌+◌, ◌%◌, ◌^◌, ◌∙◌, refl, ap, Bool, true, false, ◌&&◌, List, [], ◌∷◌, Option, none,
  some, eqb, eqb_iff, All, if◌then◌else◌, inl, inr, Option-cases, arith,
}
use instrumentation_go.Stats.Outcome.{Outcome, Returns, Returns-bind, Returns-map}
use instrumentation_go.Grpc.Context.{Contexts}
use instrumentation_go.Grpc.Process.{Process, RpcData, RpcStats, rpc_data_in}
use instrumentation_go.Grpc.Life.{Occurrence, is_own, number, run, context_of}

abbrev pub points_at : ℕ → Option ℕ → Bool
points_at d none = false
points_at d (some e) = eqb e d

abbrev pub next_count : Bool → ℕ → ℕ
next_count true n = (n + 1) % 2 ^ 64
next_count false n = n

-- The data after an event that is a message of the request, of the response, or neither.
abbrev pub after : Bool → Bool → RpcData → RpcData
after req resp x = record {
  start_time = x.start_time;
  req_count = next_count req x.req_count;
  resp_count = next_count resp x.resp_count;
}

-- The data `y` that some events leave of `x`: the counts have grown by the numbers of messages.
pub record IsCounted {Ctx : Type 0} (is_request is_response : RpcStats → Bool)
    (es : List (Occurrence Ctx)) (x y : RpcData) : Type 0 where
  pub same_start : y.start_time ≡ x.start_time
  pub requests : y.req_count ≡ (x.req_count + number is_request es) % 2 ^ 64
  pub responses : y.resp_count ≡ (x.resp_count + number is_response es) % 2 ^ 64

next_count_mod :
    (b : Bool) (x n : ℕ) → (next_count b x + n) % 2 ^ 64 ≡ (x + (if b then 1 + n else n)) % 2 ^ 64
next_count_mod true x n = omega arith
next_count_mod false x n = refl

module _ {Ctx : Type 0} ⦃c : Contexts Ctx⦄ (key : ℕ) where
  -- An event of the call itself, or of a call with other data.
  abbrev pub IsApart : ℕ → Occurrence Ctx → Type 0
  IsApart d e = (ctx : Ctx) → e.other ≡ some ctx → points_at d (rpc_data_in key ctx) ≡ false

  points_at_own :
      (own : Ctx) (d : ℕ) (e : Occurrence Ctx)
      → rpc_data_in key own ≡ some d
      → IsApart d e
      → points_at d (rpc_data_in key (context_of own e.other)) ≡ is_own e.other
  points_at_own own d e h a = elim (Option-cases e.other) [
    | inl o ↦ rw (o, h) ((eqb_iff d d).1 refl)
    | inr (ctx, o) ↦ rw o (a ctx o)
  ]

module _ {R Ctx : Type 0} ⦃c : Contexts Ctx⦄
    (handle : ℕ → RpcStats → Option Ctx → Process R → Outcome (Process R)) (key : ℕ)
    (is_request is_response : RpcStats → Bool) where
  -- What a handler does to the data of every call.
  abbrev pub HasEffects : Type 0
  HasEffects =
      (now : ℕ) (stats : RpcStats) (ctx : Ctx) (p : Process R) (d : ℕ)
      → Returns
          (λ q.
            q.data_at d
            ≡ after (is_request stats && points_at d (rpc_data_in key ctx))
                (is_response stats && points_at d (rpc_data_in key ctx)) (p.data_at d))
          (handle now stats (some ctx) p)

  after-IsCounted :
      (own : Ctx) (d : ℕ) (e : Occurrence Ctx) (es : List (Occurrence Ctx)) (x y z : RpcData)
      → points_at d (rpc_data_in key (context_of own e.other)) ≡ is_own e.other
      → y
        ≡ after
            (is_request e.stats && points_at d (rpc_data_in key (context_of own e.other)))
            (is_response e.stats && points_at d (rpc_data_in key (context_of own e.other)))
            x
      → IsCounted is_request is_response es y z
      → IsCounted is_request is_response (e ∷ es) x z
  unfolding number
  after-IsCounted own d e es x y z same hy h =
      let hy' : y
          ≡ after (is_request e.stats && is_own e.other) (is_response e.stats && is_own e.other) x =
        rw (← same) hy in
      record {
        same_start = h.same_start ∙ ap (λ (r : RpcData). r.start_time) hy';
        requests =
            h.requests
            ∙ (ap (λ (r : RpcData). (r.req_count + number is_request es) % 2 ^ 64) hy'
                ∙ next_count_mod (is_request e.stats && is_own e.other) x.req_count
                    (number is_request es));
        responses =
            h.responses
            ∙ (ap (λ (r : RpcData). (r.resp_count + number is_response es) % 2 ^ 64) hy'
                ∙ next_count_mod (is_response e.stats && is_own e.other) x.resp_count
                    (number is_response es));
      }

  next_count-bound : (b : Bool) (n : ℕ) → n < 2 ^ 64 → next_count b n < 2 ^ 64
  next_count-bound true n h = omega arith
  next_count-bound false n h = h

  pub run-IsCounted :
      HasEffects
      → (own : Ctx) (d : ℕ) (es : List (Occurrence Ctx)) (p : Process R)
      → rpc_data_in key own ≡ some d
      → All (IsApart key d) es
      → (p.data_at d).req_count < 2 ^ 64
      → (p.data_at d).resp_count < 2 ^ 64
      → Returns
          (λ q. IsCounted is_request is_response es (p.data_at d) (q.data_at d))
          (run handle own es p)
  unfolding run number
  run-IsCounted effects own d [] p h a m n = record {
    same_start = refl;
    requests = omega arith;
    responses = omega arith;
  }
  run-IsCounted effects own d (e ∷ es) p h (a, rest) m n =
      Returns-bind
        (λ q.
          q.data_at d
          ≡ after (is_request e.stats && points_at d (rpc_data_in key (context_of own e.other)))
              (is_response e.stats && points_at d (rpc_data_in key (context_of own e.other)))
              (p.data_at d))
        (λ q. IsCounted is_request is_response (e ∷ es) (p.data_at d) (q.data_at d))
        (handle e.now e.stats (some (context_of own e.other)) p) (run handle own es)
        (effects e.now e.stats (context_of own e.other) p d)
        λ q s.
          Returns-map (λ r. IsCounted is_request is_response es (q.data_at d) (r.data_at d))
            (λ r. IsCounted is_request is_response (e ∷ es) (p.data_at d) (r.data_at d))
            (run handle own es q)
            (run-IsCounted effects own d es q h rest
              (rw (ap (λ (r : RpcData). r.req_count) s) (
                next_count-bound
                  (is_request e.stats && points_at d (rpc_data_in key (context_of own e.other))) _
                  m))
              (rw (ap (λ (r : RpcData). r.resp_count) s) (
                next_count-bound
                  (is_response e.stats && points_at d (rpc_data_in key (context_of own e.other))) _
                  n)))
            λ r t.
              after-IsCounted own d e es (p.data_at d) (q.data_at d) (r.data_at d)
                (points_at_own key own d e h a) s t
