-- ===== src/Grpc/Composite.antt =====
-- plugins/grpc/handlers.go: a handler that calls other handlers. A handler is any value of gRPC's
-- interface: its methods may change a state `S` that they share, and they may panic. `AddHandler` has a
-- value as its receiver, so the handlers of the caller's value stay as they are.
use instrumentation_go.Base.{
  ◌≡◌, ◌↔◌, ◌∙◌, refl, ap, List, [], ◌∷◌, ok, err, panics, out_of_fuel, ◌>>=◌,
}
use instrumentation_go.Stats.Outcome.{Outcome}

pub record Handler (S Ctx ConnTagInfo ConnStats RpcTagInfo RpcStats : Type 0) : Type 0 where
  pub tag_conn : ConnTagInfo → S × Ctx → Outcome (S × Ctx)
  pub handle_conn : Ctx → ConnStats → S → Outcome S
  pub tag_rpc : RpcTagInfo → S × Ctx → Outcome (S × Ctx)
  pub handle_rpc : Ctx → RpcStats → S → Outcome S

-- The loop over the handlers.
unfoldable pub each : {H A : Type 0} → (H → A → Outcome A) → List H → A → Outcome A
each call [] a = ok a
each call (h ∷ hs) a = do a' ← call h a; each call hs a'

-- The handlers are called one after the other, each with what the one before returned.
abbrev pub Chain : {H A : Type 0} → (H → A → Outcome A) → List H → A → A → Type 0
Chain call [] a c = a ≡ c
Chain {A = A} call (h ∷ hs) a c = (b : A) × (call h a ≡ ok b) × Chain call hs b c

bind-ok :
    {A B : Type 0} (m : Outcome A) (k : A → Outcome B) (c : B)
    → (m >>= k) ≡ ok c
    → (b : A) × (m ≡ ok b) × (k b ≡ ok c)
bind-ok (ok b) k c e = (b, refl, e)
bind-ok (err x) k c e = cc
bind-ok panics k c e = cc
bind-ok out_of_fuel k c e = cc

each_iff :
    {H A : Type 0} (call : H → A → Outcome A) (hs : List H) (a c : A)
    → (each call hs a ≡ ok c) ↔ Chain call hs a c
unfolding each
each_iff call [] a c = (λ e. cc, λ e. ap ok e)
each_iff call (h ∷ hs) a c = (
  λ e.
      let (b, first, rest) = bind-ok (call h a) (each call hs) c e in
      (b, first, (each_iff call hs b c).0 rest),
  λ (b, first, rest). ap (λ m. m >>= each call hs) first ∙ (each_iff call hs b c).1 rest,
)

module _ {S Ctx ConnTagInfo ConnStats RpcTagInfo RpcStats : Type 0} where
  unfoldable pub tag_conn :
      List (Handler S Ctx ConnTagInfo ConnStats RpcTagInfo RpcStats)
      → ConnTagInfo
      → S × Ctx
      → Outcome (S × Ctx)
  unfolding each
  tag_conn hs info = each (λ h. h.tag_conn info) hs

  unfoldable pub handle_conn :
      List (Handler S Ctx ConnTagInfo ConnStats RpcTagInfo RpcStats)
      → Ctx
      → ConnStats
      → S
      → Outcome S
  unfolding each
  handle_conn hs ctx s = each (λ h. h.handle_conn ctx s) hs

  unfoldable pub tag_rpc :
      List (Handler S Ctx ConnTagInfo ConnStats RpcTagInfo RpcStats)
      → RpcTagInfo
      → S × Ctx
      → Outcome (S × Ctx)
  unfolding each
  tag_rpc hs info = each (λ h. h.tag_rpc info) hs

  unfoldable pub handle_rpc :
      List (Handler S Ctx ConnTagInfo ConnStats RpcTagInfo RpcStats)
      → Ctx
      → RpcStats
      → S
      → Outcome S
  unfolding each
  handle_rpc hs ctx s = each (λ h. h.handle_rpc ctx s) hs

  unfoldable pub add_handler :
      Handler S Ctx ConnTagInfo ConnStats RpcTagInfo RpcStats
      → List (Handler S Ctx ConnTagInfo ConnStats RpcTagInfo RpcStats)
      → List (Handler S Ctx ConnTagInfo ConnStats RpcTagInfo RpcStats)
  add_handler h hs = hs

  -- A composite is itself a handler.
  unfoldable pub as_handler :
      List (Handler S Ctx ConnTagInfo ConnStats RpcTagInfo RpcStats)
      → Handler S Ctx ConnTagInfo ConnStats RpcTagInfo RpcStats
  unfolding tag_conn handle_conn tag_rpc handle_rpc
  as_handler hs = record {
    tag_conn = tag_conn hs;
    handle_conn = handle_conn hs;
    tag_rpc = tag_rpc hs;
    handle_rpc = handle_rpc hs;
  }

  pub composite_iff :
      (hs : List (Handler S Ctx ConnTagInfo ConnStats RpcTagInfo RpcStats))
      → ((info : ConnTagInfo) (a c : S × Ctx)
          → (tag_conn hs info a ≡ ok c) ↔ Chain (λ h. h.tag_conn info) hs a c)
        × ((ctx : Ctx) (x : ConnStats) (s c : S)
            → (handle_conn hs ctx x s ≡ ok c) ↔ Chain (λ h. h.handle_conn ctx x) hs s c)
        × ((info : RpcTagInfo) (a c : S × Ctx)
            → (tag_rpc hs info a ≡ ok c) ↔ Chain (λ h. h.tag_rpc info) hs a c)
        × ((ctx : Ctx) (x : RpcStats) (s c : S)
            → (handle_rpc hs ctx x s ≡ ok c) ↔ Chain (λ h. h.handle_rpc ctx x) hs s c)
  unfolding tag_conn handle_conn tag_rpc handle_rpc
  composite_iff hs = (
    λ info a c. each_iff (λ h. h.tag_conn info) hs a c,
    λ ctx x s c. each_iff (λ h. h.handle_conn ctx x) hs s c,
    λ info a c. each_iff (λ h. h.tag_rpc info) hs a c,
    λ ctx x s c. each_iff (λ h. h.handle_rpc ctx x) hs s c,
  )
