-- ===== src/Grpc/Context.antt =====
-- tags/context.go: the tag set of a context. The package context and the functions of gRPC's package
-- stats that keep encoded tags in a context are not part of the repository: `Contexts` has what the
-- plugin calls of them, and `IsContexts` what their documentation says. A nil `*TagSet` is never stored.
use instrumentation_go.Base.{
  ℕ, ◌≡◌, ◌↔◌, Bool, true, false, Option, none, some, Bytes, eqb, eqb_iff, MapKey, ◌==◌,
  if◌then◌else◌, arith,
}
use instrumentation_go.Tags.TagSet.{TagSet, new_tag_set}

-- The keys that the repository uses: `ctxKey{}`, and a pointer to a `grpcInstrumentationKey`.
pub data CtxKey : Type 0 where
  tag_set_key : CtxKey
  instrumentation_key : ℕ → CtxKey

-- A tag set, a pointer to an `rpcData`, or a value of any other type.
pub data CtxValue : Type 0 where
  tag_set : TagSet → CtxValue
  rpc_data : ℕ → CtxValue
  foreign_value : CtxValue

abbrev pub ctx_key_beq : CtxKey → CtxKey → Bool
ctx_key_beq tag_set_key tag_set_key = true
ctx_key_beq tag_set_key (instrumentation_key b) = false
ctx_key_beq (instrumentation_key a) tag_set_key = false
ctx_key_beq (instrumentation_key a) (instrumentation_key b) = eqb a b

pub ctx_key_beq_iff : (a b : CtxKey) → (ctx_key_beq a b ≡ true) ↔ (a ≡ b)
ctx_key_beq_iff tag_set_key tag_set_key = ground arith
ctx_key_beq_iff tag_set_key (instrumentation_key b) = ground arith
ctx_key_beq_iff (instrumentation_key a) tag_set_key = ground arith
ctx_key_beq_iff (instrumentation_key a) (instrumentation_key b) = ground (arith, eqb_iff a b)

instance abbrev pub ctx_key_eq : MapKey CtxKey
ctx_key_eq = record { same = ctx_key_beq; same_iff = ctx_key_beq_iff }

-- `outgoing` is what a client's transport sends of a context, `incoming` what a server's received.
pub record Contexts (Ctx : Type 0) : Type 0 where
  pub value : CtxKey → Ctx → Option CtxValue
  pub with_value : CtxKey → CtxValue → Ctx → Ctx
  pub set_tags : Bytes → Ctx → Ctx
  pub outgoing : Ctx → Option Bytes
  pub incoming : Ctx → Option Bytes

pub record IsContexts {Ctx : Type 0} (c : Contexts Ctx) : Type 0 where
  pub value_with_value :
      (k j : CtxKey) (x : CtxValue) (ctx : Ctx)
      → c.value j (c.with_value k x ctx) ≡ (if k == j then some x else c.value j ctx)
  pub value_set_tags :
      (k : CtxKey) (b : Bytes) (ctx : Ctx) → c.value k (c.set_tags b ctx) ≡ c.value k ctx
  pub outgoing_set_tags : (b : Bytes) (ctx : Ctx) → c.outgoing (c.set_tags b ctx) ≡ some b
  pub outgoing_with_value :
      (k : CtxKey) (x : CtxValue) (ctx : Ctx) → c.outgoing (c.with_value k x ctx) ≡ c.outgoing ctx

abbrev pub tag_set_or_new : Option CtxValue → TagSet
tag_set_or_new (some (tag_set ts)) = ts
tag_set_or_new (some (rpc_data d)) = new_tag_set
tag_set_or_new (some foreign_value) = new_tag_set
tag_set_or_new none = new_tag_set

module _ {Ctx : Type 0} ⦃c : Contexts Ctx⦄ where
  unfoldable pub from_context : Ctx → TagSet
  from_context ctx = tag_set_or_new (c.value tag_set_key ctx)

  unfoldable pub new_context : TagSet → Ctx → Ctx
  new_context ts ctx = c.with_value tag_set_key (tag_set ts) ctx
