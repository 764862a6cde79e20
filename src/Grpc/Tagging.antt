-- ===== src/Grpc/Tagging.antt =====
-- What TagRPC of the two handlers of plugins/grpc/stats makes of a call: its tags, its data and its key.
use instrumentation_go.Base.{
  ℕ, ◌≡◌, ◌∙◌, refl, ap, Bool, false, [], ◌∷◌, ◌++◌, Option, none, some, Bytes, ◌==◌, if◌then◌else◌,
  ok, eqb, eqb_iff,
}
use instrumentation_go.Base.GoMap.{
  lookup, insert, HasDistinctKeys, insert-HasDistinctKeys, lookup-insert,
}
use instrumentation_go.Tags.Key.{Key, key_string, key_eq}
use instrumentation_go.Tags.TagSet.{TagSet, new_tag_set, new_tag_set_builder, upsert_bytes}
use instrumentation_go.Tags.TagSet.Laws.{new_tag_set_builder_copy, upsert_all_append}
use instrumentation_go.Tags.KeysManager.{KeysManager}
use instrumentation_go.Tags.Codec.Encode.{
  encode_to_full_signature, encode-signature, signature, tags_version_id,
}
use instrumentation_go.Stats.Outcome.{Returns}
use instrumentation_go.Stats.Float64.{Float64}
use instrumentation_go.Stats.Commands.{Command}
use instrumentation_go.Grpc.Context.{
  CtxValue, tag_set_key, instrumentation_key, tag_set, rpc_data, Contexts, IsContexts, from_context,
  new_context, ctx_key_eq,
}
use instrumentation_go.Grpc.Process.{Variables, Process, allocate, record_int64_in, rpc_data_in}
use instrumentation_go.Grpc.Method.{service_and_method}
use instrumentation_go.Grpc.Client as Client
use instrumentation_go.Grpc.Server as Server

-- The values of a call's tags: the service and the method, and what the given tags have otherwise.
abbrev pub call_value : Variables → Bytes → Bytes → TagSet → Key → Option Bytes
call_value v service method ts k =
    if key_string v.key_method == k
    then some method
    else (if key_string v.key_service == k then some service else lookup k ts.m)

-- The tags that a builder made of them starts with.
abbrev pub tags_or_new : Option TagSet → TagSet
tags_or_new none = new_tag_set
tags_or_new (some ts) = ts

pub tags_or_new-builder :
    (ts : Option TagSet)
    → HasDistinctKeys (tags_or_new ts).m
    → new_tag_set_builder ts ≡ some (tags_or_new ts)
unfolding new_tag_set_builder
tags_or_new-builder none h = refl
tags_or_new-builder (some ts) h = new_tag_set_builder_copy ts h

abbrev pub call_tags : Variables → Bytes → Bytes → TagSet → TagSet
call_tags v service method ts =
    upsert_bytes (key_string v.key_method) method
      (upsert_bytes (key_string v.key_service) service ts)

lookup-call_tags :
    (v : Variables) (service method : Bytes) (ts : TagSet) (k : Key)
    → lookup k (call_tags v service method ts).m ≡ call_value v service method ts k
unfolding upsert_bytes
lookup-call_tags v s m ts k =
    lookup-insert (key_string v.key_method) k m (insert (key_string v.key_service) s ts.m)
    ∙ rw (lookup-insert (key_string v.key_service) k s ts.m) refl

call_tags-HasDistinctKeys :
    (v : Variables) (service method : Bytes) (ts : TagSet)
    → HasDistinctKeys ts.m
    → HasDistinctKeys (call_tags v service method ts).m
unfolding upsert_bytes
call_tags-HasDistinctKeys v s m ts h =
    insert-HasDistinctKeys (key_string v.key_method) m (insert (key_string v.key_service) s ts.m)
      (insert-HasDistinctKeys (key_string v.key_service) s ts.m h)

module _ {Ctx : Type 0} ⦃c : Contexts Ctx⦄ (laws : IsContexts c) where
  from_context-new_context : (ts : TagSet) (ctx : Ctx) → from_context (new_context ts ctx) ≡ ts
  unfolding from_context new_context
  from_context-new_context ts ctx =
      rw (laws.value_with_value tag_set_key tag_set_key (tag_set ts) ctx) refl

  from_context-instrumentation :
      (key : ℕ) (x : CtxValue) (ctx : Ctx)
      → from_context (c.with_value (instrumentation_key key) x ctx) ≡ from_context ctx
  unfolding from_context
  from_context-instrumentation key x ctx =
      rw (laws.value_with_value (instrumentation_key key) tag_set_key x ctx) refl

  rpc_data_in-instrumentation :
      (key d : ℕ) (ctx : Ctx)
      → rpc_data_in key (c.with_value (instrumentation_key key) (rpc_data d) ctx) ≡ some d
  unfolding rpc_data_in
  rpc_data_in-instrumentation key d ctx =
      rw
        (
          laws.value_with_value (instrumentation_key key) (instrumentation_key key) (rpc_data d)
              ctx,
          (eqb_iff key key).1 refl,
        )
        refl

-- A call has been tagged: the context, with the given key, leads to new data with counts of zero, and has
-- the tags of the call; that one more call has started was recorded under these tags.
pub record IsTagged {R Ctx : Type 0} ⦃c : Contexts Ctx⦄ (v : Variables) (key started start now : ℕ)
    (service method : Bytes) (base : TagSet) (p q : Process R) (ctx : Ctx) : Type 0 where
  pub found : rpc_data_in key ctx ≡ some p.allocated
  pub fresh : q.data_at p.allocated ≡ record { start_time = start; req_count = 0; resp_count = 0 }
  pub others : (d : ℕ) → eqb p.allocated d ≡ false → q.data_at d ≡ p.data_at d
  pub tags : (k : Key) → lookup k (from_context ctx).m ≡ call_value v service method base k
  pub distinct : HasDistinctKeys (from_context ctx).m
  pub sent : q.sent ≡ p.sent ++ Command.record_int64 now (from_context ctx) started 1 ∷ []

module _ {R Ctx : Type 0} ⦃f : Float64 R⦄ ⦃c : Contexts Ctx⦄ (laws : IsContexts c)
    (v : Variables) where
  with_data-IsTagged :
      (key started start now : ℕ) (service method : Bytes) (base : TagSet) (ctx : Ctx)
      (p : Process R) (q : Process R)
      → q.data_at ≡ (allocate start p).data_at
      → q.sent ≡ p.sent
      → HasDistinctKeys base.m
      → let ctx₁ = new_context (call_tags v service method base) ctx in
        IsTagged v key started start now service method base p
          (record_int64_in now started 1 ctx₁ q)
          (c.with_value (instrumentation_key key) (rpc_data p.allocated) ctx₁)
  unfolding record_int64_in allocate
  with_data-IsTagged key started start now s m base ctx p q hd hs h =
      let ctx₁ = new_context (call_tags v s m base) ctx in
      let same = from_context-instrumentation laws key (rpc_data p.allocated) ctx₁ in
      record {
        found = rpc_data_in-instrumentation laws key p.allocated ctx₁;
        fresh = rw (hd, (eqb_iff p.allocated p.allocated).1 refl) refl;
        others = λ d h. rw (hd, h) refl;
        tags = λ k.
            rw (same, from_context-new_context laws (call_tags v s m base) ctx)
              (lookup-call_tags v s m base k);
        distinct =
            rw (same, from_context-new_context laws (call_tags v s m base) ctx)
              (call_tags-HasDistinctKeys v s m base h);
        sent = rw (same, hs) refl;
      }

  -- A client's call with a full name of two slashes is tagged without failing, if the tags of the context
  -- have distinct keys: the new context leads to new counts of zero and has the tags of the context with
  -- the service and the method, a started call is recorded under them, and the encoded tags of the
  -- context go to the server.
  pub client_tag_rpc-IsTagged :
      (verbose : Bool) (start now : ℕ) (full_method_name service method : Bytes) (ctx : Ctx)
      (p : Process R)
      → service_and_method full_method_name ≡ some (service, method)
      → HasDistinctKeys (from_context ctx).m
      → Returns
          (λ r.
            (ctx₁ : Ctx) × (r.1 ≡ some ctx₁)
            × IsTagged v v.client_rpc_key v.client.started_count start now service method
                (from_context ctx)
                p
                r.0
                ctx₁
            × (c.outgoing ctx₁ ≡ encode_to_full_signature (from_context ctx)))
          (Client.tag_rpc v verbose start now (some full_method_name) (some ctx) p)
  unfolding Client.tag_rpc Client.tag_named Client.tag_call new_context
  client_tag_rpc-IsTagged verbose start now full s m ctx p e h =
      let encoding = encode-signature (from_context ctx) in
      let bytes = tags_version_id ∷ signature (from_context ctx).m in
      let tags = call_tags v s m (from_context ctx) in
      rw
        (
          Client.tag_rpc,
          Client.tag_named,
          e,
          Client.tag_call,
          encoding,
          upsert_all_append (from_context ctx).m new_tag_set h,
        )
        (
          c.with_value (instrumentation_key v.client_rpc_key) (rpc_data p.allocated)
              (new_context tags (c.set_tags bytes ctx)),
          refl,
          with_data-IsTagged v.client_rpc_key v.client.started_count start now s m
              (from_context ctx) (c.set_tags bytes ctx) p (allocate start p) refl refl h,
          laws.outgoing_with_value _ _ _
              ∙ laws.outgoing_with_value _ _ _
              ∙ laws.outgoing_set_tags bytes ctx,
        )

  -- A server's call with a full name of two slashes is tagged without failing, where no tags came with it
  -- or the decoder takes those that did, if their keys are distinct: the new context leads to new counts of
  -- zero and has the received tags with the service and the method, and a started call is recorded under
  -- them.
  pub server_tag_rpc-IsTagged :
      (verbose : Bool) (start now : ℕ) (full_method_name service method : Bytes) (ctx : Ctx)
      (p : Process R) (km : KeysManager) (base : Option TagSet)
      → service_and_method full_method_name ≡ some (service, method)
      → Server.received_tags (c.incoming ctx) p.keys ≡ (km, ok base)
      → HasDistinctKeys (tags_or_new base).m
      → Returns
          (λ r.
            (ctx₁ : Ctx) × (r.1 ≡ some ctx₁)
            × IsTagged v v.server_rpc_key v.server.started_count start now service method
                (tags_or_new base)
                p
                r.0
                ctx₁
            × (r.0.keys ≡ km))
          (Server.tag_rpc v verbose start now (some full_method_name) (some ctx) p)
  unfolding Server.tag_rpc Server.tag_named Server.tag_call Server.tag_received new_context
  server_tag_rpc-IsTagged verbose start now full s m ctx p km base e received h =
      rw
        (
          Server.tag_rpc,
          Server.tag_named,
          e,
          Server.tag_call,
          received,
          Server.tag_received,
          tags_or_new-builder base h,
        )
        (
          c.with_value (instrumentation_key v.server_rpc_key) (rpc_data p.allocated)
              (new_context (call_tags v s m (tags_or_new base)) ctx),
          refl,
          with_data-IsTagged v.server_rpc_key v.server.started_count start now s m
              (tags_or_new base) ctx p
              (record (allocate start p) {
                keys = (Server.received_tags (c.incoming ctx) p.keys).0;
              })
              refl refl h,
          ap (λ x. x.0) received,
        )
