-- ===== src/Grpc/Propagation.antt =====
-- How the tags of a gRPC client reach the server: the two handlers of plugins/grpc/stats and the codec of
-- package tags between them. What the transport makes of a client's context is a parameter.
use instrumentation_go.Base.{
  ℕ, ◌≡◌, ◌<◌, ◌^◌, ◌∙◌, refl, suc, Bool, Option, none, some, Bytes, length, All, ok, panics, ◌>>=◌,
  ◌∷◌,
}
use instrumentation_go.Base.GoMap.{lookup, HasDistinctKeys}
use instrumentation_go.Tags.Key.{Key, key_eq}
use instrumentation_go.Tags.TagSet.{TagSet}
use instrumentation_go.Tags.Codec.Encode.{
  encode_to_full_signature, encode-signature, signature, tags_version_id,
}
use instrumentation_go.Tags.Codec.RoundTrip.{IsRegistered}
use instrumentation_go.Tags.Codec.Elsewhere.{names_and_values, decode-encode_elsewhere}
use instrumentation_go.Stats.Outcome.{Outcome, Returns, Returns-bind, Returns-map}
use instrumentation_go.Stats.Float64.{Float64}
use instrumentation_go.Grpc.Context.{Contexts, IsContexts, from_context}
use instrumentation_go.Grpc.Method.{service_and_method}
use instrumentation_go.Grpc.Process.{Variables, Process}
use instrumentation_go.Grpc.Client as Client
use instrumentation_go.Grpc.Server as Server
use instrumentation_go.Grpc.Server.{received_tags}
use instrumentation_go.Grpc.Tagging.{call_value, client_tag_rpc-IsTagged, server_tag_rpc-IsTagged}

module _ {R Ctx : Type 0} ⦃f : Float64 R⦄ ⦃c : Contexts Ctx⦄ (deliver : Ctx → Ctx) where
  -- The server tags the call in the context that the transport makes of the client's.
  abbrev pub at_server :
      Variables
      → Bool
      → ℕ
      → ℕ
      → Bytes
      → Process R
      → Process R × Option Ctx
      → Outcome (Process R × Option Ctx)
  at_server v verbose start now full_method_name p (q, none) = panics
  at_server v verbose start now full_method_name p (q, some ctx) =
      Server.tag_rpc v verbose start now (some full_method_name) (some (deliver ctx)) p

  received_tags-delivered :
      (ctx sent : Ctx) (there : TagSet) (p : Process R)
      → c.incoming (deliver sent) ≡ c.outgoing sent
      → c.outgoing sent ≡ encode_to_full_signature (from_context ctx)
      → suc (length (signature (from_context ctx).m)) < 2 ^ 63
      → names_and_values (from_context ctx).m ≡ names_and_values there.m
      → HasDistinctKeys there.m
      → All (IsRegistered p.keys) there.m
      → received_tags (c.incoming (deliver sent)) p.keys ≡ (p.keys, ok (some there))
  unfolding received_tags
  received_tags-delivered ctx sent there p i o short same d r =
      rw
        (
          i ∙ (o ∙ encode-signature (from_context ctx)),
          decode-encode_elsewhere (from_context ctx) there p.keys
              (tags_version_id ∷ signature (from_context ctx).m)
              (encode-signature (from_context ctx)) short same d r,
        )
        refl

  -- The tags of a client's call reach the server, where the transport delivers what the client sends, the
  -- name of the method has two slashes, the keys of the client's tags are distinct, their encoding is
  -- shorter than 2 ^ 63 bytes, and the server's registry has keys of their names, `there` being the
  -- same tags under these keys: both handlers tag the call without failing, the tags of the call at the
  -- server are those of `there` with the service and the method, and its registry stays as it was.
  pub client-server_tags :
      IsContexts c
      → ((ctx : Ctx) → c.incoming (deliver ctx) ≡ c.outgoing ctx)
      → (v v' : Variables) (verbose : Bool) (start now start' now' : ℕ)
        (full_method_name service method : Bytes) (ctx : Ctx) (there : TagSet) (p p' : Process R)
      → service_and_method full_method_name ≡ some (service, method)
      → HasDistinctKeys (from_context ctx).m
      → suc (length (signature (from_context ctx).m)) < 2 ^ 63
      → names_and_values (from_context ctx).m ≡ names_and_values there.m
      → HasDistinctKeys there.m
      → All (IsRegistered p'.keys) there.m
      → Returns
          (λ r.
            (own : Ctx) × (r.1 ≡ some own)
            × ((k : Key) → lookup k (from_context own).m ≡ call_value v' service method there k)
            × (r.0.keys ≡ p'.keys))
          (Client.tag_rpc v verbose start now (some full_method_name) (some ctx) p
            >>= at_server v' verbose start' now' full_method_name p')
  client-server_tags laws delivers v v' verbose start now start' now' full s m ctx there p p' e h
        short same d r =
      Returns-bind _
        (λ q.
          (own : Ctx) × (q.1 ≡ some own)
          × ((k : Key) → lookup k (from_context own).m ≡ call_value v' s m there k)
          × (q.0.keys ≡ p'.keys))
        (Client.tag_rpc v verbose start now (some full) (some ctx) p)
        (at_server v' verbose start' now' full p')
        (client_tag_rpc-IsTagged laws v verbose start now full s m ctx p e h)
        λ q (sent, eq, t, out). rw eq (
          Returns-map _
            (λ q.
              (own : Ctx) × (q.1 ≡ some own)
              × ((k : Key) → lookup k (from_context own).m ≡ call_value v' s m there k)
              × (q.0.keys ≡ p'.keys))
            (Server.tag_rpc v' verbose start' now' (some full) (some (deliver sent)) p')
            (server_tag_rpc-IsTagged laws v' verbose start' now' full s m (deliver sent) p' p'.keys
              (some there) e
              (received_tags-delivered ctx sent there p' (delivers sent) out short same d r) d)
            λ z (own, eq', t', km). (own, eq', t'.tags, km))
