-- ===== src/Grpc/Examples.antt =====
-- plugins/grpc on concrete calls. A context is the values that were put into it, with the tags that it
-- sends and those that came with it.
mod Tables
use instrumentation_go.Base.{
  ◌↔◌, ℕ, ◌+◌, ◌≡◌, ◌∙◌, refl, sym, ap, List, [], ◌∷◌, ◌++◌, map, Option, none, some, Bytes, codes,
  All, ok, false, true, ◌>>=◌, nat_eq, bytes_eq, suc, length, ◌<◌, ◌^◌, arith,
}
use instrumentation_go.Base.GoMap.{GoMap, lookup, insert, lookup-insert, HasDistinctKeys}
use instrumentation_go.Tags.Key.{KeyString, Key, key_string, key_eq}
use instrumentation_go.Tags.KeysManager.{KeysManager, new_keys_manager}
use instrumentation_go.Tags.KeysManager.Registry.{new_keys_manager-IsRegistry}
use instrumentation_go.Tags.TagSet.{TagSet, new_tag_set}
use instrumentation_go.Tags.Codec.RoundTrip.{IsRegistered}
use instrumentation_go.Tags.Codec.Encode.{signature}
use instrumentation_go.Tags.Buffer.Appends.{encoded}
use instrumentation_go.Tags.Varint.Laws.{groups}
use instrumentation_go.Tags.KeysManager.{validate_key_name}
use instrumentation_go.Stats.Outcome.{Outcome, Returns}
use instrumentation_go.Stats.Examples.{naturals}
use instrumentation_go.Stats.Commands.{Objects, Worker, new_worker}
use instrumentation_go.Stats.View.{View}
use instrumentation_go.Grpc.Context.{
  CtxKey, CtxValue, tag_set_key, instrumentation_key, tag_set, rpc_data, ctx_key_eq, Contexts,
  IsContexts, from_context,
}
use instrumentation_go.Grpc.Method.{slash, service_and_method}
use instrumentation_go.Grpc.Method.Laws.{IsFree, service_and_method_iff}
use instrumentation_go.Grpc.Process.{
  Variables, Measures, Process, RpcData, RpcStats, begin, in_payload, out_payload, rpc_data_in,
}
use instrumentation_go.Grpc.Client as Client
use instrumentation_go.Grpc.Server as Server
use instrumentation_go.Grpc.Composite.{
  Handler, Chain, tag_conn, handle_conn, tag_rpc, handle_rpc, composite_iff,
}
use instrumentation_go.Grpc.Tagging.{call_value, tags_or_new}
use instrumentation_go.Grpc.Life.{Occurrence, is_out_payload, is_in_payload, whole_call}
use instrumentation_go.Grpc.Life.Counts.{IsApart, points_at}
use instrumentation_go.Grpc.Life.Calls.{
  RecordsEnd, final_data, client_whole_call, server_whole_call,
}
use instrumentation_go.Grpc.Propagation.{at_server, client-server_tags}
use instrumentation_go.Grpc.Defaults.{init_keys}
use instrumentation_go.Grpc.Defaults.Created.{HasDefaults, init_keys-HasDefaults}

record Context : Type 0 where
  values : GoMap CtxKey CtxValue
  sent : Option Bytes
  received : Option Bytes

instance abbrev contexts : Contexts Context
contexts = record {
  value = λ k x. lookup k x.values;
  with_value = λ k y x. record x { values = insert k y x.values };
  set_tags = λ b x. record x { sent = some b };
  outgoing = λ x. x.sent;
  incoming = λ x. x.received;
}

contexts-IsContexts : IsContexts contexts
contexts-IsContexts = record {
  value_with_value = λ k j y x. lookup-insert k j y x.values;
  value_set_tags = λ k b x. refl;
  outgoing_set_tags = λ b x. refl;
  outgoing_with_value = λ k y x. refl;
}

abbrev key_at : ℕ → Bytes → KeyString
key_at n name = record { addr = n; name = name; id = n }

abbrev measures_from : ℕ → Measures
measures_from n = record {
  error_count = n;
  latency = n + 1;
  request_bytes = n + 2;
  response_bytes = n + 3;
  started_count = n + 4;
  finished_count = n + 5;
  request_count = n + 6;
  response_count = n + 7;
}

-- The keys are the objects from the given address on.
abbrev variables_from : ℕ → Variables
variables_from n = record {
  key_service = key_at n (codes "grpc.service");
  key_method = key_at (n + 1) (codes "grpc.method");
  key_op_status = key_at (n + 2) (codes "grpc.opstatus");
  client_rpc_key = 1;
  server_rpc_key = 2;
  client = measures_from 10;
  server = measures_from 20;
}

-- A registry with one key of the application, whose name is `user`.
abbrev user_keys : ℕ → KeysManager
user_keys n = record {
  keys = (codes "user", key_string (key_at n (codes "user"))) ∷ [];
  next_key_id = 1;
  allocated = n + 1;
}

abbrev process_with : KeysManager → Process ℕ
process_with km = record {
  keys = km;
  data_at = λ d. record { start_time = 0; req_count = 0; resp_count = 0 };
  allocated = 0;
  sent = [];
}

abbrev user_tags : ℕ → TagSet
user_tags n = record { m = (key_string (key_at n (codes "user")), codes "ann") ∷ [] }

abbrev caller : Context
caller = record { values = (tag_set_key, tag_set (user_tags 5)) ∷ []; sent = none; received = none }

abbrev deliver : Context → Context
deliver x = record { values = []; sent = none; received = x.sent }

abbrev full_name : Bytes
full_name = codes "/pkg.service/get"

full_name-parts : service_and_method full_name ≡ some (codes "pkg.service", codes "get")
unfolding service_and_method
full_name-parts = refl

service_and_method_iff_example :
    (a : Bytes) × (full_name ≡ a ++ slash ∷ (codes "pkg.service" ++ slash ∷ codes "get"))
    × IsFree slash a
    × IsFree slash (codes "pkg.service")
    × IsFree slash (codes "get")
service_and_method_iff_example =
    (service_and_method_iff full_name (codes "pkg.service") (codes "get")).0 full_name-parts

user_tags-caller : HasDistinctKeys (from_context caller).m
unfolding from_context lookup
user_tags-caller = (refl, tt)

-- A message, a second one, the answer, and in between a message of the call with the data at 7.
abbrev other_call : Context
other_call = record {
  values = (instrumentation_key 1, rpc_data 7) ∷ (instrumentation_key 2, rpc_data 7) ∷ [];
  sent = none;
  received = none;
}

abbrev events : List (Occurrence Context)
events =
    record { now = 11; stats = begin; other = none }
    ∷ record { now = 12; stats = out_payload 100; other = none }
    ∷ record { now = 13; stats = out_payload 300; other = some other_call }
    ∷ record { now = 14; stats = out_payload 200; other = none }
    ∷ record { now = 15; stats = in_payload 50; other = none }
    ∷ []

others_data :
    (key d : ℕ) (y x : Context)
    → points_at d (rpc_data_in key y) ≡ false
    → some y ≡ some x
    → points_at d (rpc_data_in key x) ≡ false
others_data key d y x h e =
    ap (λ (o : Option Context). elim o [ none ↦ false | some z ↦ points_at d (rpc_data_in key z) ])
      (sym e)
    ∙ h

client_events-IsApart : All (IsApart 1 0) events
unfolding rpc_data_in lookup
client_events-IsApart = (
  λ x e. cc,
  (λ x e. cc, (λ x e. others_data 1 0 other_call x refl e, (λ x e. cc, (λ x e. cc, tt)))),
)

server_events-IsApart : All (IsApart 2 0) events
unfolding rpc_data_in lookup
server_events-IsApart = (
  λ x e. cc,
  (λ x e. cc, (λ x e. others_data 2 0 other_call x refl e, (λ x e. cc, (λ x e. cc, tt)))),
)

no_tags_received : Server.received_tags none (user_keys 5) ≡ (user_keys 5, ok none)
unfolding Server.received_tags
no_tags_received = refl

no_tags-distinct : HasDistinctKeys (tags_or_new none).m
unfolding new_tag_set
no_tags-distinct = tt

other_tags-distinct : HasDistinctKeys (user_tags 8).m
unfolding lookup
other_tags-distinct = (refl, tt)

other_tags-IsRegistered : All (IsRegistered (user_keys 8)) (user_tags 8).m
unfolding lookup validate_key_name
other_tags-IsRegistered = ((refl, refl), tt)

short_signature : suc (length (signature (from_context caller).m)) < 2 ^ 63
unfolding from_context signature encoded groups lookup
short_signature = omega arith

client_whole_call_example :
    Returns
      (RecordsEnd
        (variables_from 0)
        (measures_from 10)
        20
        (some (codes "lost"))
        (final_data is_out_payload is_in_payload 9 events)
        (call_value (variables_from 0) (codes "pkg.service") (codes "get") (from_context caller)))
      (whole_call
        (Client.handle_rpc (variables_from 0))
        (Client.tag_rpc
          (variables_from 0)
          true
          9
          10
          (some full_name)
          (some caller)
          (process_with (user_keys 5)))
        events
        20
        (some (codes "lost")))
client_whole_call_example =
    client_whole_call (variables_from 0) contexts-IsContexts true 9 10 full_name
      (codes "pkg.service") (codes "get") caller events 20 (some (codes "lost"))
      (process_with (user_keys 5)) full_name-parts user_tags-caller client_events-IsApart

server_whole_call_example :
    Returns
      (RecordsEnd
        (variables_from 0)
        (measures_from 20)
        20
        none
        (final_data is_in_payload is_out_payload 9 events)
        (call_value (variables_from 0) (codes "pkg.service") (codes "get") new_tag_set))
      (whole_call
        (Server.handle_rpc (variables_from 0))
        (Server.tag_rpc
          (variables_from 0)
          true
          9
          10
          (some full_name)
          (some caller)
          (process_with (user_keys 5)))
        events
        20
        none)
server_whole_call_example =
    server_whole_call (variables_from 0) contexts-IsContexts true 9 10 full_name
      (codes "pkg.service") (codes "get") caller (user_keys 5) none events 20 none
      (process_with (user_keys 5)) full_name-parts no_tags_received no_tags-distinct
      server_events-IsApart

client-server_tags_example :
    Returns
      (λ r.
        (own : Context) × (r.1 ≡ some own)
        × ((k : Key)
            → lookup k (from_context own).m
              ≡ call_value (variables_from 50) (codes "pkg.service") (codes "get") (user_tags 8) k)
        × (r.0.keys ≡ user_keys 8))
      (Client.tag_rpc
          (variables_from 0)
          true
          9
          10
          (some full_name)
          (some caller)
          (process_with (user_keys 5))
        >>= at_server deliver (variables_from 50) true 11 12 full_name (process_with (user_keys 8)))
unfolding from_context lookup
client-server_tags_example =
    client-server_tags deliver contexts-IsContexts (λ x. refl) (variables_from 0)
      (variables_from 50) true 9 10 11 12 full_name (codes "pkg.service") (codes "get") caller
      (user_tags 8) (process_with (user_keys 5)) (process_with (user_keys 8)) full_name-parts
      user_tags-caller short_signature refl other_tags-distinct other_tags-IsRegistered

init_keys-HasDefaults_example :
    Returns (HasDefaults (new_keys_manager 0)) (init_keys (new_keys_manager 0))
init_keys-HasDefaults_example =
    init_keys-HasDefaults (new_keys_manager 0) (new_keys_manager-IsRegistry 0)

abbrev both_sides :
    List (Handler (Process ℕ) (Option Context) Unit Unit (ℕ × ℕ × Option Bytes) (ℕ × RpcStats))
both_sides =
    Client.new_client_handler (variables_from 0) true
    ∷ Server.new_server_handler (variables_from 0) true
    ∷ []

composite_iff_example :
    ((info : Unit) (a c : Process ℕ × Option Context)
      → (tag_conn both_sides info a ≡ ok c) ↔ Chain (λ h. h.tag_conn info) both_sides a c)
    × ((ctx : Option Context) (x : Unit) (s c : Process ℕ)
        → (handle_conn both_sides ctx x s ≡ ok c) ↔ Chain (λ h. h.handle_conn ctx x) both_sides s c)
    × ((info : ℕ × ℕ × Option Bytes) (a c : Process ℕ × Option Context)
        → (tag_rpc both_sides info a ≡ ok c) ↔ Chain (λ h. h.tag_rpc info) both_sides a c)
    × ((ctx : Option Context) (x : ℕ × RpcStats) (s c : Process ℕ)
        → (handle_rpc both_sides ctx x s ≡ ok c) ↔ Chain (λ h. h.handle_rpc ctx x) both_sides s c)
composite_iff_example = composite_iff both_sides
