-- ===== src/Examples/Routing.antt =====
-- Routes and upstream handlers.
use Prim.Native.String.{String}
use text.Mathlib.Text.{◌==◌ as str_eq}
use meta_protocol_proxy.Base.{
  ℕ, ◌≡◌, refl, Bool, true, false, none, some, List, [], ◌∷◌, ◌++◌, ◌↔◌, inl, Outcome, ok,
  if◌then◌else◌,
}
use meta_protocol_proxy.Buffer.ByteList.{byte_list}
use meta_protocol_proxy.Metadata.{Metadata, new_metadata}
use meta_protocol_proxy.Decoder.{Mutation}
use meta_protocol_proxy.Route.{WeightedCluster, RouteEntryImplBase, Route, RoutingApi, route}
use meta_protocol_proxy.Route.Matching.{
  Takes, matched, Refuses, unmatched, Picks, Unmatched, route_lem,
}
use meta_protocol_proxy.Upstream.Manager.{Handlers, get, add, del, clear, ClusterApi}
use meta_protocol_proxy.Upstream.Manager.Refines.{view, added, deleted, manager-View}
use meta_protocol_proxy.Upstream.Handler.{
  Effect, UpstreamHandlerImpl, UpstreamResponse, new_handler, find_callback, erase_callback,
  on_upstream_data,
}
use meta_protocol_proxy.Upstream.Handler.Responses.{
  blank, on_upstream_data_whole, on_upstream_data_part,
}
use meta_protocol_proxy.Examples.{headers, message, byte_codec}

abbrev match_first : List String → Bool
match_first [] = true
match_first (d ∷ ds) = str_eq d "yes"

abbrev pick_first : List WeightedCluster → WeightedCluster
pick_first [] = record { name = ""; weight = 0 }
pick_first (c ∷ cs) = c

abbrev routing : RoutingApi headers.HeaderMap
routing = record {
  HeaderData = String;
  match_headers = λ m ds. match_first ds;
  pick_cluster = λ cs total random_value. pick_first cs;
}

abbrev entry_for : String → RouteEntryImplBase String
entry_for condition = record {
  route_name = "r";
  cluster_name = "c";
  config_headers = condition ∷ [];
  weighted_clusters = record { name = "w"; weight = 3 } ∷ [];
  total_cluster_weight = 3;
  request_mutation = ("a", "1") ∷ ("a", "2") ∷ [];
  response_mutation = [];
  mirror_policies = [];
}

no_match : Refuses byte_list headers routing message (entry_for "no")
no_match = unmatched "no" [] refl refl

a_match : Takes byte_list headers routing message (entry_for "yes")
a_match = matched "yes" [] refl refl

route_lem_example :
    (r : Route String) × (route byte_list headers routing
        ((entry_for "no" ∷ []) ++ (entry_for "yes" ∷ entry_for "no" ∷ []))
        message
        8
      ≡ some r)
    × Picks byte_list headers routing 8 (entry_for "yes") r
    × ((route byte_list headers routing (entry_for "no" ∷ []) message 8 ≡ none)
        ↔ Unmatched byte_list headers routing message (entry_for "no" ∷ []))
route_lem_example =
    route_lem byte_list headers routing message 8 (entry_for "no" ∷ []) (entry_for "no" ∷ [])
      (entry_for "no" ∷ []) (entry_for "yes") (no_match, tt) a_match

abbrev taken_route : Route String
taken_route = Route.weighted (entry_for "yes") (record { name = "w"; weight = 3 })

abbrev handlers : Handlers ℕ
handlers = ("c_1", 1) ∷ []

manager-View_example :
    (view (add "c_1" (some 7) handlers) ≡ added "c_1" 7 (view handlers))
    × (view (add "c_1" none handlers) ≡ view handlers)
    × (view (del "c_1" handlers) ≡ deleted "c_1" (view handlers))
    × (view (clear handlers) ≡ (λ k. none))
manager-View_example = manager-View "c_1" 7 handlers

abbrev clusters : ClusterApi ℕ
clusters = record {
  Cluster = Unit;
  Pool = Unit;
  cluster = λ name. some tt;
  tcp_pool_data = λ c. some tt;
  address = λ p. "2";
  start = λ key p. (7, false);
}

absent : get "c_2" handlers ≡ none
unfolding get
absent = refl

abbrev encode_same : Metadata byte_list headers → Mutation → List ℕ → Outcome (List ℕ)
encode_same m mutation b = ok b

abbrev handler : UpstreamHandlerImpl Unit
handler = record (new_handler "c_2") { response_callbacks = (0, some 3) ∷ [] }

abbrev reply_metadata : Metadata byte_list headers
reply_metadata = record (blank byte_list headers byte_codec tt encode_same true) {
  origin_message = 9 ∷ [];
}

waiting_callback : find_callback 0 handler.response_callbacks ≡ some (some 3)
unfolding find_callback
waiting_callback = refl

on_upstream_data_whole_example :
    on_upstream_data byte_list headers byte_codec tt encode_same true handler (9 ∷ 1 ∷ [])
    ≡ ok (
      record {
        handler = record handler {
          response_callbacks = erase_callback 0 handler.response_callbacks;
          upstream_response = none;
        };
        complete = true;
        effects = Effect.downstream_written (9 ∷ []) ∷ Effect.response_called 3 0 ∷ [];
      },
      some (1 ∷ []),
    )
unfolding new_metadata
on_upstream_data_whole_example =
    on_upstream_data_whole byte_list headers byte_codec tt encode_same true handler (9 ∷ 1 ∷ [])
      (1 ∷ []) (9 ∷ []) tt reply_metadata 3 refl refl (inl refl) refl waiting_callback

on_upstream_data_part_example :
    (r : UpstreamResponse Unit) × (r.decoder.codec ≡ tt)
    × (on_upstream_data byte_list headers byte_codec tt encode_same true handler []
        ≡ ok (
          record {
            handler = record handler { upstream_response = if true then none else some r };
            complete = true;
            effects = [];
          },
          some [],
        ))
on_upstream_data_part_example =
    on_upstream_data_part byte_list headers byte_codec tt encode_same true handler [] [] tt
      (blank byte_list headers byte_codec tt encode_same true) refl refl
