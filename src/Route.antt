-- ===== src/Route.antt =====
-- src/meta_protocol_proxy/route/route_matcher_impl.h and route_matcher_impl.cc: the routes of a
-- configuration, and the choice of one for a message. The generated configuration, with the header
-- conditions built of it, is a record; the matching of headers and the choice of a weighted cluster
-- are Envoy's, and an interface.
pub mod Matching
use Prim.Native.String.{String}
use text.Mathlib.Text.{◌==◌ as str_eq}
use meta_protocol_proxy.Base.{
  ℕ, ◌+◌, ◌%◌, ◌^◌, Bool, true, false, Option, none, some, List, [], ◌∷◌, not, if◌then◌else◌,
}
use meta_protocol_proxy.Buffer.{BufferApi}
use meta_protocol_proxy.Metadata.{HeaderMapApi, Metadata}
use meta_protocol_proxy.Decoder.{Mutation}

-- envoy::config::route::v3::WeightedCluster::ClusterWeight
pub record WeightedCluster : Type 0 where
  pub name : String
  pub weight : ℕ

-- RouteAction_RequestMirrorPolicy, with a FractionalPercent as numerator and denominator.
pub record MirrorConfig : Type 0 where
  pub cluster : String
  pub runtime_fraction : Option (String × ℕ × ℕ)

pub record RequestMirrorPolicy : Type 0 where
  pub cluster_name : String
  pub runtime_key : String
  pub default_value : ℕ × ℕ

-- The denominator HUNDRED is 0 in its enumeration.
abbrev pub hundred : ℕ
hundred = 0

unfoldable pub new_mirror_policy : MirrorConfig → RequestMirrorPolicy
new_mirror_policy config = elim config.runtime_fraction [
  | none ↦ record {
    cluster_name = config.cluster;
    runtime_key = "";
    default_value = (100, hundred);
  }
  | some (key, numerator, denominator) ↦ record {
    cluster_name = config.cluster;
    runtime_key = key;
    default_value = (numerator, denominator);
  }
]

-- `featureEnabled` of the runtime's snapshot is a parameter.
unfoldable pub should_shadow : (String → ℕ × ℕ → ℕ → Bool) → RequestMirrorPolicy → ℕ → Bool
should_shadow feature_enabled p stable_random =
    feature_enabled p.runtime_key p.default_value stable_random

-- A Route of the configuration; the weighted clusters are there when they are its cluster specifier.
pub record RouteConfig (HeaderData : Type 0) : Type 0 where
  pub name : String
  pub cluster : String
  pub match_metadata : List HeaderData
  pub mirror_policies : List MirrorConfig
  pub weighted_clusters : Option (List WeightedCluster)
  pub request_mutation : List (String × String)
  pub response_mutation : List (String × String)

pub record RouteEntryImplBase (HeaderData : Type 0) : Type 0 where
  pub route_name : String
  pub cluster_name : String
  pub config_headers : List HeaderData
  pub weighted_clusters : List WeightedCluster
  pub total_cluster_weight : ℕ
  pub request_mutation : List (String × String)
  pub response_mutation : List (String × String)
  pub mirror_policies : List RequestMirrorPolicy

-- A Route that a match gives: the entry itself, or one of its weighted clusters with it as parent.
pub data Route (HeaderData : Type 0) : Type 0 where
  entry : RouteEntryImplBase HeaderData → Route HeaderData
  weighted : RouteEntryImplBase HeaderData → WeightedCluster → Route HeaderData

-- HeaderUtility::matchHeaders, and WeightedClusterUtil::pickCluster over the clusters, their total
-- weight and the random value.
pub record RoutingApi (HeaderMap : Type 0) : Type 1 where
  pub HeaderData : Type 0
  pub match_headers : HeaderMap → List HeaderData → Bool
  pub pick_cluster : List WeightedCluster → ℕ → ℕ → WeightedCluster

total_weight : List WeightedCluster → ℕ → ℕ
total_weight [] total = total
total_weight (c ∷ cs) total = total_weight cs ((total + c.weight) % 2 ^ 64)

mirror_policies_of : List MirrorConfig → List RequestMirrorPolicy
unfolding new_mirror_policy
mirror_policies_of [] = []
mirror_policies_of (p ∷ ps) = new_mirror_policy p ∷ mirror_policies_of ps

abbrev clusters_of : Option (List WeightedCluster) → List WeightedCluster
clusters_of none = []
clusters_of (some cs) = cs

-- The constructor; a total weight that it leaves without a value reads as 0.
unfoldable pub new_route_entry : {D : Type 0} → RouteConfig D → RouteEntryImplBase D
unfolding total_weight mirror_policies_of
new_route_entry route = record {
  route_name = route.name;
  cluster_name = route.cluster;
  config_headers = route.match_metadata;
  weighted_clusters = clusters_of route.weighted_clusters;
  total_cluster_weight = total_weight (clusters_of route.weighted_clusters) 0;
  request_mutation = route.request_mutation;
  response_mutation = route.response_mutation;
  mirror_policies = mirror_policies_of route.mirror_policies;
}

-- `mutation[key] = value`
unfoldable pub set_value : String → String → Mutation → Mutation
set_value k v [] = (k, v) ∷ []
set_value k v ((j, w) ∷ m) = if str_eq j k then (j, v) ∷ m else (j, w) ∷ set_value k v m

-- The loop over the entries of a mutation.
unfoldable pub set_values : List (String × String) → Mutation → Mutation
unfolding set_value
set_values [] m = m
set_values ((k, v) ∷ es) m = set_values es (set_value k v m)

abbrev pub parent : {D : Type 0} → Route D → RouteEntryImplBase D
parent (Route.entry e) = e
parent (Route.weighted e c) = e

unfoldable pub route_name : {D : Type 0} → Route D → String
route_name r = (parent r).route_name

unfoldable pub cluster_name : {D : Type 0} → Route D → String
cluster_name (Route.entry e) = e.cluster_name
cluster_name (Route.weighted e c) = c.name

unfoldable pub request_mutation : {D : Type 0} → Route D → Mutation → Mutation
unfolding set_values
request_mutation r m = set_values (parent r).request_mutation m

unfoldable pub response_mutation : {D : Type 0} → Route D → Mutation → Mutation
unfolding set_values
response_mutation r m = set_values (parent r).response_mutation m

module _ (B : BufferApi) (H : HeaderMapApi) (R : RoutingApi H.HeaderMap) where
  open R use {HeaderData, match_headers, pick_cluster}

  abbrev pub Entry : Type 0
  Entry = RouteEntryImplBase HeaderData

  unfoldable pub cluster_entry : ℕ → Entry → Route HeaderData
  cluster_entry random_value e = elim e.weighted_clusters [
    | [] ↦ Route.entry e
    | c ∷ cs ↦ Route.weighted e (pick_cluster (c ∷ cs) e.total_cluster_weight random_value)
  ]

  unfoldable pub headers_match : Metadata B H → Entry → Bool
  headers_match m e = elim e.config_headers [
    | [] ↦ true
    | d ∷ ds ↦ match_headers m.headers (d ∷ ds)
  ]

  -- RouteEntryImpl::matches
  unfoldable pub matches : Metadata B H → ℕ → Entry → Option (Route HeaderData)
  unfolding headers_match cluster_entry
  matches m random_value e =
      if not (headers_match m e) then none else some (cluster_entry random_value e)

  first : Option (Route HeaderData) → Option (Route HeaderData) → Option (Route HeaderData)
  first (some r) later = some r
  first none later = later

  -- RouteMatcherImpl::route
  unfoldable pub route : List Entry → Metadata B H → ℕ → Option (Route HeaderData)
  unfolding matches first
  route [] m random_value = none
  route (e ∷ es) m random_value = first (matches m random_value e) (route es m random_value)
