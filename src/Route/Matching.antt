-- ===== src/Route/Matching.antt =====
-- Which route a message takes, and what the route changes in it.
use Prim.Native.String.{String}
use text.Mathlib.Text.{◌==◌ as str_eq}
use text.Mathlib.TextEquality.{eq_iff}
use meta_protocol_proxy.Base.{
  ℕ, ◌≡◌, refl, sym, ap, ◌∙◌, ◌↔◌, ◌⊎◌, subst, inl, inr, true, false, Option, none, some, List, [],
  ◌∷◌, ◌++◌, if◌then◌else◌, Bool-cases, arith,
}
use meta_protocol_proxy.Buffer.{BufferApi}
use meta_protocol_proxy.Metadata.{HeaderMapApi, Metadata}
use meta_protocol_proxy.Decoder.{Mutation}
use meta_protocol_proxy.Route.{
  WeightedCluster, Route, RoutingApi, Entry, set_value, set_values, request_mutation,
  response_mutation, parent, cluster_entry, headers_match, matches, route, first,
}

-- The value under a key of a mutation.
abbrev pub value_of : String → Mutation → Option String
value_of k [] = none
value_of k ((j, v) ∷ m) = if str_eq j k then some v else value_of k m

-- The last value that a list of entries gives a key, and else `old`.
abbrev pub last_value : String → List (String × String) → Option String → Option String
last_value k [] old = old
last_value k ((j, v) ∷ es) old = last_value k es (if str_eq j k then some v else old)

value_of-set_value :
    (k j v : String) (m : Mutation)
    → value_of k (set_value j v m) ≡ (if str_eq j k then some v else value_of k m)
unfolding set_value
value_of-set_value k j v [] = refl
value_of-set_value k j v ((i, w) ∷ m) =
    ground (arith, eq_iff j k, eq_iff i k, eq_iff i j, value_of-set_value k j v m)

value_of-set_values :
    (k : String) (es : List (String × String)) (m : Mutation)
    → value_of k (set_values es m) ≡ last_value k es (value_of k m)
unfolding set_values
value_of-set_values k [] m = refl
value_of-set_values k ((j, v) ∷ es) m =
    value_of-set_values k es (set_value j v m)
    ∙ ap (λ (o : Option String). last_value k es o) (value_of-set_value k j v m)

-- After requestMutation a key has the last value that the route's request mutation gives it, and
-- else the value that it had; the same of responseMutation and the response mutation. A weighted
-- cluster has the mutations of the route that it belongs to.
pub request_mutation-last_value :
    {D : Type 0}
    → (r : Route D) (k : String) (m : Mutation)
    → (value_of k (request_mutation r m) ≡ last_value k (parent r).request_mutation (value_of k m))
      × (value_of k (response_mutation r m)
          ≡ last_value k (parent r).response_mutation (value_of k m))
unfolding request_mutation response_mutation
request_mutation-last_value r k m = (
  value_of-set_values k (parent r).request_mutation m,
  value_of-set_values k (parent r).response_mutation m,
)

module _ (B : BufferApi) (H : HeaderMapApi) (R : RoutingApi H.HeaderMap) where
  open R use {HeaderData, match_headers, pick_cluster}

  abbrev AnEntry : Type 0
  AnEntry = Entry B H R

  -- When a route's conditions hold for a message, and when not: a route without conditions takes
  -- every message, and Envoy's matcher decides about the conditions that there are.
  pub data Takes (m : Metadata B H) (e : AnEntry) : Type 0 where
    unconditional : e.config_headers ≡ [] → Takes m e
    matched :
        (d : HeaderData) (ds : List HeaderData)
        → e.config_headers ≡ d ∷ ds
        → match_headers m.headers (d ∷ ds) ≡ true
        → Takes m e

  pub data Refuses (m : Metadata B H) (e : AnEntry) : Type 0 where
    unmatched :
        (d : HeaderData) (ds : List HeaderData)
        → e.config_headers ≡ d ∷ ds
        → match_headers m.headers (d ∷ ds) ≡ false
        → Refuses m e

  -- What is taken of a route: its own cluster, or the one of its weighted clusters that is picked
  -- among all of them by the total weight and the random value.
  pub data Picks (n : ℕ) (e : AnEntry) : Route HeaderData → Type 0 where
    own_cluster : e.weighted_clusters ≡ [] → Picks n e (Route.entry e)
    weighted_cluster :
        (c : WeightedCluster) (cs : List WeightedCluster)
        → e.weighted_clusters ≡ c ∷ cs
        → Picks n e (Route.weighted e (pick_cluster (c ∷ cs) e.total_cluster_weight n))

  -- No route of the list takes the message.
  abbrev pub Unmatched : Metadata B H → List AnEntry → Type 0
  Unmatched m [] = Unit {0}
  Unmatched m (e ∷ es) = Refuses m e × Unmatched m es

  headers_match-Takes :
      (m : Metadata B H) (e : AnEntry) → Takes m e → headers_match B H R m e ≡ true
  unfolding headers_match
  headers_match-Takes m e (unconditional f) = rw f refl
  headers_match-Takes m e (matched d ds f t) = rw (f, t) refl

  headers_match-Refuses :
      (m : Metadata B H) (e : AnEntry) → Refuses m e → headers_match B H R m e ≡ false
  unfolding headers_match
  headers_match-Refuses m e (unmatched d ds f t) = rw (f, t) refl

  Takes-or_Refuses : (m : Metadata B H) (e : AnEntry) → Takes m e ⊎ Refuses m e
  Takes-or_Refuses m e = by_conditions e.config_headers refl
    where
      by_conditions : (l : List HeaderData) → e.config_headers ≡ l → Takes m e ⊎ Refuses m e
      by_conditions [] f = inl (unconditional f)
      by_conditions (d ∷ ds) f = elim (Bool-cases (match_headers m.headers (d ∷ ds))) [
        | inl t ↦ inl (matched d ds f t)
        | inr t ↦ inr (unmatched d ds f t)
      ]

  cluster_entry-Picks : (n : ℕ) (e : AnEntry) → Picks n e (cluster_entry B H R n e)
  unfolding cluster_entry
  cluster_entry-Picks n e = by_clusters e.weighted_clusters refl
    where
      by_clusters :
          (l : List WeightedCluster) → e.weighted_clusters ≡ l → Picks n e (cluster_entry B H R n e)
      by_clusters [] f = subst (Picks n e) (sym (rw f refl)) (own_cluster f)
      by_clusters (c ∷ cs) f = subst (Picks n e) (sym (rw f refl)) (weighted_cluster c cs f)

  first_of :
      (m : Metadata B H) (n : ℕ) (e : AnEntry) (es : List AnEntry)
      → Takes m e
      → route B H R (e ∷ es) m n ≡ some (cluster_entry B H R n e)
  unfolding route first matches
  first_of m n e es t = rw (headers_match-Takes m e t) refl

  passed_over :
      (m : Metadata B H) (n : ℕ) (e : AnEntry) (es : List AnEntry)
      → Refuses m e
      → route B H R (e ∷ es) m n ≡ route B H R es m n
  unfolding route first matches
  passed_over m n e es f = rw (headers_match-Refuses m e f) refl

  route_behind :
      (m : Metadata B H) (n : ℕ) (pre : List AnEntry) (es : List AnEntry)
      → Unmatched m pre
      → route B H R (pre ++ es) m n ≡ route B H R es m n
  route_behind m n [] es u = refl
  route_behind m n (e ∷ pre) es (f, u) = passed_over m n e (pre ++ es) f ∙ route_behind m n pre es u

  route-Unmatched :
      (m : Metadata B H) (n : ℕ) (es : List AnEntry) → Unmatched m es → route B H R es m n ≡ none
  unfolding route
  route-Unmatched m n [] u = refl
  route-Unmatched m n (e ∷ es) (f, u) = passed_over m n e es f ∙ route-Unmatched m n es u

  no_route : {r : Route HeaderData} → none ≡ some r → ⊥
  no_route e = cc

  none-Unmatched :
      (m : Metadata B H) (n : ℕ) (es : List AnEntry) → route B H R es m n ≡ none → Unmatched m es
  none-Unmatched m n [] o = tt
  none-Unmatched m n (e ∷ es) o = elim (Takes-or_Refuses m e) [
    | inl t ↦ absurd (no_route (sym o ∙ first_of m n e es t))
    | inr f ↦ (f, none-Unmatched m n es (sym (passed_over m n e es f) ∙ o))
  ]

  -- A message takes the first route whose conditions hold for it, whatever stands behind that route:
  -- with its own cluster when it has no weighted clusters, and else with the one that is picked among
  -- them; and it has no route exactly when no route's conditions hold.
  pub route_lem :
      (m : Metadata B H) (n : ℕ) (pre post es : List AnEntry) (e : AnEntry)
      → Unmatched m pre
      → Takes m e
      → (r : Route HeaderData) × (route B H R (pre ++ (e ∷ post)) m n ≡ some r)
        × Picks n e r
        × ((route B H R es m n ≡ none) ↔ Unmatched m es)
  route_lem m n pre post es e u t = (
    cluster_entry B H R n e,
    route_behind m n pre (e ∷ post) u ∙ first_of m n e post t,
    cluster_entry-Picks n e,
    (none-Unmatched m n es, route-Unmatched m n es),
  )
