-- ===== src/Upstream/Manager.antt =====
-- UpstreamHandlerManager of src/meta_protocol_proxy/upstream_handler.h and upstream_handler.cc, and
-- ConnectionManager::getUpstreamHandler of conn_manager.cc. What a handler is, is left open.
pub mod Refines
use Prim.Native.String.{String, ◌++◌ as str_append}
use text.Mathlib.Text.{◌==◌ as str_eq}
use meta_protocol_proxy.Base.{
  Bool, true, false, Option, none, some, List, [], ◌∷◌, ◌++◌, if◌then◌else◌,
}
use meta_protocol_proxy.Codec.{ErrorType, Error}

-- `upstream_handlers_`, a std::map.
abbrev pub Handlers : Type 0 → Type 0
Handlers A = List (String × A)

-- UpstreamHandlerManager::get
unfoldable pub get : {A : Type 0} → String → Handlers A → Option A
get key [] = none
get key ((k, h) ∷ hs) = if str_eq k key then some h else get key hs

-- UpstreamHandlerManager::add: a null handler is not added, and `emplace` leaves a key that is there.
unfoldable pub add : {A : Type 0} → String → Option A → Handlers A → Handlers A
unfolding get
add key none hs = hs
add key (some h) hs = elim (get key hs) [ none ↦ hs ++ (key, h) ∷ [] | some _ ↦ hs ]

-- UpstreamHandlerManager::del
unfoldable pub del : {A : Type 0} → String → Handlers A → Handlers A
del key [] = []
del key ((k, h) ∷ hs) = let rest = del key hs in if str_eq k key then rest else (k, h) ∷ rest

-- UpstreamHandlerManager::clear
unfoldable pub clear : {A : Type 0} → Handlers A → Handlers A
clear hs = []

pub record GetUpstreamHandlerResult (A : Type 0) : Type 0 where
  pub error : Option Error
  pub handler : Option A
  pub detail : String

abbrev pub failed : {A : Type 0} → ErrorType → String → String → GetUpstreamHandlerResult A
failed type message detail = record {
  error = some (record { type = type; message = message });
  handler = none;
  detail = detail;
}

abbrev pub found : {A : Type 0} → A → GetUpstreamHandlerResult A
found h = record { error = none; handler = some h; detail = "" }

abbrev pub quoted : String → String → String
quoted front name = str_append front (str_append name "'")

-- Envoy's clusters: getThreadLocalCluster, createTcpPoolData, and the address of its host as a
-- string. `start` is a new handler for a key, started on the pool; the flag tells that the pool
-- refused at once, so that the handler was deleted from the manager.
pub record ClusterApi (A : Type 0) : Type 1 where
  pub Cluster : Type 0
  pub Pool : Type 0
  pub cluster : String → Option Cluster
  pub tcp_pool_data : Cluster → Option Pool
  pub address : Pool → String
  pub start : String → Pool → A × Bool

module _ {A : Type 0} (C : ClusterApi A) where
  open C use {Cluster, Pool}

  abbrev pub key_of : String → Pool → String
  key_of cluster_name p = str_append cluster_name (str_append "_" (C.address p))

  create_handler : String → Pool → Handlers A → GetUpstreamHandlerResult A × Handlers A
  unfolding add del
  create_handler key p hs =
      let (h, refused) = C.start key p in
      let added = add key (some h) hs in (found h, if refused then del key added else added)

  with_pool : String → Option Pool → Handlers A → GetUpstreamHandlerResult A × Handlers A
  unfolding get create_handler
  with_pool cluster_name none hs = (
    failed ErrorType.no_healthy_upstream
        (quoted "meta protocol router: no healthy upstream for '" cluster_name)
        "no_healthy_upstream",
    hs,
  )
  with_pool cluster_name (some p) hs =
      let key = key_of cluster_name p in
      elim (get key hs) [ some h ↦ (found h, hs) | none ↦ create_handler key p hs ]

  with_cluster : String → Option Cluster → Handlers A → GetUpstreamHandlerResult A × Handlers A
  unfolding with_pool
  with_cluster cluster_name none hs = (
    failed ErrorType.cluster_not_found
        (quoted "meta protocol router: unknown cluster '" cluster_name) "unknown_cluster",
    hs,
  )
  with_cluster cluster_name (some c) hs = with_pool cluster_name (C.tcp_pool_data c) hs

  unfoldable pub get_upstream_handler :
      String → Handlers A → GetUpstreamHandlerResult A × Handlers A
  unfolding with_cluster
  get_upstream_handler cluster_name hs = with_cluster cluster_name (C.cluster cluster_name) hs
