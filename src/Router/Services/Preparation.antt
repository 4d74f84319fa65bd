-- ===== src/Router/Services/Preparation.antt =====
-- prepareUpstreamRequest gives an error or a pool.
use Prim.Native.String.{String, ◌++◌ as str_append}
use meta_protocol_proxy.Base.{◌≡◌, refl, true, false, Option, none, some, Bool-cases, inl, inr}
use meta_protocol_proxy.Codec.{ErrorType, Error}
use meta_protocol_proxy.Router.Services.{
  ClusterManagerApi, PrepareUpstreamRequestResult, from_cluster, from_pool,
  prepare_upstream_request,
}

module _ (C : ClusterManagerApi) where
  open C use {Cluster, Pool}

  -- When a cluster cannot be used, with the error and the detail.
  pub data Refuses (name : String) : Error → String → Type 0 where
    unknown :
        C.thread_local_cluster name ≡ none
        → Refuses name
            (record {
              type = ErrorType.cluster_not_found;
              message = str_append "meta protocol router: unknown cluster '" (str_append name "'");
            })
            "unknown_cluster"
    maintained :
        (c : Cluster)
        → C.thread_local_cluster name ≡ some c
        → C.maintenance_mode c ≡ true
        → Refuses name
            (record {
              type = ErrorType.unspecified;
              message =
                  str_append "meta protocol router: maintenance mode for cluster '"
                    (str_append name "'");
            })
            "cluster_in_maintenance_mode"
    unhealthy :
        (c : Cluster)
        → C.thread_local_cluster name ≡ some c
        → C.maintenance_mode c ≡ false
        → C.tcp_conn_pool c ≡ none
        → Refuses name
            (record {
              type = ErrorType.no_healthy_upstream;
              message =
                  str_append "meta protocol router: no healthy upstream for '"
                    (str_append name "'");
            })
            "no_healthy_upstream"

  -- When a cluster can be used, with the pool.
  pub data Offers (name : String) : Pool → Type 0 where
    offered :
        (c : Cluster) (p : Pool)
        → C.thread_local_cluster name ≡ some c
        → C.maintenance_mode c ≡ false
        → C.tcp_conn_pool c ≡ some p
        → Offers name p

  pub data Prepared (name : String) : PrepareUpstreamRequestResult Pool → Type 0 where
    refuses :
        (e : Error) (detail : String)
        → Refuses name e detail
        → Prepared name
            (record { exception = some e; conn_pool_data = none; response_code_detail = detail })
    offers :
        (p : Pool)
        → Offers name p
        → Prepared name
            (record { exception = none; conn_pool_data = some p; response_code_detail = "" })

  from_pool-Prepared :
      (name : String) (c : Cluster) (o : Option Pool)
      → C.thread_local_cluster name ≡ some c
      → C.maintenance_mode c ≡ false
      → C.tcp_conn_pool c ≡ o
      → Prepared name (from_pool C name o)
  unfolding from_pool
  from_pool-Prepared name c none known up e = refuses _ _ (unhealthy c known up e)
  from_pool-Prepared name c (some p) known up e = offers p (offered c p known up e)

  from_cluster-Prepared :
      (name : String) (o : Option Cluster)
      → C.thread_local_cluster name ≡ o
      → Prepared name (from_cluster C name o)
  unfolding from_cluster
  from_cluster-Prepared name none e = refuses _ _ (unknown e)
  from_cluster-Prepared name (some c) e = elim (Bool-cases (C.maintenance_mode c)) [
    | inl m ↦ rw m (refuses _ _ (maintained c e m))
    | inr m ↦ rw m (from_pool-Prepared name c (C.tcp_conn_pool c) e m refl)
  ]

  pub prepare_upstream_request-Prepared :
      (name : String) → Prepared name (prepare_upstream_request C name)
  unfolding prepare_upstream_request
  prepare_upstream_request-Prepared name =
      from_cluster-Prepared name (C.thread_local_cluster name) refl
