-- ===== src/Router/Filter/Requests/Reads.antt =====
-- The request ID and the tracing of a request never crash: a property of another type than a string
-- is thrown at.
use Prim.Native.String.{String}
use meta_protocol_proxy.Base.{
  ℕ, Bool, Option, none, some, List, [], ◌∷◌, not, ◌&&◌, AnyValue, Safely, gives, fails,
  Safely-bind, Safely-if, ◌%◌,
}
use meta_protocol_proxy.Buffer.{BufferApi}
use meta_protocol_proxy.Metadata.{HeaderMapApi, Any, Metadata, get_string, get_by_key, cast_string}
use meta_protocol_proxy.Decoder.{Mutation}
use meta_protocol_proxy.RequestId.{
  TraceReason, request_uuid, is_empty, set, get, to_integer, get_trace_reason, set_trace_reason,
  client_forced, service_forced, sampling, not_traceable,
}
use meta_protocol_proxy.Router.Tracing.{
  TracingConfig, Decision, client_trace_id, envoy_force_trace, set_x_request_id, decide, choose,
  limit, first_span, with_number, mutate_tracing_request_metadata, is_not_traceable,
}
use meta_protocol_proxy.Router.Services.{tracing_headers, copy_headers, start_span}
use meta_protocol_proxy.Router.Filter.Requests.{Services, is_traced, trace_request}

module _ (B : BufferApi) (H : HeaderMapApi) where
  cast_string-Safely : (o : Option Any) → Safely AnyValue (cast_string o)
  unfolding cast_string
  cast_string-Safely none = gives tt
  cast_string-Safely (some (Any.string s)) = gives tt
  cast_string-Safely (some (Any.bool b)) = fails
  cast_string-Safely (some (Any.uint32 n)) = fails
  cast_string-Safely (some (Any.other n)) = fails

  get_string-Safely : (k : String) (m : Metadata B H) → Safely AnyValue (get_string B H k m)
  unfolding get_string
  get_string-Safely k m = cast_string-Safely (get_by_key B H k m)

  pub set_x_request_id-Safely :
      (uuid : String) (m : Metadata B H) (mutation : Mutation)
      → Safely AnyValue (set_x_request_id B H uuid m mutation)
  unfolding set_x_request_id set get
  set_x_request_id-Safely uuid m mutation =
      Safely-bind {P = AnyValue} (Safely-bind (get_string-Safely request_uuid m) (λ s _. gives tt))
        (λ t _.
          Safely-if {b = t.0}
            (λ _. Safely-bind (get_string-Safely request_uuid t.1) (λ v _. gives tt))
            (λ _. gives tt))

  module _ (T : TracingConfig) where
    decide-Safely : (r : TraceReason) (m : Metadata B H) → Safely AnyValue (decide B H T r m)
    unfolding set_trace_reason
    decide-Safely r m =
        Safely-bind {P = AnyValue}
          (Safely-bind (get_string-Safely request_uuid m) (λ s _. gives tt)) (λ m' _. gives tt)

    choose-Safely :
        (c f : Bool) (n : ℕ) (r : TraceReason) (m : Metadata B H)
        → Safely AnyValue (choose B H T c f n r m)
    unfolding choose
    choose-Safely c f n r m =
        Safely-if {b = c && T.client_enabled} (λ _. decide-Safely client_forced m)
          (λ _.
            Safely-if {b = f} (λ _. decide-Safely service_forced m)
              (λ _.
                Safely-if {b = T.random_sampling n} (λ _. decide-Safely sampling m)
                  (λ _. gives tt)))

    limit-Safely : (n : ℕ) (d : Decision B H) → Safely AnyValue (limit B H T n d)
    unfolding limit
    limit-Safely n (r, m) =
        Safely-if {b = not (is_not_traceable r) && not (T.global_enabled n)}
          (λ _. decide-Safely not_traceable m) (λ _. gives tt)

    first_span-Safely :
        (n : ℕ) (r : TraceReason) (m : Metadata B H) → Safely AnyValue (first_span B H T n r m)
    unfolding first_span
    first_span-Safely n r m = Safely-bind (get_string-Safely client_trace_id m) (λ c _.
        Safely-bind (get_string-Safely envoy_force_trace m) (λ f _.
          Safely-bind (choose-Safely (not (is_empty c)) (not (is_empty f)) n r m)
            (λ d _. limit-Safely n d)))

    with_number-Safely :
        (b : Bool) (o : Option ℕ) (m : Metadata B H) → Safely AnyValue (with_number B H T b o m)
    unfolding with_number get_trace_reason
    with_number-Safely b none m = gives tt
    with_number-Safely b (some n) m =
        Safely-bind {P = AnyValue}
          (Safely-bind (get_string-Safely request_uuid m) (λ s _. gives tt))
          (λ r _. Safely-if {b = b} (λ _. first_span-Safely (n % 10000) r m) (λ _. gives tt))

    mutate_tracing-Safely :
        (b : Bool) (m : Metadata B H) → Safely AnyValue (mutate_tracing_request_metadata B H T b m)
    unfolding mutate_tracing_request_metadata to_integer
    mutate_tracing-Safely b m =
        Safely-if {b = not T.use_request_id_for_trace_sampling} (λ _. gives tt)
          (λ _.
            Safely-bind {P = AnyValue}
              (Safely-bind (get_string-Safely request_uuid m) (λ s _. gives tt))
              (λ o _. with_number-Safely b o m))

  copy_headers-Safely :
      (ks : List String) (m : Metadata B H) (mutation : Mutation)
      → Safely AnyValue (copy_headers B H ks m mutation)
  unfolding copy_headers
  copy_headers-Safely [] m mutation = gives tt
  copy_headers-Safely (k ∷ ks) m mutation =
      Safely-bind (get_string-Safely k m) (λ v _. copy_headers-Safely ks m _)

  start_span-Safely :
      (inject : TraceReason → Metadata B H → Metadata B H) (r : TraceReason) (m : Metadata B H)
      (mutation : Mutation)
      → Safely AnyValue (start_span B H inject r m mutation)
  unfolding start_span
  start_span-Safely inject r m mutation =
      Safely-bind (copy_headers-Safely tracing_headers (inject r m) mutation) (λ mu _.
        Safely-bind (get_string-Safely request_uuid (inject r m))
          (λ x _. Safely-bind (get_string-Safely client_trace_id (inject r m)) (λ c _. gives tt)))

  module _ (S : Services B H) where
    pub trace_request-Safely :
        (o : Option TracingConfig) (first : Bool) (m : Metadata B H) (mutation : Mutation)
        → Safely AnyValue (trace_request B H S o first m mutation)
    unfolding trace_request
    trace_request-Safely none first m mutation = gives tt
    trace_request-Safely (some T) first m mutation =
        Safely-bind (mutate_tracing-Safely T first m) (λ d _.
          Safely-if {b = is_traced d.0}
            (λ _. Safely-bind (start_span-Safely S.inject d.0 d.1 mutation) (λ t _. gives tt))
            (λ _. gives tt))
