-- ===== src/Router/Tracing/Decisions.antt =====
-- The decision to trace, and the request ID that carries it on.
use Prim.Native.String.{String}
use meta_protocol_proxy.Base.{
  ℕ, ◌≡◌, ◌≢◌, refl, sym, ap, subst, ◌∙◌, Bool, true, false, Option, some, ◌%◌, ◌&&◌, not,
  if◌then◌else◌, Outcome, ok, ◌>>=◌,
}
use meta_protocol_proxy.Buffer.{BufferApi}
use meta_protocol_proxy.Metadata.{HeaderMapApi, Metadata, get_string}
use meta_protocol_proxy.RequestId.{
  TraceReason, not_traceable, health_check, sampling, service_forced, client_forced, is_empty,
  reason_of, integer_of, get_trace_reason, to_integer, mark,
}
use meta_protocol_proxy.RequestId.TraceReasons.{
  HasUuid, marked, marked-HasUuid, set_trace_reason-marked, get_trace_reason-HasUuid,
  to_integer-HasUuid, reason_of-mark, integer_of-mark,
}
use meta_protocol_proxy.Router.Tracing.{
  client_trace_id, envoy_force_trace, TracingConfig, is_not_traceable, Decision, decide, choose,
  limit, first_span, with_number, mutate_tracing_request_metadata,
}

module _ (B : BufferApi) (H : HeaderMapApi) (T : TracingConfig) where
  -- A decision that the request ID carries; the ID stands for the number o.
  record Carried (o : Option ℕ) (d : Decision B H) : Type 0 where
    pub uuid : String
    pub has_uuid : HasUuid B H uuid d.1
    pub reason : reason_of uuid ≡ d.0
    pub number : integer_of T.atoull uuid ≡ o

  -- A call that decides and carries its decision.
  abbrev Carries : Option ℕ → Outcome (Decision B H) → Type 0
  Carries o c = (d : Decision B H) × (c ≡ ok d) × Carried o d

  decide-Carries :
      (o : Option ℕ) (r : TraceReason) (d : Decision B H)
      → T.pack_trace_reason ≡ true
      → r ≢ health_check
      → Carried o d
      → Carries o (decide B H T r d.1)
  decide-Carries o r d pack ne c = (
    (r, marked B H r c.uuid d.1),
    rw (pack, set_trace_reason-marked B H r c.uuid d.1 c.has_uuid) refl,
    record {
      uuid = mark r c.uuid;
      has_uuid = marked-HasUuid B H r c.uuid d.1 c.has_uuid;
      reason = reason_of-mark r c.uuid c.has_uuid.long ne;
      number = integer_of-mark T.atoull r c.uuid c.has_uuid.long ∙ c.number;
    },
  )

  if-Carries :
      (o : Option ℕ) (b : Bool) (x y : Outcome (Decision B H))
      → Carries o x
      → Carries o y
      → Carries o (if b then x else y)
  if-Carries o true x y p q = p
  if-Carries o false x y p q = q

  bind-Carries :
      (o : Option ℕ) (x : Outcome (Decision B H)) (f : Decision B H → Outcome (Decision B H))
      → Carries o x
      → ((d : Decision B H) → Carried o d → Carries o (f d))
      → Carries o (x >>= f)
  bind-Carries o x f (d, e, c) g = subst (λ t. Carries o (t >>= f)) (sym e) (g d c)

  choose-Carries :
      (o : Option ℕ) (has_client_trace_id force_trace : Bool) (n : ℕ) (d : Decision B H)
      → T.pack_trace_reason ≡ true
      → Carried o d
      → Carries o (choose B H T has_client_trace_id force_trace n d.0 d.1)
  unfolding choose
  choose-Carries o h f n d pack c =
      if-Carries o (h && T.client_enabled) _ _ (decide-Carries o client_forced d pack (λ e. cc) c) (
        if-Carries o f _ _ (decide-Carries o service_forced d pack (λ e. cc) c) (
          if-Carries o (T.random_sampling n) _ _ (decide-Carries o sampling d pack (λ e. cc) c)
            (d, refl, c)))

  limit-Carries :
      (o : Option ℕ) (n : ℕ) (d : Decision B H)
      → T.pack_trace_reason ≡ true
      → Carried o d
      → Carries o (limit B H T n d)
  unfolding limit
  limit-Carries o n d pack c =
      if-Carries o (not (is_not_traceable d.0) && not (T.global_enabled n)) _ _
        (decide-Carries o not_traceable d pack (λ e. cc) c) (d, refl, c)

  mutate_tracing_numbered :
      (b : Bool) (n : ℕ) (r : TraceReason) (m : Metadata B H)
      → T.use_request_id_for_trace_sampling ≡ true
      → to_integer B H T.atoull m ≡ ok (some n)
      → get_trace_reason B H m ≡ ok r
      → mutate_tracing_request_metadata B H T b m
        ≡ (if b then first_span B H T (n % 10000) r m else ok (r, m))
  unfolding mutate_tracing_request_metadata with_number
  mutate_tracing_numbered b n r m uses number reads =
      ap
        (λ (u : Bool).
          if not u
          then ok (sampling, m)
          else (to_integer B H T.atoull m >>= λ (o : Option ℕ). with_number B H T b o m))
        uses
      ∙ ap (λ (c : Outcome (Option ℕ)). c >>= λ (o : Option ℕ). with_number B H T b o m) number
      ∙ ap
          (λ (c : Outcome TraceReason).
            c >>= λ (r : TraceReason). if b then first_span B H T (n % 10000) r m else ok (r, m))
          reads

  first_span-Carries :
      (o : Option ℕ) (n : ℕ) (client force : String) (d : Decision B H)
      → T.pack_trace_reason ≡ true
      → get_string B H client_trace_id d.1 ≡ ok client
      → get_string B H envoy_force_trace d.1 ≡ ok force
      → Carried o d
      → Carries o (first_span B H T n d.0 d.1)
  unfolding first_span
  first_span-Carries o n client force d pack c f start =
      rw (c, f)
        (bind-Carries o _ (limit B H T n)
          (choose-Carries o (not (is_empty client)) (not (is_empty force)) n d pack start)
          (λ d. limit-Carries o n d pack))

  Carried-reads :
      (n : ℕ) (d : Decision B H)
      → Carried (some n) d
      → (get_trace_reason B H d.1 ≡ ok d.0) × (to_integer B H T.atoull d.1 ≡ ok (some n))
  Carried-reads n d c = (
    get_trace_reason-HasUuid B H c.uuid d.1 c.has_uuid ∙ ap ok c.reason,
    to_integer-HasUuid B H T.atoull c.uuid d.1 c.has_uuid ∙ ap ok c.number,
  )

  -- Where the request ID decides the sampling and packs the reason, and the ID of the request has the
  -- length of a UUID and reads as a number: on a first span, whose two headers for forced tracing read
  -- as strings, the call returns a reason and the metadata whose request ID carries that very reason
  -- and the same number, so that a later span of the trace reads the same decision, which is what the
  -- call returns there, with the metadata as it is.
  pub mutate_tracing_request_metadata_agrees :
      (uuid client force : String) (n : ℕ) (m : Metadata B H)
      → T.use_request_id_for_trace_sampling ≡ true
      → T.pack_trace_reason ≡ true
      → HasUuid B H uuid m
      → integer_of T.atoull uuid ≡ some n
      → get_string B H client_trace_id m ≡ ok client
      → get_string B H envoy_force_trace m ≡ ok force
      → (r : TraceReason) × (m' : Metadata B H) × (mutate_tracing_request_metadata B H T true m
          ≡ ok (r, m'))
        × (get_trace_reason B H m' ≡ ok r)
        × (to_integer B H T.atoull m' ≡ ok (some n))
        × (mutate_tracing_request_metadata B H T false m' ≡ ok (r, m'))
  mutate_tracing_request_metadata_agrees uuid client force n m uses pack u number c f =
      let start : Carried (some n) (reason_of uuid, m) = record {
        uuid = uuid;
        has_uuid = u;
        reason = refl;
        number = number;
      } in
      let now = Carried-reads n (reason_of uuid, m) start in
      let (d, run, carried) =
        first_span-Carries (some n) (n % 10000) client force (reason_of uuid, m) pack c f start in
      let later = Carried-reads n d carried in
      (
        d.0,
        d.1,
        mutate_tracing_numbered true n (reason_of uuid) m uses now.1 now.0 ∙ run,
        later.0,
        later.1,
        mutate_tracing_numbered false n d.0 d.1 uses later.1 later.0,
      )
