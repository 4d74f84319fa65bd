-- ===== src/RequestId/TraceReasons.antt =====
-- The reason that is packed into a request ID.
use Prim.Native.Char.{Char, code}
use Prim.Native.String.{String}
use meta_protocol_proxy.Base.{
  ℕ, zero, suc, ◌<◌, ◌≤◌, ◌≡◌, ◌≢◌, refl, sym, ap, ◌∙◌, true, false, Option, ok, arith,
}
use meta_protocol_proxy.Buffer.{BufferApi}
use meta_protocol_proxy.Metadata.{HeaderMapApi, Metadata, get_string, put_string}
use meta_protocol_proxy.Metadata.Strings.{get_string-put_string}
use meta_protocol_proxy.RequestId.{
  TraceReason, not_traceable, health_check, sampling, service_forced, client_forced, size_of,
  code_at, set_at, prefix, is_empty, request_uuid, uuid_length, trace_byte_position, reason_of_byte,
  mark, reason_of, integer_of, to_integer, get_trace_reason, set_trace_reason,
}

size_of-set_at : (n : ℕ) (d : Char) (s : String) → size_of (set_at n d s) ≡ size_of s
size_of-set_at n d String.[] = refl
size_of-set_at zero d (String.◌∷◌ c s) = refl
size_of-set_at (suc n) d (String.◌∷◌ c s) = ap suc (size_of-set_at n d s)

code_at-set_at : (n : ℕ) (d : Char) (s : String) → n < size_of s → code_at n (set_at n d s) ≡ code d
code_at-set_at n d String.[] lt = absurd (omega arith)
code_at-set_at zero d (String.◌∷◌ c s) lt = refl
code_at-set_at (suc n) d (String.◌∷◌ c s) lt = code_at-set_at n d s (omega arith)

prefix-set_at : (k n : ℕ) (d : Char) (s : String) → k ≤ n → prefix k (set_at n d s) ≡ prefix k s
prefix-set_at zero n d s le = refl
prefix-set_at (suc k) n d String.[] le = refl
prefix-set_at (suc k) zero d (String.◌∷◌ c s) le = absurd (omega arith)
prefix-set_at (suc k) (suc n) d (String.◌∷◌ c s) le =
    ap (String.◌∷◌ c) (prefix-set_at k n d s (omega arith))

size_of-mark : (r : TraceReason) (s : String) → size_of (mark r s) ≡ size_of s
size_of-mark not_traceable s = size_of-set_at _ _ s
size_of-mark health_check s = refl
size_of-mark sampling s = size_of-set_at _ _ s
size_of-mark service_forced s = size_of-set_at _ _ s
size_of-mark client_forced s = size_of-set_at _ _ s

prefix-mark : (r : TraceReason) (s : String) → prefix 8 (mark r s) ≡ prefix 8 s
prefix-mark not_traceable s = prefix-set_at 8 _ _ s (omega arith)
prefix-mark health_check s = refl
prefix-mark sampling s = prefix-set_at 8 _ _ s (omega arith)
prefix-mark service_forced s = prefix-set_at 8 _ _ s (omega arith)
prefix-mark client_forced s = prefix-set_at 8 _ _ s (omega arith)

-- A UUID is not empty.
is_empty_uuid : (s : String) → size_of s ≡ uuid_length → is_empty s ≡ false
is_empty_uuid String.[] e = absurd (omega arith)
is_empty_uuid (String.◌∷◌ c s) e = refl

reason_of_uuid :
    (s : String)
    → size_of s ≡ uuid_length
    → reason_of s ≡ reason_of_byte (code_at trace_byte_position s)
reason_of_uuid s e = rw (is_empty_uuid s e, e) refl

reason_of-set_at :
    (d : Char) (s : String)
    → size_of s ≡ uuid_length
    → reason_of (set_at trace_byte_position d s) ≡ reason_of_byte (code d)
reason_of-set_at d s e =
    reason_of_uuid (set_at trace_byte_position d s) (size_of-set_at trace_byte_position d s ∙ e)
    ∙ ap reason_of_byte (code_at-set_at trace_byte_position d s (omega arith))

pub reason_of-mark :
    (r : TraceReason) (s : String)
    → size_of s ≡ uuid_length
    → r ≢ health_check
    → reason_of (mark r s) ≡ r
reason_of-mark not_traceable s e ne = reason_of-set_at _ s e
reason_of-mark health_check s e ne = absurd (ne refl)
reason_of-mark sampling s e ne = reason_of-set_at _ s e
reason_of-mark service_forced s e ne = reason_of-set_at _ s e
reason_of-mark client_forced s e ne = reason_of-set_at _ s e

pub integer_of-mark :
    (atoull : String → Option ℕ) (r : TraceReason) (s : String)
    → size_of s ≡ uuid_length
    → integer_of atoull (mark r s) ≡ integer_of atoull s
integer_of-mark atoull r s e =
    rw
      (
        is_empty_uuid (mark r s) (size_of-mark r s ∙ e),
        is_empty_uuid s e,
        size_of-mark r s,
        prefix-mark r s,
      )
      refl

module _ (B : BufferApi) (H : HeaderMapApi) where
  -- A request whose ID has the length of a UUID.
  pub record HasUuid (uuid : String) (m : Metadata B H) : Type 0 where
    pub there : get_string B H request_uuid m ≡ ok uuid
    pub long : size_of uuid ≡ uuid_length

  pub marked : TraceReason → String → Metadata B H → Metadata B H
  marked r uuid m = put_string B H request_uuid (mark r uuid) m

  pub set_trace_reason-marked :
      (r : TraceReason) (uuid : String) (m : Metadata B H)
      → HasUuid uuid m
      → set_trace_reason B H true r m ≡ ok (marked r uuid m)
  unfolding set_trace_reason marked
  set_trace_reason-marked r uuid m u = rw (u.there, is_empty_uuid uuid u.long, u.long) refl

  pub marked-HasUuid :
      (r : TraceReason) (uuid : String) (m : Metadata B H)
      → HasUuid uuid m
      → HasUuid (mark r uuid) (marked r uuid m)
  unfolding marked
  marked-HasUuid r uuid m u = record {
    there = get_string-put_string B H request_uuid (mark r uuid) m;
    long = size_of-mark r uuid ∙ u.long;
  }

  pub get_trace_reason-HasUuid :
      (uuid : String) (m : Metadata B H)
      → HasUuid uuid m
      → get_trace_reason B H m ≡ ok (reason_of uuid)
  unfolding get_trace_reason
  get_trace_reason-HasUuid uuid m u = rw (u.there) refl

  pub to_integer-HasUuid :
      (atoull : String → Option ℕ) (uuid : String) (m : Metadata B H)
      → HasUuid uuid m
      → to_integer B H atoull m ≡ ok (integer_of atoull uuid)
  unfolding to_integer
  to_integer-HasUuid atoull uuid m u = rw (u.there) refl

  -- For a request ID of the length of a UUID and a reason that is not HealthCheck, setTraceReason with
  -- packing switched on gives a request from which getTraceReason reads that reason back, and whose
  -- request ID is the same number as before, so that the sampling by that number is not changed.
  pub get_trace_reason-set_trace_reason :
      (atoull : String → Option ℕ) (r : TraceReason) (uuid : String) (m : Metadata B H)
      → HasUuid uuid m
      → r ≢ health_check
      → (m' : Metadata B H) × (set_trace_reason B H true r m ≡ ok m')
        × (get_trace_reason B H m' ≡ ok r)
        × (to_integer B H atoull m' ≡ to_integer B H atoull m)
  get_trace_reason-set_trace_reason atoull r uuid m u ne =
      let u' = marked-HasUuid r uuid m u in
      (
        marked r uuid m,
        set_trace_reason-marked r uuid m u,
        get_trace_reason-HasUuid _ _ u' ∙ ap ok (reason_of-mark r uuid u.long ne),
        to_integer-HasUuid atoull _ _ u'
            ∙ ap ok (integer_of-mark atoull r uuid u.long)
            ∙ sym (to_integer-HasUuid atoull uuid m u),
      )
