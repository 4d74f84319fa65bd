-- ===== src/Thrift/Codec/Sound.antt =====
-- The codec over a protocol and a transport that return or throw.
use Prim.Native.String.{String}
use meta_protocol_proxy.Base.{
  ℕ, ◌≡◌, refl, subst, Bool, true, false, Option, none, some, if◌then◌else◌, ◌>>=◌, inl, inr,
  AnyValue, Safely, gives, fails, Safely-bind, Safely-if, ◌==◌,
}
use meta_protocol_proxy.Buffer.{BufferApi}
use meta_protocol_proxy.Codec.{DecodeStatus}
use meta_protocol_proxy.Metadata.{HeaderMapApi, Metadata}
use meta_protocol_proxy.Thrift.Protocol as Thrift
use meta_protocol_proxy.Thrift.Protocol.{
  ProtocolType, MessageMetadata, type_number, ProtocolApi, TransportApi,
}
use meta_protocol_proxy.Thrift.State.{ProtocolState}
use meta_protocol_proxy.Thrift.Machine.{Machine, new_machine}
use meta_protocol_proxy.Thrift.Machine.Ready.{Ready}
use meta_protocol_proxy.Thrift.Machine.Steps.{Behaves, Settled}
use meta_protocol_proxy.Thrift.Machine.Safety.{run-Settled}
use meta_protocol_proxy.Thrift.Codec.{
  Message, ThriftCodec, complete, type_of, to_metadata, kept, finished, after_run, run_machine,
  checked_protocol, checked_exception, started, frame_start, metadata_or_new, decode,
}

module _ (B : BufferApi) (H : HeaderMapApi) (P : ProtocolApi B) (T : TransportApi B P.Others) where
  open B use {Buffer}

  -- A transport whose calls return or throw.
  pub record Carries : Type 0 where
    pub frame_start :
        (m : MessageMetadata P.Others) (t : T.State) (b : Buffer)
        → Safely AnyValue (T.decode_frame_start m t b)
    pub frame_end : (t : T.State) (b : Buffer) → Safely AnyValue (T.decode_frame_end t b)
    pub encode :
        (m : MessageMetadata P.Others) (b o : Buffer) (t : T.State)
        → Safely AnyValue (T.encode_frame m b o t)

  -- A frame that has started has its metadata and a machine whose stack fits its state.
  abbrev pub HasMachine : Bool → Option (Message B H P T) → Option (Machine B P) → Type 0
  HasMachine false msg w = Unit
  HasMachine true (some msg) (some w) = Ready w.state w.stack × (w.passthrough_enabled ≡ false)
  HasMachine true _ _ = ⊥

  pub record IsSound (c : ThriftCodec B H P T) : Type 0 where
    pub going : c.frame_ended ≡ false
    pub machine : HasMachine c.frame_started c.metadata c.state_machine

  -- What a call of decode leaves: after Done the codec is as for a new frame.
  abbrev pub Decoded : DecodeStatus → ThriftCodec B H P T → Type 0
  Decoded DecodeStatus.wait_for_data c = IsSound c
  Decoded DecodeStatus.done c =
      IsSound c × (c.frame_started ≡ false) × (c.state_machine ≡ none) × (c.metadata ≡ none)

  abbrev Leaves : DecodeStatus × ThriftCodec B H P T × Buffer × Metadata B H → Type 0
  Leaves t = Decoded t.0 t.1

  module _ (h : Behaves B P) (k : Carries) where
    type_of-Safely : (t : Option Thrift.MessageType) → Safely AnyValue (type_of B H P T t)
    unfolding type_of
    type_of-Safely none = fails
    type_of-Safely (some t) = gives tt

    to_metadata-Safely :
        (msg : Message B H P T) (o : Buffer) (t : T.State) (m : Metadata B H)
        → Safely AnyValue (to_metadata B H P T msg o t m)
    unfolding to_metadata
    to_metadata-Safely msg o t m =
        Safely-bind (type_of-Safely msg.message_type)
          (λ type _. Safely-bind (k.encode msg _ o t) (λ u _. gives tt))

    finished-Leaves :
        (c : ThriftCodec B H P T) (msg : Message B H P T) (w : Machine B P) (m : Metadata B H)
        (o : Option (Unit {0})) (t : T.State) (b : Buffer)
        → IsSound c
        → Safely Leaves (finished B H P T c msg w m (o, t, b))
    unfolding finished complete
    finished-Leaves c msg w m none t b s = gives (record { going = s.going; machine = s.machine })
    finished-Leaves c msg w m (some v) t b s =
        Safely-bind (to_metadata-Safely msg w.origin_message t m)
          (λ u _. gives (record { going = refl; machine = tt }, refl, refl, refl))

    after_run-Leaves :
        (c : ThriftCodec B H P T) (m : Metadata B H) (t : ProtocolState × Machine B P)
        → c.frame_ended ≡ false
        → c.frame_started ≡ true
        → Settled B P t
        → Safely Leaves (after_run B H P T c m t)
    unfolding after_run
    after_run-Leaves c m (s, w) going started (inl (e, at_end, off)) = rw e (
        Safely-bind (k.frame_end c.transport w.buffer) (λ u _.
          finished-Leaves (kept B H P T c w) w.metadata w m u.0 u.1 u.2
            (record { going = going; machine = rw (started, at_end) (tt, off) })))
    after_run-Leaves c m (s, w) going started (inr (e, ready, busy, off)) =
        rw e (gives (record { going = going; machine = rw started (ready, off) }))

    run_machine-Leaves :
        (c : ThriftCodec B H P T) (msg : Option (Message B H P T)) (w : Option (Machine B P))
        (b : Buffer) (m : Metadata B H)
        → c.frame_ended ≡ false
        → c.frame_started ≡ true
        → HasMachine true msg w
        → Safely Leaves (run_machine B H P T c msg w b m)
    unfolding run_machine
    run_machine-Leaves c none w b m going started has = absurd has
    run_machine-Leaves c (some msg) none b m going started has = absurd has
    run_machine-Leaves c (some msg) (some w) b m going started (ready, off) =
        Safely-bind
          (run-Settled B P h (record w { protocol = c.protocol; metadata = msg; buffer = b }) ready
            off)
          (λ t settled. after_run-Leaves c m t going started settled)

    checked_protocol-Safely :
        (o : Option ProtocolType) (p : P.State) → Safely AnyValue (checked_protocol B H P T o p)
    unfolding checked_protocol
    checked_protocol-Safely none p = gives tt
    checked_protocol-Safely (some type) p =
        Safely-if {b = type_number (P.type p) == type_number ProtocolType.auto} (λ _. gives tt)
          (λ _.
            Safely-if {b = type_number type == type_number (P.type p)} (λ _. gives tt) (λ _. fails))

    checked_exception-Safely :
        (o : Option (ℕ × String)) → Safely AnyValue (checked_exception B H P T o)
    unfolding checked_exception
    checked_exception-Safely none = gives tt
    checked_exception-Safely (some e) = fails

    frame_start-Leaves :
        (c : ThriftCodec B H P T) (msg : Message B H P T) (m : Metadata B H)
        (o : Option (Message B H P T)) (t : T.State) (b : Buffer)
        → c.frame_ended ≡ false
        → c.frame_started ≡ false
        → Safely Leaves (frame_start B H P T c msg m (o, t, b))
    unfolding frame_start
    frame_start-Leaves c msg m none t b going idle =
        gives (record { going = going; machine = rw idle tt })
    frame_start-Leaves c msg m (some msg') t b going idle =
        Safely-bind (checked_protocol-Safely msg'.protocol c.protocol) (λ p _.
          Safely-bind (checked_exception-Safely msg'.app_exception) (λ _ _.
            run_machine-Leaves (started B H P T c p t msg' b) (some msg')
              (some (new_machine B P p msg' b)) b m going refl (tt, refl)))

    -- Over a protocol and a transport whose calls return or throw, where a field, a container and a
    -- value take a byte each: decode on a codec between two calls returns or throws, it never crashes
    -- nor loops. Where it returns, the codec is between two calls again; after Done, it is as for a
    -- new frame, with no machine and no metadata.
    pub decode-IsSound :
        (c : ThriftCodec B H P T) (b : Buffer) (m : Metadata B H)
        → IsSound c
        → Safely Leaves (decode B H P T c b m)
    unfolding decode
    decode-IsSound c b m s =
        Safely-if {b = c.frame_ended} (λ (e : c.frame_ended ≡ true). absurd (cc (s.going)))
          (λ _. by_start c.frame_started refl)
      where
        by_start :
            (started : Bool)
            → c.frame_started ≡ started
            → Safely Leaves (
                if started
                then run_machine B H P T c c.metadata c.state_machine b m
                else (T.decode_frame_start (metadata_or_new B H P T c.metadata) c.transport b
                    >>= frame_start B H P T c (metadata_or_new B H P T c.metadata) m))
        by_start true e =
            run_machine-Leaves c c.metadata c.state_machine b m s.going e
              (subst (λ (on : Bool). HasMachine on c.metadata c.state_machine) e s.machine)
        by_start false e =
            Safely-bind (k.frame_start (metadata_or_new B H P T c.metadata) c.transport b) (λ t _.
              frame_start-Leaves c (metadata_or_new B H P T c.metadata) m t.0 t.1 t.2 s.going e)
