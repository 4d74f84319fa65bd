-- ===== src/ConnManager/Downstream/Closing.antt =====
-- What a closing message of the upstream does to its stream.
use meta_protocol_proxy.Base.{
  ℕ, suc, ◌≡◌, ◌≢◌, refl, ap, ◌∙◌, Bool, true, false, Option, none, some, List, [], ◌∷◌, ◌++◌, ◌==◌,
  ◌||◌, if◌then◌else◌, ok, panics, arith,
}
use meta_protocol_proxy.Codec.{MessageType, DecodeStatus}
use meta_protocol_proxy.Buffer.{BufferApi}
use meta_protocol_proxy.Metadata.{HeaderMapApi, Metadata, new_metadata}
use meta_protocol_proxy.Decoder.{CodecApi}
use meta_protocol_proxy.ConnManager.{Stream, Manager, find_stream, close_stream}
use meta_protocol_proxy.ConnManager.Streams.{find_stream-assign_stream, find_stream-erase_stream}
use meta_protocol_proxy.ConnManager.Downstream.{
  closes, Sending, clear, written, stored, handle_response, after_decode, with_stream,
  send_to_downstream,
}

module _ (B : BufferApi) (H : HeaderMapApi) (K : CodecApi B H) where
  open B use {Buffer, bytes, size}

  abbrev pub blank_response : Metadata B H
  blank_response = record (new_metadata B H) { message_type = MessageType.response }

  -- How a message of a type, with the end of the upstream's data or without, ends its stream.
  pub data EndsStream (s : Stream) : MessageType → Bool → Type 0 where
    end_of_data : {t : MessageType} → EndsStream s t true
    one_way_close : {end_stream : Bool} → EndsStream s MessageType.stream_close_one_way end_stream
    two_way_close : {end_stream : Bool} → EndsStream s MessageType.stream_close_two_way end_stream
    closed_before :
        {t : MessageType} {end_stream : Bool} → s.server_closed ≡ true → EndsStream s t end_stream

  -- The connection after a closing message.
  abbrev closed_by : ℕ → Stream → Metadata B H → Manager → Manager
  closed_by id s m c =
      close_stream id (stored B H K id (closes m.message_type s) (written B H K m c))

  gone :
      (id : ℕ) (s : Stream) (m : Metadata B H) (c : Manager)
      → find_stream id (closed_by id s m c).streams ≡ none
  unfolding close_stream
  gone id s m c = find_stream-erase_stream id id _ ∙ ground arith

  handled :
      (id : ℕ) (end_stream : Bool) (s : Stream) (m : Metadata B H) (c : Manager)
      (sent : List (List ℕ))
      → (end_stream || (closes m.message_type s).server_closed) ≡ true
      → (closes m.message_type s).upstream ≡ some sent
      → handle_response B H K id end_stream s m c ≡ ok (closed_by id s m c)
  unfolding handle_response clear
  handled id end_stream s m c sent closing up = rw (closing, clear, up) refl

  closes-upstream : (t : MessageType) (s : Stream) → (closes t s).upstream ≡ s.upstream
  closes-upstream MessageType.stream_close_one_way s = refl
  closes-upstream MessageType.stream_close_two_way s = refl
  closes-upstream MessageType.request s = refl
  closes-upstream MessageType.response s = refl
  closes-upstream MessageType.oneway s = refl
  closes-upstream MessageType.stream_init s = refl
  closes-upstream MessageType.stream_data s = refl
  closes-upstream MessageType.heartbeat s = refl
  closes-upstream MessageType.error s = refl

  closes-server_closed :
      (t : MessageType) (s : Stream) → s.server_closed ≡ true → (closes t s).server_closed ≡ true
  closes-server_closed MessageType.request s e = e
  closes-server_closed MessageType.response s e = e
  closes-server_closed MessageType.oneway s e = e
  closes-server_closed MessageType.stream_init s e = e
  closes-server_closed MessageType.stream_data s e = e
  closes-server_closed MessageType.stream_close_one_way s e = refl
  closes-server_closed MessageType.stream_close_two_way s e = refl
  closes-server_closed MessageType.heartbeat s e = e
  closes-server_closed MessageType.error s e = e

  EndsStream-closing :
      {s : Stream} {t : MessageType} {end_stream : Bool}
      → EndsStream s t end_stream
      → (end_stream || (closes t s).server_closed) ≡ true
  EndsStream-closing end_of_data = refl
  EndsStream-closing one_way_close = ground arith
  EndsStream-closing two_way_close = ground arith
  EndsStream-closing {s = s} {t = t} (closed_before e) =
      rw (closes-server_closed t s e) (ground arith)

  others :
      (id j : ℕ) (s : Stream) (m : Metadata B H) (c : Manager)
      → j ≢ id
      → find_stream j (closed_by id s m c).streams ≡ find_stream j c.streams
  unfolding close_stream
  others id j s m c ne =
      find_stream-erase_stream j id _
      ∙ ground (arith, find_stream-assign_stream j id (closes m.message_type s) c.streams)

  next_round :
      (fuel id : ℕ) (end_stream : Bool) (w : Sending B H K)
      → find_stream id w.manager.streams ≡ none
      → send_to_downstream B H K (suc fuel) id end_stream w
        ≡ (if size w.data_buffer == 0 then ok w else panics)
  unfolding send_to_downstream with_stream
  next_round fuel id end_stream w e =
      ap
        (λ (o : Option Stream).
          if size w.data_buffer == 0
          then ok w
          else with_stream B H K (send_to_downstream B H K fuel id end_stream) id end_stream o w)
        e

  first_round :
      (fuel id : ℕ) (end_stream : Bool) (w : Sending B H K) (s : Stream)
      → size w.data_buffer ≢ 0
      → find_stream id w.manager.streams ≡ some s
      → send_to_downstream B H K (suc fuel) id end_stream w
        ≡ with_stream B H K (send_to_downstream B H K fuel id end_stream) id end_stream (some s) w
  unfolding send_to_downstream
  first_round fuel id end_stream w s some_data e =
      rw (e, nonzero (size w.data_buffer) some_data) refl
    where
      nonzero : (n : ℕ) → n ≢ 0 → (n == 0) ≡ false
      nonzero n ne = ground arith

  -- A message that ends its stream: by the end of the upstream's data, by its type, which closes one
  -- side or both, or since the side of the server was closed before. Its bytes are written downstream
  -- behind the earlier writes, once; the stream is taken from the connection, and the other streams
  -- and the messages are as before. When it is the last of the data, that is all; when more data
  -- stands behind it, the loop goes on with the stream that it has destroyed, and crashes.
  pub send_to_downstream_closing :
      (fuel id j : ℕ) (end_stream : Bool) (w : Sending B H K) (s : Stream) (k : K.State)
      (b : Buffer) (m : Metadata B H) (sent : List (List ℕ))
      → size w.data_buffer ≢ 0
      → find_stream id w.manager.streams ≡ some s
      → s.upstream ≡ some sent
      → K.decode w.codec w.data_buffer blank_response ≡ ok (DecodeStatus.done, k, b, m)
      → EndsStream s m.message_type end_stream
      → j ≢ id
      → (c : Manager) × (send_to_downstream B H K (suc (suc fuel)) id end_stream w ≡ (
          if size b == 0 then ok (record { manager = c; codec = k; data_buffer = b }) else panics))
        × (c.writes ≡ w.manager.writes ++ bytes m.origin_message ∷ [])
        × (find_stream id c.streams ≡ none)
        × (find_stream j c.streams ≡ find_stream j w.manager.streams)
        × (c.messages ≡ w.manager.messages)
  unfolding with_stream after_decode close_stream
  send_to_downstream_closing fuel id j end_stream w s k b m sent some_data there up d ends ne = (
    closed_by id s m w.manager,
    first_round (suc fuel) id end_stream w s some_data there
        ∙ rw
            (
              d,
              handled id end_stream s m w.manager sent (EndsStream-closing ends)
                  (closes-upstream m.message_type s ∙ up),
            )
            (next_round fuel id end_stream
              (record { manager = closed_by id s m w.manager; codec = k; data_buffer = b })
              (gone id s m w.manager)),
    refl,
    gone id s m w.manager,
    others id j s m w.manager ne,
    refl,
  )
