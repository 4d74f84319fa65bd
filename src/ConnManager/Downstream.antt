-- ===== src/ConnManager/Downstream.antt =====
-- The way downstream: Stream::send2downstream and clear of src/meta_protocol_proxy/stream.cc, and the
-- heartbeats, ConnectionManager::onHeartbeat of conn_manager.cc with heartbeat_response.cc.
pub mod Closing
use meta_protocol_proxy.Base.{
  ℕ, zero, suc, ◌+◌, Bool, true, false, Option, none, some, List, [], ◌∷◌, ◌++◌, ◌==◌, ◌||◌, not,
  if◌then◌else◌, Outcome, ok, panics, stuck, ◌>>=◌,
}
use meta_protocol_proxy.Codec.{MessageType, DecodeStatus}
use meta_protocol_proxy.Buffer.{BufferApi}
use meta_protocol_proxy.Metadata.{HeaderMapApi, Metadata, new_metadata}
use meta_protocol_proxy.Decoder.{Mutation, CodecApi}
use meta_protocol_proxy.ConnManager.{
  Stream, Manager, Stats, find_stream, assign_stream, close_stream,
}

-- What a message of the upstream closes.
abbrev pub closes : MessageType → Stream → Stream
closes MessageType.stream_close_one_way s = record s { server_closed = true }
closes MessageType.stream_close_two_way s = record s { client_closed = true; server_closed = true }
closes _ s = s

module _ (B : BufferApi) (H : HeaderMapApi) (K : CodecApi B H) where
  open B use {Buffer, bytes, size, empty}

  -- The connection, the codec that it shares with its streams, and the data that is left.
  pub record Sending : Type 0 where
    pub manager : Manager
    pub codec : K.State
    pub data_buffer : Buffer

  -- Stream::clear: the upstream connection is used without a test, and the stream is destroyed.
  unfoldable pub clear : ℕ → Stream → Manager → Outcome Manager
  clear id s c = elim s.upstream [ none ↦ panics | some _ ↦ ok (close_stream id c) ]

  abbrev pub written : Metadata B H → Manager → Manager
  written m c = record c { writes = c.writes ++ bytes m.origin_message ∷ [] }

  abbrev pub stored : ℕ → Stream → Manager → Manager
  stored id s c = record c { streams = assign_stream id s c.streams }

  -- What a decoded message does to the connection.
  unfoldable pub handle_response : ℕ → Bool → Stream → Metadata B H → Manager → Outcome Manager
  unfolding clear
  handle_response id end_stream s m c =
      let s' = closes m.message_type s in
      let c' = stored id s' (written m c) in
      if end_stream || s'.server_closed then clear id s' c' else ok c'

  after_decode :
      (Sending → Outcome Sending)
      → ℕ
      → Bool
      → Stream
      → Manager
      → DecodeStatus × K.State × Buffer × Metadata B H
      → Outcome Sending
  unfolding handle_response
  after_decode again id end_stream s c (DecodeStatus.wait_for_data, k, b, m) =
      ok (record { manager = c; codec = k; data_buffer = b })
  after_decode again id end_stream s c (DecodeStatus.done, k, b, m) =
      handle_response id end_stream s m c >>= λ (c' : Manager).
      again (record { manager = c'; codec = k; data_buffer = b })

  -- A round on a stream that has been destroyed reads its members, which is a crash.
  with_stream : (Sending → Outcome Sending) → ℕ → Bool → Option Stream → Sending → Outcome Sending
  unfolding after_decode
  with_stream again id end_stream none w = panics
  with_stream again id end_stream (some s) w =
      K.decode w.codec w.data_buffer
        (record (new_metadata B H) { message_type = MessageType.response })
      >>= after_decode again id end_stream s w.manager

  -- The loop of send2downstream, for the stream of a number.
  unfoldable pub send_to_downstream : ℕ → ℕ → Bool → Sending → Outcome Sending
  unfolding with_stream
  send_to_downstream zero id end_stream w = stuck
  send_to_downstream (suc fuel) id end_stream w =
      if size w.data_buffer == 0
      then ok w
      else with_stream (send_to_downstream fuel id end_stream) id end_stream
          (find_stream id w.manager.streams) w

  abbrev count_event : Stats → Stats
  count_event s = record s { request_event = s.request_event + 1 }

  -- ConnectionManager::onHeartbeat, with the codec's `encode`.
  unfoldable pub on_heartbeat :
      (Metadata B H → Mutation → Buffer → Outcome Buffer)
      → Metadata B H
      → Manager
      → Outcome (Bool × Manager)
  on_heartbeat encode m c =
      let c' = record c { stats = count_event c.stats } in
      if not c.is_open
      then ok (false, c')
      else (encode (record m { message_type = MessageType.heartbeat }) [] empty >>= λ (b : Buffer).
          ok (false, record c' { writes = c.writes ++ bytes b ∷ [] }))
