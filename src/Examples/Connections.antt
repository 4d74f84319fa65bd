-- ===== src/Examples/Connections.antt =====
-- The decoder, its dispatch loop, and the state of a connection.
use meta_protocol_proxy.Base.{
  ◌==◌, if◌then◌else◌, panics, ℕ, ◌<◌, ◌≡◌, ◌≢◌, refl, true, false, none, some, List, [], ◌∷◌, ◌++◌,
  inl, ok, stuck, arith,
}
use meta_protocol_proxy.Codec.{MessageType, DecodeStatus}
use meta_protocol_proxy.Buffer.ByteList.{byte_list}
use meta_protocol_proxy.Metadata.{Metadata}
use meta_protocol_proxy.Decoder.{new_decoder, Run, on_data, dispatch_loop}
use meta_protocol_proxy.Decoder.Dispatch.{Progresses, dispatch_loop_ends}
use meta_protocol_proxy.Decoder.Reset.{CallLeaves, on_data-CallLeaves}
use meta_protocol_proxy.ConnManager.{Stream, Manager, find_stream}
use meta_protocol_proxy.ConnManager.Downstream.{Sending, send_to_downstream}
use meta_protocol_proxy.ConnManager.Downstream.Closing.{
  blank_response, end_of_data, send_to_downstream_closing,
}
use meta_protocol_proxy.Examples.{headers, byte_codec, counter, manager}

byte_codec_takes :
    (k k' : Unit {0}) (b b' : List ℕ) (m m' : Metadata byte_list headers)
    → byte_codec.decode k b m ≡ ok (DecodeStatus.done, k', b', m')
    → byte_list.size b' < byte_list.size b
byte_codec_takes k k' [] b' m m' e = absurd (cc)
byte_codec_takes k k' (x ∷ b) b' m m' e = ground arith

byte_codec_decodes :
    (k : Unit {0}) (b : List ℕ) (m : Metadata byte_list headers) → byte_codec.decode k b m ≢ stuck
byte_codec_decodes k [] m e = cc
byte_codec_decodes k (x ∷ b) m e = cc

byte_codec-Progresses : Progresses byte_list headers byte_codec counter
byte_codec-Progresses = record {
  takes = byte_codec_takes;
  decodes = byte_codec_decodes;
  handles = λ h m w (e : counter.on_message_decoded h m [] w ≡ stuck). cc;
  beats = λ m w (e : counter.on_heartbeat m w ≡ stuck). cc;
}

abbrev three_bytes : Run byte_list headers byte_codec counter
three_bytes = record {
  decoder = new_decoder tt MessageType.request;
  buffer = 1 ∷ 2 ∷ 3 ∷ [];
  world = 0;
}

dispatch_loop_ends_example :
    dispatch_loop byte_list headers byte_codec counter 4 three_bytes ≢ stuck
dispatch_loop_ends_example =
    dispatch_loop_ends byte_list headers byte_codec counter byte_codec-Progresses 4 three_bytes
      (omega arith)

on_data-CallLeaves_example :
    CallLeaves byte_list headers byte_codec counter MessageType.request
      (on_data byte_list headers byte_codec counter three_bytes)
on_data-CallLeaves_example =
    on_data-CallLeaves byte_list headers byte_codec counter three_bytes
      (record { no_stream = refl; idle_or_waiting = inl (refl, refl) })

abbrev second : Stream
second = record { upstream = some []; client_closed = false; server_closed = false }

abbrev second_sent : Stream
second_sent = record {
  upstream = some ((6 ∷ []) ∷ []);
  client_closed = false;
  server_closed = false;
}

-- The upstream of stream 2 has sent two messages and closed its connection.
abbrev sending : Sending byte_list headers byte_codec
sending = record { manager = manager; codec = tt; data_buffer = 5 ∷ 6 ∷ [] }

abbrev first_response : Metadata byte_list headers
first_response = record (blank_response byte_list headers byte_codec) { origin_message = 5 ∷ [] }

second_there : find_stream 2 manager.streams ≡ some second
unfolding find_stream
second_there = refl

send_to_downstream_closing_example :
    (c : Manager) × (send_to_downstream byte_list headers byte_codec 2 2 true sending
      ≡ (if 1 == 0 then ok (record { manager = c; codec = tt; data_buffer = 6 ∷ [] }) else panics))
    × (c.writes ≡ manager.writes ++ (5 ∷ []) ∷ [])
    × (find_stream 2 c.streams ≡ none)
    × (find_stream 3 c.streams ≡ find_stream 3 manager.streams)
    × (c.messages ≡ manager.messages)
send_to_downstream_closing_example =
    send_to_downstream_closing byte_list headers byte_codec 0 2 3 true sending second tt (6 ∷ [])
      first_response [] (ground arith) second_there refl refl end_of_data
      (λ (e : 3 ≡ 2). omega arith)
