-- ===== src/ActiveMessage/Sides.antt =====
-- What a message for a stream does to the stream: stream.cc, send2upstream, closeClientStream and
-- closeServerStream.
use meta_protocol_proxy.Base.{
  ℕ, ◌≡◌, refl, ap, ◌∙◌, Bool, true, Option, none, some, List, [], ◌∷◌, ◌++◌,
}
use meta_protocol_proxy.Codec.{MessageType}
use meta_protocol_proxy.ConnManager.{Stream, send_to_upstream}

-- The closing of sides that a message for a stream asks for.
unfoldable pub closes : MessageType → Stream → Stream
closes MessageType.stream_close_one_way s = record s { client_closed = true }
closes MessageType.stream_close_two_way s = record s { client_closed = true; server_closed = true }
closes _ s = s

-- What the upstream of a stream holds behind a write, if there is an upstream connection.
unfoldable pub behind : Option (List (List ℕ)) → List ℕ → Option (List (List ℕ))
behind none bs = none
behind (some sent) bs = some (sent ++ bs ∷ [])

sent_behind :
    (u : Option (List (List ℕ))) (client server : Bool) (bs : List ℕ)
    → send_to_upstream bs (record { upstream = u; client_closed = client; server_closed = server })
      ≡ record { upstream = behind u bs; client_closed = client; server_closed = server }
unfolding send_to_upstream behind
sent_behind none client server bs = refl
sent_behind (some sent) client server bs = refl

closes-upstream : (t : MessageType) (s : Stream) → (closes t s).upstream ≡ s.upstream
unfolding closes
closes-upstream MessageType.request s = refl
closes-upstream MessageType.response s = refl
closes-upstream MessageType.oneway s = refl
closes-upstream MessageType.stream_init s = refl
closes-upstream MessageType.stream_data s = refl
closes-upstream MessageType.stream_close_one_way s = refl
closes-upstream MessageType.stream_close_two_way s = refl
closes-upstream MessageType.heartbeat s = refl
closes-upstream MessageType.error s = refl

pub sent_closed :
    (t : MessageType) (s : Stream) (bs : List ℕ)
    → send_to_upstream bs (closes t s) ≡ record (closes t s) { upstream = behind s.upstream bs }
sent_closed t s bs =
    sent_behind (closes t s).upstream (closes t s).client_closed (closes t s).server_closed bs
    ∙ ap (λ (u : Option (List (List ℕ))). record (closes t s) { upstream = behind u bs })
        (closes-upstream t s)
