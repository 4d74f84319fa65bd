-- ===== src/ConnManager/Streams.antt =====
-- What the streams of a connection hold after each call: conn_manager.cc, newActiveStream,
-- streamExisted, getActiveStream and closeStream, and stream.cc, send2upstream.
use meta_protocol_proxy.Base.{
  ℕ, ◌≡◌, ◌≢◌, refl, ap, ◌∙◌, false, Option, none, some, List, [], ◌∷◌, ◌==◌, if◌then◌else◌, arith,
}
use meta_protocol_proxy.ConnManager.{
  Stream, Manager, new_stream, find_stream, assign_stream, erase_stream, new_active_stream,
  stream_existed, close_stream, update_stream, on_stream,
}

pub find_stream-assign_stream :
    (j k : ℕ) (s : Stream) (m : List (ℕ × Stream))
    → find_stream j (assign_stream k s m) ≡ (if k == j then some s else find_stream j m)
unfolding find_stream assign_stream
find_stream-assign_stream j k s [] = refl
find_stream-assign_stream j k s ((i, t) ∷ m) = ground (arith, find_stream-assign_stream j k s m)

pub find_stream-erase_stream :
    (j k : ℕ) (m : List (ℕ × Stream))
    → find_stream j (erase_stream k m) ≡ (if k == j then none else find_stream j m)
unfolding find_stream erase_stream
find_stream-erase_stream j k [] = ground arith
find_stream-erase_stream j k ((i, t) ∷ m) = ground (arith, find_stream-erase_stream j k m)

found_self :
    (k : ℕ) (s : Stream) (m : List (ℕ × Stream)) → find_stream k (assign_stream k s m) ≡ some s
found_self k s m = ground (arith, find_stream-assign_stream k k s m)

found_other :
    (j k : ℕ) (s : Stream) (m : List (ℕ × Stream))
    → j ≢ k
    → find_stream j (assign_stream k s m) ≡ find_stream j m
found_other j k s m ne = ground (arith, find_stream-assign_stream j k s m)

-- A new stream exists, has no upstream and is closed on neither side; a closed stream exists no
-- more, however often its number was used; the other streams are as before either way.
pub streams_lem :
    (j k : ℕ) (c : Manager)
    → j ≢ k
    → (find_stream k (new_active_stream k c).streams ≡ some new_stream)
      × (stream_existed k (close_stream k c) ≡ false)
      × (find_stream j (new_active_stream k c).streams ≡ find_stream j c.streams)
      × (find_stream j (close_stream k c).streams ≡ find_stream j c.streams)
unfolding new_active_stream close_stream stream_existed
streams_lem j k c ne = (
  ground (arith, find_stream-assign_stream k k new_stream c.streams),
  ground (arith, find_stream-erase_stream k k c.streams),
  ground (arith, find_stream-assign_stream j k new_stream c.streams),
  ground (arith, find_stream-erase_stream j k c.streams),
)

-- A call on a stream that exists changes that stream by it, and no other stream.
pub on_stream_lem :
    (j k : ℕ) (f : Stream → Stream) (s : Stream) (c : Manager)
    → j ≢ k
    → find_stream k c.streams ≡ some s
    → (find_stream k (on_stream k f c).streams ≡ some (f s))
      × (find_stream j (on_stream k f c).streams ≡ find_stream j c.streams)
unfolding on_stream update_stream
on_stream_lem j k f s c ne found = (
  ap (λ o. find_stream k (update_stream k f c o).streams) found ∙ found_self k (f s) c.streams,
  ap (λ o. find_stream j (update_stream k f c o).streams) found
      ∙ found_other j k (f s) c.streams ne,
)

update_stream-messages :
    (k : ℕ) (f : Stream → Stream) (c : Manager) (o : Option Stream)
    → (update_stream k f c o).messages ≡ c.messages
unfolding update_stream
update_stream-messages k f c none = refl
update_stream-messages k f c (some s) = refl

pub on_stream-messages :
    (k : ℕ) (f : Stream → Stream) (c : Manager) → (on_stream k f c).messages ≡ c.messages
unfolding on_stream
on_stream-messages k f c = update_stream-messages k f c (find_stream k c.streams)
