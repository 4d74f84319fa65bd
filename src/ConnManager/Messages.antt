-- ===== src/ConnManager/Messages.antt =====
-- What the operations of ConnectionManager on the messages under way do: conn_manager.cc,
-- newMessageHandler, deferredDeleteMessage, resetAllMessages, onEvent and sendLocalReply.
use Prim.Native.String.{String}
use meta_protocol_proxy.Base.{
  ℕ, suc, ◌+◌, ◌≡◌, refl, sym, ap, ◌∙◌, Bool, true, false, none, List, [], ◌∷◌, ◌++◌, length, not,
  Outcome, ok, throws, arith, Exception,
}
use meta_protocol_proxy.ConnManager.{
  disable_idle_timer, then_do, Stats, Manager, ConnectionEvent, ResponseType, remove_from_list,
  deferred_delete_message, count_reset, reset_loop, reset_all_messages, on_event, on_idle_timeout,
  on_end_stream, on_dispatch_error, count_reply, send_local_reply,
}

-- The counters after the loss of so many active messages.
pub lost : Bool → ℕ → Stats → Stats
lost true n s = record s { cx_destroy_local_with_active_rq = s.cx_destroy_local_with_active_rq + n }
lost false n s = record s {
  cx_destroy_remote_with_active_rq = s.cx_destroy_remote_with_active_rq + n;
}

abbrev cleared : Bool → Manager → Manager
cleared local c = record c { messages = []; stats = lost local (length c.messages) c.stats }

add_zero : (k : ℕ) → k + 0 ≡ k
add_zero k = omega arith

add_suc : (k n : ℕ) → k + 1 + n ≡ k + suc n
add_suc k n = omega arith

lost_zero : (local : Bool) (s : Stats) → lost local 0 s ≡ s
unfolding lost
lost_zero true s =
    ap (λ n. record s { cx_destroy_local_with_active_rq = n })
      (add_zero s.cx_destroy_local_with_active_rq)
lost_zero false s =
    ap (λ n. record s { cx_destroy_remote_with_active_rq = n })
      (add_zero s.cx_destroy_remote_with_active_rq)

lost-suc :
    (local : Bool) (n : ℕ) (s : Stats) → lost local n (count_reset local s) ≡ lost local (suc n) s
unfolding lost count_reset
lost-suc true n s =
    ap (λ k. record s { cx_destroy_local_with_active_rq = k })
      (add_suc s.cx_destroy_local_with_active_rq n)
lost-suc false n s =
    ap (λ k. record s { cx_destroy_remote_with_active_rq = k })
      (add_suc s.cx_destroy_remote_with_active_rq n)

remove_from_list_head : (id : ℕ) (xs : List ℕ) → remove_from_list id (id ∷ xs) ≡ xs
unfolding remove_from_list
remove_from_list_head id xs = ground arith

reset_loop_lem :
    (local : Bool) (xs : List ℕ) (c : Manager)
    → reset_loop (length xs) local (record c { messages = xs })
      ≡ ok (cleared local (record c { messages = xs }))
unfolding reset_loop deferred_delete_message
reset_loop_lem local [] c =
    ap (λ s. ok (record c { messages = []; stats = s })) (sym (lost_zero local c.stats))
reset_loop_lem local (id ∷ xs) c =
    ap
      (λ ys.
        reset_loop (length xs) local
          (record c { messages = ys; stats = count_reset local c.stats }))
      (remove_from_list_head id xs)
    ∙ reset_loop_lem local xs (record c { stats = count_reset local c.stats })
    ∙ ap (λ s. ok (record c { messages = []; stats = s })) (lost-suc local (length xs) c.stats)

-- resetAllMessages ends, leaves no message under way, adds their number to the counter of the side
-- that closed, and changes nothing else.
pub reset_all_messages_lem :
    (local : Bool) (c : Manager)
    → reset_all_messages local c
      ≡ ok (record c { messages = []; stats = lost local (length c.messages) c.stats })
unfolding reset_all_messages
reset_all_messages_lem local c = reset_loop_lem local c.messages c

-- Closing from this side or from the other stops the idle timer, drops the messages under way,
-- counts them for the side that closed and clears the upstream handlers.
pub on_event_lem :
    (c : Manager)
    → (on_event ConnectionEvent.local_close c
        ≡ ok (record c {
          idle_timer = none;
          messages = [];
          stats = lost true (length c.messages) c.stats;
          upstream_handlers = [];
        }))
      × (on_event ConnectionEvent.remote_close c
          ≡ ok (record c {
            idle_timer = none;
            messages = [];
            stats = lost false (length c.messages) c.stats;
            upstream_handlers = [];
          }))
unfolding on_event
on_event_lem c = (
  ap (λ o. then_do o (λ c'. record c' { upstream_handlers = [] }))
      (reset_all_messages_lem true (disable_idle_timer c)),
  ap (λ o. then_do o (λ c'. record c' { upstream_handlers = [] }))
      (reset_all_messages_lem false (disable_idle_timer c)),
)

-- An idle timeout, the end of the downstream's data and an error of the decoder each leave the
-- connection closed and no message under way; the first two drop the streams as well.
pub closing_lem :
    (c : Manager)
    → (on_idle_timeout c
        ≡ ok (record c {
          messages = [];
          streams = [];
          is_open = false;
          stats =
              lost true
                (length c.messages)
                (record c.stats { idle_timeout = c.stats.idle_timeout + 1 });
        }))
      × (on_end_stream c
          ≡ ok (record c {
            messages = [];
            streams = [];
            is_open = false;
            stats = lost false (length c.messages) c.stats;
          }))
      × (on_dispatch_error c
          ≡ ok (record c {
            messages = [];
            is_open = false;
            stats =
                lost true
                  (length c.messages)
                  (record c.stats { request_decoding_error = c.stats.request_decoding_error + 1 });
          }))
unfolding on_idle_timeout on_end_stream on_dispatch_error
closing_lem c = (
  ap (λ o. then_do o (λ c'. record c' { streams = []; is_open = false }))
      (reset_all_messages_lem true
        (record c { stats = record c.stats { idle_timeout = c.stats.idle_timeout + 1 } })),
  ap (λ o. then_do o (λ c'. record c' { streams = []; is_open = false }))
      (reset_all_messages_lem false c),
  reset_all_messages_lem true (record c {
    is_open = false;
    stats = record c.stats { request_decoding_error = c.stats.request_decoding_error + 1 };
  }),
)

pub local_replies : Stats → ℕ
local_replies s =
    s.local_response_success + s.local_response_error + s.local_response_business_exception

count_reply-local_replies :
    (kind : ResponseType) (s : Stats) → local_replies (count_reply kind s) ≡ local_replies s + 1
unfolding local_replies count_reply
count_reply-local_replies ResponseType.success_reply s = omega arith
count_reply-local_replies ResponseType.error_reply s = omega arith
count_reply-local_replies ResponseType.exception s = omega arith

pub Replied : Outcome Manager → List (List ℕ) → Bool → Manager → Type 0
Replied o writes end_stream c =
    (c' : Manager) × (o ≡ ok c')
    × (c'.writes ≡ writes)
    × (c'.is_open ≡ not end_stream)
    × (c'.messages ≡ c.messages)
    × (local_replies c'.stats ≡ local_replies c.stats + 1)

-- sendLocalReply on an open connection writes the reply that the encoder gave behind the earlier
-- writes, and nothing if the encoder threw an EnvoyException; it counts one local reply either way, leaves the
-- messages under way alone, and closes the connection exactly when it ends the stream.
pub send_local_reply_lem :
    (kind : ResponseType) (reply : List ℕ) (what : String) (end_stream : Bool) (c : Manager)
    → c.is_open ≡ true
    → Replied
        (send_local_reply (ok (kind, reply)) end_stream c)
        (c.writes ++ reply ∷ [])
        end_stream
        c
      × Replied
          (send_local_reply (throws (Exception.envoy_exception what)) end_stream c)
          c.writes
          end_stream
          c
unfolding send_local_reply Replied
send_local_reply_lem kind reply what end_stream c is_open = (
  (
    record c {
      writes = c.writes ++ reply ∷ [];
      is_open = not end_stream;
      stats = count_reply kind c.stats;
    },
    rw is_open refl,
    refl,
    refl,
    refl,
    count_reply-local_replies kind c.stats,
  ),
  (
    record c { is_open = not end_stream; stats = count_reply ResponseType.error_reply c.stats },
    rw is_open refl,
    refl,
    refl,
    refl,
    count_reply-local_replies ResponseType.error_reply c.stats,
  ),
)
