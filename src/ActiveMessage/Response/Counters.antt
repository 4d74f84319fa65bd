-- ===== src/ActiveMessage/Response/Counters.antt =====
-- The counters of a response that is forwarded: active_message.cc, onMessageDecoded of
-- ActiveResponseDecoder.
use meta_protocol_proxy.Base.{ℕ, ◌+◌, ◌≡◌, refl}
use meta_protocol_proxy.Codec.{MessageType, ResponseStatus}
use meta_protocol_proxy.ConnManager.{Stats}
use meta_protocol_proxy.ActiveMessage.{count_response}

-- The counters that one response adds to.
unfoldable pub by_type : MessageType → ℕ → ℕ
by_type MessageType.error n = n + 1
by_type _ n = n

unfoldable pub by_success : ResponseStatus → ℕ → ℕ
by_success ResponseStatus.ok n = n + 1
by_success ResponseStatus.error n = n

unfoldable pub by_failure : ResponseStatus → ℕ → ℕ
by_failure ResponseStatus.ok n = n
by_failure ResponseStatus.error n = n + 1

abbrev pub counted_once : MessageType → ResponseStatus → Stats → Stats
counted_once t status s = record s {
  response = s.response + 1;
  response_decoding_success = s.response_decoding_success + 1;
  response_business_exception = by_type t s.response_business_exception;
  response_success = by_success status s.response_success;
  response_error = by_failure status s.response_error;
}

pub count_response_lem :
    (t : MessageType) (status : ResponseStatus) (s : Stats)
    → count_response t status s ≡ counted_once t status s
unfolding count_response by_type by_success by_failure
count_response_lem MessageType.request ResponseStatus.ok s = refl
count_response_lem MessageType.request ResponseStatus.error s = refl
count_response_lem MessageType.response ResponseStatus.ok s = refl
count_response_lem MessageType.response ResponseStatus.error s = refl
count_response_lem MessageType.oneway ResponseStatus.ok s = refl
count_response_lem MessageType.oneway ResponseStatus.error s = refl
count_response_lem MessageType.stream_init ResponseStatus.ok s = refl
count_response_lem MessageType.stream_init ResponseStatus.error s = refl
count_response_lem MessageType.stream_data ResponseStatus.ok s = refl
count_response_lem MessageType.stream_data ResponseStatus.error s = refl
count_response_lem MessageType.stream_close_one_way ResponseStatus.ok s = refl
count_response_lem MessageType.stream_close_one_way ResponseStatus.error s = refl
count_response_lem MessageType.stream_close_two_way ResponseStatus.ok s = refl
count_response_lem MessageType.stream_close_two_way ResponseStatus.error s = refl
count_response_lem MessageType.heartbeat ResponseStatus.ok s = refl
count_response_lem MessageType.heartbeat ResponseStatus.error s = refl
count_response_lem MessageType.error ResponseStatus.ok s = refl
count_response_lem MessageType.error ResponseStatus.error s = refl
