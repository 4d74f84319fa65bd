-- ===== src/Examples/Responses.antt =====
-- Responses on their way to the downstream.
use meta_protocol_proxy.Base.{
  ℕ, ◌≡◌, refl, none, some, List, [], ◌∷◌, Outcome, ok, throws, Exception,
}
use meta_protocol_proxy.Codec.{MessageType, Error}
use meta_protocol_proxy.Buffer.ByteList.{byte_list}
use meta_protocol_proxy.Metadata.{Metadata, put_string, get_string, find, new_metadata}
use meta_protocol_proxy.Decoder.{Mutation, on_data as decoder_on_data}
use meta_protocol_proxy.Filters.{FilterStatus}
use meta_protocol_proxy.ActiveMessage.{
  Call, returns, raises, fails, World, FilterIterationStartState, apply_filters,
}
use meta_protocol_proxy.ActiveMessage.Response.{
  on_response_decoded, on_response_data, upstream_data,
}
use meta_protocol_proxy.ActiveMessage.Response.Forwarding.{
  response_received, Halted, Forwards, on_response_decoded_stopped, on_response_decoded_forwards,
}
use meta_protocol_proxy.ActiveMessage.Response.Upstream.{Refused, upstream_data_raises}
use meta_protocol_proxy.Examples.{headers, message, byte_codec, world}

abbrev World₀ : Type 0
World₀ = World byte_list headers byte_codec ℕ

abbrev encode : Metadata byte_list headers → Mutation → List ℕ → Outcome (List ℕ)
encode m mutation b = ok b

abbrev error_reply : Metadata byte_list headers → Error → Outcome (List ℕ)
error_reply m e = ok (9 ∷ [])

abbrev retrying : World₀ → Call World₀ FilterStatus
retrying w = returns FilterStatus.retry w

abbrev answer : Metadata byte_list headers
answer = record message { message_type = MessageType.response }

abbrev answered : World₀
answered = response_received byte_list headers byte_codec ℕ message encode error_reply answer world

retried :
    apply_filters byte_list headers byte_codec ℕ
      (retrying ∷ [])
      none
      FilterIterationStartState.can_start_from_current
      answered
    ≡ returns FilterStatus.retry answered
unfolding apply_filters
retried = refl

passed :
    apply_filters byte_list headers byte_codec ℕ [] none
      FilterIterationStartState.can_start_from_current answered
    ≡ returns FilterStatus.continue_iteration answered
unfolding apply_filters
passed = refl

on_response_decoded_stopped_example :
    Halted byte_list headers byte_codec ℕ message encode error_reply answered FilterStatus.retry (
      on_response_decoded byte_list headers byte_codec ℕ message encode error_reply
        (retrying ∷ [])
        answer
        []
        world)
on_response_decoded_stopped_example =
    on_response_decoded_stopped byte_list headers byte_codec ℕ message encode error_reply
      (retrying ∷ []) answer [] FilterStatus.retry world answered retried
      (λ (e : FilterStatus.retry ≡ FilterStatus.continue_iteration). cc)

on_response_decoded_forwards_example :
    Forwards byte_list headers byte_codec ℕ message encode error_reply answer [] answered (
      on_response_decoded byte_list headers byte_codec ℕ message encode error_reply [] answer []
        world)
on_response_decoded_forwards_example =
    on_response_decoded_forwards byte_list headers byte_codec ℕ message encode error_reply [] answer
      answer [] world answered passed refl

abbrev result : {A : Type 0} → Call World₀ A → World₀
result (returns a w) = w
result (raises x w) = w
result fails = world

-- One byte of response has come, for a request with number 0, as the codec numbers its messages.
abbrev awaiting : World₀
awaiting = record world {
  metadata = some (record message { request_id = 0 });
  response_buffer = 9 ∷ [];
}

abbrev done : World₀
done = result (
    on_response_data byte_list headers byte_codec ℕ message encode error_reply [] awaiting
      awaiting.response_decoder)

-- The same for a request with number 4.
abbrev other_awaiting : World₀
other_awaiting = record world { response_buffer = 9 ∷ [] }

abbrev other_done : World₀
other_done = result (
    on_response_data byte_list headers byte_codec ℕ message encode error_reply [] other_awaiting
      other_awaiting.response_decoder)

abbrev refusing : Metadata byte_list headers → Mutation → List ℕ → Outcome (List ℕ)
refusing m mutation b = throws (Exception.envoy_exception "encode")

abbrev refused_at : World₀
refused_at = result (
    on_response_data byte_list headers byte_codec ℕ message refusing error_reply [] other_awaiting
      other_awaiting.response_decoder)

upstream_data_raises_example :
    Refused byte_list headers byte_codec ℕ message refusing error_reply
      (9 ∷ [])
      refused_at
      (upstream_data byte_list headers byte_codec ℕ message refusing error_reply [] other_awaiting)
unfolding on_response_data decoder_on_data put_string get_string find new_metadata
upstream_data_raises_example =
    upstream_data_raises byte_list headers byte_codec ℕ message refusing error_reply [] "encode"
      (9 ∷ []) other_awaiting refused_at refl refl refl
