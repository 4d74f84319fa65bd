-- ===== src/Examples/Messages.antt =====
-- Messages and their filters.
use meta_protocol_proxy.Base.{ℕ, ◌+◌, ◌≡◌, refl, true, false, none, some, [], ◌∷◌, arith}
use meta_protocol_proxy.Codec.{MessageType}
use meta_protocol_proxy.Buffer.ByteList.{byte_list}
use meta_protocol_proxy.Metadata.{Metadata}
use meta_protocol_proxy.Filters.{FilterStatus}
use meta_protocol_proxy.ConnManager.{Stream, find_stream, remove_from_list}
use meta_protocol_proxy.ActiveMessage.{
  Call, returns, World, FilterIterationStartState, apply_filters, iterate, on_message_decoded,
}
use meta_protocol_proxy.ActiveMessage.Chain.{Passed, all_passed, one_passed, apply_filters_resumes}
use meta_protocol_proxy.ActiveMessage.Dispatch.{
  needs_filters, is_for_stream, on_message_decoded_unfiltered, on_message_decoded_stream,
}
use meta_protocol_proxy.ActiveMessage.Sides.{closes, behind}
use meta_protocol_proxy.Examples.{headers, message, byte_codec, manager, world}

abbrev World₀ : Type 0
World₀ = World byte_list headers byte_codec ℕ

-- A filter that counts its calls, one that pauses, and one that has sent a reply.
abbrev counting : World₀ → Call World₀ FilterStatus
counting w = returns FilterStatus.continue_iteration (record w { environment = w.environment + 1 })

abbrev pausing : World₀ → Call World₀ FilterStatus
pausing w = returns FilterStatus.pause_iteration w

abbrev replying : World₀ → Call World₀ FilterStatus
replying w = returns FilterStatus.abort_iteration (record w { local_response_sent = true })

abbrev counted : World₀
counted = record world { environment = 1 }

abbrev replied : World₀
replied = record counted { local_response_sent = true }

counting-Passed : Passed byte_list headers byte_codec ℕ (counting ∷ []) world counted
counting-Passed = one_passed refl refl all_passed

apply_filters_resumes_example :
    (apply_filters byte_list headers byte_codec ℕ
        (counting ∷ pausing ∷ counting ∷ [])
        none
        FilterIterationStartState.can_start_from_current
        world
      ≡ returns FilterStatus.pause_iteration counted)
    × (apply_filters byte_list headers byte_codec ℕ
          (counting ∷ pausing ∷ counting ∷ [])
          (some 1)
          FilterIterationStartState.always_start_from_next
          counted
        ≡ iterate byte_list headers byte_codec ℕ (counting ∷ []) counted)
    × (apply_filters byte_list headers byte_codec ℕ
          (counting ∷ pausing ∷ counting ∷ [])
          (some 1)
          FilterIterationStartState.can_start_from_current
          counted
        ≡ iterate byte_list headers byte_codec ℕ (pausing ∷ counting ∷ []) counted)
apply_filters_resumes_example =
    apply_filters_resumes byte_list headers byte_codec ℕ (counting ∷ []) (counting ∷ []) pausing
      FilterStatus.pause_iteration FilterIterationStartState.can_start_from_current world counted
      counted counted refl counting-Passed refl
      (λ (e : FilterStatus.pause_iteration ≡ FilterStatus.continue_iteration). cc) refl refl

abbrev one_way : Metadata byte_list headers
one_way = record message { message_type = MessageType.oneway }

on_message_decoded_unfiltered_example :
    on_message_decoded byte_list headers byte_codec ℕ "p" (pausing ∷ []) one_way world
    ≡ on_message_decoded byte_list headers byte_codec ℕ "p" [] one_way world
unfolding needs_filters
on_message_decoded_unfiltered_example =
    on_message_decoded_unfiltered byte_list headers byte_codec ℕ "p" (pausing ∷ []) one_way world
      refl

abbrev data_frame : Metadata byte_list headers
data_frame = record message { message_type = MessageType.stream_data }

abbrev second : Stream
second = record { upstream = some []; client_closed = false; server_closed = false }

on_message_decoded_stream_example :
    (w' : World₀) × (on_message_decoded byte_list headers byte_codec ℕ "p" [] data_frame world
      ≡ returns tt w')
    × (find_stream 2 w'.manager.streams
        ≡ some (record second { upstream = some ((7 ∷ 8 ∷ []) ∷ []) }))
    × (find_stream 3 w'.manager.streams ≡ find_stream 3 manager.streams)
    × (w'.manager.messages ≡ 1 ∷ [])
unfolding find_stream is_for_stream closes behind remove_from_list
on_message_decoded_stream_example =
    on_message_decoded_stream byte_list headers byte_codec ℕ "p" [] data_frame world second 3 refl
      refl (λ (e : 3 ≡ 2). omega arith)
