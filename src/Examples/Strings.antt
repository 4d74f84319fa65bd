-- ===== src/Examples/Strings.antt =====
-- The metadata of a message.
use Prim.Native.String.{String}
use text.Mathlib.Text.{◌==◌ as str_eq}
use text.Mathlib.TextEquality.{eq_iff}
use meta_protocol_proxy.Base.{◌≡◌, ◌≢◌, refl, true, [], ok}
use meta_protocol_proxy.Buffer.ByteList.{byte_list}
use meta_protocol_proxy.Metadata.{
  Metadata, HeaderMapApi, get_by_key, get_string, put_string, remove_string, clone,
}
use meta_protocol_proxy.Metadata.HeaderFunction.{header_function}
use meta_protocol_proxy.Metadata.Strings.{remove_string_case}
use meta_protocol_proxy.Metadata.Clone.{clone_lem}
use meta_protocol_proxy.Examples.{headers, message}

abbrev a : String
a = "a"

abbrev b : String
b = "b"

a-ne-b : a ≢ b
a-ne-b e = let same : str_eq a b ≡ true = (eq_iff a b).1 e in cc

-- All keys are one in lower case here.
abbrev one_name : HeaderMapApi
one_name = header_function (λ s. "a")

abbrev named : Metadata byte_list one_name
named = message

remove_string_case_example :
    (get_string byte_list one_name "a"
        (remove_string byte_list one_name "b" (put_string byte_list one_name "a" "v" named))
      ≡ ok "v")
    × ((remove_string byte_list one_name "b" (put_string byte_list one_name "a" "v" named)).headers
          "a"
        ≡ [])
remove_string_case_example = remove_string_case byte_list one_name "a" "b" "v" named a-ne-b refl

clone_lem_example :
    let c = clone byte_list headers message in
    ((j : String) → get_by_key byte_list headers j c ≡ get_by_key byte_list headers j message)
    × (c.origin_message ≡ message.origin_message)
    × (c.message_type ≡ message.message_type)
    × (c.response_status ≡ message.response_status)
    × (c.request_id ≡ 4)
    × (c.stream_id ≡ 2)
    × (c.header_size ≡ 1)
    × (c.body_size ≡ 1)
    × (c.operation_name ≡ "")
    × ((k : String) → c.headers k ≡ [])
    × ((k : String) → c.response_headers k ≡ [])
clone_lem_example = clone_lem byte_list headers message tt
