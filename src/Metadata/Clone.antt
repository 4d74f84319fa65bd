-- ===== src/Metadata/Clone.antt =====
-- What `MetadataImpl::clone` keeps and what it leaves out.
use Prim.Native.String.{String}
use text.Mathlib.TextEquality.{eq_iff}
use meta_protocol_proxy.Base.{◌≡◌, ◌≢◌, refl, ap, ◌∙◌, Option, none, some, [], ◌∷◌, arith}
use meta_protocol_proxy.Buffer.{BufferApi}
use meta_protocol_proxy.Metadata.{
  Any, Properties, HeaderMapApi, Metadata, find, assign, put, get_by_key, clone, put_all,
  new_metadata,
}
use meta_protocol_proxy.Metadata.Strings.{find-assign}

-- Each key once, as in a `std::map`.
abbrev pub IsMap : Properties → Type 0
IsMap [] = Unit {0}
IsMap ((k, v) ∷ ps) = (find k ps ≡ none) × IsMap ps

assign-find-none :
    (j k : String) (v : Any) (ps : Properties)
    → j ≢ k
    → find j ps ≡ none
    → find j (assign k v ps) ≡ none
assign-find-none j k v ps ne h = ground (arith, find-assign j k v ps, eq_iff k j)

pub assign-IsMap : (k : String) (v : Any) (ps : Properties) → IsMap ps → IsMap (assign k v ps)
unfolding assign
assign-IsMap k v [] h = unfold find in (refl, tt)
assign-IsMap k v ((j, w) ∷ ps) (h, hs) =
    ground (arith, eq_iff j k, assign-find-none j k v ps, assign-IsMap k v ps hs)

or_else : Option Any → Option Any → Option Any
or_else none b = b
or_else (some a) b = some a

or_else-none : (o : Option Any) → or_else o none ≡ o
unfolding or_else
or_else-none none = refl
or_else-none (some a) = refl

module _ (B : BufferApi) (H : HeaderMapApi) where
  open B use {bytes}
  open H use {values}

  find-put_all :
      (ps : Properties) (j : String) (m : Metadata B H)
      → IsMap ps
      → find j (put_all B H ps m).properties ≡ or_else (find j ps) (find j m.properties)
  unfolding put_all find or_else put
  find-put_all [] j m h = refl
  find-put_all ((k, v) ∷ ps) j m (h, hs) =
      ground
        (arith, eq_iff k j, find-put_all ps j (put B H k v m) hs, find-assign j k v m.properties)

  put_all_kept :
      (ps : Properties) (m : Metadata B H)
      → let c = put_all B H ps m in
        (c.origin_message ≡ m.origin_message)
        × (c.message_type ≡ m.message_type)
        × (c.response_status ≡ m.response_status)
        × (c.request_id ≡ m.request_id)
        × (c.stream_id ≡ m.stream_id)
        × (c.header_size ≡ m.header_size)
        × (c.body_size ≡ m.body_size)
        × (c.operation_name ≡ m.operation_name)
        × (c.headers ≡ m.headers)
        × (c.response_headers ≡ m.response_headers)
  unfolding put_all put
  put_all_kept [] m = (refl, refl, refl, refl, refl, refl, refl, refl, refl, refl)
  put_all_kept ((k, v) ∷ ps) m = put_all_kept ps (put B H k v m)

  -- A clone of metadata whose properties hold each key once has the same properties, message
  -- bytes, type, status, ids and sizes; but its operation name is empty and its two header maps
  -- hold nothing, whatever strings were put into the original.
  pub clone_lem :
      (m : Metadata B H)
      → IsMap m.properties
      → let c = clone B H m in
        ((j : String) → get_by_key B H j c ≡ get_by_key B H j m)
        × (bytes c.origin_message ≡ bytes m.origin_message)
        × (c.message_type ≡ m.message_type)
        × (c.response_status ≡ m.response_status)
        × (c.request_id ≡ m.request_id)
        × (c.stream_id ≡ m.stream_id)
        × (c.header_size ≡ m.header_size)
        × (c.body_size ≡ m.body_size)
        × (c.operation_name ≡ "")
        × ((k : String) → values k c.headers ≡ [])
        × ((k : String) → values k c.response_headers ≡ [])
  unfolding clone get_by_key new_metadata find
  clone_lem m h =
      let k = put_all_kept m.properties _ in
      (
        λ j. find-put_all m.properties j _ h ∙ or_else-none (find j m.properties),
        ap bytes k.0 ∙ B.bytes-add B.empty (bytes m.origin_message) ∙ rw B.bytes-empty,
        k.1,
        k.2,
        k.3,
        k.4,
        k.5,
        k.6,
        k.7,
        λ j. ap (values j) k.8 ∙ H.values-create j,
        λ j. ap (values j) k.9 ∙ H.values-create j,
      )
