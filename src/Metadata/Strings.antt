-- ===== src/Metadata/Strings.antt =====
-- What the string properties and the routing headers hold after each call.
use Prim.Native.String.{String}
use text.Mathlib.Text.{◌==◌ as str_eq}
use text.Mathlib.TextEquality.{eq_iff}
use text.Mathlib.TextPositions.{eq_refl}
use meta_protocol_proxy.Base.{◌≡◌, ◌≢◌, refl, ◌∙◌, none, some, [], ◌∷◌, if◌then◌else◌, ok, arith}
use meta_protocol_proxy.Buffer.{BufferApi}
use meta_protocol_proxy.Metadata.{
  Any, Properties, HeaderMapApi, Metadata, find, assign, erase, put_string, remove_string,
  get_by_key, get_string, cast_string,
}

pub find-assign :
    (j k : String) (v : Any) (m : Properties)
    → find j (assign k v m) ≡ (if str_eq k j then some v else find j m)
unfolding find assign
find-assign j k v [] = refl
find-assign j k v ((i, w) ∷ m) =
    ground (arith, eq_iff k j, eq_iff i k, eq_iff i j, find-assign j k v m)

pub find-erase :
    (j k : String) (m : Properties) → find j (erase k m) ≡ (if str_eq k j then none else find j m)
unfolding find erase
find-erase j k [] = ground arith
find-erase j k ((i, w) ∷ m) = ground (arith, eq_iff k j, eq_iff i k, eq_iff i j, find-erase j k m)

module _ (B : BufferApi) (H : HeaderMapApi) where
  open H use {values, lower_case}

  pub get_string-put_string :
      (key value : String) (m : Metadata B H)
      → get_string B H key (put_string B H key value m) ≡ ok value
  unfolding put_string get_string get_by_key cast_string
  get_string-put_string key value m =
      rw (find-assign key key (Any.string value) m.properties, eq_refl key) refl

  -- After putString the key reads back as the value, another key as before; both header maps hold
  -- the value alone under the lower-case key, and the routing headers under another key what they held.
  pub put_string_lem :
      (key value j : String) (m : Metadata B H)
      → j ≢ key
      → j ≢ lower_case key
      → (get_string B H key (put_string B H key value m) ≡ ok value)
        × (get_by_key B H j (put_string B H key value m) ≡ get_by_key B H j m)
        × (values (lower_case key) (put_string B H key value m).headers ≡ value ∷ [])
        × (values (lower_case key) (put_string B H key value m).response_headers ≡ value ∷ [])
        × (values j (put_string B H key value m).headers ≡ values j m.headers)
  unfolding put_string get_string get_by_key cast_string
  put_string_lem key value j m ne other = (
    get_string-put_string key value m,
    ground (arith, find-assign j key (Any.string value) m.properties, eq_iff key j),
    H.values-add_copy_self (lower_case key) value _ ∙ rw H.values-remove_self,
    H.values-add_copy_self (lower_case key) value _ ∙ rw H.values-remove_self,
    H.values-add_copy_ne j (lower_case key) value _ other
        ∙ H.values-remove_ne j (lower_case key) _ other,
  )

  -- After removeString the key reads as "", another key as before, and neither header map
  -- holds a value under the lower-case key.
  pub remove_string_lem :
      (key j : String) (m : Metadata B H)
      → j ≢ key
      → (get_string B H key (remove_string B H key m) ≡ ok "")
        × (get_by_key B H j (remove_string B H key m) ≡ get_by_key B H j m)
        × (values (lower_case key) (remove_string B H key m).headers ≡ [])
        × (values (lower_case key) (remove_string B H key m).response_headers ≡ [])
  unfolding remove_string get_string get_by_key cast_string
  remove_string_lem key j m ne = (
    rw (find-erase key key m.properties, eq_refl key),
    ground (arith, find-erase j key m.properties, eq_iff key j),
    H.values-remove_self (lower_case key) _,
    H.values-remove_self (lower_case key) _,
  )

  -- Keys that differ in case have one header between them: removing one of two such keys leaves
  -- the other readable as a property, while the routing headers hold nothing for it.
  pub remove_string_case :
      (k₁ k₂ value : String) (m : Metadata B H)
      → k₁ ≢ k₂
      → lower_case k₁ ≡ lower_case k₂
      → let m' = remove_string B H k₂ (put_string B H k₁ value m) in
        (get_string B H k₁ m' ≡ ok value) × (values (lower_case k₁) m'.headers ≡ [])
  unfolding remove_string put_string get_string get_by_key cast_string
  remove_string_case k₁ k₂ value m ne same = (
    ground (
      arith,
      find-erase k₁ k₂ (assign k₁ (Any.string value) m.properties),
      find-assign k₁ k₁ (Any.string value) m.properties,
      eq_refl k₁,
      eq_iff k₂ k₁,
    ),
    rw same (H.values-remove_self (lower_case k₂) _),
  )
