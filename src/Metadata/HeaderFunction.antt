-- ===== src/Metadata/HeaderFunction.antt =====
-- A header map as a function from lower-case keys to values satisfies the interface, for any
-- lower-casing function.
use Prim.Native.String.{String}
use text.Mathlib.Text.{◌==◌ as str_eq}
use text.Mathlib.TextEquality.{eq_iff}
use text.Mathlib.TextPositions.{eq_refl}
use meta_protocol_proxy.Base.{◌≡◌, ◌≢◌, refl, List, [], ◌∷◌, ◌++◌, if◌then◌else◌, arith}
use meta_protocol_proxy.Metadata.{HeaderMapApi}

abbrev pub Headers : Type 0
Headers = String → List String

abbrev pub cleared : String → Headers → Headers
cleared k m j = if str_eq j k then [] else m j

abbrev pub added : String → String → Headers → Headers
added k v m j = if str_eq j k then m j ++ v ∷ [] else m j

pub cleared_self : (k : String) (m : Headers) → cleared k m k ≡ []
cleared_self k m = rw (eq_refl k)

pub cleared_ne : (j k : String) (m : Headers) → j ≢ k → cleared k m j ≡ m j
cleared_ne j k m ne = ground (arith, eq_iff j k)

pub added_self : (k v : String) (m : Headers) → added k v m k ≡ m k ++ v ∷ []
added_self k v m = rw (eq_refl k)

pub added_ne : (j k v : String) (m : Headers) → j ≢ k → added k v m j ≡ m j
added_ne j k v m ne = ground (arith, eq_iff j k)

abbrev pub header_function : (String → String) → HeaderMapApi
header_function lower = record {
  HeaderMap = Headers;
  lower_case = lower;
  create = λ k. [];
  remove = cleared;
  add_copy = added;
  values = λ k m. m k;
  values-create = λ k. refl;
  values-remove_self = cleared_self;
  values-remove_ne = cleared_ne;
  values-add_copy_self = added_self;
  values-add_copy_ne = added_ne;
}
