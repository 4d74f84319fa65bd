-- ===== src/Base/Failure.antt =====
-- What a call that may fail leaves: a value, a C++ exception, or a crash: a PANIC or the dereference
-- of a null pointer. `stuck` is no C++ outcome: the loop of the model ran out of fuel.
use Prim.Native.String.{String}
use mathlib.Core.Path.{◌≡◌, refl, subst}
use mathlib.Core.Bool.{Bool, true, false}
use meta_protocol_proxy.Base.Tests.{if◌then◌else◌}

pub data Exception : Type 0 where
  envoy_exception : String → Exception
  downstream_connection_close : Exception
  bad_any_cast : Exception
  bad_optional_access : Exception

pub data Outcome {ℓ} (A : Type ℓ) : Type ℓ where
  ok : A → Outcome A
  throws : Exception → Outcome A
  panics : Outcome A
  stuck : Outcome A

infixl 5 ◌>>=◌
abbrev pub ◌>>=◌ {ℓ κ} : {A : Type ℓ} {B : Type κ} → Outcome A → (A → Outcome B) → Outcome B
ok a >>= f = f a
throws e >>= f = throws e
panics >>= f = panics
stuck >>= f = stuck

-- The call comes back, and its value, if it returns one, has `P`.
pub data Ends {ℓ} {A : Type ℓ} (P : A → Type 0) : Outcome A → Type ℓ where
  returns : {a : A} → P a → Ends P (ok a)
  raises : {e : Exception} → Ends P (throws e)
  crashes : Ends P panics

module _ {ℓ} {A : Type ℓ} {P : A → Type 0} where
  pub Ends-ok : {a : A} → Ends P (ok a) → P a
  Ends-ok (returns p) = p

  pub Ends-stuck : Ends P stuck → ⊥
  Ends-stuck p = elim p [ ]

  pub Ends-if :
      {b : Bool} {x y : Outcome A}
      → (b ≡ true → Ends P x)
      → (b ≡ false → Ends P y)
      → Ends P (if b then x else y)
  Ends-if {b = true} p q = p refl
  Ends-if {b = false} p q = q refl

  pub Ends-bind {κ} :
      {C : Type κ} {Q : C → Type 0} {o : Outcome A} {f : A → Outcome C}
      → Ends P o
      → ((a : A) → P a → Ends Q (f a))
      → Ends Q (o >>= f)
  Ends-bind (returns p) q = q _ p
  Ends-bind raises q = raises
  Ends-bind crashes q = crashes

-- Any value will do.
abbrev pub AnyValue {ℓ} : {A : Type ℓ} → A → Type 0
AnyValue a = Unit {0}

-- The call returns a value that has `P`, or throws: no crash, and fuel enough.
pub data Safely {ℓ} {A : Type ℓ} (P : A → Type 0) : Outcome A → Type ℓ where
  gives : {a : A} → P a → Safely P (ok a)
  fails : {e : Exception} → Safely P (throws e)

module _ {ℓ} {A : Type ℓ} {P : A → Type 0} where
  pub Safely-ok : {a : A} → Safely P (ok a) → P a
  Safely-ok (gives p) = p

  pub Safely-bind {κ} :
      {C : Type κ} {Q : C → Type 0} {o : Outcome A} {f : A → Outcome C}
      → Safely P o
      → ((a : A) → P a → Safely Q (f a))
      → Safely Q (o >>= f)
  Safely-bind (gives p) q = q _ p
  Safely-bind fails q = fails

  pub Safely-if :
      {b : Bool} {x y : Outcome A}
      → (b ≡ true → Safely P x)
      → (b ≡ false → Safely P y)
      → Safely P (if b then x else y)
  Safely-if {b = true} p q = p refl
  Safely-if {b = false} p q = q refl

-- The value, if the call returns one, has `P`.
pub data IfOk {ℓ} {A : Type ℓ} (P : A → Type 0) : Outcome A → Type ℓ where
  value : {a : A} → P a → IfOk P (ok a)
  raised : {e : Exception} → IfOk P (throws e)
  crashed : IfOk P panics
  starved : IfOk P stuck

-- Nothing is asked of the value.
pub IfOk-any {ℓ} : {A : Type ℓ} (o : Outcome A) → IfOk AnyValue o
IfOk-any (ok a) = value tt
IfOk-any (throws e) = raised
IfOk-any panics = crashed
IfOk-any stuck = starved

module _ {ℓ} {A : Type ℓ} {P : A → Type 0} where
  pub IfOk-bind {κ} :
      {C : Type κ} {Q : C → Type 0} {o : Outcome A} {f : A → Outcome C}
      → IfOk P o
      → ((a : A) → P a → IfOk Q (f a))
      → IfOk Q (o >>= f)
  IfOk-bind (value p) q = q _ p
  IfOk-bind raised q = raised
  IfOk-bind crashed q = crashed
  IfOk-bind starved q = starved

  pub IfOk-map : {Q : A → Type 0} {o : Outcome A} → IfOk P o → ((a : A) → P a → Q a) → IfOk Q o
  IfOk-map (value p) q = value (q _ p)
  IfOk-map raised q = raised
  IfOk-map crashed q = crashed
  IfOk-map starved q = starved

  pub IfOk-if : (b : Bool) {x y : Outcome A} → IfOk P x → IfOk P y → IfOk P (if b then x else y)
  IfOk-if true p q = p
  IfOk-if false p q = q

  pub IfOk-eq : {o : Outcome A} {a : A} → IfOk P o → o ≡ ok a → P a
  IfOk-eq p e = of_ok (subst (IfOk P) e p)
    where
      of_ok : {a : A} → IfOk P (ok a) → P a
      of_ok (value p) = p
