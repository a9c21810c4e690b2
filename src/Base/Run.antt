-- ===== src/Base/Run.antt =====
-- A Go call that may return an error or panic, with explicit state. Each outcome carries the
-- state in which it leaves what the call has changed.
use Prim.Native.Nat.{ℕ}
use mathlib.Core.Option.{Option, none, some}
use mathlib.Core.Logic.{◌⊎◌, inl, inr}
use mathlib.Core.Path.{◌≡◌, refl}
use fabric8_oso_proxy.Base.Strings.{Str}

-- The errors of the components, by the place that makes them, and those that come from a library.
pub data Error : Type 0 where
  external : Str → Error
  bad_status : Str → Str → Error
  no_namespace_found no_namespace_matched : Error
  no_secret_name no_secret : Error
  invalid_auth missing_auth : Error
  no_kid no_public_key not_rsa_key : Error
  unsupported_account : Str → Error
  not_valid_jwt : Error
  no_operator not_tag_based : Error
  bad_constraint : Str → Error
  empty_rule : Error
  bad_rule no_arguments : Str → Error
  unknown_function : Str → Str → Error
  request_not_created request_failed : Error → Error
  non_200 : ℕ → Error
  rule_failed parse_failed domains_failed : Error → Error
  skipped : Error

pub data Run (S A : Type 0) : Type 0 where
  done : A → S → Run S A
  fail : Error → S → Run S A
  panic : S → Run S A

abbrev pub M : Type 0 → Type 0 → Type 0
M S A = S → Run S A

-- A value that is returned, and an error.
abbrev pub pure : {S A : Type 0} → A → M S A
pure a s = done a s

abbrev pub throw : {S A : Type 0} → Error → M S A
throw e s = fail e s

abbrev pub after : {S A B : Type 0} → Run S A → (A → M S B) → Run S B
after (done a s) f = f a s
after (fail e s) f = fail e s
after (panic s) f = panic s

infixl 5 ◌>>=◌ ◌>>◌
abbrev pub ◌>>=◌ : {S A B : Type 0} → M S A → (A → M S B) → M S B
◌>>=◌ m f s = after (m s) f

abbrev pub ◌>>◌ : {S B : Type 0} → M S (Unit {0}) → M S B → M S B
m >> k = m >>= λ _. k

-- `v, err := e; if err != nil { return …, err }` for a pure call.
abbrev pub from_option : {S A : Type 0} → Error → Option A → M S A
from_option e none = throw e
from_option e (some a) = pure a

-- The outcome without the state.
pub data Outcome (A : Type 0) : Type 0 where
  ok : A → Outcome A
  err : Error → Outcome A
  crash : Outcome A

pub Outcome-cases :
    {A : Type 0} (o : Outcome A)
    → ((a : A) × (o ≡ ok a)) ⊎ (((e : Error) × (o ≡ err e)) ⊎ (o ≡ crash))
Outcome-cases (ok a) = inl (a, refl)
Outcome-cases (err e) = inr (inl (e, refl))
Outcome-cases crash = inr (inr refl)

abbrev pub outcome : {S A : Type 0} → Run S A → Outcome A
outcome (done a s) = ok a
outcome (fail e s) = err e
outcome (panic s) = crash

abbrev pub state_of : {S A : Type 0} → Run S A → S
state_of (done a s) = s
state_of (fail e s) = s
state_of (panic s) = s

pub after-eq-done :
    {S A B : Type 0} (r : Run S A) (f : A → M S B) {b : B} {t : S}
    → after r f ≡ done b t
    → (a : A) × (s : S) × (r ≡ done a s) × (f a s ≡ done b t)
after-eq-done (done a s) f h = (a, s, refl, h)
after-eq-done (fail e s) f h = cc
after-eq-done (panic s) f h = cc

-- A run that does not panic.
pub data Ends {S A : Type 0} : Run S A → Type 0 where
  with_value : (a : A) (s : S) → Ends (done a s)
  with_error : (e : Error) (s : S) → Ends (fail e s)

pub after-Ends :
    {S A B : Type 0} {r : Run S A} (f : A → M S B)
    → Ends r
    → ((a : A) (s : S) → Ends (f a s))
    → Ends (after r f)
after-Ends f (with_value a s) k = k a s
after-Ends f (with_error e s) k = with_error e s
