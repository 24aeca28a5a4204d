-- ===== src/Common/Exceptions.antt =====
-- Exceptions as values: NestJS's HTTP exceptions with their messages, the upstream failure of
-- common/http.util.ts, and any other thrown error.
use Prim.Native.String.{String}
use mathlib.Core.Path.{◌≡◌, refl, ap}
use mathlib.Core.Logic.{◌⊎◌, inl, inr}
use mathlib.Core.Bool.{Bool, true, false}
use mathlib.Core.Option.{Option, none, some}

pub data Failure : Type 0 where
  bad_request not_found conflict unauthorized forbidden : String → Failure
  unavailable upstream crashed : String → Failure

-- What a call that may throw gives back.
pub data Result {ℓ} (A : Type ℓ) : Type ℓ where
  err : Failure → Result A
  ok : A → Result A

-- `if (b) throw e;`
abbrev pub throw_if : Bool → Failure → Result (Unit {0})
throw_if true e = err e
throw_if false e = ok tt

-- `if (!x) throw e;`, and x from there on.
abbrev pub or_throw {ℓ} : {A : Type ℓ} → Option A → Failure → Result A
or_throw none e = err e
or_throw (some a) e = ok a

-- `const value = await call; next`: an exception ends the request.
infixl 5 ◌>>=◌
abbrev pub ◌>>=◌ {κ ℓ} :
    {B : Type κ} {A : Type ℓ} (call : Result B) (next : B → Result A) → Result A
err failure >>= next = err failure
ok value >>= next = next value

-- `await check; next`
infixl 5 ◌>>◌
abbrev pub ◌>>◌ {ℓ} : {A : Type ℓ} (check : Result (Unit {0})) (next : Result A) → Result A
check >> next = check >>= λ done. next

module _ {ℓ} {A : Type ℓ} where
  pub Result-cases : (r : Result A) → ((e : Failure) × (r ≡ err e)) ⊎ ((a : A) × (r ≡ ok a))
  Result-cases (ok a) = inr (a, refl)
  Result-cases (err e) = inl (e, refl)

  -- A request that succeeds has passed both of its parts.
  pub >>=-eq-ok {κ} :
      {B : Type κ} (call : Result A) (next : A → Result B) {last : B}
      → (call >>= next) ≡ ok last
      → (value : A) × (call ≡ ok value) × (next value ≡ ok last)
  >>=-eq-ok (err failure) next h = cc
  >>=-eq-ok (ok value) next h = (value, refl, h)

  pub or_throw-eq-ok : (o : Option A) (e : Failure) {a : A} → or_throw o e ≡ ok a → o ≡ some a
  or_throw-eq-ok none e h = cc
  or_throw-eq-ok (some a) e h = cc

pub throw_if-eq-ok : (b : Bool) (e : Failure) {u : Unit {0}} → throw_if b e ≡ ok u → b ≡ false
throw_if-eq-ok true e h = cc
throw_if-eq-ok false e h = refl

pub ok-injective {ℓ} : {A : Type ℓ} {a b : A} → ok a ≡ ok b → a ≡ b
ok-injective {a} p = ap (λ r. elim r [ ok x ↦ x | err e ↦ a ]) p
