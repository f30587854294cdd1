-- ===== src/Base/Outcomes.antt =====
-- How a Go call ends, and calls on a state. `panic` is a run-time panic, which ends the process;
-- `blocked` is a goroutine that waits for a mutex which nobody will release. An error is the
-- `RTMTypeError` of signaling/api-v1/rtm.go or another `error` with its text.
use Prim.Native.Nat.{ℕ}
use Prim.Native.String.{String}
use mathlib.Core.Bool.{Bool, true, false}

-- The RTMErrorID constants.
pub data ErrorId : Type 0 where
  server_error bad_message no_session_for_user access_restricted create_restricted : ErrorId

-- `rtm id msg reply_to` is NewRTMTypeError(id, msg, reply_to).
pub data Error : Type 0 where
  rtm : ErrorId → String → ℕ → Error
  plain : String → Error

pub data Outcome {ℓ} (A : Type ℓ) : Type ℓ where
  ok : A → Outcome A
  fail : Error → Outcome A
  panic : Outcome A
  blocked : Outcome A

-- A call that may change a state of type `S`. What it changed before an error stays changed.
abbrev pub Action {ℓ} : Type ℓ → Type ℓ → Type ℓ
Action S A = S → Outcome A × S

module _ {ℓ} {S A B : Type ℓ} where
  abbrev pub continue_with : (A → Action S B) → Outcome A × S → Outcome B × S
  continue_with f (ok a, s) = f a s
  continue_with f (fail e, s) = (fail e, s)
  continue_with f (panic, s) = (panic, s)
  continue_with f (blocked, s) = (blocked, s)

infixl 5 ◌>>=◌ ◌>>◌
abbrev pub ◌>>=◌ {ℓ} : {S A B : Type ℓ} → Action S A → (A → Action S B) → Action S B
◌>>=◌ m f s = continue_with f (m s)

abbrev pub ◌>>◌ {ℓ} : {S A B : Type ℓ} → Action S A → Action S B → Action S B
◌>>◌ m k s = continue_with (λ _. k) (m s)

abbrev pub pure {ℓ} : {S A : Type ℓ} → A → Action S A
pure a s = (ok a, s)

abbrev pub throw {ℓ} : {S A : Type ℓ} → Error → Action S A
throw e s = (fail e, s)

abbrev pub panics {ℓ} : {S A : Type ℓ} → Action S A
panics s = (panic, s)

abbrev pub gets {ℓ} : {S A : Type ℓ} → (S → A) → Action S A
gets f s = (ok (f s), s)

abbrev pub modify : {S : Type 0} → (S → S) → Action S (Unit {0})
modify f s = (ok tt, f s)

-- An early `return err` if the test holds.
abbrev pub refuse_if : {S : Type 0} → Bool → Error → Action S (Unit {0})
refuse_if true e s = (fail e, s)
refuse_if false e s = (ok tt, s)

-- The error is dropped, as where the source ignores what a call returns.
abbrev pub quiet : {S A : Type 0} → Outcome A × S → Outcome (Unit {0}) × S
quiet (ok a, s) = (ok tt, s)
quiet (fail e, s) = (ok tt, s)
quiet (panic, s) = (panic, s)
quiet (blocked, s) = (blocked, s)

abbrev pub ignore_error : {S A : Type 0} → Action S A → Action S (Unit {0})
ignore_error m s = quiet (m s)
