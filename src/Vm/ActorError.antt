-- ===== src/Vm/ActorError.antt =====
-- chain/actors/aerrors: the errors of actors. Messages and frames of errors are left out, so that
-- Wrap and Wrapf leave an error what it is.
use filecoin.Base.{ℕ, Bool, true, false, Option, none, some}

-- The exit codes that specs-actors names, none of which is 0 but `ok`, and those of the actors:
-- `numbered n` is the code n + 1.
pub data ExitCode : Type 0 where
  ok sender_invalid sender_state_invalid invalid_method invalid_receiver : ExitCode
  insufficient_funds out_of_gas forbidden illegal_actor illegal_argument : ExitCode
  numbered : ℕ → ExitCode

abbrev pub is_ok : ExitCode → Bool
is_ok ok = true
is_ok _ = false

-- `too_deep` is no error of the source: the bound on nested calls of the model was reached.
pub data ActorError : Type 0 where
  exit : ExitCode → ActorError
  fatal_error too_deep : ActorError

-- New, Newf and NewfSkip: an error with the code 0 is fatal
unfoldable pub new_error : ExitCode → ActorError
new_error ok = fatal_error
new_error c = exit c

unfoldable pub is_fatal : ActorError → Bool
is_fatal (exit c) = false
is_fatal _ = true

unfoldable pub ret_code : Option ActorError → ExitCode
ret_code none = ok
ret_code (some (exit c)) = c
ret_code (some _) = ok

-- Absorb, of an error that is fatal or is not
unfoldable pub absorb : Bool → ExitCode → ActorError
unfolding new_error
absorb true c = fatal_error
absorb false c = new_error c
