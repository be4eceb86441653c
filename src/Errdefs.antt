-- ===== src/Errdefs.antt =====
-- errdefs: the classes of errors. A Go `error` is `Option Error`, with `nil` as `none`. An error
-- type of another package is known here by what it answers to the two interfaces and by its cause.
pub mod Chain
mod Examples
use native_kubelet.Base.{Str, Bool, true, false, Option, none, some, List, []}

pub data Error : Type 0 where
  -- errors.New, fmt.Errorf: a format and its arguments
  message : Str → List Str → Error
  -- fmt.Errorf with an error among the arguments, which `Cause()` does not show
  formatted : Str → List Str → Error → Error
  -- notFoundError, invalidInputError
  not_found_error : Error → Error
  invalid_input_error : Error → Error
  -- pkgerrors.Wrap, Wrapf: a format and its arguments, and a cause behind `Cause()`
  wrapped : Str → List Str → Error → Error
  -- a type of another package that implements some of the interfaces
  foreign : Option Bool → Option Bool → Str → Error

-- `err.(ErrNotFound)`: the answer of the method `NotFound()`, if there is one.
unfoldable pub as_err_not_found : Error → Option Bool
as_err_not_found (not_found_error e) = some true
as_err_not_found (foreign n i m) = n
as_err_not_found _ = none

-- `err.(ErrInvalidInput)`
unfoldable pub as_err_invalid_input : Error → Option Bool
as_err_invalid_input (invalid_input_error e) = some true
as_err_invalid_input (foreign n i m) = i
as_err_invalid_input _ = none

-- `AsNotFound` and `AsInvalidInput` keep nil.
unfoldable pub as_not_found : Option Error → Option Error
as_not_found none = none
as_not_found (some e) = some (not_found_error e)

unfoldable pub as_invalid_input : Option Error → Option Error
as_invalid_input none = none
as_invalid_input (some e) = some (invalid_input_error e)

unfoldable pub not_found : Str → Error
not_found msg = not_found_error (message msg [])

unfoldable pub invalid_input : Str → Error
invalid_input msg = invalid_input_error (message msg [])

-- The interface is asked before the cause is followed.
unfoldable pub is_not_found_error : Error → Bool
is_not_found_error (message m a) = false
is_not_found_error (formatted m a e) = false
is_not_found_error (not_found_error e) = true
is_not_found_error (invalid_input_error e) = is_not_found_error e
is_not_found_error (wrapped m a e) = is_not_found_error e
is_not_found_error (foreign none i m) = false
is_not_found_error (foreign (some b) i m) = b

unfoldable pub is_not_found : Option Error → Bool
unfolding is_not_found_error
is_not_found none = false
is_not_found (some e) = is_not_found_error e

unfoldable pub is_invalid_input_error : Error → Bool
is_invalid_input_error (message m a) = false
is_invalid_input_error (formatted m a e) = false
is_invalid_input_error (not_found_error e) = is_invalid_input_error e
is_invalid_input_error (invalid_input_error e) = true
is_invalid_input_error (wrapped m a e) = is_invalid_input_error e
is_invalid_input_error (foreign n none m) = false
is_invalid_input_error (foreign n (some b) m) = b

unfoldable pub is_invalid_input : Option Error → Bool
unfolding is_invalid_input_error
is_invalid_input none = false
is_invalid_input (some e) = is_invalid_input_error e
