-- ===== src/Errdefs/Chain.antt =====
-- The causal chain of an error, and what the two predicates of errdefs read off it.
use native_kubelet.Base.{List, Str, Bool, true, Option, none, some, ◌≡◌, ◌↔◌, refl, ap, arith}
use native_kubelet.Errdefs.{
  Error, message, formatted, not_found_error, invalid_input_error, wrapped, foreign,
  as_err_not_found, as_err_invalid_input, is_not_found_error, is_not_found, is_invalid_input_error,
  is_invalid_input,
}

-- `Cause e c`: the method `Cause()` of `e` gives `c`.
pub data Cause : Error → Error → Type 0 where
  of_not_found : (e : Error) → Cause (not_found_error e) e
  of_invalid_input : (e : Error) → Cause (invalid_input_error e) e
  of_wrapped : (m : Str) (a : List Str) (e : Error) → Cause (wrapped m a e) e

-- `Answers ask e b`: the first error of the causal chain of `e` that `ask` knows answers `b`.
pub data Answers (ask : Error → Option Bool) : Error → Bool → Type 0 where
  here : {e : Error} {b : Bool} → ask e ≡ some b → Answers ask e b
  later : {e c : Error} {b : Bool} → ask e ≡ none → Cause e c → Answers ask c b → Answers ask e b

not_found_sound : {e : Error} {b : Bool} → Answers as_err_not_found e b → is_not_found_error e ≡ b
unfolding as_err_not_found is_not_found_error
not_found_sound {e = message m a} (here h) = ground arith
not_found_sound {e = formatted m a e} (here h) = ground arith
not_found_sound {e = not_found_error e} (here h) = ground arith
not_found_sound {e = invalid_input_error e} (here h) = ground arith
not_found_sound {e = wrapped m a e} (here h) = ground arith
not_found_sound {e = foreign none i m} (here h) = ground arith
not_found_sound {e = foreign (some x) i m} (here h) = ground arith
not_found_sound (later h (of_not_found e) a) = ground arith
not_found_sound (later h (of_invalid_input e) a) = not_found_sound a
not_found_sound (later h (of_wrapped m a e) x) = not_found_sound x

not_found_complete : (e : Error) → is_not_found_error e ≡ true → Answers as_err_not_found e true
unfolding as_err_not_found is_not_found_error
not_found_complete (message m a) h = ground arith
not_found_complete (formatted m a e) h = ground arith
not_found_complete (not_found_error e) h = here refl
not_found_complete (invalid_input_error e) h =
    later refl (of_invalid_input e) (not_found_complete e h)
not_found_complete (wrapped m a e) h = later refl (of_wrapped m a e) (not_found_complete e h)
not_found_complete (foreign none i m) h = ground arith
not_found_complete (foreign (some b) i m) h = here (ap some h)

-- IsNotFound is true of an error exactly when the first error of its causal chain that implements
-- the NotFound interface answers true.
pub is_not_found_iff :
    (e : Error) → (is_not_found (some e) ≡ true) ↔ Answers as_err_not_found e true
unfolding is_not_found
is_not_found_iff e = (not_found_complete e, not_found_sound)

invalid_input_sound :
    {e : Error} {b : Bool} → Answers as_err_invalid_input e b → is_invalid_input_error e ≡ b
unfolding as_err_invalid_input is_invalid_input_error
invalid_input_sound {e = message m a} (here h) = ground arith
invalid_input_sound {e = formatted m a e} (here h) = ground arith
invalid_input_sound {e = not_found_error e} (here h) = ground arith
invalid_input_sound {e = invalid_input_error e} (here h) = ground arith
invalid_input_sound {e = wrapped m a e} (here h) = ground arith
invalid_input_sound {e = foreign n none m} (here h) = ground arith
invalid_input_sound {e = foreign n (some x) m} (here h) = ground arith
invalid_input_sound (later h (of_not_found e) a) = invalid_input_sound a
invalid_input_sound (later h (of_invalid_input e) a) = ground arith
invalid_input_sound (later h (of_wrapped m a e) x) = invalid_input_sound x

invalid_input_complete :
    (e : Error) → is_invalid_input_error e ≡ true → Answers as_err_invalid_input e true
unfolding as_err_invalid_input is_invalid_input_error
invalid_input_complete (message m a) h = ground arith
invalid_input_complete (formatted m a e) h = ground arith
invalid_input_complete (not_found_error e) h =
    later refl (of_not_found e) (invalid_input_complete e h)
invalid_input_complete (invalid_input_error e) h = here refl
invalid_input_complete (wrapped m a e) h =
    later refl (of_wrapped m a e) (invalid_input_complete e h)
invalid_input_complete (foreign n none m) h = ground arith
invalid_input_complete (foreign n (some b) m) h = here (ap some h)

-- IsInvalidInput is true of an error exactly when the first error of its causal chain that
-- implements the InvalidInput interface answers true.
pub is_invalid_input_iff :
    (e : Error) → (is_invalid_input (some e) ≡ true) ↔ Answers as_err_invalid_input e true
unfolding is_invalid_input
is_invalid_input_iff e = (invalid_input_complete e, invalid_input_sound)
