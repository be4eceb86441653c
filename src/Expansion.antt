-- ===== src/Expansion.antt =====
-- internal/expansion/expand.go: `$(name)` references in a text. A Go string is its bytes.
pub mod Spec
pub mod Correct
mod Examples
use native_kubelet.Base.{
  ℕ, zero, suc, ◌+◌, ◌-◌, ◌/◌, ◌%◌, Str, Dict, lookup, length, drop, slice, get_elem?, ltb, ◌==◌,
  ◌&&◌, if◌then◌else◌, Bool, true, false, Option, none, some, List, [], ◌∷◌, ◌++◌,
}

abbrev pub operator : ℕ
operator = b'$'

abbrev pub reference_opener : ℕ
reference_opener = b'('

abbrev pub reference_closer : ℕ
reference_closer = b')'

unfoldable pub syntax_wrap : Str → Str
syntax_wrap input = operator ∷ reference_opener ∷ input ++ reference_closer ∷ []

-- The first map that has the name gives its value.
unfoldable pub mapping_func_for : List (Dict Str) → Str → Str
unfolding syntax_wrap lookup
mapping_func_for [] input = syntax_wrap input
mapping_func_for (vars ∷ context) input = elim (lookup input vars) [
  | none ↦ mapping_func_for context input
  | some val ↦ val
]

-- `string(b)` for a byte b: the UTF-8 encoding of the code point b.
unfoldable pub string_of_byte : ℕ → Str
string_of_byte b = if ltb b 128 then b ∷ [] else (192 + b / 64) ∷ (128 + b % 64) ∷ []

-- The loop over i: the index of the first closer, from i on.
unfoldable pub scan_closer : ℕ → Str → Option ℕ
scan_closer i [] = none
scan_closer i (c ∷ rest) =
    let later = scan_closer (i + 1) rest in if c == reference_closer then some i else later

-- What was read, whether it names a variable, and how many bytes are consumed.
pub record ReadName : Type 0 where
  pub read : Str
  pub is_var : Bool
  pub advance : ℕ

abbrev pub closed_at : Str → Option ℕ → ReadName
closed_at input none = record {
  read = operator ∷ reference_opener ∷ [];
  is_var = false;
  advance = 1;
}
closed_at input (some i) = record { read = slice input 1 i; is_var = true; advance = i + 1 }

-- `none` is the run-time panic of `input[0]` on an empty string.
unfoldable pub try_read_variable_name : Str → Option ReadName
unfolding scan_closer string_of_byte
try_read_variable_name [] = none
try_read_variable_name (c ∷ rest) = some (
    if c == operator
    then record { read = operator ∷ []; is_var = false; advance = 1 }
    else if c == reference_opener
    then closed_at (c ∷ rest) (scan_closer 1 rest)
    else record { read = operator ∷ string_of_byte c; is_var = false; advance = 1 })

abbrev pub is_operator : Option ℕ → Bool
is_operator none = false
is_operator (some c) = c == operator

-- The loop of Expand. Each round moves the cursor, so `length input + 1` rounds are enough.
unfoldable pub expand_loop : ℕ → Str → (Str → Str) → ℕ → ℕ → Str → Option Str
unfolding try_read_variable_name
expand_loop zero input mapping cursor checkpoint buf = none
expand_loop (suc fuel) input mapping cursor checkpoint buf =
    let plain = expand_loop fuel input mapping (cursor + 1) checkpoint buf in
    let reference : Option Str = elim (try_read_variable_name (drop (cursor + 1) input)) [
      | none ↦ none
      | some r ↦
          expand_loop fuel input mapping (cursor + r.advance + 1) (cursor + r.advance + 1)
            (buf ++ slice input checkpoint cursor ++ (if r.is_var then mapping r.read else r.read))
    ] in
    if ltb cursor (length input)
    then (if is_operator (get_elem? input cursor) && ltb (cursor + 1) (length input)
        then reference
        else plain)
    else some (buf ++ drop checkpoint input)

unfoldable pub expand : Str → (Str → Str) → Option Str
unfolding expand_loop
expand input mapping = expand_loop (suc (length input)) input mapping 0 0 []
