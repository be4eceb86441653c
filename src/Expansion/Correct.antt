-- ===== src/Expansion/Correct.antt =====
-- Expand implements the relation of Expansion/Spec.antt and never reads out of range.
use native_kubelet.Base.{
  ℕ, zero, suc, ◌+◌, ◌-◌, ◌/◌, ◌%◌, ◌≤◌, ◌<◌, Str, length, drop, slice, take, get_elem?, ltb, ◌==◌,
  ==_iff, ◌&&◌, if◌then◌else◌, true, false, Bool-cases, Option, none, some, [], ◌∷◌, ◌++◌, ◌≡◌, ◌≢◌,
  refl, ap, inl, inr, arith, length-drop, append_assoc, append-nil, append-cons, ◌∙◌, take-append,
  length-append, ◌≢◌, ltb,
}
use native_kubelet.Expansion.{
  operator, reference_opener, reference_closer, string_of_byte, scan_closer, ReadName, closed_at,
  try_read_variable_name, is_operator, expand_loop, expand,
}
use native_kubelet.Expansion.Spec.{
  NoCloser, Expands, end, lone, plain, escape, variable, unclosed, other,
}

drop_cons :
    (n : ℕ) (xs : Str) {c : ℕ} {r : Str}
    → drop n xs ≡ c ∷ r
    → (get_elem? xs n ≡ some c) × (drop (n + 1) xs ≡ r) × (n < length xs)
drop_cons zero [] h = ground arith
drop_cons zero (x ∷ xs) h = (ground arith, ground arith, omega arith)
drop_cons (suc n) [] h = ground arith
drop_cons (suc n) (x ∷ xs) h =
    let ih = drop_cons n xs h in
    let e : suc n + 1 ≡ suc (n + 1) = omega arith in (ih.0, rw e ih.1, omega arith)

drop_nil : (n : ℕ) (xs : Str) → drop n xs ≡ [] → length xs ≤ n
drop_nil zero [] h = omega arith
drop_nil zero (x ∷ xs) h = ground arith
drop_nil (suc n) [] h = omega arith
drop_nil (suc n) (x ∷ xs) h = omega (arith, drop_nil n xs h)

drop-drop : (n k : ℕ) (xs : Str) → drop (n + k) xs ≡ drop k (drop n xs)
drop-drop zero k xs = let e : zero + k ≡ k = omega arith in rw e
drop-drop (suc n) zero [] = let e : suc n + zero ≡ suc n = omega arith in rw e
drop-drop (suc n) (suc k) [] = let e : suc n + suc k ≡ suc (n + suc k) = omega arith in rw e
drop-drop (suc n) k (x ∷ xs) =
    let e : suc n + k ≡ suc (n + k) = omega arith in rw e (drop-drop n k xs)

take_snoc :
    (n : ℕ) (xs : Str) {c : ℕ} {r : Str} → drop n xs ≡ c ∷ r → take (suc n) xs ≡ take n xs ++ c ∷ []
take_snoc zero [] h = ground arith
take_snoc zero (x ∷ xs) h = ground arith
take_snoc (suc n) [] h = ground arith
take_snoc (suc n) (x ∷ xs) h = ap (λ t. x ∷ t) (take_snoc n xs h)

take_all : (n : ℕ) (xs : Str) → length xs ≤ n → take n xs ≡ xs
take_all zero [] h = refl
take_all zero (x ∷ xs) h = absurd (omega arith)
take_all (suc n) [] h = refl
take_all (suc n) (x ∷ xs) h = ap (λ t. x ∷ t) (take_all n xs (omega arith))

length-drop_le : (k n : ℕ) (xs : Str) → length xs ≤ n → length (drop k xs) ≤ n - k
length-drop_le zero n xs h = omega arith
length-drop_le (suc k) n [] h = omega arith
length-drop_le (suc k) n (x ∷ xs) h = omega (arith, length-drop_le k (n - 1) xs (omega arith))

slice_snoc :
    (k n : ℕ) (xs : Str) {c : ℕ} {r : Str}
    → k ≤ n
    → drop n xs ≡ c ∷ r
    → slice xs k (n + 1) ≡ slice xs k n ++ c ∷ []
slice_snoc k n xs {c} {r} h e =
    let s : n + 1 - k ≡ suc (n - k) = omega arith in
    let t : k + (n - k) ≡ n = omega arith in
    rw s (take_snoc (n - k) (drop k xs) {r = r} (rw (← drop-drop k (n - k) xs) (rw t e)))

slice_self : (n : ℕ) (xs : Str) → slice xs n n ≡ []
slice_self n xs = let s : n - n ≡ 0 = omega arith in rw s

slice_end : (k n : ℕ) (xs : Str) → length xs ≤ n → slice xs k n ≡ drop k xs
slice_end k n xs h = take_all (n - k) (drop k xs) (length-drop_le k n xs h)

data Scan (i : ℕ) (rest : Str) (o : Option ℕ) : Type 0 where
  absent : NoCloser rest → o ≡ none → Scan i rest o
  found :
      (name tail : Str)
      → NoCloser name
      → rest ≡ name ++ reference_closer ∷ tail
      → o ≡ some (i + length name)
      → Scan i rest o

scan_closer-Scan : (i : ℕ) (rest : Str) → Scan i rest (scan_closer i rest)
unfolding scan_closer
scan_closer-Scan i [] = absent tt refl
scan_closer-Scan i (c ∷ rest) = elim (Bool-cases (c == reference_closer)) [
  | inl e ↦
      found [] rest tt (ap (λ t. t ∷ rest) ((==_iff c reference_closer).0 e))
        (let z : i + 0 ≡ i = omega arith in rw (e, z))
  | inr e ↦ elim (scan_closer-Scan (i + 1) rest) [
    | absent n h ↦ absent (ground arith, n) (rw (e, h))
    | found name tail n p h ↦
        found (c ∷ name) tail (ground arith, n) (ap (λ t. c ∷ t) p)
          (let z : i + suc (length name) ≡ i + 1 + length name = omega arith in rw (e, h, z))
  ]
]

drop_past : (xs : Str) (c : ℕ) (ys : Str) → drop (suc (length xs)) (xs ++ c ∷ ys) ≡ ys
drop_past [] c ys = refl
drop_past (x ∷ xs) c ys = drop_past xs c ys

-- What one reference does: it takes some bytes off the text, and its output is what the relation says.
record ReadSpec (mapping : Str → Str) (text : Str) (r : ReadName) : Type 0 where
  fits : r.advance ≤ length text
  sound :
      (out : Str)
      → Expands mapping (drop r.advance text) out
      → Expands mapping (operator ∷ text) ((if r.is_var then mapping r.read else r.read) ++ out)

closed_at-ReadSpec :
    (mapping : Str → Str) (rest : Str) (o : Option ℕ)
    → Scan 1 rest o
    → ReadSpec mapping (reference_opener ∷ rest) (closed_at (reference_opener ∷ rest) o)
closed_at-ReadSpec mapping rest o (absent n h) =
    rw h (record { fits = omega arith; sound = λ out e. unclosed n e })
closed_at-ReadSpec mapping rest o (found name tail n p h) =
    let a : 1 + length name + 1 ≡ suc (suc (length name)) = omega arith in
    let b : 1 + length name - 1 ≡ length name = omega arith in
    rw (h, p)
      (record {
        fits = omega (arith, length-append {0} name (reference_closer ∷ tail));
        sound = λ out e.
            rw (b, take-append name (reference_closer ∷ tail))
              (variable name n (rw (a, drop_past name reference_closer tail) at e));
      })

try_read-ReadSpec :
    (mapping : Str → Str) (c : ℕ) (rest : Str)
    → (r : ReadName) × (try_read_variable_name (c ∷ rest) ≡ some r) × ReadSpec mapping (c ∷ rest) r
unfolding try_read_variable_name
try_read-ReadSpec mapping c rest = elim (Bool-cases (c == operator)) [
  | inl e ↦ (
    record { read = operator ∷ []; is_var = false; advance = 1 },
    rw e,
    record { fits = omega arith; sound = λ out x. rw ((==_iff c operator).0 e) (escape x) },
  )
  | inr n ↦ elim (Bool-cases (c == reference_opener)) [
    | inl o ↦ (
      closed_at (c ∷ rest) (scan_closer 1 rest),
      rw (n, o),
      rw ((==_iff c reference_opener).0 o)
          (closed_at-ReadSpec mapping rest (scan_closer 1 rest) (scan_closer-Scan 1 rest)),
    )
    | inr m ↦ (
      record { read = operator ∷ string_of_byte c; is_var = false; advance = 1 },
      rw (n, m),
      record { fits = omega arith; sound = λ out x. other (ground arith) (ground arith) x },
    )
  ]
]

-- The loop at a cursor: what is still to be read expands to `out`, and the result is the buffer,
-- the bytes since the checkpoint and `out`.
abbrev LoopSpec :
    (input : Str) (mapping : Str → Str) (cursor checkpoint : ℕ) (buf : Str) → Option Str → Type 0
LoopSpec input mapping cursor checkpoint buf result =
    (out : Str) × Expands mapping (drop cursor input) out
    × (result ≡ some (buf ++ (slice input checkpoint cursor ++ out)))

last_byte :
    (mapping : Str → Str) (c : ℕ) {out : Str}
    → Expands mapping [] out
    → Expands mapping (c ∷ []) (c ∷ out)
last_byte mapping c end = elim (Bool-cases (c == operator)) [
  | inl o ↦ lone c ((==_iff c operator).0 o)
  | inr n ↦ plain (ground arith) end
]

lt→ltb : (a b : ℕ) → a < b → ltb a b ≡ true
lt→ltb a b h = ground arith

le→ltb_false : (a b : ℕ) → b ≤ a → ltb a b ≡ false
le→ltb_false a b h = ground arith

module _ (input : Str) (mapping : Str → Str) where
  step_plain :
      (cursor checkpoint : ℕ) (buf : Str) {result : Option Str} {c : ℕ} {rest : Str}
      → checkpoint ≤ cursor
      → drop cursor input ≡ c ∷ rest
      → ((out : Str) → Expands mapping rest out → Expands mapping (c ∷ rest) (c ∷ out))
      → LoopSpec input mapping (cursor + 1) checkpoint buf result
      → LoopSpec input mapping cursor checkpoint buf result
  step_plain cursor checkpoint buf {c = c} {rest = rest} h d ex (out, e, p) = (
    c ∷ out,
    rw d (ex out (rw ((drop_cons cursor input d).1) at e)),
    rw (p, slice_snoc checkpoint cursor input {r = rest} h d)
        (ap (λ t. some (buf ++ t)) (append-cons (slice input checkpoint cursor) c out)),
  )

  step_read :
      (cursor checkpoint : ℕ) (buf : Str) (r : ReadName) {result : Option Str} {text : Str}
      → drop cursor input ≡ operator ∷ text
      → ReadSpec mapping text r
      → LoopSpec input mapping
          (cursor + r.advance + 1)
          (cursor + r.advance + 1)
          (buf ++ slice input checkpoint cursor ++ (if r.is_var then mapping r.read else r.read))
          result
      → LoopSpec input mapping cursor checkpoint buf result
  step_read cursor checkpoint buf r {text = text} d s (out, e, p) =
      let m = cursor + r.advance + 1 in
      let k : m ≡ cursor + 1 + r.advance = omega arith in
      let f = drop-drop (cursor + 1) r.advance input in
      let piece = if r.is_var then mapping r.read else r.read in
      (
        piece ++ out,
        rw d (s.sound out (rw (k, f, (drop_cons cursor input d).1) at e)),
        rw (p, slice_self m input)
            (ap some (
              append_assoc (buf ++ slice input checkpoint cursor) piece out
              ∙ append_assoc buf (slice input checkpoint cursor) (piece ++ out))),
      )

  loop_end :
      (fuel cursor checkpoint : ℕ) (buf : Str)
      → length input ≤ cursor
      → expand_loop (suc fuel) input mapping cursor checkpoint buf
        ≡ some (buf ++ drop checkpoint input)
  unfolding expand_loop
  loop_end fuel cursor checkpoint buf h = rw (le→ltb_false cursor (length input) h)

  loop_plain :
      (fuel cursor checkpoint : ℕ) (buf : Str)
      → cursor < length input
      → (is_operator (get_elem? input cursor) && ltb (cursor + 1) (length input)) ≡ false
      → expand_loop (suc fuel) input mapping cursor checkpoint buf
        ≡ expand_loop fuel input mapping (cursor + 1) checkpoint buf
  unfolding expand_loop
  loop_plain fuel cursor checkpoint buf h e = rw (lt→ltb cursor (length input) h, e)

  loop_read :
      (fuel cursor checkpoint : ℕ) (buf : Str) (r : ReadName)
      → cursor + 1 < length input
      → is_operator (get_elem? input cursor) ≡ true
      → try_read_variable_name (drop (cursor + 1) input) ≡ some r
      → expand_loop (suc fuel) input mapping cursor checkpoint buf
        ≡ expand_loop fuel input mapping
            (cursor + r.advance + 1)
            (cursor + r.advance + 1)
            (buf ++ slice input checkpoint cursor ++ (if r.is_var then mapping r.read else r.read))
  unfolding expand_loop
  loop_read fuel cursor checkpoint buf r h o e =
      rw (lt→ltb cursor (length input) (omega arith), o, lt→ltb (cursor + 1) (length input) h, e)

  abbrev Holds : ℕ → Type 0
  Holds fuel =
      (cursor checkpoint : ℕ) (buf : Str)
      → checkpoint ≤ cursor
      → cursor ≤ length input
      → length input < fuel + cursor
      → LoopSpec input mapping cursor checkpoint buf
          (expand_loop fuel input mapping cursor checkpoint buf)

  loop_step :
      (fuel : ℕ)
      → Holds fuel
      → (cursor checkpoint : ℕ) (buf : Str) (text : Str) → checkpoint ≤ cursor
      → cursor ≤ length input
      → length input < suc fuel + cursor
      → drop cursor input ≡ text
      → LoopSpec input mapping cursor checkpoint buf
          (expand_loop (suc fuel) input mapping cursor checkpoint buf)
  loop_step fuel ih cursor checkpoint buf [] h k f d =
      let n = drop_nil cursor input d in
      (
        [],
        rw d end,
        rw (loop_end fuel cursor checkpoint buf n, slice_end checkpoint cursor input n, append-nil),
      )
  loop_step fuel ih cursor checkpoint buf (c ∷ []) h k f d =
      let (g, s, l) = drop_cons cursor input d in
      let m = drop_nil (cursor + 1) input s in
      rw
        (loop_plain fuel cursor checkpoint buf l
          (rw (le→ltb_false (cursor + 1) (length input) m) (ground arith)))
        (step_plain cursor checkpoint buf h d (λ out e. last_byte mapping c e)
          (ih (cursor + 1) checkpoint buf (omega arith) (omega arith) (omega arith)))
  loop_step fuel ih cursor checkpoint buf (c ∷ b ∷ rest) h k f d =
      let (g, s, l) = drop_cons cursor input d in
      let (g', s', l') = drop_cons (cursor + 1) input s in
      elim (Bool-cases (c == operator)) [
        | inl o ↦
            let (r, e, spec) = try_read-ReadSpec mapping b rest in
            let fits : cursor + r.advance + 1 ≤ length input =
              omega (arith, spec.fits, length-drop {0} (cursor + 1) input, ap length s) in
            rw (loop_read fuel cursor checkpoint buf r l' (rw g o) (rw s e)) (
              step_read cursor checkpoint buf r (rw (← (==_iff c operator).0 o) d) spec (
                ih (cursor + r.advance + 1) (cursor + r.advance + 1)
                  (buf
                    ++ slice input checkpoint cursor
                    ++ (if r.is_var then mapping r.read else r.read))
                  (omega arith) fits (omega arith)))
        | inr o ↦ rw (loop_plain fuel cursor checkpoint buf l (rw (g, o))) (
            step_plain cursor checkpoint buf h d (λ out e. plain (ground arith) e)
              (ih (cursor + 1) checkpoint buf (omega arith) (omega arith) (omega arith)))
      ]

  loop-LoopSpec : (fuel : ℕ) → Holds fuel
  loop-LoopSpec zero cursor checkpoint buf h k f = absurd (omega arith)
  loop-LoopSpec (suc fuel) cursor checkpoint buf h k f =
      loop_step fuel (loop-LoopSpec fuel) cursor checkpoint buf (drop cursor input) h k f refl

-- For every text and mapping, Expand returns, without reading out of range, a text that the
-- relation `Expands` allows for that input.
pub expand-Expands :
    (input : Str) (mapping : Str → Str)
    → (out : Str) × Expands mapping input out × (expand input mapping ≡ some out)
unfolding expand
expand-Expands input mapping =
    loop-LoopSpec input mapping (suc (length input)) 0 0 [] (omega arith) (omega arith)
      (omega arith)

-- An operator before a byte that is no operator and no opener: the operator stays, and the byte is
-- kept when it is below 128 and is replaced by the two bytes of a UTF-8 code point when it is not.
pub expand-other_byte :
    (b : ℕ) (mapping : Str → Str)
    → b ≢ operator
    → b ≢ reference_opener
    → expand (operator ∷ b ∷ []) mapping
      ≡ some
          (if ltb b 128 then operator ∷ b ∷ [] else operator ∷ (192 + b / 64) ∷ (128 + b % 64) ∷ [])
unfolding expand
expand-other_byte b mapping h k = ground arith
