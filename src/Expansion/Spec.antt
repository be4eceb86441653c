-- ===== src/Expansion/Spec.antt =====
-- The expansion spec as a relation between a text and its expansion.
use native_kubelet.Base.{ℕ, Str, All, ◌≡◌, ◌≢◌, [], ◌∷◌, ◌++◌}
use native_kubelet.Expansion.{operator, reference_opener, reference_closer, string_of_byte}

abbrev pub NoCloser : Str → Type 0
NoCloser = All (λ c. c ≢ reference_closer)

pub data Expands (mapping : Str → Str) : Str → Str → Type 0 where
  end : Expands mapping [] []
  -- an operator at the very end stays
  lone : (c : ℕ) → c ≡ operator → Expands mapping (c ∷ []) (c ∷ [])
  plain :
      {c : ℕ} {rest out : Str}
      → c ≢ operator
      → Expands mapping rest out
      → Expands mapping (c ∷ rest) (c ∷ out)
  -- `$$` is an escaped operator
  escape :
      {rest out : Str}
      → Expands mapping rest out
      → Expands mapping (operator ∷ operator ∷ rest) (operator ∷ out)
  -- `$(name)`, up to the first closer
  variable :
      (name : Str) {rest out : Str}
      → NoCloser name
      → Expands mapping rest out
      → Expands mapping
          (operator ∷ reference_opener ∷ (name ++ reference_closer ∷ rest))
          (mapping name ++ out)
  -- `$(` with no closer after it stays
  unclosed :
      {rest out : Str}
      → NoCloser rest
      → Expands mapping rest out
      → Expands mapping (operator ∷ reference_opener ∷ rest) (operator ∷ reference_opener ∷ out)
  -- an operator before any other byte stays, and the byte goes through `string(b)`
  other :
      {c : ℕ} {rest out : Str}
      → c ≢ operator
      → c ≢ reference_opener
      → Expands mapping rest out
      → Expands mapping (operator ∷ c ∷ rest) (operator ∷ (string_of_byte c ++ out))
