-- ===== src/Expansion/Examples.antt =====
-- Expand on concrete texts, and the theorems of Expansion/Correct.antt at them.
use native_kubelet.Base.{Str, Dict, codes, [], ◌∷◌, some, ◌≡◌, refl}
use native_kubelet.Expansion.{expand, mapping_func_for}
use native_kubelet.Expansion.Spec.{Expands}
use native_kubelet.Expansion.Correct.{expand-Expands}

abbrev vars : Dict Str
vars = (codes "VAR", codes "value") ∷ []

abbrev mapping : Str → Str
mapping = mapping_func_for (vars ∷ [])

expand_known : expand (codes "a$(VAR)b$$(c$(NO)$") mapping ≡ some (codes "avalueb$(c$(NO)$")
unfolding expand mapping_func_for
expand_known = refl

expand-Expands_example :
    (out : Str) × Expands mapping (codes "a$(VAR)b$$(c$(NO)$") out
    × (expand (codes "a$(VAR)b$$(c$(NO)$") mapping ≡ some out)
expand-Expands_example = expand-Expands (codes "a$(VAR)b$$(c$(NO)$") mapping
