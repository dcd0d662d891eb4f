-- ===== src/CString/Laws.antt =====
-- What the string functions compute, against equality, prefixes and positional notation.
use armboot.Prelude.{ℕ, zero, suc, ◌≡◌, ◌↔◌, refl, [], ◌∷◌, arith, length, take}
use armboot.CString.{CString, IsCString, strcmp, strncmp, strlen}

-- `strcmp` returns 0 exactly for equal strings.
pub strcmp_iff : (a b : CString) → IsCString a → IsCString b → (strcmp a b ≡ 0) ↔ (a ≡ b)
unfolding strcmp
strcmp_iff [] [] ha hb = ground arith
strcmp_iff [] (t ∷ ts) ha hb = ground arith
strcmp_iff (c ∷ cs) [] ha hb = ground arith
strcmp_iff (c ∷ cs) (t ∷ ts) ha hb = ground (arith, strcmp_iff cs ts ha.2 hb.2)

-- `strncmp` returns 0 exactly for strings that agree in their first `n` characters.
pub strncmp_iff :
    (a b : CString) (n : ℕ)
    → IsCString a
    → IsCString b
    → (strncmp a b n ≡ 0) ↔ (take n a ≡ take n b)
unfolding strncmp
strncmp_iff a b zero ha hb = ground arith
strncmp_iff [] [] (suc n) ha hb = ground arith
strncmp_iff [] (t ∷ ts) (suc n) ha hb = ground arith
strncmp_iff (c ∷ cs) [] (suc n) ha hb = ground arith
strncmp_iff (c ∷ cs) (t ∷ ts) (suc n) ha hb = ground (arith, strncmp_iff cs ts n ha.2 hb.2)

pub strlen-eq-length : (s : CString) → strlen s ≡ length s
unfolding strlen
strlen-eq-length [] = refl
strlen-eq-length (c ∷ cs) = omega (arith, strlen-eq-length cs)
