-- ===== src/Crc/Laws.antt =====
-- The unrolled loop of common/crc32.c against the plain one, and the CRC of two pieces.
use armboot.Prelude.{ℕ, ◌≡◌, refl, sym, ap, ◌∙◌, List, [], ◌∷◌, ◌++◌}
use armboot.Crc.{do1, do_each, do_eights, crc32_no_comp}

do_eights-do_each : (crc : ℕ) (bs : List ℕ) → do_eights crc bs ≡ do_each crc bs
unfolding do_eights do_each
do_eights-do_each crc [] = refl
do_eights-do_each crc (a ∷ []) = refl
do_eights-do_each crc (a ∷ b ∷ []) = refl
do_eights-do_each crc (a ∷ b ∷ c ∷ []) = refl
do_eights-do_each crc (a ∷ b ∷ c ∷ d ∷ []) = refl
do_eights-do_each crc (a ∷ b ∷ c ∷ d ∷ e ∷ []) = refl
do_eights-do_each crc (a ∷ b ∷ c ∷ d ∷ e ∷ f ∷ []) = refl
do_eights-do_each crc (a ∷ b ∷ c ∷ d ∷ e ∷ f ∷ g ∷ []) = refl
do_eights-do_each crc (a ∷ b ∷ c ∷ d ∷ e ∷ f ∷ g ∷ h ∷ rest) =
    do_eights-do_each (do1 (do1 (do1 (do1 (do1 (do1 (do1 (do1 crc a) b) c) d) e) f) g) h) rest

do_each-append : (crc : ℕ) (xs ys : List ℕ) → do_each crc (xs ++ ys) ≡ do_each (do_each crc xs) ys
unfolding do_each
do_each-append crc [] ys = refl
do_each-append crc (x ∷ xs) ys = do_each-append (do1 crc x) xs ys

-- `crc32_no_comp` of two pieces, one behind the other, is the one of the second that starts from the
-- one of the first, wherever the cut is: also inside of the groups of eight bytes that the unrolled
-- loop takes.
pub crc32_no_comp-append :
    (crc : ℕ) (xs ys : List ℕ)
    → crc32_no_comp crc (xs ++ ys) ≡ crc32_no_comp (crc32_no_comp crc xs) ys
unfolding crc32_no_comp
crc32_no_comp-append crc xs ys =
    do_eights-do_each crc (xs ++ ys)
    ∙ do_each-append crc xs ys
    ∙ ap (λ c. do_each c ys) (sym (do_eights-do_each crc xs))
    ∙ sym (do_eights-do_each (do_eights crc xs) ys)
