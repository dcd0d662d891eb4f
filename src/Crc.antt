-- ===== src/Crc.antt =====
-- common/crc32.c, with the table that `make_crc_table` makes.
pub mod Laws
mod Tests
use Prim.Native.Nat.{bit_and, bit_or, bit_xor}
use armboot.Prelude.{◌≡◌, refl, ℕ, zero, suc, ◌-◌, ◌/◌, ◌^◌, List, [], ◌∷◌, ◌==◌, if◌then◌else◌}

-- poly |= 1L << (31 - p[n]), over the terms of the polynomial
or_terms : ℕ → List ℕ → ℕ
or_terms poly [] = poly
or_terms poly (t ∷ ts) = or_terms (bit_or poly (2 ^ (31 - t))) ts

terms : List ℕ
terms = 0 ∷ 1 ∷ 2 ∷ 4 ∷ 5 ∷ 7 ∷ 8 ∷ 10 ∷ 11 ∷ 12 ∷ 16 ∷ 22 ∷ 23 ∷ 26 ∷ []

poly : ℕ
unfolding or_terms terms
poly = or_terms 0 terms

-- c = c & 1 ? poly ^ (c >> 1) : c >> 1, `k` times
shift_register : ℕ → ℕ → ℕ
shift_register zero c = c
shift_register (suc k) c =
    shift_register k (if bit_and c 1 == 1 then bit_xor poly (c / 2) else c / 2)

-- crc_table[n]
crc_table : ℕ → ℕ
unfolding shift_register poly
crc_table n = shift_register 8 n

-- DO1
do1 : ℕ → ℕ → ℕ
unfolding crc_table
do1 crc b = bit_xor (crc_table (bit_and (bit_xor crc b) 0xff)) (crc / 2 ^ 8)

-- The do-while loop over the bytes that are left.
do_each : ℕ → List ℕ → ℕ
do_each crc [] = crc
do_each crc (b ∷ bs) = do_each (do1 crc b) bs

-- DO8, by the bytes from `buf` on: while (len >= 8) { DO8(buf); len -= 8; } and the loop behind it.
do_eights : ℕ → List ℕ → ℕ
do_eights crc (a ∷ b ∷ c ∷ d ∷ e ∷ f ∷ g ∷ h ∷ rest) =
    do_eights (do1 (do1 (do1 (do1 (do1 (do1 (do1 (do1 crc a) b) c) d) e) f) g) h) rest
do_eights crc rest = do_each crc rest

-- `buf` is not the null pointer, for which both functions return 0.
unfoldable pub crc32_no_comp : ℕ → List ℕ → ℕ
unfolding do_eights do_each do1
crc32_no_comp crc buf = do_eights crc buf

unfoldable pub crc32 : ℕ → List ℕ → ℕ
unfolding do_eights do_each do1
crc32 crc buf = bit_xor (do_eights (bit_xor crc 0xffffffff) buf) 0xffffffff

crc32_check :
    crc32 0 (b'1' ∷ b'2' ∷ b'3' ∷ b'4' ∷ b'5' ∷ b'6' ∷ b'7' ∷ b'8' ∷ b'9' ∷ []) ≡ 0xcbf43926
unfolding crc32
crc32_check = refl
