-- ===== src/MemCommand/Copied.antt =====
-- `do_mem_cp` and then `do_mem_cmp` of common/cmd_mem.c.
use armboot.Prelude.{
  ℕ, zero, suc, ◌+◌, ◌*◌, ◌^◌, ◌<◌, ◌≤◌, ◌≡◌, ◌∙◌, ◌⊎◌, inl, refl, ap, List, [], ◌∷◌, none, arith,
  drop,
}
use armboot.Prelude.Int.{ℤ}
use armboot.CString.{CString, simple_strtoul}
use armboot.Flash.{Bank}
use armboot.Flash.Write.{addr2info}
use armboot.MemCommand.{Bus, size_of, next, address, copy, copy_to, compare, do_mem_cp, do_mem_cmp}

-- Two stretches of memory that do not meet.
abbrev pub Apart : ℕ → ℕ → ℕ → ℕ → Type 0
Apart x m y n = (x + m ≤ y) ⊎ (y + n ≤ x)

-- What objects of one size hold is kept until another is written over it, or a part of it.
pub record IsMemory {M : Type 0} (bus : Bus M) (size : ℕ) : Type 0 where
  pub written :
      (x y : ℕ) (m n : M)
      → bus.read size y (bus.write size y (bus.read size x n) m) ≡ bus.read size x n
  pub kept :
      (x y v : ℕ) (m : M)
      → Apart x size y size
      → bus.read size x (bus.write size y v m) ≡ bus.read size x m

unfoldable pub product : ℕ → ℕ → ℕ
product zero size = 0
product (suc count) size = size + product count size

module _ {M : Type 0} (bus : Bus M) (size : ℕ) (positive : 0 < size)
    (memory : IsMemory bus size) where
  next_in :
      (addr count : ℕ) → addr + (size + product count size) < 2 ^ 32 → next addr size ≡ addr + size
  next_in addr count h = omega (arith, h)

  copy_keeps :
      (count x addr dest : ℕ) (m : M)
      → addr + product count size < 2 ^ 32
      → dest + product count size < 2 ^ 32
      → Apart x size dest (product count size)
      → bus.read size x (copy bus count size addr dest m) ≡ bus.read size x m
  unfolding copy product
  copy_keeps zero x addr dest m h k apart = refl
  copy_keeps (suc count) x addr dest m h k apart =
      rw (next_in addr count h, next_in dest count k)
        (copy_keeps count x (addr + size) (dest + size) _ (omega (arith, h)) (omega (arith, k))
            (ground (arith, apart))
          ∙ memory.kept x dest (bus.read size addr m) m (ground (arith, apart)))

  copy_same :
      (count addr dest : ℕ) (m : M)
      → addr + product count size < 2 ^ 32
      → dest + product count size < 2 ^ 32
      → Apart addr (product count size) dest (product count size)
      → compare bus count size addr dest (copy bus count size addr dest m) ≡ count
  unfolding copy compare product
  copy_same zero addr dest m h k apart = refl
  copy_same (suc count) addr dest m h k apart =
      let v = bus.read size addr m in
      let m' = bus.write size dest v m in
      let read_dest =
        copy_keeps count dest (addr + size) (dest + size) m' (omega (arith, h)) (omega (arith, k))
          (inl (omega arith))
        ∙ memory.written addr dest m m in
      let read_addr =
        copy_keeps count addr (addr + size) (dest + size) m' (omega (arith, h)) (omega (arith, k))
          (ground (arith, apart))
        ∙ memory.kept addr dest v m (ground (arith, apart)) in
      let rest =
        copy_same count (addr + size) (dest + size) m' (omega (arith, h)) (omega (arith, k))
          (ground (arith, apart)) in
      rw (next_in addr count h, next_in dest count k) (ground (arith, read_dest, read_addr, rest))

product-le : (i count size : ℕ) → i < count → product i size + size ≤ product count size
unfolding product
product-le i zero size h = absurd (omega (arith, h))
product-le zero (suc count) size h = omega arith
product-le (suc i) (suc count) size h =
    let k = product-le i count size (omega (arith, h)) in omega (arith, k)

module _ {M : Type 0} (bus : Bus M) (size : ℕ) (positive : 0 < size)
    (memory : IsMemory bus size) where
  -- Each object of the destination is what the source held.
  copy_moves :
      (count i addr dest : ℕ) (m : M)
      → i < count
      → addr + product count size < 2 ^ 32
      → dest + product count size < 2 ^ 32
      → Apart addr (product count size) dest (product count size)
      → bus.read size (dest + product i size) (copy bus count size addr dest m)
        ≡ bus.read size (addr + product i size) m
  unfolding copy product
  copy_moves zero i addr dest m lt h k apart = absurd (omega (arith, lt))
  copy_moves (suc count) zero addr dest m lt h k apart =
      let v = bus.read size addr m in
      let m' = bus.write size dest v m in
      let first : dest + 0 ≡ dest = omega arith in
      let first' : addr + 0 ≡ addr = omega arith in
      rw
        (
          next_in bus size positive memory addr count h,
          next_in bus size positive memory dest count k,
          first,
          first',
        )
        (copy_keeps bus size positive memory count dest (addr + size) (dest + size) m'
            (omega (arith, h)) (omega (arith, k)) (inl (omega arith))
          ∙ memory.written addr dest m m)
  copy_moves (suc count) (suc i) addr dest m lt h k apart =
      let v = bus.read size addr m in
      let m' = bus.write size dest v m in
      let room = product-le i count size (omega (arith, lt)) in
      let later : dest + (size + product i size) ≡ dest + size + product i size = omega arith in
      let later' : addr + (size + product i size) ≡ addr + size + product i size = omega arith in
      rw
        (
          next_in bus size positive memory addr count h,
          next_in bus size positive memory dest count k,
          later,
          later',
        )
        (copy_moves count i (addr + size) (dest + size) m' (omega (arith, lt)) (omega (arith, h))
            (omega (arith, k)) (ground (arith, apart))
          ∙ memory.kept (addr + size + product i size) dest v m (ground (arith, apart, room)))

product-times : (count size : ℕ) → product count size ≡ count * size
unfolding product
product-times zero size = omega arith
product-times (suc count) size = omega (arith, product-times count size)

size_of-positive : (s : CString) → 0 < size_of s
unfolding size_of
size_of-positive [] = omega arith
size_of-positive (_ ∷ []) = omega arith
size_of-positive (dot ∷ c ∷ _) = ground arith

-- `do_mem_cp`, to a place that is in no bank of the flash, and then `do_mem_cmp` with the same
-- arguments and the same size behind its name, in a memory that keeps what is written: if the two
-- stretches of memory end below 2 ^ 32 and do not meet, then both return 0, the flash is as it was,
-- each object of the destination is then what the source held before, and all objects are found to be
-- the same.
pub do_mem_cmp-do_mem_cp :
    {M S : Type 0} (bus : Bus M) (write_buff : ℕ → List ℕ → ℕ → ℕ → S → ℤ × S) (banks : List Bank)
    (base : ℕ) (cp cmp from to count : CString) (m : M) (flash : S)
    → IsMemory bus (size_of (drop 2 cp))
    → size_of (drop 3 cmp) ≡ size_of (drop 2 cp)
    → addr2info 0 banks (address base to) ≡ none
    → address base from + (simple_strtoul count 16).0 * size_of (drop 2 cp) < 2 ^ 32
    → address base to + (simple_strtoul count 16).0 * size_of (drop 2 cp) < 2 ^ 32
    → Apart
        (address base from)
        ((simple_strtoul count 16).0 * size_of (drop 2 cp))
        (address base to)
        ((simple_strtoul count 16).0 * size_of (drop 2 cp))
    → (m' : M) × (do_mem_cp bus write_buff banks base (cp ∷ from ∷ to ∷ count ∷ []) m flash
        ≡ (0, m', flash))
      × ((i : ℕ)
          → i < (simple_strtoul count 16).0
          → bus.read (size_of (drop 2 cp)) (address base to + i * size_of (drop 2 cp)) m'
            ≡ bus.read (size_of (drop 2 cp)) (address base from + i * size_of (drop 2 cp)) m)
      × (do_mem_cmp bus base (cmp ∷ from ∷ to ∷ count ∷ []) m' ≡ (0, (simple_strtoul count 16).0))
unfolding do_mem_cp do_mem_cmp
do_mem_cmp-do_mem_cp bus write_buff banks base cp cmp from to count m flash memory sizes ram h k
      apart =
    let n = (simple_strtoul count 16).0 in
    let size = size_of (drop 2 cp) in
    let total = product-times n size in
    (
      copy bus n size (address base from) (address base to) m,
      ap (λ o. copy_to bus write_buff banks o n size (address base from) (address base to) m flash)
          ram,
      λ i lt.
          let offset = product-times i size in
          let below = product-le i n size lt in
          let moved =
            copy_moves bus size (size_of-positive (drop 2 cp)) memory n i (address base from)
              (address base to) m lt (omega (arith, total, h)) (omega (arith, total, k))
              (ground (arith, total, apart)) in
          rw (← offset) moved,
      ap
            (λ s. (
              0,
              compare bus n s (address base from) (address base to)
                  (copy bus n size (address base from) (address base to) m),
            ))
            sizes
          ∙ ap (λ c. (0, c))
              (copy_same bus size (size_of-positive (drop 2 cp)) memory n (address base from)
                (address base to) m (omega (arith, total, h)) (omega (arith, total, k))
                (ground (arith, total, apart))),
    )
