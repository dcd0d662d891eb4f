-- ===== src/Memory/Move.antt =====
-- `memcpy` and `memmove` of common/string.c, inside of one array.
pub mod Overlap
use armboot.Prelude.{ℕ, zero, suc, ◌+◌, List, leb, if◌then◌else◌, Exec, done, ◌>>=◌}
use armboot.Memory.{load, store}

-- while (count--) *tmp++ = *s++;
unfoldable pub copy_forward : List ℕ → ℕ → ℕ → ℕ → Exec (List ℕ)
copy_forward p tmp s zero = done p
copy_forward p tmp s (suc count) = do
  c ← load p s
  q ← store p tmp c
  copy_forward q (tmp + 1) (s + 1) count

-- while (count--) *--tmp = *--s; from dest + count and src + count on
unfoldable pub copy_backward : List ℕ → ℕ → ℕ → ℕ → Exec (List ℕ)
copy_backward p dest src zero = done p
copy_backward p dest src (suc count) = do
  c ← load p (src + count)
  q ← store p (dest + count) c
  copy_backward q dest src count

unfoldable pub memcpy : List ℕ → ℕ → ℕ → ℕ → Exec (List ℕ)
memcpy p dest src count = copy_forward p dest src count

unfoldable pub memmove : List ℕ → ℕ → ℕ → ℕ → Exec (List ℕ)
memmove p dest src count =
    if leb dest src then copy_forward p dest src count else copy_backward p dest src count
