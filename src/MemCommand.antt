-- ===== src/MemCommand.antt =====
-- `do_mem_mw`, `do_mem_cmp`, `do_mem_cp` and `do_mem_base` of common/cmd_mem.c. The memory is a
-- parameter, read and written by objects of 1, 2 or 4 bytes; reading has no side effects and an
-- abort of the bus is not modelled. An `ulong` has 32 bits.
pub mod Copied
pub mod Modify
mod Tests
use armboot.Prelude.{
  ℕ, zero, suc, ◌+◌, ◌*◌, ◌%◌, ◌^◌, Bool, true, false, List, [], ◌∷◌, Option, none, some, ◌==◌,
  if◌then◌else◌, drop,
}
use armboot.Prelude.Int.{ℤ, is_negative}
use armboot.CString.{CString, simple_strtoul}
use armboot.Flash.{Bank}
use armboot.Flash.Write.{addr2info, flash_write}

pub record Bus (M : Type 0) : Type 0 where
  pub read : ℕ → ℕ → M → ℕ
  pub write : ℕ → ℕ → ℕ → M → M

-- The size behind the name of the command: ".b", ".w" or anything else.
unfoldable pub size_of : CString → ℕ
size_of (dot ∷ c ∷ _) =
    if dot == b'.' then (if c == b'b' then 1 else if c == b'w' then 2 else 4) else 4
size_of _ = 4

abbrev pub next : ℕ → ℕ → ℕ
next addr size = (addr + size) % 2 ^ 32

-- addr = simple_strtoul(...); addr += base_address
abbrev pub address : ℕ → CString → ℕ
address base arg = ((simple_strtoul arg 16).0 + base) % 2 ^ 32

-- With an argument the base address is set.
unfoldable pub do_mem_base : List CString → ℕ → ℕ
unfolding simple_strtoul
do_mem_base (_ ∷ arg ∷ _) base = (simple_strtoul arg 16).0
do_mem_base _ base = base

module _ {M : Type 0} (bus : Bus M) where
  -- The loop of `do_mem_mw`.
  unfoldable pub fill : ℕ → ℕ → ℕ → ℕ → M → M
  fill zero size addr writeval m = m
  fill (suc count) size addr writeval m =
      fill count size (next addr size) writeval (bus.write size addr (writeval % 2 ^ (8 * size)) m)

  -- `ngood`, where the loop of `do_mem_cmp` ends.
  unfoldable pub compare : ℕ → ℕ → ℕ → ℕ → M → ℕ
  compare zero size addr1 addr2 m = 0
  compare (suc count) size addr1 addr2 m =
      let rest = compare count size (next addr1 size) (next addr2 size) m in
      if bus.read size addr1 m == bus.read size addr2 m then suc rest else 0

  -- The loop of `do_mem_cp`.
  unfoldable pub copy : ℕ → ℕ → ℕ → ℕ → M → M
  copy zero size addr dest m = m
  copy (suc count) size addr dest m =
      copy count size (next addr size) (next dest size)
        (bus.write size dest (bus.read size addr m) m)

  -- The bytes that `flash_write` finds at an address.
  unfoldable pub bytes_at : ℕ → ℕ → M → List ℕ
  bytes_at zero addr m = []
  bytes_at (suc count) addr m = bus.read 1 addr m ∷ bytes_at count (next addr 1) m

  unfoldable pub do_mem_mw : ℕ → List CString → M → ℕ × M
  unfolding fill size_of simple_strtoul
  do_mem_mw base (name ∷ addr ∷ value ∷ []) m =
      (0, fill 1 (size_of (drop 2 name)) (address base addr) (simple_strtoul value 16).0 m)
  do_mem_mw base (name ∷ addr ∷ value ∷ count ∷ []) m = (
    0,
    fill (simple_strtoul count 16).0 (size_of (drop 2 name)) (address base addr)
        (simple_strtoul value 16).0 m,
  )
  do_mem_mw base _ m = (1, m)

  -- The result, and the number of objects that were the same.
  unfoldable pub do_mem_cmp : ℕ → List CString → M → ℕ × ℕ
  unfolding compare size_of simple_strtoul
  do_mem_cmp base (name ∷ first ∷ second ∷ count ∷ []) m = (
    0,
    compare (simple_strtoul count 16).0 (size_of (drop 3 name)) (address base first)
        (address base second) m,
  )
  do_mem_cmp base _ m = (1, 0)

  module _ {S : Type 0} (write_buff : ℕ → List ℕ → ℕ → ℕ → S → ℤ × S) (banks : List Bank) where
    -- "Copy to Flash... "
    abbrev pub copy_to_flash : ℕ → ℕ → ℕ → M → S → ℕ × M × S
    copy_to_flash addr dest count m flash =
        let (rc, flash') = flash_write write_buff banks (bytes_at count addr m) dest count flash in
        (if is_negative rc then 1 else 0, m, flash')

    abbrev pub copy_to : Option ℕ → ℕ → ℕ → ℕ → ℕ → M → S → ℕ × M × S
    copy_to (some info) count size addr dest m flash =
        copy_to_flash addr dest (count * size % 2 ^ 32) m flash
    copy_to none count size addr dest m flash = (0, copy count size addr dest m, flash)

    unfoldable pub do_mem_cp : ℕ → List CString → M → S → ℕ × M × S
    unfolding copy size_of simple_strtoul addr2info flash_write bytes_at
    do_mem_cp base (name ∷ from ∷ to ∷ count ∷ []) m flash =
        copy_to (addr2info 0 banks (address base to)) (simple_strtoul count 16).0
          (size_of (drop 2 name)) (address base from) (address base to) m flash
    do_mem_cp base _ m flash = (1, m, flash)
