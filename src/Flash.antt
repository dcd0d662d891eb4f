-- ===== src/Flash.antt =====
-- common/flash.c and common/cmd_flash.c: what the banks of flash memory are, and what may be written,
-- erased and protected. The drivers, `write_buff` and `flash_erase` of board/*/flash.c, are an
-- interface.
pub mod Sectors
pub mod Protect
pub mod Write
pub mod Erase
pub mod Spec
pub mod Commands
mod Tests
use armboot.Prelude.{
  ℕ, zero, suc, ◌+◌, ◌-◌, ◌*◌, ◌%◌, ◌^◌, Bool, true, false, not, ◌&&◌, ◌||◌, List, [], ◌∷◌, ◌++◌,
  Option, none, some, ◌==◌, ltb, leb, if◌then◌else◌, length, get_elem?, take, drop, set,
}
use armboot.Prelude.Int.{ℤ, pos, negsuc}

-- One sector: start[i] and protect[i].
pub record Sector : Type 0 where
  pub start : ℕ
  pub protect : ℕ

-- `flash_info_t`; there are `sector_count` sectors in the list.
pub record Bank : Type 0 where
  pub size : ℕ
  pub flash_id : ℕ
  pub sectors : List Sector

-- ERR_OK, ERR_PROTECTED and ERR_INVAL
abbrev pub err_ok : ℤ
err_ok = pos 0

abbrev pub err_protected : ℤ
err_protected = negsuc 2

abbrev pub err_inval : ℤ
err_inval = negsuc 3

abbrev pub flash_unknown : ℕ
flash_unknown = 0xffff

-- start[0]; `flash_info` is zero until a driver fills it in.
abbrev pub start_of : List Sector → ℕ
start_of [] = 0
start_of (s ∷ _) = s.start

-- a - 1 and a + b in an unsigned long
abbrev pub pred_ulong : ℕ → ℕ
pred_ulong a = (a + (2 ^ 32 - 1)) % 2 ^ 32

abbrev pub add_ulong : ℕ → ℕ → ℕ
add_ulong a b = (a + b) % 2 ^ 32

-- info->start[0] + info->size - 1
abbrev pub bank_end : Bank → ℕ
bank_end info = pred_ulong (add_ulong (start_of info.sectors) info.size)

-- (i == s_end) ? b_end : info->start[i + 1] - 1, by the sectors behind
abbrev pub sector_end : ℕ → List Sector → ℕ
sector_end b_end [] = b_end
sector_end b_end (s ∷ _) = pred_ulong s.start

-- FLAG_PROTECT_CLEAR and FLAG_PROTECT_SET of `flag`
pub record Flag : Type 0 where
  pub clear : Bool
  pub set_it : Bool

abbrev pub flagged : Flag → Sector → Sector
flagged flag s =
    if flag.clear
    then record s { protect = 0 }
    else if flag.set_it
    then record s { protect = 1 }
    else s

-- The loop of `flash_protect`.
unfoldable pub protect_sectors : Flag → ℕ → ℕ → ℕ → List Sector → List Sector
protect_sectors flag from to b_end [] = []
protect_sectors flag from to b_end (s ∷ rest) =
    let others = protect_sectors flag from to b_end rest in
    if leb from (sector_end b_end rest) && leb s.start to
    then flagged flag s ∷ others
    else s ∷ others

unfoldable pub flash_protect : Flag → ℕ → ℕ → Bank → Bank
flash_protect flag from to info =
    if length info.sectors == 0 || info.size == 0 || ltb to from
    then info
    else if info.flash_id == flash_unknown
        || ltb to (start_of info.sectors)
        || ltb (bank_end info) from
    then info
    else record info { sectors = protect_sectors flag from to (bank_end info) info.sectors }
