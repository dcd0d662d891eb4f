-- ===== src/Flash/Write.antt =====
-- `addr2info` and `flash_write` of common/flash.c. The driver is called for a bank, by its index, with
-- the bytes from `src` on, an address and a length.
pub mod Guard
use armboot.Prelude.{
  ℕ, zero, suc, ◌+◌, ◌-◌, ◌%◌, ◌^◌, Bool, true, false, not, ◌&&◌, ◌||◌, List, [], ◌∷◌, Option, none,
  some, ◌==◌, ltb, leb, if◌then◌else◌, take, drop,
}
use armboot.Prelude.Int.{ℤ, pos, negsuc}
use armboot.Flash.{
  Sector, Bank, err_ok, err_protected, err_inval, flash_unknown, start_of, bank_end, add_ulong,
  pred_ulong,
}

-- The index of the bank, in place of a pointer to it; `none` is NULL.
unfoldable pub addr2info : ℕ → List Bank → ℕ → Option ℕ
addr2info i [] addr = none
addr2info i (info ∷ banks) addr =
    let rest = addr2info (i + 1) banks addr in
    if not (info.flash_id == flash_unknown)
      && leb (start_of info.sectors) addr
      && leb addr (bank_end info)
    then some i
    else rest

-- (i == s_end) ? b_end : info->start[i + 1]
abbrev pub next_start : ℕ → List Sector → ℕ
next_start b_end [] = b_end
next_start b_end (t ∷ _) = t.start

-- Is a protected sector hit?
unfoldable pub hits : ℕ → ℕ → ℕ → List Sector → Bool
hits addr end b_end [] = false
hits addr end b_end (s ∷ rest) =
    (leb s.start end && ltb addr (next_start b_end rest) && not (s.protect == 0))
    || hits addr end b_end rest

unfoldable pub any_hits : ℕ → ℕ → List Bank → Bool
any_hits addr end [] = false
any_hits addr end (info ∷ banks) =
    hits addr end (add_ulong (start_of info.sectors) info.size) info.sectors
    || any_hits addr end banks

-- for (info = info_first; info <= info_last; ++info)
abbrev pub banks_between : ℕ → ℕ → List Bank → List Bank
banks_between first last banks = take (last + 1 - first) (drop first banks)

abbrev pub is_error : ℤ → Bool
is_error (pos zero) = false
is_error (pos (suc n)) = true
is_error (negsuc n) = true

module _ {S : Type 0} (write_buff : ℕ → List ℕ → ℕ → ℕ → S → ℤ × S) where
  -- The second loop, over the banks from the index `i` on.
  unfoldable pub write_banks : ℕ → List Bank → List ℕ → ℕ → ℕ → S → ℤ × S
  write_banks i [] src addr cnt flash = (err_ok, flash)
  write_banks i (info ∷ banks) src addr cnt flash =
      let room = (add_ulong (start_of info.sectors) info.size + (2 ^ 32 - addr)) % 2 ^ 32 in
      let len = if ltb cnt room then cnt else room in
      let (rc, flash') = write_buff i src addr len flash in
      let more = write_banks (i + 1) banks (drop len src) (add_ulong addr len) (cnt - len) flash' in
      if cnt == 0 then (err_ok, flash) else if is_error rc then (rc, flash') else more

  -- From `if (!info_first || !info_last)` on.
  unfoldable pub checked_write : List Bank → List ℕ → ℕ → ℕ → S → ℕ → Option ℕ → Option ℕ → ℤ × S
  checked_write banks src addr cnt flash end none _ = (err_inval, flash)
  checked_write banks src addr cnt flash end (some first) none = (err_inval, flash)
  checked_write banks src addr cnt flash end (some first) (some last) =
      if any_hits addr end (banks_between first last banks)
      then (err_protected, flash)
      else write_banks first (banks_between first last banks) src addr cnt flash

  unfoldable pub flash_write : List Bank → List ℕ → ℕ → ℕ → S → ℤ × S
  flash_write banks src addr cnt flash =
      let end = pred_ulong (add_ulong addr cnt) in
      if cnt == 0
      then (err_ok, flash)
      else checked_write banks src addr cnt flash end (addr2info 0 banks addr)
          (addr2info 0 banks end)
