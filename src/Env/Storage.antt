-- ===== src/Env/Storage.antt =====
-- board/lart/env.c, which most boards have a copy of, and `do_saveenv` of common/cmd_nvedit.c. The
-- drivers of the flash are an interface.
pub mod Sectors
pub mod Saved
pub mod Restored
use armboot.Prelude.{
  ℕ, ◌+◌, ◌-◌, ◌*◌, ◌%◌, ◌/◌, ◌^◌, Bool, true, false, List, [], ◌∷◌, ◌++◌, Option, none, some, ◌==◌,
  ltb, if◌then◌else◌, get_elem?, Exec, done, fault, drop, length,
}
use armboot.Prelude.Int.{ℤ, pos, is_negative}
use armboot.Crc.{crc32}
use armboot.Net.{byte}
use armboot.Flash.{Bank}
use armboot.Flash.Erase.{flash_sect_protect, flash_sect_erase}
use armboot.Flash.Write.{flash_write, is_error}
use armboot.Env.{Env, Board}

-- The drivers of board/*/flash.c, by the index of a bank, and what is read at an address.
pub record Drivers (S : Type 0) : Type 0 where
  pub flash_erase : ℕ → ℕ → ℕ → S → ℤ × S
  pub write_buff : ℕ → List ℕ → ℕ → ℕ → S → ℤ × S
  pub contents : ℕ → ℕ → S → List ℕ

-- CFG_ENV_ADDR, and CFG_ENV_SIZE, which is sizeof(env_t)
pub record Place : Type 0 where
  pub cfg_env_addr : ℕ
  pub cfg_env_size : ℕ

-- `env_t` in memory: the CRC, little-endian, and the data.
abbrev pub to_bytes : Env → List ℕ
to_bytes e =
    (e.crc % 2 ^ 8)
    ∷ (e.crc / 2 ^ 8 % 2 ^ 8)
    ∷ (e.crc / 2 ^ 16 % 2 ^ 8)
    ∷ (e.crc / 2 ^ 24 % 2 ^ 8)
    ∷ e.image

abbrev pub from_bytes : List ℕ → Env
from_bytes p = record {
  crc = byte p 0 + byte p 1 * 2 ^ 8 + byte p 2 * 2 ^ 16 + byte p 3 * 2 ^ 24;
  image = drop 4 p;
}

abbrev pub crc_matches : Env → Bool
crc_matches env = crc32 0 env.image == env.crc

module _ {S : Type 0} (drivers : Drivers S) (place : Place) where
  -- (env_t *)CFG_ENV_ADDR
  abbrev pub flash_env : S → Env
  flash_env flash = from_bytes (drivers.contents place.cfg_env_addr place.cfg_env_size flash)

  -- `check_crc`, by env_crc_valid, which is `none` for 0. The call leaves `some` of its result there.
  unfoldable pub check_crc : Option Bool → S → Bool
  unfolding crc32
  check_crc (some valid) flash = valid
  check_crc none flash = crc_matches (flash_env flash)

  -- `none` is the return of -1.
  unfoldable pub board_env_copy : Option Bool → S → Option Env
  unfolding check_crc
  board_env_copy valid flash = if check_crc valid flash then some (flash_env flash) else none

  unfoldable pub board_env_getchar : Option Bool → ℕ → S → Option ℕ
  unfolding check_crc
  board_env_getchar valid index flash =
      if ltb index (length (flash_env flash).image)
      then (if check_crc valid flash then get_elem? (flash_env flash).image index else none)
      else none

  abbrev pub end_addr : ℕ
  end_addr = place.cfg_env_addr + place.cfg_env_size - 1

  -- Behind the erasure, by what that has returned.
  abbrev pub write_env : ℤ → List Bank → S → List ℕ → ℤ × List Bank × S
  write_env rc banks flash env =
      let again = (flash_sect_protect 1 place.cfg_env_addr end_addr banks).1 in
      let flash' =
        (flash_write drivers.write_buff banks env place.cfg_env_addr place.cfg_env_size flash).1 in
      if is_negative rc then (rc, again, flash) else (pos 0, again, flash')

  abbrev pub erase_env : ℤ → List Bank → S → List ℕ → ℤ × List Bank × S
  erase_env rc banks flash env =
      let (rc', flash') =
        flash_sect_erase drivers.flash_erase place.cfg_env_addr end_addr banks flash in
      if is_negative rc then (rc, banks, flash) else write_env rc' banks flash' env

  -- The result, the banks and the flash. `env` is the bytes of `env_t`, CFG_ENV_SIZE of them.
  unfoldable pub board_env_save : List ℕ → List Bank → S → ℤ × List Bank × S
  unfolding flash_sect_protect flash_sect_erase flash_write
  board_env_save env banks flash =
      let (rc, banks') = flash_sect_protect 0 place.cfg_env_addr end_addr banks in
      erase_env rc banks' flash env

  abbrev pub code : ℤ × List Bank × S → ℕ × List Bank × S
  code (rc, banks, flash) = (if is_error rc then 1 else 0, banks, flash)

  -- While `bi_env` is NULL, the bytes near address 0 would be written.
  unfoldable pub do_saveenv : Board → List Bank → S → Exec (ℕ × List Bank × S)
  unfolding board_env_save
  do_saveenv bd banks flash = elim bd.env [
    | none ↦ fault
    | some e ↦ done (code (board_env_save (to_bytes e) banks flash))
  ]
