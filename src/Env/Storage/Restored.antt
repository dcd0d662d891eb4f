-- ===== src/Env/Storage/Restored.antt =====
-- `do_saveenv` of common/cmd_nvedit.c, and `env_relocate` after the next start.
use armboot.Prelude.{
  ℕ, ◌+◌, ◌*◌, ◌%◌, ◌/◌, ◌^◌, ◌<◌, ◌≡◌, ◌∙◌, ap, refl, true, List, [], ◌∷◌, none, some, arith, ◌==◌,
  ==_iff, if◌then◌else◌, done,
}
use armboot.Crc.{crc32}
use armboot.Flash.{Sector, Bank}
use armboot.Env.{Env, Board, Config}
use armboot.Env.Image.{Entry, Represents}
use armboot.Env.Relocate.{env_relocate}
use armboot.Env.Relocate.Settings.{settled, env_relocate-settled}
use armboot.Env.Storage.{
  Drivers, Place, to_bytes, from_bytes, crc_matches, check_crc, board_env_copy, code, do_saveenv,
}
use armboot.Env.Storage.Sectors.{with_protection}
use armboot.Env.Storage.Saved.{IsPlace, erased_flash, board_env_save-whole}

-- `crc` is an ulong, and right for the data.
pub record IsSealed (e : Env) : Type 0 where
  pub in_range : e.crc < 2 ^ 32
  pub right : crc32 0 e.image ≡ e.crc

from_bytes-to_bytes : (e : Env) → e.crc < 2 ^ 32 → from_bytes (to_bytes e) ≡ e
from_bytes-to_bytes e h =
    let whole : e.crc % 2 ^ 8
          + e.crc / 2 ^ 8 % 2 ^ 8 * 2 ^ 8
          + e.crc / 2 ^ 16 % 2 ^ 8 * 2 ^ 16
          + e.crc / 2 ^ 24 % 2 ^ 8 * 2 ^ 24
        ≡ e.crc =
      omega (arith, h) in
    ap (λ (c : ℕ). record { crc = c; image = e.image }) whole

module _ {S : Type 0} (drivers : Drivers S) (place : Place) {info : Bank} {pre : List Sector}
    {s : Sector} {mid post : List Sector} (v : IsPlace drivers place info pre s mid post) where
  -- What is in the flash once the environment `e` is saved.
  abbrev pub saved : Env → S → S
  saved e flash =
      (drivers.write_buff 0 (to_bytes e) place.cfg_env_addr place.cfg_env_size
        (erased_flash drivers place v flash)).1

  saves :
      (bd : Board) (e : Env) (flash : S)
      → bd.env ≡ some e
      → do_saveenv drivers place bd (info ∷ []) flash
        ≡ done (0, with_protection 1 info pre s mid post ∷ [], saved e flash)
  unfolding do_saveenv
  saves bd e flash h = rw h (
      ap (λ r. done (code drivers place r))
        (board_env_save-whole drivers place v (to_bytes e) flash))

  copies :
      (e : Env) (flash : S)
      → IsSealed e
      → drivers.contents place.cfg_env_addr place.cfg_env_size (saved e flash) ≡ to_bytes e
      → board_env_copy drivers place none (saved e flash) ≡ some e
  unfolding board_env_copy check_crc
  copies e flash sealed stands =
      let read = ap from_bytes stands ∙ from_bytes-to_bytes e sealed.in_range in
      let right : (crc32 0 e.image == e.crc) ≡ true = (==_iff _ e.crc).1 sealed.right in
      ap (λ x. if crc_matches x then some x else none) read ∙ rw right refl

  -- On a board with one bank, whose sectors lie in order and fill it, and which ends below the last
  -- address 2 ^ 32 - 1: where whole sectors of the bank hold the environment, the driver has written
  -- what it was given, and the CRC of the environment in RAM is right, `do_saveenv` returns 0, and
  -- after the next start `env_relocate` copies the same environment to RAM, with the same addresses
  -- and boot file in it.
  pub do_saveenv-restored :
      (bd : Board) (e : Env) (flash : S) {es : List Entry}
      → bd.env ≡ some e
      → IsSealed e
      → Represents e.image es
      → drivers.contents place.cfg_env_addr place.cfg_env_size (saved e flash) ≡ to_bytes e
      → (do_saveenv drivers place bd (info ∷ []) flash
          ≡ done (0, with_protection 1 info pre s mid post ∷ [], saved e flash))
        × ((cfg : Config) (fresh : List ℕ) (next : Board)
            → env_relocate
                (record cfg { stored = board_env_copy drivers place none (saved e flash) })
                fresh
                next
              ≡ done (settled next e es))
  do_saveenv-restored bd e flash {es} h sealed rep stands = (
    saves bd e flash h,
    λ cfg fresh next.
        env_relocate-settled
          (record cfg { stored = board_env_copy drivers place none (saved e flash) }) fresh next e
          (copies e flash sealed stands) rep,
  )
