-- ===== src/Env/Tests.antt =====
-- An environment of 32 bytes, and the theorems at it.
mod Variables
use Prim.Native.Char.{code}
use Prim.Native.String.{String}
use armboot.Prelude.{
  zero, suc, ◌+◌, ◌==◌, if◌then◌else◌, ℕ, ◌≡◌, refl, inl, inr, true, false, List, [], ◌∷◌, ◌++◌,
  none, some, arith, length, done, fault,
}
use armboot.Memory.{load}
use armboot.CString.{is_among, strlen, simple_strtoul, prefix, after_zero, read_digits}
use armboot.Env.{Env, Board, Config, env_char, find_end, envmatch, getenv_value}
use armboot.Env.Image.{Entry, IsName, encode, same, lookup, erase, Represents}
use armboot.Env.Lookup.{Visible, getenv_value-lookup}
use armboot.Env.Append.{entry}
use armboot.Env.Prepare.{IsPlain}
use armboot.Env.Refine.{do_setenv-erase, do_setenv-refines, do_setenv-overflow, do_setenv-fault}
use armboot.Env.Refuse.{do_setenv-once, do_setenv-baudrate_unsupported, do_setenv-baudrate_null}
use armboot.Env.Reread.{reread, Distinct, getenv-do_setenv}
use armboot.Env.Commands.{print_range, print_all, print_name, print_names, do_printenv}
use armboot.Env.Commands.Printed.{do_printenv-listing}
use armboot.Crc.{crc32}
use armboot.Prelude.Int.{pos}
use armboot.Flash.{Sector, Bank}
use armboot.Env.Storage.{Drivers, Place, to_bytes, board_env_copy, board_env_save, do_saveenv}
use armboot.Env.Storage.Saved.{IsPlace, board_env_save-whole}
use armboot.Env.Storage.Restored.{IsSealed, do_saveenv-restored}
use armboot.Env.Relocate.{env_relocate}
use armboot.Env.Relocate.Settings.{settled, env_relocate-settled}
use armboot.Env.Setenv.{do_setenv, with_image, update_copies, serial, baudrate, parse_ip_addr}
use armboot.Env.Tests.Variables.{var, entries, slack, image, env, cfg, bd}

abbrev network : List Entry
network = var "ipaddr" "10.0.0.2" ∷ var "loadaddr" "c0" ∷ []

abbrev stored : Env
stored = record { crc = 0; image = encode network (0 ∷ []) }

network-Represents : Represents (encode network (0 ∷ [])) network
network-Represents = record {
  slack = [];
  image_is = refl;
  entries = omega arith;
  two_zeros = λ e. cc;
}

env_relocate-settled_example :
    env_relocate (record cfg { stored = some stored }) [] bd ≡ done (settled bd stored network)
env_relocate-settled_example =
    env_relocate-settled (record cfg { stored = some stored }) [] bd stored refl network-Represents

from_network : settled bd stored network ≡ record bd {
  env = some stored;
  enetaddr = 0 ∷ 0 ∷ 0 ∷ 0 ∷ 0 ∷ 0 ∷ [];
  ip_addr = 0x0a000002;
  load_addr = 0xc0;
}
unfolding lookup same simple_strtoul parse_ip_addr read_digits prefix after_zero
from_network = refl

-- A flash of bytes with three sectors of 16 bytes; the second one has the environment.
abbrev write_all : List ℕ → ℕ → (ℕ → ℕ) → ℕ → ℕ
write_all [] addr flash = flash
write_all (c ∷ cs) addr flash = write_all cs (addr + 1) (λ a. if a == addr then c else flash a)

abbrev read_all : ℕ → ℕ → (ℕ → ℕ) → List ℕ
read_all addr zero flash = []
read_all addr (suc n) flash = flash addr ∷ read_all (addr + 1) n flash

abbrev drivers : Drivers (ℕ → ℕ)
drivers = record {
  flash_erase = λ bank f l flash. (pos 0, λ a. 0xff);
  write_buff = λ bank src addr cnt flash. (pos 0, write_all src addr flash);
  contents = read_all;
}

abbrev place : Place
place = record { cfg_env_addr = 0x20; cfg_env_size = 16 }

abbrev sector : ℕ → Sector
sector start = record { start = start; protect = 1 }

abbrev bank : Bank
bank = record { size = 0x30; flash_id = 1; sectors = sector 0x10 ∷ sector 0x20 ∷ sector 0x30 ∷ [] }

bank-IsPlace : IsPlace drivers place bank (sector 0x10 ∷ []) (sector 0x20) [] (sector 0x30 ∷ [])
bank-IsPlace = record {
  bank = record {
    known = λ e. omega (arith, e);
    first = sector 0x10;
    others = sector 0x20 ∷ sector 0x30 ∷ [];
    sectors_are = refl;
    ascending = omega arith;
    in_range = omega arith;
  };
  sectors_are = refl;
  starts = refl;
  ends = refl;
  some_bytes = omega arith;
  below = omega arith;
}

abbrev one_entry : List Entry
one_entry = var "a" "1" ∷ []

abbrev small_env : Env
small_env = record {
  crc = 0xaced0915;
  image = encode one_entry (0 ∷ 0 ∷ 0 ∷ 0 ∷ 0 ∷ 0 ∷ 0 ∷ 0 ∷ []);
}

small_env-IsSealed : IsSealed small_env
unfolding crc32
small_env-IsSealed = record { in_range = omega arith; right = refl }

board_env_save-whole_example :
    board_env_save drivers place (to_bytes small_env) (bank ∷ []) (λ a. 0)
    ≡ (pos 0, bank ∷ [], write_all (to_bytes small_env) 0x20 (λ a. 0xff))
board_env_save-whole_example =
    board_env_save-whole drivers place bank-IsPlace (to_bytes small_env) (λ a. 0)

do_saveenv-restored_example :
    (do_saveenv drivers place (record bd { env = some small_env }) (bank ∷ []) (λ a. 0)
      ≡ done (0, bank ∷ [], write_all (to_bytes small_env) 0x20 (λ a. 0xff)))
    × ((c : Config) (fresh : List ℕ) (next : Board)
        → env_relocate
            (record c {
              stored =
                  board_env_copy drivers place none
                    (write_all (to_bytes small_env) 0x20 (λ a. 0xff));
            })
            fresh
            next
          ≡ done (settled next small_env one_entry))
do_saveenv-restored_example =
    do_saveenv-restored drivers place bank-IsPlace (record bd { env = some small_env }) small_env
      (λ a. 0) refl small_env-IsSealed
      (record {
        slack = 0 ∷ 0 ∷ 0 ∷ 0 ∷ 0 ∷ 0 ∷ 0 ∷ [];
        image_is = refl;
        entries = omega arith;
        two_zeros = λ e. cc;
      })
      refl
