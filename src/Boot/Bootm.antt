-- ===== src/Boot/Bootm.antt =====
-- `do_bootm` of common/cmd_bootm.c, without the messages and the state of the interrupts.
pub mod Checked
pub mod Entry
pub mod Kernel
pub mod Told
use armboot.Prelude.{
  ℕ, zero, suc, ◌+◌, ◌*◌, ◌%◌, ◌^◌, Bool, true, false, not, ◌&&◌, ◌||◌, List, [], ◌∷◌, Option, none,
  some, ◌==◌, if◌then◌else◌, Exec, done, fault, ◌>>=◌,
}
use armboot.CString.{CString, simple_strtoul}
use armboot.Flash.{Bank}
use armboot.Flash.Write.{addr2info}
use armboot.MemCommand.{Bus, copy, bytes_at}
use armboot.Env.{Board, Config, getenv_value}
use armboot.Boot.{
  header_size, ih_size, ih_load, ih_ep, ih_arch, ih_type, ih_comp, blank_hcrc, has_ih_magic,
  hcrc_ok, header_at, dcrc_ok, word_at,
}
use armboot.Boot.Gunzip.{gunzip}
use armboot.Boot.Linux.{Machine, Start, count_lengths, boot_linux}

-- What becomes of the command: `refused` is the return of 1; `reset` a call of `do_reset`; `kept` a
-- standalone application that does not return; and `started` a kernel.
pub data Outcome (M : Type 0) : Type 0 where
  refused : M → Outcome M
  reset : Outcome M
  kept : ℕ → Outcome M
  started : Start M → Outcome M

-- What the source takes from elsewhere: `inflate` of zlib, and what an application that is called
-- at an address with its arguments leaves in memory if it returns.
pub record World (M : Type 0) : Type 0 where
  pub inflate : ℕ → ℕ → ℕ → ℕ → M → Option M
  pub appl : ℕ → List CString → M → Option M

abbrev pub word_verify : CString
word_verify = b'v' ∷ b'e' ∷ b'r' ∷ b'i' ∷ b'f' ∷ b'y' ∷ []

abbrev pub word_bootargs : CString
word_bootargs = b'b' ∷ b'o' ∷ b'o' ∷ b't' ∷ b'a' ∷ b'r' ∷ b'g' ∷ b's' ∷ []

-- verify = (s && (*s == 'n')) ? 0 : 1
abbrev pub is_verified : Option CString → Bool
is_verified (some (c ∷ _)) = not (c == b'n')
is_verified _ = true

abbrev pub image_addr : ℕ → List CString → ℕ
image_addr load_addr (_ ∷ arg ∷ _) = (simple_strtoul arg 16).0
image_addr load_addr _ = load_addr

-- The image where it is worked on, and the memory: one in flash is copied to `load_addr`.
pub record Placed (M : Type 0) : Type 0 where
  pub addr : ℕ
  pub memory : M

-- A part of the image: its address, and its length.
pub record Part : Type 0 where
  pub from : ℕ
  pub len : ℕ

abbrev pub image_data : {M : Type 0} → Placed M → ℕ
image_data p = (p.addr + header_size) % 2 ^ 32

-- What the compression leaves: a refusal, a reset, or the memory.
pub data Load (M : Type 0) : Type 0 where
  unimplemented gunzip_error : Load M
  loaded : M → Load M

abbrev pub from_gunzip : {M : Type 0} → Option M → Load M
from_gunzip none = gunzip_error
from_gunzip (some m) = loaded m

abbrev pub tail_of : List CString → List CString
tail_of [] = []
tail_of (_ ∷ argv) = argv

abbrev pub from_linux : {M : Type 0} → Option (Start M) → Outcome M
from_linux none = reset
from_linux (some s) = started s

module _ {M : Type 0} (bus : Bus M) where
  abbrev pub copied : ℕ → List ℕ → ℕ → M → Option ℕ → Placed M
  copied load_addr hdr addr m none = record { addr = addr; memory = m }
  copied load_addr hdr addr m (some _) = record {
    addr = load_addr;
    memory = copy bus ((ih_size hdr + header_size) % 2 ^ 32) 1 addr load_addr m;
  }

  abbrev pub placed : List Bank → ℕ → List ℕ → ℕ → M → Placed M
  placed banks load_addr hdr addr m = copied load_addr hdr addr m (addr2info 0 banks addr)

  -- What is loaded by the type of the image; `none` is "Wrong Image Type".
  abbrev pub loaded_part : ℕ → List ℕ → ℕ → M → Exec (Option Part)
  loaded_part fuel hdr from m =
      if ih_type hdr == 1 || ih_type hdr == 2
      then done (some (record { from = from; len = ih_size hdr }))
      else if ih_type hdr == 4
      then (do
        n ← count_lengths bus fuel ((from + 4) % 2 ^ 32) m
        done (some (record { from = (from + 8 + 4 * n) % 2 ^ 32; len = word_at bus from m })))
      else done none

module _ {M : Type 0} (bus : Bus M) (world : World M) where
  abbrev pub load_image : ℕ → List ℕ → Part → M → Exec (Load M)
  load_image fuel hdr part m =
      if ih_comp hdr == 0
      then done (loaded (copy bus part.len 1 part.from (ih_load hdr) m))
      else if ih_comp hdr == 1
      then (do
        r ← gunzip bus world.inflate fuel (ih_load hdr) 0x400000 part.from part.len m
        done (from_gunzip r))
      else done unimplemented

  -- The call of a standalone application, which goes on behind the switch if it returns.
  abbrev pub called : List ℕ → List CString → M → Option M
  called hdr argv m = if ih_type hdr == 1 then world.appl (ih_ep hdr) argv m else some m

  module _ (fuel : ℕ) (bd : Machine) (verify : Bool) (bootargs : Exec (Option CString))
      (argv : List CString) where
    -- From the second switch on the type on: `from` is len_ptr.
    abbrev pub run_image : List ℕ → ℕ → Option M → Exec (Outcome M)
    run_image hdr from none = done (kept (ih_ep hdr))
    run_image hdr from (some m) = do
      commandline ← bootargs
      s ← boot_linux bus fuel bd verify commandline argv (blank_hcrc hdr) from m
      done (from_linux s)

    abbrev pub after_load : List ℕ → ℕ → M → Load M → Exec (Outcome M)
    after_load hdr from m unimplemented = done (refused m)
    after_load hdr from m gunzip_error = done reset
    after_load hdr from m (loaded m') = run_image hdr from (called hdr (tail_of argv) m')

    abbrev pub load_part : List ℕ → ℕ → M → Option Part → Exec (Outcome M)
    load_part hdr from m none = done (refused m)
    load_part hdr from m (some part) = do l ← load_image fuel hdr part m; after_load hdr from m l

    -- From `len_ptr = (ulong *)data` on.
    abbrev pub boot_checked : List ℕ → ℕ → M → Exec (Outcome M)
    boot_checked hdr from m =
        let go_on = (do part ← loaded_part bus fuel hdr from m; load_part hdr from m part) in
        if not (ih_arch hdr == 2) then done (refused m) else go_on

    -- Behind the copy of an image in flash.
    abbrev pub boot_placed : List ℕ → Placed M → Exec (Outcome M)
    boot_placed hdr p =
        if verify && not (dcrc_ok bus hdr (image_data p) p.memory)
        then done (refused p.memory)
        else boot_checked hdr (image_data p) p.memory

    unfoldable pub boot_image : List Bank → ℕ → ℕ → M → Exec (Outcome M)
    unfolding bytes_at copy count_lengths gunzip boot_linux addr2info
    boot_image banks load_addr addr m =
        let hdr = header_at bus addr m in
        if not (has_ih_magic hdr)
        then done (refused m)
        else if not (hcrc_ok hdr)
        then done (refused m)
        else boot_placed hdr (placed bus banks load_addr hdr addr m)

  -- The two variables, from the environment.
  unfoldable pub do_bootm :
      ℕ → Machine → Config → Board → List Bank → List CString → M → Exec (Outcome M)
  unfolding boot_image getenv_value simple_strtoul
  do_bootm fuel machine cfg bd banks argv m = do
    s ← getenv_value cfg bd word_verify
    boot_image fuel machine (is_verified s) (getenv_value cfg bd word_bootargs) argv banks
        bd.load_addr (image_addr bd.load_addr argv) m
