-- ===== src/Boot/Tests.antt =====
-- A kernel, a ramdisk and a standalone application in a memory of bytes, and the theorems at them.
mod Images
use armboot.Prelude.{
  ℕ, ◌-◌, ◌≡◌, refl, true, false, List, [], ◌∷◌, ◌++◌, Option, none, some, arith, ◌==◌, ltb,
  if◌then◌else◌, done, fault,
}
use armboot.Crc.{crc32}
use armboot.CString.{CString, strlen, simple_strtoul, prefix, after_zero, read_digits}
use armboot.MemCommand.{bytes_at, copy}
use armboot.Flash.Write.{addr2info}
use armboot.Net.{byte}
use armboot.Env.{Board, Config, getenv_value}
use armboot.Env.Image.{Entry, encode, lookup, same}
use armboot.Env.Lookup.{Visible, getenv_value-lookup}
use armboot.Env.Reread.{Represents-Visible}
use armboot.Boot.{header_at, do_iminfo, check_images, image_info}
use armboot.Boot.Ram.{ram, ram-IsRam}
use armboot.Boot.Linux.{Machine, setup_tags}
use armboot.Boot.Linux.Tags.{core, mem, cmdline, initrd, TagsAt}
use armboot.Boot.Bootm.{started, World, do_bootm, word_verify, word_bootargs, is_verified}
use armboot.Boot.Bootm.Checked.{IsBootable, do_bootm-IsBootable}
use armboot.Boot.Bootm.Entry.Simple.{image_loaded, IsSimple}
use armboot.Boot.Bootm.Told.{do_bootm-TagsAt, do_bootm-TagsAt_ramdisk}
use armboot.Boot.Bootm.Kernel.{
  do_bootm-kernel, do_bootm-ramdisk, do_bootm-again, do_bootm-no_bootargs,
}
use armboot.Boot.Tests.Images.{name, memory, world}

abbrev machine : Machine
machine = record { boot_params = 0x1000; arch_number = 7; dram = (0, 0x10000) ∷ [] }

abbrev cfg : Config
cfg = record {
  default_environment = 0 ∷ 0 ∷ [];
  stored = none;
  baudrate_table = [];
  env_overwrite = false;
  ethaddr_once = none;
}

-- bootargs=ro
abbrev variables : List Entry
variables = record { name = word_bootargs; value = b'r' ∷ b'o' ∷ [] } ∷ []

abbrev board : List Entry → Board
board es = record {
  baudrate = 9600;
  ip_addr = 0;
  enetaddr = [];
  env = some (record { crc = 0; image = encode es (0 ∷ 0 ∷ []) });
  load_addr = 0x100;
  boot_file = [];
  console = [];
}

visible : Visible cfg (board variables) variables
visible =
    Represents-Visible cfg (board variables) _ variables refl
      (record { slack = 0 ∷ []; image_is = refl; entries = omega arith; two_zeros = λ e. cc })

no_variable : Visible cfg (board []) []
no_variable =
    Represents-Visible cfg (board []) _ [] refl
      (record { slack = 0 ∷ []; image_is = refl; entries = tt; two_zeros = λ e. ([], refl) })

verify_unset : getenv_value cfg (board variables) word_verify ≡ done none
unfolding lookup same
verify_unset = getenv_value-lookup cfg (board variables) word_verify visible (omega arith)

bootargs_set : getenv_value cfg (board variables) word_bootargs ≡ done (some (b'r' ∷ b'o' ∷ []))
unfolding lookup same
bootargs_set = getenv_value-lookup cfg (board variables) word_bootargs visible (omega arith)

-- bootm 100, bootm 100 200 and bootm 300
abbrev bootm : CString
bootm = b'b' ∷ b'o' ∷ b'o' ∷ b't' ∷ b'm' ∷ []

abbrev at_100 : CString
at_100 = b'1' ∷ b'0' ∷ b'0' ∷ []

abbrev at_200 : CString
at_200 = b'2' ∷ b'0' ∷ b'0' ∷ []

abbrev at_300 : CString
at_300 = b'3' ∷ b'0' ∷ b'0' ∷ []

abbrev BootableAt : ℕ → Type 0
BootableAt addr =
    IsBootable ram true (header_at ram addr memory) (record { addr = addr; memory = memory })

kernel-IsBootable : BootableAt 0x100
unfolding bytes_at crc32
kernel-IsBootable = record {
  magic = refl;
  header_crc = refl;
  data_crc = λ _. refl;
  for_arm = refl;
  known_type = refl;
  known_comp = refl;
}

application-IsBootable : BootableAt 0x300
unfolding bytes_at crc32
application-IsBootable = record {
  magic = refl;
  header_crc = refl;
  data_crc = λ _. refl;
  for_arm = refl;
  known_type = refl;
  known_comp = refl;
}

abbrev SimpleWith : List Entry → List CString → Type 0
SimpleWith es argv = IsSimple ram world 0 machine cfg (board es) [] argv memory none

kernel-IsSimple : SimpleWith variables (bootm ∷ at_100 ∷ [])
unfolding bytes_at simple_strtoul prefix after_zero read_digits addr2info
kernel-IsSimple = record {
  verify = verify_unset;
  bootable = kernel-IsBootable;
  one_part = refl;
  plain = refl;
}

with_ramdisk-IsSimple : SimpleWith variables (bootm ∷ at_100 ∷ at_200 ∷ [])
unfolding bytes_at simple_strtoul prefix after_zero read_digits addr2info
with_ramdisk-IsSimple = record {
  verify = verify_unset;
  bootable = kernel-IsBootable;
  one_part = refl;
  plain = refl;
}

application-IsSimple : SimpleWith variables (bootm ∷ at_300 ∷ [])
unfolding bytes_at simple_strtoul prefix after_zero read_digits addr2info
application-IsSimple = record {
  verify = verify_unset;
  bootable = application-IsBootable;
  one_part = refl;
  plain = refl;
}

-- Nothing is set.
no_variables-IsSimple : SimpleWith [] (bootm ∷ at_100 ∷ [])
unfolding bytes_at simple_strtoul prefix after_zero read_digits addr2info lookup
no_variables-IsSimple = record {
  verify = getenv_value-lookup cfg (board []) word_verify no_variable (omega arith);
  bootable = kernel-IsBootable;
  one_part = refl;
  plain = refl;
}

abbrev Booted : List CString → ℕ → (ℕ → ℕ) → Type 0
Booted argv entry left =
    do_bootm ram world 0 machine cfg (board variables) [] argv memory
    ≡ done (started (record { entry = entry; arch_number = 7; memory = left }))

kernel_starts :
    (left : ℕ → ℕ) × (setup_tags ram machine
        (some (b'r' ∷ b'o' ∷ []))
        0
        0
        (image_loaded ram world 0 machine cfg (board variables) [] (bootm ∷ at_100 ∷ []) memory)
      ≡ done left)
    × Booted (bootm ∷ at_100 ∷ []) 0x8000 left
unfolding bytes_at simple_strtoul prefix after_zero read_digits
kernel_starts =
    do_bootm-kernel ram world 0 machine cfg (board variables) [] (bootm ∷ at_100 ∷ []) memory
      kernel-IsSimple (b'r' ∷ b'o' ∷ []) refl refl bootargs_set

do_bootm-TagsAt_example :
    (left : ℕ → ℕ) × Booted (bootm ∷ at_100 ∷ []) 0x8000 left
    × TagsAt ram left 0x1000
        (core 0 0 0 ∷ mem 0x10000 0 ∷ cmdline (b'r' ∷ b'o' ∷ []) ∷ initrd 0 0 ∷ [])
unfolding strlen bytes_at simple_strtoul prefix after_zero read_digits
do_bootm-TagsAt_example =
    do_bootm-TagsAt ram world 0 machine cfg (board variables) [] (bootm ∷ at_100 ∷ []) memory
      kernel-IsSimple ram-IsRam (b'r' ∷ b'o' ∷ []) refl refl bootargs_set (omega arith)
      (omega arith) (omega arith)

do_bootm-TagsAt_ramdisk_example :
    (left : ℕ → ℕ) × Booted (bootm ∷ at_100 ∷ at_200 ∷ []) 0x9000 left
    × TagsAt ram left 0x1000
        (core 0 0 0 ∷ mem 0x10000 0 ∷ cmdline (b'r' ∷ b'o' ∷ []) ∷ initrd 0x240 1 ∷ [])
unfolding strlen bytes_at simple_strtoul prefix after_zero read_digits copy crc32 addr2info
do_bootm-TagsAt_ramdisk_example =
    do_bootm-TagsAt_ramdisk ram world 0 machine cfg (board variables) []
      (bootm ∷ at_100 ∷ at_200 ∷ []) memory with_ramdisk-IsSimple ram-IsRam (b'r' ∷ b'o' ∷ [])
      at_200 refl refl refl bootargs_set (omega arith) (omega arith) (omega arith)

do_bootm-again_example : (left : ℕ → ℕ) × Booted (bootm ∷ at_300 ∷ []) 0xa000 left
unfolding bytes_at simple_strtoul prefix after_zero read_digits
do_bootm-again_example =
    do_bootm-again ram world 0 machine cfg (board variables) [] (bootm ∷ at_300 ∷ []) memory
      application-IsSimple (b'r' ∷ b'o' ∷ []) _ refl refl refl bootargs_set

do_bootm-no_bootargs_example :
    do_bootm ram world 0 machine cfg (board []) [] (bootm ∷ at_100 ∷ []) memory ≡ fault
unfolding bytes_at simple_strtoul prefix after_zero read_digits lookup
do_bootm-no_bootargs_example =
    do_bootm-no_bootargs ram world 0 machine cfg (board []) [] (bootm ∷ at_100 ∷ []) memory
      no_variables-IsSimple refl refl
      (getenv_value-lookup cfg (board []) word_bootargs no_variable (omega arith))

do_bootm-IsBootable_example :
    (s : Option CString) × (getenv_value cfg (board variables) word_verify ≡ done s)
    × IsBootable ram
        (is_verified s)
        (header_at ram 0x100 memory)
        (record { addr = 0x100; memory = memory })
unfolding bytes_at simple_strtoul prefix after_zero read_digits addr2info
do_bootm-IsBootable_example =
    do_bootm-IsBootable ram world 0 machine cfg (board variables) [] (bootm ∷ at_100 ∷ []) memory _
      (do_bootm-kernel ram world 0 machine cfg (board variables) [] (bootm ∷ at_100 ∷ []) memory
        kernel-IsSimple (b'r' ∷ b'o' ∷ []) refl refl bootargs_set).2
      refl

-- iminfo 100 200
both_images : do_iminfo ram 0 ([] ∷ at_100 ∷ at_200 ∷ []) memory ≡ 0
unfolding do_iminfo check_images image_info bytes_at crc32 simple_strtoul prefix after_zero
    read_digits
both_images = refl

-- A byte of the data is changed.
damaged : image_info ram 0x100 (λ a. if a == 0x141 then 3 else memory a) ≡ 1
unfolding image_info bytes_at crc32
damaged = refl
