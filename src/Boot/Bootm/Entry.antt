-- ===== src/Boot/Bootm/Entry.antt =====
-- `do_bootm` of common/cmd_bootm.c and `boot_linux` of common/armlinux.c: where a right image is
-- entered.
pub mod Simple
use armboot.Prelude.{
  ℕ, ◌+◌, ◌%◌, ◌^◌, ◌≡◌, ◌∙◌, ap, refl, Bool, true, false, not, ◌&&◌, ◌||◌, List, [], ◌∷◌, Option,
  none, some, ◌==◌, if◌then◌else◌, done, fault, bind-done, ◌>>=◌,
}
use armboot.CString.{CString, simple_strtoul}
use armboot.Flash.{Bank}
use armboot.MemCommand.{Bus, copy, bytes_at}
use armboot.Env.{Board, Config, getenv_value}
use armboot.Boot.{
  header_size, ih_size, ih_load, ih_ep, ih_arch, ih_type, ih_comp, blank_hcrc, has_ih_magic,
  hcrc_ok, header_at, dcrc_ok,
}
use armboot.Boot.Linux.{
  Machine, Initrd, setup_tags, ramdisk_ok, ramdisk_at, find_initrd, initrd_moved, initrd_end,
  boot_linux,
}
use armboot.Boot.Bootm.{
  started, World, Placed, placed, image_data, Part, loaded, load_part, load_image, loaded_part,
  after_load, from_linux, tail_of, called, run_image, boot_image, do_bootm, word_verify,
  word_bootargs, is_verified, image_addr,
}
use armboot.Boot.Bootm.Checked.{IsBootable}
use armboot.Boot.Bootm.Entry.Simple.{
  boot_linux-some, image_hdr, image_placed, image_loaded, IsSimple, do_bootm-runs,
}

-- argv[2], if it is there
abbrev pub ramdisk_arg : List CString → Option CString
ramdisk_arg (_ ∷ _ ∷ arg ∷ _) = some arg
ramdisk_arg _ = none

pub find_initrd-none :
    {M : Type 0} (bus : Bus M) (fuel : ℕ) (verify : Bool) (argv : List CString) (hdr : List ℕ)
    (from : ℕ) (m : M)
    → ramdisk_arg argv ≡ none
    → (ih_type hdr == 4) ≡ false
    → find_initrd bus fuel verify argv hdr from m
      ≡ done (some (record { header = hdr; start = 0; len = 0 }))
find_initrd-none bus fuel verify [] hdr from m h k = rw (k, find_initrd) refl
find_initrd-none bus fuel verify (_ ∷ []) hdr from m h k = rw (k, find_initrd) refl
find_initrd-none bus fuel verify (_ ∷ _ ∷ []) hdr from m h k = rw (k, find_initrd) refl
find_initrd-none bus fuel verify (_ ∷ _ ∷ arg ∷ _) hdr from m h k = absurd (cc h)

-- The ramdisk at an address.
abbrev pub ramdisk : {M : Type 0} → Bus M → ℕ → M → Initrd
ramdisk bus addr m = record {
  header = blank_hcrc (header_at bus addr m);
  start = (addr + header_size) % 2 ^ 32;
  len = ih_size (header_at bus addr m);
}

pub find_initrd-some :
    {M : Type 0} (bus : Bus M) (fuel : ℕ) (verify : Bool) (argv : List CString) (hdr : List ℕ)
    (from : ℕ) (m : M) (arg : CString)
    → ramdisk_arg argv ≡ some arg
    → ramdisk_ok bus verify (header_at bus (simple_strtoul arg 16).0 m) (simple_strtoul arg 16).0 m
      ≡ true
    → find_initrd bus fuel verify argv hdr from m
      ≡ done (some (ramdisk bus (simple_strtoul arg 16).0 m))
find_initrd-some bus fuel verify [] hdr from m arg h k = absurd (cc h)
find_initrd-some bus fuel verify (_ ∷ []) hdr from m arg h k = absurd (cc h)
find_initrd-some bus fuel verify (_ ∷ _ ∷ []) hdr from m arg h k = absurd (cc h)
find_initrd-some bus fuel verify (_ ∷ _ ∷ r ∷ _) hdr from m arg h k =
    let same : r ≡ arg = cc h in
    ap (λ a. done (ramdisk_at bus verify (simple_strtoul a 16).0 m)) same
    ∙ ap done
        (ap (λ (b : Bool). if b then some (ramdisk bus (simple_strtoul arg 16).0 m) else none) k)

-- The field that is cleared is not the entry or the type.
pub header-blank_hcrc :
    {M : Type 0} (bus : Bus M) (addr : ℕ) (m : M)
    → (ih_ep (blank_hcrc (header_at bus addr m)) ≡ ih_ep (header_at bus addr m))
      × (ih_type (blank_hcrc (header_at bus addr m)) ≡ ih_type (header_at bus addr m))
unfolding bytes_at
header-blank_hcrc bus addr m = (refl, refl)

module _ {M : Type 0} (bus : Bus M) (world : World M) (fuel : ℕ) (machine : Machine) (cfg : Config)
    (bd : Board) (banks : List Bank) (argv : List CString) (m : M) {s : Option CString}
    (simple : IsSimple bus world fuel machine cfg bd banks argv m s) where
  -- The image has been called, if it is an application, and has left `m'`.
  pub started_at :
      (cl : CString) (m' : M) (d : Initrd)
      → getenv_value cfg bd word_bootargs ≡ done (some cl)
      → called bus world
          (image_hdr bus world fuel machine cfg bd banks argv m)
          (tail_of argv)
          (image_loaded bus world fuel machine cfg bd banks argv m)
        ≡ some m'
      → find_initrd bus fuel
          (is_verified s)
          argv
          (blank_hcrc (image_hdr bus world fuel machine cfg bd banks argv m))
          (image_data (image_placed bus world fuel machine cfg bd banks argv m))
          m'
        ≡ done (some d)
      → (left : M) × (setup_tags bus machine
            (some cl)
            d.start
            (initrd_end d)
            (initrd_moved bus d m')
          ≡ done left)
        × (do_bootm bus world fuel machine cfg bd banks argv m
            ≡ done (
                started (record {
                  entry = ih_ep d.header;
                  arch_number = machine.arch_number;
                  memory = left;
                })))
  started_at cl m' d args call found =
      let h = image_hdr bus world fuel machine cfg bd banks argv m in
      let from = image_data (image_placed bus world fuel machine cfg bd banks argv m) in
      let (left, set_up, boots) =
        boot_linux-some bus fuel machine (is_verified s) cl argv (blank_hcrc h) from m' d found in
      (
        left,
        set_up,
        do_bootm-runs bus world fuel machine cfg bd banks argv m s simple
            ∙ ap
                (run_image bus world fuel machine (is_verified s)
                  (getenv_value cfg bd word_bootargs) argv h from)
                call
            ∙ bind-done
                (λ commandline.
                  boot_linux bus fuel machine (is_verified s) commandline argv (blank_hcrc h) from
                    m'
                  >>= λ r. done (from_linux r))
                args
            ∙ bind-done (λ r. done (from_linux r)) boots,
      )
