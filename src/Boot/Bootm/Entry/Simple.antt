-- ===== src/Boot/Bootm/Entry/Simple.antt =====
-- `do_bootm` of common/cmd_bootm.c: a right image that is not compressed and has one part.
use armboot.Prelude.{
  ℕ, ◌≡◌, ◌∙◌, refl, Bool, true, false, not, ◌&&◌, ◌||◌, List, Option, none, some, ◌==◌,
  if◌then◌else◌, done, fault, bind-done,
}
use armboot.CString.{CString}
use armboot.Flash.{Bank}
use armboot.MemCommand.{Bus, copy}
use armboot.Env.{Board, Config, getenv_value}
use armboot.Boot.{
  ih_size, ih_load, ih_ep, ih_arch, ih_type, ih_comp, has_ih_magic, hcrc_ok, header_at, dcrc_ok,
}
use armboot.Boot.Linux.{
  Machine, Initrd, setup_tags, find_initrd, initrd_moved, initrd_end, boot_linux,
}
use armboot.Boot.Bootm.{
  World, Placed, placed, image_data, Part, loaded, load_part, load_image, loaded_part, after_load,
  tail_of, called, run_image, boot_image, do_bootm, word_verify, word_bootargs, is_verified,
  image_addr,
}
use armboot.Boot.Bootm.Checked.{IsBootable}

module _ {M : Type 0} (bus : Bus M) where
  -- A kernel is entered where the global `header` says, once the ramdisk is found.
  pub boot_linux-some :
      (fuel : ℕ) (bd : Machine) (verify : Bool) (cl : CString) (argv : List CString) (hdr : List ℕ)
      (from : ℕ) (m : M) (d : Initrd)
      → find_initrd bus fuel verify argv hdr from m ≡ done (some d)
      → (m' : M) × (setup_tags bus bd (some cl) d.start (initrd_end d) (initrd_moved bus d m)
          ≡ done m')
        × (boot_linux bus fuel bd verify (some cl) argv hdr from m
            ≡ done (
                some
                  (record { entry = ih_ep d.header; arch_number = bd.arch_number; memory = m' })))
  unfolding boot_linux
  boot_linux-some fuel bd verify cl argv hdr from m d h = (_, refl, rw h refl)

  pub boot_linux-none :
      (fuel : ℕ) (bd : Machine) (verify : Bool) (argv : List CString) (hdr : List ℕ) (from : ℕ)
      (m : M) (d : Initrd)
      → find_initrd bus fuel verify argv hdr from m ≡ done (some d)
      → boot_linux bus fuel bd verify none argv hdr from m ≡ fault
  unfolding boot_linux
  boot_linux-none fuel bd verify argv hdr from m d h = rw h refl

passes : {A : Type 0} (b : Bool) (x y : A) → b ≡ true → (if not b then x else y) ≡ y
passes true x y h = refl
passes false x y h = cc

passes_if :
    {A : Type 0} (v b : Bool) (x y : A) → (v ≡ true → b ≡ true) → (if v && not b then x else y) ≡ y
passes_if true b x y h = passes b x y (h refl)
passes_if false b x y h = refl

module _ {M : Type 0} (bus : Bus M) (world : World M) (fuel : ℕ) (machine : Machine) (cfg : Config)
    (bd : Board) (banks : List Bank) (argv : List CString) (m : M) where
  -- The image that `do_bootm` works on.
  abbrev pub image_hdr : List ℕ
  image_hdr = header_at bus (image_addr bd.load_addr argv) m

  abbrev pub image_placed : Placed M
  image_placed = placed bus banks bd.load_addr image_hdr (image_addr bd.load_addr argv) m

  -- The memory once an image that is not compressed is loaded.
  abbrev pub image_loaded : M
  image_loaded =
      copy bus (ih_size image_hdr) 1 (image_data image_placed) (ih_load image_hdr)
        image_placed.memory

  -- An image that is right, not compressed, and of one part.
  pub record IsSimple (s : Option CString) : Type 0 where
    pub verify : getenv_value cfg bd word_verify ≡ done s
    pub bootable : IsBootable bus (is_verified s) image_hdr image_placed
    pub one_part : (ih_type image_hdr == 1 || ih_type image_hdr == 2) ≡ true
    pub plain : (ih_comp image_hdr == 0) ≡ true

  pub do_bootm-runs :
      (s : Option CString)
      → IsSimple s
      → do_bootm bus world fuel machine cfg bd banks argv m
        ≡ run_image bus world fuel machine
            (is_verified s)
            (getenv_value cfg bd word_bootargs)
            argv
            image_hdr
            (image_data image_placed)
            (called bus world image_hdr (tail_of argv) image_loaded)
  unfolding do_bootm boot_image
  do_bootm-runs s v =
      let h = image_hdr in
      let p = image_placed in
      let bootargs = getenv_value cfg bd word_bootargs in
      let part : Part = record { from = image_data p; len = ih_size h } in
      bind-done
        (λ s'.
          boot_image bus world fuel machine (is_verified s') bootargs argv banks bd.load_addr
            (image_addr bd.load_addr argv) m)
        v.verify
      ∙ passes (has_ih_magic h) _ _ v.bootable.magic
      ∙ passes (hcrc_ok h) _ _ v.bootable.header_crc
      ∙ passes_if (is_verified s) (dcrc_ok bus h (image_data p) p.memory) _ _ v.bootable.data_crc
      ∙ passes (ih_arch h == 2) _ _ v.bootable.for_arm
      ∙ bind-done
          (load_part bus world fuel machine (is_verified s) bootargs argv h (image_data p) p.memory)
          (one v.one_part)
      ∙ bind-done
          (after_load bus world fuel machine (is_verified s) bootargs argv h (image_data p)
            p.memory)
          (two v.plain)
    where
      one :
          (ih_type image_hdr == 1 || ih_type image_hdr == 2) ≡ true
          → loaded_part bus fuel image_hdr (image_data image_placed) image_placed.memory
            ≡ done (some (record { from = image_data image_placed; len = ih_size image_hdr }))
      one e = rw e refl

      two :
          (ih_comp image_hdr == 0) ≡ true
          → load_image bus world fuel image_hdr
              (record { from = image_data image_placed; len = ih_size image_hdr })
              image_placed.memory
            ≡ done (loaded image_loaded)
      two e = rw e refl
