-- ===== src/Boot/Bootm/Kernel.antt =====
-- What `do_bootm` of common/cmd_bootm.c does with a right image: a kernel, a kernel with a ramdisk,
-- and a standalone application.
use armboot.Prelude.{
  ℕ, ◌≡◌, ◌≢◌, ◌∙◌, ap, refl, true, false, List, Option, none, some, arith, ◌==◌, ==_iff, Exec,
  done, fault, bind-done, ◌>>=◌,
}
use armboot.CString.{CString, simple_strtoul}
use armboot.Flash.{Bank}
use armboot.MemCommand.{Bus}
use armboot.Env.{Board, Config, getenv_value}
use armboot.Boot.{ih_ep, ih_type, blank_hcrc, header_at}
use armboot.Boot.Linux.{
  Machine, Initrd, setup_tags, ramdisk_ok, initrd_end, initrd_moved, boot_linux,
}
use armboot.Boot.Bootm.{
  Outcome, started, World, image_data, from_linux, tail_of, called, run_image, do_bootm,
  word_bootargs, is_verified, image_addr,
}
use armboot.Boot.Bootm.Entry.{
  ramdisk, ramdisk_arg, find_initrd-none, find_initrd-some, header-blank_hcrc, started_at,
}
use armboot.Boot.Bootm.Entry.Simple.{
  image_hdr, image_placed, image_loaded, IsSimple, do_bootm-runs, boot_linux-none,
}

module _ {M : Type 0} (bus : Bus M) (world : World M) (fuel : ℕ) (machine : Machine) (cfg : Config)
    (bd : Board) (banks : List Bank) (argv : List CString) (m : M) {s : Option CString}
    (simple : IsSimple bus world fuel machine cfg bd banks argv m s) where
  abbrev at_entry : M → ℕ → Exec (Outcome M)
  at_entry left ep =
      done (started (record { entry = ep; arch_number = machine.arch_number; memory = left }))

  called_kernel :
      (ih_type (image_hdr bus world fuel machine cfg bd banks argv m) == 2) ≡ true
      → called bus world
          (image_hdr bus world fuel machine cfg bd banks argv m)
          (tail_of argv)
          (image_loaded bus world fuel machine cfg bd banks argv m)
        ≡ some (image_loaded bus world fuel machine cfg bd banks argv m)
  called_kernel kernel =
      let other : (ih_type (image_hdr bus world fuel machine cfg bd banks argv m) == 1) ≡ false =
        ground (arith, kernel) in
      rw other refl

  not_multi :
      (t : ℕ)
      → (ih_type (image_hdr bus world fuel machine cfg bd banks argv m) == t) ≡ true
      → t ≢ 4
      → (ih_type (blank_hcrc (image_hdr bus world fuel machine cfg bd banks argv m)) == 4) ≡ false
  not_multi t is ne =
      ap (λ (n : ℕ). n == 4) (header-blank_hcrc bus (image_addr bd.load_addr argv) m).1
      ∙ ap (λ (n : ℕ). n == 4) ((==_iff _ t).0 is)
      ∙ ground (arith, ne)

  -- `do_bootm` on a kernel image that is right, not compressed and named without a ramdisk, where
  -- the variable `bootargs` is set: the data are copied to the load address, the tags are set up
  -- behind that for this command line and no ramdisk, and the kernel is entered at the entry point of
  -- the image, with the number of the machine.
  pub do_bootm-kernel :
      (cl : CString)
      → (ih_type (image_hdr bus world fuel machine cfg bd banks argv m) == 2) ≡ true
      → ramdisk_arg argv ≡ none
      → getenv_value cfg bd word_bootargs ≡ done (some cl)
      → (left : M) × (setup_tags bus machine
            (some cl)
            0
            0
            (image_loaded bus world fuel machine cfg bd banks argv m)
          ≡ done left)
        × (do_bootm bus world fuel machine cfg bd banks argv m
            ≡ done (
                started (record {
                  entry = ih_ep (image_hdr bus world fuel machine cfg bd banks argv m);
                  arch_number = machine.arch_number;
                  memory = left;
                })))
  do_bootm-kernel cl kernel alone args =
      let h = image_hdr bus world fuel machine cfg bd banks argv m in
      let (left, set_up, boots) =
        started_at bus world fuel machine cfg bd banks argv m simple cl _ _ args
          (called_kernel kernel)
          (find_initrd-none bus fuel (is_verified s) argv (blank_hcrc h)
            (image_data (image_placed bus world fuel machine cfg bd banks argv m)) _ alone
            (not_multi 2 kernel (λ e. omega (arith, e)))) in
      (
        left,
        set_up,
        boots ∙ ap (at_entry left) (header-blank_hcrc bus (image_addr bd.load_addr argv) m).0,
      )

  -- The ramdisk image at argv[2], in memory once the kernel is loaded.
  abbrev pub ramdisk_image : CString → Initrd
  ramdisk_image arg =
      ramdisk bus (simple_strtoul arg 16).0
        (image_loaded bus world fuel machine cfg bd banks argv m)

  -- The same, with a third argument, the address of a ramdisk image that is right: the kernel is
  -- entered at the entry point of the ramdisk image, since its header has taken the place of the
  -- kernel's.
  pub do_bootm-ramdisk :
      (cl arg : CString)
      → (ih_type (image_hdr bus world fuel machine cfg bd banks argv m) == 2) ≡ true
      → ramdisk_arg argv ≡ some arg
      → ramdisk_ok bus
          (is_verified s)
          (header_at bus
            (simple_strtoul arg 16).0
            (image_loaded bus world fuel machine cfg bd banks argv m))
          (simple_strtoul arg 16).0
          (image_loaded bus world fuel machine cfg bd banks argv m)
        ≡ true
      → getenv_value cfg bd word_bootargs ≡ done (some cl)
      → (left : M) × (setup_tags bus machine
            (some cl)
            (ramdisk_image arg).start
            (initrd_end (ramdisk_image arg))
            (initrd_moved bus
              (ramdisk_image arg)
              (image_loaded bus world fuel machine cfg bd banks argv m))
          ≡ done left)
        × (do_bootm bus world fuel machine cfg bd banks argv m
            ≡ done (
                started (record {
                  entry = ih_ep (
                      header_at bus
                        (simple_strtoul arg 16).0
                        (image_loaded bus world fuel machine cfg bd banks argv m));
                  arch_number = machine.arch_number;
                  memory = left;
                })))
  do_bootm-ramdisk cl arg kernel third right args =
      let h = image_hdr bus world fuel machine cfg bd banks argv m in
      let at = (simple_strtoul arg 16).0 in
      let m' = image_loaded bus world fuel machine cfg bd banks argv m in
      let (left, set_up, boots) =
        started_at bus world fuel machine cfg bd banks argv m simple cl _ _ args
          (called_kernel kernel)
          (find_initrd-some bus fuel (is_verified s) argv (blank_hcrc h)
            (image_data (image_placed bus world fuel machine cfg bd banks argv m)) m' arg third
            right) in
      (left, set_up, boots ∙ ap (at_entry left) (header-blank_hcrc bus at m').0)

  -- `do_bootm` on a standalone application that is right, not compressed and named without a third
  -- argument, where the variable `bootargs` is set: if the application returns, it is entered a
  -- second time, at the same address, as a kernel.
  pub do_bootm-again :
      (cl : CString) (m' : M)
      → (ih_type (image_hdr bus world fuel machine cfg bd banks argv m) == 1) ≡ true
      → world.appl
          (ih_ep (image_hdr bus world fuel machine cfg bd banks argv m))
          (tail_of argv)
          (image_loaded bus world fuel machine cfg bd banks argv m)
        ≡ some m'
      → ramdisk_arg argv ≡ none
      → getenv_value cfg bd word_bootargs ≡ done (some cl)
      → (left : M) × (do_bootm bus world fuel machine cfg bd banks argv m
          ≡ done (
              started (record {
                entry = ih_ep (image_hdr bus world fuel machine cfg bd banks argv m);
                arch_number = machine.arch_number;
                memory = left;
              })))
  do_bootm-again cl m' alone returns short args =
      let h = image_hdr bus world fuel machine cfg bd banks argv m in
      let call : called bus world h (tail_of argv)
            (image_loaded bus world fuel machine cfg bd banks argv m)
          ≡ some m' =
        rw alone returns in
      let (left, _, boots) =
        started_at bus world fuel machine cfg bd banks argv m simple cl m' _ args call (
          find_initrd-none bus fuel (is_verified s) argv (blank_hcrc h)
            (image_data (image_placed bus world fuel machine cfg bd banks argv m)) m' short
            (not_multi 1 alone (λ e. omega (arith, e)))) in
      (left, boots ∙ ap (at_entry left) (header-blank_hcrc bus (image_addr bd.load_addr argv) m).0)

  -- `do_bootm` on a kernel image that is right, not compressed and named without a ramdisk, where
  -- the variable `bootargs` is not set: it reads through the null pointer that `getenv` returns.
  pub do_bootm-no_bootargs :
      (ih_type (image_hdr bus world fuel machine cfg bd banks argv m) == 2) ≡ true
      → ramdisk_arg argv ≡ none
      → getenv_value cfg bd word_bootargs ≡ done none
      → do_bootm bus world fuel machine cfg bd banks argv m ≡ fault
  do_bootm-no_bootargs kernel alone args =
      let h = image_hdr bus world fuel machine cfg bd banks argv m in
      let from = image_data (image_placed bus world fuel machine cfg bd banks argv m) in
      let m' = image_loaded bus world fuel machine cfg bd banks argv m in
      do_bootm-runs bus world fuel machine cfg bd banks argv m s simple
      ∙ ap
          (run_image bus world fuel machine (is_verified s) (getenv_value cfg bd word_bootargs) argv
            h from)
          (called_kernel kernel)
      ∙ bind-done
          (λ commandline.
            boot_linux bus fuel machine (is_verified s) commandline argv (blank_hcrc h) from m'
            >>= λ r. done (from_linux r))
          args
      ∙ ap (λ e. e >>= λ r. done (from_linux r))
          (boot_linux-none bus fuel machine (is_verified s) argv (blank_hcrc h) from m' _ (
            find_initrd-none bus fuel (is_verified s) argv (blank_hcrc h) from m' alone
              (not_multi 2 kernel (λ e. omega (arith, e)))))
