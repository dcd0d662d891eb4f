-- ===== src/Boot/Bootm/Told.antt =====
-- What a kernel that `do_bootm` of common/cmd_bootm.c starts is told, by the list of tags.
use armboot.Prelude.{
  ℕ, ◌+◌, ◌^◌, ◌≤◌, ◌≡◌, ◌∙◌, sym, subst, true, List, Option, none, some, arith, ◌==◌, Exec, done,
}
use armboot.CString.{CString, simple_strtoul}
use armboot.Flash.{Bank}
use armboot.MemCommand.{Bus}
use armboot.Env.{Board, Config, getenv_value}
use armboot.Boot.{ih_ep, ih_type, header_at}
use armboot.Boot.Linux.{Machine, eat_blanks, ramdisk_ok, initrd_end, initrd_moved}
use armboot.Boot.Linux.Fields.{IsRam, AreBytes}
use armboot.Boot.Linux.Tags.{TagsAt}
use armboot.Boot.Linux.Listed.{AreWords, tags_room}
use armboot.Boot.Linux.Whole.{all_tags, setup_tags-TagsAt}
use armboot.Boot.Bootm.{started, World, do_bootm, word_bootargs, is_verified}
use armboot.Boot.Bootm.Entry.{ramdisk_arg}
use armboot.Boot.Bootm.Entry.Simple.{image_hdr, image_loaded, IsSimple}
use armboot.Boot.Bootm.Kernel.{do_bootm-kernel, do_bootm-ramdisk, ramdisk_image}

done-injective : {A : Type 0} {a b : A} → Exec.done a ≡ done b → a ≡ b
done-injective h = cc

module _ {M : Type 0} (bus : Bus M) (world : World M) (fuel : ℕ) (machine : Machine) (cfg : Config)
    (bd : Board) (banks : List Bank) (argv : List CString) (m : M) {s : Option CString}
    (simple : IsSimple bus world fuel machine cfg bd banks argv m s) where
  -- `do_bootm` on a kernel image that is right, not compressed and named without a ramdisk, where
  -- the variable `bootargs` is set, the memory keeps what is written, and there is room for the list
  -- of tags at `boot_params`: the kernel is entered at the entry point of the image, with the number
  -- of the machine, and reads at `boot_params` a list that is well-formed and says, in this order,
  -- where each bank of memory lies and how large it is, the command line without its leading blanks,
  -- unless nothing is left of it, and that there is no ramdisk.
  pub do_bootm-TagsAt :
      (ram : IsRam bus) (cl : CString)
      → (ih_type (image_hdr bus world fuel machine cfg bd banks argv m) == 2) ≡ true
      → ramdisk_arg argv ≡ none
      → getenv_value cfg bd word_bootargs ≡ done (some cl)
      → machine.boot_params + tags_room machine.dram (eat_blanks cl) ≤ 2 ^ 32
      → AreWords machine.dram
      → AreBytes (eat_blanks cl)
      → (left : M) × (do_bootm bus world fuel machine cfg bd banks argv m
          ≡ done (
              started (record {
                entry = ih_ep (image_hdr bus world fuel machine cfg bd banks argv m);
                arch_number = machine.arch_number;
                memory = left;
              })))
        × TagsAt bus left machine.boot_params (all_tags machine cl 0 0)
  do_bootm-TagsAt ram cl kernel alone args room words bytes =
      let (left, set_up, boots) =
        do_bootm-kernel bus world fuel machine cfg bd banks argv m simple cl kernel alone args in
      let (listed, set_up', tags) =
        setup_tags-TagsAt bus ram machine cl 0 0
          (image_loaded bus world fuel machine cfg bd banks argv m) room words bytes
          (omega arith) in
      let same : listed ≡ left = done-injective (sym set_up' ∙ set_up) in
      (
        left,
        boots,
        subst (λ l. TagsAt bus l machine.boot_params (all_tags machine cl 0 0)) same tags,
      )

  -- `do_bootm` on a kernel image that is right and not compressed, with a third argument, the address
  -- of a ramdisk image that is right once the kernel is loaded, where the variable `bootargs` is set,
  -- the memory keeps what is written, and there is room for the list of tags at `boot_params`: the
  -- list that is read there is well-formed, as without a ramdisk, and says where the data of the
  -- ramdisk are and how many; the kernel is entered at the entry point of the ramdisk image and not
  -- at its own, since the ramdisk's header has taken the place of the kernel's.
  pub do_bootm-TagsAt_ramdisk :
      (ram : IsRam bus) (cl arg : CString)
      → (ih_type (image_hdr bus world fuel machine cfg bd banks argv m) == 2) ≡ true
      → ramdisk_arg argv ≡ some arg
      → ramdisk_ok bus
          (is_verified s)
          (header_at bus
            (simple_strtoul arg 16).0
            (image_loaded bus world fuel machine cfg bd banks argv m))
          (simple_strtoul arg 16).0
          (image_loaded bus world fuel machine cfg bd banks argv m)
        ≡ true
      → getenv_value cfg bd word_bootargs ≡ done (some cl)
      → machine.boot_params + tags_room machine.dram (eat_blanks cl) ≤ 2 ^ 32
      → AreWords machine.dram
      → AreBytes (eat_blanks cl)
      → (left : M) × (do_bootm bus world fuel machine cfg bd banks argv m
          ≡ done (
              started (record {
                entry = ih_ep (
                    header_at bus
                      (simple_strtoul arg 16).0
                      (image_loaded bus world fuel machine cfg bd banks argv m));
                arch_number = machine.arch_number;
                memory = left;
              })))
        × TagsAt bus left machine.boot_params (
            all_tags machine cl
              (ramdisk_image bus world fuel machine cfg bd banks argv m simple arg).start
              (initrd_end (ramdisk_image bus world fuel machine cfg bd banks argv m simple arg)))
  do_bootm-TagsAt_ramdisk ram cl arg kernel third right args room words bytes =
      let d = ramdisk_image bus world fuel machine cfg bd banks argv m simple arg in
      let (left, set_up, boots) =
        do_bootm-ramdisk bus world fuel machine cfg bd banks argv m simple cl arg kernel third right
          args in
      let (listed, set_up', tags) =
        setup_tags-TagsAt bus ram machine cl d.start (initrd_end d)
          (initrd_moved bus d (image_loaded bus world fuel machine cfg bd banks argv m)) room words
          bytes (omega arith) in
      let same : listed ≡ left = done-injective (sym set_up' ∙ set_up) in
      (
        left,
        boots,
        subst (λ l. TagsAt bus l machine.boot_params (all_tags machine cl d.start (initrd_end d)))
            same tags,
      )
