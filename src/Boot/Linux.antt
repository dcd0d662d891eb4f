-- ===== src/Boot/Linux.antt =====
-- `boot_linux` of common/armlinux.c. The kernel is started with the list of tags in memory; the
-- board's `cleanup_before_linux` is not modelled.
pub mod Fields
pub mod Tags
pub mod Listed
pub mod Whole
use armboot.Prelude.{
  ℕ, zero, suc, ◌+◌, ◌-◌, ◌*◌, ◌%◌, ◌/◌, ◌^◌, Bool, true, false, not, ◌&&◌, ◌||◌, List, [], ◌∷◌,
  Option, none, some, ◌==◌, if◌then◌else◌, Exec, done, fault, ◌>>=◌,
}
use armboot.CString.{CString, strlen, simple_strtoul}
use armboot.MemCommand.{Bus, copy, bytes_at}
use armboot.Boot.{
  header_size, ih_size, ih_ep, ih_os, ih_arch, ih_type, blank_hcrc, has_ih_magic, hcrc_ok,
  header_at, dcrc_ok, word_at,
}

-- `bd_t` as far as it is read here: bi_boot_params, bi_arch_number and bi_dram, by start and size
pub record Machine : Type 0 where
  pub boot_params : ℕ
  pub arch_number : ℕ
  pub dram : List (ℕ × ℕ)

-- The call of the kernel: where it is entered, with which number of the machine, and the memory.
pub record Start (M : Type 0) : Type 0 where
  pub entry : ℕ
  pub arch_number : ℕ
  pub memory : M

-- The ramdisk: `header` is the global, and `data` is 0 where there is none.
pub record Initrd : Type 0 where
  pub header : List ℕ
  pub start : ℕ
  pub len : ℕ

-- "eat leading white space"
abbrev pub eat_blanks : CString → CString
eat_blanks [] = []
eat_blanks (c ∷ cs) = let rest = eat_blanks cs in if c == b' ' then rest else c ∷ cs

abbrev pub cmdline_size : CString → ℕ
cmdline_size p = (8 + strlen p + 1 + 4) / 4

-- "No Linux ARM Ramdisk Image" where this does not hold
abbrev pub is_ramdisk : List ℕ → Bool
is_ramdisk hdr = ih_os hdr == 5 && ih_arch hdr == 2 && ih_type hdr == 3

-- data += 4 - tail
abbrev pub align : ℕ → ℕ
align n = if n % 4 == 0 then 0 else 4 - n % 4

abbrev pub initrd_end : Initrd → ℕ
initrd_end d = if d.start == 0 then 0 else (d.start + d.len) % 2 ^ 32

module _ {M : Type 0} (bus : Bus M) where
  -- (u32 *)(t) + (t)->hdr.size
  abbrev pub tag_next : ℕ → M → ℕ
  tag_next t m = (t + 4 * bus.read 4 t m) % 2 ^ 32

  -- Words at these offsets of `params`, in this order.
  unfoldable pub put_fields : ℕ → List (ℕ × ℕ) → M → M
  put_fields params [] m = m
  put_fields params ((offset, value) ∷ fields) m =
      put_fields params fields (bus.write 4 ((params + offset) % 2 ^ 32) value m)

  -- strcpy
  unfoldable pub put_string : ℕ → CString → M → M
  put_string dest [] m = bus.write 1 dest 0 m
  put_string dest (c ∷ cs) m = put_string ((dest + 1) % 2 ^ 32) cs (bus.write 1 dest c m)

  -- The result of each is `params` and the memory.
  unfoldable pub setup_start_tag : ℕ → M → ℕ × M
  unfolding put_fields
  setup_start_tag params m =
      let m' = put_fields params ((4, 0x54410001) ∷ (0, 5) ∷ (8, 0) ∷ (12, 0) ∷ (16, 0) ∷ []) m in
      (tag_next params m', m')

  unfoldable pub setup_memory_tags : List (ℕ × ℕ) → ℕ → M → ℕ × M
  unfolding put_fields
  setup_memory_tags [] params m = (params, m)
  setup_memory_tags ((start, size) ∷ banks) params m =
      let m' = put_fields params ((4, 0x54410002) ∷ (0, 4) ∷ (12, start) ∷ (8, size) ∷ []) m in
      setup_memory_tags banks (tag_next params m') m'

  abbrev pub put_cmdline : CString → ℕ → M → ℕ × M
  put_cmdline [] params m = (params, m)
  put_cmdline (c ∷ cs) params m =
      let size = cmdline_size (c ∷ cs) in
      let m' =
        put_string ((params + 8) % 2 ^ 32) (c ∷ cs)
          (put_fields params ((4, 0x54410009) ∷ (0, size) ∷ []) m) in
      (tag_next params m', m')

  -- `none` is a command line that is the null pointer.
  unfoldable pub setup_commandline_tag : Option CString → ℕ → M → Exec (ℕ × M)
  unfolding put_fields put_string strlen
  setup_commandline_tag none params m = fault
  setup_commandline_tag (some commandline) params m =
      done (put_cmdline (eat_blanks commandline) params m)

  unfoldable pub setup_initrd_tag : ℕ → ℕ → ℕ → M → ℕ × M
  unfolding put_fields
  setup_initrd_tag initrd_start initrd_end params m =
      let m' =
        put_fields params
          ((4, 0x54410005)
            ∷ (0, 4)
            ∷ (8, initrd_start)
            ∷ (12, (initrd_end + 2 ^ 32 - initrd_start) % 2 ^ 32)
            ∷ [])
          m in
      (tag_next params m', m')

  abbrev pub setup_end_tag : ℕ → M → M
  setup_end_tag params m = put_fields params ((4, 0) ∷ (0, 0) ∷ []) m

  -- The calls of the functions above in their order.
  unfoldable pub setup_tags : Machine → Option CString → ℕ → ℕ → M → Exec M
  unfolding setup_start_tag setup_memory_tags setup_commandline_tag setup_initrd_tag put_fields
  setup_tags bd commandline initrd_start initrd_end m = do
    let (p₁, m₁) = setup_start_tag bd.boot_params m
    let (p₂, m₂) = setup_memory_tags bd.dram p₁ m₁
    (p₃, m₃) ← setup_commandline_tag commandline p₂ m₂
    let (p₄, m₄) = setup_initrd_tag initrd_start initrd_end p₃ m₃
    done (setup_end_tag p₄ m₄)

  -- The words behind the first one, up to a zero: for (i=1; len_ptr[i]; ++i)
  unfoldable pub count_lengths : ℕ → ℕ → M → Exec ℕ
  unfolding bytes_at
  count_lengths zero p m = fault
  count_lengths (suc fuel) p m = elim (word_at bus p m == 0) [
    | true ↦ done 0
    | false ↦ do n ← count_lengths fuel ((p + 4) % 2 ^ 32) m; done (n + 1)
  ]

  abbrev pub ramdisk_ok : Bool → List ℕ → ℕ → M → Bool
  ramdisk_ok verify hdr addr m =
      has_ih_magic hdr
      && hcrc_ok hdr
      && (not verify || dcrc_ok bus hdr ((addr + header_size) % 2 ^ 32) m)
      && is_ramdisk hdr

  -- The image at argv[2], whose header goes into the global; `none` is a call of `do_reset`.
  abbrev pub ramdisk_at : Bool → ℕ → M → Option Initrd
  ramdisk_at verify addr m =
      let hdr = header_at bus addr m in
      if ramdisk_ok verify hdr addr m
      then some (record {
        header = blank_hcrc hdr;
        start = (addr + header_size) % 2 ^ 32;
        len = ih_size hdr;
      })
      else none

  -- The second part of a multi-file image.
  abbrev pub second_part : ℕ → List ℕ → ℕ → M → Exec (Option Initrd)
  second_part fuel hdr len_ptr m = do
    n ← count_lengths fuel ((len_ptr + 4) % 2 ^ 32) m
    let kernel = word_at bus len_ptr m
    done (
        some (record {
          header = hdr;
          start = (len_ptr + 8 + 4 * n + kernel + align kernel) % 2 ^ 32;
          len = word_at bus ((len_ptr + 4) % 2 ^ 32) m;
        }))

  abbrev pub has_second : List ℕ → ℕ → M → Bool
  has_second hdr len_ptr m = ih_type hdr == 4 && not (word_at bus ((len_ptr + 4) % 2 ^ 32) m == 0)

  abbrev pub find_initrd : ℕ → Bool → List CString → List ℕ → ℕ → M → Exec (Option Initrd)
  find_initrd fuel verify (_ ∷ _ ∷ arg ∷ _) hdr len_ptr m =
      done (ramdisk_at verify (simple_strtoul arg 16).0 m)
  find_initrd fuel verify _ hdr len_ptr m = elim (has_second hdr len_ptr m) [
    | true ↦ second_part fuel hdr len_ptr m
    | false ↦ done (some (record { header = hdr; start = 0; len = 0 }))
  ]

  -- memmove ((void *)initrd_start, (void *)data, len): both are the same address.
  abbrev pub initrd_moved : Initrd → M → M
  initrd_moved d m = if d.start == 0 then m else copy bus d.len 1 d.start d.start m

  -- Behind the search for a ramdisk.
  abbrev pub start_kernel : Machine → Option CString → Initrd → M → Exec (Start M)
  start_kernel bd commandline d m = do
    m' ← setup_tags bd commandline d.start (initrd_end d) (initrd_moved d m)
    done (record { entry = ih_ep d.header; arch_number = bd.arch_number; memory = m' })

  -- `none` is a call of `do_reset`. A kernel that is entered does not come back.
  unfoldable pub boot_linux :
      ℕ → Machine → Bool → Option CString → List CString → List ℕ → ℕ → M → Exec (Option (Start M))
  unfolding setup_tags count_lengths bytes_at copy simple_strtoul
  boot_linux fuel bd verify commandline argv hdr len_ptr m = do
    initrd ← find_initrd fuel verify argv hdr len_ptr m
    elim initrd [
      | none ↦ done none
      | some d ↦ do s ← start_kernel bd commandline d m; done (some s)
    ]
