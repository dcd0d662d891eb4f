-- ===== src/Boot/Linux/Whole.antt =====
-- The list of tags that the functions of common/armlinux.c write one after the other.
use armboot.Prelude.{
  ℕ, ◌+◌, ◌-◌, ◌*◌, ◌%◌, ◌^◌, ◌<◌, ◌≤◌, ◌≡◌, refl, List, [], ◌∷◌, ◌++◌, some, arith, done,
}
use armboot.CString.{CString}
use armboot.MemCommand.{Bus}
use armboot.Boot.Linux.{
  Machine, cmdline_size, eat_blanks, put_cmdline, setup_start_tag, setup_memory_tags,
  setup_commandline_tag, setup_initrd_tag, setup_end_tag, setup_tags,
}
use armboot.Boot.Linux.Fields.{IsRam, AreBytes, AreFields, put_fields-AreRead, put_fields-Unchanged}
use armboot.Boot.Linux.Tags.{Tag, core, initrd, TagsAt, Follow-Unchanged, Appends, Appends-both}
use armboot.Boot.Linux.Listed.{
  mem_tags, AreWords, cmdline_tags, tags_room, first_word, setup_start_tag-Appends,
  setup_memory_tags-Appends, put_cmdline-Appends, put_cmdline-le, setup_initrd_tag-Appends,
  mem_tags-end,
}

-- The whole list, for a command line `cl` that is set.
abbrev pub all_tags : Machine → CString → ℕ → ℕ → List Tag
all_tags bd cl start end =
    (core 0 0 0 ∷ [])
    ++ (mem_tags bd.dram
        ++ (cmdline_tags (eat_blanks cl) ++ initrd start ((end + 2 ^ 32 - start) % 2 ^ 32) ∷ []))

module _ {M : Type 0} (bus : Bus M) (ram : IsRam bus) where
  setup_end_tag-TagsAt :
      (p q : ℕ) (ts : List Tag) (m m' : M)
      → q + 8 ≤ 2 ^ 32
      → Appends bus p ts m (q, m')
      → TagsAt bus (setup_end_tag bus q m') p ts
  setup_end_tag-TagsAt p q ts m m' h a =
      let fields : List (ℕ × ℕ) = (4, 0) ∷ (0, 0) ∷ [] in
      let apart : AreFields 8 fields = omega arith in
      let r = put_fields-AreRead bus ram q 8 fields m' h apart in
      (
        q,
        Follow-Unchanged bus m' _ p q ts (put_fields-Unchanged bus ram q 8 fields m' h apart) a.0,
        first_word bus ram q 0 _ r.1.0,
        r.0,
      )

  -- The five functions, one after the other.
  abbrev after_start : Machine → M → ℕ × M
  after_start bd m = setup_start_tag bus bd.boot_params m

  abbrev after_memory : Machine → M → ℕ × M
  after_memory bd m = setup_memory_tags bus bd.dram (after_start bd m).0 (after_start bd m).1

  abbrev after_cmdline : Machine → CString → M → ℕ × M
  after_cmdline bd cl m =
      put_cmdline bus (eat_blanks cl) (after_memory bd m).0 (after_memory bd m).1

  abbrev after_initrd : Machine → CString → ℕ → ℕ → M → ℕ × M
  after_initrd bd cl start end m =
      setup_initrd_tag bus start end (after_cmdline bd cl m).0 (after_cmdline bd cl m).1

  -- The end of the list, in memory as the functions leave it.
  after_initrd-TagsAt :
      (bd : Machine) (cl : CString) (start end : ℕ) (m : M)
      → bd.boot_params + tags_room bd.dram (eat_blanks cl) ≤ 2 ^ 32
      → AreWords bd.dram
      → AreBytes (eat_blanks cl)
      → start < 2 ^ 32
      → TagsAt bus
          (setup_end_tag bus (after_initrd bd cl start end m).0 (after_initrd bd cl start end m).1)
          bd.boot_params
          (all_tags bd cl start end)
  after_initrd-TagsAt bd cl start end m room words bytes h =
      let p = bd.boot_params in
      let cs = eat_blanks cl in
      let (p₁, m₁) = after_start bd m in
      let (p₂, m₂) = after_memory bd m in
      let (p₃, m₃) = after_cmdline bd cl m in
      let (p₄, m₄) = after_initrd bd cl start end m in
      let last = initrd start ((end + 2 ^ 32 - start) % 2 ^ 32) ∷ [] in
      let a₁ = setup_start_tag-Appends bus ram p m (omega (arith, room)) in
      let (_, _, (five, _, _, _, _), end₁) = a₁.0 in
      let l₁ : p₁ ≤ p + 20 = omega (arith, five, end₁) in
      let a₂ = setup_memory_tags-Appends bus ram bd.dram p₁ m₁ (omega (arith, room, l₁)) words in
      let l₂ = mem_tags-end bus m₂ bd.dram p₁ p₂ a₂.0 in
      let fits : p₂ + 4 * cmdline_size cs < 2 ^ 32 = omega (arith, room, l₁, l₂) in
      let a₃ = put_cmdline-Appends bus ram cs p₂ m₂ fits bytes in
      let l₃ = put_cmdline-le bus ram cs p₂ m₂ fits in
      let a₄ =
        setup_initrd_tag-Appends bus ram start end p₃ m₃ (omega (arith, room, l₁, l₂, l₃)) h in
      let (_, _, (four, _, _, _), end₄) = a₄.0 in
      let l₄ : p₄ ≤ p₃ + 16 = omega (arith, four, end₄) in
      setup_end_tag-TagsAt p p₄ (all_tags bd cl start end) m m₄
        (omega (arith, room, l₁, l₂, l₃, l₄))
        (Appends-both bus p p₁ p₄ (core 0 0 0 ∷ []) _ m m₁ m₄ a₁ (
          Appends-both bus p₁ p₂ p₄ (mem_tags bd.dram) _ m₁ m₂ m₄ a₂
            (Appends-both bus p₂ p₃ p₄ (cmdline_tags cs) last m₂ m₃ m₄ a₃ a₄)))

  -- `setup_tags` writes the whole list at `boot_params`, if there is room for it.
  pub setup_tags-TagsAt :
      (bd : Machine) (cl : CString) (start end : ℕ) (m : M)
      → bd.boot_params + tags_room bd.dram (eat_blanks cl) ≤ 2 ^ 32
      → AreWords bd.dram
      → AreBytes (eat_blanks cl)
      → start < 2 ^ 32
      → (left : M) × (setup_tags bus bd (some cl) start end m ≡ done left)
        × TagsAt bus left bd.boot_params (all_tags bd cl start end)
  unfolding setup_tags setup_commandline_tag
  setup_tags-TagsAt bd cl start end m room words bytes h =
      (_, refl, after_initrd-TagsAt bd cl start end m room words bytes h)
