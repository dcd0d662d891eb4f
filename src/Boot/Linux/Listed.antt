-- ===== src/Boot/Linux/Listed.antt =====
-- What each function of common/armlinux.c that sets up tags adds to the list.
use armboot.Prelude.{
  ℕ, ◌+◌, ◌-◌, ◌*◌, ◌%◌, ◌^◌, ◌<◌, ◌≤◌, ◌≡◌, ◌∙◌, ap, subst, refl, List, [], ◌∷◌, arith, length,
}
use armboot.CString.{CString, strlen}
use armboot.MemCommand.{Bus}
use armboot.Boot.Linux.{
  cmdline_size, put_fields, put_string, put_cmdline, setup_start_tag, setup_memory_tags,
  setup_initrd_tag, tag_next,
}
use armboot.Boot.Linux.Fields.{
  IsRam, AreBytes, AreFields, put_fields-AreRead, put_fields-Unchanged, put_string-Unchanged,
  put_string-StringAt,
}
use armboot.Boot.Linux.Tags.{Tag, core, mem, cmdline, initrd, Follow, Appends, Appends-both}

-- Start and size of a bank of memory
abbrev pub mem_tags : List (ℕ × ℕ) → List Tag
mem_tags [] = []
mem_tags ((start, size) ∷ banks) = mem size start ∷ mem_tags banks

abbrev pub AreWords : List (ℕ × ℕ) → Type 0
AreWords [] = Unit {0}
AreWords ((start, size) ∷ banks) = (start < 2 ^ 32) × (size < 2 ^ 32) × AreWords banks

-- No tag for an empty command line.
abbrev pub cmdline_tags : CString → List Tag
cmdline_tags [] = []
cmdline_tags (c ∷ cs) = cmdline (c ∷ cs) ∷ []

-- The bytes that the list may take.
abbrev pub tags_room : List (ℕ × ℕ) → CString → ℕ
tags_room dram cs = 20 + 16 * length dram + 4 * cmdline_size cs + 24

at_zero : (a : ℕ) → a ≡ a + 0
at_zero a = omega arith

module _ {M : Type 0} (bus : Bus M) (ram : IsRam bus) where
  -- The first word, which is the size.
  pub first_word : (p n : ℕ) (m : M) → bus.read 4 (p + 0) m ≡ n → bus.read 4 p m ≡ n
  first_word p n m h = ap (λ a. bus.read 4 a m) (at_zero p) ∙ h

  -- Where the next tag goes.
  next_is :
      (p n : ℕ) (m : M) → bus.read 4 p m ≡ n → p + 4 * n < 2 ^ 32 → p + 4 * n ≡ tag_next bus p m
  next_is p n m e h = omega (arith, e, h)

  pub setup_start_tag-Appends :
      (p : ℕ) (m : M)
      → p + 20 < 2 ^ 32
      → Appends bus p (core 0 0 0 ∷ []) m (setup_start_tag bus p m)
  unfolding setup_start_tag
  setup_start_tag-Appends p m h =
      let fields : List (ℕ × ℕ) = (4, 0x54410001) ∷ (0, 5) ∷ (8, 0) ∷ (12, 0) ∷ (16, 0) ∷ [] in
      let apart : AreFields 20 fields = omega arith in
      let r = put_fields-AreRead bus ram p 20 fields m (omega (arith, h)) apart in
      (
        (
          5,
          first_word p 5 _ r.1.0,
          (refl, r.0, r.1.1.0, r.1.1.1.0, r.1.1.1.1.0),
          next_is p 5 _ (first_word p 5 _ r.1.0) h,
        ),
        put_fields-Unchanged bus ram p 20 fields m (omega (arith, h)) apart,
      )

  pub setup_memory_tags-Appends :
      (banks : List (ℕ × ℕ)) (p : ℕ) (m : M)
      → p + 16 * length banks < 2 ^ 32
      → AreWords banks
      → Appends bus p (mem_tags banks) m (setup_memory_tags bus banks p m)
  unfolding setup_memory_tags
  setup_memory_tags-Appends [] p m h w = (refl, λ k a b. refl)
  setup_memory_tags-Appends ((start, size) ∷ banks) p m h w =
      let fields : List (ℕ × ℕ) = (4, 0x54410002) ∷ (0, 4) ∷ (12, start) ∷ (8, size) ∷ [] in
      let apart : AreFields 16 fields = omega (arith, w.0, w.1) in
      let r = put_fields-AreRead bus ram p 16 fields m (omega (arith, h)) apart in
      let one : Appends bus p (mem size start ∷ []) m
          (tag_next bus p (put_fields bus p fields m), put_fields bus p fields m) =
        (
          (
            4,
            first_word p 4 _ r.1.0,
            (refl, r.0, r.1.1.1.0, r.1.1.0),
            next_is p 4 _ (first_word p 4 _ r.1.0) (omega (arith, h)),
          ),
          put_fields-Unchanged bus ram p 16 fields m (omega (arith, h)) apart,
        ) in
      let q = tag_next bus p (put_fields bus p fields m) in
      let next : p + 16 ≡ q = next_is p 4 _ (first_word p 4 _ r.1.0) (omega (arith, h)) in
      Appends-both bus p q _ (mem size start ∷ []) (mem_tags banks) m _ _ one
        (setup_memory_tags-Appends banks q _ (omega (arith, h, next)) w.2)

  pub put_cmdline-Appends :
      (cs : CString) (p : ℕ) (m : M)
      → p + 4 * cmdline_size cs < 2 ^ 32
      → AreBytes cs
      → Appends bus p (cmdline_tags cs) m (put_cmdline bus cs p m)
  put_cmdline-Appends [] p m h w = (refl, λ k a b. refl)
  put_cmdline-Appends (c ∷ cs) p m h w =
      let n = cmdline_size (c ∷ cs) in
      let fields : List (ℕ × ℕ) = (4, 0x54410009) ∷ (0, n) ∷ [] in
      let apart : AreFields 8 fields = omega (arith, h) in
      let r = put_fields-AreRead bus ram p 8 fields m (omega (arith, h)) apart in
      let m₁ = put_fields bus p fields m in
      let text : p + 8 ≡ (p + 8) % 2 ^ 32 = omega (arith, h) in
      let fits : p + 8 + strlen (c ∷ cs) < 2 ^ 32 = omega (arith, h) in
      let later = put_string-Unchanged bus ram (p + 8) (c ∷ cs) m₁ fits in
      let size : bus.read 4 p (put_string bus (p + 8) (c ∷ cs) m₁) ≡ n =
        later 4 p (omega arith) ∙ first_word p n m₁ r.1.0 in
      subst
        (λ a.
          Appends bus p (cmdline (c ∷ cs) ∷ []) m
            (tag_next bus p (put_string bus a (c ∷ cs) m₁), put_string bus a (c ∷ cs) m₁))
        text
        (
          (
            n,
            size,
            (
              omega arith,
              later 4 (p + 4) (omega arith) ∙ r.0,
              put_string-StringAt bus ram (p + 8) (c ∷ cs) m₁ fits w,
            ),
            next_is p n _ size h,
          ),
          λ k a b.
              later k a (omega (arith, b))
              ∙ put_fields-Unchanged bus ram p 8 fields m (omega (arith, h)) apart k a b,
        )

  -- The size of the tag, behind the command line.
  cmdline-size :
      (c : ℕ) (cs : CString) (p : ℕ) (m : M)
      → p + 4 * cmdline_size (c ∷ cs) < 2 ^ 32
      → bus.read 4 p (put_cmdline bus (c ∷ cs) p m).1 ≡ cmdline_size (c ∷ cs)
  cmdline-size c cs p m h =
      let n = cmdline_size (c ∷ cs) in
      let fields : List (ℕ × ℕ) = (4, 0x54410009) ∷ (0, n) ∷ [] in
      let apart : AreFields 8 fields = omega (arith, h) in
      let r = put_fields-AreRead bus ram p 8 fields m (omega (arith, h)) apart in
      let m₁ = put_fields bus p fields m in
      let text : (p + 8) % 2 ^ 32 ≡ p + 8 = omega (arith, h) in
      ap (λ a. bus.read 4 p (put_string bus a (c ∷ cs) m₁)) text
      ∙ put_string-Unchanged bus ram (p + 8) (c ∷ cs) m₁ (omega (arith, h)) 4 p (omega arith)
      ∙ first_word p n m₁ r.1.0

  pub put_cmdline-le :
      (cs : CString) (p : ℕ) (m : M)
      → p + 4 * cmdline_size cs < 2 ^ 32
      → (put_cmdline bus cs p m).0 ≤ p + 4 * cmdline_size cs
  put_cmdline-le [] p m h = omega arith
  put_cmdline-le (c ∷ cs) p m h =
      let next = next_is p (cmdline_size (c ∷ cs)) _ (cmdline-size c cs p m h) h in
      omega (arith, next)

  pub setup_initrd_tag-Appends :
      (start end p : ℕ) (m : M)
      → p + 16 < 2 ^ 32
      → start < 2 ^ 32
      → Appends bus p
          (initrd start ((end + 2 ^ 32 - start) % 2 ^ 32) ∷ [])
          m
          (setup_initrd_tag bus start end p m)
  unfolding setup_initrd_tag
  setup_initrd_tag-Appends start end p m h w =
      let fields : List (ℕ × ℕ) =
        (4, 0x54410005) ∷ (0, 4) ∷ (8, start) ∷ (12, (end + 2 ^ 32 - start) % 2 ^ 32) ∷ [] in
      let apart : AreFields 16 fields = omega (arith, w) in
      let r = put_fields-AreRead bus ram p 16 fields m (omega (arith, h)) apart in
      (
        (
          4,
          first_word p 4 _ r.1.0,
          (refl, r.0, r.1.1.0, r.1.1.1.0),
          next_is p 4 _ (first_word p 4 _ r.1.0) h,
        ),
        put_fields-Unchanged bus ram p 16 fields m (omega (arith, h)) apart,
      )

-- Where tags of a fixed size end.
pub mem_tags-end :
    {M : Type 0} (bus : Bus M) (m : M) (banks : List (ℕ × ℕ)) (p q : ℕ)
    → Follow bus m p (mem_tags banks) q
    → q ≡ p + 16 * length banks
mem_tags-end bus m [] p q h = omega (arith, h)
mem_tags-end bus m ((start, size) ∷ banks) p q (n, _, (four, _, _, _), h) =
    let k = mem_tags-end bus m banks (p + 4 * n) q h in omega (arith, four, k)
