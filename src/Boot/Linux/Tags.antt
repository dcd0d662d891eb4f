-- ===== src/Boot/Linux/Tags.antt =====
-- The list of tags that `boot_linux` of common/armlinux.c leaves for a kernel, as a kernel reads it:
-- each tag has its size in words, which leads to the next one, its kind, and what it says.
use armboot.Prelude.{ℕ, ◌+◌, ◌*◌, ◌≤◌, ◌≡◌, ◌∙◌, sym, subst, List, [], ◌∷◌, ◌++◌, arith}
use armboot.CString.{CString, strlen}
use armboot.MemCommand.{Bus}
use armboot.Boot.Linux.Fields.{Unchanged, StringAt}

pub data Tag : Type 0 where
  core : ℕ → ℕ → ℕ → Tag
  mem : ℕ → ℕ → Tag
  cmdline : CString → Tag
  initrd : ℕ → ℕ → Tag

module _ {M : Type 0} (bus : Bus M) where
  -- A tag of `n` words at an address, as struct tag of asm/setup.h lays it out.
  abbrev pub TagAt : M → ℕ → ℕ → Tag → Type 0
  TagAt m p n (core flags pagesize rootdev) =
      (n ≡ 5)
      × (bus.read 4 (p + 4) m ≡ 0x54410001)
      × (bus.read 4 (p + 8) m ≡ flags)
      × (bus.read 4 (p + 12) m ≡ pagesize)
      × (bus.read 4 (p + 16) m ≡ rootdev)
  TagAt m p n (mem size start) =
      (n ≡ 4)
      × (bus.read 4 (p + 4) m ≡ 0x54410002)
      × (bus.read 4 (p + 8) m ≡ size)
      × (bus.read 4 (p + 12) m ≡ start)
  TagAt m p n (cmdline cs) =
      (8 + strlen cs + 1 ≤ 4 * n) × (bus.read 4 (p + 4) m ≡ 0x54410009) × StringAt bus m (p + 8) cs
  TagAt m p n (initrd start size) =
      (n ≡ 4)
      × (bus.read 4 (p + 4) m ≡ 0x54410005)
      × (bus.read 4 (p + 8) m ≡ start)
      × (bus.read 4 (p + 12) m ≡ size)

  -- These tags follow each other from `p` up to `q`.
  abbrev pub Follow : M → ℕ → List Tag → ℕ → Type 0
  Follow m p [] q = p ≡ q
  Follow m p (t ∷ ts) q = (n : ℕ) × (bus.read 4 p m ≡ n) × TagAt m p n t × Follow m (p + 4 * n) ts q

  -- A whole list, up to ATAG_NONE.
  abbrev pub TagsAt : M → ℕ → List Tag → Type 0
  TagsAt m p ts = (q : ℕ) × Follow m p ts q × (bus.read 4 q m ≡ 0) × (bus.read 4 (q + 4) m ≡ 0)

  Follow-le : (m : M) (p q : ℕ) (ts : List Tag) → Follow m p ts q → p ≤ q
  Follow-le m p q [] h = omega (arith, h)
  Follow-le m p q (t ∷ ts) (n, _, _, h) = let k = Follow-le m (p + 4 * n) q ts h in omega (arith, k)

  StringAt-Unchanged :
      (m m' : M) (q a : ℕ) (cs : CString)
      → Unchanged bus q m m'
      → a + strlen cs + 1 ≤ q
      → StringAt bus m a cs
      → StringAt bus m' a cs
  unfolding strlen
  StringAt-Unchanged m m' q a [] u h s = u 1 a (omega (arith, h)) ∙ s
  StringAt-Unchanged m m' q a (c ∷ cs) u h s = (
    u 1 a (omega (arith, h)) ∙ s.0,
    StringAt-Unchanged m m' q (a + 1) cs u (omega (arith, h)) s.1,
  )

  TagAt-Unchanged :
      (m m' : M) (q p n : ℕ) (t : Tag)
      → Unchanged bus q m m'
      → p + 4 * n ≤ q
      → TagAt m p n t
      → TagAt m' p n t
  TagAt-Unchanged m m' q p n (core f g r) u h (k, a, b, c, d) = (
    k,
    u 4 (p + 4) (omega (arith, h, k)) ∙ a,
    u 4 (p + 8) (omega (arith, h, k)) ∙ b,
    u 4 (p + 12) (omega (arith, h, k)) ∙ c,
    u 4 (p + 16) (omega (arith, h, k)) ∙ d,
  )
  TagAt-Unchanged m m' q p n (mem f g) u h (k, a, b, c) = (
    k,
    u 4 (p + 4) (omega (arith, h, k)) ∙ a,
    u 4 (p + 8) (omega (arith, h, k)) ∙ b,
    u 4 (p + 12) (omega (arith, h, k)) ∙ c,
  )
  TagAt-Unchanged m m' q p n (cmdline cs) u h (k, a, b) = (
    k,
    u 4 (p + 4) (omega (arith, h, k)) ∙ a,
    StringAt-Unchanged m m' q (p + 8) cs u (omega (arith, h, k)) b,
  )
  TagAt-Unchanged m m' q p n (initrd f g) u h (k, a, b, c) = (
    k,
    u 4 (p + 4) (omega (arith, h, k)) ∙ a,
    u 4 (p + 8) (omega (arith, h, k)) ∙ b,
    u 4 (p + 12) (omega (arith, h, k)) ∙ c,
  )

  TagAt-le : (m : M) (p n : ℕ) (t : Tag) → TagAt m p n t → 4 ≤ 4 * n
  TagAt-le m p n (core f g r) h = omega (arith, h.0)
  TagAt-le m p n (mem f g) h = omega (arith, h.0)
  TagAt-le m p n (cmdline cs) h = omega (arith, h.0)
  TagAt-le m p n (initrd f g) h = omega (arith, h.0)

  -- What is written from `q` on leaves the tags alone.
  pub Follow-Unchanged :
      (m m' : M) (p q : ℕ) (ts : List Tag)
      → Unchanged bus q m m'
      → Follow m p ts q
      → Follow m' p ts q
  Follow-Unchanged m m' p q [] u h = h
  Follow-Unchanged m m' p q (t ∷ ts) u (n, size, tag, h) =
      let k = Follow-le m (p + 4 * n) q ts h in
      let w = TagAt-le m p n t tag in
      (
        n,
        u 4 p (omega (arith, k, w)) ∙ size,
        TagAt-Unchanged m m' q p n t u k tag,
        Follow-Unchanged m m' (p + 4 * n) q ts u h,
      )

  Follow-append :
      (m : M) (p q r : ℕ) (ts us : List Tag)
      → Follow m p ts q
      → Follow m q us r
      → Follow m p (ts ++ us) r
  Follow-append m p q r [] us h k = subst (λ a. Follow m a us r) (sym h) k
  Follow-append m p q r (t ∷ ts) us (n, size, tag, h) k =
      (n, size, tag, Follow-append m (p + 4 * n) q r ts us h k)

  -- A step that has written these tags from `p` on, and nothing below.
  abbrev pub Appends : ℕ → List Tag → M → ℕ × M → Type 0
  Appends p ts m (q, m') = Follow m' p ts q × Unchanged bus p m m'

  pub Appends-both :
      (p q r : ℕ) (ts us : List Tag) (m m' m'' : M)
      → Appends p ts m (q, m')
      → Appends q us m' (r, m'')
      → Appends p (ts ++ us) m (r, m'')
  Appends-both p q r ts us m m' m'' (h, u) (k, v) =
      let low = Follow-le m' p q ts h in
      (
        Follow-append m'' p q r ts us (Follow-Unchanged m' m'' p q ts v h) k,
        λ size a b. v size a (omega (arith, b, low)) ∙ u size a b,
      )
