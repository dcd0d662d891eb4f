-- ===== src/Boot/Linux/Fields.antt =====
-- `put_fields` and `put_string`, the stores of common/armlinux.c, in a memory that keeps what is
-- written.
use armboot.Prelude.{
  ℕ, ◌+◌, ◌%◌, ◌^◌, ◌<◌, ◌≤◌, ◌≡◌, ◌∙◌, ap, sym, subst, refl, inl, inr, ◌⊎◌, List, [], ◌∷◌, arith,
}
use armboot.CString.{CString, strlen}
use armboot.MemCommand.{Bus}
use armboot.Boot.Linux.{put_fields, put_string}

-- Two objects of these sizes, at these addresses, do not overlap.
abbrev pub AreApart : ℕ → ℕ → ℕ → ℕ → Type 0
AreApart k a l b = (a + k ≤ b) ⊎ (b + l ≤ a)

-- RAM: an object is read as it was written last.
pub record IsRam {M : Type 0} (bus : Bus M) : Type 0 where
  pub same : (a v : ℕ) (m : M) → v < 2 ^ 32 → bus.read 4 a (bus.write 4 a v m) ≡ v
  pub same_byte : (a v : ℕ) (m : M) → v < 2 ^ 8 → bus.read 1 a (bus.write 1 a v m) ≡ v
  pub apart :
      (k a l b v : ℕ) (m : M) → AreApart k a l b → bus.read k a (bus.write l b v m) ≡ bus.read k a m

abbrev Avoids : ℕ → List (ℕ × ℕ) → Type 0
Avoids o [] = Unit {0}
Avoids o ((offset, _) ∷ fields) = AreApart 4 o 4 offset × Avoids o fields

-- Words that lie apart in an object of `room` bytes.
abbrev pub AreFields : ℕ → List (ℕ × ℕ) → Type 0
AreFields room [] = Unit {0}
AreFields room ((offset, value) ∷ fields) =
    (offset + 4 ≤ room) × (value < 2 ^ 32) × Avoids offset fields × AreFields room fields

-- The bytes of a string, which are not the NUL.
abbrev pub AreBytes : CString → Type 0
AreBytes [] = Unit {0}
AreBytes (c ∷ cs) = (c < 2 ^ 8) × AreBytes cs

module _ {M : Type 0} (bus : Bus M) where
  -- What lies below an address is left alone.
  abbrev pub Unchanged : ℕ → M → M → Type 0
  Unchanged p m m' = (k a : ℕ) → a + k ≤ p → bus.read k a m' ≡ bus.read k a m

  abbrev pub AreRead : ℕ → List (ℕ × ℕ) → M → Type 0
  AreRead p [] m = Unit {0}
  AreRead p ((offset, value) ∷ fields) m = (bus.read 4 (p + offset) m ≡ value) × AreRead p fields m

  -- A string in memory, with the NUL behind it.
  abbrev pub StringAt : M → ℕ → CString → Type 0
  StringAt m a [] = bus.read 1 a m ≡ 0
  StringAt m a (c ∷ cs) = (bus.read 1 a m ≡ c) × StringAt m (a + 1) cs

  module _ (ram : IsRam bus) where
    write-apart :
        (k a l b v : ℕ) (m : M)
        → b < 2 ^ 32
        → AreApart k a l b
        → bus.read k a (bus.write l (b % 2 ^ 32) v m) ≡ bus.read k a m
    write-apart k a l b v m h d =
        let in_range : b % 2 ^ 32 ≡ b = omega (arith, h) in
        ram.apart k a l (b % 2 ^ 32) v m (subst (AreApart k a l) (sym in_range) d)

    put_fields-Avoids :
        (p room o : ℕ) (fields : List (ℕ × ℕ)) (m : M)
        → p + room ≤ 2 ^ 32
        → AreFields room fields
        → Avoids o fields
        → bus.read 4 (p + o) (put_fields bus p fields m) ≡ bus.read 4 (p + o) m
    unfolding put_fields
    put_fields-Avoids p room o [] m h f v = refl
    put_fields-Avoids p room o ((offset, value) ∷ fields) m h f v =
        put_fields-Avoids p room o fields _ h f.3 v.1
        ∙ write-apart 4 (p + o) 4 (p + offset) value m (omega (arith, h, f.0))
            (elim v.0 [ inl k ↦ inl (omega (arith, k)) | inr k ↦ inr (omega (arith, k)) ])

    pub put_fields-AreRead :
        (p room : ℕ) (fields : List (ℕ × ℕ)) (m : M)
        → p + room ≤ 2 ^ 32
        → AreFields room fields
        → AreRead p fields (put_fields bus p fields m)
    unfolding put_fields
    put_fields-AreRead p room [] m h f = tt
    put_fields-AreRead p room ((offset, value) ∷ fields) m h f =
        let in_range : (p + offset) % 2 ^ 32 ≡ p + offset = omega (arith, h, f.0) in
        let written : bus.read 4 (p + offset) (bus.write 4 ((p + offset) % 2 ^ 32) value m)
            ≡ value =
          ap (λ a. bus.read 4 (p + offset) (bus.write 4 a value m)) in_range
          ∙ ram.same (p + offset) value m f.1 in
        (
          put_fields-Avoids p room offset fields _ h f.3 f.2 ∙ written,
          put_fields-AreRead p room fields _ h f.3,
        )

    pub put_fields-Unchanged :
        (p room : ℕ) (fields : List (ℕ × ℕ)) (m : M)
        → p + room ≤ 2 ^ 32
        → AreFields room fields
        → Unchanged p m (put_fields bus p fields m)
    unfolding put_fields
    put_fields-Unchanged p room [] m h f k a low = refl
    put_fields-Unchanged p room ((offset, value) ∷ fields) m h f k a low =
        put_fields-Unchanged p room fields _ h f.3 k a low
        ∙ write-apart k a 4 (p + offset) value m (omega (arith, h, f.0)) (inl (omega (arith, low)))

    pub put_string-Unchanged :
        (a : ℕ) (cs : CString) (m : M)
        → a + strlen cs < 2 ^ 32
        → Unchanged a m (put_string bus a cs m)
    unfolding put_string strlen
    put_string-Unchanged a [] m h k b low = ram.apart k b 1 a 0 m (inl low)
    put_string-Unchanged a (c ∷ cs) m h k b low =
        let in_range : (a + 1) % 2 ^ 32 ≡ a + 1 = omega (arith, h) in
        ap (λ d. bus.read k b (put_string bus d cs (bus.write 1 a c m))) in_range
        ∙ put_string-Unchanged (a + 1) cs _ (omega (arith, h)) k b (omega (arith, low))
        ∙ ram.apart k b 1 a c m (inl low)

    pub put_string-StringAt :
        (a : ℕ) (cs : CString) (m : M)
        → a + strlen cs < 2 ^ 32
        → AreBytes cs
        → StringAt (put_string bus a cs m) a cs
    unfolding put_string strlen
    put_string-StringAt a [] m h f = ram.same_byte a 0 m (omega arith)
    put_string-StringAt a (c ∷ cs) m h f =
        let in_range : (a + 1) % 2 ^ 32 ≡ a + 1 = omega (arith, h) in
        let m₁ = bus.write 1 a c m in
        subst (λ d. StringAt (put_string bus d cs m₁) a (c ∷ cs)) (sym in_range)
          (
            put_string-Unchanged (a + 1) cs m₁ (omega (arith, h)) 1 a (omega arith)
                ∙ ram.same_byte a c m f.0,
            put_string-StringAt (a + 1) cs m₁ (omega (arith, h)) f.1,
          )
