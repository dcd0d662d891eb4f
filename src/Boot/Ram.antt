-- ===== src/Boot/Ram.antt =====
-- A memory of bytes, little-endian: the interface of Boot can be met.
use armboot.Prelude.{
  ℕ, zero, suc, ◌+◌, ◌*◌, ◌%◌, ◌/◌, ◌^◌, ◌<◌, ◌≤◌, ◌≡◌, ◌∙◌, refl, inl, inr, ◌⊎◌, arith, false,
  ◌==◌, if◌then◌else◌,
}
use armboot.MemCommand.{Bus}
use armboot.Boot.Linux.Fields.{AreApart, IsRam}

-- An object is read byte by byte.
abbrev pub read_bytes : ℕ → ℕ → (ℕ → ℕ) → ℕ
read_bytes zero addr m = 0
read_bytes (suc n) addr m = m addr + 2 ^ 8 * read_bytes n (addr + 1) m

abbrev pub write_bytes : ℕ → ℕ → ℕ → (ℕ → ℕ) → ℕ → ℕ
write_bytes zero addr v m = m
write_bytes (suc n) addr v m =
    write_bytes n (addr + 1) (v / 2 ^ 8) (λ a. if a == addr then v % 2 ^ 8 else m a)

abbrev pub ram : Bus (ℕ → ℕ)
ram = record { read = read_bytes; write = write_bytes }

write_bytes-outside :
    (n addr v a : ℕ) (m : ℕ → ℕ) → (a < addr) ⊎ (addr + n ≤ a) → write_bytes n addr v m a ≡ m a
write_bytes-outside zero addr v a m h = refl
write_bytes-outside (suc n) addr v a m h =
    let other : (a == addr) ≡ false = elim h [
      | inl k ↦ ground (arith, k)
      | inr k ↦ ground (arith, k)
    ] in
    write_bytes-outside n (addr + 1) (v / 2 ^ 8) a _
      (elim h [ inl k ↦ inl (omega (arith, k)) | inr k ↦ inr (omega (arith, k)) ])
    ∙ rw other refl

read_bytes-apart :
    (k a l b v : ℕ) (m : ℕ → ℕ)
    → AreApart k a l b
    → read_bytes k a (write_bytes l b v m) ≡ read_bytes k a m
read_bytes-apart zero a l b v m h = refl
read_bytes-apart (suc k) a l b v m h =
    let first =
      write_bytes-outside l b v a m (elim h [ inl e ↦ inl (omega (arith, e)) | inr e ↦ inr e ]) in
    let rest =
      read_bytes-apart k (a + 1) l b v m
        (elim h [ inl e ↦ inl (omega (arith, e)) | inr e ↦ inr (omega (arith, e)) ]) in
    omega (arith, first, rest)

-- The lower bytes of a number.
abbrev low_bytes : ℕ → ℕ → ℕ
low_bytes zero v = 0
low_bytes (suc n) v = v % 2 ^ 8 + 2 ^ 8 * low_bytes n (v / 2 ^ 8)

read_bytes-write_bytes :
    (n a v : ℕ) (m : ℕ → ℕ) → read_bytes n a (write_bytes n a v m) ≡ low_bytes n v
read_bytes-write_bytes zero a v m = refl
read_bytes-write_bytes (suc n) a v m =
    let m₁ : ℕ → ℕ = λ b. if b == a then v % 2 ^ 8 else m b in
    let here : m₁ a ≡ v % 2 ^ 8 = ground arith in
    let first = write_bytes-outside n (a + 1) (v / 2 ^ 8) a m₁ (inl (omega arith)) ∙ here in
    let rest = read_bytes-write_bytes n (a + 1) (v / 2 ^ 8) m₁ in omega (arith, first, rest)

pub ram-IsRam : IsRam ram
ram-IsRam = record {
  same = λ a v m h.
      let whole : low_bytes 4 v ≡ v = omega (arith, h) in read_bytes-write_bytes 4 a v m ∙ whole;
  same_byte = λ a v m h.
      let whole : low_bytes 1 v ≡ v = omega (arith, h) in read_bytes-write_bytes 1 a v m ∙ whole;
  apart = read_bytes-apart;
}
