-- ===== src/CString/Print/Reread.antt =====
-- `number` of common/vsprintf.c and then `simple_strtoul`.
use armboot.Prelude.{
  ℕ, zero, suc, ◌+◌, ◌-◌, ◌*◌, ◌%◌, ◌/◌, ◌^◌, ◌<◌, ◌≤◌, ◌≡◌, ◌≢◌, ◌∙◌, ◌⊎◌, inl, inr, refl, ap, sym,
  Bool, true, false, [], ◌∷◌, some, arith, ◌==◌, ltb, if◌then◌else◌, append-nil, length, ◌||◌,
  Bool-cases, ==_iff,
}
use armboot.CString.{
  CString, read_digits, after_zero, prefix, simple_strtoul, digit_value, is_xdigit,
}
use armboot.CString.Print.{Flags, digit, digits_onto, times, max, number}

-- No flags but LARGE.
abbrev pub unsigned : Bool → Flags
unsigned large = record {
  zeropad = false;
  sign = false;
  plus = false;
  space = false;
  left = false;
  special = false;
  large = large;
}

unfoldable power : ℕ → ℕ
power zero = 1
power (suc n) = 2 * power n

digit-value :
    (large : Bool) (d : ℕ)
    → d < 16
    → (digit_value (digit large d) ≡ d) × (is_xdigit (digit large d) ≡ true)
unfolding digit
digit-value true d h = (ground (arith, h), ground (arith, h))
digit-value false d h = (ground (arith, h), ground (arith, h))

digit_ne_zero : (large : Bool) (d : ℕ) → d < 16 → d ≢ 0 → digit large d ≢ b'0'
unfolding digit
digit_ne_zero true d h ne = ground (arith, h, ne)
digit_ne_zero false d h ne = ground (arith, h, ne)

-- What the division by the base does.
record IsBase (base : ℕ) : Type 0 where
  small : (n : ℕ) → n % base < 16
  within : (n : ℕ) → n % base < base
  half : (n : ℕ) → n / base ≤ n / 2
  divided : (n : ℕ) → n / base * base + n % base ≡ n

read_digits-nil : (base n : ℕ) → read_digits base n [] ≡ (n, [])
unfolding read_digits
read_digits-nil base n = refl

module _ (large : Bool) (base : ℕ) (division : IsBase base) where
  read_digits-digits_onto :
      (fuel n : ℕ) (tmp : CString)
      → n < power fuel
      → n < 2 ^ 32
      → read_digits base 0 (digits_onto fuel large base n tmp) ≡ read_digits base n tmp
  unfolding digits_onto read_digits power
  read_digits-digits_onto zero n tmp h k = ap (λ m. read_digits base m tmp) (omega (arith, h))
  read_digits-digits_onto (suc fuel) n tmp h k =
      let d = n % base in
      let value = digit-value large d (division.small n) in
      let rest =
        read_digits-digits_onto fuel (n / base) (digit large d ∷ tmp)
          (omega (arith, h, division.half n)) (omega (arith, k, division.half n)) in
      let joined : (n / base * base + d) % 2 ^ 32 ≡ n = omega (arith, k, division.divided n) in
      let step : read_digits base (n / base) (digit large d ∷ tmp) ≡ read_digits base n tmp =
        rw (value.0, value.1, joined) (ground (arith, division.within n)) in
      elim (Bool-cases (n == 0)) [
        | inl e ↦ rw e (ap (λ m. read_digits base m tmp) (sym ((==_iff n 0).0 e)))
        | inr e ↦ rw e (rest ∙ step)
      ]

  digits_onto-zero : (fuel : ℕ) (tmp : CString) → digits_onto fuel large base 0 tmp ≡ tmp
  unfolding digits_onto
  digits_onto-zero zero tmp = refl
  digits_onto-zero (suc fuel) tmp = refl

  -- The first character is not a '0'.
  starts :
      (fuel n : ℕ) (tmp : CString)
      → n < power fuel
      → n ≢ 0
      → (c : ℕ) × (cs : CString) × (digits_onto fuel large base n tmp ≡ c ∷ cs) × (c ≢ b'0')
  unfolding digits_onto power
  starts zero n tmp h ne = absurd (ne (omega (arith, h)))
  starts (suc fuel) n tmp h ne =
      let d = n % base in
      let more : digits_onto (suc fuel) large base n tmp
          ≡ digits_onto fuel large base (n / base) (digit large d ∷ tmp) =
        ground (arith, ne) in
      elim (Bool-cases (n / base == 0)) [
        | inl e ↦
            let gone : n / base ≡ 0 = (==_iff _ 0).0 e in
            let whole : d ≢ 0 = λ z.
              let parts : 0 * base + 0 ≡ n = rw (gone, z) at (division.divided n) in
              ne (omega (arith, parts)) in
            (
              digit large d,
              tmp,
              more
                  ∙ ap (λ m. digits_onto fuel large base m (digit large d ∷ tmp)) gone
                  ∙ digits_onto-zero fuel (digit large d ∷ tmp),
              digit_ne_zero large d (division.small n) whole,
            )
        | inr e ↦
            let left : n / base ≢ 0 = λ z. ground (arith, z, e) in
            let (c, cs, is, ne') =
              starts fuel (n / base) (digit large d ∷ tmp) (omega (arith, h, division.half n))
                left in
            (c, cs, more ∙ is, ne')
      ]

  strtoul-digits_onto :
      (n : ℕ)
      → base ≢ 0
      → n < 2 ^ 32
      → n ≢ 0
      → simple_strtoul (digits_onto 32 large base n []) base ≡ (n, [])
  unfolding simple_strtoul prefix power
  strtoul-digits_onto n positive k ne =
      let (c, cs, is, first) = starts 32 n [] k ne in
      let read = read_digits-digits_onto 32 n [] k k ∙ read_digits-nil base n in
      let same : prefix (digits_onto 32 large base n []) base
          ≡ (base, digits_onto 32 large base n []) =
        rw is (ground (arith, first)) in
      rw same (ground (arith, positive, read))

ten-IsBase : IsBase 10
ten-IsBase = record {
  small = λ n. omega arith;
  within = λ n. omega arith;
  half = λ n. omega arith;
  divided = λ n. omega arith;
}

sixteen-IsBase : IsBase 16
sixteen-IsBase = record {
  small = λ n. omega arith;
  within = λ n. omega arith;
  half = λ n. omega arith;
  divided = λ n. omega arith;
}

-- Without flags, the digits are all that is written.
number-unsigned :
    (large : Bool) (n base : ℕ)
    → (ltb base 2 || ltb 36 base) ≡ false
    → number n base 0 0 (unsigned large)
      ≡ some (if n == 0 then b'0' ∷ [] else digits_onto 32 large base n [])
unfolding number times
number-unsigned large n base h =
    let tmp : CString = if n == 0 then b'0' ∷ [] else digits_onto 32 large base n [] in
    let pad : 0 - 0 - 0 - max 0 (length tmp) ≡ 0 = omega arith in
    let more : 0 - length tmp ≡ 0 = omega arith in rw (h, pad, more, append-nil tmp) refl

reread :
    (large : Bool) (n base : ℕ)
    → IsBase base
    → base ≢ 0
    → n < 2 ^ 32
    → simple_strtoul (if n == 0 then b'0' ∷ [] else digits_onto 32 large base n []) base ≡ (n, [])
unfolding simple_strtoul prefix after_zero read_digits
reread large n base division positive k = elim (Bool-cases (n == 0)) [
  | inl e ↦ rw e (ground (arith, positive, (==_iff n 0).0 e))
  | inr e ↦ rw e (strtoul-digits_onto large base division n positive k (λ z. ground (arith, z, e)))
]

-- What `number` writes for an unsigned long with no flags but LARGE, and no size or precision, in
-- base 10 or 16, `simple_strtoul` reads back in the same base: all of it, and the same number.
pub simple_strtoul-number :
    (large : Bool) (n base : ℕ)
    → (base ≡ 10) ⊎ (base ≡ 16)
    → n < 2 ^ 32
    → (s : CString) × (number n base 0 0 (unsigned large) ≡ some s)
      × (simple_strtoul s base ≡ (n, []))
simple_strtoul-number large n base (inl e) k = (
  _,
  number-unsigned large n base (rw e refl),
  reread large n base (rw e ten-IsBase) (rw e (omega arith)) k,
)
simple_strtoul-number large n base (inr e) k = (
  _,
  number-unsigned large n base (rw e refl),
  reread large n base (rw e sixteen-IsBase) (rw e (omega arith)) k,
)
