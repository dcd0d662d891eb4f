-- ===== src/CString/Number.antt =====
-- `simple_strtoul` of common/vsprintf.c on decimal numbers.
use armboot.Prelude.{
  ℕ, ◌+◌, ◌*◌, ◌%◌, ◌^◌, ◌<◌, ◌≡◌, ◌≢◌, refl, false, List, [], ◌∷◌, arith, ◌==◌, ◌&&◌, leb,
  if◌then◌else◌,
}
use armboot.CString.{CString, read_digits, after_zero, prefix, simple_strtoul}

abbrev pub AllDigits : List ℕ → Type 0
AllDigits [] = Unit {0}
AllDigits (d ∷ ds) = (d < 10) × AllDigits ds

-- The number that the digits write behind the number `r`.
abbrev pub number : ℕ → List ℕ → ℕ
number r [] = r
number r (d ∷ ds) = number (r * 10 + d) ds

-- The characters of the digits, in front of `rest`.
abbrev pub decimal : List ℕ → CString → CString
decimal [] rest = rest
decimal (d ∷ ds) rest = (b'0' + d) ∷ decimal ds rest

-- What may stand behind a number: neither another digit nor an 'x'.
abbrev pub Ends : CString → Type 0
Ends [] = Unit {0}
Ends (c ∷ cs) = ((leb b'0' c && leb c b'9') ≡ false) × (c ≢ b'x')

read_digits-Ends : (r : ℕ) (rest : CString) → Ends rest → read_digits 10 r rest ≡ (r, rest)
unfolding read_digits
read_digits-Ends r [] h = refl
read_digits-Ends r (c ∷ cs) h = ground arith

read_digits-decimal :
    (ds : List ℕ) (r q : ℕ) (rest : CString)
    → AllDigits ds
    → Ends rest
    → q ≡ r % 2 ^ 32
    → read_digits 10 q (decimal ds rest) ≡ (number r ds % 2 ^ 32, rest)
unfolding read_digits
read_digits-decimal [] r q rest hs h e = rw e (read_digits-Ends (r % 2 ^ 32) rest h)
read_digits-decimal (d ∷ ds) r q rest hs h e =
    ground (arith, read_digits-decimal ds (r * 10 + d) ((q * 10 + d) % 2 ^ 32) rest hs.1 h)

after_zero-decimal :
    (ds : List ℕ) (rest : CString)
    → AllDigits ds
    → Ends rest
    → after_zero (decimal ds rest) 10 ≡ (10, decimal ds rest)
unfolding after_zero
after_zero-decimal [] [] hs h = refl
after_zero-decimal [] (c ∷ cs) hs h = ground arith
after_zero-decimal (d ∷ ds) rest hs h = ground arith

prefix-decimal :
    (d : ℕ) (ds : List ℕ) (rest : CString)
    → AllDigits (d ∷ ds)
    → Ends rest
    → prefix (decimal (d ∷ ds) rest) 10
      ≡ (10, if d == 0 then decimal ds rest else decimal (d ∷ ds) rest)
unfolding prefix
prefix-decimal d ds rest hs h = ground (arith, after_zero-decimal ds rest hs.1 h)

-- `simple_strtoul` in base 10, on one or more decimal digits and what stands behind them (neither a
-- digit nor an 'x'): the result is the number that the digits write, modulo 2 ^ 32, and `*endp` is
-- what stands behind. Leading zeros do not change the base.
pub simple_strtoul-decimal :
    (d : ℕ) (ds : List ℕ) (rest : CString)
    → AllDigits (d ∷ ds)
    → Ends rest
    → simple_strtoul (decimal (d ∷ ds) rest) 10 ≡ (number 0 (d ∷ ds) % 2 ^ 32, rest)
unfolding simple_strtoul
simple_strtoul-decimal d ds rest hs h = ground (
  arith,
  prefix-decimal d ds rest hs h,
  read_digits-decimal ds 0 0 rest hs.1 h,
  read_digits-decimal (d ∷ ds) 0 0 rest hs h,
)
