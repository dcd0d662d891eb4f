-- ===== src/CString.antt =====
-- common/string.c and the number reader of common/vsprintf.c. A C string is the list of its bytes
-- before the terminating NUL. A pointer into a string is the rest of the list from there on, and
-- `none` is the null pointer.
pub mod Laws
pub mod Number
pub mod Print
mod Tests
use armboot.Prelude.{
  ℕ, zero, suc, ◌≢◌, ◌+◌, ◌-◌, ◌*◌, ◌%◌, ◌^◌, ◌<◌, Bool, true, false, ◌&&◌, ◌||◌, List, [], ◌∷◌,
  Option, none, some, ◌==◌, ltb, leb, if◌then◌else◌, length,
}

abbrev pub CString : Type 0
CString = List ℕ

-- The bytes that such a list may hold.
abbrev pub IsCString : CString → Type 0
IsCString [] = Unit {0}
IsCString (c ∷ cs) = (0 < c) × (c < 256) × IsCString cs

-- The same for a text of bytes of any size.
abbrev pub IsText : List ℕ → Type 0
IsText [] = Unit {0}
IsText (c ∷ cs) = (c ≢ 0) × IsText cs

-- `__res = *cs - *ct`, kept in eight bits
abbrev difference : ℕ → ℕ → ℕ
difference c t = (c + 256 - t) % 256

unfoldable pub strcmp : CString → CString → ℕ
strcmp [] [] = 0
strcmp [] (t ∷ ts) = difference 0 t
strcmp (c ∷ cs) [] = difference c 0
strcmp (c ∷ cs) (t ∷ ts) =
    let rest = strcmp cs ts in if difference c t == 0 then rest else difference c t

unfoldable pub strncmp : CString → CString → ℕ → ℕ
strncmp cs ts zero = 0
strncmp [] [] (suc n) = 0
strncmp [] (t ∷ ts) (suc n) = difference 0 t
strncmp (c ∷ cs) [] (suc n) = difference c 0
strncmp (c ∷ cs) (t ∷ ts) (suc n) =
    let rest = strncmp cs ts n in if difference c t == 0 then rest else difference c t

unfoldable pub strlen : CString → ℕ
strlen [] = 0
strlen (_ ∷ cs) = strlen cs + 1

unfoldable pub strchr : CString → ℕ → Option CString
strchr [] c = if c == 0 then some [] else none
strchr (s ∷ ss) c = let rest = strchr ss c in if s == c then some (s ∷ ss) else rest

-- the inner loops of `strspn` and `strpbrk`: is the byte among these?
unfoldable pub is_among : ℕ → CString → Bool
is_among c [] = false
is_among c (a ∷ as') = c == a || is_among c as'

unfoldable pub strspn : CString → CString → ℕ
strspn [] accept = 0
strspn (p ∷ ps) accept = let rest = strspn ps accept in if is_among p accept then rest + 1 else 0

unfoldable pub strpbrk : CString → CString → Option CString
strpbrk [] ct = none
strpbrk (c ∷ cs) ct = let rest = strpbrk cs ct in if is_among c ct then some (c ∷ cs) else rest

-- `isdigit`, `islower`, `isxdigit` of include/linux/ctype.h below 128, and `toupper`
abbrev is_digit : ℕ → Bool
is_digit c = leb b'0' c && leb c b'9'

abbrev is_lower : ℕ → Bool
is_lower c = leb b'a' c && leb c b'z'

abbrev is_xdigit : ℕ → Bool
is_xdigit c = is_digit c || (leb b'a' c && leb c b'f') || (leb b'A' c && leb c b'F')

abbrev to_upper : ℕ → ℕ
to_upper c = if is_lower c then c - 32 else c

abbrev pub digit_value : ℕ → ℕ
digit_value c = if is_digit c then c - b'0' else to_upper c + 10 - b'A'

-- The result and `*endp`.
abbrev pub Number : Type 0
Number = ℕ × CString

-- The digits in front, onto `result`: unsigned long wraps at 2 ^ 32.
unfoldable pub read_digits : ℕ → ℕ → CString → Number
read_digits base result [] = (result, [])
read_digits base result (c ∷ cs) =
    let rest = read_digits base ((result * base + digit_value c) % 2 ^ 32) cs in
    if is_xdigit c && ltb (digit_value c) base then rest else (result, c ∷ cs)

abbrev starts_xdigit : CString → Bool
starts_xdigit [] = false
starts_xdigit (c ∷ _) = is_xdigit c

-- behind a leading '0'
unfoldable pub after_zero : CString → ℕ → ℕ × CString
after_zero [] base = (if base == 0 then 8 else base, [])
after_zero (c ∷ cs) base =
    if c == b'x' && starts_xdigit cs then (16, cs) else (if base == 0 then 8 else base, c ∷ cs)

unfoldable pub prefix : CString → ℕ → ℕ × CString
prefix [] base = (base, [])
prefix (c ∷ cs) base = if c == b'0' then after_zero cs base else (base, c ∷ cs)

unfoldable pub simple_strtoul : CString → ℕ → Number
simple_strtoul cp base =
    let (b, rest) = prefix cp base in read_digits (if b == 0 then 10 else b) 0 rest
