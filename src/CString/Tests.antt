-- ===== src/CString/Tests.antt =====
-- Tests of the string functions, and the theorems at concrete strings.
use Prim.Native.Char.{code}
use Prim.Native.String.{String}
use armboot.Prelude.{false, true, inr, ◌≡◌, ◌↔◌, refl, [], ◌∷◌, some, arith, take}
use armboot.CString.{
  CString, strcmp, strncmp, strlen, strchr, strspn, strpbrk, is_among, simple_strtoul, prefix,
  after_zero, read_digits,
}
use armboot.CString.Laws.{strcmp_iff, strncmp_iff}
use armboot.CString.Print.{number, times, digits_onto, digit}
use armboot.CString.Print.Reread.{unsigned, simple_strtoul-number}
use armboot.CString.Number.{simple_strtoul-decimal}

-- The bytes of an ASCII literal.
abbrev codes : String → CString
codes String.[] = []
codes (String.◌∷◌ c s) = code c ∷ codes s

searches :
    (strchr (codes "k=v") b'=' ≡ some (codes "=v"))
    × (strspn (codes "aab") (codes "a") ≡ 2)
    × (strpbrk (codes "ab c") (codes " \t") ≡ some (codes " c"))
    × (strlen (codes "abc") ≡ 3)
unfolding strchr strspn strpbrk strlen is_among
searches = (refl, refl, refl, refl)

numbers :
    (simple_strtoul (codes "0x1F,") 0 ≡ (31, codes ","))
    × (simple_strtoul (codes "017") 0 ≡ (15, []))
    × (simple_strtoul (codes "00:a0") 16 ≡ (0, codes ":a0"))
    × (simple_strtoul (codes "x") 10 ≡ (0, codes "x"))
unfolding simple_strtoul prefix after_zero read_digits
numbers = (refl, refl, refl, refl)

different_names : (strcmp (codes "net") (codes "nep") ≡ 0) ↔ (codes "net" ≡ codes "nep")
different_names = strcmp_iff (codes "net") (codes "nep") (omega arith) (omega arith)

same_beginnings :
    (strncmp (codes "setenv") (codes "set") 3 ≡ 0)
    ↔ (take 3 (codes "setenv") ≡ take 3 (codes "set"))
same_beginnings = strncmp_iff (codes "setenv") (codes "set") 3 (omega arith) (omega arith)

number_then_rest : simple_strtoul (codes "0192.168") 10 ≡ (192, codes ".168")
number_then_rest =
    simple_strtoul-decimal 0 (1 ∷ 9 ∷ 2 ∷ []) (codes ".168") (omega arith) (refl, omega arith)

simple_strtoul-number_example :
    (s : CString) × (number 0xbeef 16 0 0 (unsigned false) ≡ some s)
    × (simple_strtoul s 16 ≡ (0xbeef, []))
simple_strtoul-number_example = simple_strtoul-number false 0xbeef 16 (inr refl) (omega arith)

-- "%+06d" and "%-#6x|" at small numbers
printed_sign :
    number 42 10 6 0 (record (unsigned false) { zeropad = true; sign = true; plus = true })
    ≡ some (codes "+00042")
unfolding number times digits_onto digit
printed_sign = refl

printed_left :
    number 42 16 6 0 (record (unsigned false) { left = true; special = true })
    ≡ some (codes "0x2a  ")
unfolding number times digits_onto digit
printed_left = refl
