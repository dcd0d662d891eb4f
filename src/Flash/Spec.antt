-- ===== src/Flash/Spec.antt =====
-- `abbrev_spec` of common/cmd_flash.c: a range of sectors, written B:SF or B:SF-SL. The numbers are
-- `int`, cut out of an unsigned long.
pub mod Range
pub mod Negative
use armboot.Prelude.{
  ℕ, zero, suc, ◌+◌, ◌-◌, ◌^◌, Bool, true, false, not, ◌&&◌, ◌||◌, List, [], ◌∷◌, Option, none,
  some, ◌==◌, ltb, leb, if◌then◌else◌, length, get_elem?,
}
use armboot.Prelude.Int.{ℤ, pos, negsuc}
use armboot.CString.{CString, simple_strtoul}
use armboot.Flash.{Bank, flash_unknown}

-- An unsigned long as an int.
abbrev pub to_int : ℕ → ℤ
to_int n = if ltb n (2 ^ 31) then pos n else negsuc (2 ^ 32 - 1 - n)

abbrev pub lt_int : ℤ → ℤ → Bool
lt_int (pos a) (pos b) = ltb a b
lt_int (pos a) (negsuc b) = false
lt_int (negsuc a) (pos b) = true
lt_int (negsuc a) (negsuc b) = ltb b a

-- p = strchr(str, c), and *p++ = '\0' where it is found: the string in front and the one behind
unfoldable pub cut_at : ℕ → CString → Option (CString × CString)
cut_at c [] = none
cut_at c (s ∷ str) =
    let rest = cut_at c str in
    let later : Option (CString × CString) = elim rest [
      | none ↦ none
      | some r ↦ some (s ∷ r.0, r.1)
    ] in
    if s == c then some ([], str) else later

-- ep == str || *ep != '\0'
abbrev pub no_number : CString → CString → Bool
no_number str ep = length ep == length str || not (length ep == 0)

-- What is returned, with *pinfo, as an index, *psf and *psl.
pub data Spec : Type 0 where
  not_a_spec : Spec
  bad_spec : Spec
  spec : ℕ → ℤ → ℤ → Spec

-- The last sector; `str` is what stands behind the '-'.
unfoldable pub last_of : ℕ → Bank → ℤ → Option CString → Spec
last_of bank fp first none = spec bank first first
last_of bank fp first (some str) =
    let (n, ep) = simple_strtoul str 10 in
    if no_number str ep
      || lt_int (to_int n) first
      || not (lt_int (to_int n) (pos (length fp.sectors)))
    then bad_spec
    else spec bank first (to_int n)

unfoldable pub first_of : ℕ → Bank → CString → Option CString → Spec
first_of bank fp str behind =
    let (n, ep) = simple_strtoul str 10 in
    if no_number str ep || not (lt_int (to_int n) (pos (length fp.sectors)))
    then bad_spec
    else last_of bank fp (to_int n) behind

-- str = p, and the search for '-'
unfoldable pub sectors_of : ℕ → Bank → CString → Option (CString × CString) → Spec
sectors_of bank fp str none = first_of bank fp str none
sectors_of bank fp str (some (first, last)) = first_of bank fp first (some last)

-- fp = &flash_info[bank - 1]
unfoldable pub bank_of : ℕ → Option Bank → CString → Spec
bank_of bank none str = bad_spec
bank_of bank (some fp) str =
    if fp.flash_id == flash_unknown then bad_spec else sectors_of bank fp str (cut_at b'-' str)

unfoldable pub spec_of : List Bank → Option (CString × CString) → Spec
spec_of banks none = not_a_spec
spec_of banks (some (str, p)) =
    let (n, ep) = simple_strtoul str 10 in
    if no_number str ep || lt_int (to_int n) (pos 1) || lt_int (pos (length banks)) (to_int n)
    then bad_spec
    else bank_of (n - 1) (get_elem? banks (n - 1)) p

unfoldable pub abbrev_spec : List Bank → CString → Spec
abbrev_spec banks str = spec_of banks (cut_at b':' str)
