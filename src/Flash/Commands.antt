-- ===== src/Flash/Commands.antt =====
-- `do_protect` and `do_flerase` of common/cmd_flash.c. The usage and the other messages are not
-- modelled; `argv` is the list of the arguments, the command's name in front.
pub mod Flerase
pub mod Refused
use armboot.Prelude.{
  ℕ, zero, suc, ◌+◌, ◌-◌, Bool, true, false, not, ◌||◌, List, [], ◌∷◌, Option, none, some, ◌==◌,
  ltb, leb, if◌then◌else◌, length, get_elem?, Exec, done, fault,
}
use armboot.Prelude.Int.{ℤ, pos, negsuc, sub_ℕ, is_negative}
use armboot.CString.{CString, strcmp, simple_strtoul}
use armboot.Flash.{Sector, Bank, err_ok, flash_unknown}
use armboot.Flash.Erase.{protect_range, flash_sect_protect, flash_sect_erase}
use armboot.Flash.Spec.{Spec, not_a_spec, bad_spec, spec, lt_int, abbrev_spec}

abbrev pub word_on : CString
word_on = b'o' ∷ b'n' ∷ []

abbrev pub word_off : CString
word_off = b'o' ∷ b'f' ∷ b'f' ∷ []

abbrev pub word_all : CString
word_all = b'a' ∷ b'l' ∷ b'l' ∷ []

abbrev pub word_bank : CString
word_bank = b'b' ∷ b'a' ∷ b'n' ∷ b'k' ∷ []

abbrev pub is_word : CString → CString → Bool
is_word arg word = strcmp arg word == 0

-- for (i=0; i<info->sector_count; ++i) info->protect[i] = p
abbrev pub protect_all : ℕ → Bank → Bank
protect_all p info = record info { sectors = protect_range p 0 (length info.sectors) info.sectors }

unfoldable pub protect_known : ℕ → List Bank → List Bank
unfolding protect_range
protect_known p [] = []
protect_known p (info ∷ banks) =
    (if info.flash_id == flash_unknown then info else protect_all p info) ∷ protect_known p banks

unfoldable pub on_bank : ℕ → (Bank → Bank) → List Bank → List Bank
on_bank i f [] = []
on_bank zero f (info ∷ banks) = f info ∷ banks
on_bank (suc i) f (info ∷ banks) = info ∷ on_bank i f banks

-- The result and the banks.
abbrev pub Protected : Type 0
Protected = ℕ × List Bank

-- for (i = sect_first; i <= sect_last; i++) info->protect[i] = p: a negative index is in front of
-- the array.
abbrev pub protect_between : ℕ → ℕ → ℤ → ℤ → List Bank → Exec Protected
protect_between p bank (pos first) (pos last) banks = done (
  0,
  on_bank bank
      (λ info. record info { sectors = protect_range p first (last + 1 - first) info.sectors })
      banks,
)
protect_between p bank (pos first) (negsuc last) banks = done (0, banks)
protect_between p bank (negsuc first) last banks =
    if lt_int last (negsuc first) then done (0, banks) else fault

-- `bank` is a number from 1 on.
abbrev pub protect_numbered : ℕ → ℕ → Option Bank → List Bank → Exec Protected
protect_numbered p bank none banks = done (1, banks)
protect_numbered p bank (some info) banks =
    if info.flash_id == flash_unknown
    then done (1, banks)
    else done (0, on_bank (bank - 1) (protect_all p) banks)

abbrev pub is_ok : ℤ → Bool
is_ok (pos zero) = true
is_ok (pos (suc n)) = false
is_ok (negsuc n) = false

-- flash_sect_protect (...) ? 1 : 0
abbrev pub code_of : ℤ × List Bank → Protected
code_of (rc, banks) = (if is_ok rc then 0 else 1, banks)

-- argc == 4
abbrev pub protect_two : ℕ → CString → CString → List Bank → Exec Protected
protect_two p first last banks =
    let bank = (simple_strtoul last 16).0 in
    let addr_first = (simple_strtoul first 16).0 in
    if is_word first word_bank
    then (if ltb bank 1 || ltb (length banks) bank
        then done (1, banks)
        else protect_numbered p bank (get_elem? banks (bank - 1)) banks)
    else if leb bank addr_first
    then done (1, banks)
    else done (code_of (flash_sect_protect p addr_first bank banks))

abbrev pub protect_rest : ℕ → CString → List CString → List Bank → Exec Protected
protect_rest p first (last ∷ []) banks = protect_two p first last banks
protect_rest p first _ banks = done (1, banks)

abbrev pub protect_spec : ℕ → Spec → CString → List CString → List Bank → Exec Protected
protect_spec p bad_spec first rest banks = done (1, banks)
protect_spec p (spec bank f l) first rest banks = protect_between p bank f l banks
protect_spec p not_a_spec first rest banks = protect_rest p first rest banks

abbrev pub protect_words : ℕ → CString → List CString → List Bank → Exec Protected
protect_words p first rest banks =
    if is_word first word_all
    then done (0, protect_known p banks)
    else protect_spec p (abbrev_spec banks first) first rest banks

unfoldable pub do_protect : List CString → List Bank → Exec Protected
unfolding protect_known on_bank protect_range flash_sect_protect abbrev_spec strcmp simple_strtoul
do_protect (_ ∷ mode ∷ first ∷ rest) banks =
    if is_word mode word_off
    then protect_words 0 first rest banks
    else if is_word mode word_on
    then protect_words 1 first rest banks
    else done (1, banks)
do_protect _ banks = done (1, banks)
