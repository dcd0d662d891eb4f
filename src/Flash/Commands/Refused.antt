-- ===== src/Flash/Commands/Refused.antt =====
-- `do_protect` of common/cmd_flash.c where it fails.
use armboot.Prelude.{
  ℕ, zero, suc, ◌-◌, ◌≡◌, refl, subst, Bool, true, false, ◌||◌, List, [], ◌∷◌, Option, none, some,
  arith, ◌==◌, ltb, leb, ==_iff, Bool-cases, inl, inr, if◌then◌else◌, length, get_elem?, Exec, done,
  fault,
}
use armboot.Prelude.Int.{ℤ, pos, negsuc}
use armboot.CString.{CString, simple_strtoul}
use armboot.Flash.{Bank, flash_unknown}
use armboot.Flash.Erase.{protect_bank, protect_banks, flash_sect_protect}
use armboot.Flash.Spec.{Spec, not_a_spec, bad_spec, spec, lt_int, abbrev_spec}
use armboot.Flash.Commands.{
  Protected, protect_between, protect_numbered, code_of, protect_two, protect_spec, protect_words,
  is_word, word_all, word_bank, word_on, word_off, do_protect,
}

protect_bank_none :
    (p first last : ℕ) (info : Bank)
    → (protect_bank p first last info).0 ≡ 0
    → (protect_bank p first last info).1 ≡ info
unfolding protect_bank
protect_bank_none p first last info h = ground arith

protect_banks_none :
    (p first last : ℕ) (banks : List Bank)
    → (protect_banks p first last banks).0 ≡ 0
    → (protect_banks p first last banks).1 ≡ banks
unfolding protect_banks
protect_banks_none p first last [] h = refl
protect_banks_none p first last (info ∷ banks) h =
    let here = protect_bank_none p first last info (omega (arith, h)) in
    let there = protect_banks_none p first last banks (omega (arith, h)) in rw (here, there) refl

-- A run that fails leaves the banks alone.
abbrev FailsClean : List Bank → Exec Protected → Type 0
FailsClean banks (done (zero, after)) = Unit {0}
FailsClean banks (done (suc n, after)) = after ≡ banks
FailsClean banks fault = Unit {0}
FailsClean banks Exec.blocked = Unit {0}

code_of-FailsClean :
    (p first last : ℕ) (banks : List Bank)
    → FailsClean banks (done (code_of (flash_sect_protect p first last banks)))
unfolding flash_sect_protect
code_of-FailsClean p first last banks =
    elim (Bool-cases ((protect_banks p first last banks).0 == 0)) [
      | inl e ↦ rw e (protect_banks_none p first last banks ((==_iff _ 0).0 e))
      | inr e ↦ rw e tt
    ]

if-FailsClean :
    (b : Bool) (banks : List Bank) (x y : Exec Protected)
    → FailsClean banks x
    → FailsClean banks y
    → FailsClean banks (if b then x else y)
if-FailsClean true banks x y h k = h
if-FailsClean false banks x y h k = k

protect_numbered-FailsClean :
    (p bank : ℕ) (o : Option Bank) (banks : List Bank)
    → FailsClean banks (protect_numbered p bank o banks)
protect_numbered-FailsClean p bank none banks = refl
protect_numbered-FailsClean p bank (some info) banks =
    if-FailsClean (info.flash_id == flash_unknown) banks _ _ refl tt

protect_two-FailsClean :
    (p : ℕ) (first last : CString) (banks : List Bank)
    → FailsClean banks (protect_two p first last banks)
protect_two-FailsClean p first last banks =
    let bank = (simple_strtoul last 16).0 in
    let addr_first = (simple_strtoul first 16).0 in
    if-FailsClean (is_word first word_bank) banks _ _
      (if-FailsClean (ltb bank 1 || ltb (length banks) bank) banks _ _ refl
        (protect_numbered-FailsClean p bank (get_elem? banks (bank - 1)) banks))
      (if-FailsClean (leb bank addr_first) banks _ _ refl
        (code_of-FailsClean p addr_first bank banks))

protect_between-FailsClean :
    (p bank : ℕ) (first last : ℤ) (banks : List Bank)
    → FailsClean banks (protect_between p bank first last banks)
protect_between-FailsClean p bank (pos first) (pos last) banks = tt
protect_between-FailsClean p bank (pos first) (negsuc last) banks = tt
protect_between-FailsClean p bank (negsuc first) last banks =
    if-FailsClean (lt_int last (negsuc first)) banks _ _ tt tt

protect_spec-FailsClean :
    (p : ℕ) (s : Spec) (first : CString) (rest : List CString) (banks : List Bank)
    → FailsClean banks (protect_spec p s first rest banks)
protect_spec-FailsClean p bad_spec first rest banks = refl
protect_spec-FailsClean p (spec bank f l) first rest banks =
    protect_between-FailsClean p bank f l banks
protect_spec-FailsClean p not_a_spec first [] banks = refl
protect_spec-FailsClean p not_a_spec first (last ∷ []) banks =
    protect_two-FailsClean p first last banks
protect_spec-FailsClean p not_a_spec first (last ∷ more ∷ rest) banks = refl

protect_words-FailsClean :
    (p : ℕ) (first : CString) (rest : List CString) (banks : List Bank)
    → FailsClean banks (protect_words p first rest banks)
protect_words-FailsClean p first rest banks =
    if-FailsClean (is_word first word_all) banks _ _ tt
      (protect_spec-FailsClean p (abbrev_spec banks first) first rest banks)

do_protect-FailsClean :
    (argv : List CString) (banks : List Bank) → FailsClean banks (do_protect argv banks)
unfolding do_protect
do_protect-FailsClean [] banks = refl
do_protect-FailsClean (_ ∷ []) banks = refl
do_protect-FailsClean (_ ∷ _ ∷ []) banks = refl
do_protect-FailsClean (_ ∷ mode ∷ first ∷ rest) banks =
    if-FailsClean (is_word mode word_off) banks _ _ (protect_words-FailsClean 0 first rest banks) (
      if-FailsClean (is_word mode word_on) banks _ _ (protect_words-FailsClean 1 first rest banks)
        refl)

-- Whatever the arguments and the banks are: if `do_protect` returns an error, for a usage that it
-- does not know, a bad specification, a bank that is missing or unknown, or addresses that are no
-- sector limits in any bank, then the protection of every sector is as it was before.
pub do_protect-unchanged :
    (argv : List CString) (banks after : List Bank) (n : ℕ)
    → do_protect argv banks ≡ done (suc n, after)
    → after ≡ banks
do_protect-unchanged argv banks after n e =
    subst (FailsClean banks) e (do_protect-FailsClean argv banks)
