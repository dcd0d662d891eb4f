-- ===== src/Flash/Spec/Negative.antt =====
-- `abbrev_spec` of common/cmd_flash.c on sector numbers that do not fit in an int.
use armboot.Prelude.{
  ℕ, suc, ◌-◌, ◌%◌, ◌^◌, ◌≤◌, ◌≡◌, ◌≢◌, refl, ap, ◌∙◌, false, List, [], ◌∷◌, none, ◌==◌, ltb, arith,
  length,
}
use armboot.Prelude.Int.{negsuc}
use armboot.CString.Number.{AllDigits, number, decimal, simple_strtoul-decimal}
use armboot.Flash.{Bank, flash_unknown}
use armboot.Flash.Spec.Range.{cut_at-decimal}
use armboot.Flash.Spec.{
  to_int, cut_at, no_number, spec, last_of, first_of, sectors_of, bank_of, spec_of, abbrev_spec,
}

first_of-negative :
    (bank : ℕ) (fp : Bank) (d : ℕ) (ds : List ℕ)
    → AllDigits (d ∷ ds)
    → 2 ^ 31 ≤ number 0 (d ∷ ds) % 2 ^ 32
    → first_of bank fp (decimal (d ∷ ds) []) none
      ≡ spec bank
          (negsuc (2 ^ 32 - 1 - number 0 (d ∷ ds) % 2 ^ 32))
          (negsuc (2 ^ 32 - 1 - number 0 (d ∷ ds) % 2 ^ 32))
unfolding first_of last_of
first_of-negative bank fp d ds h big =
    let read = simple_strtoul-decimal d ds [] h tt in
    let n = number 0 (d ∷ ds) % 2 ^ 32 in
    let negative : to_int n ≡ negsuc (2 ^ 32 - 1 - n) = ground (arith, big) in
    let text : no_number (decimal (d ∷ ds) []) [] ≡ false = ground arith in
    rw read (rw (text, negative) refl)

-- `abbrev_spec` on "1:" and a number from 2 ^ 31 on, modulo 2 ^ 32: where the first bank is of a known
-- type, it is accepted as a negative sector.
pub abbrev_spec-negative :
    (fp : Bank) (others : List Bank) (d : ℕ) (ds : List ℕ)
    → fp.flash_id ≢ flash_unknown
    → AllDigits (d ∷ ds)
    → 2 ^ 31 ≤ number 0 (d ∷ ds) % 2 ^ 32
    → abbrev_spec (fp ∷ others) (b'1' ∷ b':' ∷ decimal (d ∷ ds) [])
      ≡ spec 0
          (negsuc (2 ^ 32 - 1 - number 0 (d ∷ ds) % 2 ^ 32))
          (negsuc (2 ^ 32 - 1 - number 0 (d ∷ ds) % 2 ^ 32))
unfolding abbrev_spec spec_of bank_of sectors_of cut_at
abbrev_spec-negative fp others d ds known h big =
    let known' : (fp.flash_id == flash_unknown) ≡ false = ground (arith, known) in
    let one = simple_strtoul-decimal 1 [] [] (omega arith) tt in
    let enough : ltb (suc (length others)) 1 ≡ false = ground arith in
    rw one (
      rw enough (
        rw known' (
          ap (sectors_of 0 fp (decimal (d ∷ ds) [])) (cut_at-decimal (d ∷ ds) h)
          ∙ first_of-negative 0 fp d ds h big)))
