-- ===== src/Flash/Erase/Errors.antt =====
-- What `flash_sect_erase` asks of the driver, and what it returns.
use armboot.Prelude.{
  ℕ, ◌+◌, ◌-◌, ◌≡◌, refl, ap, ◌∙◌, List, [], ◌∷◌, ◌++◌, arith, some, false, Bool-cases, inl, inr,
  ◌==◌, length,
}
use armboot.Prelude.Int.{ℤ, pos}
use armboot.Flash.{Sector, Bank, err_ok, flash_unknown}
use armboot.Flash.Sectors.{limit_of, IsBank, last_address}
use armboot.Flash.Erase.{
  selection, selected, Erasure, erase_selected, erase_bank, erase_banks, is_error, flash_sect_erase,
}
use armboot.Flash.Erase.Aligned.{selection-aligned, selected-range}

module _ {S : Type 0} (flash_erase : ℕ → ℕ → ℕ → S → ℤ × S) (addr_first addr_last : ℕ)
    (info : Bank) where
  erase_bank-selected :
      (f n : ℕ) (e : Erasure flash_erase)
      → selected (selection addr_first addr_last info) ≡ some (f, f + n)
      → erase_bank flash_erase addr_first addr_last 0 info e ≡ record {
        erased = e.erased + (f + n - f + 1);
        rc = (flash_erase 0 f (f + n) e.flash).0;
        flash = (flash_erase 0 f (f + n) e.flash).1;
      }
  unfolding erase_bank
  erase_bank-selected f n e chosen = ap (λ r. erase_selected flash_erase 0 r e) chosen

  erase_banks-one :
      (e : Erasure flash_erase)
      → (info.flash_id == flash_unknown) ≡ false
      → erase_banks flash_erase addr_first addr_last 0 (info ∷ []) e
        ≡ erase_bank flash_erase addr_first addr_last 0 info e
  unfolding erase_banks
  erase_banks-one e known =
      elim (Bool-cases
        (is_error flash_erase (erase_bank flash_erase addr_first addr_last 0 info e).rc)) [
          | inl failed ↦ rw (known, failed) refl
          | inr fine ↦ rw (known, fine) refl
        ]

-- `flash_sect_erase` on a board with one bank, whose sectors lie in order and fill it, below 2 ^ 32,
-- from the first address of a sector to the last address of the same or a later one: the driver is
-- called once, to erase exactly these sectors, and their number is returned, also where the driver
-- returns an error.
pub flash_sect_erase-aligned :
    {S : Type 0} (flash_erase : ℕ → ℕ → ℕ → S → ℤ × S) (flash : S) (info : Bank) (pre : List Sector)
    (s : Sector) (mid post : List Sector)
    → IsBank info
    → info.sectors ≡ pre ++ ((s ∷ mid) ++ post)
    → flash_sect_erase flash_erase s.start (last_address (limit_of info) post) (info ∷ []) flash
      ≡ (pos (length (s ∷ mid)), (flash_erase 0 (length pre) (length pre + length mid) flash).1)
unfolding flash_sect_erase
flash_sect_erase-aligned flash_erase flash info pre s mid post b parts =
    let known : (info.flash_id == flash_unknown) ≡ false = ground (arith, b.known) in
    let chosen =
      ap selected (selection-aligned info pre s mid post b parts)
      ∙ selected-range (length pre) (length mid) in
    let count : 0 + (length pre + length mid - length pre + 1) ≡ length (s ∷ mid) = omega arith in
    let a = last_address (limit_of info) post in
    let some_erased : (length (s ∷ mid) == 0) ≡ false = ground arith in
    let start : Erasure flash_erase = record { erased = 0; rc = err_ok; flash = flash } in
    rw
      (erase_banks-one flash_erase s.start a info start known
        ∙ erase_bank-selected flash_erase s.start a info (length pre) (length mid) start chosen)
      (rw count (rw some_erased refl))
