-- ===== src/Flash/Tests.antt =====
-- A bank of three sectors at 0x1000, one at the top of memory, and the theorems at them.
use armboot.Prelude.{ℕ, some, ◌<◌, done, ◌+◌, ◌≡◌, ◌⊎◌, refl, true, false, List, [], ◌∷◌, arith}
use armboot.Prelude.Int.{ℤ, pos, negsuc}
use armboot.Flash.{Sector, Bank, Flag, err_protected, flash_protect}
use armboot.Flash.Sectors.{IsBank}
use armboot.Flash.Protect.{Updated, flash_protect-Updated}
use armboot.CString.{CString, simple_strtoul, prefix, after_zero, read_digits}
use armboot.Flash.Spec.{
  bad_spec, abbrev_spec, spec, spec_of, bank_of, sectors_of, first_of, last_of, cut_at,
}
use armboot.Flash.Spec.Range.{IsInt, IsRange, abbrev_spec-range_text}
use armboot.Flash.Spec.Negative.{abbrev_spec-negative}
use armboot.Flash.Write.{flash_write}
use armboot.Flash.Write.Guard.{flash_write-Guarded, flash_write-top}
use armboot.Flash.Write.Guard.Hits.{Guarded}
use armboot.Flash.Erase.{
  select, select_sectors, selection, selected, protect_at, protect_bank, protect_banks,
  flash_sect_protect, flash_sect_erase,
}
use armboot.Flash.Erase.Aligned.{protect_bank-aligned}
use armboot.Flash.Erase.Errors.{flash_sect_erase-aligned}
use armboot.Flash.Commands.{do_protect, word_on, word_off, word_all}
use armboot.Flash.Commands.Flerase.{do_flerase}
use armboot.Flash.Commands.Refused.{do_protect-unchanged}

abbrev sector : ℕ → ℕ → Sector
sector start protect = record { start = start; protect = protect }

abbrev bank : Bank
bank = record {
  size = 0x300;
  flash_id = 1;
  sectors = sector 0x1000 1 ∷ sector 0x1100 0 ∷ sector 0x1200 0 ∷ [];
}

bank-IsBank : IsBank bank
bank-IsBank = record {
  known = λ e. omega (arith, e);
  first = sector 0x1000 1;
  others = sector 0x1100 0 ∷ sector 0x1200 0 ∷ [];
  sectors_are = refl;
  ascending = omega arith;
  in_range = omega arith;
}

abbrev protecting : Flag
protecting = record { clear = false; set_it = true }

flash_protect-Updated_example :
    Updated protecting 0x10ff 0x1100 0x1300 bank.sectors
      (flash_protect protecting 0x10ff 0x1100 bank).sectors
flash_protect-Updated_example =
    flash_protect-Updated protecting 0x10ff 0x1100 bank bank-IsBank (omega arith)

aligned :
    protect_bank 1 0x1100 0x12ff bank
    ≡ (2, record bank { sectors = sector 0x1000 1 ∷ sector 0x1100 1 ∷ sector 0x1200 1 ∷ [] })
aligned =
    protect_bank-aligned 1 bank (sector 0x1000 1 ∷ []) (sector 0x1100 0) (sector 0x1200 0 ∷ []) []
      bank-IsBank refl

-- A driver that counts its calls and always fails with ERR_TIMOUT.
abbrev failing_erase : ℕ → ℕ → ℕ → ℕ → ℤ × ℕ
failing_erase _ first last calls = (negsuc 0, calls + 1)

flash_sect_erase-aligned_example :
    flash_sect_erase failing_erase 0x1100 0x12ff (bank ∷ []) 0 ≡ (pos 2, 1)
flash_sect_erase-aligned_example =
    flash_sect_erase-aligned failing_erase 0 bank (sector 0x1000 1 ∷ []) (sector 0x1100 0)
      (sector 0x1200 0 ∷ []) [] bank-IsBank refl

abbrev counting_write : ℕ → List ℕ → ℕ → ℕ → ℕ → ℤ × ℕ
counting_write _ src addr len calls = (pos 0, calls + 1)

flash_write-Guarded_example :
    (Guarded 0x1101 0x1102 0x1300 bank.sectors
      × (flash_write counting_write (bank ∷ []) (7 ∷ 8 ∷ []) 0x1101 2 0 ≡ (err_protected, 0)))
    ⊎ ((¬ Guarded 0x1101 0x1102 0x1300 bank.sectors)
        × (flash_write counting_write (bank ∷ []) (7 ∷ 8 ∷ []) 0x1101 2 0 ≡ (pos 0, 1)))
flash_write-Guarded_example =
    flash_write-Guarded counting_write (7 ∷ 8 ∷ []) 0 bank 0x1101 2 bank-IsBank (omega arith)
      (omega arith) (omega arith) (omega arith)

abbrev top_bank : Bank
top_bank = record {
  size = 0x200;
  flash_id = 1;
  sectors = sector 0xfffffe00 1 ∷ sector 0xffffff00 1 ∷ [];
}

top_bank-IsBank : IsBank top_bank
top_bank-IsBank = record {
  known = λ e. omega (arith, e);
  first = sector 0xfffffe00 1;
  others = sector 0xffffff00 1 ∷ [];
  sectors_are = refl;
  ascending = omega arith;
  in_range = omega arith;
}

top_written : flash_write counting_write (top_bank ∷ []) (7 ∷ []) 0xffffff80 1 0 ≡ (pos 0, 1)
top_written =
    flash_write-top counting_write (7 ∷ []) 0 top_bank (sector 0xfffffe00 1 ∷ [])
      (sector 0xffffff00 1) 0xffffff80 1 top_bank-IsBank refl refl (omega arith) (omega arith)
      (omega arith) (omega arith)

-- "1:1-2"
abbrev a_range : CString
a_range = b'1' ∷ b':' ∷ b'1' ∷ b'-' ∷ b'2' ∷ []

accepted : abbrev_spec (bank ∷ []) a_range ≡ spec 0 (pos 1) (pos 2)
unfolding abbrev_spec spec_of bank_of sectors_of first_of last_of cut_at simple_strtoul prefix
    after_zero read_digits
accepted = refl

-- The digits of a number that has one.
one_digit : (d : ℕ) → d < 10 → IsInt (d ∷ [])
one_digit d h = record { digits = (h, tt); some_digit = λ e. cc; small = omega (arith, h) }

abbrev_spec-range_text_example :
    (IsRange (bank ∷ []) 1 1 2 → abbrev_spec (bank ∷ []) a_range ≡ spec 0 (pos 1) (pos 2))
    × (¬ IsRange (bank ∷ []) 1 1 2 → abbrev_spec (bank ∷ []) a_range ≡ bad_spec)
abbrev_spec-range_text_example =
    abbrev_spec-range_text (bank ∷ []) (1 ∷ []) (1 ∷ []) (some (2 ∷ [])) (one_digit 1 (omega arith))
      (one_digit 1 (omega arith)) (one_digit 2 (omega arith))

-- "1:4294967295"
negative_index :
    abbrev_spec
      (bank ∷ [])
      (b'1' ∷ b':' ∷ b'4' ∷ b'2' ∷ b'9' ∷ b'4' ∷ b'9' ∷ b'6' ∷ b'7' ∷ b'2' ∷ b'9' ∷ b'5' ∷ [])
    ≡ spec 0 (negsuc 0) (negsuc 0)
negative_index =
    abbrev_spec-negative bank [] 4 (2 ∷ 9 ∷ 4 ∷ 9 ∷ 6 ∷ 7 ∷ 2 ∷ 9 ∷ 5 ∷ []) (λ e. omega (arith, e))
      (omega arith) (omega arith)

-- protect on 1000 1150
abbrev inside_a_sector : List CString
inside_a_sector =
    [] ∷ word_on ∷ (b'1' ∷ b'0' ∷ b'0' ∷ b'0' ∷ []) ∷ (b'1' ∷ b'1' ∷ b'5' ∷ b'0' ∷ []) ∷ []

refused : do_protect inside_a_sector (bank ∷ []) ≡ done (1, bank ∷ [])
unfolding do_protect abbrev_spec spec_of cut_at simple_strtoul prefix after_zero read_digits
    flash_sect_protect protect_banks protect_bank selected selection select_sectors select
refused = refl

do_protect-unchanged_example : bank ∷ [] ≡ bank ∷ []
do_protect-unchanged_example =
    do_protect-unchanged inside_a_sector (bank ∷ []) (bank ∷ []) 0 refused

-- protect off all
unprotected :
    do_protect ([] ∷ word_off ∷ word_all ∷ []) (top_bank ∷ [])
    ≡ done (0, record top_bank { sectors = sector 0xfffffe00 0 ∷ sector 0xffffff00 0 ∷ [] } ∷ [])
unfolding do_protect protect_at
unprotected = refl

-- erase all
erased_all :
    do_flerase {S = List (ℕ × ℤ × ℤ)}
      (λ i first last calls. (pos 0, (i, first, last) ∷ calls))
      ([] ∷ word_all ∷ [])
      (bank ∷ top_bank ∷ [])
      []
    ≡ (0, (1, pos 0, pos 1) ∷ (0, pos 0, pos 2) ∷ [])
unfolding do_flerase
erased_all = refl
