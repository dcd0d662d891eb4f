-- ===== src/Flash/Commands/Flerase.antt =====
-- `do_flerase` of common/cmd_flash.c. The driver takes `int` indices.
use armboot.Prelude.{
  ℕ, ◌+◌, ◌-◌, ◌||◌, List, [], ◌∷◌, Option, none, some, ltb, leb, if◌then◌else◌, length, get_elem?,
}
use armboot.Prelude.Int.{ℤ, pos, sub_ℕ, is_negative}
use armboot.CString.{CString, strcmp, simple_strtoul}
use armboot.Flash.{Bank}
use armboot.Flash.Erase.{flash_sect_erase}
use armboot.Flash.Spec.{Spec, not_a_spec, bad_spec, spec, abbrev_spec}
use armboot.Flash.Commands.{is_word, word_all, word_bank}

-- n < 0 ? 1 : 0, behind a call of the driver
abbrev pub erase_code : {S : Type 0} → ℤ × S → ℕ × S
erase_code (n, flash) = (if is_negative n then 1 else 0, flash)

module _ {S : Type 0} (flash_erase : ℕ → ℤ → ℤ → S → ℤ × S) where
  -- flash_erase (info, 0, info->sector_count-1)
  abbrev pub erase_whole : ℕ → Bank → S → ℤ × S
  erase_whole i info flash = flash_erase i (pos 0) (sub_ℕ (length info.sectors) 1) flash

  -- All banks, from the index `i` on: the first error ends the loop.
  unfoldable pub erase_all : ℕ → List Bank → S → ℕ × S
  erase_all i [] flash = (0, flash)
  erase_all i (info ∷ banks) flash =
      let (n, flash') = erase_whole i info flash in
      let more = erase_all (i + 1) banks flash' in if is_negative n then (1, flash') else more

  abbrev pub erase_numbered : ℕ → Option Bank → S → ℕ × S
  erase_numbered bank none flash = (1, flash)
  erase_numbered bank (some info) flash = erase_code (erase_whole (bank - 1) info flash)

  -- argc == 3
  abbrev pub erase_two : CString → CString → List Bank → S → ℕ × S
  erase_two first last banks flash =
      let bank = (simple_strtoul last 16).0 in
      let addr_first = (simple_strtoul first 16).0 in
      if is_word first word_bank
      then (if ltb bank 1 || ltb (length banks) bank
          then (1, flash)
          else erase_numbered bank (get_elem? banks (bank - 1)) flash)
      else if leb bank addr_first
      then (1, flash)
      else erase_code
          (flash_sect_erase (λ i f l. flash_erase i (pos f) (pos l)) addr_first bank banks flash)

  abbrev pub erase_rest : CString → List CString → List Bank → S → ℕ × S
  erase_rest first (last ∷ []) banks flash = erase_two first last banks flash
  erase_rest first _ banks flash = (1, flash)

  abbrev pub erase_spec : Spec → CString → List CString → List Bank → S → ℕ × S
  erase_spec bad_spec first rest banks flash = (1, flash)
  erase_spec (spec bank f l) first rest banks flash = erase_code (flash_erase bank f l flash)
  erase_spec not_a_spec first rest banks flash = erase_rest first rest banks flash

  unfoldable pub do_flerase : List CString → List Bank → S → ℕ × S
  unfolding erase_all flash_sect_erase abbrev_spec strcmp simple_strtoul
  do_flerase (_ ∷ first ∷ rest) banks flash =
      if is_word first word_all
      then erase_all 0 banks flash
      else erase_spec (abbrev_spec banks first) first rest banks flash
  do_flerase _ banks flash = (1, flash)
