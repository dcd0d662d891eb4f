-- ===== src/Flash/Erase.antt =====
-- `flash_sect_erase` of common/flash.c and `flash_sect_protect` of common/cmd_flash.c: whole sectors,
-- named by their first and their last address.
pub mod Aligned
pub mod Errors
use armboot.Prelude.{
  ℕ, zero, suc, ◌+◌, ◌-◌, Bool, true, false, ◌||◌, List, [], ◌∷◌, Option, none, some, ◌==◌, ltb,
  leb, if◌then◌else◌,
}
use armboot.Prelude.Int.{ℤ, pos, negsuc}
use armboot.Flash.{Sector, Bank, err_ok, flash_unknown, start_of, bank_end, sector_end}

-- `s_first` and `s_last`; `none` is -1.
pub record Selection : Type 0 where
  pub s_first : Option ℕ
  pub s_last : Option ℕ

module _ (addr_first addr_last : ℕ) where
  -- The body of the loop over the sectors, for a sector that ends at `end`.
  unfoldable pub select : ℕ → ℕ → Sector → Selection → Selection
  select sect end s sel = if ltb end addr_first || ltb addr_last s.start then sel else record {
    s_first = if addr_first == s.start then some sect else sel.s_first;
    s_last = if addr_last == end then some sect else sel.s_last;
  }

  unfoldable pub select_sectors : ℕ → ℕ → List Sector → Selection → Selection
  select_sectors b_end sect [] sel = sel
  select_sectors b_end sect (s ∷ rest) sel =
      select_sectors b_end (sect + 1) rest (select sect (sector_end b_end rest) s sel)

  unfoldable pub selection : Bank → Selection
  selection info =
      select_sectors (bank_end info) 0 info.sectors (record { s_first = none; s_last = none })

-- s_first>=0 && s_first<=s_last, with the two indices
unfoldable pub selected : Selection → Option (ℕ × ℕ)
selected sel = elim sel.s_first [
  | none ↦ none
  | some f ↦ elim sel.s_last [ none ↦ none | some l ↦ if leb f l then some (f, l) else none ]
]

-- info->protect[i] = p
unfoldable pub protect_at : ℕ → ℕ → List Sector → List Sector
protect_at p i [] = []
protect_at p zero (s ∷ rest) = record s { protect = p } ∷ rest
protect_at p (suc i) (s ∷ rest) = s ∷ protect_at p i rest

-- for (i=s_first; i<=s_last; ++i), by the rounds left
unfoldable pub protect_range : ℕ → ℕ → ℕ → List Sector → List Sector
protect_range p i zero sectors = sectors
protect_range p i (suc n) sectors = protect_range p (i + 1) n (protect_at p i sectors)

-- `protected` and the banks. An ERR_ALIGN is returned where nothing has been protected.
unfoldable pub protect_bank : ℕ → ℕ → ℕ → Bank → ℕ × Bank
protect_bank p addr_first addr_last info =
    if info.flash_id == flash_unknown
    then (0, info)
    else elim (selected (selection addr_first addr_last info)) [
      | none ↦ (0, info)
      | some r ↦ (
        r.1 - r.0 + 1,
        record info { sectors = protect_range p r.0 (r.1 - r.0 + 1) info.sectors },
      )
    ]

unfoldable pub protect_banks : ℕ → ℕ → ℕ → List Bank → ℕ × List Bank
protect_banks p addr_first addr_last [] = (0, [])
protect_banks p addr_first addr_last (info ∷ banks) =
    let (n, info') = protect_bank p addr_first addr_last info in
    let (k, banks') = protect_banks p addr_first addr_last banks in (n + k, info' ∷ banks')

unfoldable pub flash_sect_protect : ℕ → ℕ → ℕ → List Bank → ℤ × List Bank
flash_sect_protect p addr_first addr_last banks =
    let (protected, banks') = protect_banks p addr_first addr_last banks in
    (if protected == 0 then negsuc 4 else err_ok, banks')

-- The driver erases the sectors from one index to another, in the bank of an index.
module _ {S : Type 0} (flash_erase : ℕ → ℕ → ℕ → S → ℤ × S) where
  pub record Erasure : Type 0 where
    pub erased : ℕ
    pub rc : ℤ
    pub flash : S

  abbrev pub erase_selected : ℕ → Option (ℕ × ℕ) → Erasure → Erasure
  erase_selected bank none e = e
  erase_selected bank (some (f, l)) e = record {
    erased = e.erased + (l - f + 1);
    rc = (flash_erase bank f l e.flash).0;
    flash = (flash_erase bank f l e.flash).1;
  }

  unfoldable pub erase_bank : ℕ → ℕ → ℕ → Bank → Erasure → Erasure
  erase_bank addr_first addr_last bank info e =
      erase_selected bank (selected (selection addr_first addr_last info)) e

  abbrev pub is_error : ℤ → Bool
  is_error (pos zero) = false
  is_error (pos (suc n)) = true
  is_error (negsuc n) = true

  -- The loop over the banks, which ends at the first error.
  unfoldable pub erase_banks : ℕ → ℕ → ℕ → List Bank → Erasure → Erasure
  erase_banks addr_first addr_last bank [] e = e
  erase_banks addr_first addr_last bank (info ∷ banks) e =
      let skipped = erase_banks addr_first addr_last (bank + 1) banks e in
      let e' = erase_bank addr_first addr_last bank info e in
      let more = erase_banks addr_first addr_last (bank + 1) banks e' in
      if info.flash_id == flash_unknown then skipped else if is_error e'.rc then e' else more

  -- return erased ? erased : rc
  unfoldable pub flash_sect_erase : ℕ → ℕ → List Bank → S → ℤ × S
  flash_sect_erase addr_first addr_last banks flash =
      let e =
        erase_banks addr_first addr_last 0 banks
          (record { erased = 0; rc = err_ok; flash = flash }) in
      (if e.erased == 0 then e.rc else pos e.erased, e.flash)
