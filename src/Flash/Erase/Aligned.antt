-- ===== src/Flash/Erase/Aligned.antt =====
-- The sectors that a range selects, where it starts and ends on their boundaries.
pub mod Inside
use armboot.Prelude.{
  ℕ, ◌+◌, ◌-◌, ◌^◌, ◌<◌, ◌≤◌, ◌≡◌, refl, sym, ap, subst, ◌∙◌, List, [], ◌∷◌, ◌++◌, append_assoc,
  map, arith, none, some, true, false, ◌==◌, ltb, if◌then◌else◌, length, length-append,
}
use armboot.Flash.{Sector, Bank, start_of, bank_end, sector_end, flash_unknown}
use armboot.Flash.Sectors.{
  Ascending, limit_of, IsBank, last_address, start-le-last, behind, sector_end-last, bank_end-limit,
}
use armboot.Flash.Erase.{
  Selection, select, select_sectors, selection, selected, protect_at, protect_range, protect_bank,
}
use armboot.Flash.Erase.Aligned.Inside.{skip_before, select_inner}

abbrev pub protected : ℕ → Sector → Sector
protected p s = record s { protect = p }

protect_at-append :
    (p i : ℕ) (pre : List Sector) (s : Sector) (rest : List Sector)
    → i ≡ length pre
    → protect_at p i (pre ++ s ∷ rest) ≡ pre ++ protected p s ∷ rest
unfolding protect_at
protect_at-append p i [] s rest h = ap (λ k. protect_at p k (s ∷ rest)) h
protect_at-append p i (x ∷ pre) s rest h =
    ap (λ k. protect_at p k (x ∷ (pre ++ s ∷ rest))) h
    ∙ ap (◌∷◌ x) (protect_at-append p (length pre) pre s rest refl)

protect_range-append :
    (p i : ℕ) (pre xs post : List Sector)
    → i ≡ length pre
    → protect_range p i (length xs) (pre ++ (xs ++ post)) ≡ pre ++ (map (protected p) xs ++ post)
unfolding protect_range
protect_range-append p i pre [] post h = refl
protect_range-append p i pre (x ∷ xs) post h =
    ap (protect_range p (i + 1) (length xs)) (
      protect_at-append p i pre x (xs ++ post) h
      ∙ sym (append_assoc pre (protected p x ∷ []) (xs ++ post)))
    ∙ protect_range-append p (i + 1) (pre ++ protected p x ∷ []) xs post
        (omega (arith, h, length-append pre (protected p x ∷ [])))
    ∙ append_assoc pre (protected p x ∷ []) (map (protected p) xs ++ post)

Ascending-append :
    (limit : ℕ) (xs ys : List Sector) → Ascending limit (xs ++ ys) → Ascending limit ys
Ascending-append limit [] ys h = h
Ascending-append limit (x ∷ xs) ys h = Ascending-append limit xs ys (behind limit x (xs ++ ys) h)

-- The selection of the sectors `s ∷ mid` of a bank, by their first and their last address.
pub selection-aligned :
    (info : Bank) (pre : List Sector) (s : Sector) (mid post : List Sector)
    → IsBank info
    → info.sectors ≡ pre ++ ((s ∷ mid) ++ post)
    → selection s.start (last_address (limit_of info) post) info
      ≡ record { s_first = some (length pre); s_last = some (length pre + length mid) }
unfolding selection
selection-aligned info pre s mid post b parts =
    let limit = limit_of info in
    let e = bank_end-limit info b in
    let asc : Ascending limit (pre ++ ((s ∷ mid) ++ post)) =
      subst (Ascending limit) parts b.ascending in
    let none_yet : Selection = record { s_first = none; s_last = none } in
    let a = last_address limit post in
    let here : (s.start == s.start) ≡ true = ground arith in
    let from_zero : 0 + length pre ≡ length pre = omega arith in
    ap (λ xs. select_sectors s.start a (bank_end info) 0 xs none_yet) parts
    ∙ skip_before limit (bank_end info) s.start a b.in_range e 0 pre s (mid ++ post) none_yet asc
        refl
    ∙ ap (λ k. select_sectors s.start a (bank_end info) k ((s ∷ mid) ++ post) none_yet) from_zero
    ∙ select_inner limit (bank_end info) s.start a b.in_range e (length pre) s mid post none_yet
        (Ascending-append limit pre ((s ∷ mid) ++ post) asc) (omega arith) refl
    ∙ rw here refl

pub selected-range :
    (f n : ℕ) → selected (record { s_first = some f; s_last = some (f + n) }) ≡ some (f, f + n)
unfolding selected
selected-range f n = ground arith

-- `flash_sect_protect` on a bank whose sectors lie in order and fill it, below 2 ^ 32, from the first
-- address of a sector to the last address of the same or a later one: these sectors get the
-- protection `p`, and no others; their number is counted.
pub protect_bank-aligned :
    (p : ℕ) (info : Bank) (pre : List Sector) (s : Sector) (mid post : List Sector)
    → IsBank info
    → info.sectors ≡ pre ++ ((s ∷ mid) ++ post)
    → protect_bank p s.start (last_address (limit_of info) post) info
      ≡ (length (s ∷ mid), record info { sectors = pre ++ (map (protected p) (s ∷ mid) ++ post) })
unfolding protect_bank
protect_bank-aligned p info pre s mid post b parts =
    let known : (info.flash_id == flash_unknown) ≡ false = ground (arith, b.known) in
    let chosen =
      ap selected (selection-aligned info pre s mid post b parts)
      ∙ selected-range (length pre) (length mid) in
    let count : length pre + length mid - length pre + 1 ≡ length (s ∷ mid) = omega arith in
    rw known (
      rw chosen (
        rw count (
          ap (λ xs. (length (s ∷ mid), record info { sectors = xs }))
            (ap (protect_range p (length pre) (length (s ∷ mid))) parts
              ∙ protect_range-append p (length pre) pre (s ∷ mid) post refl))))
