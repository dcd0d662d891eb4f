-- ===== src/Flash/Protect.antt =====
-- `flash_protect` of common/flash.c, sector by sector.
use armboot.Prelude.{
  ℕ, suc, ◌-◌, ◌^◌, ◌<◌, ◌≤◌, ◌≡◌, ◌⊎◌, inl, inr, refl, ap, subst, List, [], ◌∷◌, arith, false,
  ◌||◌, ◌==◌, ltb, leb, Bool-cases, length,
}
use armboot.Flash.{
  Sector, Bank, Flag, start_of, bank_end, sector_end, flash_unknown, flagged, protect_sectors,
  flash_protect,
}
use armboot.Flash.Sectors.{
  Ascending, limit_of, IsBank, last_address, Touched, start_lt, start-le-last, behind,
  sector_end-last, bank_end-limit,
}

-- A sector before and after.
pub Changed : Flag → ℕ → ℕ → ℕ → Sector → Sector → Type 0
Changed flag from to last s s' =
    (Touched from to s last × (s' ≡ flagged flag s)) ⊎ ((¬ Touched from to s last) × (s' ≡ s))

pub Updated : Flag → ℕ → ℕ → ℕ → List Sector → List Sector → Type 0
Updated flag from to limit [] [] = Unit {0}
Updated flag from to limit [] (_ ∷ _) = ⊥
Updated flag from to limit (_ ∷ _) [] = ⊥
Updated flag from to limit (s ∷ rest) (s' ∷ rest') =
    Changed flag from to (last_address limit rest) s s' × Updated flag from to limit rest rest'

touch :
    (from to last : ℕ) (s : Sector)
    → from ≤ to
    → s.start ≤ last
    → from ≤ last
    → s.start ≤ to
    → Touched from to s last
unfolding Touched
touch from to last s h k f t = elim (Bool-cases (leb from s.start)) [
  | inl below ↦ let b : from ≤ s.start = ground arith in (s.start, omega arith, k, b, t)
  | inr above ↦ let b : s.start < from = ground arith in (from, omega (arith, b), f, omega arith, h)
]

no_touch_before : (from to last : ℕ) (s : Sector) → last < from → ¬ Touched from to s last
unfolding Touched
no_touch_before from to last s h (a, l, u, f, t) = omega (arith, h, u, f)

no_touch_behind : (from to last : ℕ) (s : Sector) → to < s.start → ¬ Touched from to s last
unfolding Touched
no_touch_behind from to last s h (a, l, u, f, t) = omega (arith, h, l, t)

protect_sectors-Updated :
    (flag : Flag) (from to limit b_end : ℕ) (sectors : List Sector)
    → Ascending limit sectors
    → limit ≤ 2 ^ 32
    → b_end ≡ limit - 1
    → from ≤ to
    → Updated flag from to limit sectors (protect_sectors flag from to b_end sectors)
unfolding protect_sectors Updated Changed
protect_sectors-Updated flag from to limit b_end [] asc range e h = tt
protect_sectors-Updated flag from to limit b_end (s ∷ rest) asc range e h =
    let others =
      protect_sectors-Updated flag from to limit b_end rest (behind limit s rest asc) range e h in
    let last = last_address limit rest in
    let end : sector_end b_end rest ≡ last = sector_end-last limit b_end s rest asc range e in
    let order : s.start ≤ last = start-le-last limit s rest asc in
    elim (Bool-cases (leb from (sector_end b_end rest))) [
      | inl low ↦
          let f : from ≤ last =
            let g : from ≤ sector_end b_end rest = ground arith in rw end at g in
          elim (Bool-cases (leb s.start to)) [
            | inl high ↦
                let t : s.start ≤ to = ground arith in
                rw (low, high) (inl (touch from to last s h order f t, refl), others)
            | inr apart ↦
                let t : to < s.start = ground arith in
                rw (low, apart) (inr (no_touch_behind from to last s t, refl), others)
          ]
      | inr apart ↦
          let f : last < from =
            let g : sector_end b_end rest < from = ground arith in rw end at g in
          rw apart (inr (no_touch_before from to last s f, refl), others)
    ]

last_lt :
    (limit : ℕ) (s : Sector) (rest : List Sector)
    → Ascending limit (s ∷ rest)
    → last_address limit rest < limit
last_lt limit s [] h = omega (arith, h)
last_lt limit s (t ∷ rest) h = let l = start_lt limit t rest h.1 in omega (arith, l)

nothing_before :
    (flag : Flag) (from to limit : ℕ) (sectors : List Sector)
    → Ascending limit sectors
    → limit ≤ from
    → Updated flag from to limit sectors sectors
unfolding Updated Changed
nothing_before flag from to limit [] asc h = tt
nothing_before flag from to limit (s ∷ rest) asc h = (
  inr (no_touch_before from to _ s (let l = last_lt limit s rest asc in omega (arith, l, h)), refl),
  nothing_before flag from to limit rest (behind limit s rest asc) h,
)

nothing_behind :
    (flag : Flag) (from to limit : ℕ) (sectors : List Sector)
    → Ascending limit sectors
    → (k : ℕ) → to < k
    → k ≤ start_of sectors ⊎ (sectors ≡ [])
    → Updated flag from to limit sectors sectors
unfolding Updated Changed
nothing_behind flag from to limit [] asc k h b = tt
nothing_behind flag from to limit (s ∷ []) asc k h b =
    (inr (no_touch_behind from to _ s (start_at b), refl), tt)
  where
    start_at : k ≤ s.start ⊎ ((s ∷ []) ≡ []) → to < s.start
    start_at (inl l) = omega arith
    start_at (inr e) = cc
nothing_behind flag from to limit (s ∷ t ∷ rest) asc k h b = (
  inr (no_touch_behind from to _ s (start_at b), refl),
  nothing_behind flag from to limit (t ∷ rest) asc.1 k h (inl (let l = start_at b in after b)),
)
  where
    start_at : k ≤ s.start ⊎ ((s ∷ t ∷ rest) ≡ []) → to < s.start
    start_at (inl l) = omega arith
    start_at (inr e) = cc

    after : k ≤ s.start ⊎ ((s ∷ t ∷ rest) ≡ []) → k ≤ t.start
    after (inl l) = omega (arith, asc.0)
    after (inr e) = cc

-- `flash_protect` on a bank whose sectors lie in order and fill it, below 2 ^ 32, for a range that
-- does not end before it starts: a sector that shares an address with the range gets the protection
-- that the flag says, and every other sector stays as it is.
pub flash_protect-Updated :
    (flag : Flag) (from to : ℕ) (info : Bank)
    → IsBank info
    → from ≤ to
    → Updated flag from to (limit_of info) info.sectors (flash_protect flag from to info).sectors
unfolding flash_protect
flash_protect-Updated flag from to info b h =
    let end = bank_end-limit info b in
    let asc = b.ascending in
    let in_order : (length info.sectors == 0 || info.size == 0 || ltb to from) ≡ false = ready in
    let known : (info.flash_id == flash_unknown) ≡ false = ground (arith, b.known) in
    elim (Bool-cases (ltb to (start_of info.sectors))) [
      | inl below ↦
          rw (in_order, known, below)
            (nothing_behind flag from to (limit_of info) info.sectors asc (start_of info.sectors)
              (ground (arith, below)) (inl (omega arith)))
      | inr reaches ↦ elim (Bool-cases (ltb (bank_end info) from)) [
        | inl above ↦
            rw (in_order, known, reaches, above)
              (nothing_before flag from to (limit_of info) info.sectors asc
                (let l : bank_end info < from = ground arith in omega (arith, l, end)))
        | inr meets ↦
            rw (in_order, known, reaches, meets)
              (protect_sectors-Updated flag from to (limit_of info) (bank_end info) info.sectors asc
                b.in_range end h)
      ]
    ]
  where
    ready : (length info.sectors == 0 || info.size == 0 || ltb to from) ≡ false
    ready =
        let asc : Ascending (limit_of info) (b.first ∷ b.others) =
          subst (Ascending (limit_of info)) b.sectors_are b.ascending in
        let l = start_lt (limit_of info) b.first b.others asc in
        let s : start_of info.sectors ≡ b.first.start = ap start_of b.sectors_are in
        let some_sectors : length info.sectors ≡ suc (length b.others) = ap length b.sectors_are in
        ground (arith, l, s, some_sectors, h)
