-- ===== src/Flash/Write/Guard.antt =====
-- `flash_write` of common/flash.c and protected sectors.
pub mod Hits
use armboot.Prelude.{
  ℕ, zero, suc, ◌+◌, ◌-◌, ◌%◌, ◌^◌, ◌<◌, ◌≤◌, ◌≡◌, ◌≢◌, ◌⊎◌, inl, inr, refl, ap, subst, ◌∙◌, List,
  [], ◌∷◌, ◌++◌, arith, some, Bool, true, false, not, ◌&&◌, ◌==◌, ltb, leb, Bool-cases,
  if◌then◌else◌,
}
use armboot.Prelude.Int.{ℤ, pos, negsuc}
use armboot.Flash.{
  Sector, Bank, err_ok, err_protected, flash_unknown, start_of, bank_end, add_ulong, pred_ulong,
}
use armboot.Flash.Sectors.{
  Ascending, limit_of, IsBank, last_address, Touched, start-le-last, behind, bank_end-limit,
}
use armboot.Flash.Erase.Aligned.Inside.{start_of-le}
use armboot.Flash.Write.{
  addr2info, next_start, hits, any_hits, is_error, write_banks, checked_write, flash_write,
}
use armboot.Flash.Write.Guard.Hits.{Guarded, hits-Guarded}

-- A range of addresses inside of a bank.
record Inside (info : Bank) (addr cnt : ℕ) : Type 0 where
  some_bytes : 0 < cnt
  starts : start_of info.sectors ≤ addr
  ends : addr + cnt ≤ limit_of info
  in_range : limit_of info ≤ 2 ^ 32
  no_wrap : 0 < addr ⊎ limit_of info < 2 ^ 32

room_is :
    (info : Bank) (addr cnt : ℕ)
    → Inside info addr cnt
    → (add_ulong (start_of info.sectors) info.size + (2 ^ 32 - addr)) % 2 ^ 32
      ≡ limit_of info - addr
room_is info addr cnt i = elim i.no_wrap [
  | inl positive ↦ omega (arith, positive, i.some_bytes, i.starts, i.ends, i.in_range)
  | inr below ↦ omega (arith, below, i.some_bytes, i.starts, i.ends, i.in_range)
]

end_is :
    (info : Bank) (addr cnt : ℕ)
    → Inside info addr cnt
    → pred_ulong (add_ulong addr cnt) ≡ addr + cnt - 1
end_is info addr cnt i = omega (arith, i.some_bytes, i.ends, i.in_range)

found :
    (info : Bank) (addr a : ℕ)
    → IsBank info
    → start_of info.sectors ≤ a
    → a < limit_of info
    → addr2info 0 (info ∷ []) a ≡ some 0
unfolding addr2info
found info addr a b h k =
    let e = bank_end-limit info b in
    let known : (info.flash_id == flash_unknown) ≡ false = ground (arith, b.known) in
    let low : leb (start_of info.sectors) a ≡ true = ground arith in
    let high : leb a (bank_end info) ≡ true = rw e (ground (arith, k)) in rw (known, low, high) refl

module _ {S : Type 0} (write_buff : ℕ → List ℕ → ℕ → ℕ → S → ℤ × S) (src : List ℕ) (flash : S)
    (info : Bank) (addr cnt : ℕ) (b : IsBank info) (i : Inside info addr cnt) where
  abbrev all_hits : Bool
  all_hits = hits addr (addr + cnt - 1) (add_ulong (start_of info.sectors) info.size) info.sectors

  write_one :
      write_banks write_buff 0 (info ∷ []) src addr cnt flash ≡ write_buff 0 src addr cnt flash
  unfolding write_banks
  write_one =
      let room = room_is info addr cnt i in
      let len : (if ltb cnt (limit_of info - addr) then cnt else limit_of info - addr) ≡ cnt =
        ground (arith, i.ends, i.starts) in
      let some_bytes : (cnt == 0) ≡ false = ground (arith, i.some_bytes) in
      rw (some_bytes, room, len) (result (write_buff 0 src addr cnt flash))
    where
      result : (r : ℤ × S) → (if is_error r.0 then (r.0, r.1) else (err_ok, r.1)) ≡ r
      result (pos zero, f) = refl
      result (pos (suc n), f) = refl
      result (negsuc n, f) = refl

  reaches :
      flash_write write_buff (info ∷ []) src addr cnt flash
      ≡ checked_write write_buff (info ∷ []) src addr cnt flash (addr + cnt - 1) (some 0) (some 0)
  unfolding flash_write
  reaches =
      let some_bytes : (cnt == 0) ≡ false = ground (arith, i.some_bytes) in
      let first = found info addr addr b i.starts (omega (arith, i.some_bytes, i.ends)) in
      let last =
        found info addr (addr + cnt - 1) b (omega (arith, i.some_bytes, i.starts))
          (omega (arith, i.some_bytes, i.ends)) in
      let go = checked_write write_buff (info ∷ []) src addr cnt flash in
      rw some_bytes (
        ap (λ e. go e (addr2info 0 (info ∷ []) addr) (addr2info 0 (info ∷ []) e))
          (end_is info addr cnt i)
        ∙ ap (λ o. go (addr + cnt - 1) o (addr2info 0 (info ∷ []) (addr + cnt - 1))) first
        ∙ ap (go (addr + cnt - 1) (some 0)) last)

  write_missed :
      all_hits ≡ false
      → flash_write write_buff (info ∷ []) src addr cnt flash ≡ write_buff 0 src addr cnt flash
  unfolding checked_write any_hits
  write_missed miss = reaches ∙ rw miss write_one

  write_hit :
      all_hits ≡ true
      → flash_write write_buff (info ∷ []) src addr cnt flash ≡ (err_protected, flash)
  unfolding checked_write any_hits
  write_hit hit = reaches ∙ rw hit refl

-- `flash_write` on a board with one bank, whose sectors lie in order and fill it, and which ends below
-- the last address 2 ^ 32 - 1, for one or more bytes inside of the bank: if a protected sector has an
-- address in the range, ERR_PROTECTED is returned and the driver is not called. If not, the driver is
-- called once for all the bytes, and what it returns is returned.
pub flash_write-Guarded :
    {S : Type 0} (write_buff : ℕ → List ℕ → ℕ → ℕ → S → ℤ × S) (src : List ℕ) (flash : S)
    (info : Bank) (addr cnt : ℕ)
    → IsBank info
    → limit_of info < 2 ^ 32
    → 0 < cnt
    → start_of info.sectors ≤ addr
    → addr + cnt ≤ limit_of info
    → (Guarded addr (addr + cnt - 1) (limit_of info) info.sectors
        × (flash_write write_buff (info ∷ []) src addr cnt flash ≡ (err_protected, flash)))
      ⊎ ((¬ Guarded addr (addr + cnt - 1) (limit_of info) info.sectors)
          × (flash_write write_buff (info ∷ []) src addr cnt flash
              ≡ write_buff 0 src addr cnt flash))
flash_write-Guarded write_buff src flash info addr cnt b below some_bytes starts ends =
    let i : Inside info addr cnt = record {
      some_bytes = some_bytes;
      starts = starts;
      ends = ends;
      in_range = b.in_range;
      no_wrap = inr below;
    } in
    let limit : add_ulong (start_of info.sectors) info.size ≡ limit_of info =
      omega (arith, below) in
    elim (hits-Guarded addr (addr + cnt - 1) (limit_of info) info.sectors
      (omega (arith, some_bytes)) b.ascending) [
        | inl hit ↦ inl (hit.1, write_hit write_buff src flash info addr cnt b i (rw limit hit.0))
        | inr miss ↦
            inr (miss.1, write_missed write_buff src flash info addr cnt b i (rw limit miss.0))
      ]

start-le-end :
    (limit : ℕ) (pre : List Sector) (x s : Sector)
    → Ascending limit (x ∷ (pre ++ s ∷ []))
    → next_start 0 (pre ++ s ∷ []) ≤ s.start
start-le-end limit [] x s asc = omega arith
start-le-end limit (y ∷ []) x s asc = omega (arith, asc.1.0)
start-le-end limit (y ∷ z ∷ pre) x s asc =
    let k = start-le-end limit (z ∷ pre) y s asc.1 in omega (arith, asc.1.0, k)

hits_top :
    (addr end limit : ℕ) (pre : List Sector) (s : Sector)
    → Ascending limit (pre ++ s ∷ [])
    → s.start ≤ addr
    → hits addr end 0 (pre ++ s ∷ []) ≡ false
unfolding hits
hits_top addr end limit [] s asc h = ground arith
hits_top addr end limit (x ∷ pre) s asc h =
    let k = start-le-end limit pre x s asc in
    let rest = hits_top addr end limit pre s (behind limit x (pre ++ s ∷ []) asc) h in
    let past : ltb addr (next_start 0 (pre ++ s ∷ [])) ≡ false = ground (arith, k, h) in
    rw past (rw rest (ground arith))

-- `flash_write` on a board with one bank, whose sectors lie in order and fill it up to the last address
-- 2 ^ 32 - 1, for one or more bytes in the last sector, which does not start at 0: the driver is
-- called, whether the sector is protected or not.
pub flash_write-top :
    {S : Type 0} (write_buff : ℕ → List ℕ → ℕ → ℕ → S → ℤ × S) (src : List ℕ) (flash : S)
    (info : Bank) (pre : List Sector) (s : Sector) (addr cnt : ℕ)
    → IsBank info
    → limit_of info ≡ 2 ^ 32
    → info.sectors ≡ pre ++ s ∷ []
    → 0 < cnt
    → 0 < addr
    → s.start ≤ addr
    → addr + cnt ≤ 2 ^ 32
    → flash_write write_buff (info ∷ []) src addr cnt flash ≡ write_buff 0 src addr cnt flash
flash_write-top write_buff src flash info pre s addr cnt b top parts some_bytes positive starts
      ends =
    let asc : Ascending (limit_of info) (pre ++ s ∷ []) =
      subst (Ascending (limit_of info)) parts b.ascending in
    let first = start_of-le (limit_of info) pre s [] asc in
    let at_start : start_of info.sectors ≡ start_of (pre ++ s ∷ []) = ap start_of parts in
    let i : Inside info addr cnt = record {
      some_bytes = some_bytes;
      starts = omega (arith, first, at_start, starts);
      ends = omega (arith, top, ends);
      in_range = b.in_range;
      no_wrap = inl positive;
    } in
    let zero_end : add_ulong (start_of info.sectors) info.size ≡ 0 = omega (arith, top) in
    let miss : hits addr (addr + cnt - 1) 0 info.sectors ≡ false =
      ap (hits addr (addr + cnt - 1) 0) parts
      ∙ hits_top addr (addr + cnt - 1) (limit_of info) pre s asc starts in
    write_missed write_buff src flash info addr cnt b i (rw zero_end miss)
