-- ===== src/Flash/Erase/Aligned/Inside.antt =====
-- The selection of sectors in `flash_sect_erase` of common/flash.c, sector by sector.
use armboot.Prelude.{
  ℕ, ◌+◌, ◌-◌, ◌^◌, ◌<◌, ◌≤◌, ◌≡◌, refl, ap, ◌∙◌, List, [], ◌∷◌, ◌++◌, arith, some, true, false,
  ◌==◌, ltb, if◌then◌else◌, length,
}
use armboot.Flash.{Sector, start_of, sector_end}
use armboot.Flash.Sectors.{Ascending, last_address, start-le-last, behind, sector_end-last}
use armboot.Flash.Erase.{Selection, select, select_sectors}

pub start_of-le :
    (limit : ℕ) (xs : List Sector) (s : Sector) (more : List Sector)
    → Ascending limit (xs ++ s ∷ more)
    → start_of (xs ++ s ∷ more) ≤ s.start
start_of-le limit [] s more h = omega arith
start_of-le limit (x ∷ []) s more h = omega (arith, h.0)
start_of-le limit (x ∷ y ∷ xs) s more h =
    let k = start_of-le limit (y ∷ xs) s more h.1 in omega (arith, h.0, k)

last_before :
    (limit : ℕ) (x : Sector) (xs : List Sector) (s : Sector) (more : List Sector)
    → Ascending limit (x ∷ (xs ++ s ∷ more))
    → last_address limit (xs ++ s ∷ more) < s.start
last_before limit x [] s more h = omega (arith, h.0)
last_before limit x (y ∷ xs) s more h =
    let k = start_of-le limit (y ∷ xs) s more h.1 in omega (arith, h.0, k)

inner_last :
    (limit : ℕ) (s : Sector) (mid post : List Sector)
    → Ascending limit ((s ∷ mid) ++ post)
    → s.start ≤ last_address limit post
inner_last limit s [] post asc = start-le-last limit s post asc
inner_last limit s (t ∷ mid) post asc =
    let k = inner_last limit t mid post asc.1 in omega (arith, asc.0, k)

Below : ℕ → List Sector → Type 0
Below a [] = Unit {0}
Below a (x ∷ _) = a < x.start

next-Below :
    (limit a : ℕ) (x : Sector) (xs : List Sector)
    → Ascending limit (x ∷ xs)
    → a < x.start
    → Below a xs
unfolding Below
next-Below limit a x [] asc h = tt
next-Below limit a x (y ∷ xs) asc h = omega (arith, asc.0, h)

last-Below :
    (limit a : ℕ) (x : Sector) (xs : List Sector)
    → Ascending limit (x ∷ xs)
    → a ≡ last_address limit xs
    → Below a xs
unfolding Below
last-Below limit a x [] asc h = tt
last-Below limit a x (y ∷ xs) asc h = omega (arith, asc.0, h)

module _ (limit b_end addr_first addr_last : ℕ) (in_range : limit ≤ 2 ^ 32)
    (e : b_end ≡ limit - 1) where
  select-before :
      (sect end : ℕ) (s : Sector) (sel : Selection)
      → end < addr_first
      → select addr_first addr_last sect end s sel ≡ sel
  unfolding select
  select-before sect end s sel h = ground (arith, h)

  select-behind :
      (sect end : ℕ) (s : Sector) (sel : Selection)
      → addr_last < s.start
      → select addr_first addr_last sect end s sel ≡ sel
  unfolding select
  select-behind sect end s sel h = ground (arith, h)

  select-inside :
      (sect end : ℕ) (s : Sector) (sel : Selection)
      → addr_first ≤ end
      → s.start ≤ addr_last
      → select addr_first addr_last sect end s sel ≡ record {
        s_first = if addr_first == s.start then some sect else sel.s_first;
        s_last = if addr_last == end then some sect else sel.s_last;
      }
  unfolding select
  select-inside sect end s sel h k =
      let f : ltb end addr_first ≡ false = ground (arith, h) in
      let l : ltb addr_last s.start ≡ false = ground (arith, k) in rw (f, l) refl

  pub skip_before :
      (sect : ℕ) (xs : List Sector) (s : Sector) (more : List Sector) (sel : Selection)
      → Ascending limit (xs ++ s ∷ more)
      → addr_first ≡ s.start
      → select_sectors addr_first addr_last b_end sect (xs ++ s ∷ more) sel
        ≡ select_sectors addr_first addr_last b_end (sect + length xs) (s ∷ more) sel
  unfolding select_sectors
  skip_before sect [] s more sel asc first =
      ap (λ k. select_sectors addr_first addr_last b_end k (s ∷ more) sel) (omega arith)
  skip_before sect (x ∷ xs) s more sel asc first =
      let end = sector_end-last limit b_end x (xs ++ s ∷ more) asc in_range e in
      let low = last_before limit x xs s more asc in
      ap (select_sectors addr_first addr_last b_end (sect + 1) (xs ++ s ∷ more)) (
        select-before sect (sector_end b_end (xs ++ s ∷ more)) x sel
          (omega (arith, low, first, end)))
      ∙ skip_before (sect + 1) xs s more sel (behind limit x (xs ++ s ∷ more) asc) first
      ∙ ap (λ k. select_sectors addr_first addr_last b_end k (s ∷ more) sel) (omega arith)

  skip_behind :
      (sect : ℕ) (xs : List Sector) (sel : Selection)
      → Ascending limit xs
      → Below addr_last xs
      → select_sectors addr_first addr_last b_end sect xs sel ≡ sel
  unfolding select_sectors Below
  skip_behind sect [] sel asc below = refl
  skip_behind sect (x ∷ xs) sel asc below =
      ap (select_sectors addr_first addr_last b_end (sect + 1) xs)
        (select-behind sect (sector_end b_end xs) x sel below)
      ∙ skip_behind (sect + 1) xs sel (behind limit x xs asc)
          (next-Below limit addr_last x xs asc below)

  pub select_inner :
      (sect : ℕ) (s : Sector) (mid post : List Sector) (sel : Selection)
      → Ascending limit ((s ∷ mid) ++ post)
      → addr_first ≤ s.start
      → addr_last ≡ last_address limit post
      → select_sectors addr_first addr_last b_end sect ((s ∷ mid) ++ post) sel ≡ record {
        s_first = if addr_first == s.start then some sect else sel.s_first;
        s_last = some (sect + length mid);
      }
  unfolding select_sectors
  select_inner sect s [] post sel asc first last =
      let end = sector_end-last limit b_end s post asc in_range e in
      let order = start-le-last limit s post asc in
      let at_end : (addr_last == sector_end b_end post) ≡ true = ground (arith, last, end) in
      ap (select_sectors addr_first addr_last b_end (sect + 1) post) (
        select-inside sect (sector_end b_end post) s sel (omega (arith, end, order))
          (omega (arith, last, order)))
      ∙ skip_behind (sect + 1) post _ (behind limit s post asc)
          (last-Below limit addr_last s post asc last)
      ∙ rw at_end (
          ap
            (λ k. record {
              s_first = if addr_first == s.start then some sect else sel.s_first;
              s_last = some k;
            })
            (omega arith))
  select_inner sect s (t ∷ mid) post sel asc first last =
      let end = sector_end-last limit b_end s ((t ∷ mid) ++ post) asc in_range e in
      let later = inner_last limit t mid post asc.1 in
      let not_end : (addr_last == sector_end b_end ((t ∷ mid) ++ post)) ≡ false =
        ground (arith, last, end, later, asc.0) in
      let not_first : (addr_first == t.start) ≡ false = ground (arith, first, asc.0) in
      ap (select_sectors addr_first addr_last b_end (sect + 1) ((t ∷ mid) ++ post)) (
        select-inside sect (sector_end b_end ((t ∷ mid) ++ post)) s sel
          (omega (arith, end, asc.0, first)) (omega (arith, last, later, asc.0)))
      ∙ select_inner (sect + 1) t mid post _ asc.1 (omega (arith, first, asc.0)) last
      ∙ rw not_first (
          ap
            (λ k. record {
              s_first = if addr_first == s.start then some sect else sel.s_first;
              s_last = some k;
            })
            (omega arith))
