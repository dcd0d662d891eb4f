-- ===== src/Flash/Sectors.antt =====
-- A bank as it should be: its sectors lie in order, one behind the other, and fill it.
use armboot.Prelude.{ℕ, ◌+◌, ◌-◌, ◌^◌, ◌<◌, ◌≤◌, ◌≡◌, ◌≢◌, subst, ap, List, [], ◌∷◌, arith}
use armboot.Flash.{Sector, Bank, start_of, pred_ulong, bank_end, sector_end, flash_unknown}

-- The sectors start in order, all before `limit`.
abbrev pub Ascending : ℕ → List Sector → Type 0
Ascending limit [] = Unit {0}
Ascending limit (s ∷ []) = s.start < limit
Ascending limit (s ∷ t ∷ rest) = (s.start < t.start) × Ascending limit (t ∷ rest)

abbrev pub limit_of : Bank → ℕ
limit_of info = start_of info.sectors + info.size

pub record IsBank (info : Bank) : Type 0 where
  pub known : info.flash_id ≢ flash_unknown
  pub first : Sector
  pub others : List Sector
  pub sectors_are : info.sectors ≡ first ∷ others
  pub ascending : Ascending (limit_of info) info.sectors
  pub in_range : limit_of info ≤ 2 ^ 32

-- The last address of a sector, by the sectors behind it.
abbrev pub last_address : ℕ → List Sector → ℕ
last_address limit [] = limit - 1
last_address limit (t ∷ _) = t.start - 1

-- An address of the sector lies from `from` to `to`.
unfoldable pub Touched : ℕ → ℕ → Sector → ℕ → Type 0
Touched from to s last = (a : ℕ) × (s.start ≤ a) × (a ≤ last) × (from ≤ a) × (a ≤ to)

pub start_lt :
    (limit : ℕ) (s : Sector) (rest : List Sector) → Ascending limit (s ∷ rest) → s.start < limit
start_lt limit s [] h = h
start_lt limit s (t ∷ rest) h = let k = start_lt limit t rest h.1 in omega (arith, h.0, k)

pub start-le-last :
    (limit : ℕ) (s : Sector) (rest : List Sector)
    → Ascending limit (s ∷ rest)
    → s.start ≤ last_address limit rest
start-le-last limit s [] h = omega (arith, h)
start-le-last limit s (t ∷ rest) h = omega (arith, h.0)

pub behind :
    (limit : ℕ) (s : Sector) (rest : List Sector)
    → Ascending limit (s ∷ rest)
    → Ascending limit rest
behind limit s [] h = tt
behind limit s (t ∷ rest) h = h.1

pred_ulong_lem : (a : ℕ) → 0 < a → a ≤ 2 ^ 32 → pred_ulong a ≡ a - 1
pred_ulong_lem a h k = omega arith

pub sector_end-last :
    (limit b_end : ℕ) (s : Sector) (rest : List Sector)
    → Ascending limit (s ∷ rest)
    → limit ≤ 2 ^ 32
    → b_end ≡ limit - 1
    → sector_end b_end rest ≡ last_address limit rest
sector_end-last limit b_end s [] h k e = e
sector_end-last limit b_end s (t ∷ rest) h k e =
    let l = start_lt limit t rest h.1 in
    pred_ulong_lem t.start (omega (arith, h.0)) (omega (arith, l))

pub bank_end-limit : (info : Bank) → IsBank info → bank_end info ≡ limit_of info - 1
bank_end-limit info b =
    let r = b.in_range in
    let p : start_of info.sectors < limit_of info =
      let asc : Ascending (limit_of info) (b.first ∷ b.others) =
        subst (Ascending (limit_of info)) b.sectors_are b.ascending in
      let l = start_lt (limit_of info) b.first b.others asc in
      let s : start_of info.sectors ≡ b.first.start = ap start_of b.sectors_are in omega arith in
    omega arith
