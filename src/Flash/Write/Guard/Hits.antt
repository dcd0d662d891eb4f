-- ===== src/Flash/Write/Guard/Hits.antt =====
-- The test of `flash_write` of common/flash.c for protected sectors.
use armboot.Prelude.{
  ℕ, ◌+◌, ◌<◌, ◌≤◌, ◌≡◌, ◌≢◌, ◌⊎◌, inl, inr, refl, List, [], ◌∷◌, arith, Bool, true, false, not,
  ◌&&◌, ◌==◌, ltb, leb, Bool-cases,
}
use armboot.Flash.{Sector}
use armboot.Flash.Sectors.{Ascending, last_address, Touched, start-le-last, behind}
use armboot.Flash.Write.{next_start, hits}

-- Some protected sector has an address from `addr` to `end`.
unfoldable pub Guarded : ℕ → ℕ → ℕ → List Sector → Type 0
Guarded addr end limit [] = ⊥
Guarded addr end limit (s ∷ rest) =
    ((s.protect ≢ 0) × Touched addr end s (last_address limit rest)) ⊎ Guarded addr end limit rest

next_start-last :
    (limit : ℕ) (s : Sector) (rest : List Sector)
    → Ascending limit (s ∷ rest)
    → next_start limit rest ≡ last_address limit rest + 1
next_start-last limit s [] h = omega (arith, h)
next_start-last limit s (t ∷ rest) h = omega (arith, h.0)

hit_here : (addr end limit : ℕ) (s : Sector) (rest : List Sector) → Bool
hit_here addr end limit s rest =
    leb s.start end && ltb addr (next_start limit rest) && not (s.protect == 0)

hit_here-Touched :
    (addr end limit : ℕ) (s : Sector) (rest : List Sector)
    → addr ≤ end
    → Ascending limit (s ∷ rest)
    → hit_here addr end limit s rest ≡ true
    → (s.protect ≢ 0) × Touched addr end s (last_address limit rest)
unfolding hit_here Touched
hit_here-Touched addr end limit s rest order asc h =
    let low : s.start ≤ end = ground arith in
    let high : addr < next_start limit rest = ground arith in
    let guarded : s.protect ≢ 0 = ground arith in
    let next = next_start-last limit s rest asc in
    let inside = start-le-last limit s rest asc in
    elim (Bool-cases (leb addr s.start)) [
      | inl below ↦
          let b : addr ≤ s.start = ground arith in (guarded, (s.start, omega arith, inside, b, low))
      | inr above ↦
          let b : s.start < addr = ground arith in
          (guarded, (addr, omega (arith, b), omega (arith, high, next), omega arith, order))
    ]

not_hit_here :
    (addr end limit : ℕ) (s : Sector) (rest : List Sector)
    → Ascending limit (s ∷ rest)
    → hit_here addr end limit s rest ≡ false
    → ¬ ((s.protect ≢ 0) × Touched addr end s (last_address limit rest))
unfolding hit_here Touched
not_hit_here addr end limit s rest asc h (guarded, (a, l, u, f, t)) =
    let next = next_start-last limit s rest asc in ground (arith, h, guarded, l, u, f, t, next)

pub hits-Guarded :
    (addr end limit : ℕ) (sectors : List Sector)
    → addr ≤ end
    → Ascending limit sectors
    → ((hits addr end limit sectors ≡ true) × Guarded addr end limit sectors)
      ⊎ ((hits addr end limit sectors ≡ false) × (¬ Guarded addr end limit sectors))
unfolding hits Guarded hit_here
hits-Guarded addr end limit [] order asc = inr (refl, λ g. g)
hits-Guarded addr end limit (s ∷ rest) order asc =
    elim (Bool-cases (hit_here addr end limit s rest)) [
      | inl hit ↦ inl (rw hit refl, inl (hit_here-Touched addr end limit s rest order asc hit))
      | inr miss ↦
          let here = not_hit_here addr end limit s rest asc miss in
          elim (hits-Guarded addr end limit rest order (behind limit s rest asc)) [
            | inl found ↦ inl (rw (miss, found.0) refl, inr found.1)
            | inr nothing ↦
                inr
                  (rw (miss, nothing.0) refl, λ g. elim g [ inl h ↦ here h | inr k ↦ nothing.1 k ])
          ]
    ]
