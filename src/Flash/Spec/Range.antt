-- ===== src/Flash/Spec/Range.antt =====
-- `abbrev_spec` of common/cmd_flash.c on what is meant to be written: decimal numbers of a bank and
-- of its sectors.
use armboot.Prelude.{
  ℕ, zero, suc, ◌+◌, ◌-◌, ◌^◌, ◌<◌, ◌≤◌, ◌≡◌, ◌≢◌, ◌∙◌, ap, sym, subst, ==_iff, refl, inl, inr, ◌⊎◌,
  false, not, ◌&&◌, ◌||◌, List, [], ◌∷◌, Option, none, some, ◌==◌, ltb, arith, Bool-cases,
  if◌then◌else◌, length, get_elem?,
}
use armboot.Prelude.Int.{pos}
use armboot.CString.{CString, simple_strtoul}
use armboot.CString.Number.{AllDigits, number, decimal, simple_strtoul-decimal}
use armboot.Flash.{Bank, flash_unknown}
use armboot.Flash.Spec.{
  to_int, lt_int, cut_at, no_number, Spec, bad_spec, spec, last_of, first_of, sectors_of, bank_of,
  spec_of, abbrev_spec,
}

-- Decimal digits, one at least, of a number that is an int.
pub record IsInt (ds : List ℕ) : Type 0 where
  pub digits : AllDigits ds
  pub some_digit : ds ≢ []
  pub small : number 0 ds < 2 ^ 31

abbrev pub AreInts : Option (List ℕ) → Type 0
AreInts none = Unit {0}
AreInts (some ls) = IsInt ls

-- F or F-L, and B:F or B:F-L
abbrev pub sectors_text : List ℕ → Option (List ℕ) → CString
sectors_text fs none = decimal fs []
sectors_text fs (some ls) = decimal fs (b'-' ∷ decimal ls [])

abbrev pub range_text : List ℕ → List ℕ → Option (List ℕ) → CString
range_text bs fs last = decimal bs (b':' ∷ sectors_text fs last)

-- Without L, the first sector is the last one.
abbrev pub last_number : List ℕ → Option (List ℕ) → ℕ
last_number fs none = number 0 fs
last_number fs (some ls) = number 0 ls

-- There is a bank of this number, counted from 1, of a known type, and it has these sectors, in order.
pub record IsRange (banks : List Bank) (bank first last : ℕ) : Type 0 where
  pub fp : Bank
  pub positive : 0 < bank
  pub there : get_elem? banks (bank - 1) ≡ some fp
  pub known : fp.flash_id ≢ flash_unknown
  pub order : first ≤ last
  pub inside : last < length fp.sectors

-- A number as it is read, with nothing behind it.
strtoul-IsInt : (ds : List ℕ) → IsInt ds → simple_strtoul (decimal ds []) 10 ≡ (number 0 ds, [])
strtoul-IsInt [] h = absurd (h.some_digit refl)
strtoul-IsInt (d ∷ ds) h =
    simple_strtoul-decimal d ds [] h.digits tt ∙ ap (λ (n : ℕ). (n, [])) (omega (arith, h.small))

is_number : (ds : List ℕ) → IsInt ds → no_number (decimal ds []) [] ≡ false
is_number [] h = absurd (h.some_digit refl)
is_number (d ∷ ds) h = ground arith

to_int-small : (n : ℕ) → n < 2 ^ 31 → to_int n ≡ pos n
to_int-small n h = ground (arith, h)

cut_at-found :
    (c : ℕ) (ds : List ℕ) (rest : CString)
    → (c ≡ b':') ⊎ (c ≡ b'-')
    → AllDigits ds
    → cut_at c (decimal ds (c ∷ rest)) ≡ some (decimal ds [], rest)
unfolding cut_at
cut_at-found c [] rest is h = ground arith
cut_at-found c (d ∷ ds) rest is h =
    let other : (b'0' + d == c) ≡ false = ground (arith, is, h.0) in
    rw other (rw (cut_at-found c ds rest is h.1) refl)

pub cut_at-decimal : (ds : List ℕ) → AllDigits ds → cut_at b'-' (decimal ds []) ≡ none
unfolding cut_at
cut_at-decimal [] h = refl
cut_at-decimal (d ∷ ds) h =
    let other : (b'0' + d == b'-') ≡ false = ground arith in
    rw other (rw (cut_at-decimal ds h.1) refl)

get_elem?-lt : {A : Type 0} (xs : List A) (i : ℕ) {x : A} → get_elem? xs i ≡ some x → i < length xs
get_elem?-lt [] i h = absurd (cc h)
get_elem?-lt (y ∷ xs) zero h = omega arith
get_elem?-lt (y ∷ xs) (suc i) h = let k = get_elem?-lt xs i h in omega (arith, k)

-- The tests on the sectors.
abbrev checked_spec : ℕ → ℕ → ℕ → ℕ → Spec
checked_spec bank count first last =
    if ltb first count && not (ltb last first) && ltb last count
    then spec bank (pos first) (pos last)
    else bad_spec

sectors_of-text :
    (bank : ℕ) (fp : Bank) (fs : List ℕ) (last : Option (List ℕ))
    → IsInt fs
    → AreInts last
    → sectors_of bank fp (sectors_text fs last) (cut_at b'-' (sectors_text fs last))
      ≡ checked_spec bank (length fp.sectors) (number 0 fs) (last_number fs last)
unfolding sectors_of first_of last_of
sectors_of-text bank fp fs none f l =
    let read = strtoul-IsInt fs f in
    let text = is_number fs f in
    let int = to_int-small (number 0 fs) f.small in
    rw (cut_at-decimal fs f.digits, read, text, int) (ground arith)
sectors_of-text bank fp fs (some ls) f l =
    let read = strtoul-IsInt fs f in
    let read' = strtoul-IsInt ls l in
    let text = is_number fs f in
    let text' = is_number ls l in
    let int = to_int-small (number 0 fs) f.small in
    let int' = to_int-small (number 0 ls) l.small in
    rw
      (
        cut_at-found b'-' fs (decimal ls []) (inr refl) f.digits,
        read,
        text,
        int,
        read',
        text',
        int',
      )
      (ground arith)

-- What `bank_of` returns, by whether the numbers are a range.
abbrev Decided : List Bank → ℕ → ℕ → ℕ → Spec → Type 0
Decided banks bank first last s =
    (IsRange banks bank first last → s ≡ spec (bank - 1) (pos first) (pos last))
    × (¬ IsRange banks bank first last → s ≡ bad_spec)

refused :
    (banks : List Bank) (bank first last : ℕ)
    → ¬ IsRange banks bank first last
    → Decided banks bank first last bad_spec
refused banks bank first last n = (λ r. absurd (n r), λ _. refl)

checked_spec-Decided :
    (banks : List Bank) (bank first last : ℕ) (fp : Bank)
    → 0 < bank
    → get_elem? banks (bank - 1) ≡ some fp
    → fp.flash_id ≢ flash_unknown
    → Decided banks bank first last (checked_spec (bank - 1) (length fp.sectors) first last)
checked_spec-Decided banks bank first last fp h at known = (
  λ r.
      let same : r.fp ≡ fp = some_injective (sym r.there ∙ at) in
      let inside : last < length fp.sectors = subst (λ b. last < length b.sectors) same r.inside in
      ground (arith, r.order, inside),
  λ n.
      elim (Bool-cases
        (ltb first (length fp.sectors) && not (ltb last first) && ltb last (length fp.sectors))) [
          | inl good ↦ absurd (
              n (record {
                fp = fp;
                positive = h;
                there = at;
                known = known;
                order = ground (arith, good);
                inside = ground (arith, good);
              }))
          | inr bad ↦ rw bad refl
        ],
)
  where
    some_injective : {A : Type 0} {a b : A} → Option.some a ≡ some b → a ≡ b
    some_injective e = cc

bank_of-Decided :
    (banks : List Bank) (bank : ℕ) (fs : List ℕ) (last : Option (List ℕ)) (found : Option Bank)
    → IsInt fs
    → AreInts last
    → 0 < bank
    → get_elem? banks (bank - 1) ≡ found
    → Decided banks bank
        (number 0 fs)
        (last_number fs last)
        (bank_of (bank - 1) found (sectors_text fs last))
unfolding bank_of
bank_of-Decided banks bank fs last none f l h at =
    refused banks bank (number 0 fs) (last_number fs last) (λ r. cc (r.there, at))
bank_of-Decided banks bank fs last (some fp) f l h at =
    elim (Bool-cases (fp.flash_id == flash_unknown)) [
      | inl unknown ↦ rw unknown (
          refused banks bank (number 0 fs) (last_number fs last) (λ r.
            let same : r.fp ≡ fp = cc (r.there, at) in
            r.known (ap (λ b. b.flash_id) same ∙ (==_iff _ flash_unknown).0 unknown)))
      | inr known ↦ rw known (
          subst (Decided banks bank (number 0 fs) (last_number fs last))
            (sym (sectors_of-text (bank - 1) fp fs last f l))
            (checked_spec-Decided banks bank (number 0 fs) (last_number fs last) fp h at
              (ground (arith, known))))
    ]

-- `abbrev_spec` on B:F or B:F-L, in decimal digits, with any leading zeros, of numbers below 2 ^ 31:
-- where there is a bank of the number B, counted from 1, which is of a known type, and F <= L are
-- sectors of it, counted from 0, it returns this bank and these sectors, with F for L where only F is
-- given; where one of this does not hold, it returns -1.
pub abbrev_spec-range_text :
    (banks : List Bank) (bs fs : List ℕ) (last : Option (List ℕ))
    → IsInt bs
    → IsInt fs
    → AreInts last
    → (IsRange banks (number 0 bs) (number 0 fs) (last_number fs last)
        → abbrev_spec banks (range_text bs fs last)
          ≡ spec (number 0 bs - 1) (pos (number 0 fs)) (pos (last_number fs last)))
      × (¬ IsRange banks (number 0 bs) (number 0 fs) (last_number fs last)
          → abbrev_spec banks (range_text bs fs last) ≡ bad_spec)
unfolding abbrev_spec spec_of
abbrev_spec-range_text banks bs fs last b f l =
    let bank = number 0 bs in
    let read = strtoul-IsInt bs b in
    let text = is_number bs b in
    let int = to_int-small bank b.small in
    rw (cut_at-found b':' bs (sectors_text fs last) (inl refl) b.digits, read, text, int)
      (elim (Bool-cases (lt_int (pos bank) (pos 1) || lt_int (pos (length banks)) (pos bank))) [
        | inl out ↦ rw out (
            refused banks bank (number 0 fs) (last_number fs last) (λ r.
              let k = get_elem?-lt banks (bank - 1) r.there in
              let p = r.positive in absurd (ground (arith, out, k, p))))
        | inr good ↦ rw good (
            bank_of-Decided banks bank fs last (get_elem? banks (bank - 1)) f l
              (ground (arith, good)) refl)
      ])
