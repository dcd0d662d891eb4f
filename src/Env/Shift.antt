-- ===== src/Env/Shift.antt =====
-- The loop of `_do_setenv` that moves the definitions behind a deleted one to the front.
pub mod Texts
use armboot.Prelude.{
  ℕ, suc, ◌+◌, ◌-◌, ◌<◌, ◌≤◌, ◌≡◌, ◌≢◌, ◌∙◌, refl, sym, List, [], ◌∷◌, ◌++◌, arith, length,
  length-append, append_assoc, append-nil, Exec, done,
}
use armboot.Memory.{load, store}
use armboot.Memory.Laws.{load-append, store-append}
use armboot.Env.Image.{
  Entry, IsText, IsName, AreEntries, text, encode, encoded_length, definition-IsText,
}
use armboot.Env.Setenv.Loops.{shift}
use armboot.Env.Shift.Texts.{
  shift_at, rotate, length-rotate, shift_text, shift_nul, shift_end, Moved, tail_of,
}

over_text :
    (cs pre gap rest : List ℕ) (fuel k : ℕ)
    → 0 < length gap
    → IsText cs
    → k ≡ length cs + fuel
    → shift_at k pre gap (cs ++ rest) ≡ shift_at fuel (pre ++ cs) (rotate gap cs) rest
over_text cs pre [] rest fuel k h = absurd (omega arith)
over_text cs pre (g ∷ gap) rest fuel k h = shift_text cs pre gap rest g fuel k

over_nul :
    (fuel : ℕ) (pre gap rest : List ℕ) (d : ℕ)
    → 0 < length gap
    → d ≢ 0
    → shift_at (suc fuel) pre gap (0 ∷ d ∷ rest)
      ≡ shift_at fuel (pre ++ 0 ∷ []) (tail_of gap ++ 0 ∷ []) (d ∷ rest)
over_nul fuel pre [] rest d h = absurd (omega arith)
over_nul fuel pre (g ∷ gap) rest d h = shift_nul fuel pre gap rest g d

at_end :
    (fuel : ℕ) (pre gap rest : List ℕ)
    → 0 < length gap
    → shift_at (suc fuel) pre gap (0 ∷ 0 ∷ rest)
      ≡ done (pre ++ 0 ∷ (tail_of gap ++ 0 ∷ 0 ∷ rest), length pre)
at_end fuel pre [] rest h = absurd (omega arith)
at_end fuel pre (g ∷ gap) rest h = shift_end fuel pre gap rest g

pub text-cons :
    (n v : List ℕ) → IsName n → (d : ℕ) × (t : List ℕ) × (n ++ b'=' ∷ v ≡ d ∷ t) × (d ≢ 0)
text-cons [] v h = (b'=', v, refl, λ e. omega arith)
text-cons (c ∷ n) v h = (c, n ++ b'=' ∷ v, refl, h.0)

over_nul_text :
    (fuel : ℕ) (pre gap rest : List ℕ) (f : Entry)
    → 0 < length gap
    → IsName f.name
    → shift_at (suc fuel) pre gap (0 ∷ (text f ++ rest))
      ≡ shift_at fuel (pre ++ 0 ∷ []) (tail_of gap ++ 0 ∷ []) (text f ++ rest)
over_nul_text fuel pre gap rest f ne h =
    let (d, t, e, d_ne) = text-cons f.name f.value h in
    rw e (over_nul fuel pre gap (t ++ rest) d ne d_ne)

pub append-cons :
    (xs : List ℕ) (y : ℕ) (ys : List ℕ) → (d : ℕ) × (t : List ℕ) × (xs ++ y ∷ ys ≡ d ∷ t)
append-cons [] y ys = (y, ys, refl)
append-cons (x ∷ xs) y ys = (x, xs ++ y ∷ ys, refl)

Moved-extend :
    (f : Entry) (fs : List Entry) (pre : List ℕ) {r s : Exec (List ℕ × ℕ)}
    → s ≡ r
    → Moved ((pre ++ text f) ++ 0 ∷ []) fs r
    → Moved pre (f ∷ fs) s
Moved-extend f fs pre e m = record {
  head = m.head;
  tail = m.tail;
  last = m.last;
  result = e ∙ m.result ∙ rw (append_assoc (pre ++ text f) (0 ∷ []), append_assoc pre (text f));
  last_is =
      omega (arith, m.last_is, length-append (pre ++ text f) (0 ∷ []), length-append pre (text f));
}

pub shift-Moved :
    (fs : List Entry) (f : Entry) (pre gap slack : List ℕ) (fuel : ℕ)
    → 0 < length gap
    → AreEntries (f ∷ fs)
    → encoded_length (f ∷ fs) ≤ fuel
    → Moved pre (f ∷ fs) (shift_at fuel pre gap (encode (f ∷ fs) (0 ∷ slack)))
shift-Moved [] f pre gap slack fuel ne hs k =
    let n : ℕ = fuel - (length (text f) + 1) in
    let through =
      over_text (text f) pre gap (0 ∷ 0 ∷ slack) (suc n) fuel ne
        (definition-IsText f.name f.value hs.0 hs.1) (omega arith) in
    let gap' = rotate gap (text f) in
    let stop = at_end n (pre ++ text f) gap' slack (omega (arith, length-rotate (text f) gap)) in
    let (h, t, e) = append-cons (tail_of gap') 0 (0 ∷ slack) in
    record {
      head = h;
      tail = t;
      last = length (pre ++ text f);
      result = through ∙ stop ∙ rw (e, append_assoc pre (text f) (0 ∷ h ∷ t));
      last_is = omega (arith, length-append pre (text f));
    }
shift-Moved (f' ∷ fs) f pre gap slack fuel ne hs k =
    let n : ℕ = fuel - (length (text f) + 1) in
    let gap' = rotate gap (text f) in
    Moved-extend f (f' ∷ fs) pre
      (over_text (text f) pre gap (0 ∷ encode (f' ∷ fs) (0 ∷ slack)) (suc n) fuel ne
          (definition-IsText f.name f.value hs.0 hs.1) (omega arith)
        ∙ over_nul_text n (pre ++ text f) gap' (0 ∷ encode fs (0 ∷ slack)) f'
            (omega (arith, length-rotate (text f) gap)) hs.2.0)
      (shift-Moved fs f' ((pre ++ text f) ++ 0 ∷ []) (tail_of gap' ++ 0 ∷ []) slack n
        (omega (arith, length-append (tail_of gap') (0 ∷ []))) hs.2 (omega arith))
