-- ===== src/Env/Shift/Texts.antt =====
-- The loop that moves the rest of the environment, in common/cmd_nvedit.c, text by text.
use armboot.Prelude.{
  ℕ, suc, ◌+◌, ◌≡◌, ◌≢◌, ◌∙◌, refl, sym, List, [], ◌∷◌, ◌++◌, arith, length, length-append,
  append_assoc, append-nil, Exec, done,
}
use armboot.Memory.{load, store}
use armboot.Memory.Laws.{load-append, store-append}
use armboot.Env.Image.{Entry, IsText, encode, encoded_length}
use armboot.Env.Setenv.Loops.{shift}

-- The loop with `pre` already in place, `gap` between `env` and `nxt`, and `rest` from `nxt` on.
abbrev pub shift_at : ℕ → List ℕ → List ℕ → List ℕ → Exec (List ℕ × ℕ)
shift_at fuel pre gap rest =
    shift fuel (pre ++ (gap ++ rest)) (length pre) (length pre + length gap)

-- One round: the gap moves on by a byte.
after_store :
    (pre gap rest : List ℕ) (g c : ℕ)
    → (load (pre ++ g ∷ (gap ++ c ∷ rest)) (length pre + suc (length gap)) ≡ done c)
      × (store (pre ++ g ∷ (gap ++ c ∷ rest)) (length pre) c ≡ done (pre ++ c ∷ (gap ++ c ∷ rest)))
after_store pre gap rest g c = (
  rw (sym (append_assoc pre (g ∷ gap) (c ∷ rest)))
      (load-append (pre ++ g ∷ gap) rest c _ (omega (arith, length-append pre (g ∷ gap)))),
  store-append pre (gap ++ c ∷ rest) g c (length pre) refl,
)

load_behind :
    (pre gap rest : List ℕ) (c d : ℕ)
    → load (pre ++ c ∷ (gap ++ c ∷ d ∷ rest)) (length pre + suc (length gap) + 1) ≡ done d
load_behind pre gap rest c d =
    rw
      (
        sym (append_assoc pre (c ∷ gap) (c ∷ d ∷ rest)),
        sym (append_assoc (pre ++ c ∷ gap) (c ∷ []) (d ∷ rest)),
      )
      (load-append ((pre ++ c ∷ gap) ++ c ∷ []) rest d _
        (omega (arith, length-append (pre ++ c ∷ gap) (c ∷ []), length-append pre (c ∷ gap))))

regroup :
    (pre gap rest : List ℕ) (c : ℕ)
    → pre ++ c ∷ (gap ++ c ∷ rest) ≡ (pre ++ c ∷ []) ++ ((gap ++ c ∷ []) ++ rest)
regroup pre gap rest c = simp append_assoc

shift_char :
    (fuel : ℕ) (pre gap rest : List ℕ) (g c : ℕ)
    → c ≢ 0
    → shift_at (suc fuel) pre (g ∷ gap) (c ∷ rest)
      ≡ shift_at fuel (pre ++ c ∷ []) (gap ++ c ∷ []) rest
unfolding shift
shift_char fuel pre gap rest g c ne =
    let (loaded, stored) = after_store pre gap rest g c in
    ground (
      arith,
      loaded,
      stored,
      regroup pre gap rest c,
      length-append pre (c ∷ []),
      length-append gap (c ∷ []),
    )

-- The gap once the bytes `cs` have gone through it.
abbrev pub rotate : List ℕ → List ℕ → List ℕ
rotate gap [] = gap
rotate [] (c ∷ cs) = []
rotate (g ∷ gap) (c ∷ cs) = rotate (gap ++ c ∷ []) cs

pub length-rotate : (cs gap : List ℕ) → length (rotate gap cs) ≡ length gap
length-rotate [] gap = refl
length-rotate (c ∷ cs) [] = refl
length-rotate (c ∷ cs) (g ∷ gap) =
    length-rotate cs (gap ++ c ∷ []) ∙ omega (arith, length-append gap (c ∷ []))

pub shift_text :
    (cs pre gap rest : List ℕ) (g fuel k : ℕ)
    → IsText cs
    → k ≡ length cs + fuel
    → shift_at k pre (g ∷ gap) (cs ++ rest) ≡ shift_at fuel (pre ++ cs) (rotate (g ∷ gap) cs) rest
shift_text [] pre gap rest g fuel k t e = let e' : k ≡ fuel = omega arith in rw (e', append-nil)
shift_text (c ∷ cs) pre [] rest g fuel k t e =
    let e' : k ≡ suc (length cs + fuel) = omega arith in
    rw e' (
      shift_char (length cs + fuel) pre [] (cs ++ rest) g c t.0
      ∙ shift_text cs (pre ++ c ∷ []) [] rest c fuel _ t.1 refl
      ∙ rw (append_assoc pre (c ∷ []) cs))
shift_text (c ∷ cs) pre (h ∷ gap) rest g fuel k t e =
    let e' : k ≡ suc (length cs + fuel) = omega arith in
    rw e' (
      shift_char (length cs + fuel) pre (h ∷ gap) (cs ++ rest) g c t.0
      ∙ shift_text cs (pre ++ c ∷ []) (gap ++ c ∷ []) rest h fuel _ t.1 refl
      ∙ rw (append_assoc pre (c ∷ []) cs))

-- At the '\0' of a definition: the loop goes on before another definition, and ends before '\0'.
pub shift_nul :
    (fuel : ℕ) (pre gap rest : List ℕ) (g d : ℕ)
    → d ≢ 0
    → shift_at (suc fuel) pre (g ∷ gap) (0 ∷ d ∷ rest)
      ≡ shift_at fuel (pre ++ 0 ∷ []) (gap ++ 0 ∷ []) (d ∷ rest)
unfolding shift
shift_nul fuel pre gap rest g d ne =
    let (loaded, stored) = after_store pre gap (d ∷ rest) g 0 in
    ground (
      arith,
      loaded,
      stored,
      regroup pre gap (d ∷ rest) 0,
      load_behind pre gap rest 0 d,
      length-append pre (0 ∷ []),
      length-append gap (0 ∷ []),
    )

pub shift_end :
    (fuel : ℕ) (pre gap rest : List ℕ) (g : ℕ)
    → shift_at (suc fuel) pre (g ∷ gap) (0 ∷ 0 ∷ rest)
      ≡ done (pre ++ 0 ∷ (gap ++ 0 ∷ 0 ∷ rest), length pre)
unfolding shift
shift_end fuel pre gap rest g =
    let (loaded, stored) = after_store pre gap (0 ∷ rest) g 0 in
    ground (arith, loaded, stored, load_behind pre gap rest 0 0)

-- Where the loop stops: the definitions stand behind `pre`, in front of at least one byte.
pub record Moved (pre : List ℕ) (fs : List Entry) (r : Exec (List ℕ × ℕ)) : Type 0 where
  pub head : ℕ
  pub tail : List ℕ
  pub last : ℕ
  pub result : r ≡ done (pre ++ encode fs (head ∷ tail), last)
  pub last_is : last + 1 ≡ length pre + encoded_length fs

abbrev pub tail_of : List ℕ → List ℕ
tail_of [] = []
tail_of (_ ∷ xs) = xs
