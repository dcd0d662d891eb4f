-- ===== src/Env/Commands/Printed.antt =====
-- `do_printenv` of common/cmd_nvedit.c against the abstract environment.
use armboot.Prelude.{
  ℕ, zero, suc, ◌+◌, ◌-◌, ◌<◌, ◌≡◌, ◌∙◌, refl, ap, Bool, inl, inr, Bool-cases, if◌then◌else◌, List,
  [], ◌∷◌, ◌++◌, arith, length, Exec, done,
}
use armboot.Memory.Laws.{Reads, Reads-append}
use armboot.CString.{CString}
use armboot.Env.Image.{Entry, AreEntries, text, encode, encoded_length, definition-IsText}
use armboot.Env.{Board, Config, get_env_char, env_size}
use armboot.Env.Lookup.{Visible, find_end-IsText, first_char}
use armboot.Env.Commands.{print_range, print_all, do_printenv}

-- A line for each definition; behind each, `ctrlc` says whether to go on, or to return 1.
abbrev pub listing : {S : Type 0} → (S → Bool × S) → List Entry → S → ℕ × List ℕ × S
listing ctrlc [] s = (0, [], s)
listing ctrlc (e ∷ es) s =
    let (abort, s') = ctrlc s in
    let (rc, more, s'') = listing ctrlc es s' in
    let line = text e ++ b'\n' ∷ [] in if abort then (1, line, s') else (rc, line ++ more, s'')

module _ (get : ℕ → Exec ℕ) where
  print_range-Reads :
      (cs rest : List ℕ) (i : ℕ)
      → Reads get i (cs ++ rest)
      → print_range get (length cs) i ≡ done cs
  unfolding print_range
  print_range-Reads [] rest i r = refl
  print_range-Reads (c ∷ cs) rest i r =
      let later = print_range-Reads cs rest (i + 1) r.1 in ground (arith, r.0, later)

  module _ {S : Type 0} (ctrlc : S → Bool × S) where
    print_all-encode :
        (fuel size i : ℕ) (es : List Entry) (rest : List ℕ) (s : S)
        → encoded_length es < fuel
        → encoded_length es < size
        → AreEntries es
        → Reads get i (encode es (0 ∷ rest))
        → print_all get ctrlc fuel size i s ≡ done (listing ctrlc es s)
    unfolding print_all
    print_all-encode zero size i es rest s f k hs r = absurd (omega arith)
    print_all-encode (suc fuel) size i [] rest s f k hs r = ground arith
    print_all-encode (suc fuel) size i (e ∷ es) rest s f k hs r =
        let (c, first, ne) = first_char get e.name e.value (0 ∷ encode es (0 ∷ rest)) i hs.0 r in
        let (_, later) = Reads-append get i _ (text e) (0 ∷ encode es (0 ∷ rest)) refl r in
        let found =
          find_end-IsText get size i (text e) (encode es (0 ∷ rest)) (omega arith)
            (definition-IsText e.name e.value hs.0 hs.1) r in
        let line : print_range get (i + length (text e) - i) i ≡ done (text e) =
          ap (λ n. print_range get n i) (omega arith)
          ∙ print_range-Reads (text e) (0 ∷ encode es (0 ∷ rest)) i r in
        let after =
          print_all-encode fuel size (i + length (text e) + 1) es rest (ctrlc s).1 (omega arith)
            (omega arith) hs.2 later.1 in
        elim (Bool-cases (ctrlc s).0) [
          | inl stops ↦ ground (arith, first, ne, found, line, stops)
          | inr goes ↦ ground (arith, first, ne, found, line, goes, after)
        ]

-- `do_printenv` without arguments, on an environment that represents the definitions `es`, for any
-- `ctrlc`: it prints one line "name=value" for each definition, in their order, and calls `ctrlc` once
-- behind each. Where a call says that Control-C was typed, it stops with the result 1 behind the line
-- that is printed, and otherwise it prints all of them and returns 0. The console is as these calls
-- leave it, and as it was where there is no definition.
pub do_printenv-listing :
    {S : Type 0} (ctrlc : S → Bool × S) (cfg : Config) (bd : Board) (command : CString) (s : S)
    {es : List Entry}
    → Visible cfg bd es
    → do_printenv ctrlc cfg bd (command ∷ []) s ≡ done (listing ctrlc es s)
unfolding do_printenv
do_printenv-listing ctrlc cfg bd command s {es} v =
    print_all-encode (get_env_char cfg bd) ctrlc (suc (env_size cfg bd)) (suc (env_size cfg bd)) 0
      es v.slack s (omega (arith, v.fits)) (omega (arith, v.fits)) v.entries v.reads
