-- ===== src/Shell/Run/Loop.antt =====
-- The loop of `run_command` over the tokens of a line.
use armboot.Prelude.{
  ℕ, zero, suc, ◌-◌, ◌<◌, ◌≤◌, ◌≡◌, inl, inr, refl, sym, ap, ◌∙◌, Bool, true, false, not, ◌&&◌,
  List, [], ◌∷◌, Option, none, some, ◌==◌, ltb, arith, Bool-cases, map, length, take, Exec, done,
  fault, blocked, ◌>>=◌, bind-done,
}
use armboot.Prelude.Int.{ℤ, pos}
use armboot.CString.{CString, IsText, strlen}
use armboot.CString.Laws.{strlen-eq-length}
use armboot.Env.Image.{IsName}
use armboot.Shell.Parse.{is_blank}
use armboot.Shell.Parse.Words.{words}
use armboot.Shell.Parse.Cut.Word.{take-nothing}
use armboot.Shell.Macros.Template.{Piece, letter, written, expanded, ArePieces}
use armboot.Shell.Run.{
  Command, cut_token, Turn, go_on, finish, dispatch, proceed, run_token, run_tokens, run_command,
  run_variables, do_run,
}
use armboot.Shell.Run.Outcome.{run_token-words}

cut_token-le : (prev : Option ℕ) (str : CString) → length (cut_token prev str).1 ≤ length str
unfolding cut_token
cut_token-le prev [] = omega arith
cut_token-le prev (c ∷ cs) =
    let rest = cut_token-le (some c) cs in
    let past_start : Bool = elim prev [ none ↦ false | some p ↦ not (p == b'\\') ] in
    elim (Bool-cases (c == b';' && past_start)) [
      | inl sep ↦ rw sep (omega arith)
      | inr part ↦ rw part (omega (arith, rest))
    ]

first_token : (c : ℕ) (cs : CString) → length (cut_token none (c ∷ cs)).1 ≤ length cs
unfolding cut_token
first_token c cs =
    let rest = cut_token-le (some c) cs in
    elim (Bool-cases (c == b';')) [ inl sep ↦ rw sep rest | inr part ↦ rw part rest ]

bind-cong {ℓ κ} :
    {A : Type ℓ} {B : Type κ} (m : Exec A) (f g : A → Exec B)
    → ((a : A) → f a ≡ g a)
    → (m >>= f) ≡ (m >>= g)
bind-cong (done a) f g h = h a
bind-cong fault f g h = refl
bind-cong blocked f g h = refl

-- Blanks and TABs, one or more of them.
unfoldable pub AreBlanks : CString → Type 0
AreBlanks [] = Unit {0}
AreBlanks (c ∷ cs) = (is_blank c ≡ true) × AreBlanks cs

letters : CString → List Piece
letters cs = map letter cs

record Blank (cs : CString) : Type 0 where
  as_written : written (letters cs) ≡ cs
  as_expanded : (values : CString → Option CString) → expanded values (letters cs) ≡ cs
  pieces : ArePieces (letters cs)
  text : IsText cs
  no_words : words cs ≡ []
  one_token : (prev : Option ℕ) → cut_token prev cs ≡ (cs, [])

blanks_lem : (cs : CString) → AreBlanks cs → Blank cs
unfolding AreBlanks letters words cut_token
blanks_lem [] h = record {
  as_written = refl;
  as_expanded = λ values. refl;
  pieces = tt;
  text = tt;
  no_words = refl;
  one_token = λ prev. refl;
}
blanks_lem (c ∷ cs) h =
    let b = blanks_lem cs h.1 in
    let plain : (c == b'$') ≡ false = ground (arith, h.0) in
    let no_sep : (c == b';') ≡ false = ground (arith, h.0) in
    record {
      as_written = rw plain (ap (◌∷◌ c) b.as_written);
      as_expanded = λ values. ap (◌∷◌ c) (b.as_expanded values);
      pieces = (λ e. ground (arith, h.0, e), b.pieces);
      text = (λ e. ground (arith, h.0, e), b.text);
      no_words = rw h.0 b.no_words;
      one_token = λ prev. rw no_sep (ap (λ r. (c ∷ r.0, r.1)) (b.one_token (some c)));
    }

module _ {S : Type 0} (size maxargs : ℕ) (table : List Command)
    (lookup : S → CString → Exec (Option CString)) (execute : Command → Bool → List CString → S → S)
    (had_ctrlc : S → Bool) where
  same_proceed :
      (t : Turn size maxargs table lookup execute had_ctrlc) (f g : Bool → Bool → S → Exec (ℤ × S))
      → ((flag repeatable : Bool) (s : S) → f flag repeatable s ≡ g flag repeatable s)
      → proceed size maxargs table lookup execute had_ctrlc f t
        ≡ proceed size maxargs table lookup execute had_ctrlc g t
  same_proceed (go_on flag repeatable s) f g h = h flag repeatable s
  same_proceed (finish code s) f g h = refl

  -- With more fuel than the line has characters, the fuel makes no difference to the loop over the
  -- tokens: every round shortens what is left.
  pub run_tokens-fuel :
      (f g : ℕ) (stale : List ℕ) (str : CString) (flag repeatable : Bool) (s : S)
      → length str < f
      → length str < g
      → run_tokens size maxargs table lookup execute had_ctrlc f stale str flag repeatable s
        ≡ run_tokens size maxargs table lookup execute had_ctrlc g stale str flag repeatable s
  unfolding run_tokens
  run_tokens-fuel zero g stale str flag repeatable s h k = absurd (omega arith)
  run_tokens-fuel (suc f) zero stale str flag repeatable s h k = absurd (omega arith)
  run_tokens-fuel (suc f) (suc g) stale [] flag repeatable s h k = refl
  run_tokens-fuel (suc f) (suc g) stale (c ∷ cs) flag repeatable s h k =
      let shorter = first_token c cs in
      bind-cong
        (run_token size maxargs table lookup execute had_ctrlc stale (cut_token none (c ∷ cs)).0
          flag repeatable s)
        _ _
        λ t. same_proceed t _ _ λ flag' repeatable' s'.
          run_tokens-fuel f g stale (cut_token none (c ∷ cs)).1 flag' repeatable' s'
            (omega (arith, shorter, h)) (omega (arith, shorter, k))

  -- `run_command` on a line of blanks and TABs, one or more, that is shorter than CFG_CBSIZE: there is
  -- no argv[0], and find_cmd reads through the null pointer.
  pub run_command-blank :
      (clear_ctrlc : S → S) (values : CString → Option CString) (stale : List ℕ) (c : ℕ)
      (cs : CString) (flag : Bool) (s : S)
      → ((name : CString) → IsName name → lookup (clear_ctrlc s) name ≡ done (values name))
      → AreBlanks (c ∷ cs)
      → length (c ∷ cs) < size
      → run_command size maxargs table lookup execute had_ctrlc clear_ctrlc stale
          (some (c ∷ cs))
          flag
          s
        ≡ fault
  unfolding run_command run_tokens dispatch
  run_command-blank clear_ctrlc values stale c cs flag s known blank h =
      let b = blanks_lem (c ∷ cs) blank in
      let n = strlen-eq-length (c ∷ cs) in
      let some_text : (strlen (c ∷ cs) == 0) ≡ false = ground (arith, n) in
      let fits : ltb (size - 1) (strlen (c ∷ cs)) ≡ false = ground (arith, n, h) in
      let expansion = b.as_expanded values in
      let round =
        run_token-words size maxargs table lookup execute had_ctrlc values (letters (c ∷ cs)) stale
          flag true (clear_ctrlc s) known b.pieces (rw b.as_written h) (rw expansion h)
          (rw expansion b.text) in
      let nothing : take maxargs (words (expanded values (letters (c ∷ cs)))) ≡ [] =
        ap (λ xs. take maxargs (words xs)) expansion ∙ take-nothing maxargs b.no_words in
      let token : (cut_token none (c ∷ cs)).0 ≡ written (letters (c ∷ cs)) =
        ap (λ r. r.0) (b.one_token none) ∙ sym b.as_written in
      let run : run_token size maxargs table lookup execute had_ctrlc stale
            (cut_token none (c ∷ cs)).0 flag true (clear_ctrlc s)
          ≡ fault =
        ap
          (λ t.
            run_token size maxargs table lookup execute had_ctrlc stale t flag true (clear_ctrlc s))
          token
        ∙ round
        ∙ ap
            (λ argv.
              dispatch size maxargs table lookup execute had_ctrlc argv flag true (clear_ctrlc s))
            nothing in
      rw (some_text, fits)
        (ap
          (λ m.
            m
            >>= proceed size maxargs table lookup execute had_ctrlc (
                run_tokens size maxargs table lookup execute had_ctrlc (strlen (c ∷ cs)) stale
                  (cut_token none (c ∷ cs)).1))
          run)

  -- `do_run` on one or more names, where the value of the first is a command line that `run_command`
  -- runs to its end, and whose commands may all be repeated: only this one is run, and 1 is returned,
  -- whatever other names there are.
  pub do_run-first_only :
      (clear_ctrlc : S → S) (stale : List ℕ) (name : CString) (names : List CString)
      {value : Option CString} (flag : Bool) (s : S) {s' : S}
      → lookup s name ≡ done value
      → run_command size maxargs table lookup execute had_ctrlc clear_ctrlc stale value flag s
        ≡ done (pos 1, s')
      → do_run size maxargs table lookup execute had_ctrlc clear_ctrlc stale (name ∷ names) flag s
        ≡ done (pos 1, s')
  unfolding do_run run_variables
  do_run-first_only clear_ctrlc stale name names flag s {s' = s'} found ran =
      bind-done _ found ∙ bind-done _ ran ∙ stops names
    where
      stops :
          (names : List CString)
          → run_variables size maxargs table lookup execute had_ctrlc clear_ctrlc stale names flag
              (pos 1)
              s'
            ≡ done (pos 1, s')
      stops [] = refl
      stops (n ∷ ns) = refl
