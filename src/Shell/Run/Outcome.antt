-- ===== src/Shell/Run/Outcome.antt =====
-- One round of `run_command`, from the text with variables to the command that is called.
use armboot.Prelude.{
  ℕ, zero, suc, ◌+◌, ◌<◌, ◌≡◌, inl, inr, refl, ◌∙◌, Bool, List, [], ◌∷◌, Option, arith, Bool-cases,
  length, take, Exec, done, bind-done,
}
use armboot.Memory.{load}
use armboot.Memory.Laws.{Reads-append}
use armboot.CString.{CString, IsText}
use armboot.Env.Image.{IsName}
use armboot.Env.Lookup.{string_at-IsText}
use armboot.Shell.Parse.{is_blank}
use armboot.Shell.Parse.Words.{all_of, split, words}
use armboot.Shell.Parse.Cut.{parse_line-words}
use armboot.Shell.Parse.Cut.Word.{Holds}
use armboot.Shell.Macros.Template.{Piece, written, expanded, ArePieces}
use armboot.Shell.Macros.Expand.{process_macros-expanded}
use armboot.Shell.Run.{Command, strings_at, dispatch, run_token}

AreTexts : List (List ℕ) → Type 0
AreTexts [] = Unit {0}
AreTexts (w ∷ ws) = IsText w × AreTexts ws

all_of-AreTexts :
    (first : List ℕ) (others : List (List ℕ))
    → IsText first
    → AreTexts others
    → AreTexts (all_of (record { first = first; others = others }))
unfolding AreTexts
all_of-AreTexts [] ws h hs = hs
all_of-AreTexts (c ∷ cs) ws h hs = (h, hs)

split-AreTexts :
    (text : List ℕ) → IsText text → IsText (split text).first × AreTexts (split text).others
unfolding AreTexts
split-AreTexts [] h = (tt, tt)
split-AreTexts (c ∷ cs) h =
    let (first, others) = split-AreTexts cs h.1 in
    elim (Bool-cases (is_blank c)) [
      | inl blank ↦ rw blank (tt, all_of-AreTexts (split cs).first (split cs).others first others)
      | inr letter ↦ rw letter ((h.0, first), others)
    ]

words-AreTexts : (text : List ℕ) → IsText text → AreTexts (words text)
unfolding words
words-AreTexts text h =
    let (first, others) = split-AreTexts text h in
    all_of-AreTexts (split text).first (split text).others first others

take-AreTexts : (n : ℕ) (ws : List (List ℕ)) → AreTexts ws → AreTexts (take n ws)
unfolding AreTexts
take-AreTexts zero ws h = tt
take-AreTexts (suc n) [] h = tt
take-AreTexts (suc n) (w ∷ ws) h = (h.0, take-AreTexts n ws h.1)

load_lt : (p : List ℕ) (i c : ℕ) → load p i ≡ done c → i < length p
unfolding load
load_lt [] i c h = cc
load_lt (x ∷ p) zero c h = omega arith
load_lt (x ∷ p) (suc i) c h = let k = load_lt p i c h in omega (arith, k)

strings_at-Holds :
    (buffer : List ℕ) (argv : List ℕ) (ws : List (List ℕ))
    → AreTexts ws
    → Holds buffer argv ws
    → strings_at buffer argv ≡ done ws
unfolding strings_at AreTexts Holds
strings_at-Holds buffer [] [] t h = refl
strings_at-Holds buffer [] (w ∷ ws) t h = absurd h
strings_at-Holds buffer (i ∷ is) [] t h = absurd h
strings_at-Holds buffer (i ∷ is) (w ∷ ws) t h =
    let (_, last) = Reads-append (load buffer) i (i + length w) w (0 ∷ []) refl h.0 in
    let bound = load_lt buffer (i + length w) 0 last.0 in
    let here =
      string_at-IsText (load buffer) (suc (length buffer)) i w [] (omega (arith, bound)) t.0 h.0 in
    bind-done _ here ∙ bind-done _ (strings_at-Holds buffer is ws t.1 h.1)

module _ {S : Type 0} (size maxargs : ℕ) (table : List Command)
    (lookup : S → CString → Exec (Option CString)) (execute : Command → Bool → List CString → S → S)
    (had_ctrlc : S → Bool) where
  -- A token of `run_command` that is the written form of a template: where the state gives the
  -- values of the variables, and the text is shorter than CFG_CBSIZE before and after they are put
  -- in, the words of the expanded text, CFG_MAXARGS of them at most, are dispatched as the
  -- arguments.
  pub run_token-words :
      (values : CString → Option CString) (ps : List Piece) (stale : List ℕ)
      (flag repeatable : Bool) (s : S)
      → ((name : CString) → IsName name → lookup s name ≡ done (values name))
      → ArePieces ps
      → length (written ps) < size
      → length (expanded values ps) < size
      → IsText (expanded values ps)
      → run_token size maxargs table lookup execute had_ctrlc stale (written ps) flag repeatable s
        ≡ dispatch size maxargs table lookup execute had_ctrlc
            (take maxargs (words (expanded values ps)))
            flag
            repeatable
            s
  unfolding run_token
  run_token-words values ps stale flag repeatable s known pieces fits room text =
      let (r, parsed, holds, _) = parse_line-words maxargs (expanded values ps) stale text in
      bind-done _ (process_macros-expanded size (lookup s) values known ps pieces fits room)
      ∙ bind-done _ parsed
      ∙ bind-done _ (
          strings_at-Holds r.buffer r.argv (take maxargs (words (expanded values ps)))
            (take-AreTexts maxargs (words (expanded values ps))
              (words-AreTexts (expanded values ps) text))
            holds)
