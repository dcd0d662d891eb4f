-- ===== src/Shell/Parse/Loops.antt =====
-- The inner loops of `parse_line` against the words of the text that they walk over.
use armboot.Prelude.{
  ℕ, zero, suc, ◌+◌, ◌<◌, ◌≡◌, inl, inr, refl, ap, ◌∙◌, true, false, List, [], ◌∷◌, ◌++◌, ◌==◌,
  arith, Bool-cases, length, Exec, done, bind-done,
}
use armboot.Memory.{load}
use armboot.Memory.Laws.{Reads}
use armboot.CString.{IsText}
use armboot.Shell.Parse.{is_blank, skip_blanks, skip_word}
use armboot.Shell.Parse.Words.{split, words}

unfoldable pub StartsWord : List ℕ → Type 0
StartsWord [] = Unit {0}
StartsWord (c ∷ _) = is_blank c ≡ false

pub record Skipped (text : List ℕ) (line : ℕ) (m : Exec ℕ) : Type 0 where
  pub blanks : List ℕ
  pub rest : List ℕ
  pub text_is : text ≡ blanks ++ rest
  pub same_words : words text ≡ words rest
  pub starts : StartsWord rest
  pub goes : m ≡ done (line + length blanks)

pub skip_blanks-Skipped :
    (text buffer : List ℕ) (line fuel : ℕ)
    → Reads (load buffer) line (text ++ 0 ∷ [])
    → length text < fuel
    → Skipped text line (skip_blanks fuel buffer line)
unfolding skip_blanks words StartsWord
skip_blanks-Skipped text buffer line zero r f = absurd (omega arith)
skip_blanks-Skipped [] buffer line (suc fuel) r f = record {
  blanks = [];
  rest = [];
  text_is = refl;
  same_words = refl;
  starts = tt;
  goes = bind-done _ r.0 ∙ ap done (omega arith);
}
skip_blanks-Skipped (c ∷ cs) buffer line (suc fuel) r f =
    let more = skip_blanks-Skipped cs buffer (line + 1) fuel r.1 (omega arith) in
    elim (Bool-cases (is_blank c)) [
      | inl blank ↦ record {
        blanks = c ∷ more.blanks;
        rest = more.rest;
        text_is = ap (◌∷◌ c) more.text_is;
        same_words = rw blank more.same_words;
        starts = more.starts;
        goes = bind-done _ r.0 ∙ rw blank (more.goes ∙ ap done (omega arith));
      }
      | inr letter ↦ record {
        blanks = [];
        rest = c ∷ cs;
        text_is = refl;
        same_words = refl;
        starts = letter;
        goes = bind-done _ r.0 ∙ rw letter (ap done (omega arith));
      }
    ]

-- What stands behind a word: the end of the text, or a blank and other words.
unfoldable pub Behind : List ℕ → List (List ℕ) → Type 0
Behind [] others = others ≡ []
Behind (c ∷ cs) others = (is_blank c ≡ true) × (others ≡ words cs)

pub record Word (text : List ℕ) (line : ℕ) (m : Exec ℕ) : Type 0 where
  pub first : List ℕ
  pub rest : List ℕ
  pub text_is : text ≡ first ++ rest
  pub others : List (List ℕ)
  pub split_is : split text ≡ record { first = first; others = others }
  pub behind : Behind rest others
  pub goes : m ≡ done (line + length first)

pub skip_word-Word :
    (text buffer : List ℕ) (line fuel : ℕ)
    → IsText text
    → Reads (load buffer) line (text ++ 0 ∷ [])
    → length text < fuel
    → Word text line (skip_word fuel buffer line)
unfolding skip_word words Behind
skip_word-Word text buffer line zero t r f = absurd (omega arith)
skip_word-Word [] buffer line (suc fuel) t r f = record {
  first = [];
  rest = [];
  text_is = refl;
  others = [];
  split_is = refl;
  behind = refl;
  goes = bind-done _ r.0 ∙ ap done (omega arith);
}
skip_word-Word (c ∷ cs) buffer line (suc fuel) t r f =
    let more = skip_word-Word cs buffer (line + 1) fuel t.1 r.1 (omega arith) in
    let nonzero : (c == 0) ≡ false = ground (arith, t.0) in
    elim (Bool-cases (is_blank c)) [
      | inl blank ↦ record {
        first = [];
        rest = c ∷ cs;
        text_is = refl;
        others = words cs;
        split_is = rw blank refl;
        behind = (blank, refl);
        goes = bind-done _ r.0 ∙ rw (nonzero, blank) (ap done (omega arith));
      }
      | inr letter ↦ record {
        first = c ∷ more.first;
        rest = more.rest;
        text_is = ap (◌∷◌ c) more.text_is;
        others = more.others;
        split_is = rw (letter, more.split_is) refl;
        behind = more.behind;
        goes = bind-done _ r.0 ∙ rw (nonzero, letter) (more.goes ∙ ap done (omega arith));
      }
    ]
