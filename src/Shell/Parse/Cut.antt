-- ===== src/Shell/Parse/Cut.antt =====
-- `parse_line` of common/main.c against the words of the line.
pub mod Word
use armboot.Prelude.{
  ℕ, zero, suc, ◌+◌, ◌≤◌, ◌≡◌, ◌⊎◌, inl, inr, refl, sym, ap, subst, ◌∙◌, true, false, List, [], ◌∷◌,
  ◌++◌, ◌==◌, arith, append_assoc, length, length-append, take, Exec, done, ◌>>=◌, bind-done,
}
use armboot.Memory.{load, store}
use armboot.Memory.Laws.{Reads, Reads-append, Reads-load, load-append, store-append}
use armboot.CString.{IsText}
use armboot.Shell.Parse.{
  is_blank, skip_blanks, skip_word, Arguments, add_argument, cut_word, parse_args, parse_line,
}
use armboot.Shell.Parse.Words.{all_of, split, words}
use armboot.Shell.Parse.Loops.{StartsWord, skip_blanks-Skipped, Behind, skip_word-Word}
use armboot.Shell.Parse.Cut.Word.{
  Holds, Parsed, take-nothing, Reads-middle, IsText-append, word_end, cut_word-Parsed,
}

words_nil : words [] ≡ []
unfolding words
words_nil = refl

no_words : (k : ℕ) (buffer : List ℕ) {ws : List (List ℕ)} → ws ≡ [] → Holds buffer [] (take k ws)
unfolding Holds
no_words k buffer none_left = rw (take-nothing k none_left) tt

parse_args-Parsed :
    (k : ℕ) (before text rest : List ℕ)
    → IsText text
    → Parsed k before text (parse_args k (before ++ (text ++ 0 ∷ rest)) (length before))
unfolding parse_args Holds StartsWord
parse_args-Parsed zero before text rest t = record {
  r = record { buffer = before ++ (text ++ 0 ∷ rest); argv = []; terminated = false };
  goes = refl;
  tail = text ++ 0 ∷ rest;
  buffer_is = refl;
  holds = tt;
  ended = inr (omega arith);
}
parse_args-Parsed (suc k) before text rest t =
    let buffer = before ++ (text ++ 0 ∷ rest) in
    let reads : Reads (load buffer) (length before) (text ++ 0 ∷ []) =
      Reads-middle before (text ++ 0 ∷ []) rest buffer (length before)
        (ap (◌++◌ before) (sym (append_assoc text (0 ∷ []) rest))) refl in
    let sk =
      skip_blanks-Skipped text buffer (length before) (suc (length buffer)) reads
        (omega (arith, length-append before (text ++ 0 ∷ rest), length-append text (0 ∷ rest))) in
    let b : buffer ≡ (before ++ sk.blanks) ++ (sk.rest ++ 0 ∷ rest) =
      ap (λ xs. before ++ (xs ++ 0 ∷ rest)) sk.text_is
      ∙ ap (◌++◌ before) (append_assoc sk.blanks sk.rest (0 ∷ rest))
      ∙ sym (append_assoc before sk.blanks (sk.rest ++ 0 ∷ rest)) in
    from (λ pre ds h. parse_args-Parsed k pre ds rest h) sk.blanks sk.rest b sk.same_words sk.starts
      (IsText-append sk.blanks sk.rest (subst IsText sk.text_is t)) sk.goes
  where
    from :
        ((pre ds : List ℕ)
          → IsText ds
          → Parsed k pre ds (parse_args k (pre ++ (ds ++ 0 ∷ rest)) (length pre)))
        → (blanks behind : List ℕ)
        → before ++ (text ++ 0 ∷ rest) ≡ (before ++ blanks) ++ (behind ++ 0 ∷ rest)
        → words text ≡ words behind
        → StartsWord behind
        → IsText behind
        → skip_blanks
            (suc (length (before ++ (text ++ 0 ∷ rest))))
            (before ++ (text ++ 0 ∷ rest))
            (length before)
          ≡ done (length before + length blanks)
        → Parsed
            (suc k)
            before
            text
            (parse_args (suc k) (before ++ (text ++ 0 ∷ rest)) (length before))
    from again blanks [] b ws s t' goes =
        let d : load (before ++ (text ++ 0 ∷ rest)) (length before + length blanks) ≡ done 0 =
          word_end before blanks rest (before ++ (text ++ 0 ∷ rest)) 0 (length before) b refl in
        record {
          r = record { buffer = before ++ (text ++ 0 ∷ rest); argv = []; terminated = true };
          goes = bind-done _ goes ∙ bind-done _ d;
          tail = text ++ 0 ∷ rest;
          buffer_is = refl;
          holds = no_words (suc k) (before ++ (text ++ 0 ∷ rest)) (ws ∙ words_nil);
          ended = inl refl;
        }
    from again blanks (c ∷ cs) b ws s t' goes =
        let d : load (before ++ (text ++ 0 ∷ rest)) (length before + length blanks) ≡ done c =
          word_end before blanks (cs ++ 0 ∷ rest) (before ++ (text ++ 0 ∷ rest)) c (length before) b
            refl in
        let nonzero : (c == 0) ≡ false = ground (arith, t'.0) in
        let run : parse_args (suc k) (before ++ (text ++ 0 ∷ rest)) (length before)
            ≡ cut_word (parse_args k) (before ++ (text ++ 0 ∷ rest))
                (length before + length blanks) =
          bind-done _ goes ∙ bind-done _ d ∙ rw nonzero refl in
        let p =
          cut_word-Parsed k (before ++ blanks) cs rest (before ++ (text ++ 0 ∷ rest)) c
            (length before + length blanks) again s t' b
            (omega (arith, length-append before blanks)) in
        record {
          r = p.r;
          goes = run ∙ p.goes;
          tail = blanks ++ p.tail;
          buffer_is = p.buffer_is ∙ append_assoc before blanks p.tail;
          holds = rw ws p.holds;
          ended = rw ws p.ended;
        }

-- `parse_line` on a line with a NUL behind it: it returns the words of the line, CFG_MAXARGS of them
-- at most, each with a NUL behind it in the line that it leaves. Where there are fewer words than
-- CFG_MAXARGS, argv[] ends in NULL.
pub parse_line-words :
    (maxargs : ℕ) (text rest : List ℕ)
    → IsText text
    → (r : Arguments) × (parse_line maxargs (text ++ 0 ∷ rest) ≡ done r)
      × Holds r.buffer r.argv (take maxargs (words text))
      × ((r.terminated ≡ true) ⊎ (maxargs ≤ length (words text)))
unfolding parse_line
parse_line-words maxargs text rest t =
    let p = parse_args-Parsed maxargs [] text rest t in (p.r, p.goes, p.holds, p.ended)
