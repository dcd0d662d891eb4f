-- ===== src/Shell/Parse/Cut/Word.antt =====
-- `cut_word` of `parse_line` of common/main.c, against the words of a text.
use armboot.Prelude.{
  ℕ, zero, suc, ◌+◌, ◌≤◌, ◌≡◌, ◌⊎◌, inl, inr, refl, sym, ap, subst, ◌∙◌, true, false, List, [], ◌∷◌,
  ◌++◌, ◌==◌, arith, append_assoc, length, length-append, take, Exec, done, ◌>>=◌, bind-done,
}
use armboot.Memory.{load, store}
use armboot.Memory.Laws.{Reads, Reads-append, Reads-load, load-append, store-append}
use armboot.CString.{IsText}
use armboot.Shell.Parse.{is_blank, skip_word, Arguments, add_argument, cut_word, parse_args}
use armboot.Shell.Parse.Words.{all_of, split, words}
use armboot.Shell.Parse.Loops.{Behind, skip_word-Word}

-- At these indices of the buffer stand these words, each with a NUL behind it.
unfoldable pub Holds : List ℕ → List ℕ → List (List ℕ) → Type 0
Holds buffer [] [] = Unit {0}
Holds buffer [] (w ∷ ws) = ⊥
Holds buffer (i ∷ is) [] = ⊥
Holds buffer (i ∷ is) (w ∷ ws) = Reads (load buffer) i (w ++ 0 ∷ []) × Holds buffer is ws

pub record Parsed (k : ℕ) (before text : List ℕ) (m : Exec Arguments) : Type 0 where
  pub r : Arguments
  pub goes : m ≡ done r
  pub tail : List ℕ
  pub buffer_is : r.buffer ≡ before ++ tail
  pub holds : Holds r.buffer r.argv (take k (words text))
  pub ended : (r.terminated ≡ true) ⊎ (k ≤ length (words text))

pub take-nothing : (k : ℕ) {none_left : List (List ℕ)} → none_left ≡ [] → take k none_left ≡ []
take-nothing zero e = refl
take-nothing (suc k) e = rw e refl

-- The word that stands at the end of `before`.
pub Reads-middle :
    (before xs after buffer : List ℕ) (i : ℕ)
    → buffer ≡ before ++ (xs ++ after)
    → i ≡ length before
    → Reads (load buffer) i xs
Reads-middle before xs after buffer i b e = rw b (
    (Reads-append (load (before ++ (xs ++ after))) i (i + length xs) xs after refl
      (Reads-load before (xs ++ after) i e)).0)

pub IsText-append : (xs ys : List ℕ) → IsText (xs ++ ys) → IsText ys
IsText-append [] ys h = h
IsText-append (x ∷ xs) ys h = IsText-append xs ys h.1

words_of :
    (c : ℕ) (cs first : List ℕ) (others : List (List ℕ))
    → is_blank c ≡ false
    → split (c ∷ cs) ≡ record { first = first; others = others }
    → words (c ∷ cs) ≡ first ∷ others
unfolding words
words_of c cs [] others letter e = absurd (ground (arith, letter, e))
words_of c cs (x ∷ xs) others letter e = ap all_of e

pub word_end :
    (before first rest buffer : List ℕ) (c start : ℕ)
    → buffer ≡ (before ++ first) ++ c ∷ rest
    → start ≡ length before
    → load buffer (start + length first) ≡ done c
word_end before first rest buffer c start b e =
    rw b (load-append (before ++ first) rest c _ (omega (arith, e, length-append before first)))

cut_last :
    (k : ℕ) (before first rest buffer text : List ℕ) (others : List (List ℕ)) (start : ℕ)
    → buffer ≡ (before ++ first) ++ 0 ∷ rest
    → start ≡ length before
    → words text ≡ first ∷ others
    → others ≡ []
    → Parsed
        (suc k)
        before
        text
        (done (record { buffer = buffer; argv = start ∷ []; terminated = true }))
unfolding Holds
cut_last k before first rest buffer text others start b e ws none_left = record {
  r = record { buffer = buffer; argv = start ∷ []; terminated = true };
  goes = refl;
  tail = first ++ 0 ∷ rest;
  buffer_is = b ∙ append_assoc before first (0 ∷ rest);
  holds =
      let reads : Reads (load buffer) start (first ++ 0 ∷ []) =
        Reads-middle before (first ++ 0 ∷ []) rest buffer start
          (b
            ∙ append_assoc before first (0 ∷ rest)
            ∙ ap (◌++◌ before) (sym (append_assoc first (0 ∷ []) rest)))
          e in
      rw (ws, take-nothing k none_left) (reads, tt);
  ended = inl refl;
}

cut_on :
    (k : ℕ) (before first text : List ℕ) (ds : List ℕ) (start : ℕ) (m : Exec Arguments)
    → start ≡ length before
    → words text ≡ first ∷ words ds
    → Parsed k ((before ++ first) ++ 0 ∷ []) ds m
    → Parsed (suc k) before text (m >>= λ r. done (add_argument start r))
unfolding Holds
cut_on k before first text ds start m e ws p =
    let b : p.r.buffer ≡ before ++ ((first ++ 0 ∷ []) ++ p.tail) =
      p.buffer_is
      ∙ ap (λ xs. xs ++ p.tail) (append_assoc before first (0 ∷ []))
      ∙ append_assoc before (first ++ 0 ∷ []) p.tail in
    record {
      r = add_argument start p.r;
      goes = rw p.goes refl;
      tail = (first ++ 0 ∷ []) ++ p.tail;
      buffer_is = b;
      holds = rw ws (Reads-middle before (first ++ 0 ∷ []) p.tail p.r.buffer start b e, p.holds);
      ended = elim p.ended [ inl null ↦ inl null | inr full ↦ inr (rw ws (omega (arith, full))) ];
    }

pub cut_word-Parsed :
    (k : ℕ) (before cs rest buffer : List ℕ) (c start : ℕ)
    → ((pre text : List ℕ)
        → IsText text
        → Parsed k pre text (parse_args k (pre ++ (text ++ 0 ∷ rest)) (length pre)))
    → is_blank c ≡ false
    → IsText (c ∷ cs)
    → buffer ≡ before ++ ((c ∷ cs) ++ 0 ∷ rest)
    → start ≡ length before
    → Parsed (suc k) before (c ∷ cs) (cut_word (parse_args k) buffer start)
unfolding cut_word Behind
cut_word-Parsed k before cs rest buffer c start again letter t b e =
    let reads : Reads (load buffer) start ((c ∷ cs) ++ 0 ∷ []) =
      Reads-middle before ((c ∷ cs) ++ 0 ∷ []) rest buffer start
        (b ∙ ap (◌++◌ before) (sym (append_assoc (c ∷ cs) (0 ∷ []) rest))) e in
    let room = ap length b in
    let wd = skip_word-Word (c ∷ cs) buffer start (suc (length buffer)) t reads (
      omega (
        arith,
        room,
        length-append before ((c ∷ cs) ++ 0 ∷ rest),
        length-append (c ∷ cs) (0 ∷ rest),
      )) in
    let ws = words_of c cs wd.first wd.others letter wd.split_is in
    let e' : start + length wd.first ≡ length (before ++ wd.first) =
      omega (arith, e, length-append before wd.first) in
    let b' : buffer ≡ (before ++ wd.first) ++ (wd.rest ++ 0 ∷ rest) =
      b
      ∙ ap (λ xs. before ++ (xs ++ 0 ∷ rest)) wd.text_is
      ∙ ap (◌++◌ before) (append_assoc wd.first wd.rest (0 ∷ rest))
      ∙ sym (append_assoc before wd.first (wd.rest ++ 0 ∷ rest)) in
    finish wd.first wd.rest wd.others b' e' ws wd.behind (subst IsText wd.text_is t) wd.goes
  where
    finish :
        (first behind : List ℕ) (others : List (List ℕ))
        → buffer ≡ (before ++ first) ++ (behind ++ 0 ∷ rest)
        → start + length first ≡ length (before ++ first)
        → words (c ∷ cs) ≡ first ∷ others
        → Behind behind others
        → IsText (first ++ behind)
        → skip_word (suc (length buffer)) buffer start ≡ done (start + length first)
        → Parsed (suc k) before (c ∷ cs) (cut_word (parse_args k) buffer start)
    finish first [] others b' e' ws h t' goes =
        let d = word_end before first rest buffer 0 start b' e in
        rw goes (rw d (cut_last k before first rest buffer (c ∷ cs) others start b' e ws h))
    finish first (d ∷ ds) others b' e' ws h t' goes =
        let found = word_end before first (ds ++ 0 ∷ rest) buffer d start b' e in
        let nonzero : (d == 0) ≡ false =
          let n = IsText-append first (d ∷ ds) t' in ground (arith, n.0) in
        let stored : store buffer (start + length first) 0
            ≡ done ((before ++ first) ++ 0 ∷ (ds ++ 0 ∷ rest)) =
          rw b' (store-append (before ++ first) (ds ++ 0 ∷ rest) d 0 _ e') in
        let pre = (before ++ first) ++ 0 ∷ [] in
        let next : parse_args k ((before ++ first) ++ 0 ∷ (ds ++ 0 ∷ rest))
              (start + length first + 1)
            ≡ parse_args k (pre ++ (ds ++ 0 ∷ rest)) (length pre) =
          ap (λ xs. parse_args k xs (start + length first + 1))
            (sym (append_assoc (before ++ first) (0 ∷ []) (ds ++ 0 ∷ rest)))
          ∙ ap (parse_args k (pre ++ (ds ++ 0 ∷ rest)))
              (omega (arith, e', length-append (before ++ first) (0 ∷ []))) in
        let more = again pre ds (IsText-append first (d ∷ ds) t').1 in
        let run : cut_word (parse_args k) buffer start ≡ (
            parse_args k (pre ++ (ds ++ 0 ∷ rest)) (length pre) >>= λ r.
            done (add_argument start r)) =
          bind-done _ goes
          ∙ bind-done _ found
          ∙ rw nonzero (bind-done _ stored)
          ∙ ap (λ m. m >>= λ r. done (add_argument start r)) next in
        rw run (cut_on k before first (c ∷ cs) ds start _ e (ws ∙ ap (◌∷◌ first) h.1) more)
