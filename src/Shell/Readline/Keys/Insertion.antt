-- ===== src/Shell/Readline/Keys/Insertion.antt =====
-- A character that `readline` of common/main.c takes into the line.
use armboot.Prelude.{
  ℕ, ◌+◌, ◌≡◌, refl, sym, ap, ◌∙◌, inl, inr, true, false, List, [], ◌∷◌, ◌++◌, arith, append_assoc,
  ltb, ltb→lt, Bool-cases, if◌then◌else◌, length, length-append, done,
}
use armboot.Memory.{store}
use armboot.Memory.Laws.{store-append}
use armboot.Shell.Readline.{Line, echo, puts, insert}
use armboot.Shell.Readline.Editor.{line_of, next_column}
use armboot.Shell.Readline.Columns.{echo-col, length-line_of}
use armboot.Shell.Readline.Deletion.{Shows}

-- There is a byte at `p`, and a store there leaves the text.
pub store_at_end :
    (size plen v : ℕ) (text : List ℕ) (l : Line)
    → Shows size plen text l
    → (b : List ℕ) × (slack : List ℕ) × (store l.buffer l.p v ≡ done b)
      × (b ≡ line_of text ++ v ∷ slack)
      × (length b ≡ size)
store_at_end size plen v text l s = go s.slack s.buffer_is
  where
    go :
        (slack : List ℕ)
        → l.buffer ≡ line_of text ++ slack
        → (b : List ℕ) × (rest : List ℕ) × (store l.buffer l.p v ≡ done b)
          × (b ≡ line_of text ++ v ∷ rest)
          × (length b ≡ size)
    go [] e =
        let n = ap length e in
        absurd (
          omega
            (arith, n, s.same_size, s.fits, length-append (line_of text) [], length-line_of text))
    go (x ∷ rest) e =
        let n = ap length e in
        (
          line_of text ++ v ∷ rest,
          rest,
          ap (λ b. store b l.p v) e
              ∙ store-append (line_of text) rest x v l.p
                  (omega (arith, s.p_is, length-line_of text)),
          refl,
          omega (
            arith,
            n,
            s.same_size,
            length-append (line_of text) (x ∷ rest),
            length-append (line_of text) (v ∷ rest),
          ),
        )

pub insert-Shows :
    (size plen c : ℕ) (text : List ℕ) (l : Line)
    → Shows size plen text l
    → (l' : Line) × (insert size c l ≡ done l')
      × Shows size plen (if ltb (length text + 2) size then c ∷ text else text) l'
unfolding insert
insert-Shows size plen c text l s =
    let (b, rest, stored, b_is, same) = store_at_end size plen c text l s in
    elim (Bool-cases (ltb (length text + 2) size)) [
      | inl room ↦
          let room' : ltb (l.n + 2) size ≡ true = ground (arith, room, s.n_is) in
          (
            record { buffer = b; p = l.p + 1; n = l.n + 1; screen = echo c l.screen },
            ground (arith, room', stored),
            rw room (record {
              slack = rest;
              buffer_is = b_is ∙ sym (append_assoc (line_of text) (c ∷ []) rest);
              p_is = omega (arith, s.p_is);
              n_is = omega (arith, s.n_is);
              col_is = echo-col c l.screen ∙ ap (next_column c) s.col_is;
              same_size = same;
              fits = let f = ltb→lt (length text + 2) size room in omega arith;
            }),
          )
      | inr full ↦
          let full' : ltb (l.n + 2) size ≡ false = ground (arith, full, s.n_is) in
          (
            record l { screen = puts (7 ∷ []) l.screen },
            ground (arith, full'),
            rw full (record {
              slack = s.slack;
              buffer_is = s.buffer_is;
              p_is = s.p_is;
              n_is = s.n_is;
              col_is = s.col_is;
              same_size = s.same_size;
              fits = s.fits;
            }),
          )
    ]
