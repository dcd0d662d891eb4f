-- ===== src/Shell/Readline/Keys.antt =====
-- `readline` of common/main.c against `Editor`, for sequences of keys.
mod Insertion
use armboot.Prelude.{
  ℕ, ◌+◌, ◌<◌, ◌≡◌, refl, sym, ap, ◌∙◌, inl, inr, true, false, ◌||◌, List, [], ◌∷◌, ◌++◌, ◌==◌,
  arith, append_assoc, ltb, ltb→lt, Bool-cases, if◌then◌else◌, length, length-append, Exec, done,
  blocked, bind-eq-done,
}
use armboot.Prelude.Int.{pos, negsuc}
use armboot.Memory.{load, store}
use armboot.Memory.Laws.{store-append}
use armboot.CString.{CString, strlen}
use armboot.Shell.Readline.{
  Line, go_on, finish, Answer, echo, erase_line, delete_char, puts, insert, key, read_keys,
  readline,
}
use armboot.Shell.Readline.Editor.{
  line_of, next_column, Entered, entered, interrupted, waiting, edit_key, edit,
}
use armboot.Shell.Readline.Columns.{echo-col, erase_line-col, column_ge, length-line_of}
use armboot.Shell.Readline.Deletion.{Shows, delete_char-rub_out, delete_word-rub_out_word}
use armboot.Shell.Readline.Keys.Insertion.{store_at_end, insert-Shows}

-- What `readline` does, against what is entered: Enter returns the length of the text, which stands
-- in the buffer with a NUL behind it, and ^C returns -1 with the empty string in the buffer.
pub Agrees : Entered → Exec Answer → Type 0
Agrees (entered text rest) m =
    (a : Answer) × (m ≡ done a)
    × (a.code ≡ pos (length text))
    × (a.console ≡ rest)
    × (slack : List ℕ) × (a.line.buffer ≡ line_of text ++ 0 ∷ slack)
Agrees (interrupted rest) m =
    (a : Answer) × (m ≡ done a)
    × (a.code ≡ negsuc 0)
    × (a.console ≡ rest)
    × (load a.line.buffer 0 ≡ done 0)
Agrees waiting m = m ≡ blocked

-- A key that edits: any but Enter and ^C.
key-edit_key :
    (size plen c : ℕ) (text : List ℕ) (l : Line)
    → Shows size plen text l
    → (c == b'\r' || c == b'\n') ≡ false
    → (c == 0x03) ≡ false
    → (l' : Line) × (key size plen c l ≡ done (go_on l'))
      × Shows size plen (edit_key size c text) l'
unfolding key
key-edit_key size plen c text l s enter break_ = elim (Bool-cases (c == 0x15)) [
  | inl erase ↦ (
    record l { p = 0; n = 0; screen = erase_line plen l.screen },
    ground (arith, enter, break_, erase),
    rw erase (record {
      slack = l.buffer;
      buffer_is = refl;
      p_is = refl;
      n_is = refl;
      col_is =
          erase_line-col plen l.screen (let h = column_ge plen text in omega (arith, s.col_is));
      same_size = s.same_size;
      fits = omega (arith, s.fits);
    }),
  )
  | inr not_erase ↦ elim (Bool-cases (c == 0x17)) [
    | inl word ↦
        let (l', goes, shows) = delete_word-rub_out_word size plen text l s in
        let (l₁, first, second) = bind-eq-done (delete_char plen l) _ goes in
        (
          l',
          ground (arith, enter, break_, not_erase, word, first, second),
          rw (not_erase, word) shows,
        )
    | inr not_word ↦ elim (Bool-cases (c == 0x08 || c == 0x7f)) [
      | inl back ↦
          let (l', goes, shows) = delete_char-rub_out size plen text l s in
          (
            l',
            ground (arith, enter, break_, not_erase, not_word, back, goes),
            rw (not_erase, not_word, back) shows,
          )
      | inr not_back ↦
          let (l', goes, shows) = insert-Shows size plen c text l s in
          (
            l',
            ground (arith, enter, break_, not_erase, not_word, not_back, goes),
            rw (not_erase, not_word, not_back) shows,
          )
    ]
  ]
]

key-enter :
    (size plen c : ℕ) (l : Line) (b : List ℕ)
    → (c == b'\r' || c == b'\n') ≡ true
    → store l.buffer l.p 0 ≡ done b
    → key size plen c l
      ≡ done
          (finish (pos l.p) (record l { buffer = b; screen = puts (b'\r' ∷ b'\n' ∷ []) l.screen }))
unfolding key
key-enter size plen c l b enter stored = rw (enter, stored) refl

key-break :
    (size plen c : ℕ) (l : Line) (b : List ℕ)
    → (c == b'\r' || c == b'\n') ≡ false
    → (c == 0x03) ≡ true
    → store l.buffer 0 0 ≡ done b
    → key size plen c l ≡ done (finish (negsuc 0) (record l { buffer = b }))
unfolding key
key-break size plen c l b enter break_ stored = rw (enter, break_, stored) refl

read_keys-edit :
    (size plen : ℕ) (console text : List ℕ) (l : Line)
    → Shows size plen text l
    → Agrees (edit size text console) (read_keys size plen console l)
unfolding read_keys edit Agrees store load
read_keys-edit size plen [] text l s = refl
read_keys-edit size plen (c ∷ cs) text l s = elim (Bool-cases (c == b'\r' || c == b'\n')) [
  | inl enter ↦
      let (b, slack, stored, b_is, _) = store_at_end size plen 0 text l s in
      rw enter (
        record {
          code = pos l.p;
          line = record l { buffer = b; screen = puts (b'\r' ∷ b'\n' ∷ []) l.screen };
          console = cs;
        },
        rw (key-enter size plen c l b enter stored) refl,
        ap pos s.p_is,
        refl,
        slack,
        b_is,
      )
  | inr no_enter ↦ elim (Bool-cases (c == 0x03)) [
    | inl break_ ↦
        let (b, stored, zeroed) = store_at_start l.buffer (omega (arith, s.same_size, s.fits)) in
        rw (no_enter, break_)
          (
            record { code = negsuc 0; line = record l { buffer = b }; console = cs },
            rw (key-break size plen c l b no_enter break_ stored) refl,
            refl,
            refl,
            zeroed,
          )
    | inr no_break ↦
        let (l', goes, shows) = key-edit_key size plen c text l s no_enter no_break in
        let rest = read_keys-edit size plen cs (edit_key size c text) l' shows in
        rw (no_enter, no_break, goes) rest
  ]
]
  where
    store_at_start :
        (buffer : List ℕ)
        → 0 < length buffer
        → (b : List ℕ) × (store buffer 0 0 ≡ done b) × (load b 0 ≡ done 0)
    store_at_start [] h = absurd (omega arith)
    store_at_start (x ∷ xs) h = (0 ∷ xs, ground arith, refl)

-- For every sequence of keys, with a buffer of CFG_CBSIZE bytes, of which there is at least one:
-- `readline` stays inside of the buffer, and returns what the keys mean. Enter gives the length of
-- the text, which then stands in the buffer with a NUL behind it; ^C gives -1 and the empty string;
-- without either of them `readline` waits.
pub readline-edit :
    (size : ℕ) (prompt : CString) (buffer output console : List ℕ)
    → length buffer ≡ size
    → 0 < size
    → Agrees (edit size [] console) (readline size prompt buffer output console)
unfolding readline
readline-edit size prompt buffer output console same h =
    read_keys-edit size (strlen prompt) console [] _ (record {
      slack = buffer;
      buffer_is = refl;
      p_is = refl;
      n_is = refl;
      col_is = refl;
      same_size = same;
      fits = h;
    })
