-- ===== src/Shell/Readline.antt =====
-- `readline` and `delete_char` of common/main.c, without CONFIG_BOOT_RETRY_TIME. The console is the
-- list of the bytes that `getc` returns, and `output` the bytes that have been printed.
pub mod Editor
pub mod Columns
pub mod Deletion
pub mod Keys
use armboot.Prelude.{
  ℕ, zero, suc, ◌+◌, ◌-◌, ◌%◌, true, false, ◌||◌, List, [], ◌∷◌, ◌++◌, ◌==◌, ltb, if◌then◌else◌,
  drop, Exec, done, fault, blocked, ◌>>=◌,
}
use armboot.Prelude.Int.{ℤ, pos, negsuc}
use armboot.Memory.{load, store}
use armboot.CString.{CString, strlen}

-- `erase_seq` and `tab_seq`
abbrev erase_seq : List ℕ
erase_seq = 8 ∷ b' ' ∷ 8 ∷ []

abbrev tab_seq : List ℕ
tab_seq = b' ' ∷ b' ' ∷ b' ' ∷ b' ' ∷ b' ' ∷ b' ' ∷ b' ' ∷ b' ' ∷ []

-- `col`, and what has been printed
pub record Screen : Type 0 where
  pub col : ℕ
  pub output : List ℕ

-- `p` is the index p - console_buffer.
pub record Line : Type 0 where
  pub buffer : List ℕ
  pub p : ℕ
  pub n : ℕ
  pub screen : Screen

abbrev pub puts : List ℕ → Screen → Screen
puts s screen = record screen { output = screen.output ++ s }

-- if (c == '\t') { puts (tab_seq+(col&07)); col += 8 - (col&07); } else { ++col; putc (c); }
unfoldable pub echo : ℕ → Screen → Screen
echo c screen =
    if c == b'\t'
    then record {
      col = screen.col + (8 - screen.col % 8);
      output = screen.output ++ drop (screen.col % 8) tab_seq;
    }
    else record { col = screen.col + 1; output = screen.output ++ c ∷ [] }

-- puts (erase_seq); --col;
abbrev pub erase_column : Screen → Screen
erase_column screen = record { col = screen.col - 1; output = screen.output ++ erase_seq }

pub erase_columns : ℕ → Screen → Screen
erase_columns zero screen = screen
erase_columns (suc k) screen = erase_columns k (erase_column screen)

-- while (col > plen) { puts (erase_seq); --col; }
unfoldable pub erase_line : ℕ → Screen → Screen
unfolding erase_columns
erase_line plen screen = erase_columns (screen.col - plen) screen

-- for (s=buffer; s<p; ++s) { ... }, by the rounds left
unfoldable pub retype : ℕ → List ℕ → ℕ → Screen → Exec Screen
retype zero buffer s screen = done screen
retype (suc k) buffer s screen = do c ← load buffer s; retype k buffer (s + 1) (echo c screen)

-- What is shown once the character `c` at `p` is gone.
unfoldable pub unshow : ℕ → ℕ → List ℕ → ℕ → Screen → Exec Screen
unshow plen c buffer p screen =
    if c == b'\t' then retype p buffer 0 (erase_line plen screen) else done (erase_column screen)

-- To step before the start of the buffer is a fault.
unfoldable pub delete_at : ℕ → Line → ℕ → Exec Line
delete_at plen l zero = fault
delete_at plen l (suc p) = do
  c ← load l.buffer p
  screen ← unshow plen c l.buffer p l.screen
  done (record { buffer = l.buffer; p = p; n = l.n - 1; screen = screen })

unfoldable pub delete_char : ℕ → Line → Exec Line
delete_char plen l = if l.n == 0 then done l else delete_at plen l l.p

-- while ((n > 0) && (*p != ' ')) p=delete_char(...)
unfoldable pub delete_word : ℕ → ℕ → Line → Exec Line
delete_word zero plen l = fault
delete_word (suc fuel) plen l = elim (l.n == 0) [
  | true ↦ done l
  | false ↦ do
    c ← load l.buffer l.p
    elim (c == b' ') [
      | true ↦ done l
      | false ↦ do l' ← delete_char plen l; delete_word fuel plen l'
    ]
]

-- After a character the loop goes on, or `readline` returns.
pub data Turn : Type 0 where
  go_on : Line → Turn
  finish : ℤ → Line → Turn

-- The `default` case: a full buffer rings the bell.
unfoldable pub insert : ℕ → ℕ → Line → Exec Line
insert size c l = elim (ltb (l.n + 2) size) [
  | false ↦ done (record l { screen = puts (7 ∷ []) l.screen })
  | true ↦ do
    b ← store l.buffer l.p c
    done (record { buffer = b; p = l.p + 1; n = l.n + 1; screen = echo c l.screen })
]

-- The `switch (c)`; `size` is CFG_CBSIZE.
unfoldable pub key : ℕ → ℕ → ℕ → Line → Exec Turn
key size plen c l =
    let enter = (do
      b ← store l.buffer l.p 0
      done (
          finish (pos l.p)
            (record l { buffer = b; screen = puts (b'\r' ∷ b'\n' ∷ []) l.screen }))) in
    let break_ = (do b ← store l.buffer 0 0; done (finish (negsuc 0) (record l { buffer = b }))) in
    let erase = done (go_on (record l { p = 0; n = 0; screen = erase_line plen l.screen })) in
    let word = (do l₁ ← delete_char plen l; l₂ ← delete_word (suc l₁.n) plen l₁; done (go_on l₂)) in
    if c == b'\r' || c == b'\n'
    then enter
    else if c == 0x03
    then break_
    else if c == 0x15
    then erase
    else if c == 0x17
    then word
    else if c == 0x08 || c == 0x7f
    then (do l' ← delete_char plen l; done (go_on l'))
    else (do l' ← insert size c l; done (go_on l'))

-- What `readline` returns, the line, and what is still to be read from the console.
pub record Answer : Type 0 where
  pub code : ℤ
  pub line : Line
  pub console : List ℕ

unfoldable pub read_keys : ℕ → ℕ → List ℕ → Line → Exec Answer
read_keys size plen [] l = blocked
read_keys size plen (c ∷ cs) l = do
  t ← key size plen c l
  elim t [
    | go_on l' ↦ read_keys size plen cs l'
    | finish code l' ↦ done (record { code = code; line = l'; console = cs })
  ]

-- `buffer` is the global `console_buffer`.
unfoldable pub readline : ℕ → CString → List ℕ → List ℕ → List ℕ → Exec Answer
readline size prompt buffer output console = read_keys size (strlen prompt) console (record {
  buffer = buffer;
  p = 0;
  n = 0;
  screen = record { col = strlen prompt; output = output ++ prompt };
})
