-- ===== src/Serial/Lines.antt =====
-- The lines of an S-record download, and what they are for, written for themselves.
use armboot.Prelude.{
  ℕ, ◌+◌, ◌%◌, ◌^◌, ◌<◌, List, [], ◌∷◌, Exec, done, blocked, ◌==◌, if◌then◌else◌, length, Option,
  none, some,
}
use armboot.Prelude.Int.{ℤ}
use armboot.Srec.Line.{Kind, s0, s1, s2, s3, s5, s7, s8, s9, Line, IsLine, checksum, render}
use armboot.Flash.{Bank}
use armboot.Flash.Write.{addr2info, flash_write}
use armboot.Serial.{Byte, all_ones, Store, Turn, further, return, Loaded, written}
use armboot.Serial.Text.{IsStop, text_line}

-- A line of the download: an empty one, or a record with any check byte.
pub data Item : Type 0 where
  blank : Item
  item : Line → ℕ → Item

-- With the character that ends it.
pub record Sent : Type 0 where
  pub what : Item
  pub end : ℕ

abbrev pub IsItem : Item → Type 0
IsItem blank = Unit {0}
IsItem (item l c) = IsLine l × (c < 256)

abbrev pub AreSent : List Sent → Type 0
AreSent [] = Unit {0}
AreSent (s ∷ ss) = IsItem s.what × IsStop s.end × AreSent ss

abbrev pub text_of : Item → List ℕ
text_of blank = []
text_of (item l c) = render l c []

unfoldable pub on_wire : List Sent → List Byte
on_wire [] = []
on_wire (s ∷ ss) = text_line (text_of s.what) s.end (on_wire ss)

-- Bytes into the memory from an address on.
unfoldable pub put_all : List ℕ → ℕ → (ℕ → ℕ) → ℕ → ℕ
put_all [] p m = m
put_all (c ∷ cs) p m = put_all cs ((p + 1) % 2 ^ 32) (λ a. if a == p then c else m a)

abbrev pub settle :
    {S : Type 0} → (Store S → Exec (Loaded S)) → List Byte → Turn S → Exec (Loaded S)
settle next bs (further st) = next st
settle next bs (return r st) = done (bs, r, st)

module _ {S : Type 0} (write_buff : ℕ → List ℕ → ℕ → ℕ → S → ℤ × S) (banks : List Bank)
    (offset : ℕ) where
  -- A piece of the program goes to the flash if some bank has its first address, and to the memory
  -- if none has.
  abbrev pub put_at : List ℕ → ℕ → Store S → Option ℕ → Turn S
  put_at bs a st none = further (record st { memory = put_all bs a st.memory })
  put_at bs a st (some _) = written st (flash_write write_buff banks bs a (length bs) st.flash)

  abbrev pub put_piece : Line → Store S → Turn S
  put_piece l st = let a = (l.addr + offset) % 2 ^ 32 in put_at l.payload a st (addr2info 0 banks a)

  -- What a record is for.
  abbrev pub obeyed : Line → Store S → Kind → Turn S
  obeyed l st s0 = further st
  obeyed l st s1 = put_piece l st
  obeyed l st s2 = put_piece l st
  obeyed l st s3 = put_piece l st
  obeyed l st s5 = further st
  obeyed l st s7 = return l.addr st
  obeyed l st s8 = return l.addr st
  obeyed l st s9 = return l.addr st

  abbrev pub effect : Item → Store S → Turn S
  effect blank st = further st
  effect (item l c) st = if c == checksum l then obeyed l st l.kind else return all_ones st

  -- The download: lines are obeyed until one ends it. Without such a line it waits for ever.
  unfoldable pub obey_all : List Sent → Store S → Exec (Loaded S)
  obey_all [] st = blocked
  obey_all (s ∷ ss) st = settle (obey_all ss) (on_wire ss) (effect s.what st)
