-- ===== src/Serial/Records.antt =====
-- common/cmd_boot.c: `load_serial` on the text of a download, line by line.
use armboot.Prelude.{
  ℕ, zero, suc, ◌+◌, ◌%◌, ◌^◌, ◌<◌, ◌≤◌, ◌≡◌, ◌∙◌, refl, ap, Bool, true, false, List, [], ◌∷◌,
  arith, Exec, done, bind-done, ◌==◌, if◌then◌else◌, length, Option, none, some,
}
use armboot.Prelude.Int.{ℤ}
use armboot.Srec.{Status, bad_chks, Decoder, ret, srec_decode}
use armboot.Srec.Line.{Kind, s0, s1, s2, s3, s5, s7, s8, s9, Line, checksum, hex, status}
use armboot.Srec.Decode.{before_checksum, srec_decode-nil, srec_decode-render}
use armboot.Flash.{Bank}
use armboot.Flash.Write.{addr2info}
use armboot.Serial.{
  Byte, line, max_rec_len, copy_out, all_ones, Store, Turn, further, return, Loaded, copied,
  carry_on, store_in, store_record, take_record, decoded, with_reading, load_lines, load_serial,
}
use armboot.Serial.Text.{
  ArePlain, on_line, text_line, read_record-text_line, render-ArePlain, length-render,
}
use armboot.Serial.Lines.{
  Item, blank, item, Sent, IsItem, AreSent, text_of, on_wire, put_all, put_at, put_piece, obeyed,
  effect, settle, obey_all,
}

copy_out-put_all :
    (bs : List ℕ) (p : ℕ) (m : ℕ → ℕ) → copy_out (length bs) bs p m ≡ done (put_all bs p m)
unfolding copy_out put_all
copy_out-put_all [] p m = refl
copy_out-put_all (c ∷ cs) p m =
    copy_out-put_all cs ((p + 1) % 2 ^ 32) (λ a. if a == p then c else m a)

module _ {S : Type 0} (write_buff : ℕ → List ℕ → ℕ → ℕ → S → ℤ × S) (banks : List Bank)
    (offset : ℕ) where
  store_record-line :
      (l : Line) (i : List ℕ) (st : Store S)
      → store_record write_buff banks offset (before_checksum l i) st
        ≡ done (put_piece write_buff banks offset l st)
  unfolding store_record
  store_record-line l i st = stored (addr2info 0 banks ((l.addr + offset) % 2 ^ 32))
    where
      stored :
          (o : Option ℕ)
          → store_in write_buff banks offset (before_checksum l i) ((l.addr + offset) % 2 ^ 32) o st
            ≡ done (put_at write_buff banks offset l.payload ((l.addr + offset) % 2 ^ 32) st o)
      stored none =
          ap (copied st) (copy_out-put_all l.payload ((l.addr + offset) % 2 ^ 32) st.memory)
      stored (some _) = refl

  take_record-line :
      (k : Kind) (l : Line) (i : List ℕ) (st : Store S)
      → take_record write_buff banks offset (status k) (before_checksum l i) st
        ≡ done (obeyed write_buff banks offset l st k)
  unfolding take_record
  take_record-line s0 l i st = refl
  take_record-line s1 l i st = store_record-line l i st
  take_record-line s2 l i st = store_record-line l i st
  take_record-line s3 l i st = store_record-line l i st
  take_record-line s5 l i st = refl
  take_record-line s7 l i st = refl
  take_record-line s8 l i st = refl
  take_record-line s9 l i st = refl

  decoded-ret :
      (t : Status) (d : Decoder) (st : Store S) {turn : Turn S}
      → take_record write_buff banks offset t d st ≡ done turn
      → decoded write_buff banks offset (ret t d) st ≡ done (d, turn)
  decoded-ret t d st e = rw e

  checked-line :
      (b : Bool) (l : Line) (i : List ℕ) (st : Store S)
      → decoded write_buff banks offset
          (ret (if b then status l.kind else bad_chks) (before_checksum l i))
          st
        ≡ done (
          before_checksum l i,
          (if b then obeyed write_buff banks offset l st l.kind else return all_ones st),
        )
  unfolding take_record
  checked-line true l i st =
      decoded-ret (status l.kind) (before_checksum l i) st (take_record-line l.kind l i st)
  checked-line false l i st = refl

  decoded-item :
      (x : Item) (d : Decoder) (st : Store S)
      → IsItem x
      → (d' : Decoder) × (decoded write_buff banks offset (srec_decode (text_of x) d) st
          ≡ done (d', effect write_buff banks offset x st))
  unfolding take_record
  decoded-item blank d st h = (
    record d { input = []; chksum = 0; bytes = [] },
    ap (λ t. decoded write_buff banks offset t st) (srec_decode-nil d),
  )
  decoded-item (item l c) d st h = (
    before_checksum l (hex c []),
    ap (λ t. decoded write_buff banks offset t st) (srec_decode-render [] [] l c d tt h.0 h.1)
        ∙ checked-line (c == checksum l) l (hex c []) st,
  )

  -- The turns of the program and of the description agree.
  carry-settle :
      (next : Decoder → Store S → Exec (Loaded S)) (obey : Store S → Exec (Loaded S))
      (bs : List Byte) (d : Decoder) (turn : Turn S)
      → ((st : Store S) → next d st ≡ obey st)
      → carry_on next bs (d, turn) ≡ settle obey bs turn
  carry-settle next obey bs d (further st) h = h st
  carry-settle next obey bs d (return r st) h = refl

  with_reading-item :
      (x : Item) (next : List Byte → Decoder → Store S → Exec (Loaded S))
      (obey : Store S → Exec (Loaded S)) (bs : List Byte) (d : Decoder) (st : Store S)
      → IsItem x
      → ((d' : Decoder) (st' : Store S) → next bs d' st' ≡ obey st')
      → with_reading write_buff banks offset next d st (line (text_of x), bs)
        ≡ settle obey bs (effect write_buff banks offset x st)
  with_reading-item x next obey bs d st h same =
      let (d', e) = decoded-item x d st h in
      bind-done (λ r. carry_on (next bs) bs r) e
      ∙ carry-settle (next bs) obey bs d' (effect write_buff banks offset x st) (same d')

  text_of-fits : (x : Item) → IsItem x → (length (text_of x) < max_rec_len) × ArePlain (text_of x)
  text_of-fits blank h = (omega arith, tt)
  text_of-fits (item l c) h = (length-render l c h.0, render-ArePlain l c)

  length-text_line :
      (cs : List ℕ) (c : ℕ) (bs : List Byte) → suc (length bs) ≤ length (text_line cs c bs)
  unfolding on_line
  length-text_line [] c bs = omega arith
  length-text_line (x ∷ cs) c bs = omega (arith, length-text_line cs c bs)

  load_lines-on_wire :
      (fuel : ℕ) (ss : List Sent) (d : Decoder) (st : Store S)
      → length (on_wire ss) < fuel
      → AreSent ss
      → load_lines write_buff banks offset fuel (on_wire ss) d st
        ≡ obey_all write_buff banks offset ss st
  unfolding load_lines on_wire obey_all
  load_lines-on_wire zero ss d st lt h = absurd (omega arith)
  load_lines-on_wire (suc fuel) [] d st lt h = refl
  load_lines-on_wire (suc fuel) (s ∷ ss) d st lt h =
      let fits = text_of-fits s.what h.0 in
      let shorter = length-text_line (text_of s.what) s.end (on_wire ss) in
      bind-done
        (λ r. with_reading write_buff banks offset (load_lines write_buff banks offset fuel) d st r)
        (read_record-text_line (text_of s.what) s.end (on_wire ss) fits.0 fits.1 h.1)
      ∙ with_reading-item s.what (load_lines write_buff banks offset fuel)
          (obey_all write_buff banks offset ss) (on_wire ss) d st h.0
          (λ d' st'. load_lines-on_wire fuel ss d' st' (omega (arith, shorter)) h.2)

  -- The text of any lines of the format, each with any check byte and ended by CR or LF, empty lines
  -- among them, of which no byte comes early: `load_serial` does what the lines say. Data go to the
  -- memory, or to the flash where a bank has their first address, at the address of the line and the
  -- offset; a wrong check byte, or an error of the flash, ends the download with ~0; an ending line
  -- ends it with its address, and the text behind it is not read. Where no line ends it, it waits.
  pub load_serial-obey_all :
      (ss : List Sent) (d : Decoder) (st : Store S)
      → AreSent ss
      → load_serial write_buff banks offset (on_wire ss) d st
        ≡ obey_all write_buff banks offset ss st
  unfolding load_serial
  load_serial-obey_all ss d st h =
      load_lines-on_wire (suc (length (on_wire ss))) ss d st (omega arith) h
