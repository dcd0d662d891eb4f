-- ===== src/Shell/Autoboot.antt =====
-- common/main.c: `abortboot`, with CONFIG_AUTOBOOT_KEYED and without it.
pub mod Keyed
use armboot.Prelude.{
  ℕ, zero, suc, ◌+◌, ◌-◌, ◌*◌, Bool, true, false, not, ◌&&◌, ◌||◌, List, [], ◌∷◌, Option, none,
  some, ◌==◌, if◌then◌else◌, Exec, done, ◌>>=◌,
}
use armboot.Prelude.Int.{ℤ, pos, negsuc, rounds, is_negative}
use armboot.CString.{CString}

-- `*p` and `p + 1` of a C string
abbrev pub peek : CString → ℕ
peek [] = 0
peek (c ∷ _) = c

abbrev pub advance : CString → CString
advance [] = []
advance (_ ∷ cs) = cs

-- if (*match != ch) match = key; if (*match == ch) ++match;
unfoldable pub match_one : CString → CString → ℕ → CString
match_one key m ch =
    let started = (if peek m == ch then m else key) in
    if peek started == ch then advance started else started

-- A key that may be missing, and what of it is still to come.
pub record Match : Type 0 where
  pub key : CString
  pub left : CString

abbrev pub matched : Option Match → ℕ → Option Match
matched none ch = none
matched (some m) ch = some (record m { left = match_one m.key m.left ch })

-- match && !*match
abbrev pub is_complete : Option Match → Bool
is_complete none = false
is_complete (some m) = peek m.left == 0

-- The loop `while (!abort && get_ticks() <= etime)`: a round for each time that the clock is read and
-- `etime` is not over, with the character that is there in it, if there is one.
abbrev pub after_round : Option Match → Option ℕ → Option Match
after_round m none = m
after_round m (some ch) = matched m ch

unfoldable pub watch : Option Match → Option Match → List (Option ℕ) → Bool
unfolding match_one
watch delay stop [] = false
watch delay stop (r ∷ rs) =
    let rest = watch (after_round delay r) (after_round stop r) rs in
    if is_complete delay || is_complete stop then true else rest

abbrev pub from_start : Option CString → Option Match
from_start none = none
from_start (some key) = some (record { key = key; left = key })

-- The variable, or the default of the configuration, if there is one.
abbrev pub or_default : Option CString → Option CString → Option CString
or_default none default = default
or_default (some key) _ = some key

abbrev pub bootdelaykey : CString
bootdelaykey =
    b'b' ∷ b'o' ∷ b'o' ∷ b't' ∷ b'd' ∷ b'e' ∷ b'l' ∷ b'a' ∷ b'y' ∷ b'k' ∷ b'e' ∷ b'y' ∷ []

abbrev pub bootstopkey : CString
bootstopkey = b'b' ∷ b'o' ∷ b'o' ∷ b't' ∷ b's' ∷ b't' ∷ b'o' ∷ b'p' ∷ b'k' ∷ b'e' ∷ b'y' ∷ []

-- The defaults are CONFIG_AUTOBOOT_DELAY_STR and CONFIG_AUTOBOOT_STOP_STR.
unfoldable pub abortboot_keyed :
    (CString → Exec (Option CString))
    → Option CString
    → Option CString
    → List (Option ℕ)
    → Exec Bool
unfolding watch
abortboot_keyed getenv delay_str stop_str rounds_seen = do
  delaykey ← getenv bootdelaykey
  stopkey ← getenv bootstopkey
  done (
      watch (from_start (or_default delaykey delay_str)) (from_start (or_default stopkey stop_str))
        rounds_seen)

-- Without the keys. The list says at each call of `tstc` whether a key is there; behind its end no
-- key comes.
abbrev pub tstc : List Bool → Bool
tstc [] = false
tstc (b ∷ _) = b

abbrev pub later : List Bool → List Bool
later [] = []
later (_ ∷ bs) = bs

-- for (i=0; !abort && i<100; ++i), by the rounds left: was there a key?
unfoldable pub poll_second : ℕ → List Bool → Bool × List Bool
poll_second zero polls = (false, polls)
poll_second (suc i) polls =
    let rest = poll_second i (later polls) in if tstc polls then (true, later polls) else rest

-- while (bootdelay > 0), by the seconds left
unfoldable pub poll_seconds : ℕ → List Bool → Bool
unfolding poll_second
poll_seconds zero polls = false
poll_seconds (suc seconds) polls =
    let rest = poll_seconds seconds (poll_second 100 polls).1 in
    if (poll_second 100 polls).0 then true else rest

-- `zero_check` is CONFIG_ZERO_BOOTDELAY_CHECK.
unfoldable pub abortboot : Bool → ℤ → List Bool → Bool
unfolding poll_seconds
abortboot zero_check bootdelay polls =
    if zero_check && not (is_negative bootdelay)
    then (if tstc polls then true else poll_seconds (rounds bootdelay) (later polls))
    else poll_seconds (rounds bootdelay) polls
