-- ===== src/Kermit/Round/Expected.antt =====
-- common/cmd_boot.c: the state in which `k_recv` expects a packet, and how a round begins and ends.
use armboot.Prelude.{ℕ, ◌≡◌, true, false, List, [], Option, none, some, arith, if◌then◌else◌}
use armboot.Kermit.{Saved, Sink, Peer, Link, k_escape, k_data_save, k_data_restore, go}
use armboot.Kermit.Answer.{total}
use armboot.Kermit.Receive.{repeats, checkpoint, proceed, accept, Outcome}
use armboot.Kermit.Frame.{opened, at, body}
use armboot.Kermit.Stage.{Has}

-- The sink, once the number of the next packet is known.
abbrev pub expected_sink : ℕ → Link → Sink
expected_sink n l = if repeats n l.last_n then k_data_restore l.saved l.sink else l.sink

abbrev expected_saved : ℕ → Link → Saved
expected_saved n l = if repeats n l.last_n then l.saved else k_data_save l.sink

-- The next packet is to carry the number `n`, and so much has arrived, from the address on that the
-- download began with.
pub record Expects (l : Link) (n start : ℕ) (file : List ℕ) : Type 0 where
  pub quote : l.peer.quote ≡ k_escape
  pub has : Has (expected_sink n l) start file

-- The state behind the header of a packet, field by field.
abbrev pub marked : ℕ → ℕ → Link → Link
marked n kind l = record l {
  sink = expected_sink n l;
  saved = expected_saved n l;
  k_state = kind;
  k_state_saved = (if repeats n l.last_n then l.k_state_saved else l.k_state);
  n = n;
  last_n = some n;
  parms = [];
}

repeats_last : (n : ℕ) (o : Option ℕ) → repeats n o ≡ true → o ≡ some n
repeats_last n none e = cc
repeats_last n (some m) e = ground arith

pub opened-marked : (n kind : ℕ) (l : Link) → opened n kind l ≡ marked n kind l
unfolding checkpoint
opened-marked n kind l = ground (arith, repeats_last n l.last_n)

-- What is saved is the sink as it was before the packet.
pub restore_saved :
    (n : ℕ) (l : Link) (s : Sink)
    → k_data_restore (expected_saved n l) s ≡ record (expected_sink n l) { memory = s.memory }
unfolding k_data_restore k_data_save
restore_saved n l s = ground arith

pub proceed_more :
    (next : Link → Outcome) (t : Link)
    → (accept t).1 ≡ false
    → proceed next (go tt t) ≡ next (accept t).0
proceed_more next t e = rw e

-- A link that has settled behind the packet with the number `n`.
pub record Settled (l : Link) (n start : ℕ) (file output : List ℕ) (peer : Peer) : Type 0 where
  pub number : l.n ≡ n
  pub last : l.last_n ≡ some n
  pub sent : l.output ≡ output
  pub agreed : l.peer ≡ peer
  pub has : Has l.sink start file

-- The state behind a packet, and its sum.
abbrev behind : List ℕ → ℕ → ℕ → List ℕ → Link → Link
behind rest n kind payload l = at rest (total (body n kind payload)) (marked n kind l)
