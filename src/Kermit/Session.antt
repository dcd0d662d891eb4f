-- ===== src/Kermit/Session.antt =====
-- common/cmd_boot.c: a whole download by `loadb`, as a sender sees it: packets in sequence, each sent
-- again after each damaged attempt at it.
use armboot.Prelude.{ℕ, suc, ◌≢◌, ◌+◌, ◌%◌, ◌<◌, ◌≤◌, ◌≡◌, List, [], ◌∷◌, ◌++◌, length}
use armboot.Kermit.{Peer, k_escape}
use armboot.Kermit.Answer.{ack_type, nack_type}
use armboot.Kermit.Receive.{data_type, send_type, break_type}
use armboot.Kermit.Frame.{AreBytes, frame, sealed, own_check}
use armboot.Kermit.Escape.{encode, AreOctets}
use armboot.Kermit.Reply.{reply, negotiated, answer}
use armboot.Kermit.Taken.{kept}

-- What a packet is about: the sender's parameters, a piece of the file, or anything else.
pub data Message : Type 0 where
  parameters : List ℕ → Message
  piece : List ℕ → Message
  notice : ℕ → List ℕ → Message

-- A packet that arrives with a wrong check byte, and anything else in it.
pub record Attempt : Type 0 where
  pub check : ℕ
  pub kind : ℕ
  pub payload : List ℕ

pub record Delivery : Type 0 where
  pub attempts : List Attempt
  pub message : Message

abbrev pub kind_of : Message → ℕ
kind_of (parameters _) = send_type
kind_of (piece _) = data_type
kind_of (notice kind _) = kind

abbrev pub payload_of : Message → List ℕ
payload_of (parameters ps) = ps
payload_of (piece cs) = encode cs
payload_of (notice _ payload) = payload

abbrev pub IsPayload : List ℕ → Type 0
IsPayload payload = AreBytes payload × (length payload < 221)

abbrev pub IsMessage : Message → Type 0
IsMessage (parameters ps) = IsPayload ps × ((negotiated (kept ps [])).quote ≡ k_escape)
IsMessage (piece cs) = AreOctets cs × (length (encode cs) < 221)
IsMessage (notice kind payload) =
    IsPayload payload × (32 ≤ kind) × (kind ≢ send_type) × (kind ≢ data_type) × (kind ≢ break_type)

abbrev pub AreAttempts : ℕ → List Attempt → Type 0
AreAttempts n [] = Unit {0}
AreAttempts n (a ∷ rest) =
    (a.check ≢ own_check n a.kind a.payload)
    × (32 ≤ a.kind)
    × IsPayload a.payload
    × AreAttempts n rest

-- Numbers count modulo 64.
abbrev pub next_number : ℕ → ℕ
next_number n = (n + 1) % 64

abbrev pub AreDeliveries : ℕ → List Delivery → Type 0
AreDeliveries n [] = Unit {0}
AreDeliveries n (d ∷ ds) =
    AreAttempts n d.attempts × IsMessage d.message × AreDeliveries (next_number n) ds

unfoldable pub number_after : ℕ → List Delivery → ℕ
number_after n [] = n
number_after n (_ ∷ ds) = number_after (next_number n) ds

-- The bytes on the line.
unfoldable pub attempts_wire : ℕ → List Attempt → List ℕ → List ℕ
attempts_wire n [] tail = tail
attempts_wire n (a ∷ rest) tail = sealed a.check n a.kind a.payload (attempts_wire n rest tail)

unfoldable pub wire : ℕ → List Delivery → List ℕ → List ℕ
unfolding attempts_wire
wire n [] tail = tail
wire n (d ∷ ds) tail =
    attempts_wire n d.attempts
      (frame n (kind_of d.message) (payload_of d.message) (wire (next_number n) ds tail))

-- The file, and what is answered.
abbrev pub piece_of : Message → List ℕ
piece_of (parameters _) = []
piece_of (piece cs) = cs
piece_of (notice _ _) = []

unfoldable pub content : List Delivery → List ℕ
content [] = []
content (d ∷ ds) = piece_of d.message ++ content ds

abbrev pub peer_after : Message → Peer → Peer
peer_after (parameters ps) p = negotiated (kept ps [])
peer_after (piece _) p = p
peer_after (notice _ _) p = p

abbrev pub answer_to : Message → List ℕ
answer_to (parameters ps) = answer (kept ps [])
answer_to (piece _) = []
answer_to (notice _ _) = []

unfoldable pub nacks : Peer → ℕ → List Attempt → List ℕ
nacks p n [] = []
nacks p n (_ ∷ rest) = reply p n nack_type [] ++ nacks p n rest

unfoldable pub replies : Peer → ℕ → List Delivery → List ℕ
unfolding nacks
replies p n [] = []
replies p n (d ∷ ds) =
    nacks p n d.attempts
    ++ (reply (peer_after d.message p) n ack_type (answer_to d.message)
        ++ replies (peer_after d.message p) (next_number n) ds)

unfoldable pub last_peer : Peer → List Delivery → Peer
last_peer p [] = p
last_peer p (d ∷ ds) = last_peer (peer_after d.message p) ds

-- The packets in all, damaged ones included.
unfoldable pub packets : List Delivery → ℕ
packets [] = 0
packets (d ∷ ds) = suc (length d.attempts + packets ds)
