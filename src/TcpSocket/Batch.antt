-- ===== src/TcpSocket/Batch.antt =====
-- What `send_top_msg` takes from the queue.
use lua_server.Common.{
  ℕ, ◌+◌, ◌%◌, ◌^◌, ◌<◌, ◌≡◌, refl, true, false, ◌||◌, List, [], ◌∷◌, ◌++◌, leb, if◌then◌else◌,
  length, arith, append_assoc, append-nil, length-append, Bool-cases, inl, inr,
}
use lua_server.Common.Bytes.{All}
use lua_server.TcpSocket.{Packet, is_enough, fill, max_send_packet, max_send_byte}

-- A packet that is not empty, and whose size does not come near the range of an `int`.
abbrev pub IsSound : Packet → Type 0
IsSound p = (0 < length p) × (length p < 2 ^ 30)

abbrev pub total : List Packet → ℕ
total [] = 0
total (p ∷ ps) = length p + total ps

-- Each packet joined when fewer than 10 packets and fewer than 1024 bytes were before it.
abbrev pub Within : ℕ → ℕ → List Packet → Type 0
Within k sum [] = Unit
Within k sum (p ∷ ps) =
    (k < max_send_packet) × (sum < max_send_byte) × Within (k + 1) (sum + length p) ps

-- The first packets of the queue, up to the limits, and the others.
pub batch : List Packet → ℕ → ℕ → List Packet
batch [] k sum = []
batch (p ∷ ps) k sum =
    let rest = p ∷ batch ps (k + 1) (sum + length p) in
    if leb max_send_byte sum || leb max_send_packet k then [] else rest

pub waiting : List Packet → ℕ → ℕ → List Packet
waiting [] k sum = []
waiting (p ∷ ps) k sum =
    let rest = waiting ps (k + 1) (sum + length p) in
    if leb max_send_byte sum || leb max_send_packet k then p ∷ ps else rest

pub batch-append-waiting : (ps : List Packet) (k sum : ℕ) → batch ps k sum ++ waiting ps k sum ≡ ps
unfolding batch waiting
batch-append-waiting [] k sum = refl
batch-append-waiting (p ∷ ps) k sum =
    ground (arith, batch-append-waiting ps (k + 1) (sum + length p))

pub batch-Within : (ps : List Packet) (k sum : ℕ) → Within k sum (batch ps k sum)
unfolding batch
batch-Within [] k sum = tt
batch-Within (p ∷ ps) k sum = ground (arith, batch-Within ps (k + 1) (sum + length p))

pub waiting-All : (ps : List Packet) (k sum : ℕ) → All IsSound ps → All IsSound (waiting ps k sum)
unfolding waiting
waiting-All [] k sum h = tt
waiting-All (p ∷ ps) k sum h = ground (arith, waiting-All ps (k + 1) (sum + length p) h.1)

-- The loop computes this, as long as its sum is an `int`.
pub fill-batch :
    (ps sending : List Packet) (sum k : ℕ)
    → All IsSound ps
    → k ≡ length sending
    → sum < 2 ^ 30 + 1024
    → (fill ps sending sum ≡ (sending ++ batch ps k sum, sum + total (batch ps k sum)))
      × (sum + total (batch ps k sum) < 2 ^ 30 + 1024)
unfolding fill batch
fill-batch [] sending sum k h e l = ground (arith, append-nil sending)
fill-batch (p ∷ ps) sending sum k h e l =
    elim (Bool-cases (leb max_send_byte sum || leb max_send_packet k)) [
      | inl stop ↦ rw (stop, code_stops stop, append-nil) (ground arith, ground arith)
      | inr go ↦
          let small : (sum + length p) % 2 ^ 32 ≡ sum + length p = omega (arith, h.0) in
          let (same, bound) =
            fill-batch ps (sending ++ (p ∷ [])) (sum + length p) (k + 1) h.1
              (omega (arith, length-append sending (p ∷ []))) (below go) in
          rw (go, code_goes go, small, same)
            (
              ground (arith, append_assoc sending (p ∷ []) (batch ps (k + 1) (sum + length p))),
              omega (arith, bound),
            )
    ]
  where
    below :
        (leb max_send_byte sum || leb max_send_packet k) ≡ false → sum + length p < 2 ^ 30 + 1024
    below g = ground arith

    code_stops :
        (leb max_send_byte sum || leb max_send_packet k) ≡ true
        → (is_enough sum || leb max_send_packet (length sending)) ≡ true
    code_stops g = ground arith

    code_goes :
        (leb max_send_byte sum || leb max_send_packet k) ≡ false
        → (is_enough sum || leb max_send_packet (length sending)) ≡ false
    code_goes g = ground arith

-- A queue that is not empty gives a batch that is not.
pub batch_first :
    (p : Packet) (ps : List Packet) → batch (p ∷ ps) 0 0 ≡ p ∷ batch ps 1 (0 + length p)
unfolding batch
batch_first p ps = refl

pub waiting_first :
    (p : Packet) (ps : List Packet) → waiting (p ∷ ps) 0 0 ≡ waiting ps 1 (0 + length p)
unfolding waiting
waiting_first p ps = refl
