-- ===== src/WebSocket/Frame.antt =====
-- A frame with a mask and a payload of 1 to 125 bytes, as RFC 6455 has it, and what WebSocketConnect.cpp
-- does with one that is complete.
use lua_server.Common.{
  ℕ, zero, suc, ◌+◌, ◌-◌, ◌/◌, ◌%◌, ◌^◌, ◌≤◌, ◌<◌, ◌≡◌, ◌≢◌, refl, ap, ap₂, ◌∙◌, false, Option,
  none, some, [], ◌∷◌, ◌++◌, ◌==◌, length, take, drop, arith, replicate, le→leb, append-nil, get_or,
}
use lua_server.Common.Bytes.{Bytes, All, IsByte, bytes_word, take_all, drop_all}
use lua_server.Common.Tables.{bit_xor-bit_xor}
use lua_server.ByteBuffer.{unread, read_word_at, slice}
use lua_server.WebSocket.{
  WebSocketPacket, WebSocketConnect, opcode, mask_key, key_byte, masked, decoding_datas, Action,
  message, closed, queued, complete,
}
use lua_server.WebSocket.Length.{dispatch_lem}
use lua_server.WebSocket.Head.{frame_at, behind_ten}
use Prim.Native.Nat.{bit_xor}
use mathlib.Core.List.{map, map-append}

pub record Frame : Type 0 where
  pub op : ℕ
  pub key : Bytes
  pub payload : Bytes

-- Octet i of the payload is masked with octet i modulo 4 of the key.
unfoldable pub client_mask : Bytes → ℕ → Bytes → Bytes
client_mask key i [] = []
client_mask key i (c ∷ cs) = bit_xor c (get_or key (i % 4) 0) ∷ client_mask key (suc i) cs

abbrev pub behind_two : Frame → Bytes
behind_two f = f.key ++ client_mask f.key 0 f.payload

abbrev pub frame_bytes : Frame → Bytes
frame_bytes f = f.op ∷ (128 + length f.payload) ∷ behind_two f

pub record IsFrame (f : Frame) : Type 0 where
  pub four : length f.key ≡ 4
  pub key_bytes : All IsByte f.key
  pub payload_bytes : All IsByte f.payload
  pub some_payload : 0 < length f.payload
  pub short_payload : length f.payload ≤ 125
  pub no_close : f.op % 16 ≢ 8

-- What the event object finds in the packet of a call of `onMsg`.
abbrev pub view : Action → Option (ℕ × Bytes)
view (message p) = some (opcode p, unread p.buffer)
view closed = none
view (queued p) = none

abbrev pub said : Frame → Option (ℕ × Bytes)
said f = some (f.op % 16, f.payload)

pub length-client_mask :
    (key : Bytes) (i : ℕ) (xs : Bytes) → length (client_mask key i xs) ≡ length xs
unfolding client_mask
length-client_mask key i [] = refl
length-client_mask key i (x ∷ xs) = ap suc (length-client_mask key (suc i) xs)

key_byte_small :
    (a b c d i : ℕ)
    → a < 256
    → b < 256
    → c < 256
    → d < 256
    → i < 4
    → key_byte (bytes_word (a ∷ b ∷ c ∷ d ∷ [])) i ≡ get_or (a ∷ b ∷ c ∷ d ∷ []) i 0
unfolding key_byte bytes_word
key_byte_small a b c d zero ha hb hc hd h = omega arith
key_byte_small a b c d (suc zero) ha hb hc hd h = omega arith
key_byte_small a b c d (suc (suc zero)) ha hb hc hd h = omega arith
key_byte_small a b c d (suc (suc (suc zero))) ha hb hc hd h = omega arith
key_byte_small a b c d (suc (suc (suc (suc i)))) ha hb hc hd h = absurd (omega arith)

module _ (a b c d : ℕ) (ha : a < 256) (hb : b < 256) (hc : c < 256) (hd : d < 256) where
  key_byte_lem :
      (i : ℕ) → key_byte (bytes_word (a ∷ b ∷ c ∷ d ∷ [])) i ≡ get_or (a ∷ b ∷ c ∷ d ∷ []) (i % 4) 0
  key_byte_lem i =
      let e : i % 4 ≡ i % 4 % 4 = omega arith in
      unfold key_byte in
      ap (λ j. bytes_word (a ∷ b ∷ c ∷ d ∷ []) / 256 ^ j % 256) e
      ∙ key_byte_small a b c d (i % 4) ha hb hc hd (omega arith)

  key_IsByte : (i : ℕ) → i < 4 → get_or (a ∷ b ∷ c ∷ d ∷ []) i 0 < 256
  key_IsByte zero h = ha
  key_IsByte (suc zero) h = hb
  key_IsByte (suc (suc zero)) h = hc
  key_IsByte (suc (suc (suc zero))) h = hd
  key_IsByte (suc (suc (suc (suc i)))) h = absurd (omega arith)

  -- `decodingDatas` takes the mask off.
  masked-client_mask :
      (i : ℕ) (xs : Bytes)
      → All IsByte xs
      → masked (bytes_word (a ∷ b ∷ c ∷ d ∷ [])) i (client_mask (a ∷ b ∷ c ∷ d ∷ []) i xs) ≡ xs
  unfolding masked client_mask
  masked-client_mask i [] h = refl
  masked-client_mask i (x ∷ xs) h =
      ap₂ ◌∷◌
        (ap (bit_xor (bit_xor x (get_or (a ∷ b ∷ c ∷ d ∷ []) (i % 4) 0))) (key_byte_lem i)
          ∙ bit_xor-bit_xor x (get_or (a ∷ b ∷ c ∷ d ∷ []) (i % 4) 0) h.0
              (key_IsByte (i % 4) (omega arith)))
        (masked-client_mask (suc i) xs h.1)

-- A complete frame, its key written out.
module _ (op a b c d : ℕ) where
  holding : ℕ → Bytes → WebSocketPacket
  holding len xs = record {
    buffer = record { storage = behind_ten (a ∷ b ∷ c ∷ d ∷ xs); rpos = 14; wpos = 14 + length xs };
    head = op ∷ (128 + len) ∷ [];
    headpos = 8;
  }

  module _ (xs : Bytes) where
    complete_at :
        (ys : Bytes)
        → frame_at (op ∷ (128 + length xs) ∷ a ∷ b ∷ c ∷ d ∷ ys) ≡ holding (length xs) ys
    unfolding holding
    complete_at ys =
        let room : 14 - length (behind_ten (a ∷ b ∷ c ∷ d ∷ ys)) ≡ 0 = omega arith in
        let ends : length (behind_ten (a ∷ b ∷ c ∷ d ∷ ys)) ≡ 14 + length ys = omega arith in
        ap₂
          (λ t w. record {
            buffer = record { storage = behind_ten (a ∷ b ∷ c ∷ d ∷ t); rpos = 14; wpos = w };
            head = op ∷ (128 + length xs) ∷ [];
            headpos = 8;
          })
          (ap (λ n. ys ++ replicate n 0) room ∙ append-nil ys) ends

    unmask_steps :
        (ys : Bytes)
        → length ys ≡ length xs
        → masked (bytes_word (a ∷ b ∷ c ∷ d ∷ [])) 0 ys ≡ xs
        → decoding_datas (holding (length xs) ys) (bytes_word (a ∷ b ∷ c ∷ d ∷ [])) (length xs)
          ≡ some (holding (length xs) xs)
    unfolding decoding_datas holding
    unmask_steps ys n m =
        let t : take (length xs) ys ≡ ys = rw (← n) (take_all ys) in
        let k : 14 + length xs ≡ length (behind_ten (a ∷ b ∷ c ∷ d ∷ ys)) = omega arith in
        let u : drop (14 + length xs) (behind_ten (a ∷ b ∷ c ∷ d ∷ ys)) ≡ [] =
          rw k (drop_all (behind_ten (a ∷ b ∷ c ∷ d ∷ ys))) in
        rw
          (
            le→leb (14 + length xs) (length (behind_ten (a ∷ b ∷ c ∷ d ∷ ys))) (omega arith),
            t,
            m,
            u,
            append-nil,
            n,
          )
          refl

    -- The packet of a complete frame is unmasked and handed to the event object.
    complete_steps :
        (conn : WebSocketConnect) (ys : Bytes)
        → length ys ≡ length xs
        → length xs ≤ 125
        → op % 16 ≢ 8
        → masked (bytes_word (a ∷ b ∷ c ∷ d ∷ [])) 0 ys ≡ xs
        → complete conn (holding (length xs) ys) (length xs)
          ≡ some (record {
            read_packet = none;
            actions = conn.actions ++ (message (holding (length xs) xs) ∷ []);
          })
    unfolding complete mask_key read_word_at slice holding
    complete_steps conn ys n l o m =
        let e : ((128 + length xs) / 128 % 2 == 0) ≡ false = ground arith in
        let f : (op % 16 == 8) ≡ false = ground arith in
        rw
          (
            e,
            le→leb (10 + 4) (length (behind_ten (a ∷ b ∷ c ∷ d ∷ ys))) (omega arith),
            unmask_steps ys n m,
            dispatch_lem,
            f,
          )
          refl

    view_lem : view (message (holding (length xs) xs)) ≡ some (op % 16, xs)
    unfolding holding
    view_lem = let e : 14 + length xs - 14 ≡ length xs = omega arith in rw (e, take_all xs) refl

-- What `complete` does with a frame.
pub record Handed (f : Frame) (conn : WebSocketConnect) (p : WebSocketPacket) : Type 0 where
  pub after : WebSocketConnect
  pub runs : complete conn p (length f.payload) ≡ some after
  pub idle : after.read_packet ≡ none
  pub heard : map view after.actions ≡ map view conn.actions ++ (said f ∷ [])

abbrev made : ℕ → Bytes → Bytes → Frame
made op key xs = record { op = op; key = key; payload = xs }

complete_key :
    (op : ℕ) (key xs : Bytes) (conn : WebSocketConnect)
    → IsFrame (made op key xs)
    → Handed (made op key xs) conn (frame_at (frame_bytes (made op key xs)))
complete_key op [] xs conn h = absurd (omega (arith, h.four))
complete_key op (a ∷ []) xs conn h = absurd (omega (arith, h.four))
complete_key op (a ∷ b ∷ []) xs conn h = absurd (omega (arith, h.four))
complete_key op (a ∷ b ∷ c ∷ []) xs conn h = absurd (omega (arith, h.four))
complete_key op (a ∷ b ∷ c ∷ d ∷ x ∷ ys) xs conn h = absurd (omega (arith, h.four))
complete_key op (a ∷ b ∷ c ∷ d ∷ []) xs conn h =
    let ys = client_mask (a ∷ b ∷ c ∷ d ∷ []) 0 xs in
    record {
      after = record {
        read_packet = none;
        actions = conn.actions ++ (message (holding op a b c d (length xs) xs) ∷ []);
      };
      runs = rw (complete_at op a b c d xs ys) (
          complete_steps op a b c d xs conn ys (length-client_mask (a ∷ b ∷ c ∷ d ∷ []) 0 xs)
            h.short_payload h.no_close
            (masked-client_mask a b c d h.key_bytes.0 h.key_bytes.1.0 h.key_bytes.1.1.0
              h.key_bytes.1.1.1.0 0 xs h.payload_bytes));
      idle = refl;
      heard =
          map-append view conn.actions (message (holding op a b c d (length xs) xs) ∷ [])
          ∙ ap (λ v. map view conn.actions ++ (v ∷ [])) (view_lem op a b c d xs);
    }

pub complete_lem :
    (f : Frame) (conn : WebSocketConnect) → IsFrame f → Handed f conn (frame_at (frame_bytes f))
complete_lem f conn h = complete_key f.op f.key f.payload conn h
