-- ===== src/WebSocket.antt =====
-- src/network/WebSocketPacket.cpp and WebSocketConnect.cpp, behind the handshake: a WebSocket packet,
-- and the loop of `on_msgbuffer`.
pub mod Length
pub mod Send
pub mod Head
pub mod Stall
pub mod LongHead
pub mod Long
pub mod Frame
pub mod Round
pub mod Deliver
pub mod Pieces
mod Tests
use lua_server.Common.{
  ℕ, zero, suc, ◌+◌, ◌-◌, ◌*◌, ◌/◌, ◌%◌, ◌^◌, Bool, true, false, ◌&&◌, ◌||◌, Option, none, some,
  List, [], ◌∷◌, ◌++◌, leb, ltb, ◌==◌, if◌then◌else◌, ◌>>=◌, length, take, drop, get_or,
}
use lua_server.Common.Bytes.{Bytes, resize, overwrite, bytes_word, word_bytes}
use lua_server.ByteBuffer.{ByteBuffer, size, append, put, put_word, read_word_at}
use lua_server.MessageBuffer.{MessageBuffer, read_completed, active_size, peek}
use lua_server.NetPacket.{int32_to_size, to_int32, is_positive, base_zero}
use Prim.Native.Nat.{bit_xor}

abbrev pub ws_head_size : ℕ
ws_head_size = 2

abbrev pub ws_max_head_size : ℕ
ws_max_head_size = 14

-- `__m_head` and `__m_headpos` beside the bytes of the packet. The two bytes of `__m_head` are not
-- set by the constructor, and are 0 here; they are written before they are read.
pub record WebSocketPacket : Type 0 where
  pub buffer : ByteBuffer
  pub head : Bytes
  pub headpos : ℕ

-- `zero`, and `new WebSocketPacket` with what the pooled vector held
unfoldable pub zero_frame : WebSocketPacket → WebSocketPacket
zero_frame p = record p {
  buffer = record {
    storage = resize ws_max_head_size p.buffer.storage;
    rpos = ws_max_head_size;
    wpos = ws_max_head_size;
  };
  headpos = 0;
}

unfoldable pub new_frame : Bytes → WebSocketPacket
unfolding base_zero zero_frame
new_frame old = zero_frame (record {
  buffer = base_zero (record { storage = old; rpos = 0; wpos = 0 });
  head = 0 ∷ 0 ∷ [];
  headpos = 0;
})

-- `getOpcode`, `getMask` and `getPayloadLen`
abbrev pub opcode : WebSocketPacket → ℕ
opcode p = get_or p.head 0 0 % 16

abbrev pub mask : WebSocketPacket → ℕ
mask p = get_or p.head 1 0 / 128 % 2

abbrev pub payload_len : WebSocketPacket → ℕ
payload_len p = get_or p.head 1 0 % 128

-- `calcHeadSize`
unfoldable pub calc_head_size : WebSocketPacket → ℕ
calc_head_size p =
    ws_head_size
    + (if payload_len p == 126 then 2 else (if payload_len p == 127 then 8 else 0))
    + (if mask p == 0 then 0 else 4)

-- `getMarkLen`, the bits of an `int`
unfoldable pub frame_len : WebSocketPacket → Option ℕ
frame_len p =
    if ltb (payload_len p) 126
    then some (payload_len p)
    else (if payload_len p == 126
        then read_word_at 2 p.buffer ws_head_size
        else (read_word_at 8 p.buffer ws_head_size >>= λ n. some (to_int32 n)))

unfoldable pub is_frame_head_full : WebSocketPacket → Bool
is_frame_head_full p = leb ws_max_head_size p.buffer.wpos

-- `getMaskKey`, its four bytes
unfoldable pub mask_key : WebSocketPacket → Option ℕ
mask_key p = read_word_at 4 p.buffer (ws_max_head_size - 4)

-- The first part of `readFrameHead`: the two bytes of `__m_head`. `source` reads the bytes in reach;
-- what is taken is counted.
abbrev pub head_left : WebSocketPacket → ℕ
head_left p = to_int32 (ws_head_size + 2 ^ 64 - p.buffer.wpos)

abbrev pub least : ℕ → ℕ → ℕ
least rsize size = if leb rsize size then rsize else size

unfoldable pub place_head : WebSocketPacket → WebSocketPacket
place_head p =
    if p.buffer.wpos == ws_head_size
    then (let pos = ws_max_head_size - calc_head_size p in
        record p { headpos = pos; buffer = record (p.buffer) { wpos = pos + ws_head_size } })
    else p

unfoldable pub read_two : WebSocketPacket → Bytes → ℕ × WebSocketPacket
read_two p bs =
    if is_positive (head_left p)
    then (let n = least (head_left p) (length bs) in
        (
          n,
          place_head (record p {
            head = overwrite p.buffer.wpos (take n bs) p.head;
            buffer = record (p.buffer) { wpos = p.buffer.wpos + n };
          }),
        ))
    else (0, p)

-- The second part: what else the head has.
abbrev pub rest_left : WebSocketPacket → ℕ
rest_left p = to_int32 (ws_max_head_size + 2 ^ 64 - p.buffer.wpos)

unfoldable pub read_rest : ℕ → WebSocketPacket → Bytes → Option (ℕ × WebSocketPacket)
read_rest taken p bs =
    if (leb ws_head_size p.buffer.wpos && ltb 0 (length bs)) && is_positive (rest_left p)
    then (let n = least (rest_left p) (length bs) in
        put p.buffer p.buffer.wpos (take n bs) >>= λ b.
        some (taken + n, record p { buffer = record b { wpos = b.wpos + n } }))
    else some (taken, p)

-- `readFrameHead`
unfoldable pub read_frame_head : WebSocketPacket → Bytes → Option (ℕ × WebSocketPacket)
read_frame_head p bs = let (n, p') = read_two p bs in read_rest n p' (drop n bs)

-- `writeFrameHead`, with the bits of an `int` as length: the length in front of the head's end, and
-- two bytes in front of it.
abbrev pub binary_frame : ℕ
binary_frame = 0x82

unfoldable pub put_length : WebSocketPacket → ℕ → Option (ℕ × WebSocketPacket)
put_length p bodylen =
    if leb bodylen 125 || leb (2 ^ 31) bodylen
    then some (bodylen, record p { headpos = ws_max_head_size })
    else (if leb bodylen 0xffff
        then (put_word 2 p.buffer (ws_max_head_size - 2) bodylen >>= λ b.
            some (126, record p { buffer = b; headpos = ws_max_head_size - 2 }))
        else (put_word 8 p.buffer (ws_max_head_size - 8) bodylen >>= λ b.
            some (127, record p { buffer = b; headpos = ws_max_head_size - 8 })))

unfoldable pub write_frame_head : WebSocketPacket → ℕ → ℕ → Option WebSocketPacket
write_frame_head p bodylen frame_type = put_length p bodylen >>= λ (bytelength, p').
    put_word 1 p'.buffer (p'.headpos - 1) bytelength >>= λ b.
    put_word 1 b (p'.headpos - 2) frame_type >>= λ b'.
    some (record p' { buffer = b'; headpos = p'.headpos - 2 })

-- `sendSize` bytes from `sendStream` on
abbrev pub frame_wire : WebSocketPacket → Bytes
frame_wire p = take (p.buffer.wpos - p.headpos) (drop p.headpos p.buffer.storage)

-- `setPongPacket`
unfoldable pub set_pong : WebSocketPacket → Option WebSocketPacket
set_pong p =
    if leb 1 p.buffer.wpos
    then (put_word 1 p.buffer p.headpos 0x8A >>= λ b. some (record p { buffer = b }))
    else some p

-- `moveData`, the body's length taken before it; the other packet is zeroed.
unfoldable pub move_frame :
    WebSocketPacket → WebSocketPacket → Option (WebSocketPacket × WebSocketPacket)
move_frame p other =
    let len = to_int32 (other.buffer.wpos + 2 ^ 64 - ws_max_head_size) in
    write_frame_head (record p { buffer = other.buffer }) len binary_frame >>= λ p'.
    some (p', zero_frame (record other { buffer = p.buffer }))

-- `sendMsg(const char *, uint32)` and `sendMsg(WebSocketPacket *)`: the packet that is queued
unfoldable pub send_frame : Bytes → Option WebSocketPacket
send_frame msg = write_frame_head (new_frame []) (to_int32 (length msg)) binary_frame >>= λ p.
    append p.buffer msg >>= λ b. some (record p { buffer = b })

unfoldable pub send_moved : WebSocketPacket → Option (WebSocketPacket × WebSocketPacket)
send_moved pack = move_frame (new_frame []) pack

-- `decodingDatas`: each byte with the key's byte at its place.
unfoldable pub key_byte : ℕ → ℕ → ℕ
key_byte key i = key / 256 ^ (i % 4) % 256

unfoldable pub masked : ℕ → ℕ → Bytes → Bytes
masked key i [] = []
masked key i (c ∷ cs) = bit_xor c (key_byte key i) ∷ masked key (suc i) cs

unfoldable pub decoding_datas : WebSocketPacket → ℕ → ℕ → Option WebSocketPacket
decoding_datas p key len =
    let b = p.buffer in
    if leb (b.rpos + len) (size b)
    then some (record p {
      buffer = record b {
        storage = overwrite b.rpos (masked key 0 (take len (drop b.rpos b.storage))) b.storage;
      };
    })
    else none

-- What the connection has done: a call of the event's `onMsg`, `close`, or a packet queued.
pub data Action : Type 0 where
  message : WebSocketPacket → Action
  closed : Action
  queued : WebSocketPacket → Action

-- The switch. `getOpcode` has four bits, and PING_FRAME is 0x89.
unfoldable pub dispatch : WebSocketPacket → Option (List Action)
dispatch p =
    if opcode p == 0x08
    then some (closed ∷ [])
    else (if opcode p == 0x89
        then (set_pong p >>= λ p'. send_moved p' >>= λ (q, p''). some (queued q ∷ []))
        else some (message p ∷ []))

pub record WebSocketConnect : Type 0 where
  pub read_packet : Option WebSocketPacket
  pub actions : List Action

unfoldable pub current_frame : Option WebSocketPacket → WebSocketPacket
current_frame none = let p = new_frame [] in record p { buffer = record (p.buffer) { wpos = 0 } }
current_frame (some p) = p

-- A complete packet is unmasked, handled and recycled.
unfoldable pub complete : WebSocketConnect → WebSocketPacket → ℕ → Option WebSocketConnect
complete c p len =
    (if mask p == 0 then some p else (mask_key p >>= λ key. decoding_datas p key len)) >>= λ p'.
    dispatch p' >>= λ as'. some (record { read_packet = none; actions = c.actions ++ as' })

-- `getMarkLen() + WS_MAX_HEAD_SIZE` as a size_t, `needsize` as the bits of an `int`, and the part of
-- the loop that appends
abbrev pub frame_end : ℕ → ℕ
frame_end len = int32_to_size (to_int32 (len + ws_max_head_size))

abbrev pub frame_missing : WebSocketPacket → ℕ → ℕ
frame_missing p len = to_int32 (frame_end len + 2 ^ 64 - p.buffer.wpos)

unfoldable pub read_payload :
    WebSocketPacket → MessageBuffer → ℕ → Option (WebSocketPacket × MessageBuffer)
read_payload p b len =
    if is_positive (frame_missing p len)
    then (let n = least (frame_missing p len) (active_size b) in
        if is_positive (to_int32 n)
        then (peek b n >>= λ bs.
            append p.buffer bs >>= λ b'. some (record p { buffer = b' }, read_completed b n))
        else some (p, b))
    else some (p, b)

-- One round of the loop
unfoldable pub frame_round :
    WebSocketConnect → MessageBuffer → Option (WebSocketConnect × MessageBuffer)
frame_round c b =
    let p = current_frame c.read_packet in
    if is_frame_head_full p
    then (frame_len p >>= λ len. read_payload p b len >>= λ (p', b').
        (if p'.buffer.wpos == frame_end len
          then (complete c p' len >>= λ c'. some (c', b'))
          else some (record c { read_packet = some p' }, b')))
    else (peek b (active_size b % 2 ^ 32) >>= λ bs. read_frame_head p bs >>= λ (n, p').
        some (record c { read_packet = some p' }, read_completed b n))

pub data Ending : Type 0 where
  ended : WebSocketConnect → MessageBuffer → Ending
  fault : Ending
  unfinished : Ending

-- The loop. A round takes a byte or completes a packet.
unfoldable pub frame_loop : ℕ → WebSocketConnect → MessageBuffer → Ending
frame_loop zero c b = unfinished
frame_loop (suc fuel) c b = elim (ltb 0 (active_size b)) [
  | false ↦ ended c b
  | true ↦ elim (frame_round c b) [ none ↦ fault | some (c', b') ↦ frame_loop fuel c' b' ]
]
