-- ===== src/ByteBuffer.antt =====
-- src/common/ByteBuffer.h and ByteBuffer.cpp: a byte vector with a read and a write position.
-- A method that changes `*this` returns the new buffer. `none` is a read or a write outside of the
-- vector, which the C++ code does not check for. Positions stay below 2 ^ 64.
mod Tests
pub mod Values
use lua_server.Common.{
  ℕ, ◌+◌, ◌-◌, ◌≤◌, Bool, true, false, Option, none, some, List, [], ◌∷◌, ◌++◌, leb, ltb, ◌==◌,
  if◌then◌else◌, ◌>>=◌, length, take, drop,
}
use lua_server.Common.Bytes.{Bytes, word_bytes, bytes_word, resize, overwrite, splice}

pub record ByteBuffer : Type 0 where
  pub storage : Bytes
  pub rpos : ℕ
  pub wpos : ℕ

abbrev pub size : ByteBuffer → ℕ
size b = length b.storage

abbrev pub fresh : ByteBuffer
fresh = record { storage = []; rpos = 0; wpos = 0 }

-- `clear`
pub clear : ByteBuffer → ByteBuffer
clear b = record { storage = []; rpos = 0; wpos = 0 }

-- `append(const uint8 *, size_t)`: an insertion at the write position.
unfoldable pub append : ByteBuffer → Bytes → Option ByteBuffer
append b src =
    if leb b.wpos (size b)
    then some (record b { storage = splice b.wpos src b.storage; wpos = b.wpos + length src })
    else none

-- `put(size_t, const uint8 *, size_t)`
unfoldable pub put : ByteBuffer → ℕ → Bytes → Option ByteBuffer
put b pos src =
    if leb (pos + length src) (size b)
    then some (record b { storage = overwrite pos src b.storage })
    else none

-- `append<T>` and `put<T>` at sizeof(T) = w
unfoldable pub append_word : ℕ → ByteBuffer → ℕ → Option ByteBuffer
append_word w b v = append b (word_bytes w v)

unfoldable pub put_word : ℕ → ByteBuffer → ℕ → ℕ → Option ByteBuffer
put_word w b pos v = put b pos (word_bytes w v)

-- `operator<<(const std::string &)`: the bytes and a final 0.
unfoldable pub append_string : ByteBuffer → Bytes → Option ByteBuffer
append_string b s = do b' ← (if ltb 0 (length s) then append b s else some b); append_word 1 b' 0

-- len bytes from an offset on
unfoldable pub slice : ByteBuffer → ℕ → ℕ → Option Bytes
slice b pos len = if leb (pos + len) (size b) then some (take len (drop pos b.storage)) else none

-- `read<T>(size_t) const`
unfoldable pub read_word_at : ℕ → ByteBuffer → ℕ → Option ℕ
read_word_at w b pos = do bs ← slice b pos w; some (bytes_word bs)

-- `read_skip(size_t)`
unfoldable pub read_skip : ByteBuffer → ℕ → ByteBuffer
read_skip b skip = record b { rpos = b.rpos + skip }

-- `read<T>()`
unfoldable pub read_word : ℕ → ByteBuffer → Option (ℕ × ByteBuffer)
read_word w b = do v ← read_word_at w b b.rpos; some (v, read_skip b w)

-- The loop of `operator>>(std::string &)` over the bytes not yet read: the string, and how many
-- bytes were taken.
unfoldable pub scan_string : Bytes → Bytes × ℕ
scan_string [] = ([], 0)
scan_string (c ∷ rest) = let (s, n) = scan_string rest in if c == 0 then ([], 1) else (c ∷ s, n + 1)

unfoldable pub read_string : ByteBuffer → Bytes × ByteBuffer
read_string b = let (s, n) = scan_string (drop b.rpos b.storage) in (s, read_skip b n)

-- `read(uint8 *, size_t)`
unfoldable pub read_bytes : ByteBuffer → ℕ → Option (Bytes × ByteBuffer)
read_bytes b len = do bs ← slice b b.rpos len; some (bs, read_skip b len)

-- `ReadString(uint32)`
unfoldable pub read_chars : ByteBuffer → ℕ → Option (Bytes × ByteBuffer)
read_chars b len = if len == 0 then some ([], b) else read_bytes b len

-- `resize(size_t)`
unfoldable pub resize_buffer : ByteBuffer → ℕ → ByteBuffer
resize_buffer b n = let s = resize n b.storage in record { storage = s; rpos = 0; wpos = length s }

-- The bytes between the two positions: `BasePacket::readData`.
abbrev pub unread : ByteBuffer → Bytes
unread b = take (b.wpos - b.rpos) (drop b.rpos b.storage)
