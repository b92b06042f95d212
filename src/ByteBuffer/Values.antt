-- ===== src/ByteBuffer/Values.antt =====
-- Typed values in a packet (`BasePacket::pushInt8` to `pushString`, `getInt8` to `getString`): what
-- one side pushes is what the other side gets, in the same order.
use lua_server.Common.{
  ℕ, ◌+◌, ◌^◌, ◌≤◌, ◌<◌, ◌≡◌, ◌≢◌, refl, ap, ◌∙◌, Option, some, List, [], ◌∷◌, ◌++◌, ◌>>=◌, length,
  drop, length-append, append_assoc, append-nil, arith, lt→ltb, le→leb, sym, length-drop, map,
}
use lua_server.Common.Bytes.{
  Bytes, All, splice, word_bytes, length-word_bytes, bytes_word-word_bytes, take-append_left,
  take_all, drop_all, drop-append_at, drop-drop,
}
use lua_server.ByteBuffer.{
  ByteBuffer, size, append, append_word, append_string, slice, read_word_at, read_skip, read_word,
  scan_string, read_string,
}

-- A value that `operator<<` takes: a number of w bytes (a signed or floating one by its bits), or a
-- string. A kind is the type that the matching `operator>>` is called at.
pub data Value : Type 0 where
  word : ℕ → ℕ → Value
  text : Bytes → Value

pub data Kind : Type 0 where
  word_of : ℕ → Kind
  text_kind : Kind

pub kind : Value → Kind
kind (word w v) = word_of w
kind (text s) = text_kind

-- `operator<<` and `operator>>`
pub insert_value : ByteBuffer → Value → Option ByteBuffer
insert_value b (word w v) = append_word w b v
insert_value b (text s) = append_string b s

pub extract_value : Kind → ByteBuffer → Option (Value × ByteBuffer)
extract_value (word_of w) b = do (v, b') ← read_word w b; some (word w v, b')
extract_value text_kind b = let (s, b') = read_string b in some (text s, b')

-- `pushInt8` to `pushString`, and `getInt8` to `getString`
pub push : ByteBuffer → Value → Option ByteBuffer
push b v = insert_value b v

pub get : Kind → ByteBuffer → Option (Value × ByteBuffer)
get k b = extract_value k b

pub push_all : ByteBuffer → List Value → Option ByteBuffer
push_all b [] = some b
push_all b (v ∷ vs) = push b v >>= λ b'. push_all b' vs

pub get_all : List Kind → ByteBuffer → Option (List Value × ByteBuffer)
get_all [] b = some ([], b)
get_all (k ∷ ks) b = get k b >>= λ (v, b'). get_all ks b' >>= λ (vs, b''). some (v ∷ vs, b'')

-- A number fits its width, and a string holds no 0.
abbrev pub IsEncodable : Value → Type 0
IsEncodable (word w v) = v < 256 ^ w
IsEncodable (text s) = All (λ c. c ≢ 0) s

pub encode : Value → Bytes
encode (word w v) = word_bytes w v
encode (text s) = s ++ (0 ∷ [])

pub encode_all : List Value → Bytes
encode_all [] = []
encode_all (v ∷ vs) = encode v ++ encode_all vs

abbrev Extends : ByteBuffer → Bytes → ByteBuffer
Extends b bs = record b { storage = b.storage ++ bs; wpos = b.wpos + length bs }

pub append_end :
    (b : ByteBuffer) (src : Bytes) → b.wpos ≡ size b → append b src ≡ some (Extends b src)
unfolding append
append_end b src e = ground (arith, take_all b.storage, drop_all b.storage, append-nil src, full)
  where
    full : splice b.wpos src b.storage ≡ b.storage ++ src
    full = rw (e, take_all, drop_all, append-nil)

length-Extends :
    (b : ByteBuffer) (bs : Bytes) → b.wpos ≡ size b → (Extends b bs).wpos ≡ size (Extends b bs)
length-Extends b bs e = omega (arith, length-append b.storage bs)

Extends-append : (b : ByteBuffer) (xs ys : Bytes) → Extends (Extends b xs) ys ≡ Extends b (xs ++ ys)
Extends-append b xs ys = ground (arith, append_assoc b.storage xs ys, length-append xs ys)

push_lem : (b : ByteBuffer) (v : Value) → b.wpos ≡ size b → push b v ≡ some (Extends b (encode v))
unfolding push insert_value append_word append_string encode word_bytes
push_lem b (word w v) e = append_end b (word_bytes w v) e
push_lem b (text []) e = append_end b (0 ∷ []) e
push_lem b (text (c ∷ s)) e =
    rw
      (
        lt→ltb 0 (length (c ∷ s)) (omega arith),
        append_end b (c ∷ s) e,
        append_end (Extends b (c ∷ s)) (0 ∷ []) (length-Extends b (c ∷ s) e),
      )
      (ap some (Extends-append b (c ∷ s) (0 ∷ [])))

-- Pushing appends the encodings, in order.
pub push_all_lem :
    (vs : List Value) (b : ByteBuffer)
    → b.wpos ≡ size b
    → push_all b vs ≡ some (Extends b (encode_all vs))
unfolding push_all encode_all
push_all_lem [] b e = ground (arith, append-nil b.storage)
push_all_lem (v ∷ vs) b e =
    rw (push_lem b v e, push_all_lem vs (Extends b (encode v)) (length-Extends b (encode v) e))
      (ap some (Extends-append b (encode v) (encode_all vs)))

record Reads (b : ByteBuffer) (bs : Bytes) : Type 0 where
  inside : b.rpos ≤ size b
  bytes : drop b.rpos b.storage ≡ bs

fits : (b : ByteBuffer) (xs rest : Bytes) → Reads b (xs ++ rest) → b.rpos + length xs ≤ size b
fits b xs rest r =
    omega (arith, r.inside, length-drop b.rpos b.storage, ap length r.bytes, length-append xs rest)

slice_lem :
    (b : ByteBuffer) (xs rest : Bytes) (n : ℕ)
    → Reads b (xs ++ rest)
    → n ≡ length xs
    → slice b b.rpos n ≡ some xs
unfolding slice
slice_lem b xs rest n r e =
    rw (e, le→leb _ _ (fits b xs rest r), r.bytes) (ap some (take-append_left xs rest))

skip_lem :
    (b : ByteBuffer) (xs rest : Bytes) (n : ℕ)
    → Reads b (xs ++ rest)
    → n ≡ length xs
    → Reads (read_skip b n) rest
unfolding read_skip
skip_lem b xs rest n r e = record {
  inside = omega (arith, fits b xs rest r, e);
  bytes = sym (drop-drop n b.rpos b.storage) ∙ rw r.bytes (drop-append_at n xs rest e);
}

scan_lem : (s rest : Bytes) → All (λ c. c ≢ 0) s → scan_string (s ++ (0 ∷ rest)) ≡ (s, length s + 1)
unfolding scan_string
scan_lem [] rest h = refl
scan_lem (c ∷ s) rest h = ground (arith, scan_lem s rest h.1)

get_lem :
    (v : Value) (rest : Bytes) (b : ByteBuffer)
    → IsEncodable v
    → Reads b (encode v ++ rest)
    → get (kind v) b ≡ some (v, read_skip b (length (encode v)))
unfolding get extract_value kind encode read_word read_word_at read_string
get_lem (word w v) rest b h r = rw (
  slice_lem b (word_bytes w v) rest w r (sym (length-word_bytes w v)),
  bytes_word-word_bytes w v h,
  length-word_bytes,
)
get_lem (text s) rest b h r = rw (r.bytes, append_assoc, scan_lem s rest h, length-append) refl

-- What the other side has pushed is read back value by value, and nothing after it is read.
get_all_lem :
    (vs : List Value) (rest : Bytes) (b : ByteBuffer)
    → All IsEncodable vs
    → Reads b (encode_all vs ++ rest)
    → (b' : ByteBuffer) × (get_all (map kind vs) b ≡ some (vs, b')) × Reads b' rest
unfolding get_all encode_all
get_all_lem [] rest b h r = (b, refl, r)
get_all_lem (v ∷ vs) rest b h r =
    let r' : Reads b (encode v ++ (encode_all vs ++ rest)) = record {
      inside = r.inside;
      bytes = r.bytes ∙ append_assoc (encode v) (encode_all vs) rest;
    } in
    let (b', e, t) =
      get_all_lem vs rest (read_skip b (length (encode v))) h.1
        (skip_lem b (encode v) _ _ r' refl) in
    (b', rw (get_lem v _ b h.0 r', e), t)

-- A sequence of values pushed at the end of a packet, and then read from where it begins by the
-- getters of the same types: the pushes never fault, and the getters return the values in order,
-- leaving nothing unread, if numbers fit their widths and strings hold no 0.
pub get_all-push_all :
    (vs : List Value) (b : ByteBuffer)
    → All IsEncodable vs
    → b.wpos ≡ size b
    → (p q : ByteBuffer) × (push_all b vs ≡ some p)
      × (get_all (map kind vs) (record p { rpos = b.wpos }) ≡ some (vs, q))
      × (drop q.rpos q.storage ≡ [])
get_all-push_all vs b h e =
    let p = Extends b (encode_all vs) in
    let r : Reads (record p { rpos = b.wpos }) (encode_all vs ++ []) = record {
      inside = omega (arith, length-append b.storage (encode_all vs));
      bytes = drop-append_at b.wpos b.storage (encode_all vs) e ∙ sym (append-nil (encode_all vs));
    } in
    let (q, g, t) = get_all_lem vs [] (record p { rpos = b.wpos }) h r in
    (p, q, push_all_lem vs b e, g, t.bytes)
