-- ===== src/NetConnect/Stream.antt =====
-- What a TCP stream means: the packets in it, found one byte at a time. This is the specification of
-- the loop in NetConnect.cpp, which takes the bytes as they come, in pieces of any size.
use lua_server.Common.{
  ℕ, zero, suc, ◌+◌, ◌^◌, ◌≤◌, ◌<◌, ◌≡◌, refl, ◌∙◌, ap, sym, Option, none, some, List, [], ◌∷◌,
  ◌++◌, leb, ◌==◌, if◌then◌else◌, ◌&&◌, ◌>>=◌, length, take, drop, length-append, append_assoc,
  append-nil, arith, Option-cases, inl, inr, ◌≢◌,
}
use lua_server.Common.Bytes.{Bytes, bytes_word}

-- A message: its type, and its body.
pub record Message : Type 0 where
  pub type : ℕ
  pub body : Bytes

-- The bytes of the packet that is being read, and the messages read before it.
pub record Stream : Type 0 where
  pub partial : Bytes
  pub messages : List Message

-- What the head of a packet says.
abbrev pub body_length : Bytes → ℕ
body_length bs = bytes_word (take 4 bs)

abbrev pub message_of : Bytes → Message
message_of bs = record { type = bytes_word (take 4 (drop 4 bs)); body = drop 8 bs }

-- A packet that is complete leaves the buffer.
unfoldable pub flush : Stream → Stream
flush s =
    if leb 8 (length s.partial) && length s.partial == 8 + body_length s.partial
    then record { partial = []; messages = s.messages ++ (message_of s.partial ∷ []) }
    else s

abbrev pub extend : Stream → Bytes → Stream
extend s bs = record s { partial = s.partial ++ bs }

-- The next byte. A packet that is only a head is complete when the byte behind it comes. `none`: a
-- head that gives a negative length, behind which nothing can be read.
unfoldable pub absorb : Stream → ℕ → Option Stream
unfolding flush
absorb s x =
    if leb 8 (length s.partial) && leb (2 ^ 31) (body_length s.partial)
    then none
    else (let t = extend (flush s) (x ∷ []) in some (if length t.partial == 8 then t else flush t))

unfoldable pub absorb_all : Stream → Bytes → Option Stream
absorb_all s [] = some s
absorb_all s (x ∷ xs) = absorb s x >>= λ t. absorb_all t xs

-- Reading in two pieces is reading the whole.
pub absorb_all-append :
    (xs ys : Bytes) (s : Stream)
    → absorb_all s (xs ++ ys) ≡ (absorb_all s xs >>= λ t. absorb_all t ys)
unfolding absorb_all
absorb_all-append [] ys s = refl
absorb_all-append (x ∷ xs) ys s = elim (Option-cases (absorb s x)) [
  | inl e ↦ rw e
  | inr (t, e) ↦ rw e (absorb_all-append xs ys t)
]

pub take-append_le {ℓ} :
    {A : Type ℓ} (n : ℕ) (xs ys : List A) → n ≤ length xs → take n (xs ++ ys) ≡ take n xs
take-append_le zero xs ys h = refl
take-append_le (suc n) [] ys h = absurd (omega arith)
take-append_le (suc n) (x ∷ xs) ys h = ap (◌∷◌ x) (take-append_le n xs ys (omega arith))

pub body_length-append : (bs ys : Bytes) → 8 ≤ length bs → body_length (bs ++ ys) ≡ body_length bs
body_length-append bs ys h = ap bytes_word (take-append_le 4 bs ys (omega arith))

extend-cons : (s : Stream) (x : ℕ) (xs : Bytes) → extend (extend s (x ∷ [])) xs ≡ extend s (x ∷ xs)
extend-cons s x xs = ground (arith, append_assoc s.partial (x ∷ []) xs)

extend-nil : (s : Stream) → extend s [] ≡ s
extend-nil s = ground (arith, append-nil s.partial)

pub flush_complete :
    (s : Stream)
    → 8 ≤ length s.partial
    → length s.partial ≡ 8 + body_length s.partial
    → flush s ≡ record { partial = []; messages = s.messages ++ (message_of s.partial ∷ []) }
unfolding flush
flush_complete s h e = ground arith

pub flush_partial : (s : Stream) → length s.partial ≢ 8 + body_length s.partial → flush s ≡ s
unfolding flush
flush_partial s e = ground arith

-- While the head is incomplete its bytes are kept.
absorb_head : (s : Stream) (x : ℕ) → length s.partial < 8 → absorb s x ≡ some (extend s (x ∷ []))
unfolding absorb
absorb_head s x h = ground (arith, length-append s.partial (x ∷ []))

pub absorb_all_head :
    (xs : Bytes) (s : Stream)
    → length s.partial + length xs ≤ 8
    → absorb_all s xs ≡ some (extend s xs)
unfolding absorb_all
absorb_all_head [] s h = ap some (sym (extend-nil s))
absorb_all_head (x ∷ xs) s h = rw (absorb_head s x (omega arith)) (
    absorb_all_head xs (extend s (x ∷ [])) (omega (arith, length-append s.partial (x ∷ [])))
    ∙ ap some (extend-cons s x xs))

-- So are the bytes of a body until the last.
absorb_inner :
    (s : Stream) (x : ℕ)
    → 8 ≤ length s.partial
    → body_length s.partial < 2 ^ 31
    → length s.partial + 1 < 8 + body_length s.partial
    → absorb s x ≡ some (extend s (x ∷ []))
unfolding absorb
absorb_inner s x h m l =
    ground (arith, length-append s.partial (x ∷ []), body_length-append s.partial (x ∷ []))

-- The last byte of a body completes the message.
absorb_last :
    (s : Stream) (x : ℕ)
    → 8 ≤ length s.partial
    → body_length s.partial < 2 ^ 31
    → length s.partial + 1 ≡ 8 + body_length s.partial
    → absorb s x
      ≡ some (record {
        partial = [];
        messages = s.messages ++ (message_of (s.partial ++ (x ∷ [])) ∷ []);
      })
unfolding absorb
absorb_last s x h m l =
    ground (arith, length-append s.partial (x ∷ []), body_length-append s.partial (x ∷ []))

pub absorb_all_inner :
    (xs : Bytes) (s : Stream)
    → 8 ≤ length s.partial
    → body_length s.partial < 2 ^ 31
    → length s.partial + length xs < 8 + body_length s.partial
    → absorb_all s xs ≡ some (extend s xs)
unfolding absorb_all
absorb_all_inner [] s h m l = ap some (sym (extend-nil s))
absorb_all_inner (x ∷ xs) s h m l =
    let n = length-append s.partial (x ∷ []) in
    let k = body_length-append s.partial (x ∷ []) h in
    rw (absorb_inner s x h m (omega arith)) (
      absorb_all_inner xs (extend s (x ∷ [])) (omega arith) (omega arith) (omega arith)
      ∙ ap some (extend-cons s x xs))

pub absorb_all_last :
    (xs : Bytes) (s : Stream)
    → 8 ≤ length s.partial
    → body_length s.partial < 2 ^ 31
    → 0 < length xs
    → length s.partial + length xs ≡ 8 + body_length s.partial
    → absorb_all s xs
      ≡ some (record { partial = []; messages = s.messages ++ (message_of (s.partial ++ xs) ∷ []) })
unfolding absorb_all
absorb_all_last [] s h m p l = absurd (omega arith)
absorb_all_last (x ∷ []) s h m p l = rw (absorb_last s x h m (omega arith)) refl
absorb_all_last (x ∷ y ∷ xs) s h m p l =
    let n = length-append s.partial (x ∷ []) in
    let k = body_length-append s.partial (x ∷ []) h in
    rw (absorb_inner s x h m (omega arith), ← append_assoc s.partial (x ∷ []) (y ∷ xs))
      (absorb_all_last (y ∷ xs) (extend s (x ∷ [])) (omega arith) (omega arith) (omega arith)
        (omega arith))

-- A packet with no body leaves when the next byte comes.
pub absorb_all_empty :
    (x : ℕ) (xs : Bytes) (s : Stream)
    → length s.partial ≡ 8
    → body_length s.partial ≡ 0
    → absorb_all s (x ∷ xs)
      ≡ absorb_all
          (record { partial = []; messages = s.messages ++ (message_of s.partial ∷ []) })
          (x ∷ xs)
unfolding absorb_all absorb
absorb_all_empty x xs s h m = ground arith

-- Behind a head that gives a negative length nothing can be read.
pub absorb_all_negative :
    (s : Stream) (xs : Bytes)
    → 8 ≤ length s.partial
    → 2 ^ 31 ≤ body_length s.partial
    → 0 < length xs
    → absorb_all s xs ≡ none
unfolding absorb_all absorb
absorb_all_negative s [] h m p = absurd (omega arith)
absorb_all_negative s (x ∷ xs) h m p = ground arith

pub absorb_all-flush :
    (s : Stream) (xs : Bytes)
    → length s.partial ≡ 8
    → body_length s.partial ≡ 0
    → 0 < length xs
    → absorb_all (flush s) xs ≡ absorb_all s xs
absorb_all-flush s [] l m p = absurd (omega arith)
absorb_all-flush s (x ∷ xs) l m p =
    rw (flush_complete s (omega arith) (omega arith)) (sym (absorb_all_empty x xs s l m))

pub absorb_all_nothing :
    (xs : Bytes) (s t : Stream) → length xs ≡ 0 → absorb_all s xs ≡ some t → s ≡ t
unfolding absorb_all
absorb_all_nothing [] s t h e = cc
absorb_all_nothing (x ∷ xs) s t h e = absurd (omega arith)

pub absorb_all-nil : (s : Stream) → absorb_all s [] ≡ some s
unfolding absorb_all
absorb_all-nil s = refl
