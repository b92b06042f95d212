-- ===== src/NetConnect/Deliver.antt =====
-- The round trip from the `sendMsg` of one connection to the handler of another.
use lua_server.Common.{
  ◌+◌, ◌<◌, ◌≡◌, refl, ◌∙◌, ap, sym, some, List, [], ◌∷◌, ◌++◌, map, length, length-append, arith,
  append-nil, append_assoc, eq_nil_of_length, dec_lt,
}
use lua_server.Common.Bytes.{
  Bytes, All, word_bytes, length-word_bytes, bytes_word-word_bytes, drop-append_at, take-append_at,
  drop-drop,
}
use lua_server.NetConnect.Stream.{
  Message, Stream, absorb_all, absorb_all-append, absorb_all_head, absorb_all_last,
  absorb_all-flush, flush, flush_complete, body_length, message_of, absorb_all-nil,
}
use lua_server.NetConnect.Receive.{
  Connection, ready, echo_reads, bytes, IsIdle, Fits, concat, echo_reads_refines,
}
use lua_server.NetConnect.Round.{view}
use lua_server.NetConnect.Send.{IsSendable, frame, length-frame}

message_of-frame : (m : Message) → IsSendable m → message_of (frame m) ≡ m
unfolding frame
message_of-frame m h =
    let l = word_bytes 4 (length m.body) in
    let t = word_bytes 4 m.type in
    let el = sym (length-word_bytes 4 (length m.body)) in
    let et = sym (length-word_bytes 4 m.type) in
    rw
      (
        ← drop-drop 4 4 (l ++ (t ++ m.body)),
        drop-append_at 4 l (t ++ m.body) el,
        take-append_at 4 t m.body et,
        drop-append_at 4 t m.body et,
        bytes_word-word_bytes 4 m.type (omega arith),
      )
      refl

body_length-frame :
    (m : Message) (xs : Bytes)
    → IsSendable m
    → body_length (word_bytes 4 (length m.body) ++ xs) ≡ length m.body
body_length-frame m xs h =
    rw
      (take-append_at 4 (word_bytes 4 (length m.body)) xs
        (sym (length-word_bytes 4 (length m.body))))
      (bytes_word-word_bytes 4 (length m.body) (omega arith))

-- A frame in the stream is one message, if a byte of it or behind it follows its head.
module _ (m : Message) (rest : Bytes) (ms : List Message) (h : IsSendable m) where
  head : Bytes
  head = word_bytes 4 (length m.body) ++ word_bytes 4 m.type

  at_head : Stream
  at_head = record { partial = head; messages = ms }

  length-head : length head ≡ 8
  unfolding head
  length-head = omega (
    arith,
    length-append (word_bytes 4 (length m.body)) (word_bytes 4 m.type),
    length-word_bytes 4 (length m.body),
    length-word_bytes 4 m.type,
  )

  body_length-head : body_length head ≡ length m.body
  unfolding head
  body_length-head = body_length-frame m (word_bytes 4 m.type) h

  frame_parts : head ++ m.body ≡ frame m
  unfolding head frame
  frame_parts = append_assoc (word_bytes 4 (length m.body)) (word_bytes 4 m.type) m.body

  message : message_of (head ++ m.body) ≡ m
  message = rw frame_parts (message_of-frame m h)

  to_head :
      absorb_all (record { partial = []; messages = ms }) (frame m ++ rest)
      ≡ absorb_all at_head (m.body ++ rest)
  unfolding at_head
  to_head =
      rw
        (
          ← frame_parts,
          append_assoc,
          absorb_all-append head (m.body ++ rest) (record { partial = []; messages = ms }),
          absorb_all_head head (record { partial = []; messages = ms })
              (omega (arith, length-head)),
        )
        refl

  full_body :
      0 < length m.body
      → absorb_all at_head (m.body ++ rest)
        ≡ absorb_all (record { partial = []; messages = ms ++ (m ∷ []) }) rest
  unfolding at_head
  full_body any =
      rw
        (
          absorb_all-append m.body rest at_head,
          absorb_all_last m.body at_head (omega (arith, length-head))
              (omega (arith, body_length-head)) any (omega (arith, length-head, body_length-head)),
          message,
        )
        refl

  empty_body :
      length m.body ≡ 0
      → 0 < length rest
      → absorb_all at_head (m.body ++ rest)
        ≡ absorb_all (record { partial = []; messages = ms ++ (m ∷ []) }) rest
  unfolding at_head
  empty_body none_left any =
      let e = eq_nil_of_length m.body none_left in
      let k : message_of head ≡ m =
        ap message_of (sym (append-nil head) ∙ ap (λ b. head ++ b) (sym e)) ∙ message in
      let flushed : flush at_head ≡ record { partial = []; messages = ms ++ (m ∷ []) } =
        flush_complete at_head (omega (arith, length-head))
          (omega (arith, length-head, body_length-head))
        ∙ ap (λ (x : Message). record { partial = []; messages = ms ++ (x ∷ []) }) k in
      ap (λ b. absorb_all at_head (b ++ rest)) e
      ∙ sym (absorb_all-flush at_head rest length-head (body_length-head ∙ none_left) any)
      ∙ ap (λ (s : Stream). absorb_all s rest) flushed

  pub absorb_all-frame :
      0 < length m.body + length rest
      → absorb_all (record { partial = []; messages = ms }) (frame m ++ rest)
        ≡ absorb_all (record { partial = []; messages = ms ++ (m ∷ []) }) rest
  absorb_all-frame any = elim (dec_lt 0 (length m.body)) [
    | yes b ↦ to_head ∙ full_body b
    | no b ↦ to_head ∙ empty_body (omega arith) (omega arith)
  ]

unfoldable pub frames : List Message → Bytes
frames [] = []
frames (m ∷ ms) = frame m ++ frames ms

-- The last message has a body.
abbrev pub EndsFull : List Message → Type 0
EndsFull [] = Unit
EndsFull (m ∷ []) = 0 < length m.body
EndsFull (m ∷ n ∷ ms) = EndsFull (n ∷ ms)

absorb_all-frames :
    (ms done : List Message)
    → All IsSendable ms
    → EndsFull ms
    → absorb_all (record { partial = []; messages = done }) (frames ms)
      ≡ some (record { partial = []; messages = done ++ ms })
unfolding frames
absorb_all-frames [] done h l =
    absorb_all-nil _
    ∙ ap (λ k. some (record { partial = []; messages = k })) (sym (append-nil done))
absorb_all-frames (m ∷ []) done h l =
    absorb_all-frame m [] done h.0 (omega arith) ∙ absorb_all-nil _
absorb_all-frames (m ∷ n ∷ ms) done h l =
    absorb_all-frame m (frames (n ∷ ms)) done h.0
      (omega (arith, length-append (frame n) (frames ms), length-frame n))
    ∙ absorb_all-frames (n ∷ ms) (done ++ (m ∷ [])) h.1 l
    ∙ ap (λ k. some (record { partial = []; messages = k })) (append_assoc done (m ∷ []) (n ∷ ms))

-- Messages that one side sends (each at most 2 ^ 31 - 1 bytes long with a uint32 type, the last with
-- a body), and that arrive as one stream cut in pieces anywhere: if each piece fits the receive
-- buffer of an idle connection, the connection's handler is given exactly these messages, in order.
pub echo_reads-frames :
    (ms : List Message) (chunks : List Bytes) (k : Connection) (done : List Message)
    → IsIdle k (record { partial = []; messages = done })
    → Fits (length k.buffer.storage) chunks
    → concat chunks ≡ frames ms
    → All IsSendable ms
    → EndsFull ms
    → (k' : Connection) × (echo_reads k (map bytes chunks) ≡ ready k')
      × (map view k'.conn.delivered ≡ done ++ ms)
echo_reads-frames ms chunks k done i f e h l =
    let (k', r, i', v) =
      echo_reads_refines chunks k _ (record { partial = []; messages = done ++ ms }) i f
        (rw e (absorb_all-frames ms done h l)) in
    (k', r, v)
