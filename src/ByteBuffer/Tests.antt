-- ===== src/ByteBuffer/Tests.antt =====
-- Runs of ByteBuffer.h.
use lua_server.Common.{◌≡◌, refl, none, some, List, ◌∷◌, map, arith, replicate}
use lua_server.ByteBuffer.{ByteBuffer, read_word, read_word_at, slice, drop, []}
use lua_server.ByteBuffer.Values.{Value, get_all, get_all-push_all, kind, push_all, text, word}

abbrev values : List Value
values = word 2 513 ∷ text (65 ∷ 66 ∷ []) ∷ word 1 7 ∷ text [] ∷ []

abbrev packet : ByteBuffer
packet = record { storage = replicate 8 0; rpos = 8; wpos = 8 }

get_all-push_all_example :
    (p q : ByteBuffer) × (push_all packet values ≡ some p)
    × (get_all (map kind values) (record p { rpos = packet.wpos }) ≡ some (values, q))
    × (drop q.rpos q.storage ≡ [])
get_all-push_all_example =
    get_all-push_all values packet
      (omega arith, ((omega arith, (omega arith, tt)), (omega arith, (tt, tt)))) refl

-- A read behind the end of the vector is undefined.
read_behind : read_word 4 (record { storage = 1 ∷ 2 ∷ []; rpos = 0; wpos = 2 }) ≡ none
unfolding read_word read_word_at slice
read_behind = refl
