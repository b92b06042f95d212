-- ===== src/MessageBuffer/Tests.antt =====
-- Runs of MessageBuffer.h.
use lua_server.Common.{◌≤◌, ◌<◌, ◌≡◌, refl, some, ◌∷◌, ◌++◌, arith, [], length}
use lua_server.MessageBuffer.{
  MessageBuffer, active_size, ensure_free_space, normalize, peek, remaining_space, store, write,
}
use lua_server.MessageBuffer.Growth.{ensure_free_space_lem, normalize_lem, write_lem}
use lua_server.MessageBuffer.Laws.{IsValid, active}

abbrev half_read : MessageBuffer
half_read = record { storage = 1 ∷ 2 ∷ 3 ∷ 4 ∷ []; rpos = 2; wpos = 3 }

half_read-IsValid : IsValid half_read
half_read-IsValid = record { ordered = omega arith; inside = omega arith; small = omega arith }

normalize_example :
    (b' : MessageBuffer) × (normalize half_read ≡ some b')
    × (active b' ≡ active half_read)
    × (b'.rpos ≡ 0)
    × IsValid b'
normalize_example = normalize_lem half_read half_read-IsValid

write_example :
    (b' : MessageBuffer) × (write half_read (9 ∷ []) ≡ some b')
    × (active b' ≡ active half_read ++ (9 ∷ []))
    × IsValid b'
write_example = write_lem half_read (9 ∷ []) half_read-IsValid (omega arith)

ensure_free_space_example :
    (active (ensure_free_space half_read) ≡ active half_read)
    × (2 ≤ length half_read.storage → 0 < remaining_space (ensure_free_space half_read))
    × (length half_read.storage < 2
        → half_read.wpos ≡ length half_read.storage
        → remaining_space (ensure_free_space half_read) ≡ 0)
ensure_free_space_example = ensure_free_space_lem half_read half_read-IsValid

normalized :
    normalize half_read ≡ some (record { storage = 3 ∷ 2 ∷ 3 ∷ 4 ∷ []; rpos = 0; wpos = 1 })
unfolding normalize active_size peek store
normalized = refl
