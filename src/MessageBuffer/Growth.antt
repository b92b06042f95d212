-- ===== src/MessageBuffer/Growth.antt =====
-- `Normalize`, `EnsureFreeSpace` and `Write` of MessageBuffer.h: the data in the buffer survives them.
use lua_server.Common.{
  ℕ, ◌+◌, ◌-◌, ◌*◌, ◌/◌, ◌%◌, ◌^◌, ◌≤◌, ◌<◌, ◌≡◌, ◌≢◌, refl, sym, ◌∙◌, some, ◌++◌, le→leb, ◌==◌,
  length, take, drop, length-append, length-take, length-drop, length-replicate, arith,
  append_assoc, replicate, ℕ_discrete, true, false, append-nil, eq_nil_of_length,
}
use lua_server.Common.Bytes.{
  Bytes, overwrite, take-append_at, take_all, drop-append_le, drop-take, take-le,
}
use lua_server.MessageBuffer.{
  MessageBuffer, resize_storage, write_completed, remaining_space, store, write, normalize,
  ensure_free_space,
}
use lua_server.MessageBuffer.Laws.{IsValid, active, length-active, active_size_lem, peek_lem}

length-overwrite :
    (pos : ℕ) (xs ys : Bytes)
    → pos + length xs ≤ length ys
    → length (overwrite pos xs ys) ≡ length ys
length-overwrite pos xs ys h = omega (
  arith,
  length-append (take pos ys) (xs ++ drop (pos + length xs) ys),
  length-append xs (drop (pos + length xs) ys),
  length-take pos ys,
  length-drop (pos + length xs) ys,
)

moved : MessageBuffer → MessageBuffer
moved b = record { storage = overwrite 0 (active b) b.storage; rpos = 0; wpos = b.wpos - b.rpos }

active-moved : (b : MessageBuffer) → IsValid b → active (moved b) ≡ active b
unfolding moved
active-moved b v =
    let e : b.wpos - b.rpos - 0 ≡ b.wpos - b.rpos = omega arith in
    rw e (take-append_at (b.wpos - b.rpos) (active b) _ (sym (length-active v)))

moved-IsValid : (b : MessageBuffer) → IsValid b → IsValid (moved b)
unfolding moved
moved-IsValid b v = omega (
  arith,
  length-overwrite 0 (active b) b.storage (omega (arith, length-active v)),
  length-active v,
  v,
)

normalize_moves :
    (b : MessageBuffer) → IsValid b → b.rpos ≢ 0 → b.rpos ≢ b.wpos → normalize b ≡ some (moved b)
unfolding normalize moved store
normalize_moves b v h k =
    rw
      (
        normalize,
        test_zero,
        test_same,
        active_size_lem v,
        peek_lem (length (active b)) v (omega arith),
        take_all,
        le→leb (0 + length (active b)) (length b.storage) (omega (arith, length-active v)),
        difference,
      )
      refl
  where
    test_zero : (b.rpos == 0) ≡ false
    test_zero = ground arith

    test_same : (b.rpos == b.wpos) ≡ false
    test_same = ground arith

    difference : (b.wpos + 2 ^ 64 - b.rpos) % 2 ^ 64 ≡ b.wpos - b.rpos
    difference = omega (arith, v)

normalize_empty :
    (b : MessageBuffer)
    → IsValid b
    → b.rpos ≢ 0
    → b.rpos ≡ b.wpos
    → normalize b ≡ some (record b { rpos = 0; wpos = 0 })
unfolding normalize
normalize_empty b v h k = rw (normalize, test_zero, test_same, difference) refl
  where
    test_zero : (b.rpos == 0) ≡ false
    test_zero = ground arith

    test_same : (b.rpos == b.wpos) ≡ true
    test_same = ground arith

    difference : (b.wpos + 2 ^ 64 - b.rpos) % 2 ^ 64 ≡ 0
    difference = omega (arith, v)

-- `Normalize` of a valid buffer does not fault, keeps the data, and puts it at the front.
pub normalize_lem :
    (b : MessageBuffer)
    → IsValid b
    → (b' : MessageBuffer) × (normalize b ≡ some b')
      × (active b' ≡ active b)
      × (b'.rpos ≡ 0)
      × IsValid b'
normalize_lem b v = elim (ℕ_discrete b.rpos 0) [
  | yes z ↦ (b, unfold normalize in rw z refl, refl, z, v)
  | no z ↦ elim (ℕ_discrete b.rpos b.wpos) [
    | yes e ↦ (
      record b { rpos = 0; wpos = 0 },
      normalize_empty b v z e,
      sym (eq_nil_of_length (active b) (omega (arith, length-active v))),
      refl,
      omega (arith, v),
    )
    | no e ↦ (
      moved b,
      normalize_moves b v z e,
      active-moved b v,
      unfold moved in refl,
      moved-IsValid b v,
    )
  ]
]

written : MessageBuffer → Bytes → MessageBuffer
written b src = record b { storage = overwrite b.wpos src b.storage; wpos = b.wpos + length src }

active-written :
    (b : MessageBuffer) (src : Bytes)
    → IsValid b
    → b.wpos + length src ≤ length b.storage
    → active (written b src) ≡ active b ++ src
unfolding written
active-written b src v h =
    rw
      (
        drop-append_le b.rpos (take b.wpos b.storage) (src ++ back) (omega (arith, cut, v)),
        drop-take b.rpos b.wpos (b.wpos - b.rpos) b.storage (omega (arith, v)),
        ← append_assoc (active b) src back,
      )
      (take-append_at (b.wpos + length src - b.rpos) (active b ++ src) back
        (omega (arith, length-append (active b) src, length-active v, v)))
  where
    back : Bytes
    back = drop (b.wpos + length src) b.storage

    cut : length (take b.wpos b.storage) ≡ b.wpos
    cut = omega (arith, length-take b.wpos b.storage, v)

-- `Write` within the free space appends to the data, and does not fault.
pub write_lem :
    (b : MessageBuffer) (src : Bytes)
    → IsValid b
    → b.wpos + length src ≤ length b.storage
    → (b' : MessageBuffer) × (write b src ≡ some b') × (active b' ≡ active b ++ src) × IsValid b'
write_lem b src v h = elim (ℕ_discrete (length src) 0) [
  | yes z ↦
      (b, unfold write in rw z refl, sym (rw (eq_nil_of_length src z) (append-nil (active b))), v)
  | no z ↦ (
    written b src,
    steps z,
    active-written b src v h,
    unfold written in omega (arith, length-overwrite b.wpos src b.storage h, v),
  )
]
  where
    steps : length src ≢ 0 → write b src ≡ some (written b src)
    steps z =
        let e : (length src == 0) ≡ false = ground arith in
        unfold write store write_completed written in
        rw (e, le→leb (b.wpos + length src) (length b.storage) h) refl

grown : MessageBuffer → MessageBuffer
grown b = resize_storage b (length b.storage * 3 / 2)

module _ (b : MessageBuffer) (v : IsValid b) where
  remaining_lem : remaining_space b ≡ length b.storage - b.wpos
  unfolding remaining_space
  remaining_lem = omega (arith, v)

  ensure_roomy : b.wpos ≢ length b.storage → ensure_free_space b ≡ b
  unfolding ensure_free_space
  ensure_roomy h = ground (arith, remaining_lem, v)

  ensure_full : b.wpos ≡ length b.storage → ensure_free_space b ≡ grown b
  unfolding ensure_free_space grown
  ensure_full h = ground (arith, remaining_lem)

  storage-grown :
      (grown b).storage ≡ b.storage ++ replicate (length b.storage * 3 / 2 - length b.storage) 0
  unfolding grown resize_storage
  storage-grown = rw (take-le (length b.storage * 3 / 2) b.storage (omega arith)) refl

  length-grown : length (grown b).storage ≡ length b.storage * 3 / 2
  length-grown = rw storage-grown (
      omega (
        arith,
        length-append b.storage (replicate (length b.storage * 3 / 2 - length b.storage) 0),
        length-replicate {A = ℕ} (length b.storage * 3 / 2 - length b.storage) 0,
      ))

  remaining-grown :
      b.wpos ≡ length b.storage
      → remaining_space (grown b) ≡ length b.storage * 3 / 2 - length b.storage
  unfolding remaining_space
  remaining-grown h = omega (arith, length-grown, kept, v)
    where
      kept : (grown b).wpos ≡ b.wpos
      kept = unfold grown resize_storage in refl

  active-grown : b.wpos ≡ length b.storage → active (grown b) ≡ active b
  active-grown h =
      unfold grown resize_storage in
      rw
        (
          take-le (length b.storage * 3 / 2) b.storage (omega arith),
          drop-append_le b.rpos b.storage
              (replicate (length b.storage * 3 / 2 - length b.storage) 0) (omega (arith, v)),
        )
        (take-append_at (b.wpos - b.rpos) (drop b.rpos b.storage) _ whole
          ∙ sym (take-le (b.wpos - b.rpos) (drop b.rpos b.storage) (omega (arith, whole))))
    where
      whole : b.wpos - b.rpos ≡ length (drop b.rpos b.storage)
      whole = omega (arith, length-drop b.rpos b.storage)

-- `EnsureFreeSpace` leaves free space in a buffer of two bytes or more, and keeps the data; a buffer
-- of size 0 or 1 that is full stays full.
pub ensure_free_space_lem :
    (b : MessageBuffer)
    → IsValid b
    → (active (ensure_free_space b) ≡ active b)
      × (2 ≤ length b.storage → 0 < remaining_space (ensure_free_space b))
      × (length b.storage < 2
          → b.wpos ≡ length b.storage
          → remaining_space (ensure_free_space b) ≡ 0)
ensure_free_space_lem b v = elim (ℕ_discrete b.wpos (length b.storage)) [
  | yes e ↦ rw (ensure_full b v e) (
    active-grown b v e,
    λ two. omega (arith, remaining-grown b v e),
    λ few same. omega (arith, remaining-grown b v e),
  )
  | no n ↦
      rw (ensure_roomy b v n)
        (refl, λ two. omega (arith, remaining_lem b v, v), λ few same. absurd (n same))
]
