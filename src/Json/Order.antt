-- ===== src/Json/Order.antt =====
-- Objects of src/utils/Json.cpp as maps: what is found after a change, and the order of the keys.
use lua_server.Common.{
  ◌≡◌, refl, ap₂, sym, true, false, ◌||◌, none, some, [], ◌∷◌, if◌then◌else◌, arith, subst,
}
use lua_server.Common.Bytes.{Bytes}
use lua_server.Json.{Json, Members, no_members, member}
use lua_server.Json.Reader.{key_lt, put}
use lua_server.Json.Readable.{key_lt_asym}
use lua_server.Json.Edit.{find, remove_member, IsAbove, IsSorted}

key_lt_trans : (j k l : Bytes) → key_lt j k ≡ true → key_lt k l ≡ true → key_lt j l ≡ true
unfolding key_lt
key_lt_trans [] [] l h i = cc
key_lt_trans [] (d ∷ ds) [] h i = cc
key_lt_trans [] (d ∷ ds) (e ∷ es) h i = refl
key_lt_trans (c ∷ cs) [] l h i = cc
key_lt_trans (c ∷ cs) (d ∷ ds) [] h i = cc
key_lt_trans (c ∷ cs) (d ∷ ds) (e ∷ es) h i = ground (arith, key_lt_trans cs ds es)

key_lt_eq : (j k : Bytes) → key_lt j k ≡ false → key_lt k j ≡ false → j ≡ k
unfolding key_lt
key_lt_eq [] [] h i = refl
key_lt_eq [] (d ∷ ds) h i = cc
key_lt_eq (c ∷ cs) [] h i = cc
key_lt_eq (c ∷ cs) (d ∷ ds) h i =
    let e : c ≡ d = ground arith in
    let f : key_lt cs ds ≡ false = ground arith in
    let g : key_lt ds cs ≡ false = ground arith in ap₂ ◌∷◌ e (key_lt_eq cs ds f g)

key_lt_irrefl : (k : Bytes) → key_lt k k ≡ false
unfolding key_lt
key_lt_irrefl [] = refl
key_lt_irrefl (c ∷ cs) = ground (arith, key_lt_irrefl cs)

find-IsAbove : (k : Bytes) (ms : Members) → IsAbove k ms → find ms k ≡ none
unfolding find
find-IsAbove k no_members h = refl
find-IsAbove k (member k' v ms) h = rw (h.0) refl

lower_bound : (j k : Bytes) (ms : Members) → key_lt j k ≡ true → IsAbove k ms → IsAbove j ms
lower_bound j k no_members h i = tt
lower_bound j k (member k' v ms) h i = (key_lt_trans j k k' h i.0, i.1)

put-IsAbove :
    (j k : Bytes) (v : Json) (ms : Members)
    → key_lt j k ≡ true
    → IsAbove j ms
    → IsAbove j (put k v ms)
unfolding put
put-IsAbove j k v no_members h i = (h, tt)
put-IsAbove j k v (member k' w ms) h i =
    elim (key_lt k k')
        as (λ t.
          key_lt k k' ≡ t
          → IsAbove j (
              if t
              then member k v (member k' w ms)
              else (if key_lt k' k then member k' w (put k v ms) else member k' v ms))) [
                | true ↦ λ e. (h, (e, i.1))
                | false ↦ λ e.
                    elim (key_lt k' k)
                        as (λ t.
                          key_lt k' k ≡ t
                          → IsAbove j (if t then member k' w (put k v ms) else member k' v ms)) [
                            | true ↦ λ f. (i.0, put-IsAbove k' k v ms f i.1)
                            | false ↦ λ f. (i.0, i.1)
                          ]
                      refl
              ]
      refl

remove-IsAbove : (j k : Bytes) (ms : Members) → IsAbove j ms → IsAbove j (remove_member ms k)
unfolding remove_member
remove-IsAbove j k no_members i = tt
remove-IsAbove j k (member k' w ms) i =
    elim (key_lt k k')
      as (λ t. IsAbove j (
        if t
        then member k' w ms
        else (if key_lt k' k then member k' w (remove_member ms k) else ms))) [
          | true ↦ i
          | false ↦
              elim (key_lt k' k)
                as (λ t. IsAbove j (if t then member k' w (remove_member ms k) else ms)) [
                  | true ↦ (i.0, remove-IsAbove k' k ms i.1)
                  | false ↦ lower_bound j k' ms i.0 i.1
                ]
        ]

put-find_same : (k : Bytes) (v : Json) (ms : Members) → find (put k v ms) k ≡ some v
unfolding find put
put-find_same k v no_members = rw (key_lt_irrefl k) refl
put-find_same k v (member k' w ms) =
    ground (arith, key_lt_irrefl k, key_lt_asym k' k, put-find_same k v ms)

IsAbove-IsSorted : (k : Bytes) (ms : Members) → IsAbove k ms → IsSorted ms
IsAbove-IsSorted k no_members h = tt
IsAbove-IsSorted k (member k' v ms) h = h.1

put-find_other :
    (k l : Bytes) (v : Json) (ms : Members)
    → (key_lt k l || key_lt l k) ≡ true
    → find (put k v ms) l ≡ find ms l
unfolding find put
put-find_other k l v no_members d = ground (arith, d)
put-find_other k l v (member k' w ms) d =
    ground
      (arith, d, key_lt_trans l k k', key_lt_asym k' l, key_lt_eq k k', put-find_other k l v ms d)

find_below : (l k : Bytes) (ms : Members) → IsAbove k ms → key_lt l k ≡ true → find ms l ≡ none
find_below l k ms i h = find-IsAbove l ms (lower_bound l k ms h i)

remove-find_other :
    (k l : Bytes) (ms : Members)
    → (key_lt k l || key_lt l k) ≡ true
    → IsSorted ms
    → find (remove_member ms k) l ≡ find ms l
unfolding find remove_member
remove-find_other k l no_members d s = refl
remove-find_other k l (member k' w ms) d s = ground (
  arith,
  d,
  key_lt_eq k k',
  find_below l k' ms s,
  remove-find_other k l ms d (IsAbove-IsSorted k' ms s),
)

remove-find_same : (k : Bytes) (ms : Members) → IsSorted ms → find (remove_member ms k) k ≡ none
unfolding find remove_member
remove-find_same k no_members s = refl
remove-find_same k (member k' w ms) s =
    let same : key_lt k k' ≡ false → key_lt k' k ≡ false → find ms k ≡ none =
      λ h i. subst (λ j. find ms j ≡ none) (sym (key_lt_eq k k' h i)) (find-IsAbove k' ms s) in
    ground (arith, same, remove-find_same k ms (IsAbove-IsSorted k' ms s))

put-IsSorted : (k : Bytes) (v : Json) (ms : Members) → IsSorted ms → IsSorted (put k v ms)
unfolding put
put-IsSorted k v no_members s = tt
put-IsSorted k v (member k' w ms) s =
    elim (key_lt k k')
        as (λ t.
          key_lt k k' ≡ t
          → IsSorted (
              if t
              then member k v (member k' w ms)
              else (if key_lt k' k then member k' w (put k v ms) else member k' v ms))) [
                | true ↦ λ e. (e, s)
                | false ↦ λ e.
                    elim (key_lt k' k)
                        as (λ t.
                          key_lt k' k ≡ t
                          → IsSorted (if t then member k' w (put k v ms) else member k' v ms)) [
                            | true ↦ λ f. put-IsAbove k' k v ms f s
                            | false ↦ λ f. s
                          ]
                      refl
              ]
      refl

remove-IsSorted : (k : Bytes) (ms : Members) → IsSorted ms → IsSorted (remove_member ms k)
unfolding remove_member
remove-IsSorted k no_members s = tt
remove-IsSorted k (member k' w ms) s =
    elim (key_lt k k')
      as (λ t. IsSorted (
        if t
        then member k' w ms
        else (if key_lt k' k then member k' w (remove_member ms k) else ms))) [
          | true ↦ s
          | false ↦
              elim (key_lt k' k)
                as (λ t. IsSorted (if t then member k' w (remove_member ms k) else ms)) [
                  | true ↦ remove-IsAbove k' k ms s
                  | false ↦ IsAbove-IsSorted k' ms s
                ]
        ]

-- In an object whose keys stand in order, an assignment and `remove` keep the order, and change what
-- is found under the key alone: it is then the new value, or nothing.
pub put-remove_member :
    (k l : Bytes) (v : Json) (ms : Members)
    → IsSorted ms
    → IsSorted (put k v ms)
      × IsSorted (remove_member ms k)
      × (find (put k v ms) l ≡ (if key_lt k l || key_lt l k then find ms l else some v))
      × (find (remove_member ms k) l ≡ (if key_lt k l || key_lt l k then find ms l else none))
put-remove_member k l v ms s = (put-IsSorted k v ms s, remove-IsSorted k ms s, found, removed)
  where
    same : (key_lt k l || key_lt l k) ≡ false → k ≡ l
    same h = key_lt_eq k l (ground (arith, h)) (ground (arith, h))

    found_new : (key_lt k l || key_lt l k) ≡ false → find (put k v ms) l ≡ some v
    found_new h = subst (λ j. find (put k v ms) j ≡ some v) (same h) (put-find_same k v ms)

    not_found : (key_lt k l || key_lt l k) ≡ false → find (remove_member ms k) l ≡ none
    not_found h = subst (λ j. find (remove_member ms k) j ≡ none) (same h) (remove-find_same k ms s)

    kept : (key_lt k l || key_lt l k) ≡ true → find (remove_member ms k) l ≡ find ms l
    kept h = remove-find_other k l ms h s

    found : find (put k v ms) l ≡ (if key_lt k l || key_lt l k then find ms l else some v)
    found = ground (arith, put-find_other k l v ms, found_new)

    removed : find (remove_member ms k) l ≡ (if key_lt k l || key_lt l k then find ms l else none)
    removed = ground (arith, kept, not_found)
