-- ===== src/Json/Edit.antt =====
-- The setters and getters of src/utils/Json.cpp on arrays and objects.
use lua_server.Common.{
  ℕ, zero, suc, ◌≡◌, Bool, true, false, Option, none, some, if◌then◌else◌, ◌>>=◌,
}
use lua_server.Common.Bytes.{Bytes}
use lua_server.Json.{Json, Items, Members, null, arr, obj, no_items, item, no_members, member}
use lua_server.Json.Reader.{key_lt, put}

abbrev pub is_plain : Json → Bool
is_plain (arr vs) = false
is_plain (obj ms) = false
is_plain v = true

-- `JValue::setInt` and the other setters, on what stands there: the code casts it to a JValue, which
-- an array or an object is not.
abbrev pub set_plain : Json → Json → Option Json
set_plain v old = if is_plain old then some v else none

-- Arrays: `pushInt` and the other four, and `createArray` and `createObj`, append a value.
unfoldable pub push : Items → Json → Items
push no_items v = item v no_items
push (item w vs) v = item w (push vs v)

unfoldable pub items_size : Items → ℕ
items_size no_items = 0
items_size (item v vs) = suc (items_size vs)

-- `items[idx]`
unfoldable pub item_at : Items → ℕ → Option Json
item_at no_items i = none
item_at (item v vs) zero = some v
item_at (item v vs) (suc i) = item_at vs i

unfoldable pub replace_item : Items → ℕ → Json → Items
replace_item no_items i v = no_items
replace_item (item w vs) zero v = item v vs
replace_item (item w vs) (suc i) v = item w (replace_item vs i v)

-- `JArray::setInt` and the other three
unfoldable pub set_item : Items → ℕ → Json → Option Items
set_item vs i v = item_at vs i >>= λ old. set_plain v old >>= λ new. some (replace_item vs i new)

unfoldable pub set_item_null : Items → ℕ → Option Items
set_item_null vs i = item_at vs i >>= λ old. some (replace_item vs i null)

-- `JArray::remove`, which is not defined behind the end
unfoldable pub remove_item : Items → ℕ → Option Items
remove_item no_items zero = some no_items
remove_item no_items (suc i) = none
remove_item (item v vs) zero = some vs
remove_item (item v vs) (suc i) = remove_item vs i >>= λ ws. some (item v ws)

-- Objects: `maps.find(key)`, by the order of a std::map
unfoldable pub find : Members → Bytes → Option Json
find no_members k = none
find (member k' v ms) k =
    let behind = find ms k in if key_lt k k' then none else (if key_lt k' k then behind else some v)

-- `JSonObj::setInt` and the other three
unfoldable pub set_member : Members → Bytes → Json → Option Members
set_member ms k v = elim (find ms k) [
  | none ↦ some (put k v ms)
  | some old ↦ set_plain v old >>= λ new. some (put k new ms)
]

-- `JSonObj::setNull`
unfoldable pub set_member_null : Members → Bytes → Members
set_member_null ms k = put k null ms

-- `JSonObj::remove`
unfoldable pub remove_member : Members → Bytes → Members
remove_member no_members k = no_members
remove_member (member k' v ms) k =
    let behind = remove_member ms k in
    if key_lt k k' then member k' v ms else (if key_lt k' k then member k' v behind else ms)

-- `createArray(key)` and `createObj(key)`: what stood there is not deleted.
unfoldable pub create_array : Members → Bytes → Members
create_array ms k = put k (arr no_items) ms

unfoldable pub create_obj : Members → Bytes → Members
create_obj ms k = put k (obj no_members) ms

-- The keys stand in order.
abbrev pub IsAbove : Bytes → Members → Type 0
IsAbove k no_members = Unit
IsAbove k (member k' v ms) = (key_lt k k' ≡ true) × IsAbove k' ms

abbrev pub IsSorted : Members → Type 0
IsSorted no_members = Unit
IsSorted (member k v ms) = IsAbove k ms
