-- ===== src/HttpParam/Params.antt =====
-- What the constructor of HttpParam finds in printed parameters, and what `getStr` does to the map.
use lua_server.Common.{
  ℕ, ◌≡◌, ◌≢◌, refl, sym, ◌∙◌, Bool, true, false, Option, none, some, List, [], ◌∷◌, ◌++◌,
  if◌then◌else◌, arith, map, Option-cases, inl, inr, ap,
}
use lua_server.Common.Bytes.{Bytes, All}
use lua_server.HttpParam.{
  HttpParam, splite, same, lookup, assign, assign_all, http_param, has_key, get_str,
}
use lua_server.HttpParam.Split.{IsFree, join, splite-join}

abbrev pub Pair : Type 0
Pair = Bytes × Bytes

unfoldable pub print_pair : Pair → Bytes
print_pair (k, v) = k ++ (b'=' ∷ v)

-- Parameters as a client writes them.
unfoldable pub print : ℕ → List Pair → Bytes
print cut kvs = join cut (map print_pair kvs)

-- A key and a value that hold neither `=` nor the separator.
abbrev pub IsPlain : ℕ → Pair → Type 0
IsPlain cut (k, v) = (IsFree b'=' k × IsFree b'=' v) × (IsFree cut k × IsFree cut v)

-- The second value, if there is no first.
unfoldable pub override : Option Bytes → Option Bytes → Option Bytes
override none o = o
override (some v) o = some v

-- The value that is given last to a key.
unfoldable pub last_value : List Pair → Bytes → Option Bytes
last_value [] key = none
last_value ((k, v) ∷ kvs) key =
    let rest = last_value kvs key in override rest (if same k key then some v else none)

IsFree-append : (cut : ℕ) (k v : Bytes) → IsFree cut k → IsFree cut v → IsFree cut (k ++ v)
IsFree-append cut [] v h g = g
IsFree-append cut (c ∷ k) v h g = (h.0, IsFree-append cut k v h.1 g)

pair-IsFree : (cut : ℕ) (p : Pair) → cut ≢ b'=' → IsPlain cut p → IsFree cut (print_pair p)
unfolding print_pair
pair-IsFree cut (k, v) d h = IsFree-append cut k (b'=' ∷ v) h.1.0 ((λ e. d (sym e)), h.1.1)

pairs-IsFree :
    (cut : ℕ) (kvs : List Pair)
    → cut ≢ b'='
    → All (IsPlain cut) kvs
    → All (IsFree cut) (map print_pair kvs)
pairs-IsFree cut [] d h = tt
pairs-IsFree cut (p ∷ kvs) d h = (pair-IsFree cut p d h.0, pairs-IsFree cut kvs d h.1)

splite-pair :
    (k v : Bytes) → IsFree b'=' k → IsFree b'=' v → splite b'=' (print_pair (k, v)) ≡ k ∷ v ∷ []
unfolding print_pair join
splite-pair k v h g = splite-join b'=' k (v ∷ []) (h, (g, tt))

override_step :
    (last o : Option Bytes) (v : Bytes) (b : Bool)
    → override last (if b then some v else o)
      ≡ override (override last (if b then some v else none)) o
unfolding override
override_step none o v true = refl
override_step none o v false = refl
override_step (some w) o v b = refl

assign-pair :
    (m : HttpParam) (k v : Bytes)
    → IsFree b'=' k
    → IsFree b'=' v
    → assign m (splite b'=' (print_pair (k, v))) ≡ (k, v) ∷ m
unfolding assign
assign-pair m k v h g = ap (assign m) (splite-pair k v h g)

lookup-assign_all :
    (cut : ℕ) (kvs : List Pair) (m : HttpParam) (key : Bytes)
    → All (IsPlain cut) kvs
    → lookup (assign_all m (map print_pair kvs)) key ≡ override (last_value kvs key) (lookup m key)
unfolding lookup assign_all assign last_value
lookup-assign_all cut [] m key h = unfold override in refl
lookup-assign_all cut ((k, v) ∷ kvs) m key h =
    ap (λ n. lookup (assign_all n (map print_pair kvs)) key) (assign-pair m k v h.0.0.0 h.0.0.1)
    ∙ lookup-assign_all cut kvs ((k, v) ∷ m) key h.1
    ∙ override_step (last_value kvs key) (lookup m key) v (same k key)

override-none : (o : Option Bytes) → override o none ≡ o
unfolding override
override-none none = refl
override-none (some v) = refl

splite-print :
    (cut : ℕ) (p : Pair) (kvs : List Pair)
    → cut ≢ b'='
    → All (IsPlain cut) (p ∷ kvs)
    → splite cut (print cut (p ∷ kvs)) ≡ map print_pair (p ∷ kvs)
unfolding print
splite-print cut p kvs d h =
    splite-join cut (print_pair p) (map print_pair kvs) (pairs-IsFree cut (p ∷ kvs) d h)

-- Parameters written as `key=value` with a separator other than `=` between them, keys and values
-- holding neither: the constructor gives each key the value that is written last for it, and no
-- value to any other key.
pub http_param-print :
    (cut : ℕ) (kvs : List Pair) (key : Bytes)
    → cut ≢ b'='
    → All (IsPlain cut) kvs
    → lookup (http_param (print cut kvs) cut) key ≡ last_value kvs key
unfolding http_param
http_param-print cut [] key d h =
    unfold print join last_value assign_all assign lookup in
    rw (splite-join cut [] [] (tt, tt), splite-join b'=' [] [] (tt, tt)) refl
http_param-print cut (p ∷ kvs) key d h = rw (splite-print cut p kvs d h) (
    lookup-assign_all cut (p ∷ kvs) [] key h
    ∙ unfold lookup in override-none (last_value (p ∷ kvs) key))

same_refl : (key : Bytes) → same key key ≡ true
unfolding same
same_refl [] = refl
same_refl (c ∷ key) = ground (arith, same_refl key)

module _ (m : HttpParam) (key : Bytes) where
  lookup-created : lookup ((key, []) ∷ m) key ≡ some []
  unfolding lookup
  lookup-created = rw (same_refl key) refl

  found_keeps :
      (v : Bytes) (m' : HttpParam)
      → lookup m' key ≡ some v
      → (has_key m' key ≡ true) × (get_str m' key ≡ (v, m'))
  unfolding has_key get_str
  found_keeps v m' e = (rw (has_key, e) refl, rw (get_str, e) refl)

-- After `getStr` the key is in the map (even if it was not), and the next `getStr` gives the same
-- value and changes nothing.
pub get_str_keeps :
    (m : HttpParam) (key : Bytes)
    → (has_key (get_str m key).1 key ≡ true) × (get_str (get_str m key).1 key ≡ get_str m key)
unfolding get_str
get_str_keeps m key = elim (Option-cases (lookup m key)) [
  | inl e ↦
      let g : get_str m key ≡ ([], (key, []) ∷ m) = rw (get_str, e) refl in
      rw g (found_keeps m key [] ((key, []) ∷ m) (lookup-created m key))
  | inr (v, e) ↦
      let g : get_str m key ≡ (v, m) = rw (get_str, e) refl in rw g (found_keeps m key v m e)
]
