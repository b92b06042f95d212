-- ===== src/HttpParam.antt =====
-- src/common/HttpParam.cpp: the parameters of a request, `key=value` pieces between `&` characters.
-- Characters are their codes. A std::map is the list of its assignments, the newest first.
pub mod Split
pub mod Params
mod Tests
use lua_server.Common.{
  ℕ, zero, suc, ◌+◌, Bool, true, false, ◌&&◌, Option, none, some, List, [], ◌∷◌, ◌==◌,
  if◌then◌else◌, ◌>>=◌, length, take, drop,
}
use lua_server.Common.Bytes.{Bytes}

-- `str_view.find(cut, pos1)`, counted from pos1 on
unfoldable pub find_char : ℕ → Bytes → Option ℕ
find_char cut [] = none
find_char cut (c ∷ cs) =
    let rest = find_char cut cs in if c == cut then some 0 else (rest >>= λ n. some (suc n))

-- The loop of `splite`, at what is left from pos1 on. A round passes one `cut`.
unfoldable pub split_loop : ℕ → ℕ → Bytes → List Bytes
split_loop zero cut s = []
split_loop (suc fuel) cut s = elim (find_char cut s) [
  | none ↦ s ∷ []
  | some n ↦ take n s ∷ split_loop fuel cut (drop (suc n) s)
]

unfoldable pub splite : ℕ → Bytes → List Bytes
splite cut s = split_loop (length s + 1) cut s

unfoldable pub same : Bytes → Bytes → Bool
same [] [] = true
same [] (y ∷ ys) = false
same (x ∷ xs) [] = false
same (x ∷ xs) (y ∷ ys) = x == y && same xs ys

abbrev pub HttpParam : Type 0
HttpParam = List (Bytes × Bytes)

unfoldable pub lookup : HttpParam → Bytes → Option Bytes
lookup [] key = none
lookup ((k, v) ∷ m) key = let rest = lookup m key in if same k key then some v else rest

-- What the constructor does with the parts of a piece.
unfoldable pub assign : HttpParam → List Bytes → HttpParam
assign m (k ∷ v ∷ []) = (k, v) ∷ m
assign m _ = m

unfoldable pub assign_all : HttpParam → List Bytes → HttpParam
assign_all m [] = m
assign_all m (sub ∷ subs) = assign_all (assign m (splite b'=' sub)) subs

-- The constructor
unfoldable pub http_param : Bytes → ℕ → HttpParam
http_param str_v cut = assign_all [] (splite cut str_v)

-- `find`
unfoldable pub has_key : HttpParam → Bytes → Bool
has_key m key = elim (lookup m key) [ none ↦ false | some v ↦ true ]

-- `getStr`: `params[key]` creates a missing key, with an empty value.
unfoldable pub get_str : HttpParam → Bytes → Bytes × HttpParam
get_str m key = elim (lookup m key) [ none ↦ ([], (key, []) ∷ m) | some v ↦ (v, m) ]
