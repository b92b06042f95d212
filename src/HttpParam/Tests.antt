-- ===== src/HttpParam/Tests.antt =====
-- Runs of HttpParam.cpp.
-- a=1 and b=, then a=2
use lua_server.Common.{◌≡◌, refl, true, List, ◌∷◌, arith, []}
use lua_server.Common.Bytes.{All}
use lua_server.HttpParam.{
  assign, assign_all, find_char, get_str, has_key, http_param, lookup, split_loop, splite,
}
use lua_server.HttpParam.Params.{IsPlain, Pair, get_str_keeps, http_param-print, last_value, print}
use lua_server.HttpParam.Split.{IsFree, join, join-splite, splite-join}

abbrev pairs : List Pair
pairs = ((97 ∷ []), (49 ∷ [])) ∷ ((98 ∷ []), []) ∷ ((97 ∷ []), (50 ∷ [])) ∷ []

pairs-IsPlain : All (IsPlain b'&') pairs
pairs-IsPlain = (
  (((omega arith, tt), (omega arith, tt)), ((omega arith, tt), (omega arith, tt))),
  (
    (((omega arith, tt), tt), ((omega arith, tt), tt)),
    ((((omega arith, tt), (omega arith, tt)), ((omega arith, tt), (omega arith, tt))), tt),
  ),
)

http_param-print_example :
    lookup (http_param (print b'&' pairs) b'&') (97 ∷ []) ≡ last_value pairs (97 ∷ [])
http_param-print_example = http_param-print b'&' pairs (97 ∷ []) (omega arith) pairs-IsPlain

splite-join_example : splite b'&' (join b'&' ([] ∷ (97 ∷ []) ∷ [])) ≡ [] ∷ (97 ∷ []) ∷ []
splite-join_example = splite-join b'&' [] ((97 ∷ []) ∷ []) (tt, ((omega arith, tt), tt))

join-splite_example :
    (join b'&' (splite b'&' (38 ∷ 97 ∷ [])) ≡ 38 ∷ 97 ∷ [])
    × All (IsFree b'&') (splite b'&' (38 ∷ 97 ∷ []))
join-splite_example = join-splite b'&' (38 ∷ 97 ∷ [])

get_str_keeps_example :
    (has_key (get_str [] (97 ∷ [])).1 (97 ∷ []) ≡ true)
    × (get_str (get_str [] (97 ∷ [])).1 (97 ∷ []) ≡ get_str [] (97 ∷ []))
get_str_keeps_example = get_str_keeps [] (97 ∷ [])

-- Only a piece with exactly one `=` is taken.
odd_pieces : http_param (97 ∷ 38 ∷ 98 ∷ 61 ∷ 61 ∷ []) b'&' ≡ []
unfolding http_param splite split_loop find_char assign_all assign
odd_pieces = refl
