-- ===== src/ObjectPool/Tests.antt =====
-- Runs of Objectpool.h.
-- One object in use, and none free.
use lua_server.Common.{◌==◌, arith, ℕ, ◌≡◌, refl, false, some, arith, none}
use lua_server.ObjectPool.{ObjectPool, create_object, fresh, reclaim_object}
use lua_server.ObjectPool.Use.{IsInUse, IsValid, Others, create_object_lem, reclaim_object_lem}

abbrev one_used : ObjectPool
one_used = record (fresh 2) { enabled = λ x. x == 0; next = 1 }

one_used-IsValid : IsValid one_used
one_used-IsValid = record {
  count = refl;
  free = tt;
  distinct = tt;
  unused = λ a l. (ground arith, refl);
}

create_object_example :
    (a : ℕ) × (p' : ObjectPool) × (create_object one_used ≡ some (a, p'))
    × ((one_used.enabled a ≡ false) × (IsValid p' × (IsInUse p' a × Others one_used a p')))
create_object_example = create_object_lem one_used one_used-IsValid

reclaim_object_example :
    (p' : ObjectPool) × (reclaim_object one_used (some 0) ≡ some p')
    × (IsValid p' × ((p'.enabled 0 ≡ false) × Others one_used 0 p'))
    × (reclaim_object p' (some 0) ≡ none)
reclaim_object_example = reclaim_object_lem one_used 0 one_used-IsValid (refl, refl)

-- The second reclaim of an object that the pool has kept is a fault.
reclaim_twice : (reclaim_object (record one_used { enabled = λ x. false }) (some 0)) ≡ none
unfolding reclaim_object
reclaim_twice = refl
