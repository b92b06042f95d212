-- ===== src/ObjectPool.antt =====
-- src/common/Objectpool.h: a list of free objects. Objects are addresses, and the store keeps the
-- flag of PoolObject.h and what has been deleted. `new` gives an address that was never used.
pub mod Use
mod Tests
use lua_server.Common.{
  ℕ, suc, ◌+◌, ◌-◌, Bool, true, false, not, Option, none, some, List, [], ◌∷◌, ◌++◌, leb, ltb, ◌==◌,
  if◌then◌else◌,
}

pub record ObjectPool : Type 0 where
  pub max_free : ℕ
  pub obj_count : ℕ
  pub objects : List ℕ
  pub enabled : ℕ → Bool
  pub deleted : ℕ → Bool
  pub next : ℕ

-- `setEnabledPoolObject`, and the mark of a deleted object
unfoldable pub set_flag : (ℕ → Bool) → ℕ → Bool → ℕ → Bool
set_flag f a v x = if x == a then v else f x

-- `ObjectPool(int32)`
abbrev pub fresh : ℕ → ObjectPool
fresh maxfreecount = record {
  max_free = maxfreecount;
  obj_count = 0;
  objects = [];
  enabled = λ x. false;
  deleted = λ x. false;
  next = 0;
}

-- `init`
unfoldable pub init : ObjectPool → ℕ → ObjectPool
init p count = record p { max_free = count }

-- `delete`, which faults on an object that has been deleted
unfoldable pub delete : ObjectPool → ℕ → Option ObjectPool
delete p a = if p.deleted a then none else some (record p { deleted = set_flag p.deleted a true })

unfoldable pub new_obj : ObjectPool → ℕ × ObjectPool
new_obj p = (p.next, record p { enabled = set_flag p.enabled p.next true; next = suc p.next })

-- The first object of the list, which must not be empty.
unfoldable pub take_first : ObjectPool → List ℕ → Option (ℕ × ObjectPool)
take_first p [] = none
take_first p (t ∷ ts) =
    some (
      t,
      record p { objects = ts; obj_count = p.obj_count - 1; enabled = set_flag p.enabled t true },
    )

-- `createObject`
unfoldable pub create_object : ObjectPool → Option (ℕ × ObjectPool)
create_object p = if ltb 0 p.obj_count then take_first p p.objects else some (new_obj p)

-- `reclaimObject`; `none` as the object is NULL. To ask a deleted object for its flag is a fault, and
-- so is an object that is not enabled: XAssert(0) writes through NULL (common/XAssert.cpp).
unfoldable pub reclaim_object : ObjectPool → Option ℕ → Option ObjectPool
reclaim_object p none = some p
reclaim_object p (some obj) =
    if p.deleted obj
    then none
    else (if not (p.enabled obj)
        then none
        else (let p' = record p { enabled = set_flag p.enabled obj false } in
            if leb p.max_free p.obj_count
            then delete p' obj
            else some
                (record p' { objects = p.objects ++ (obj ∷ []); obj_count = p.obj_count + 1 })))
