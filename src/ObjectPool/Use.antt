-- ===== src/ObjectPool/Use.antt =====
-- Objects in use and free objects of a pool stay apart.
use lua_server.Common.{
  ℕ, suc, ◌+◌, ◌-◌, ◌≤◌, ◌<◌, ◌≡◌, ◌≢◌, refl, ap, sym, ◌∙◌, Bool, true, false, some, List, [], ◌∷◌,
  ◌++◌, leb, not, if◌then◌else◌, none, length, length-append, arith, lt→ltb, le→leb, dec_lt, subst,
  none,
}
use lua_server.Common.Bytes.{All}
use lua_server.ObjectPool.{
  ObjectPool, set_flag, fresh, delete, new_obj, take_first, create_object, reclaim_object,
}

-- Free, not deleted, and allocated.
abbrev pub IsFree : ObjectPool → ℕ → Type 0
IsFree p a = (p.enabled a ≡ false) × ((p.deleted a ≡ false) × (a < p.next))

abbrev pub Distinct : List ℕ → Type 0
Distinct [] = Unit
Distinct (a ∷ bs) = All (λ b. b ≢ a) bs × Distinct bs

pub record IsValid (p : ObjectPool) : Type 0 where
  pub count : p.obj_count ≡ length p.objects
  pub free : All (IsFree p) p.objects
  pub distinct : Distinct p.objects
  pub unused : (a : ℕ) → p.next ≤ a → (p.enabled a ≡ false) × (p.deleted a ≡ false)

-- An object that the program holds.
abbrev pub IsInUse : ObjectPool → ℕ → Type 0
IsInUse p a = (p.enabled a ≡ true) × (p.deleted a ≡ false)

pub set_same : (f : ℕ → Bool) (a : ℕ) (v : Bool) → set_flag f a v a ≡ v
unfolding set_flag
set_same f a v = ground arith

pub set_other : (f : ℕ → Bool) (a x : ℕ) (v : Bool) → x ≢ a → set_flag f a v x ≡ f x
unfolding set_flag
set_other f a x v d = ground arith

All-both :
    (P Q R : ℕ → Type 0) (xs : List ℕ)
    → ((x : ℕ) → P x → Q x → R x)
    → All P xs
    → All Q xs
    → All R xs
All-both P Q R [] f h g = tt
All-both P Q R (x ∷ xs) f h g = (f x h.0 g.0, All-both P Q R xs f h.1 g.1)

All-last : (P : ℕ → Type 0) (xs : List ℕ) (a : ℕ) → P a → All P xs → All P (xs ++ (a ∷ []))
All-last P [] a g h = (g, tt)
All-last P (x ∷ xs) a g h = (h.0, All-last P xs a g h.1)

Distinct-last :
    (xs : List ℕ) (a : ℕ) → All (λ x. x ≢ a) xs → Distinct xs → Distinct (xs ++ (a ∷ []))
Distinct-last [] a h d = (tt, tt)
Distinct-last (x ∷ xs) a h d =
    (All-last (λ b. b ≢ x) xs a (λ e. h.0 (sym e)) d.0, Distinct-last xs a h.1 d.1)

pub fresh-IsValid : (n : ℕ) → IsValid (fresh n)
fresh-IsValid n = record { count = refl; free = tt; distinct = tt; unused = λ a l. (refl, refl) }

-- What a call has left as it was: the state of every other object.
abbrev pub Others : ObjectPool → ℕ → ObjectPool → Type 0
Others p a p' = (x : ℕ) → x ≢ a → (p'.enabled x ≡ p.enabled x) × (p'.deleted x ≡ p.deleted x)

module _ (p : ObjectPool) (v : IsValid p) where
  below : (xs : List ℕ) → All (IsFree p) xs → All (λ x. x ≢ p.next) xs
  below [] h = tt
  below (x ∷ xs) h = (omega (arith, h.0.1.1), below xs h.1)

  create_new :
      p.objects ≡ []
      → (p' : ObjectPool) × (create_object p ≡ some (p.next, p'))
        × (IsValid p' × (IsInUse p' p.next × Others p p.next p'))
  unfolding create_object new_obj
  create_new e = (
    record p { enabled = set_flag p.enabled p.next true; next = suc p.next },
    rw (v.count, e) refl,
    (
      record {
        count = v.count;
        free = rw e tt;
        distinct = v.distinct;
        unused = λ a l. (
          set_other p.enabled p.next a true (omega arith) ∙ (v.unused a (omega arith)).0,
          (v.unused a (omega arith)).1,
        );
      },
      (
        (set_same p.enabled p.next true, (v.unused p.next (omega arith)).1),
        λ x d. (set_other p.enabled p.next x true d, refl),
      ),
    ),
  )

  create_pooled :
      (t : ℕ) (ts : List ℕ)
      → p.objects ≡ t ∷ ts
      → (p' : ObjectPool) × (create_object p ≡ some (t, p'))
        × (IsValid p' × (IsInUse p' t × Others p t p'))
  unfolding create_object take_first
  create_pooled t ts e =
      let free : All (IsFree p) (t ∷ ts) = subst (All (IsFree p)) e v.free in
      let apart : Distinct (t ∷ ts) = subst Distinct e v.distinct in
      (
        record p { objects = ts; obj_count = p.obj_count - 1; enabled = set_flag p.enabled t true },
        rw (lt→ltb 0 p.obj_count (omega (arith, v.count, ap length e)), e) refl,
        (
          record {
            count = omega (arith, v.count, ap length e);
            free =
                All-both (IsFree p) (λ b. b ≢ t) _ ts
                  (λ x f d. (set_other p.enabled t x true d ∙ f.0, f.1)) free.1 apart.0;
            distinct = apart.1;
            unused = λ a l. (
              set_other p.enabled t a true (omega (arith, free.0.1.1)) ∙ (v.unused a l).0,
              (v.unused a l).1,
            );
          },
          ((set_same p.enabled t true, free.0.1.0), λ x d. (set_other p.enabled t x true d, refl)),
        ),
      )

  -- an object in use is none of the free ones
  apart_from : (a : ℕ) (xs : List ℕ) → p.enabled a ≡ true → All (IsFree p) xs → All (λ x. x ≢ a) xs
  apart_from a [] u h = tt
  apart_from a (x ∷ xs) u h = ((λ e. cc (u, h.0.0, ap p.enabled e)), apart_from a xs u h.1)

  allocated : (a : ℕ) → p.enabled a ≡ true → a < p.next
  allocated a u = elim (dec_lt a p.next) [ yes l ↦ l | no l ↦ cc (u, (v.unused a (omega arith)).0) ]

  deleted_again :
      (a : ℕ)
      → IsInUse p a
      → p.max_free ≤ p.obj_count
      → (p' : ObjectPool) × (reclaim_object p (some a) ≡ some p')
        × (IsValid p' × ((p'.enabled a ≡ false) × Others p a p'))
  unfolding reclaim_object delete
  deleted_again a u l = (
    record p { enabled = set_flag p.enabled a false; deleted = set_flag p.deleted a true },
    rw (u.1, u.0, le→leb p.max_free p.obj_count l) refl,
    (
      record {
        count = v.count;
        free =
            All-both (IsFree p) (λ x. x ≢ a) _ p.objects
              (λ x f d. (
                set_other p.enabled a x false d ∙ f.0,
                (set_other p.deleted a x true d ∙ f.1.0, f.1.1),
              ))
              v.free (apart_from a p.objects u.0 v.free);
        distinct = v.distinct;
        unused = λ x m.
            let d : x ≢ a = omega (arith, allocated a u.0) in
            (
              set_other p.enabled a x false d ∙ (v.unused x m).0,
              set_other p.deleted a x true d ∙ (v.unused x m).1,
            );
      },
      (
        set_same p.enabled a false,
        λ x d. (set_other p.enabled a x false d, set_other p.deleted a x true d),
      ),
    ),
  )

  pooled_again :
      (a : ℕ)
      → IsInUse p a
      → p.obj_count < p.max_free
      → (p' : ObjectPool) × (reclaim_object p (some a) ≡ some p')
        × (IsValid p' × ((p'.enabled a ≡ false) × Others p a p'))
  unfolding reclaim_object
  pooled_again a u l = (
    record p {
      enabled = set_flag p.enabled a false;
      objects = p.objects ++ (a ∷ []);
      obj_count = p.obj_count + 1;
    },
    rw (u.1, u.0, full) refl,
    (
      record {
        count = omega (arith, v.count, length-append p.objects (a ∷ []));
        free =
            All-last _ p.objects a (set_same p.enabled a false, (u.1, allocated a u.0))
              (All-both (IsFree p) (λ x. x ≢ a) _ p.objects
                (λ x f d. (set_other p.enabled a x false d ∙ f.0, f.1)) v.free
                (apart_from a p.objects u.0 v.free));
        distinct = Distinct-last p.objects a (apart_from a p.objects u.0 v.free) v.distinct;
        unused = λ x m. (
          set_other p.enabled a x false (omega (arith, allocated a u.0)) ∙ (v.unused x m).0,
          (v.unused x m).1,
        );
      },
      (set_same p.enabled a false, λ x d. (set_other p.enabled a x false d, refl)),
    ),
  )
    where
      full : leb p.max_free p.obj_count ≡ false
      full = ground arith

-- `createObject` of a valid pool does not fault; the object that it gives was not in use, is in use
-- and not deleted afterwards, and no other object changes; the pool stays valid.
pub create_object_lem :
    (p : ObjectPool)
    → IsValid p
    → (a : ℕ) × (p' : ObjectPool) × (create_object p ≡ some (a, p'))
      × ((p.enabled a ≡ false) × (IsValid p' × (IsInUse p' a × Others p a p')))
create_object_lem p v = choose p.objects refl
  where
    choose :
        (xs : List ℕ)
        → p.objects ≡ xs
        → (a : ℕ) × (p' : ObjectPool) × (create_object p ≡ some (a, p'))
          × ((p.enabled a ≡ false) × (IsValid p' × (IsInUse p' a × Others p a p')))
    choose [] e =
        let (p', r, t) = create_new p v e in (p.next, p', r, ((v.unused p.next (omega arith)).0, t))
    choose (x ∷ xs) e =
        let (p', r, t) = create_pooled p v x xs e in
        let free : All (IsFree p) (x ∷ xs) = subst (All (IsFree p)) e v.free in
        (x, p', r, (free.0.0, t))

not_twice : (p : ObjectPool) (a : ℕ) → p.enabled a ≡ false → reclaim_object p (some a) ≡ none
unfolding reclaim_object
not_twice p a e =
    elim (p.deleted a)
      as (λ d.
        (if d
          then none
          else (if not (p.enabled a)
              then none
              else (let p' = record p { enabled = set_flag p.enabled a false } in
                  if leb p.max_free p.obj_count
                  then delete p' a
                  else some (record p' {
                    objects = p.objects ++ (a ∷ []);
                    obj_count = p.obj_count + 1;
                  }))))
        ≡ none) [ true ↦ refl | false ↦ rw e refl ]

-- `reclaimObject` of an object in use does not fault; the object is not in use afterwards, no other
-- object changes, and the pool stays valid, whether it keeps the object or deletes it. To reclaim
-- the object a second time is a fault.
pub reclaim_object_lem :
    (p : ObjectPool) (a : ℕ)
    → IsValid p
    → IsInUse p a
    → (p' : ObjectPool) × (reclaim_object p (some a) ≡ some p')
      × (IsValid p' × ((p'.enabled a ≡ false) × Others p a p'))
      × (reclaim_object p' (some a) ≡ none)
reclaim_object_lem p a v u = elim (dec_lt p.obj_count p.max_free) [
  | yes l ↦ (let (p', r, t) = pooled_again p v a u l in (p', r, t, not_twice p' a t.1.0))
  | no l ↦
      (let (p', r, t) = deleted_again p v a u (omega arith) in (p', r, t, not_twice p' a t.1.0))
]
