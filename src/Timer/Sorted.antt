-- ===== src/Timer/Sorted.antt =====
-- A sorted list of nodes keeps the promises of a heap.
use lua_server.Common.{
  ℕ, ◌+◌, ◌≤◌, ◌<◌, ◌≡◌, ◌≢◌, refl, ap, true, false, Option, none, some, List, [], ◌∷◌, leb, ◌==◌,
  ==_iff, if◌then◌else◌, ℕ_discrete, dec_lt, le→leb, arith,
}
use lua_server.Timer.{HeapLib}
use lua_server.Timer.Valid.{IsHeap, one_if}

count : ℕ → List ℕ → ℕ
count x [] = 0
count x (y ∷ h) = one_if x y + count x h

unfoldable pub insert : (ℕ → ℕ) → ℕ → List ℕ → List ℕ
insert key r [] = r ∷ []
insert key r (y ∷ h) =
    let rest = insert key r h in if leb (key r) (key y) then r ∷ y ∷ h else y ∷ rest

unfoldable pub remove : ℕ → List ℕ → List ℕ
remove r [] = []
remove r (y ∷ h) = let rest = remove r h in if r == y then h else y ∷ rest

unfoldable pub first : List ℕ → Option ℕ
first [] = none
first (y ∷ h) = some y

abbrev pub sorted_list : HeapLib
sorted_list = record {
  Heap = List ℕ;
  heap_init = [];
  heap_min = first;
  heap_insert = insert;
  heap_remove = λ key. remove;
}

unfoldable IsSorted : (ℕ → ℕ) → List ℕ → Type 0
IsSorted key [] = Unit
IsSorted key (y ∷ h) = ((x : ℕ) → 0 < count x h → key y ≤ key x) × IsSorted key h

count-insert :
    (key : ℕ → ℕ) (r : ℕ) (h : List ℕ) (x : ℕ) → count x (insert key r h) ≡ one_if x r + count x h
unfolding count insert
count-insert key r [] x = refl
count-insert key r (y ∷ h) x =
    let rest = count-insert key r h x in
    elim (leb (key r) (key y))
      as (λ b.
        count x (if b then r ∷ y ∷ h else y ∷ insert key r h)
        ≡ one_if x r + (one_if x y + count x h)) [ true ↦ refl | false ↦ omega (arith, rest) ]

count-remove :
    (r : ℕ) (h : List ℕ) (x : ℕ) → 0 < count r h → count x h ≡ one_if x r + count x (remove r h)
unfolding count remove one_if
count-remove r [] x l = absurd (omega arith)
count-remove r (y ∷ h) x l = elim (ℕ_discrete r y) [
  | yes e ↦ (let b : (r == y) ≡ true = (==_iff r y).1 e in rw (b, e) refl)
  | no d ↦
      (let b : (r == y) ≡ false = ground (arith, d) in
        let rest = count-remove r h x (ground (arith, d, l)) in rw b (omega (arith, rest)))
]

count_same : (r x : ℕ) (h : List ℕ) → count r h ≡ 0 → 0 < count x h → x ≢ r
count_same r x h e l q = let c = ap (λ y. count y h) q in omega arith

same-IsSorted :
    (key key' : ℕ → ℕ) (r : ℕ) (h : List ℕ)
    → IsSorted key h
    → count r h ≡ 0
    → ((x : ℕ) → x ≢ r → key' x ≡ key x)
    → IsSorted key' h
unfolding IsSorted count one_if
same-IsSorted key key' r [] s e k = tt
same-IsSorted key key' r (y ∷ h) (s, t) e k =
    let e' : count r h ≡ 0 = omega arith in
    let d : y ≢ r = ground (arith, e) in
    (
      λ x l. omega (arith, s x l, k x (count_same r x h e' l), k y d),
      same-IsSorted key key' r h t e' k,
    )

insert-IsSorted :
    (key : ℕ → ℕ) (r : ℕ) (h : List ℕ) → IsSorted key h → IsSorted key (insert key r h)
unfolding IsSorted insert count one_if
insert-IsSorted key r [] s = (λ x l. let e : x ≡ r = ground arith in omega (arith, ap key e), tt)
insert-IsSorted key r (y ∷ h) (s, t) =
    let rest = insert-IsSorted key r h t in
    let c = count-insert key r h in
    elim (dec_lt (key y) (key r)) [
      | yes l ↦
          (let b : leb (key r) (key y) ≡ false = ground arith in
            rw b (
              λ x m. elim (ℕ_discrete x r) [
                | yes e ↦ omega (arith, l, ap key e)
                | no d ↦ s x (ground (arith, m, d, c x))
              ],
              rest,
            ))
      | no d ↦
          (let b : leb (key r) (key y) ≡ true = le→leb (key r) (key y) (omega (arith, d)) in
            rw b (
              λ x m. elim (ℕ_discrete x r) [
                | yes e ↦ omega (arith, ap key e)
                | no f ↦ elim (ℕ_discrete x y) [
                  | yes g ↦ omega (arith, ap key g, d)
                  | no g ↦ (let i = s x (ground (arith, m, f, g)) in omega (arith, i, d))
                ]
              ],
              (s, t),
            ))
    ]

some_eq {ℓ} : {A : Type ℓ} {x y : A} → some x ≡ some y → x ≡ y
some_eq {x = x} h = ap (λ o. elim o [ none ↦ x | some z ↦ z ]) h

less_yes :
    (x y r : ℕ) (h : List ℕ)
    → (r == y) ≡ true
    → 0 < count x (remove r (y ∷ h))
    → 0 < count x (y ∷ h)
unfolding count remove
less_yes x y r h b m =
    let c = ap (λ o. count x (if o then h else y ∷ remove r h)) b in omega (arith, c, m)

less_no :
    (x y r : ℕ) (h : List ℕ)
    → (r == y) ≡ false
    → (0 < count x (remove r h) → 0 < count x h)
    → 0 < count x (remove r (y ∷ h))
    → 0 < count x (y ∷ h)
unfolding count remove
less_no x y r h b k m =
    let c = ap (λ o. count x (if o then h else y ∷ remove r h)) b in
    elim (dec_lt 0 (count x (remove r h))) [
      | yes l ↦ omega (arith, k l)
      | no d ↦ omega (arith, c, m, d)
    ]

less : (x r : ℕ) (h : List ℕ) → 0 < count x (remove r h) → 0 < count x h
unfolding count remove
less x r [] m = m
less x r (y ∷ h) m = elim (ℕ_discrete r y) [
  | yes e ↦ (let b : (r == y) ≡ true = (==_iff r y).1 e in less_yes x y r h b m)
  | no d ↦ (let b : (r == y) ≡ false = ground (arith, d) in less_no x y r h b (less x r h) m)
]

remove-IsSorted : (key : ℕ → ℕ) (r : ℕ) (h : List ℕ) → IsSorted key h → IsSorted key (remove r h)
unfolding IsSorted remove count one_if
remove-IsSorted key r [] s = tt
remove-IsSorted key r (y ∷ h) (s, t) =
    let rest = remove-IsSorted key r h t in
    elim (ℕ_discrete r y) [
      | yes e ↦ (let b : (r == y) ≡ true = (==_iff r y).1 e in rw b t)
      | no d ↦
          (let b : (r == y) ≡ false = ground (arith, d) in rw b (λ x m. s x (less x r h m), rest))
    ]

none_counted : (h : List ℕ) (x : ℕ) → first h ≡ none → count x h ≡ 0
unfolding first count
none_counted [] x e = refl
none_counted (y ∷ h) x e = cc e

first_counted : (h : List ℕ) (r : ℕ) → first h ≡ some r → 0 < count r h
unfolding first count one_if
first_counted [] r e = cc e
first_counted (y ∷ h) r e = let q : y ≡ r = some_eq e in ground (arith, q)

first_least :
    (key : ℕ → ℕ) (h : List ℕ) (r x : ℕ)
    → IsSorted key h
    → first h ≡ some r
    → 0 < count x h
    → key r ≤ key x
unfolding first count one_if IsSorted
first_least key [] r x s e l = cc e
first_least key (y ∷ h) r x (s, t) e l =
    let q = ap key (some_eq e) in
    elim (ℕ_discrete x y) [
      | yes g ↦ omega (arith, q, ap key g)
      | no g ↦ (let i = s x (ground (arith, l, g)) in omega (arith, i, q))
    ]

removed_all : (r : ℕ) (h : List ℕ) → count r h ≡ 1 → count r (remove r h) ≡ 0
unfolding one_if
removed_all r h e =
    let c = count-remove r h r (omega (arith, e)) in
    let d : (r == r) ≡ true = (==_iff r r).1 refl in ground (arith, c, d, e)

pub sorted_list-IsHeap : IsHeap sorted_list
unfolding count IsSorted
sorted_list-IsHeap = record {
  held = λ h x. count x h;
  IsOrdered = IsSorted;
  held_init = λ x. refl;
  held_insert = count-insert;
  held_remove = λ key r h x l. count-remove r h x l;
  ordered_init = λ key. tt;
  ordered_insert =
      λ key key' r h s e k. insert-IsSorted key' r h (same-IsSorted key key' r h s e k);
  ordered_remove = λ key key' key'' r h s e k k'.
      same-IsSorted key key'' r (remove r h) (remove-IsSorted key r h s) (removed_all r h e) k';
  none_held = none_counted;
  min_held = first_counted;
  min_least = first_least;
}
