-- ===== src/Json/Total.antt =====
-- The reader ends on every text: its fuel is enough.
use lua_server.Common.{
  ℕ, zero, suc, ◌+◌, ◌*◌, ◌≤◌, ◌<◌, ◌≡◌, ◌≢◌, refl, Bool, true, false, not, ◌&&◌, Option, none,
  some, [], ◌∷◌, ◌==◌, if◌then◌else◌, length, drop, arith, Bool-cases, inl, inr, length-drop,
}
use lua_server.Common.Bytes.{Bytes}
use lua_server.Json.{Floats, Json, Items, Members, int, float, str, arr, obj, no_members}
use lua_server.Json.Reader.{
  Parsed, ok, failed, threw, no_fuel, ◌>>=◌, skip, head, starts, scan_str, close_str, read_str,
  Scanned, stopped, second_dot, scan_number, or_throw, end_number, read_number, read_base, at_end,
  finish, add_item, is_comma, past_comma, put, reader, read_items, read_members, stoi, Outcome,
  unfinished, whole, parser, is_digit,
}

-- The reader has ended, and if it has read something, fewer than n characters are left.
abbrev pub Leaves : {A : Type 0} → ℕ → Parsed A → Type 0
Leaves n (ok a r) = length r < n
Leaves n (failed r) = Unit
Leaves n threw = Unit
Leaves n no_fuel = ⊥

length-skip : (s : Bytes) → length (skip s) ≤ length s
unfolding skip
length-skip [] = omega arith
length-skip (c ∷ s) = ground (arith, length-skip s)

length-past_comma : (s : Bytes) → length (past_comma (skip s)) ≤ length s
length-past_comma s = let l = length-skip s in let d = length-drop 1 (skip s) in ground arith

scan_str-le : (s : Bytes) → length (scan_str s).1 ≤ length s
unfolding scan_str
scan_str-le [] = omega arith
scan_str-le (c ∷ s) = ground (arith, scan_str-le s)

close_str-Leaves : (s r : Bytes) (n : ℕ) → length r ≤ n → Leaves n (close_str s r)
close_str-Leaves s [] n h = tt
close_str-Leaves [] (q ∷ r) n h = tt
close_str-Leaves (c ∷ s) (q ∷ r) n h = omega arith

read_str-Leaves : (s : Bytes) → Leaves (length s) (read_str s)
unfolding read_str
read_str-Leaves [] = tt
read_str-Leaves (c ∷ s) = elim (Bool-cases (c == b'"')) [
  | inl e ↦ rw e (
      close_str-Leaves (scan_str s).0 (scan_str s).1 (suc (length s))
        (omega (arith, scan_str-le s)))
  | inr e ↦ rw e tt
]

-- The digits that were counted have been passed.
abbrev Counts : ℕ → Scanned → Type 0
Counts n (stopped isfloat numpos r) = numpos + length r ≤ n
Counts n (second_dot r) = Unit

Counts-le : (n m : ℕ) (c : Scanned) → n ≤ m → Counts n c → Counts m c
Counts-le n m (stopped f k r) h c = omega arith
Counts-le n m (second_dot r) h c = tt

scan_number-Counts : (f : Bool) (m : ℕ) (s : Bytes) → Counts (m + length s) (scan_number f m s)
unfolding scan_number
scan_number-Counts f m [] = omega arith
scan_number-Counts f m (c ∷ s) =
    let dot : Counts (m + suc (length s)) (scan_number true m s) =
      Counts-le (m + length s) (m + suc (length s)) (scan_number true m s) (omega arith)
        (scan_number-Counts true m s) in
    let digit : Counts (m + suc (length s)) (scan_number f (m + 1) s) =
      Counts-le (m + 1 + length s) (m + suc (length s)) (scan_number f (m + 1) s) (omega arith)
        (scan_number-Counts f (m + 1) s) in
    choose f dot digit
  where
    choose :
        (g : Bool)
        → Counts (m + suc (length s)) (scan_number true m s)
        → Counts (m + suc (length s)) (scan_number f (m + 1) s)
        → Counts (m + suc (length s)) (
            if c == b'.'
            then (if g then second_dot (c ∷ s) else scan_number true m s)
            else (if is_digit c then scan_number f (m + 1) s else stopped f m (c ∷ s)))
    choose g dot digit = elim (Bool-cases (c == b'.')) [
      | inl e ↦ by_float g dot e
      | inr e ↦ elim (Bool-cases (is_digit c)) [
        | inl d ↦ rw (e, d) digit
        | inr d ↦ rw (e, d) (omega arith)
      ]
    ]
      where
        by_float :
            (g : Bool)
            → Counts (m + suc (length s)) (scan_number true m s)
            → (c == b'.') ≡ true
            → Counts (m + suc (length s)) (
                if c == b'.'
                then (if g then second_dot (c ∷ s) else scan_number true m s)
                else (if is_digit c then scan_number f (m + 1) s else stopped f m (c ∷ s)))
        by_float true dot e = rw e tt
        by_float false dot e = rw e dot

Leaves-le : {A : Type 0} (n m : ℕ) (p : Parsed A) → n ≤ m → Leaves n p → Leaves m p
Leaves-le n m (ok a r) h l = omega arith
Leaves-le n m (failed r) h l = tt
Leaves-le n m threw h l = tt
Leaves-le n m no_fuel h l = l

Leaves->>= :
    {A B : Type 0} (n m : ℕ) (p : Parsed A) (f : A → Bytes → Parsed B)
    → Leaves n p
    → ((a : A) (r : Bytes) → length r < n → Leaves m (f a r))
    → Leaves m (p >>= f)
Leaves->>= n m (ok a r) f l h = h a r l
Leaves->>= n m (failed r) f l h = tt
Leaves->>= n m threw f l h = tt
Leaves->>= n m no_fuel f l h = l

or_throw-Leaves :
    {A : Type 0} (n : ℕ) (make : A → Json) (o : Option A) (r : Bytes)
    → length r < n
    → Leaves n (or_throw make o r)
or_throw-Leaves n make none r h = tt
or_throw-Leaves n make (some a) r h = h

end_number-Leaves :
    (fl : Floats) (pnum : Bytes) (n : ℕ) (c : Scanned)
    → Counts n c
    → Leaves n (end_number fl pnum c)
unfolding end_number
end_number-Leaves fl pnum n (second_dot r) h = tt
end_number-Leaves fl pnum n (stopped f k r) h = elim (Bool-cases (k == 0)) [
  | inl e ↦ rw e (
      Leaves->>= (length r) n (read_str r) (λ s r'. ok (str s) r') (read_str-Leaves r)
        (λ s r' l. omega arith))
  | inr e ↦ rw e (by_float f (ground arith))
]
  where
    by_float :
        (g : Bool)
        → length r < n
        → Leaves n (if g then or_throw float (fl.stof pnum) r else or_throw int (stoi pnum) r)
    by_float true l = or_throw-Leaves n float (fl.stof pnum) r l
    by_float false l = or_throw-Leaves n int (stoi pnum) r l

read_number-Leaves : (fl : Floats) (s : Bytes) → Leaves (length s) (read_number fl s)
unfolding read_number
read_number-Leaves fl s = elim (Bool-cases (head s == b'-')) [
  | inl e ↦ rw e (after (drop 1 s) (omega (arith, length-drop 1 s)))
  | inr e ↦ rw e (after s (omega arith))
]
  where
    after :
        (t : Bytes)
        → length t ≤ length s
        → Leaves (length s) (end_number fl s (scan_number false 0 t))
    after t l = end_number-Leaves fl s (length s) (scan_number false 0 t) (
        Counts-le (0 + length t) (length s) (scan_number false 0 t) (omega arith)
          (scan_number-Counts false 0 t))

starts-le : (w s : Bytes) → starts w s ≡ true → length w ≤ length s
unfolding starts
starts-le [] s h = omega arith
starts-le (c ∷ w) [] h = cc
starts-le (c ∷ w) (d ∷ s) h = ground (arith, starts-le w s)

read_base-Leaves : (fl : Floats) (s : Bytes) → Leaves (length s) (read_base fl s)
unfolding read_base
read_base-Leaves fl s = word (b'n' ∷ b'u' ∷ b'l' ∷ b'l' ∷ []) 4 Json.null _ refl (omega arith) (
    word (b'f' ∷ b'a' ∷ b'l' ∷ b's' ∷ b'e' ∷ []) 5 (Json.bool false) _ refl (omega arith) (
      word (b't' ∷ b'r' ∷ b'u' ∷ b'e' ∷ []) 4 (Json.bool true) _ refl (omega arith)
        (read_number-Leaves fl s)))
  where
    word :
        (w : Bytes) (k : ℕ) (v : Json) (p : Parsed Json)
        → length w ≡ k
        → 0 < k
        → Leaves (length s) p
        → Leaves (length s) (if starts w s then ok v (drop k s) else p)
    word w k v p e pos l = elim (Bool-cases (starts w s)) [
      | inl t ↦ rw t (omega (arith, starts-le w s t, length-drop k s))
      | inr f ↦ rw f l
    ]

finish-Leaves :
    {A : Type 0} (n close : ℕ) (a : A) (s : Bytes)
    → 0 < close
    → length s ≤ n
    → Leaves n (finish close a s)
finish-Leaves n close a [] h l = elim (Bool-cases (0 == close)) [
  | inl e ↦ absurd (ground arith)
  | inr e ↦ rw e tt
]
finish-Leaves n close a (c ∷ s) h l = elim (Bool-cases (c == close)) [
  | inl e ↦ rw e (omega arith)
  | inr e ↦ rw e tt
]

add_item-Leaves : (n : ℕ) (v : Json) (p : Parsed Items) → Leaves n p → Leaves n (add_item v p)
add_item-Leaves n v p l = Leaves->>= n n p (λ vs r. ok (Items.item v vs) r) l (λ vs r h. h)

bracket-drop :
    (s : Bytes) (c : ℕ) → 0 < c → (head s == c) ≡ true → suc (length (drop 1 s)) ≡ length s
bracket-drop [] c h e = absurd (ground arith)
bracket-drop (d ∷ s) c h e = refl

-- One call of each function, from what the calls that it makes leave.
module _ (fl : Floats) (fuel n : ℕ) (s : Bytes) where
  reader-step :
      (length s ≤ n)
      → ((t : Bytes) → length t < n → Leaves n (read_items fl fuel true t))
      → ((t : Bytes) → length t < n → Leaves n (read_members fl fuel true no_members t))
      → Leaves n (reader fl (suc fuel) s)
  unfolding reader
  reader-step l items members = elim (Bool-cases (head (skip s) == b'[')) [
    | inl e ↦
        rw (reader, e)
          (Leaves->>= n n _ (λ vs r. ok (arr vs) r)
            (items (drop 1 (skip s))
              (omega (arith, bracket-drop (skip s) b'[' (omega arith) e, length-skip s)))
            (λ vs r h. h))
    | inr e ↦ elim (Bool-cases (head (skip s) == b'{')) [
      | inl g ↦
          rw (reader, e, g)
            (Leaves->>= n n _ (λ ms r. ok (obj ms) r)
              (members (drop 1 (skip s))
                (omega (arith, bracket-drop (skip s) b'{' (omega arith) g, length-skip s)))
              (λ ms r h. h))
      | inr g ↦
          rw (reader, e, g)
            (Leaves-le (length (skip s)) n (read_base fl (skip s)) (omega (arith, length-skip s))
              (read_base-Leaves fl (skip s)))
    ]
  ]

  items-step :
      (test : Bool)
      → length s ≤ n
      → Leaves n (reader fl fuel s)
      → ((t : Bytes) (b : Bool) → length t < n → Leaves n (read_items fl fuel b t))
      → Leaves n (read_items fl (suc fuel) test s)
  unfolding read_items
  items-step test l value more = elim (Bool-cases (test && at_end b']' s)) [
    | inl e ↦ rw (read_items, e) (finish-Leaves n b']' Items.no_items s (omega arith) l)
    | inr e ↦
        rw (read_items, e)
          (Leaves->>= n n (reader fl fuel s)
            (λ v r. add_item v (read_items fl fuel (not (is_comma (skip r))) (past_comma (skip r))))
            value
            (λ v r h. add_item-Leaves n v _ (
              more (past_comma (skip r)) (not (is_comma (skip r)))
                (omega (arith, length-past_comma r)))))
  ]

  members-step :
      (test : Bool) (objs : Members)
      → length s ≤ n
      → ((t : Bytes) → length t < n → Leaves n (reader fl fuel t))
      → ((t : Bytes) (b : Bool) (os : Members)
          → length t < n
          → Leaves n (read_members fl fuel b os t))
      → Leaves n (read_members fl (suc fuel) test objs s)
  unfolding read_members
  members-step test objs l value more = elim (Bool-cases (test && at_end b'}' s)) [
    | inl e ↦ rw (read_members, e) (finish-Leaves n b'}' objs s (omega arith) l)
    | inr e ↦
        rw (read_members, e)
          (Leaves->>= (length (skip s)) n (read_str (skip s)) _ (read_str-Leaves (skip s))
            (λ k q h. member_value k q (omega (arith, length-skip s))))
  ]
    where
      member_value :
          (k q : Bytes)
          → length q < n
          → Leaves n (elim (head q == b':') [
            | false ↦ failed q
            | true ↦ reader fl fuel (drop 1 q) >>= λ v r.
                read_members fl fuel (not (is_comma (skip r))) (put k v objs) (past_comma (skip r))
          ])
      member_value k q h = elim (Bool-cases (head q == b':')) [
        | inr e ↦ rw e tt
        | inl e ↦ rw e (
            Leaves->>= n n (reader fl fuel (drop 1 q)) _
              (value (drop 1 q) (omega (arith, length-drop 1 q)))
              (λ v r g.
                more (past_comma (skip r)) (not (is_comma (skip r))) (put k v objs)
                  (omega (arith, length-past_comma r))))
      ]

mutual
  unfolding reader read_items read_members

  reader-Leaves :
      (fuel : ℕ) (fl : Floats) (s : Bytes)
      → 2 * length s + 1 < fuel
      → Leaves (length s) (reader fl fuel s)
  reader-Leaves zero fl s h = absurd (omega arith)
  reader-Leaves (suc fuel) fl s h =
      reader-step fl fuel (length s) s (omega arith)
        (λ t l.
          Leaves-le (length t) (length s) (read_items fl fuel true t) (omega arith)
            (items-Leaves fuel fl true t (omega arith)))
        (λ t l.
          Leaves-le (length t) (length s) (read_members fl fuel true no_members t) (omega arith)
            (members-Leaves fuel fl true no_members t (omega arith)))

  items-Leaves :
      (fuel : ℕ) (fl : Floats) (test : Bool) (s : Bytes)
      → 2 * length s + 2 < fuel
      → Leaves (length s) (read_items fl fuel test s)
  items-Leaves zero fl test s h = absurd (omega arith)
  items-Leaves (suc fuel) fl test s h =
      items-step fl fuel (length s) s test (omega arith) (reader-Leaves fuel fl s (omega arith))
        (λ t b l.
          Leaves-le (length t) (length s) (read_items fl fuel b t) (omega arith)
            (items-Leaves fuel fl b t (omega arith)))

  members-Leaves :
      (fuel : ℕ) (fl : Floats) (test : Bool) (objs : Members) (s : Bytes)
      → 2 * length s + 2 < fuel
      → Leaves (length s) (read_members fl fuel test objs s)
  members-Leaves zero fl test objs s h = absurd (omega arith)
  members-Leaves (suc fuel) fl test objs s h =
      members-step fl fuel (length s) s test objs (omega arith)
        (λ t l.
          Leaves-le (length t) (length s) (reader fl fuel t) (omega arith)
            (reader-Leaves fuel fl t (omega arith)))
        (λ t b os l.
          Leaves-le (length t) (length s) (read_members fl fuel b os t) (omega arith)
            (members-Leaves fuel fl b os t (omega arith)))

whole_lem : (n : ℕ) (p : Parsed Json) → Leaves n p → whole p ≢ unfinished
unfolding whole
whole_lem n (ok v r) l = by_rest (skip r)
  where
    by_rest :
        (t : Bytes)
        → (elim t [ [] ↦ Outcome.parsed v | c ∷ cs ↦ Outcome.rejected (c ∷ cs) ]) ≢ unfinished
    by_rest [] = λ e. cc
    by_rest (c ∷ cs) = λ e. cc
whole_lem n (failed r) l = λ e. cc
whole_lem n threw l = λ e. cc
whole_lem n no_fuel l = absurd l

-- The parser ends on every text, whatever is in it: the fuel that it is given never runs out.
pub parser_ends : (fl : Floats) (s : Bytes) → parser fl s ≢ unfinished
unfolding parser
parser_ends fl s =
    whole_lem (length s) (reader fl (2 * length s + 3) s)
      (reader-Leaves (2 * length s + 3) fl s (omega arith))
