-- ===== src/Json/Loops.antt =====
-- The loops over the items of an array and the members of an object, at text that the writer made.
use lua_server.Common.{
  ℕ, suc, ◌+◌, ◌<◌, ◌≡◌, refl, ap, ◌∙◌, Bool, true, false, not, [], ◌∷◌, ◌++◌, length, arith,
  length-append, inl, inr, ◌⊎◌, ◌≢◌,
}
use lua_server.Common.Bytes.{Bytes}
use lua_server.Json.{
  Floats, Json, null, bool, arr, obj, Items, no_items, item, Members, no_members, member, write,
  write_items, write_members, quoted, indent, newline, comma_items, comma_members,
}
use lua_server.Json.Reader.{
  ok, skip, read_base, read_str, is_comma, past_comma, add_item, reader, read_items, read_members,
  starts,
}
use lua_server.Json.Numbers.{IsStop}
use lua_server.Json.Text.{
  IsSpace, IsFront, skip-IsSpace, skip-IsFront, at_end-IsFront, newline-IsSpace, indent-IsSpace,
  IsSpace-append, IsStop-IsSpace, IsText, read_str-quoted,
}
use lua_server.Json.Readable.{
  AllBelow, snoc, put_last, write-IsFront, reader-skip, reader-IsSpace, reader-leaf, regroup_item,
  regroup_member, read_items-step, read_items-end, read_members-step, read_members-end, IsReadable,
}

-- The text behind the last value.
abbrev pub tail : Bool → ℕ → ℕ → Bytes → Bytes
tail layout depth close rest = indent layout depth ++ (close ∷ rest)

module _ (layout : Bool) (depth close : ℕ) (rest : Bytes) where
  pub skip-tail : 32 < close → skip (newline layout ++ tail layout depth close rest) ≡ close ∷ rest
  unfolding skip
  skip-tail h =
      skip-IsSpace (newline layout) (tail layout depth close rest) (newline-IsSpace layout)
      ∙ skip-IsSpace (indent layout depth) (close ∷ rest) (indent-IsSpace layout depth)
      ∙ closing
    where
      closing : skip (close ∷ rest) ≡ close ∷ rest
      closing = ground arith

  pub tail-IsStop :
      (b'9' < close) × ((close ≢ b'e') × (close ≢ b'E'))
      → IsStop (newline layout ++ tail layout depth close rest)
  tail-IsStop h =
      IsStop-IsSpace (newline layout) (tail layout depth close rest) (newline-IsSpace layout) (
        IsStop-IsSpace (indent layout depth) (close ∷ rest) (indent-IsSpace layout depth)
          (ground arith, omega arith))

pub pos-IsFront : (s : Bytes) → IsFront s → 0 < length s
pos-IsFront [] h = absurd h
pos-IsFront (c ∷ cs) h = omega arith

length-parts : (ws s r : Bytes) → length (ws ++ (s ++ r)) ≡ length ws + (length s + length r)
length-parts ws s r = omega (arith, length-append ws (s ++ r), length-append s r)

pub reader-arr :
    (fl : Floats) (fuel : ℕ) (body rest : Bytes) (vs : Items)
    → read_items fl fuel true body ≡ ok vs rest
    → reader fl (suc fuel) (b'[' ∷ body) ≡ ok (arr vs) rest
unfolding skip
reader-arr fl fuel body rest vs e = reader-skip fl fuel (b'[' ∷ body) (b'[' ∷ body) refl ∙ rw e refl

pub reader-obj :
    (fl : Floats) (fuel : ℕ) (body rest : Bytes) (ms : Members)
    → read_members fl fuel true no_members body ≡ ok ms rest
    → reader fl (suc fuel) (b'{' ∷ body) ≡ ok (obj ms) rest
unfolding skip
reader-obj fl fuel body rest ms e = reader-skip fl fuel (b'{' ∷ body) (b'{' ∷ body) refl ∙ rw e refl

-- The words `null`, `true` and `false`
pub reader-word :
    (fl : Floats) (layout : Bool) (fuel depth : ℕ) (rest : Bytes) (v : Json)
    → ((v ≡ null) ⊎ (v ≡ bool true)) ⊎ (v ≡ bool false)
    → reader fl (suc fuel) (write fl layout depth v ++ rest) ≡ ok v rest
unfolding write skip read_base starts
reader-word fl layout fuel depth rest v (inl (inl e)) =
    rw e (reader-leaf fl fuel _ _ refl refl refl refl)
reader-word fl layout fuel depth rest v (inl (inr e)) =
    rw e (reader-leaf fl fuel _ _ refl refl refl refl)
reader-word fl layout fuel depth rest v (inr e) = rw e (reader-leaf fl fuel _ _ refl refl refl refl)

-- The text behind one item, and what the loop does there.
pub behind_item : Floats → Bool → ℕ → Bytes → Items → Bytes
behind_item fl layout depth rest vs =
    comma_items vs
    ++ (newline layout ++ (write_items fl layout depth vs ++ tail layout depth b']' rest))

pub behind_item-IsStop :
    (fl : Floats) (layout : Bool) (depth : ℕ) (rest : Bytes) (vs : Items)
    → IsStop (behind_item fl layout depth rest vs)
unfolding behind_item write_items
behind_item-IsStop fl layout depth rest no_items = tail-IsStop layout depth b']' rest (omega arith)
behind_item-IsStop fl layout depth rest (item v vs) = (refl, omega arith)

pub length-behind_item :
    (fl : Floats) (layout : Bool) (depth : ℕ) (rest : Bytes) (v : Json) (vs : Items)
    → length (behind_item fl layout depth rest (item v vs))
      ≡ suc (
          length (
            newline layout
            ++ (write_items fl layout depth (item v vs) ++ tail layout depth b']' rest)))
unfolding behind_item
length-behind_item fl layout depth rest v vs = refl

pub next_item :
    (fl : Floats) (layout : Bool) (fuel depth : ℕ) (rest : Bytes) (v : Json) (vs : Items)
    → read_items fl fuel false
        (newline layout ++ (write_items fl layout depth (item v vs) ++ tail layout depth b']' rest))
      ≡ ok (item v vs) rest
    → read_items fl fuel
        (not (is_comma (skip (behind_item fl layout depth rest (item v vs)))))
        (past_comma (skip (behind_item fl layout depth rest (item v vs))))
      ≡ ok (item v vs) rest
unfolding behind_item skip
next_item fl layout fuel depth rest v vs e = e

pub last_item :
    (fl : Floats) (layout : Bool) (fuel depth : ℕ) (rest : Bytes)
    → read_items fl
        (suc fuel)
        (not (is_comma (skip (behind_item fl layout depth rest no_items))))
        (past_comma (skip (behind_item fl layout depth rest no_items)))
      ≡ ok no_items rest
unfolding behind_item write_items
last_item fl layout fuel depth rest =
    rw (skip-tail layout depth b']' rest (omega arith)) (read_items-end fl fuel rest)

pub item_text :
    (fl : Floats) (layout : Bool) (depth : ℕ) (rest ws : Bytes) (v : Json) (vs : Items)
    → ws ++ (write_items fl layout depth (item v vs) ++ tail layout depth b']' rest)
      ≡ (ws ++ indent layout (suc depth))
        ++ (write fl layout (suc depth) v ++ behind_item fl layout depth rest vs)
unfolding behind_item write_items
item_text fl layout depth rest ws v vs =
    regroup_item ws (indent layout (suc depth)) (write fl layout (suc depth) v) (comma_items vs)
      (newline layout) (write_items fl layout depth vs) (tail layout depth b']' rest)

-- One item, where the reader takes its value and the loop goes on as it should.
pub one_item :
    (fl : Floats) (layout : Bool) (fuel depth : ℕ) (rest ws : Bytes) (test : Bool) (v : Json)
    (vs : Items)
    → IsSpace ws
    → IsReadable fl layout v
    → reader fl (suc fuel) (write fl layout (suc depth) v ++ behind_item fl layout depth rest vs)
      ≡ ok v (behind_item fl layout depth rest vs)
    → read_items fl
        (suc fuel)
        (not (is_comma (skip (behind_item fl layout depth rest vs))))
        (past_comma (skip (behind_item fl layout depth rest vs)))
      ≡ ok vs rest
    → read_items fl
        (suc (suc fuel))
        test
        (ws ++ (write_items fl layout depth (item v vs) ++ tail layout depth b']' rest))
      ≡ ok (item v vs) rest
one_item fl layout fuel depth rest ws test v vs sp h e n =
    let spaces =
      IsSpace-append ws (indent layout (suc depth)) sp (indent-IsSpace layout (suc depth)) in
    let more = behind_item fl layout depth rest vs in
    let w = write fl layout (suc depth) v in
    rw (item_text fl layout depth rest ws v vs) (
      read_items-step fl (suc fuel) test _ more v
        (at_end-IsFront b']' (ws ++ indent layout (suc depth)) w more (inl refl) spaces
          (write-IsFront fl layout (suc depth) v h))
        (reader-IsSpace fl fuel (ws ++ indent layout (suc depth)) (w ++ more) spaces ∙ e)
      ∙ ap (add_item v) n)

-- The text behind one member, and what the loop does there.
pub behind_member : Floats → Bool → ℕ → Bytes → Members → Bytes
behind_member fl layout depth rest ms =
    comma_members ms
    ++ (newline layout ++ (write_members fl layout depth ms ++ tail layout depth b'}' rest))

pub behind_member-IsStop :
    (fl : Floats) (layout : Bool) (depth : ℕ) (rest : Bytes) (ms : Members)
    → IsStop (behind_member fl layout depth rest ms)
unfolding behind_member write_members
behind_member-IsStop fl layout depth rest no_members =
    tail-IsStop layout depth b'}' rest (omega arith)
behind_member-IsStop fl layout depth rest (member k v ms) = (refl, omega arith)

pub length-behind_member :
    (fl : Floats) (layout : Bool) (depth : ℕ) (rest k : Bytes) (v : Json) (ms : Members)
    → length (behind_member fl layout depth rest (member k v ms))
      ≡ suc (
          length (
            newline layout
            ++ (write_members fl layout depth (member k v ms) ++ tail layout depth b'}' rest)))
unfolding behind_member
length-behind_member fl layout depth rest k v ms = refl

pub next_member :
    (fl : Floats) (layout : Bool) (fuel depth : ℕ) (rest : Bytes) (objs all ms : Members)
    (k : Bytes) (v : Json)
    → read_members fl fuel false objs (
        newline layout
        ++ (write_members fl layout depth (member k v ms) ++ tail layout depth b'}' rest))
      ≡ ok all rest
    → read_members fl fuel
        (not (is_comma (skip (behind_member fl layout depth rest (member k v ms)))))
        objs
        (past_comma (skip (behind_member fl layout depth rest (member k v ms))))
      ≡ ok all rest
unfolding behind_member skip
next_member fl layout fuel depth rest objs all ms k v e = e

pub last_member :
    (fl : Floats) (layout : Bool) (fuel depth : ℕ) (rest : Bytes) (objs : Members)
    → read_members fl
        (suc fuel)
        (not (is_comma (skip (behind_member fl layout depth rest no_members))))
        objs
        (past_comma (skip (behind_member fl layout depth rest no_members)))
      ≡ ok objs rest
unfolding behind_member write_members
last_member fl layout fuel depth rest objs =
    rw (skip-tail layout depth b'}' rest (omega arith)) (read_members-end fl fuel objs rest)

pub member_text :
    (fl : Floats) (layout : Bool) (depth : ℕ) (rest ws k : Bytes) (v : Json) (ms : Members)
    → ws ++ (write_members fl layout depth (member k v ms) ++ tail layout depth b'}' rest)
      ≡ (ws ++ indent layout (suc depth))
        ++ (quoted k
            ++ (b':' ∷ (write fl layout (suc depth) v ++ behind_member fl layout depth rest ms)))
unfolding behind_member write_members
member_text fl layout depth rest ws k v ms =
    regroup_member ws (indent layout (suc depth)) (quoted k) (write fl layout (suc depth) v)
      (comma_members ms) (newline layout) (write_members fl layout depth ms)
      (tail layout depth b'}' rest)

-- One member, where the reader takes its value and the loop goes on as it should.
pub one_member :
    (fl : Floats) (layout : Bool) (fuel depth : ℕ) (rest ws k : Bytes) (test : Bool) (v : Json)
    (objs all ms : Members)
    → IsSpace ws
    → IsText k
    → AllBelow objs k
    → reader fl (suc fuel) (write fl layout (suc depth) v ++ behind_member fl layout depth rest ms)
      ≡ ok v (behind_member fl layout depth rest ms)
    → read_members fl
        (suc fuel)
        (not (is_comma (skip (behind_member fl layout depth rest ms))))
        (snoc objs k v)
        (past_comma (skip (behind_member fl layout depth rest ms)))
      ≡ ok all rest
    → read_members fl
        (suc (suc fuel))
        test
        objs
        (ws ++ (write_members fl layout depth (member k v ms) ++ tail layout depth b'}' rest))
      ≡ ok all rest
one_member fl layout fuel depth rest ws k test v objs all ms sp t b e n =
    let spaces =
      IsSpace-append ws (indent layout (suc depth)) sp (indent-IsSpace layout (suc depth)) in
    let more = behind_member fl layout depth rest ms in
    let q = write fl layout (suc depth) v ++ more in
    rw (member_text fl layout depth rest ws k v ms) (
      read_members-step fl (suc fuel) test objs _ q more k v
        (at_end-IsFront b'}' (ws ++ indent layout (suc depth)) (quoted k) (b':' ∷ q) (inr refl)
          spaces (omega arith))
        (key (ws ++ indent layout (suc depth)) q spaces) e
      ∙ rw (put_last objs k v b) n)
  where
    key :
        (ws q : Bytes)
        → IsSpace ws
        → read_str (skip (ws ++ (quoted k ++ (b':' ∷ q)))) ≡ ok k (b':' ∷ q)
    key ws q h =
        ap read_str (
          skip-IsSpace ws (quoted k ++ (b':' ∷ q)) h
          ∙ skip-IsFront (quoted k) (b':' ∷ q) (omega arith))
        ∙ read_str-quoted k (b':' ∷ q) t
