-- ===== src/Json.antt =====
-- src/utils/Json.cpp: JSON values, and how they are written. Text is its characters' codes. A float
-- is its bits; std::to_string and std::stof on floats are the parameter `Floats`.
pub mod Reader
pub mod Edit
pub mod Order
pub mod Numbers
pub mod Text
pub mod Readable
pub mod Loops
pub mod RoundTrip
pub mod Total
pub mod Empty
mod Tests
use lua_server.Common.{
  ℕ, zero, suc, ◌+◌, ◌/◌, ◌%◌, Bool, true, false, Option, none, List, [], ◌∷◌, ◌++◌, ltb,
  if◌then◌else◌, replicate,
}
use lua_server.Common.Bytes.{Bytes}

-- `negsuc n` is -(n + 1).
pub data ℤ : Type 0 where
  pos : ℕ → ℤ
  negsuc : ℕ → ℤ

-- `stof` is `none` where std::stof throws.
pub record Floats : Type 0 where
  pub to_string : ℕ → Bytes
  pub stof : Bytes → Option ℕ

-- `JValue`, `JArray` and `JSonObj`. The map of an object is its members in the order of their keys.
mutual
  pub data Json : Type 0 where
    int : ℤ → Json
    float : ℕ → Json
    null : Json
    str : Bytes → Json
    bool : Bool → Json
    arr : Items → Json
    obj : Members → Json

  pub data Items : Type 0 where
    no_items : Items
    item : Json → Items → Items

  pub data Members : Type 0 where
    no_members : Members
    member : Bytes → Json → Members → Members

-- std::to_string of a number that is not negative. Fuel n + 1 is enough: a digit leaves n / 10.
unfoldable pub decimal_loop : ℕ → ℕ → Bytes
decimal_loop zero n = []
decimal_loop (suc fuel) n =
    let more = decimal_loop fuel (n / 10) in
    if ltb n 10 then (b'0' + n) ∷ [] else (more ++ ((b'0' + n % 10) ∷ []))

unfoldable pub decimal : ℕ → Bytes
decimal n = decimal_loop (suc n) n

-- std::to_string(int)
unfoldable pub int_text : ℤ → Bytes
int_text (pos n) = decimal n
int_text (negsuc n) = b'-' ∷ decimal (suc n)

-- `writeDepth`, and `str.append("\n")` with a layout
abbrev pub indent : Bool → ℕ → Bytes
indent layout depth = if layout then replicate depth 9 else []

abbrev pub newline : Bool → Bytes
newline layout = if layout then 10 ∷ [] else []

abbrev pub quoted : Bytes → Bytes
quoted s = b'"' ∷ (s ++ (b'"' ∷ []))

-- `++count < maxcount`
abbrev pub comma_items : Items → Bytes
comma_items no_items = []
comma_items (item v vs) = b',' ∷ []

abbrev pub comma_members : Members → Bytes
comma_members no_members = []
comma_members (member k v ms) = b',' ∷ []

-- `write` of the three classes, and the loops of two of them
unfoldable mutual
  pub write : Floats → Bool → ℕ → Json → Bytes
  write fl layout depth (int n) = int_text n
  write fl layout depth (float x) = fl.to_string x
  write fl layout depth null = b'n' ∷ b'u' ∷ b'l' ∷ b'l' ∷ []
  write fl layout depth (str s) = quoted s
  write fl layout depth (bool true) = b't' ∷ b'r' ∷ b'u' ∷ b'e' ∷ []
  write fl layout depth (bool false) = b'f' ∷ b'a' ∷ b'l' ∷ b's' ∷ b'e' ∷ []
  write fl layout depth (arr vs) =
      b'['
      ∷ (newline layout ++ (write_items fl layout depth vs ++ (indent layout depth ++ (b']' ∷ []))))
  write fl layout depth (obj ms) =
      b'{'
      ∷ (newline layout
          ++ (write_members fl layout depth ms ++ (indent layout depth ++ (b'}' ∷ []))))

  pub write_items : Floats → Bool → ℕ → Items → Bytes
  write_items fl layout depth no_items = []
  write_items fl layout depth (item v vs) =
      indent layout (suc depth)
      ++ (write fl layout (suc depth) v
          ++ (comma_items vs ++ (newline layout ++ write_items fl layout depth vs)))

  pub write_members : Floats → Bool → ℕ → Members → Bytes
  write_members fl layout depth no_members = []
  write_members fl layout depth (member k v ms) =
      indent layout (suc depth)
      ++ (quoted k
          ++ (b':'
              ∷ (write fl layout (suc depth) v
                  ++ (comma_members ms ++ (newline layout ++ write_members fl layout depth ms)))))
