-- ===== src/HttpConnect.antt =====
-- src/network/HttpConnect.cpp with utils/HttpParser.cpp and utils/ParseUrl.cpp: requests on a connection.
pub mod Scan
pub mod Requests
pub mod Round
pub mod Deliver
pub mod Reads
mod Tests
use lua_server.Common.{
  ℕ, zero, suc, ◌+◌, ◌-◌, ◌*◌, ◌/◌, ◌%◌, ◌^◌, Bool, true, false, ◌&&◌, ◌||◌, Option, none, some,
  List, [], ◌∷◌, ◌++◌, leb, ltb, ◌==◌, if◌then◌else◌, ◌>>=◌, length, take, drop,
}
use lua_server.Common.Bytes.{Bytes}
use lua_server.ByteBuffer.{ByteBuffer, append, slice}
use lua_server.MessageBuffer.{MessageBuffer, read_completed, active_size, peek}
use lua_server.NetPacket.{base_zero, is_positive, to_int32, int32_to_size}

-- `http_parser_url`: which fields are set, and where the path and the query stand.
pub record UrlFields : Type 0 where
  pub field_set : ℕ
  pub path_off : ℕ
  pub path_len : ℕ
  pub query_off : ℕ
  pub query_len : ℕ

-- What the connection uses of llhttp, of http_parser and of std::vector: `execute` runs
-- llhttp_execute on the bytes of the packet, and gives the new state, whether it is HPE_OK, and the
-- spans of the calls of on_url; `grow` is the capacity of a vector that had to be moved.
pub record HttpLib : Type 1 where
  pub State : Type 0
  pub init : State
  pub execute : State → Bytes → State × (Bool × List (ℕ × ℕ))
  pub content_length : State → ℕ
  pub method : State → ℕ
  pub should_keep_alive : State → Bool
  pub parse_url : Bytes → UrlFields → UrlFields
  pub grow : ℕ → ℕ → ℕ

-- `ParseUrl`: `m_buff` is an offset in the packet.
pub record ParseUrl : Type 0 where
  pub buff : ℕ
  pub url : UrlFields

abbrev pub uf_query : ℕ
uf_query = 4

unfoldable pub have_param : ParseUrl → Bool
have_param u = u.url.field_set / 2 ^ uf_query % 2 == 1

unfoldable pub get_path : ParseUrl → ByteBuffer → Option Bytes
get_path u b = slice b (u.buff + u.url.path_off) u.url.path_len

unfoldable pub get_param : ParseUrl → ByteBuffer → Option Bytes
get_param u b = slice b (u.buff + u.url.query_off) u.url.query_len

-- What the event object is called with.
pub data Request : Type 0 where
  on_get : Bytes → Bytes → Request
  on_post : Bytes → Bytes → Request
  on_other : Request

pub data Call : Type 0 where
  handled : Request → Call
  closed : Call

abbrev pub http_get : ℕ
http_get = 1

abbrev pub http_post : ℕ
http_post = 3

-- The bytes before the first 0, as `string_view(char *)` finds them; it must be in the storage.
unfoldable pub c_string : Bytes → Option Bytes
c_string [] = none
c_string (c ∷ cs) =
    let rest = c_string cs in if c == 0 then some [] else (rest >>= λ s. some (c ∷ s))

-- `view.find("\r\n\r\n")`
unfoldable pub starts_end : Bytes → Bool
starts_end (a ∷ b ∷ c ∷ d ∷ s) = ((a == 13) && (b == 10)) && ((c == 13) && (d == 10))
starts_end s = false

unfoldable pub find_end : Bytes → Option ℕ
find_end [] = none
find_end (c ∷ cs) =
    let rest = find_end cs in if starts_end (c ∷ cs) then some 0 else (rest >>= λ n. some (suc n))

-- `m_residue > rlen ? rlen : m_residue`, of a residue above 0
abbrev pub body_len : ℕ → ℕ → ℕ
body_len residue active = if leb (2 ^ 31) active || ltb active residue then active else residue

module _ (lib : HttpLib) where
  pub record HttpParser : Type 0 where
    pub state : lib.State
    pub url : ParseUrl

  -- `HttpParser::zero`, which leaves the URL as it was
  unfoldable pub parser_zero : HttpParser → HttpParser
  parser_zero p = record p { state = lib.init }

  -- `on_url` with `ParseUrl::parse`
  unfoldable pub on_urls : Bytes → List (ℕ × ℕ) → ParseUrl → ParseUrl
  on_urls bytes [] u = u
  on_urls bytes (s ∷ ss) u =
      on_urls bytes ss
        (record { buff = s.0; url = lib.parse_url (take s.1 (drop s.0 bytes)) u.url })

  unfoldable pub parser : HttpParser → Bytes → HttpParser × Bool
  parser p bytes =
      let (st, (ok, spans)) = lib.execute p.state bytes in
      (record { state = st; url = on_urls bytes spans p.url }, ok)

  -- `m_content` is an offset in the packet. Both it and the URL point into the vector of the packet,
  -- and `moved` says that the vector has been moved since.
  pub record HttpConnect : Type 0 where
    pub read_packet : ByteBuffer
    pub capacity : ℕ
    pub moved : Bool
    pub content : Option ℕ
    pub residue : ℕ
    pub http_parser : HttpParser
    pub calls : List Call

  unfoldable pub zero_connect : HttpConnect → HttpConnect
  zero_connect c = record c {
    read_packet = base_zero c.read_packet;
    moved = false;
    content = none;
    residue = 0;
    http_parser = parser_zero c.http_parser;
  }

  -- `m_readPacket->append`
  unfoldable pub append_packet : HttpConnect → Bytes → Option HttpConnect
  append_packet c bs = append c.read_packet bs >>= λ p.
      (let size = length c.read_packet.storage + length bs in
        if leb size c.capacity
        then some (record c { read_packet = p })
        else some (record c { read_packet = p; moved = true; capacity = lib.grow c.capacity size }))

  -- The call that `complete` makes. A string_view of freed memory is a fault.
  unfoldable pub request_of : HttpParser → ByteBuffer → ℕ → Option Request
  request_of p b pos =
      let u = p.url in
      get_path u b >>= λ path.
      (if lib.method p.state == http_post
        then (slice b pos (int32_to_size (to_int32 (lib.content_length p.state))) >>= λ param.
            some (on_post path param))
        else (if lib.method p.state == http_get
            then ((if have_param u then get_param u b else some []) >>= λ param.
                some (on_get path param))
            else some on_other))

  unfoldable pub complete : HttpConnect → ℕ → Option HttpConnect
  complete c pos =
      if c.moved
      then none
      else (request_of c.http_parser c.read_packet pos >>= λ r.
          some (record c { calls = c.calls ++ (handled r ∷ []) }))

  -- How a part of a round ends: it goes on, or the connection is closed and the loop left.
  pub data Part : Type 0 where
    goes_on : HttpConnect → MessageBuffer → Part
    leaves : HttpConnect → Part

  abbrev pub close : HttpConnect → Part
  close c = leaves (record c { calls = c.calls ++ (closed ∷ []) })

  -- A head that is complete goes to the parser.
  unfoldable pub run_parser : HttpConnect → MessageBuffer → Part
  run_parser c b =
      let (p, ok) = parser c.http_parser (take c.read_packet.wpos c.read_packet.storage) in
      let c' = record c { moved = false; content = some c.read_packet.wpos; http_parser = p } in
      if ok
      then goes_on
          (record c' {
            residue =
                if lib.method p.state == http_post
                then to_int32 (lib.content_length p.state)
                else c.residue;
          })
          b
      else close c'

  unfoldable pub whole_head : HttpConnect → MessageBuffer → ℕ → Option Part
  whole_head c b n = peek b (n + 4) >>= λ bs.
      append_packet c bs >>= λ c'. some (run_parser c' (read_completed b (n + 4)))

  unfoldable pub part_of_head : HttpConnect → MessageBuffer → Option Part
  part_of_head c b = peek b (active_size b) >>= λ bs. append_packet c bs >>= λ c'.
      (if leb 0xffff c'.read_packet.wpos
        then some (close c')
        else some (goes_on c' (read_completed b (active_size b))))

  unfoldable pub look : HttpConnect → MessageBuffer → Bytes → Option Part
  look c b view = elim (find_end view) [ some n ↦ whole_head c b n | none ↦ part_of_head c b ]

  unfoldable pub read_head : HttpConnect → MessageBuffer → Option Part
  read_head c b = elim c.content [
    | some pos ↦ some (goes_on c b)
    | none ↦ c_string (drop b.rpos b.storage) >>= look c b
  ]

  -- The body: as much as it misses, or all that the buffer has. Both are an `int`.
  unfoldable pub take_rlen : HttpConnect → MessageBuffer → ℕ → Option (HttpConnect × MessageBuffer)
  take_rlen c b rlen = peek b (int32_to_size rlen) >>= λ bs. append_packet c bs >>= λ c'. some (
    record c' { residue = to_int32 (c.residue + 2 ^ 32 - rlen) },
    read_completed b (int32_to_size rlen),
  )

  unfoldable pub take_body : HttpConnect → MessageBuffer → Option (HttpConnect × MessageBuffer)
  take_body c b =
      if is_positive c.residue
      then take_rlen c b (body_len c.residue (to_int32 (active_size b)))
      else some (c, b)

  unfoldable pub end_body : ℕ → HttpConnect × MessageBuffer → Option (HttpConnect × MessageBuffer)
  end_body pos (c, b) =
      if c.residue == 0 then (complete c pos >>= λ c'. some (zero_connect c', b)) else some (c, b)

  unfoldable pub read_body : HttpConnect → MessageBuffer → Option (HttpConnect × MessageBuffer)
  read_body c b = elim c.content [ none ↦ some (c, b) | some pos ↦ take_body c b >>= end_body pos ]

  pub data Ending : Type 0 where
    ended : HttpConnect → MessageBuffer → Ending
    left : HttpConnect → Ending
    fault : Ending
    unfinished : Ending

  -- `on_msgbuffer`. The two parts of a round are bound one after the other.
  unfoldable pub on_msgbuffer : ℕ → HttpConnect → MessageBuffer → Ending
  on_msgbuffer zero c b = unfinished
  on_msgbuffer (suc fuel) c b = elim (ltb 0 (active_size b)) [
    | false ↦ ended c b
    | true ↦ elim (read_head c b) [
      | none ↦ fault
      | some (leaves c') ↦ left c'
      | some (goes_on c' b') ↦ elim (read_body c' b') [
        | none ↦ fault
        | some (c'', b'') ↦ on_msgbuffer fuel c'' b''
      ]
    ]
  ]
