-- ===== src/HttpConnect/Requests.antt =====
-- What a client sends, what llhttp must say of it, and the states of a connection that reads it.
use lua_server.Common.{
  ℕ, ◌+◌, ◌-◌, ◌≤◌, ◌<◌, ◌≡◌, ◌≢◌, true, some, List, [], ◌∷◌, ◌++◌, ◌==◌, if◌then◌else◌, length,
  false, none,
}
use lua_server.Common.Bytes.{Bytes, All}
use lua_server.ByteBuffer.{ByteBuffer}
use lua_server.HttpConnect.{
  HttpLib, HttpConnect, HttpParser, ParseUrl, Request, on_get, on_post, on_other, Call, http_get,
  http_post, parser, get_path, get_param, have_param, find_end,
}
use lua_server.HttpConnect.Scan.{NotZero}

pub record Sent : Type 0 where
  pub head : Bytes
  pub body : Bytes
  pub method : ℕ
  pub path : Bytes
  pub query : Bytes

-- A packet that holds these bytes.
abbrev pub packet : Bytes → ByteBuffer
packet bs = record { storage = bs; rpos = 0; wpos = length bs }

-- The call of the event object that the request is to cause.
abbrev pub asks : Sent → Request
asks r =
    if r.method == http_post
    then on_post r.path r.body
    else (if r.method == http_get then on_get r.path r.query else on_other)

module _ (lib : HttpLib) where
  abbrev pub parsed : ParseUrl → Sent → HttpParser lib
  parsed u r = (parser lib (record { state = lib.init; url = u }) r.head).0

  -- The head ends where its first empty line does and holds no 0, and llhttp and the URL parser,
  -- fresh for each request, take it and say of it what the request means. The body is as long as
  -- the head says, and only a POST has one. All fits the capacity that every vector has.
  pub record IsSent (r : Sent) : Type 0 where
    pub at : ℕ
    pub found : find_end r.head ≡ some at
    pub at_end : at + 4 ≡ length r.head
    pub no_zero : All NotZero r.head
    pub accepted :
        (u : ParseUrl) → (parser lib (record { state = lib.init; url = u }) r.head).1 ≡ true
    pub has_method : (u : ParseUrl) → lib.method (parsed u r).state ≡ r.method
    pub has_length :
        (u : ParseUrl)
        → r.method ≡ http_post
        → lib.content_length (parsed u r).state ≡ length r.body
    pub no_body : r.method ≢ http_post → r.body ≡ []
    pub has_path : (u : ParseUrl) → get_path (parsed u r).url (packet r.head) ≡ some r.path
    pub has_query :
        (u : ParseUrl)
        → (if have_param (parsed u r).url
            then get_param (parsed u r).url (packet r.head)
            else some [])
          ≡ some r.query
    pub fits : length r.head + length r.body ≤ 4096

  abbrev pub idle_at : ℕ → ParseUrl → List Call → HttpConnect lib
  idle_at capacity u calls = record {
    read_packet = packet [];
    capacity = capacity;
    moved = false;
    content = none;
    residue = 0;
    http_parser = record { state = lib.init; url = u };
    calls = calls;
  }

  abbrev pub reading_at : ℕ → ParseUrl → Sent → Bytes → List Call → HttpConnect lib
  reading_at capacity u r got calls = record {
    read_packet = packet (r.head ++ got);
    capacity = capacity;
    moved = false;
    content = some (length r.head);
    residue = length r.body - length got;
    http_parser = parsed u r;
    calls = calls;
  }

-- Between two pieces the connection waits for a request, or for the rest of a body.
pub data Phase : Type 0 where
  idle : Phase
  reading : Sent → Bytes → Phase

module _ (lib : HttpLib) where
  -- A piece of the stream: where it starts, its bytes, the requests that it completes, and where it
  -- stops. Heads come in one piece.
  pub data Piece : Phase → Bytes → List Sent → Phase → Type 0 where
    stop : (p : Phase) → Piece p [] [] p
    bare :
        (r : Sent) (bs : Bytes) (done : List Sent) (q : Phase)
        → IsSent lib r
        → r.body ≡ []
        → Piece idle bs done q
        → Piece idle (r.head ++ bs) (r ∷ done) q
    begin :
        (r : Sent) (bs : Bytes) (done : List Sent) (q : Phase)
        → IsSent lib r
        → 0 < length r.body
        → Piece (reading r []) bs done q
        → Piece idle (r.head ++ bs) done q
    part :
        (r : Sent) (got xs : Bytes)
        → 0 < length xs
        → length got + length xs < length r.body
        → Piece (reading r got) xs [] (reading r (got ++ xs))
    finish :
        (r : Sent) (got xs bs : Bytes) (done : List Sent) (q : Phase)
        → 0 < length xs
        → got ++ xs ≡ r.body
        → Piece idle bs done q
        → Piece (reading r got) (xs ++ bs) (r ∷ done) q

  -- The connection is in this phase and has made these calls.
  abbrev pub At : HttpConnect lib → Phase → List Call → Type 0
  At c idle calls = (cap : ℕ) × (u : ParseUrl) × (4096 ≤ cap) × (c ≡ idle_at lib cap u calls)
  At c (reading r got) calls =
      (cap : ℕ) × (u : ParseUrl) × (4096 ≤ cap)
      × (IsSent lib r)
      × (length got < length r.body)
      × (c ≡ reading_at lib cap u r got calls)
