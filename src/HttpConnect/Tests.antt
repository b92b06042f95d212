-- ===== src/HttpConnect/Tests.antt =====
-- Runs of HttpConnect.cpp.
use lua_server.Common.{
  ℕ, ◌≡◌, refl, true, some, [], ◌∷◌, ◌++◌, ◌==◌, if◌then◌else◌, get_or, length, arith,
}
use lua_server.Common.Bytes.{Bytes}
use lua_server.ByteBuffer.{slice}
use lua_server.MessageBuffer.{MessageBuffer}
use lua_server.NetConnect.Receive.{concat}
use lua_server.HttpConnect.{
  HttpLib, HttpConnect, UrlFields, ParseUrl, on_get, on_post, handled, parser, on_urls, get_path,
  get_param, have_param, find_end, starts_end, c_string,
}
use lua_server.HttpConnect.Requests.{
  Sent, IsSent, idle, reading, stop, bare, begin, part, finish, At, idle_at,
}
use lua_server.HttpConnect.Deliver.{Holds}
use lua_server.HttpConnect.Reads.{
  no_more, next, on_reads, on_reads_lem, Quiet, WaitsWith, on_reads_waits,
}

-- A parser that tells a GET from a POST by its first letter, for a path of one letter and a body of
-- two bytes.
abbrev fields : UrlFields
fields = record { field_set = 8; path_off = 0; path_len = 1; query_off = 0; query_len = 0 }

abbrev small_lib : HttpLib
small_lib = record {
  State = ℕ;
  init = 0;
  execute =
      λ s bs. if get_or bs 0 0 == 71 then (1, (true, (4, 1) ∷ [])) else (3, (true, (5, 1) ∷ []));
  content_length = λ s. 2;
  method = λ s. s;
  should_keep_alive = λ s. true;
  parse_url = λ bs f. fields;
  grow = λ a b. b;
}

abbrev get_request : Sent
get_request = record {
  head = 71 ∷ 69 ∷ 84 ∷ 32 ∷ 47 ∷ 13 ∷ 10 ∷ 13 ∷ 10 ∷ [];
  body = [];
  method = 1;
  path = 47 ∷ [];
  query = [];
}

abbrev post_request : Sent
post_request = record {
  head = 80 ∷ 79 ∷ 83 ∷ 84 ∷ 32 ∷ 47 ∷ 13 ∷ 10 ∷ 13 ∷ 10 ∷ [];
  body = 120 ∷ 121 ∷ [];
  method = 3;
  path = 47 ∷ [];
  query = [];
}

get_request-IsSent : IsSent small_lib get_request
unfolding find_end starts_end parser on_urls get_path get_param have_param slice
get_request-IsSent = record {
  at = 5;
  found = refl;
  at_end = refl;
  no_zero = (
    λ e. cc e,
    (
      λ e. cc e,
      (λ e. cc e, (λ e. cc e, (λ e. cc e, (λ e. cc e, (λ e. cc e, (λ e. cc e, (λ e. cc e, tt))))))),
    ),
  );
  accepted = λ u. refl;
  has_method = λ u. refl;
  has_length = λ u e. cc e;
  no_body = λ e. refl;
  has_path = λ u. refl;
  has_query = λ u. refl;
  fits = omega arith;
}

post_request-IsSent : IsSent small_lib post_request
unfolding find_end starts_end parser on_urls get_path get_param have_param slice
post_request-IsSent = record {
  at = 6;
  found = refl;
  at_end = refl;
  no_zero = (
    λ e. cc e,
    (
      λ e. cc e,
      (
        λ e. cc e,
        (
          λ e. cc e,
          (λ e. cc e, (λ e. cc e, (λ e. cc e, (λ e. cc e, (λ e. cc e, (λ e. cc e, tt)))))),
        ),
      ),
    ),
  );
  accepted = λ u. refl;
  has_method = λ u. refl;
  has_length = λ u e. refl;
  no_body = λ e. absurd (e refl);
  has_path = λ u. refl;
  has_query = λ u. refl;
  fits = omega arith;
}

abbrev filled : Bytes → MessageBuffer
filled bs = record { storage = bs ++ (0 ∷ []); rpos = 0; wpos = length bs }

abbrev first_piece : Bytes
first_piece = get_request.head ++ (post_request.head ++ (120 ∷ []))

first-Holds : Holds (filled first_piece) first_piece
unfolding c_string
first-Holds = record {
  valid = record { ordered = omega arith; inside = omega arith; small = omega arith };
  bytes = refl;
  small = omega arith;
  string = [];
  zero_behind = refl;
}

second-Holds : Holds (filled (121 ∷ [])) (121 ∷ [])
unfolding c_string
second-Holds = record {
  valid = record { ordered = omega arith; inside = omega arith; small = omega arith };
  bytes = refl;
  small = omega arith;
  string = [];
  zero_behind = refl;
}

abbrev no_url : ParseUrl
no_url = record { buff = 0; url = fields }

on_reads_example :
    (c' : HttpConnect small_lib) × (on_reads small_lib
        (idle_at small_lib 4096 no_url [])
        (filled first_piece ∷ filled (121 ∷ []) ∷ [])
      ≡ some c')
    × At small_lib c' idle
        (handled (on_get (47 ∷ []) []) ∷ handled (on_post (47 ∷ []) (120 ∷ 121 ∷ [])) ∷ [])
on_reads_example =
    on_reads_lem small_lib idle idle (filled first_piece ∷ filled (121 ∷ []) ∷ [])
      (get_request ∷ post_request ∷ []) (idle_at small_lib 4096 no_url []) []
      (next idle (reading post_request (120 ∷ [])) idle (filled first_piece)
        (filled (121 ∷ []) ∷ []) first_piece (get_request ∷ []) (post_request ∷ [])
        (bare get_request (post_request.head ++ (120 ∷ [])) [] (reading post_request (120 ∷ []))
          get_request-IsSent refl
          (begin post_request (120 ∷ []) [] (reading post_request (120 ∷ [])) post_request-IsSent
            (omega arith) (part post_request [] (120 ∷ []) (omega arith) (omega arith))))
        first-Holds
        (next (reading post_request (120 ∷ [])) idle idle (filled (121 ∷ [])) [] (121 ∷ [])
          (post_request ∷ []) []
          (finish post_request (120 ∷ []) (121 ∷ []) [] [] idle (omega arith) refl (stop idle))
          second-Holds (no_more idle)))
      (4096, no_url, omega arith, refl)

-- The whole of a GET, cut before its last byte: it is not answered.
abbrev cut_short : Bytes
cut_short = 71 ∷ 69 ∷ 84 ∷ 32 ∷ 47 ∷ 13 ∷ 10 ∷ 13 ∷ []

cut-Quiet : Quiet (filled cut_short)
unfolding c_string find_end starts_end
cut-Quiet = record {
  valid = record { ordered = omega arith; inside = omega arith; small = omega arith };
  view = cut_short;
  sees = refl;
  no_end = refl;
}

rest-Quiet : Quiet (filled (10 ∷ []))
unfolding c_string find_end starts_end
rest-Quiet = record {
  valid = record { ordered = omega arith; inside = omega arith; small = omega arith };
  view = 10 ∷ [];
  sees = refl;
  no_end = refl;
}

on_reads_waits_example :
    (c' : HttpConnect small_lib) × (on_reads small_lib
        (idle_at small_lib 4096 no_url [])
        (filled cut_short ∷ filled (10 ∷ []) ∷ [])
      ≡ some c')
    × WaitsWith small_lib c' get_request.head []
unfolding concat
on_reads_waits_example =
    on_reads_waits small_lib (filled cut_short ∷ filled (10 ∷ []) ∷ [])
      (idle_at small_lib 4096 no_url []) [] [] (refl, refl, refl) (cut-Quiet, (rest-Quiet, tt))
      (omega arith)
