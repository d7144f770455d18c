-- ===== src/Http.antt =====
-- The HTTP connection of pset6/pong61.cc: `http_connection`, and `pong_thread`, which uses one. The
-- results of the system calls `write` and `read` are lists of events; what the loops do not come to is
-- left in the list.
pub mod Text
pub mod Parse
pub mod Receive
pub mod Response
pub mod Send
pub mod Fault
mod Tests
use cs61_f18_psets.Base.{
  ℕ, zero, suc, ◌+◌, Bool, true, false, not, ◌&&◌, ◌||◌, Option, none, some, List, [], ◌∷◌, ◌++◌,
  length, set, take, drop, ltb, leb, ◌==◌, if◌then◌else◌,
}
use cs61_f18_psets.Base.Int.{ℤ, pos, negsuc, eq_ℤ, ltb_ℤ}
use cs61_f18_psets.Base.Text.{codes}
use cs61_f18_psets.Http.Text.{c_string, scan_status, strip_case, strtoul, decimal}

-- `http_connection_state`.
pub data ConnectionState : Type 0 where
  cstate_idle cstate_waiting cstate_headers cstate_body cstate_closed cstate_broken :
      ConnectionState

-- `http_connection`. The buffer holds `len_` bytes.
pub record Connection : Type 0 where
  pub fd : ℕ
  pub cstate : ConnectionState
  pub status_code : ℤ
  pub content_length : ℕ
  pub has_content_length : Bool
  pub eof : Bool
  pub buf : List ℕ

-- How a call ends: it returns, the program exits, an assertion fails, it writes behind the end of
-- `buf_`, which the source does not test, or it waits for an event that is not in the list.
pub data Outcome (A : Type 0) : Type 0 where
  done : A → Outcome A
  exited : Outcome A
  asserted : Outcome A
  overran : Outcome A
  blocked : Outcome A

infixl 5 ◌>>=◌
abbrev pub ◌>>=◌ : {A B : Type 0} → Outcome A → (A → Outcome B) → Outcome B
done a >>= f = f a
exited >>= f = exited
asserted >>= f = asserted
overran >>= f = overran
blocked >>= f = blocked

-- The result of a `read`: bytes, 0, -1 for `EINTR` or `EAGAIN`, and -1 for another error.
pub data Read : Type 0 where
  bytes : List ℕ → Read
  ended : Read
  read_again : Read
  read_failed : Read

-- The result of a `write`: a number of bytes, or -1 for the same reasons.
pub data Write : Type 0 where
  wrote : ℕ → Write
  write_again : Write
  write_failed : Write

abbrev pub is_idle : ConnectionState → Bool
is_idle cstate_idle = true
is_idle _ = false

abbrev pub is_waiting : ConnectionState → Bool
is_waiting cstate_waiting = true
is_waiting _ = false

abbrev pub is_body : ConnectionState → Bool
is_body cstate_body = true
is_body _ = false

abbrev pub is_closed : ConnectionState → Bool
is_closed cstate_closed = true
is_closed _ = false

-- `cstate_ < 0`.
abbrev pub is_over : ConnectionState → Bool
is_over cstate_closed = true
is_over cstate_broken = true
is_over _ = false

-- `cstate_ == cstate_waiting || cstate_ == cstate_headers`.
abbrev pub in_headers : ConnectionState → Bool
in_headers cstate_waiting = true
in_headers cstate_headers = true
in_headers _ = false

-- The constructor. The fields that it leaves unset are set before they are read.
unfoldable pub http_connection : ℕ → Connection
http_connection fd = record {
  fd = fd;
  cstate = cstate_idle;
  status_code = pos 0;
  content_length = 0;
  has_content_length = false;
  eof = false;
  buf = [];
}

abbrev pub content_length_name : List ℕ
content_length_name = codes "Content-Length: "

abbrev pub status_line : Option ℤ → Connection → Connection
status_line none conn = record conn { cstate = cstate_broken }
status_line (some status) conn = record conn { cstate = cstate_headers; status_code = status }

abbrev pub length_line : Option (List ℕ) → Connection → Connection
length_line none conn = conn
length_line (some value) conn = record conn {
  content_length = strtoul value;
  has_content_length = true;
}

-- A header line behind the first one; the empty one is the last.
abbrev pub header_line : List ℕ → Connection → Connection
header_line [] conn = record conn { cstate = cstate_body }
header_line (c ∷ line) conn = length_line (strip_case content_length_name (c ∷ line)) conn

-- At a `\r\n`, with the line before it.
unfoldable pub end_line : List ℕ → Connection → Connection
unfolding scan_status strip_case strtoul
end_line line conn =
    if is_waiting conn.cstate then status_line (scan_status line) conn else header_line line conn

-- The loop of `process_response_headers`: `line` is the buffer before `i`, the list the buffer from
-- `i` on.
unfoldable pub process_loop : Connection → List ℕ → List ℕ → Connection
unfolding end_line
process_loop conn line (c ∷ d ∷ s) = elim (in_headers conn.cstate) [
  | true ↦ elim (c == b'\r' && d == b'\n') [
    | true ↦ process_loop (end_line line conn) [] s
    | false ↦ process_loop conn (line ++ (c ∷ [])) (d ∷ s)
  ]
  | false ↦ record conn { buf = line ++ (c ∷ d ∷ s) }
]
process_loop conn line (c ∷ []) = record conn { buf = line ++ (c ∷ []) }
process_loop conn line [] = record conn { buf = line }

abbrev pub broken_at_end : Connection → Connection
broken_at_end conn = if conn.eof then record conn { cstate = cstate_broken } else conn

unfoldable pub process_response_headers : Connection → Bool × Connection
unfolding process_loop
process_response_headers conn =
    let conn' = broken_at_end (process_loop conn [] conn.buf) in (in_headers conn'.cstate, conn')

abbrev pub complete : Connection → Connection
complete conn =
    if is_body conn.cstate
      && (conn.has_content_length || conn.eof)
      && leb conn.content_length (length conn.buf)
    then record conn { cstate = cstate_idle }
    else conn

abbrev pub at_end : Connection → Connection
at_end conn =
    if conn.eof
    then if is_idle conn.cstate
      then record conn { cstate = cstate_closed }
      else if is_closed conn.cstate
      then conn
      else record conn { cstate = cstate_broken }
    else conn

unfoldable pub check_response_body : Connection → Bool × Connection
check_response_body conn = let conn' = at_end (complete conn) in (is_body conn'.cstate, conn')

-- `*eol = 0`, at the first newline of the C string.
abbrev pub cut_line : List ℕ → List ℕ
cut_line [] = []
cut_line (c ∷ s) = if c == 0 then c ∷ s else if c == b'\n' then 0 ∷ s else c ∷ cut_line s

-- The buffer behind the call; the text that is returned is its C string.
unfoldable pub truncate_response : List ℕ → List ℕ
truncate_response buf =
    let line = cut_line buf in if ltb (length (c_string line)) 100 then line else set line 100 0

abbrev pub exit_when_overloaded : Connection × List Read → Outcome (Connection × List Read)
exit_when_overloaded (conn, reads) =
    if ltb_ℤ conn.status_code (pos 500) then done (conn, reads) else exited

-- The loop of `send_request`: the bytes that are left, and those that the server has got.
unfoldable pub send_loop : List Write → List ℕ → List ℕ → Outcome (List ℕ × List Write)
send_loop writes [] sent = done (sent, writes)
send_loop [] (c ∷ rest) sent = blocked
send_loop (wrote zero ∷ writes) (c ∷ rest) sent = exited
send_loop (wrote (suc n) ∷ writes) (c ∷ rest) sent =
    send_loop writes (drop n rest) (sent ++ (c ∷ take n rest))
send_loop (write_again ∷ writes) (c ∷ rest) sent = send_loop writes (c ∷ rest) sent
send_loop (write_failed ∷ writes) (c ∷ rest) sent = exited

abbrev pub request_text : List ℕ → List ℕ → List ℕ → List ℕ
request_text user uri host =
    codes "POST /"
    ++ (user
        ++ (b'/'
            ∷ (uri
                ++ (codes " HTTP/1.0\r\nHost: "
                    ++ (host ++ codes "\r\nConnection: keep-alive\r\n\r\n")))))

abbrev pub cleared : Connection → Connection
cleared conn = record conn {
  cstate = cstate_waiting;
  status_code = negsuc 0;
  content_length = 0;
  has_content_length = false;
  buf = [];
}

abbrev pub sent_from : Connection → List ℕ × List Write → Outcome (Connection × List ℕ × List Write)
sent_from conn (sent, writes) = done (cleared conn, sent, writes)

abbrev pub move_url : ℤ → ℤ → List ℕ
move_url x y = codes "move?x=" ++ (decimal x ++ (codes "&y=" ++ (decimal y ++ codes "&style=on")))

-- `buf_` has `bufsiz` bytes, the C library's `BUFSIZ`.
module _ (bufsiz : ℕ) where
  -- The loops of `receive_response_headers` and `receive_response_body`, which differ in the check that
  -- tells them to read more. A null is stored behind the bytes that came.
  unfoldable pub receive_loop :
      (Connection → Bool × Connection) → List Read → Connection → Outcome (Connection × List Read)
  receive_loop check [] conn =
      let (more, conn') = check conn in if more then blocked else done (conn', [])
  receive_loop check (r ∷ reads) conn =
      let (more, conn') = check conn in
      elim more [
        | false ↦ done (conn', r ∷ reads)
        | true ↦ elim r [
          | bytes s ↦ elim (ltb (length conn'.buf + length s) bufsiz) [
            | true ↦ receive_loop check reads (record conn' { buf = conn'.buf ++ s })
            | false ↦ overran
          ]
          | ended ↦ receive_loop check reads (record conn' { eof = true })
          | read_again ↦ receive_loop check reads conn'
          | read_failed ↦ exited
        ]
      ]

  unfoldable pub receive_response_headers :
      List Read → Connection → Outcome (Connection × List Read)
  unfolding receive_loop process_response_headers
  receive_response_headers reads conn =
      if is_idle conn.cstate
      then asserted
      else if is_over conn.cstate
      then done (conn, reads)
      else receive_loop process_response_headers reads (record conn { buf = set conn.buf 0 0 })
        >>= exit_when_overloaded

  unfoldable pub receive_response_body : List Read → Connection → Outcome (Connection × List Read)
  unfolding receive_loop check_response_body
  receive_response_body reads conn =
      if is_over conn.cstate
      then done (conn, reads)
      else if is_body conn.cstate
      then receive_loop check_response_body reads conn
      else asserted

  unfoldable pub send_request :
      List ℕ
      → List ℕ
      → List Write
      → List ℕ
      → Connection
      → Outcome (Connection × List ℕ × List Write)
  unfolding send_loop
  send_request user host writes uri conn =
      let request = request_text user uri host in
      if is_idle conn.cstate && ltb (length request) bufsiz
      then send_loop writes request [] >>= sent_from conn
      else asserted

  -- `pong_thread` on a new connection. Whether `strtod` reads a negative number from the body is the
  -- argument `negative`. The result is what was sent, the status, which only a warning depends on, and
  -- the body; with it `move_done` is set.
  unfoldable pub pong_thread :
      List ℕ
      → List ℕ
      → (List ℕ → Bool)
      → ℕ
      → List Write
      → List Read
      → ℤ
      → ℤ
      → Outcome (List ℕ × ℤ × List ℕ)
  unfolding send_request receive_response_headers receive_response_body http_connection decimal
  pong_thread user host negative fd writes reads x y =
      send_request user host writes (move_url x y) (http_connection fd)
      >>= λ (r : Connection × List ℕ × List Write).
          receive_response_headers reads r.0 >>= λ (q : Connection × List Read).
          receive_response_body q.1 q.0 >>= λ (t : Connection × List Read).
          if negative (c_string t.0.buf) then exited else done (r.1, t.0.status_code, t.0.buf)
