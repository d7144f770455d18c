-- ===== src/Http/Response.antt =====
-- What pset6/pong61.cc makes of a well-formed response.
use mathlib.Core.List.{append-nil, append_assoc}
use cs61_f18_psets.Base.{
  All, ℕ, ◌≤◌, ◌<◌, ◌≡◌, ◌≢◌, true, false, Option, none, some, List, [], ◌∷◌, ◌++◌, length,
  length-append, ◌==◌, if_true, if_false, refl, sym, ap, ◌∙◌, arith,
}
use cs61_f18_psets.Base.Int.{ℤ, pos, ltb_ℤ}
use cs61_f18_psets.Http.Text.{scan_status, strip_case, strtoul}
use cs61_f18_psets.Http.{
  Connection, cstate_body, cstate_idle, cstate_headers, in_headers, is_body, Read, Outcome, done,
  ◌>>=◌, process_response_headers, process_loop, end_line, status_line, length_line,
  content_length_name, cleared, receive_loop, check_response_body, exit_when_overloaded, exited,
  is_over, receive_response_headers, receive_response_body,
}
use cs61_f18_psets.Http.Parse.{
  with_buf, parsed, process_loop-over, process_loop-with_buf, process_loop-crlf, process_loop-byte,
}
use cs61_f18_psets.Http.Receive.{joined, reads_of, receive_loop-Headers, receive_loop-Body}

-- No carriage return.
abbrev pub IsLine : List ℕ → Type 0
IsLine = All (λ c. (c == b'\r') ≡ false)

abbrev pub IsHeader : List ℕ → Type 0
IsHeader line = (line ≢ []) × IsLine line

abbrev pub crlf : List ℕ → List ℕ
crlf s = b'\r' ∷ b'\n' ∷ s

abbrev pub header_text : List (List ℕ) → List ℕ → List ℕ
header_text [] s = s
header_text (line ∷ lines) s = line ++ crlf (header_text lines s)

-- A response: the status line, header lines, an empty line, and the body.
abbrev pub response_text : List ℕ → List (List ℕ) → List ℕ → List ℕ
response_text status lines body = status ++ crlf (header_text lines (crlf body))

-- What a header line says of the body's length, `none` when it is another header.
abbrev pub length_of : List ℕ → Option (List ℕ)
length_of line = strip_case content_length_name line

abbrev pub learn : Option (List ℕ) → Option ℕ → Option ℕ
learn none n = n
learn (some value) n = some (strtoul value)

abbrev pub next_length : List ℕ → Option ℕ → Option ℕ
next_length line = learn (length_of line)

-- The last `Content-Length`, behind one read before.
abbrev pub declared : Option ℕ → List (List ℕ) → Option ℕ
declared n [] = n
declared n (line ∷ lines) = declared (next_length line n) lines

process_loop-line :
    (conn : Connection) (line s rest : List ℕ)
    → in_headers conn.cstate ≡ true
    → IsLine s
    → process_loop conn line (s ++ crlf rest) ≡ process_loop (end_line (line ++ s) conn) [] rest
process_loop-line conn line [] rest e l =
    process_loop-crlf conn line b'\r' b'\n' rest e refl
    ∙ ap (λ t. process_loop (end_line t conn) [] rest) (sym (append-nil line))
process_loop-line conn line (c ∷ []) rest e l =
    process_loop-byte conn line c b'\r' (b'\n' ∷ rest) e (rw l.0 refl)
    ∙ process_loop-line conn (line ++ (c ∷ [])) [] rest e tt
    ∙ ap (λ t. process_loop (end_line t conn) [] rest) (append-nil (line ++ (c ∷ [])))
process_loop-line conn line (c ∷ d ∷ s) rest e l =
    process_loop-byte conn line c d (s ++ crlf rest) e (rw l.0 refl)
    ∙ process_loop-line conn (line ++ (c ∷ [])) (d ∷ s) rest e l.1
    ∙ ap (λ t. process_loop (end_line t conn) [] rest) (append_assoc line (c ∷ []) (d ∷ s))

-- What the headers tell.
abbrev pub knows : Option ℕ → Connection → Connection
knows none conn = conn
knows (some n) conn = record conn { content_length = n; has_content_length = true }

abbrev pub headers_read : ℤ → Option ℕ → Connection → Connection
headers_read n len conn = knows len (record conn { cstate = cstate_headers; status_code = n })

knows-cstate : (len : Option ℕ) (conn : Connection) → (knows len conn).cstate ≡ conn.cstate
knows-cstate none conn = refl
knows-cstate (some n) conn = refl

length_line-none :
    (n : ℤ) (conn : Connection) (o : Option (List ℕ))
    → length_line o (headers_read n none conn) ≡ headers_read n (learn o none) conn
length_line-none n conn none = refl
length_line-none n conn (some value) = refl

length_line-some :
    (n : ℤ) (m : ℕ) (conn : Connection) (o : Option (List ℕ))
    → length_line o (headers_read n (some m) conn) ≡ headers_read n (learn o (some m)) conn
length_line-some n m conn none = refl
length_line-some n m conn (some value) = refl

end_line-header :
    (n : ℤ) (len : Option ℕ) (conn : Connection) (line : List ℕ)
    → line ≢ []
    → end_line line (headers_read n len conn) ≡ headers_read n (next_length line len) conn
unfolding end_line
end_line-header n len conn [] ne = absurd (ne refl)
end_line-header n none conn (c ∷ line) ne = length_line-none n conn (length_of (c ∷ line))
end_line-header n (some m) conn (c ∷ line) ne = length_line-some n m conn (length_of (c ∷ line))

in_headers-headers_read :
    (n : ℤ) (len : Option ℕ) (conn : Connection)
    → in_headers (headers_read n len conn).cstate ≡ true
in_headers-headers_read n len conn =
    ap in_headers (knows-cstate len (record conn { cstate = cstate_headers; status_code = n }))

-- The connection behind the headers.
abbrev pub answered : ℤ → Option ℕ → List ℕ → Connection → Connection
answered n len body conn = record (headers_read n len conn) { cstate = cstate_body; buf = body }

end_line-nil :
    (n : ℤ) (len : Option ℕ) (conn : Connection)
    → end_line [] (headers_read n len conn)
      ≡ record (headers_read n len conn) { cstate = cstate_body }
unfolding end_line
end_line-nil n none conn = refl
end_line-nil n (some m) conn = refl

process_loop-headers :
    (n : ℤ) (len : Option ℕ) (conn : Connection) (lines : List (List ℕ)) (body : List ℕ)
    → All IsHeader lines
    → process_loop (headers_read n len conn) [] (header_text lines (crlf body))
      ≡ answered n (declared len lines) body conn
process_loop-headers n len conn [] body l =
    process_loop-line (headers_read n len conn) [] [] body (in_headers-headers_read n len conn) tt
    ∙ ap (λ w. process_loop w [] body) (end_line-nil n len conn)
    ∙ process_loop-over (record (headers_read n len conn) { cstate = cstate_body }) [] body refl
process_loop-headers n len conn (line ∷ lines) body (l, ls) =
    process_loop-line (headers_read n len conn) [] line (header_text lines (crlf body))
      (in_headers-headers_read n len conn) l.1
    ∙ ap (λ w. process_loop w [] (header_text lines (crlf body)))
        (end_line-header n len conn line l.0)
    ∙ process_loop-headers n (next_length line len) conn lines body ls

end_line-status :
    (conn : Connection) (status : List ℕ) (n : ℤ)
    → scan_status status ≡ some n
    → end_line status (cleared conn) ≡ headers_read n none (cleared conn)
unfolding end_line
end_line-status conn status n e = ap (λ o. status_line o (cleared conn)) e

parsed-response :
    (n : ℤ) (conn : Connection) (status : List ℕ) (lines : List (List ℕ)) (body : List ℕ)
    → scan_status status ≡ some n
    → IsLine status
    → All IsHeader lines
    → parsed (cleared conn) (response_text status lines body)
      ≡ answered n (declared none lines) body (cleared conn)
unfolding parsed
parsed-response n conn status lines body e l ls =
    process_loop-line (cleared conn) [] status (header_text lines (crlf body)) refl l
    ∙ ap (λ w. process_loop w [] (header_text lines (crlf body))) (end_line-status conn status n e)
    ∙ process_loop-headers n none (cleared conn) lines body ls

-- The status line alone.
pub parsed-status :
    (n : ℤ) (conn : Connection) (status : List ℕ)
    → scan_status status ≡ some n
    → IsLine status
    → parsed (with_buf (status ++ crlf []) (cleared conn)) [] ≡ headers_read n none (cleared conn)
unfolding parsed process_loop
parsed-status n conn status e l =
    process_loop-with_buf (status ++ crlf []) (cleared conn) [] ((status ++ crlf []) ++ [])
    ∙ ap (process_loop (cleared conn) []) (append-nil (status ++ crlf []))
    ∙ process_loop-line (cleared conn) [] status [] refl l
    ∙ ap (λ w. process_loop w [] []) (end_line-status conn status n e)

-- A list that begins with all of its bytes has no more.
whole : (xs ys zs : List ℕ) → xs ++ ys ≡ zs → length zs ≤ length xs → (xs ≡ zs) × (ys ≡ [])
whole xs [] zs e h = (sym (append-nil xs) ∙ e, refl)
whole xs (y ∷ ys) zs e h = absurd (omega (arith, ap length e, length-append xs (y ∷ ys)))

module _ (bufsiz : ℕ) where
  abbrev pub receive_response : List Read → Connection → Outcome (Connection × List Read)
  receive_response reads conn =
      receive_response_headers bufsiz reads conn >>= λ (q : Connection × List Read).
      receive_response_body bufsiz q.1 q.0

  receive-of :
      (reads : List Read) (conn mid last : Connection) (left rest : List Read)
      → receive_loop bufsiz process_response_headers reads (cleared conn) ≡ done (mid, left)
      → ltb_ℤ mid.status_code (pos 500) ≡ true
      → mid.cstate ≡ cstate_body
      → receive_loop bufsiz check_response_body left mid ≡ done (last, rest)
      → receive_response reads (cleared conn) ≡ done (last, rest)
  unfolding receive_response_headers receive_response_body
  receive-of reads conn mid last left rest first low body second =
      ap
        (λ (o : Outcome (Connection × List Read)).
          o >>= exit_when_overloaded >>= λ (q : Connection × List Read).
          receive_response_body bufsiz q.1 q.0)
        first
      ∙ ap
          (λ (o : Outcome (Connection × List Read)).
            o >>= λ (q : Connection × List Read). receive_response_body bufsiz q.1 q.0)
          (if_true (ltb_ℤ mid.status_code (pos 500)) (done (mid, left)) exited low)
      ∙ if_false (is_over mid.cstate) _ _ (ap is_over body)
      ∙ if_true (is_body mid.cstate) _ _ (ap is_body body)
      ∙ second

  -- However the pieces are cut in which a well-formed response arrives, of a status below 500 and with its
  -- body's length in a header: when they fit together in `buf_`, `receive_response_headers` and
  -- `receive_response_body` return, with this status and this body, and the connection idle again.
  pub receive_response_lem :
      (n : ℤ) (conn : Connection) (status : List ℕ) (lines : List (List ℕ)) (body : List ℕ)
      (pieces : List (List ℕ))
      → conn.eof ≡ false
      → scan_status status ≡ some n
      → ltb_ℤ n (pos 500) ≡ true
      → IsLine status
      → All IsHeader lines
      → declared none lines ≡ some (length body)
      → joined pieces ≡ response_text status lines body
      → length (joined pieces) < bufsiz
      → (last : Connection) × (rest : List (List ℕ)) × (receive_response
            (reads_of pieces)
            (cleared conn)
          ≡ done (last, reads_of rest))
        × (last.status_code ≡ n)
        × (last.buf ≡ body)
        × (last.cstate ≡ cstate_idle)
        × (joined rest ≡ [])
  receive_response_lem n conn status lines body pieces open_still e low l ls len cut fits =
      let final : parsed (cleared conn) (joined pieces)
          ≡ answered n (some (length body)) body (cleared conn) =
        ap (parsed (cleared conn)) cut
        ∙ parsed-response n conn status lines body e l ls
        ∙ ap (λ o. answered n o body (cleared conn)) len in
      let h =
        receive_loop-Headers bufsiz pieces (cleared conn) open_still (omega arith)
          (ap (λ (w : Connection). in_headers w.cstate) final) in
      let state = h.state ∙ final in
      let content = ap (λ (w : Connection). w.buf) state in
      let in_body = ap (λ (w : Connection). w.cstate) state in
      let size = ap (λ (w : Connection). w.content_length) state in
      let b =
        receive_loop-Body bufsiz h.rest h.last in_body h.open_still
          (ap (λ (w : Connection). w.has_content_length) state)
          (omega (arith, size, ap length content, length-append h.last.buf (joined h.rest)))
          h.fits in
      let (same, nothing) =
        whole b.last.buf (joined b.rest) body (b.all ∙ content) (omega (arith, size, b.enough)) in
      (
        b.last,
        b.rest,
        receive-of (reads_of pieces) conn h.last b.last (reads_of h.rest) (reads_of b.rest)
            h.returns (ap (λ (w : Connection). ltb_ℤ w.status_code (pos 500)) state ∙ low) in_body
            b.returns,
        b.status ∙ ap (λ (w : Connection). w.status_code) state,
        same,
        b.idle,
        nothing,
      )
