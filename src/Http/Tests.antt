-- ===== src/Http/Tests.antt =====
-- A move, with the request and the response cut into pieces.
use cs61_f18_psets.Base.{
  All, ℕ, zero, suc, ◌≡◌, Bool, true, some, List, [], ◌∷◌, ◌++◌, not, ◌&&◌, ◌==◌, Bool-cases, inl,
  inr, refl, sym, ap, ◌∙◌, arith,
}
use cs61_f18_psets.Base.Int.{pos}
use cs61_f18_psets.Base.Text.{codes}
use cs61_f18_psets.Http.Text.{scan_status, strtoul, strip_case}
use cs61_f18_psets.Http.{
  Connection, cstate_idle, Write, wrote, write_again, done, http_connection, cleared, in_headers,
  process_response_headers,
}
use cs61_f18_psets.Http.Parse.{parsed, process_lem, Kept}
use cs61_f18_psets.Http.Receive.{joined, reads_of}
use cs61_f18_psets.Http.Response.{IsLine, IsHeader, receive_response, receive_response_lem}

-- Hexadecimal, octal, and what is no number.
strtoul_run :
    (strtoul (codes " 0x1fg") ≡ 31)
    × (strtoul (codes "017") ≡ 15)
    × (strtoul (codes "-1") ≡ 18446744073709551615)
unfolding strtoul
strtoul_run = (refl, refl, refl)

scan_run : scan_status (codes "HTTP/1.1 402 Please wait") ≡ some (pos 402)
unfolding scan_status
scan_run = refl

abbrev status : List ℕ
status = codes "HTTP/1.1 200 OK"

abbrev headers : List (List ℕ)
headers = codes "Server: pong" ∷ codes "content-length: 4" ∷ []

abbrev body : List ℕ
body = codes "0 OK"

-- The first piece ends between `\r` and `\n`.
abbrev pieces : List (List ℕ)
pieces =
    (status ++ (b'\r' ∷ []))
    ∷ (b'\n' ∷ codes "Server: pong\r\ncontent-length: 4\r\n\r\n0 ")
    ∷ codes "OK"
    ∷ []

abbrev conn : Connection
conn = http_connection 3

no_return : List ℕ → Bool
no_return [] = true
no_return (c ∷ s) = not (c == b'\r') && no_return s

IsLine-of : (s : List ℕ) → no_return s ≡ true → IsLine s
unfolding no_return
IsLine-of [] e = tt
IsLine-of (c ∷ s) e = elim (Bool-cases (c == b'\r')) [
  | inl z ↦ cc (sym e, ap (λ b. not b && no_return s) z)
  | inr z ↦ (z, IsLine-of s (sym (ap (λ b. not b && no_return s) z) ∙ e))
]

status-IsLine : IsLine status
unfolding no_return
status-IsLine = IsLine-of status refl

headers_are : All IsHeader headers
unfolding no_return
headers_are = (
  ((λ e. cc e), IsLine-of (codes "Server: pong") refl),
  (((λ e. cc e), IsLine-of (codes "content-length: 4") refl), tt),
)

receive_example :
    (last : Connection) × (rest : List (List ℕ)) × (receive_response 1024
        (reads_of pieces)
        (cleared conn)
      ≡ done (last, reads_of rest))
    × (last.status_code ≡ pos 200)
    × (last.buf ≡ body)
    × (last.cstate ≡ cstate_idle)
    × (joined rest ≡ [])
unfolding scan_status strip_case strtoul http_connection
receive_example =
    receive_response_lem 1024 (pos 200) conn status headers body pieces refl refl refl status-IsLine
      headers_are refl refl (omega arith)

-- Writes of one byte each.
abbrev ones : ℕ → List Write
ones zero = []
ones (suc n) = wrote 1 ∷ ones n

-- Three bytes of the request are taken, then one at a time.
abbrev writes : List Write
writes = wrote 3 ∷ write_again ∷ ones 90

-- Two calls end as one.
process_example :
    (process_response_headers conn ≡ (in_headers (parsed conn []).cstate, parsed conn []))
    × ((more : List ℕ) → parsed (parsed conn []) more ≡ parsed conn more)
    × Kept 0 conn (parsed conn [])
unfolding http_connection
process_example = process_lem conn refl
