-- ===== src/Http/Parse.antt =====
-- `process_response_headers` of pset6/pong61.cc does not depend on how the response is cut into the
-- pieces that it is called on.
use mathlib.Core.List.{append-nil, append_assoc}
use mathlib.Core.Path.{subst}
use cs61_f18_psets.Base.{
  ℕ, ◌+◌, ◌≡◌, true, false, ◌&&◌, Option, none, some, List, [], ◌∷◌, ◌++◌, ◌==◌, if_false,
  Bool-cases, Option-cases, length, length-append, ◌≤◌, inl, inr, refl, sym, ap, ◌∙◌, arith,
}
use cs61_f18_psets.Base.Int.{ℤ}
use cs61_f18_psets.Http.Text.{scan_status, strip_case}
use cs61_f18_psets.Http.{
  Connection, in_headers, is_waiting, end_line, status_line, header_line, length_line,
  content_length_name, process_loop, process_response_headers,
}

-- The connection with another buffer.
abbrev pub with_buf : List ℕ → Connection → Connection
with_buf b conn = record conn { buf = b }

status_line-with_buf :
    (b : List ℕ) (o : Option ℤ) (conn : Connection)
    → status_line o (with_buf b conn) ≡ with_buf b (status_line o conn)
status_line-with_buf b none conn = refl
status_line-with_buf b (some status) conn = refl

length_line-with_buf :
    (b : List ℕ) (o : Option (List ℕ)) (conn : Connection)
    → length_line o (with_buf b conn) ≡ with_buf b (length_line o conn)
length_line-with_buf b none conn = refl
length_line-with_buf b (some value) conn = refl

header_line-with_buf :
    (b line : List ℕ) (conn : Connection)
    → header_line line (with_buf b conn) ≡ with_buf b (header_line line conn)
header_line-with_buf b [] conn = refl
header_line-with_buf b (c ∷ line) conn =
    length_line-with_buf b (strip_case content_length_name (c ∷ line)) conn

end_line-with_buf :
    (b line : List ℕ) (conn : Connection)
    → end_line line (with_buf b conn) ≡ with_buf b (end_line line conn)
unfolding end_line
end_line-with_buf b line conn = elim (Bool-cases (is_waiting conn.cstate)) [
  | inl z ↦ rw (z, end_line) (status_line-with_buf b (scan_status line) conn)
  | inr z ↦ rw (z, end_line) (header_line-with_buf b line conn)
]

-- Nor does it look at `eof_`.
status_line-eof : (o : Option ℤ) (conn : Connection) → (status_line o conn).eof ≡ conn.eof
status_line-eof none conn = refl
status_line-eof (some status) conn = refl

header_line-eof : (line : List ℕ) (conn : Connection) → (header_line line conn).eof ≡ conn.eof
header_line-eof [] conn = refl
header_line-eof (c ∷ line) conn = elim (Option-cases (strip_case content_length_name (c ∷ line))) [
  | inl e ↦ rw e refl
  | inr (value, e) ↦ rw e refl
]

end_line-eof : (line : List ℕ) (conn : Connection) → (end_line line conn).eof ≡ conn.eof
unfolding end_line
end_line-eof line conn = elim (Bool-cases (is_waiting conn.cstate)) [
  | inl z ↦ rw (z, end_line) (status_line-eof (scan_status line) conn)
  | inr z ↦ rw (z, end_line) (header_line-eof line conn)
]

-- Outside of the headers the loop stops.
pub process_loop-over :
    (conn : Connection) (line s : List ℕ)
    → in_headers conn.cstate ≡ false
    → process_loop conn line s ≡ with_buf (line ++ s) conn
unfolding process_loop
process_loop-over conn line [] e = rw append-nil refl
process_loop-over conn line (c ∷ []) e = refl
process_loop-over conn line (c ∷ d ∷ s) e = rw (e, process_loop) refl

pub process_loop-crlf :
    (conn : Connection) (line : List ℕ) (c d : ℕ) (s : List ℕ)
    → in_headers conn.cstate ≡ true
    → (c == b'\r' && d == b'\n') ≡ true
    → process_loop conn line (c ∷ d ∷ s) ≡ process_loop (end_line line conn) [] s
unfolding process_loop
process_loop-crlf conn line c d s e z = rw (e, z, process_loop) refl

pub process_loop-byte :
    (conn : Connection) (line : List ℕ) (c d : ℕ) (s : List ℕ)
    → in_headers conn.cstate ≡ true
    → (c == b'\r' && d == b'\n') ≡ false
    → process_loop conn line (c ∷ d ∷ s) ≡ process_loop conn (line ++ (c ∷ [])) (d ∷ s)
unfolding process_loop
process_loop-byte conn line c d s e z = rw (e, z, process_loop) refl

process_loop-nil :
    (conn : Connection) (line : List ℕ) → process_loop conn line [] ≡ with_buf line conn
unfolding process_loop
process_loop-nil conn line = refl

process_loop-one :
    (conn : Connection) (line : List ℕ) (c : ℕ)
    → process_loop conn line (c ∷ []) ≡ with_buf (line ++ (c ∷ [])) conn
unfolding process_loop
process_loop-one conn line c = refl

-- What the buffer held before does not matter.
pub process_loop-with_buf :
    (b : List ℕ) (conn : Connection) (line s : List ℕ)
    → process_loop (with_buf b conn) line s ≡ process_loop conn line s
process_loop-with_buf b conn line [] =
    process_loop-nil (with_buf b conn) line ∙ sym (process_loop-nil conn line)
process_loop-with_buf b conn line (c ∷ []) =
    process_loop-one (with_buf b conn) line c ∙ sym (process_loop-one conn line c)
process_loop-with_buf b conn line (c ∷ d ∷ s) = elim (Bool-cases (in_headers conn.cstate)) [
  | inr e ↦
      process_loop-over (with_buf b conn) line (c ∷ d ∷ s) e
      ∙ sym (process_loop-over conn line (c ∷ d ∷ s) e)
  | inl e ↦ elim (Bool-cases (c == b'\r' && d == b'\n')) [
    | inl z ↦
        process_loop-crlf (with_buf b conn) line c d s e z
        ∙ ap (λ w. process_loop w [] s) (end_line-with_buf b line conn)
        ∙ process_loop-with_buf b (end_line line conn) [] s
        ∙ sym (process_loop-crlf conn line c d s e z)
    | inr z ↦
        process_loop-byte (with_buf b conn) line c d s e z
        ∙ process_loop-with_buf b conn (line ++ (c ∷ [])) (d ∷ s)
        ∙ sym (process_loop-byte conn line c d s e z)
  ]
]

-- The end of the loop, where less than two bytes are left or the headers are over.
resume_last :
    (conn : Connection) (line s more : List ℕ)
    → process_loop conn line s ≡ with_buf (line ++ s) conn
    → ((t : List ℕ) → process_loop conn [] (line ++ (s ++ t)) ≡ process_loop conn line (s ++ t))
    → process_loop (process_loop conn line s) [] ((process_loop conn line s).buf ++ more)
      ≡ process_loop conn line (s ++ more)
resume_last conn line s more e seen =
    subst (λ w. process_loop w [] (w.buf ++ more) ≡ process_loop conn line (s ++ more)) (sym e)
      (process_loop-with_buf (line ++ s) conn [] ((line ++ s) ++ more)
        ∙ ap (process_loop conn []) (append_assoc line s more)
        ∙ seen more)

-- A second call, on what the first one left and more, ends as one call on all of it. The bytes of
-- `line` have been looked at already.
process_loop-resume :
    (conn : Connection) (line s more : List ℕ)
    → ((t : List ℕ) → process_loop conn [] (line ++ (s ++ t)) ≡ process_loop conn line (s ++ t))
    → process_loop (process_loop conn line s) [] ((process_loop conn line s).buf ++ more)
      ≡ process_loop conn line (s ++ more)
process_loop-resume conn line [] more seen =
    resume_last conn line [] more
      (process_loop-nil conn line ∙ ap (λ b. with_buf b conn) (sym (append-nil line))) seen
process_loop-resume conn line (c ∷ []) more seen =
    resume_last conn line (c ∷ []) more (process_loop-one conn line c) seen
process_loop-resume conn line (c ∷ d ∷ s) more seen = elim (Bool-cases (in_headers conn.cstate)) [
  | inr e ↦ resume_last conn line (c ∷ d ∷ s) more (process_loop-over conn line (c ∷ d ∷ s) e) seen
  | inl e ↦ elim (Bool-cases (c == b'\r' && d == b'\n')) [
    | inl z ↦
        subst
          (λ w. process_loop w [] (w.buf ++ more) ≡ process_loop conn line (c ∷ d ∷ (s ++ more)))
          (sym (process_loop-crlf conn line c d s e z))
          (process_loop-resume (end_line line conn) [] s more (λ t. refl)
            ∙ sym (process_loop-crlf conn line c d (s ++ more) e z))
    | inr z ↦
        subst
          (λ w. process_loop w [] (w.buf ++ more) ≡ process_loop conn line (c ∷ d ∷ (s ++ more)))
          (sym (process_loop-byte conn line c d s e z))
          (process_loop-resume conn (line ++ (c ∷ [])) (d ∷ s) more (λ t.
              ap (process_loop conn []) (append_assoc line (c ∷ []) (d ∷ (s ++ t)))
              ∙ seen t
              ∙ process_loop-byte conn line c d (s ++ t) e z)
            ∙ sym (process_loop-byte conn line c d (s ++ more) e z))
  ]
]

-- The loop only takes bytes away.
abbrev pub Kept : ℕ → Connection → Connection → Type 0
Kept n conn conn' = (conn'.eof ≡ conn.eof) × (length conn'.buf ≤ n)

process_loop-Kept :
    (conn : Connection) (line s : List ℕ)
    → Kept (length line + length s) conn (process_loop conn line s)
process_loop-Kept conn line [] =
    subst (Kept _ conn) (sym (process_loop-nil conn line)) (refl, omega arith)
process_loop-Kept conn line (c ∷ []) =
    subst (Kept _ conn) (sym (process_loop-one conn line c))
      (refl, omega (arith, length-append line (c ∷ [])))
process_loop-Kept conn line (c ∷ d ∷ s) = elim (Bool-cases (in_headers conn.cstate)) [
  | inr e ↦
      subst (Kept _ conn) (sym (process_loop-over conn line (c ∷ d ∷ s) e))
        (refl, omega (arith, length-append line (c ∷ d ∷ s)))
  | inl e ↦ elim (Bool-cases (c == b'\r' && d == b'\n')) [
    | inl z ↦
        let k = process_loop-Kept (end_line line conn) [] s in
        subst (Kept _ conn) (sym (process_loop-crlf conn line c d s e z))
          (k.0 ∙ end_line-eof line conn, omega arith)
    | inr z ↦
        let k = process_loop-Kept conn (line ++ (c ∷ [])) (d ∷ s) in
        subst (Kept _ conn) (sym (process_loop-byte conn line c d s e z))
          (k.0, omega (arith, length-append line (c ∷ [])))
  ]
]

-- The state of the parser behind the bytes of `conn`'s buffer and `more`.
unfoldable pub parsed : Connection → List ℕ → Connection
parsed conn more = process_loop conn [] (conn.buf ++ more)

-- As long as the connection is open, `process_response_headers` parses what is there, and a later call,
-- with more bytes in the buffer, ends as one call on all of them. The buffer does not grow.
pub process_lem :
    (conn : Connection)
    → conn.eof ≡ false
    → (process_response_headers conn ≡ (in_headers (parsed conn []).cstate, parsed conn []))
      × ((more : List ℕ) → parsed (parsed conn []) more ≡ parsed conn more)
      × Kept (length conn.buf) conn (parsed conn [])
unfolding process_response_headers parsed
process_lem conn open_still =
    let all = append-nil conn.buf in
    let kept = process_loop-Kept conn [] conn.buf in
    rw all (
      ap (λ (w : Connection). (in_headers w.cstate, w))
          (if_false (process_loop conn [] conn.buf).eof _ _ (kept.0 ∙ open_still)),
      λ more. process_loop-resume conn [] conn.buf more (λ t. refl),
      (kept.0, omega arith),
    )
