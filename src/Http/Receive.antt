-- ===== src/Http/Receive.antt =====
-- The receiving loops of pset6/pong61.cc on a response that arrives in pieces.
use mathlib.Core.List.{append-nil, append_assoc}
use mathlib.Core.Path.{subst}
use cs61_f18_psets.Base.{
  ℕ, ◌+◌, ◌≤◌, ◌<◌, ◌≡◌, Bool, true, false, ◌&&◌, ◌||◌, List, [], ◌∷◌, ◌++◌, map, length,
  length-append, leb, lt→ltb, if_true, if_false, Bool-cases, inl, inr, refl, sym, ap, ◌∙◌, arith,
}
use cs61_f18_psets.Http.{
  Connection, cstate_body, cstate_idle, in_headers, is_body, Read, bytes, ended, done, receive_loop,
  process_response_headers, process_loop, check_response_body, at_end,
}
use cs61_f18_psets.Http.Parse.{
  with_buf, parsed, process_lem, process_loop-over, process_loop-with_buf,
}

abbrev pub joined : List (List ℕ) → List ℕ
joined [] = []
joined (s ∷ pieces) = s ++ joined pieces

abbrev pub reads_of : List (List ℕ) → List Read
reads_of = map bytes

and_false : (a b c : Bool) → c ≡ false → (a && b && c) ≡ false
and_false true true c e = e
and_false true false c e = refl
and_false false b c e = refl

module _ (bufsiz : ℕ) where
  module _ (check : Connection → Bool × Connection) where
    -- The rounds of the loop, with the check's two results.
    round_stop :
        (reads : List Read) (conn : Connection)
        → (check conn).0 ≡ false
        → receive_loop bufsiz check reads conn ≡ done ((check conn).1, reads)
    unfolding receive_loop
    round_stop [] conn e = rw (e, receive_loop) refl
    round_stop (r ∷ reads) conn e = rw (e, receive_loop) refl

    round_bytes :
        (s : List ℕ) (reads : List Read) (conn : Connection)
        → (check conn).0 ≡ true
        → length (check conn).1.buf + length s < bufsiz
        → receive_loop bufsiz check (bytes s ∷ reads) conn
          ≡ receive_loop bufsiz check reads (with_buf ((check conn).1.buf ++ s) (check conn).1)
    unfolding receive_loop
    round_bytes s reads conn e fits =
        rw (e, lt→ltb (length (check conn).1.buf + length s) bufsiz fits, receive_loop) refl

    round_ended :
        (reads : List Read) (conn : Connection)
        → (check conn).0 ≡ true
        → receive_loop bufsiz check (ended ∷ reads) conn
          ≡ receive_loop bufsiz check reads (record ((check conn).1) { eof = true })
    unfolding receive_loop
    round_ended reads conn e = rw (e, receive_loop) refl

    pub loop_ended :
        (reads : List Read) (conn conn' : Connection)
        → check conn ≡ (true, conn')
        → receive_loop bufsiz check (ended ∷ reads) conn
          ≡ receive_loop bufsiz check reads (record conn' { eof = true })
    loop_ended reads conn conn' e =
        round_ended reads conn (ap (λ (q : Bool × Connection). q.0) e)
        ∙ ap
            (λ (q : Bool × Connection). receive_loop bufsiz check reads (record q.1 { eof = true }))
            e

    pub loop_stop :
        (reads : List Read) (conn conn' : Connection)
        → check conn ≡ (false, conn')
        → receive_loop bufsiz check reads conn ≡ done (conn', reads)
    loop_stop reads conn conn' e =
        round_stop reads conn (ap (λ (q : Bool × Connection). q.0) e)
        ∙ ap (λ (q : Bool × Connection). done (q.1, reads)) e

    pub loop_bytes :
        (s : List ℕ) (reads : List Read) (conn conn' : Connection)
        → check conn ≡ (true, conn')
        → length conn'.buf + length s < bufsiz
        → receive_loop bufsiz check (bytes s ∷ reads) conn
          ≡ receive_loop bufsiz check reads (with_buf (conn'.buf ++ s) conn')
    loop_bytes s reads conn conn' e =
        subst
          (λ (q : Bool × Connection).
            length q.1.buf + length s < bufsiz
            → receive_loop bufsiz check (bytes s ∷ reads) conn
              ≡ receive_loop bufsiz check reads (with_buf (q.1.buf ++ s) q.1))
          e (round_bytes s reads conn (ap (λ (q : Bool × Connection). q.0) e))

  -- The loop has ended: the bytes that came, and those that are still to come, are the parser's.
  pub record Headers (pieces : List (List ℕ)) (conn final : Connection) : Type 0 where
    pub last : Connection
    pub rest : List (List ℕ)
    pub returns :
        receive_loop bufsiz process_response_headers (reads_of pieces) conn
        ≡ done (last, reads_of rest)
    pub state : with_buf (last.buf ++ joined rest) last ≡ final
    pub open_still : last.eof ≡ false
    pub fits : length last.buf + length (joined rest) < bufsiz

  parsed-over :
      (p : Connection) (s : List ℕ)
      → in_headers p.cstate ≡ false
      → parsed p s ≡ with_buf (p.buf ++ s) p
  unfolding parsed
  parsed-over p s z = process_loop-over p [] (p.buf ++ s) z

  parsed-append :
      (p : Connection) (s t : List ℕ) → parsed (with_buf (p.buf ++ s) p) t ≡ parsed p (s ++ t)
  unfolding parsed
  parsed-append p s t =
      process_loop-with_buf (p.buf ++ s) p [] ((p.buf ++ s) ++ t)
      ∙ ap (process_loop p []) (append_assoc p.buf s t)

  pub receive_loop-Headers :
      (pieces : List (List ℕ)) (conn : Connection)
      → conn.eof ≡ false
      → length conn.buf + length (joined pieces) < bufsiz
      → in_headers (parsed conn (joined pieces)).cstate ≡ false
      → Headers pieces conn (parsed conn (joined pieces))
  receive_loop-Headers [] conn open_still fits over =
      let (returned, again, kept) = process_lem conn open_still in
      record {
        last = parsed conn [];
        rest = [];
        returns =
            loop_stop process_response_headers [] conn (parsed conn [])
              (returned ∙ ap (λ b. (b, parsed conn [])) over);
        state = ap (λ b. with_buf b (parsed conn [])) (append-nil (parsed conn []).buf);
        open_still = kept.0 ∙ open_still;
        fits = omega arith;
      }
  receive_loop-Headers (s ∷ pieces) conn open_still fits over =
      let (returned, again, kept) = process_lem conn open_still in
      let p = parsed conn [] in
      elim (Bool-cases (in_headers p.cstate)) [
        | inr z ↦ record {
          last = p;
          rest = s ∷ pieces;
          returns =
              loop_stop process_response_headers (bytes s ∷ reads_of pieces) conn p
                (returned ∙ ap (λ b. (b, p)) z);
          state = sym (parsed-over p (s ++ joined pieces) z) ∙ again (s ++ joined pieces);
          open_still = kept.0 ∙ open_still;
          fits = omega (arith, kept.1);
        }
        | inl z ↦
            let next = with_buf (p.buf ++ s) p in
            let same : parsed next (joined pieces) ≡ parsed conn (s ++ joined pieces) =
              parsed-append p s (joined pieces) ∙ again (s ++ joined pieces) in
            let h =
              receive_loop-Headers pieces next (kept.0 ∙ open_still)
                (omega (arith, kept.1, length-append p.buf s, length-append s (joined pieces)))
                (ap (λ (w : Connection). in_headers w.cstate) same ∙ over) in
            record {
              last = h.last;
              rest = h.rest;
              returns =
                  loop_bytes process_response_headers s (reads_of pieces) conn p
                    (returned ∙ ap (λ b. (b, p)) z)
                    (omega (arith, kept.1, length-append s (joined pieces)))
                  ∙ h.returns;
              state = h.state ∙ same;
              open_still = h.open_still;
              fits = h.fits;
            }
      ]

  -- The body is complete, or more has to be read.
  body_complete :
      (conn : Connection)
      → conn.cstate ≡ cstate_body
      → conn.eof ≡ false
      → conn.has_content_length ≡ true
      → leb conn.content_length (length conn.buf) ≡ true
      → check_response_body conn ≡ (false, record conn { cstate = cstate_idle })
  unfolding check_response_body
  body_complete conn body open_still known enough =
      ap (λ (w : Connection). (is_body w.cstate, w))
        (ap at_end (
            if_true
              (is_body conn.cstate
                && (conn.has_content_length || conn.eof)
                && leb conn.content_length (length conn.buf))
              _ _
              (ap
                  (λ s.
                    is_body s
                    && (conn.has_content_length || conn.eof)
                    && leb conn.content_length (length conn.buf))
                  body
                ∙ ap (λ b. (b || conn.eof) && leb conn.content_length (length conn.buf)) known
                ∙ enough))
          ∙ if_false conn.eof _ _ open_still)

  body_short :
      (conn : Connection)
      → conn.cstate ≡ cstate_body
      → conn.eof ≡ false
      → leb conn.content_length (length conn.buf) ≡ false
      → check_response_body conn ≡ (true, conn)
  unfolding check_response_body
  body_short conn body open_still short =
      ap (λ (w : Connection). (is_body w.cstate, w))
        (ap at_end (
            if_false
              (is_body conn.cstate
                && (conn.has_content_length || conn.eof)
                && leb conn.content_length (length conn.buf))
              _ _ (and_false (is_body conn.cstate) (conn.has_content_length || conn.eof) _ short))
          ∙ if_false conn.eof _ _ open_still)
      ∙ ap (λ s. (is_body s, conn)) body

  pub record Body (pieces : List (List ℕ)) (conn : Connection) : Type 0 where
    pub last : Connection
    pub rest : List (List ℕ)
    pub returns :
        receive_loop bufsiz check_response_body (reads_of pieces) conn ≡ done (last, reads_of rest)
    pub idle : last.cstate ≡ cstate_idle
    pub status : last.status_code ≡ conn.status_code
    pub enough : conn.content_length ≤ length last.buf
    pub all : last.buf ++ joined rest ≡ conn.buf ++ joined pieces

  stopped :
      (pieces : List (List ℕ)) (conn : Connection)
      → conn.cstate ≡ cstate_body
      → conn.eof ≡ false
      → conn.has_content_length ≡ true
      → leb conn.content_length (length conn.buf) ≡ true
      → Body pieces conn
  stopped pieces conn body open_still known z = record {
    last = record conn { cstate = cstate_idle };
    rest = pieces;
    returns =
        loop_stop check_response_body (reads_of pieces) conn _
          (body_complete conn body open_still known z);
    idle = refl;
    status = refl;
    enough = ground arith;
    all = refl;
  }

  -- When the bytes to come complete the body and fit in the buffer, the loop takes pieces until the body
  -- is complete.
  pub receive_loop-Body :
      (pieces : List (List ℕ)) (conn : Connection)
      → conn.cstate ≡ cstate_body
      → conn.eof ≡ false
      → conn.has_content_length ≡ true
      → conn.content_length ≤ length conn.buf + length (joined pieces)
      → length conn.buf + length (joined pieces) < bufsiz
      → Body pieces conn
  receive_loop-Body [] conn body open_still known enough fits =
      stopped [] conn body open_still known (ground arith)
  receive_loop-Body (s ∷ pieces) conn body open_still known enough fits =
      elim (Bool-cases (leb conn.content_length (length conn.buf))) [
        | inl z ↦ stopped (s ∷ pieces) conn body open_still known z
        | inr z ↦
            let h =
              receive_loop-Body pieces (with_buf (conn.buf ++ s) conn) body open_still known
                (omega (arith, length-append conn.buf s, length-append s (joined pieces)))
                (omega (arith, length-append conn.buf s, length-append s (joined pieces))) in
            record {
              last = h.last;
              rest = h.rest;
              returns =
                  loop_bytes check_response_body s (reads_of pieces) conn conn
                    (body_short conn body open_still z)
                    (omega (arith, length-append s (joined pieces)))
                  ∙ h.returns;
              idle = h.idle;
              status = h.status;
              enough = h.enough;
              all = h.all ∙ append_assoc conn.buf s (joined pieces);
            }
      ]
