-- ===== src/Http/Send.antt =====
-- `send_request` and `pong_thread` of pset6/pong61.cc, with a server that takes the request.
use mathlib.Core.List.{append-nil, append_assoc}
use cs61_f18_psets.Base.{
  ℕ, zero, suc, ◌+◌, ◌-◌, ◌≤◌, ◌<◌, ◌≡◌, true, ◌&&◌, List, [], ◌∷◌, ◌++◌, length, take, drop, ltb,
  lt→ltb, if_true, refl, sym, ap, ◌∙◌, arith,
}
use cs61_f18_psets.Http.{
  Connection, Write, wrote, write_again, write_failed, Outcome, done, asserted, ◌>>=◌, is_idle,
  cleared, send_loop, send_request, sent_from, request_text,
}

-- The bytes that the writes take.
abbrev pub accepted : List Write → ℕ
accepted [] = 0
accepted (wrote n ∷ writes) = n + accepted writes
accepted (write_again ∷ writes) = accepted writes
accepted (write_failed ∷ writes) = accepted writes

-- No write fails or takes nothing.
abbrev pub Accepts : List Write → Type 0
Accepts [] = Unit
Accepts (wrote n ∷ writes) = (0 < n) × Accepts writes
Accepts (write_again ∷ writes) = Accepts writes
Accepts (write_failed ∷ writes) = ⊥

take-drop : (n : ℕ) (s : List ℕ) → take n s ++ drop n s ≡ s
take-drop zero s = refl
take-drop (suc n) [] = refl
take-drop (suc n) (c ∷ s) = ap (λ t. c ∷ t) (take-drop n s)

length-drop : (n : ℕ) (s : List ℕ) → length (drop n s) ≤ length s - n
length-drop zero s = omega arith
length-drop (suc n) [] = omega arith
length-drop (suc n) (c ∷ s) = omega (arith, length-drop n s)

-- The loop sends what is left, in order.
send_loop_lem :
    (writes : List Write) (rest sent : List ℕ)
    → Accepts writes
    → length rest ≤ accepted writes
    → (left : List Write) × (send_loop writes rest sent ≡ done (sent ++ rest, left))
unfolding send_loop
send_loop_lem writes [] sent ok enough =
    (writes, ap (λ s. done (s, writes)) (sym (append-nil sent)))
send_loop_lem [] (c ∷ rest) sent ok enough = absurd (omega arith)
send_loop_lem (wrote zero ∷ writes) (c ∷ rest) sent ok enough = absurd (omega (arith, ok.0))
send_loop_lem (wrote (suc n) ∷ writes) (c ∷ rest) sent ok enough =
    let (left, e) =
      send_loop_lem writes (drop n rest) (sent ++ (c ∷ take n rest)) ok.1
        (omega (arith, length-drop n rest)) in
    (
      left,
      e
          ∙ ap (λ s. done (s, left))
              (append_assoc sent (c ∷ take n rest) (drop n rest)
                ∙ ap (λ t. sent ++ (c ∷ t)) (take-drop n rest)),
    )
send_loop_lem (write_again ∷ writes) (c ∷ rest) sent ok enough =
    send_loop_lem writes (c ∷ rest) sent ok enough
send_loop_lem (write_failed ∷ writes) (c ∷ rest) sent ok enough = absurd ok

module _ (bufsiz : ℕ) (user host : List ℕ) where
  -- However the writes cut it, the server gets the request, when it fits in `reqbuf` and the writes
  -- take as many bytes; the connection then waits for a response.
  pub send_request_lem :
      (writes : List Write) (uri : List ℕ) (conn : Connection)
      → is_idle conn.cstate ≡ true
      → length (request_text user uri host) < bufsiz
      → Accepts writes
      → length (request_text user uri host) ≤ accepted writes
      → (left : List Write) × (send_request bufsiz user host writes uri conn
          ≡ done (cleared conn, request_text user uri host, left))
  unfolding send_request
  send_request_lem writes uri conn idle fits ok enough =
      let (left, e) = send_loop_lem writes (request_text user uri host) [] ok enough in
      (
        left,
        if_true (is_idle conn.cstate && ltb (length (request_text user uri host)) bufsiz) _ asserted
              (ap (λ b. b && ltb (length (request_text user uri host)) bufsiz) idle
                ∙ lt→ltb _ _ fits)
            ∙ ap (λ (o : Outcome (List ℕ × List Write)). o >>= sent_from conn) e,
      )
