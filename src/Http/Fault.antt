-- ===== src/Http/Fault.antt =====
-- A response that pset6/pong61.cc does not handle as it means to.
use cs61_f18_psets.Base.{true}
use cs61_f18_psets.Base.Int.{ℤ}
use cs61_f18_psets.Http.{Connection, cstate_broken, cleared}

-- The connection when it ends behind the status line.
abbrev pub cut_off : ℤ → Connection → Connection
cut_off n conn = record (cleared conn) { cstate = cstate_broken; status_code = n; eof = true }
