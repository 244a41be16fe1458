-- ===== src/Api/Verdicts.antt =====
-- What the header of a response means, by the numbers of src/protocol.h: the description that the
-- checks of src/packet.c are held against.
use libemq.Base.{ℕ, Bool, List, [], ◌∷◌, ◌≡◌, ◌==◌, ◌&&◌, if◌then◌else◌, refl, arith}
use libemq.Client.{Error, Status}
use libemq.Protocol.{Command, ResponseHeader, code, status_success}
use libemq.Packet.{check_response_header, check_response_header_mini, check_status, get_error}

-- How a call ends, by the response's header: no error, or the error that it reports.
pub data Verdict : Type 0 where
  accepted : Verdict
  refused : Error → Verdict

-- The statuses that have an error of their own; a refusal with another status stores the empty text.
abbrev pub reports : List (ℕ × Error)
reports =
    (3, Error.packet)
    ∷ (4, Error.command)
    ∷ (5, Error.access)
    ∷ (6, Error.memory)
    ∷ (8, Error.not_declared)
    ∷ (9, Error.not_found)
    ∷ (10, Error.no_data)
    ∷ []

abbrev pub report_in : List (ℕ × Error) → ℕ → Error
report_in [] status = Error.no_error
report_in ((n, e) ∷ table) status = if status == n then e else report_in table status

-- A header that fits is decided by its status.
abbrev pub reading : (fits : Bool) → ResponseHeader → Verdict
reading fits h =
    if fits
    then if h.status == 1 then accepted else refused (report_in reports h.status)
    else refused Error.response

abbrev pub is_response : Command → ResponseHeader → Bool
is_response c h = h.magic == 0x80 && h.cmd == code c

-- A bare response: of the command, and without a body.
abbrev pub verdict : Command → ResponseHeader → Verdict
verdict c h = reading (is_response c h && h.bodylen == 0) h

-- The checks of a response, one after the other.
abbrev pub judge : (header_status reply_status : Status) → Error → Verdict
judge Status.err r e = refused Error.response
judge Status.ok Status.ok e = accepted
judge Status.ok Status.err e = refused e

pub judge-accepted :
    (r r' : Status) (e : Error) → judge r r' e ≡ accepted → (r ≡ Status.ok) × (r' ≡ Status.ok)
judge-accepted Status.ok Status.ok e h = (refl, refl)
judge-accepted Status.ok Status.err e h = cc
judge-accepted Status.err r' e h = cc

pub judge-reading :
    (c : Command) (n : ℕ) (h : ResponseHeader)
    → judge (check_response_header h c n) (check_status h status_success) (get_error h)
      ≡ reading (is_response c h && h.bodylen == n) h
unfolding check_response_header check_status get_error
judge-reading c n h = ground arith

pub judge-reading_mini :
    (c : Command) (h : ResponseHeader)
    → judge (check_response_header_mini h c) (check_status h status_success) (get_error h)
      ≡ reading (is_response c h) h
unfolding check_response_header_mini check_status get_error
judge-reading_mini c h = ground arith
