-- ===== src/Segment.antt =====
-- utility/segment.c: frames on a byte stream, between the marks "!&" and "!#".
pub mod Scan
pub mod RoundTrip
use tele_sync.Prelude.{
  ℕ, ◌+◌, List, [], ◌∷◌, ◌++◌, Option, none, some, Bool, true, false, ◌==◌, if◌then◌else◌, length,
}

-- The states 0 to 3 of `recv_segment`; the step to state 4 returns.
pub data RecvState : Type 0 where
  starting bang_seen receiving end_bang_seen : RecvState

abbrev pub bang : ℕ
bang = b'!'

abbrev pub start_mark : ℕ
start_mark = b'&'

abbrev pub end_mark : ℕ
end_mark = b'#'

-- What the code does with one byte: the next state, whether the byte goes to the buffer, and whether
-- the segment is complete.
pub record Received : Type 0 where
  pub state : RecvState
  pub stored : Bool
  pub complete : Bool

unfoldable pub recv_byte : RecvState → ℕ → Received
recv_byte starting c = record {
  state = if c == bang then bang_seen else starting;
  stored = false;
  complete = false;
}
recv_byte bang_seen c = record {
  state = if c == start_mark then receiving else starting;
  stored = false;
  complete = false;
}
recv_byte receiving c = record {
  state = if c == bang then end_bang_seen else receiving;
  stored = true;
  complete = false;
}
recv_byte end_bang_seen c =
    if c == end_mark
    then record { state = end_bang_seen; stored = true; complete = true }
    else record {
      state = if c == bang then end_bang_seen else receiving;
      stored = true;
      complete = false;
    }

-- `buf` holds the bytes stored so far; the input is what the connection still delivers before it
-- ends or fails. The result is the buffer and what is left on the connection, or -1. The code has no
-- use for its parameter `len`: the buffer takes whatever arrives.
unfoldable pub recv_from : RecvState → List ℕ → List ℕ → Option (List ℕ × List ℕ)
recv_from state buf [] = none
recv_from state buf (c ∷ input) =
    let r = recv_byte state c in
    let buf' = if r.stored then buf ++ c ∷ [] else buf in
    let rest = recv_from r.state buf' input in if r.complete then some (buf', input) else rest

unfoldable pub recv_segment : List ℕ → Option (List ℕ × List ℕ)
recv_segment input = recv_from starting [] input

-- `send` is the system's: it takes the connection and the bytes, and answers -1 (`none`) or a count.
module _ {S : Type 0} (send : S → List ℕ → S × Option ℕ) where
  send_end : ℕ → S × Option ℕ → S × Option ℕ
  send_end len (conn, none) = (conn, none)
  send_end len (conn, some sent) = (conn, some (len + 4))

  send_buf : List ℕ → S × Option ℕ → S × Option ℕ
  send_buf buf (conn, none) = (conn, none)
  send_buf buf (conn, some sent) = send conn buf

  send_last : S × Option ℕ → S × Option ℕ
  send_last (conn, none) = (conn, none)
  send_last (conn, some sent) = send conn (bang ∷ end_mark ∷ [])

  -- The result counts the bytes of the frame, or is -1 as soon as one call fails.
  unfoldable pub send_segment : S → List ℕ → S × Option ℕ
  unfolding send_end send_buf send_last
  send_segment conn buf =
      send_end (length buf) (send_last (send_buf buf (send conn (bang ∷ start_mark ∷ []))))
