-- ===== src/Session/Send.antt =====
-- NetWork/LSession.cpp: `AppendDataToSend`, and `SendDataInFixCircleSendBuf`, which gives the bytes
-- of the send buffer to the system.
use linuxgameserver.Common.{
  ℕ, ◌+◌, ◌-◌, Bool, true, false, Option, none, some, List, [], ◌++◌, if◌then◌else◌, ◌==◌, length,
  take, drop,
}
use linuxgameserver.Common.Words.{int_lt}
use linuxgameserver.CircleBuf.{
  no_error, add_items, get_current_exist_count, set_read_index, get_max_item_count,
}
use linuxgameserver.CircleBuf.Valid.{block}
use linuxgameserver.Session.{Session}

-- What `LSocket::Send` returns: the number of bytes that the system took,
-- `E_Socket_Send_System_Buf_Full`, or another error.
pub data SendResult : Type 0 where
  sent : ℕ → SendResult
  system_buf_full send_failed : SendResult

-- The answer to the n-th `Send` of a call, for its block; whether an epoll thread has an id; and
-- whether `epoll_ctl` succeeds.
pub record SendThread : Type 0 where
  pub send : ℕ → List ℕ → SendResult
  pub has_epoll_thread : ℕ → Bool
  pub epoll_ctl : Bool

-- `result` is `none` for -1; `wire` is what the system took of the blocks; `watching` says whether
-- epoll now watches for room.
pub record SendOutcome : Type 0 where
  pub session : Session
  pub result : Option ℕ
  pub wire : List ℕ
  pub watching : Bool

unfoldable pub append_data_to_send : Session → Option (List ℕ) → Bool × Session
append_data_to_send s none = (false, s)
append_data_to_send s (some packet) =
    let (e, b) = add_items s.send_data (some packet) (length packet) in
    let s' = record s { send_data = b } in elim e [ no_error ↦ (true, s') | _ ↦ (false, s') ]

abbrev pub done : Session → ℕ → List ℕ → SendOutcome
done s n wire = record { session = s; result = some n; wire = wire; watching = false }

abbrev pub fail : Session → List ℕ → SendOutcome
fail s wire = record { session = s; result = none; wire = wire; watching = false }

-- The system has no room: the flag is set and epoll asked to tell when there is some. `n` bytes of
-- the call are sent.
unfoldable pub wait_for_room : SendThread → Session → ℕ → List ℕ → SendOutcome
wait_for_room t s n wire =
    if int_lt s.epoll_thread_id 0
    then fail s' wire
    else if t.has_epoll_thread s.epoll_thread_id
    then if t.epoll_ctl
      then record { session = s'; result = some n; wire = wire; watching = true }
      else fail s' wire
    else fail s' wire
  where
    s' : Session
    s' = record s { send_buf_is_full = 1 }

-- The session with the read index of its send buffer at `i`.
abbrev pub read_to : Session → ℕ → Session
read_to s i = record s { send_data = set_read_index s.send_data i }

-- The data do not go round the end of the buffer.
unfoldable pub send_straight : SendThread → Session → List ℕ → SendOutcome
unfolding wait_for_room
send_straight t s mem = elim (t.send 0 part) [
  | sent k ↦ if k == 0 then fail s [] else done (read_to s w) k (take k part)
  | system_buf_full ↦ wait_for_room t s 0 []
  | send_failed ↦ fail s []
]
  where
    w : ℕ
    w = s.send_data.write_index

    part : List ℕ
    part = take (w - s.send_data.read_index) (drop s.send_data.read_index mem)

-- The part of the data at the start of the buffer, when `n` bytes are sent.
unfoldable pub send_second : SendThread → Session → List ℕ → ℕ → List ℕ → SendOutcome
unfolding wait_for_room
send_second t s mem n wire = if w == 0 then done (read_to s w) n wire else elim (t.send 1 part) [
  | sent k ↦ if k == 0 then fail s wire else done (read_to s w) (n + k) (wire ++ take k part)
  | system_buf_full ↦ wait_for_room t s n wire
  | send_failed ↦ fail s wire
]
  where
    w : ℕ
    w = s.send_data.write_index

    part : List ℕ
    part = take w mem

-- The data go round the end of the buffer.
unfoldable pub send_wrapped : SendThread → Session → List ℕ → SendOutcome
unfolding wait_for_room send_second
send_wrapped t s mem = elim (t.send 0 part) [
  | sent k ↦ if k == 0 then fail s [] else send_second t (read_to s 0) mem k (take k part)
  | system_buf_full ↦ wait_for_room t s 0 []
  | send_failed ↦ fail s []
]
  where
    r : ℕ
    r = s.send_data.read_index

    part : List ℕ
    part = take (get_max_item_count s.send_data - r) (drop r mem)

unfoldable pub send_data_in_fix_circle_send_buf : SendThread → Session → Bool → SendOutcome
unfolding send_straight send_wrapped
send_data_in_fix_circle_send_buf t s from_epoll_out_event =
    if get_current_exist_count s'.send_data == 0
    then done s' 0 []
    else if r == w
    then done s' 0 []
    else if int_lt r w
    then send_straight t s' (block s'.send_data)
    else send_wrapped t s' (block s'.send_data)
  where
    s' : Session
    s' = if from_epoll_out_event then record s { send_buf_is_full = 0 } else s

    r : ℕ
    r = s'.send_data.read_index

    w : ℕ
    w = s'.send_data.write_index
