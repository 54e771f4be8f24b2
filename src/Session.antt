-- ===== src/Session.antt =====
-- NetWork/LSession.cpp and LSession.h, built with __USE_SESSION_BUF_TO_SEND_DATA__: one connection,
-- the bytes that it has received and those that wait to be sent.
-- `Recv`, `Send` and `epoll_ctl` belong to the system: what they return is an argument. What a
-- session asks of its receive thread (a free packet, a place in the thread's local queue) is the
-- interface `RecvThread`. The `memcpy` inside of the content moves its bytes as `memmove` would.
-- An outcome holds the new session and what was handed to the others.
pub mod Frames
pub mod Held
pub mod Recv
pub mod Chunks
pub mod Packets
pub mod Send
pub mod Flow
pub mod Row
pub mod Turn
mod Tests
use linuxgameserver.Common.{
  ℕ, zero, suc, ◌≡◌, refl, ap, ◌+◌, ◌-◌, ◌*◌, Bool, true, false, Option, none, some, List, [], ◌∷◌,
  ◌++◌, if◌then◌else◌, ltb, leb, ◌==◌, length, get_elem?, take, drop, write_at,
}
use linuxgameserver.Common.Words.{size_of_int, int_lt, int_sub, int_add}
use linuxgameserver.CircleBuf.{
  FixLenCircleBuf, CircleError, no_error, add_items, get_current_exist_count, set_read_index,
  get_max_item_count, clear_content,
}

pub record Session : Type 0 where
  pub session_id : ℕ
  pub recv_thread_id : ℕ
  pub send_thread_id : ℕ
  pub epoll_thread_id : ℕ
  pub recved_content : List ℕ
  pub current_content_len : ℕ
  pub can_send : Bool
  pub last_recv_time : ℕ
  pub last_send_time : ℕ
  pub send_data : FixLenCircleBuf ℕ
  pub send_buf_is_full : ℕ
  pub send_thread_stop : ℕ
  pub recv_thread_stop : ℕ
  pub main_logic_thread_stop : ℕ
  pub epoll_thread_stop : ℕ
  pub close_work_sended : ℕ

-- `MAX_PACKET_SIZE`, and the size of `m_szRecvedContent`.
abbrev pub max_packet_size : ℕ
max_packet_size = 8192

abbrev pub content_size : ℕ
content_size = 8196

-- The `int` -1.
abbrev pub minus_one : ℕ
minus_one = 4294967295

abbrev pub zeros : ℕ → List ℕ
zeros zero = []
zeros (suc n) = 0 ∷ zeros n

pub length-zeros : (n : ℕ) → length (zeros n) ≡ n
length-zeros zero = refl
length-zeros (suc n) = ap suc (length-zeros n)

pub reset_recv : Session → Session
reset_recv s = record s { recved_content = zeros content_size; current_content_len = 0 }

pub reset : Session → Session
unfolding reset_recv
reset s = record (reset_recv s) {
  session_id = 0;
  recv_thread_id = minus_one;
  send_thread_id = minus_one;
  epoll_thread_id = minus_one;
  can_send = true;
  last_recv_time = 0;
  last_send_time = 0;
  send_data = clear_content s.send_data;
  send_buf_is_full = 0;
  send_thread_stop = 0;
  recv_thread_stop = 0;
  main_logic_thread_stop = 0;
  epoll_thread_stop = 0;
  close_work_sended = 0;
}

-- What `Recv` returns: `E_Socket_No_Recv_Data`, another value that is not positive, or bytes.
-- No bytes are the value 0.
pub data RecvResult : Type 0 where
  no_recv_data recv_failed : RecvResult
  recved : List ℕ → RecvResult

-- The answers to the n-th packet of a call: `GetOneFreePacket` for a length, `AddPacketToLocal`,
-- and that of `AddToEpollWaitThread`; `now` is what `UpdateLastRecvTime` stores.
pub record RecvThread : Type 0 where
  pub get_one_free_packet : ℕ → ℕ → Bool
  pub add_packet_to_local : ℕ → Bool
  pub add_to_epoll_wait_thread : Bool
  pub now : ℕ

-- `packets` are the payloads behind the length word, `close_appended` says whether the session went
-- to the close thread, `waiting` whether epoll watches the socket again.
pub record RecvOutcome : Type 0 where
  pub session : Session
  pub packets : List (List ℕ)
  pub close_appended : Bool
  pub waiting : Bool

-- The work for the close thread is sent once.
pub append_to_close : Session → List (List ℕ) → RecvOutcome
append_to_close s packets =
    if s.close_work_sended == 0
    then record {
      session = record s { close_work_sended = 1 };
      packets = packets;
      close_appended = true;
      waiting = false;
    }
    else record { session = s; packets = packets; close_appended = false; waiting = false }

-- The end of a call that keeps the connection.
pub wait_again : RecvThread → Session → List (List ℕ) → RecvOutcome
unfolding append_to_close
wait_again t s packets =
    if t.add_to_epoll_wait_thread
    then record { session = s; packets = packets; close_appended = false; waiting = true }
    else append_to_close s packets

-- The little-endian word at the start of a block.
abbrev pub packet_len : List ℕ → ℕ
packet_len (a ∷ (b ∷ _)) = a + 256 * b
packet_len _ = 0

-- One packet has been handed over: its bytes leave the front of the content.
pub consume : RecvThread → Session → ℕ → Session
consume t s len = record s {
  recved_content = write_at s.recved_content 0 (take rest (drop len s.recved_content));
  current_content_len = rest;
  last_recv_time = t.now;
}
  where
    rest : ℕ
    rest = s.current_content_len - len

-- The loop of `RecvData` over the packets in the content, `n` of which are done. The fuel is the
-- number of the bytes: each packet takes two at least.
pub recv_loop : ℕ → RecvThread → Session → List (List ℕ) → ℕ → RecvOutcome
unfolding append_to_close wait_again consume
recv_loop zero t s packets n = wait_again t s packets
recv_loop (suc fuel) t s packets n =
    let len = packet_len s.recved_content in
    let s' = consume t s len in
    let packets' = packets ++ (take (len - 2) (drop 2 s.recved_content) ∷ []) in
    let next = packet_len s'.recved_content in
    let again = recv_loop fuel t s' packets' (suc n) in
    if leb len s.current_content_len
    then if t.get_one_free_packet n len
      then if t.add_packet_to_local n
        then if ltb s'.current_content_len 2
          then wait_again t s' packets'
          else if ltb max_packet_size next
          then append_to_close s' packets'
          else if ltb next 2
          then append_to_close s' packets'
          else again
        else append_to_close (record s { last_recv_time = t.now }) packets
      else append_to_close s packets
    else wait_again t s packets

pub recv_data : RecvThread → Session → RecvResult → RecvOutcome
unfolding recv_loop
recv_data t s no_recv_data = wait_again t s []
recv_data t s recv_failed = append_to_close s []
recv_data t s (recved bytes) =
    let s' : Session = record s {
      recved_content = write_at s.recved_content s.current_content_len bytes;
      current_content_len = s.current_content_len + length bytes;
    } in
    let len = packet_len s'.recved_content in
    if length bytes == 0
    then append_to_close s []
    else if ltb s'.current_content_len 2
    then record { session = s'; packets = []; close_appended = false; waiting = false }
    else if ltb max_packet_size len
    then append_to_close s' []
    else if ltb len 2
    then append_to_close s' []
    else recv_loop s'.current_content_len t s' [] 0
