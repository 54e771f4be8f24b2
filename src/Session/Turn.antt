-- ===== src/Session/Turn.antt =====
-- A turn of the send thread with a system that has room.
use linuxgameserver.Common.{
  ℕ, ◌<◌, ◌≡◌, Bool, true, false, some, List, [], length, length-take, length-drop, length-append,
  take_all, append-nil, arith,
}
use linuxgameserver.Common.Words.{int_lt}
use linuxgameserver.CircleBuf.{set_read_index}
use linuxgameserver.CircleBuf.Valid.{
  IsValid, block, contents, length-contents, get_current_exist_count-count,
}
use linuxgameserver.Session.{Session}
use linuxgameserver.Session.Send.{
  sent, SendThread, SendOutcome, send_straight, send_second, send_wrapped,
  send_data_in_fix_circle_send_buf,
}
use linuxgameserver.Session.Flow.{
  straight_part, first_part, second_part, get_max_item_count_lem, first_part-eq-drop,
}

-- The system takes every block.
pub record IsTaking (t : SendThread) : Type 0 where
  pub takes : (n : ℕ) (block : List ℕ) → t.send n block ≡ sent (length block)

-- All that waited goes on the wire.
abbrev pub SentAll : SendOutcome → List ℕ → Type 0
SentAll o bytes =
    (o.result ≡ some (length bytes)) × (o.wire ≡ bytes) × (contents o.session.send_data ≡ [])

module _ (t : SendThread) (h : IsTaking t) (s : Session) (v : IsValid s.send_data) where
  straight-SentAll :
      s.send_data.read_index < s.send_data.write_index
      → SentAll (send_straight t s (block s.send_data)) (contents s.send_data)
  unfolding send_straight set_read_index
  straight-SentAll l = ground (
    arith,
    h.takes 0 (straight_part t s),
    take_all (length (straight_part t s)) (straight_part t s),
    length-contents v,
  )

  wrapped-SentAll :
      s.send_data.write_index < s.send_data.read_index
      → SentAll (send_wrapped t s (block s.send_data)) (contents s.send_data)
  unfolding send_wrapped send_second set_read_index
  wrapped-SentAll l = ground (
    arith,
    h.takes 0 (first_part t s),
    h.takes 1 (second_part t s),
    get_max_item_count_lem t s v,
    first_part-eq-drop t s v,
    length-drop s.send_data.read_index (block s.send_data),
    length-take s.send_data.write_index (block s.send_data),
    length-append (first_part t s) (second_part t s),
    take_all (length (first_part t s)) (first_part t s),
    take_all (length (second_part t s)) (second_part t s),
    append-nil (first_part t s),
  )

  send_unflagged-SentAll :
      SentAll (send_data_in_fix_circle_send_buf t s false) (contents s.send_data)
  unfolding send_data_in_fix_circle_send_buf int_lt
  send_unflagged-SentAll =
      ground (
        arith,
        straight-SentAll,
        wrapped-SentAll,
        get_current_exist_count-count v,
        length-contents v,
      )

-- A turn sends all that waits, and reports how much it was.
pub send_data-SentAll :
    (t : SendThread) (h : IsTaking t) (s : Session) (from_epoll_out_event : Bool)
    → IsValid s.send_data
    → SentAll (send_data_in_fix_circle_send_buf t s from_epoll_out_event) (contents s.send_data)
unfolding send_data_in_fix_circle_send_buf
send_data-SentAll t h s false v = send_unflagged-SentAll t h s v
send_data-SentAll t h s true v = send_unflagged-SentAll t h (record s { send_buf_is_full = 0 }) v
