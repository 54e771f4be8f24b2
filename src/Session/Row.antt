-- ===== src/Session/Row.antt =====
-- Rows of calls of `AppendDataToSend` and `SendDataInFixCircleSendBuf` on one session.
use linuxgameserver.Common.{
  ℕ, ◌+◌, ◌<◌, ◌≡◌, sym, ap, ◌∙◌, subst, Bool, true, false, Option, none, some, List, [], ◌∷◌, ◌++◌,
  if◌then◌else◌, leb, ltb, ◌&&◌, length, take, take_all, append-nil, append_assoc, arith,
}
use linuxgameserver.Common.Words.{int_lt}
use linuxgameserver.CircleBuf.{FixLenCircleBuf, add_items, set_read_index}
use linuxgameserver.CircleBuf.Valid.{
  IsValid, contents, capacity, length-contents, get_current_exist_count-count,
}
use linuxgameserver.CircleBuf.Refine.{add_items_lem, add_items-IsValid}
use linuxgameserver.CircleBuf.Store.{store-contents}
use linuxgameserver.Session.{Session}
use linuxgameserver.Session.Send.{
  sent, SendThread, append_data_to_send, wait_for_room, send_straight, send_second, send_wrapped,
  send_data_in_fix_circle_send_buf,
}
use linuxgameserver.Session.Flow.{IsWhole, straight_part, send_data-accounted}

abbrev pub waiting : Session → List ℕ
waiting s = contents s.send_data

abbrev pub has_room : Session → List ℕ → Bool
has_room s packet =
    ltb (length (waiting s)) (capacity s.send_data)
    && leb (length (waiting s) + length packet) (capacity s.send_data)

module _ (s : Session) (v : IsValid s.send_data) where
  send_data-append :
      (packet : List ℕ)
      → (append_data_to_send s (some packet)).1.send_data
        ≡ (add_items s.send_data (some packet) (length packet)).1
  unfolding append_data_to_send
  send_data-append packet = ground arith

  append-IsValid : (packet : Option (List ℕ)) → IsValid (append_data_to_send s packet).1.send_data
  unfolding append_data_to_send
  append-IsValid none = v
  append-IsValid (some packet) =
      subst IsValid (sym (send_data-append packet)) (add_items-IsValid packet (length packet) v)

  -- A packet is taken whole where it has room, and is refused whole elsewhere.
  pub append_data_to_send_lem :
      (packet : List ℕ)
      → let (ok, s') = append_data_to_send s (some packet) in
        ◌≡◌ {A = Bool × List ℕ}
          (ok, waiting s')
          (if has_room s packet then (true, waiting s ++ packet) else (false, waiting s))
  unfolding append_data_to_send
  append_data_to_send_lem packet = ground (
    arith,
    add_items_lem packet (length packet) v,
    store-contents v packet (length packet),
    length-contents v,
    take_all (length packet) packet,
  )

  append-accounted :
      (packet accepted : List ℕ)
      → let (ok, s') = append_data_to_send s (some packet) in
        waiting s' ++ accepted ≡ waiting s ++ (if ok then packet ++ accepted else accepted)
  append-accounted packet accepted =
      subst
        (λ (x : Bool × List ℕ).
          x.1 ++ accepted ≡ waiting s ++ (if x.0 then packet ++ accepted else accepted))
        (sym (append_data_to_send_lem packet))
        (ground (arith, append_assoc (waiting s) packet accepted))

  module _ (t : SendThread) (flag : Bool) where
    abbrev left : FixLenCircleBuf ℕ
    left = (send_data_in_fix_circle_send_buf t s flag).session.send_data

    left_read : left.read_index < s.send_data.max_item_count
    unfolding send_data_in_fix_circle_send_buf send_straight send_wrapped send_second wait_for_room
        set_read_index
    left_read = ground (arith, v.read_in, v.write_in)

    left_same :
        (left.buf ≡ s.send_data.buf)
        × (left.max_item_count ≡ s.send_data.max_item_count)
        × (left.write_index ≡ s.send_data.write_index)
    unfolding send_data_in_fix_circle_send_buf send_straight send_wrapped send_second wait_for_room
        set_read_index
    left_same = ground arith

    send-IsValid : IsValid left
    send-IsValid =
        let (b, m, w) = left_same in
        record {
          allocated =
              b ∙ v.allocated ∙ ap (λ x. some (elim x [ none ↦ [] | some mem ↦ mem ])) (sym b);
          full_size =
              ap (λ x. length (elim x [ none ↦ [] | some mem ↦ mem ])) b ∙ v.full_size ∙ sym m;
          small = omega (arith, m, v.small);
          read_in = omega (arith, m, left_read);
          write_in = omega (arith, m, w, v.write_in);
        }

  -- A part of the data that the system took counts as all of it: the rest is lost.
  pub send_data_partial :
      (t : SendThread) (k : ℕ)
      → s.send_data.read_index < s.send_data.write_index
      → 0 < k
      → t.send 0 (straight_part t s) ≡ sent k
      → let o = send_data_in_fix_circle_send_buf t s false in
        (o.result ≡ some k) × (o.wire ≡ take k (waiting s)) × (waiting o.session ≡ [])
  unfolding send_data_in_fix_circle_send_buf send_straight int_lt set_read_index
  send_data_partial t k l p e = ground (arith, get_current_exist_count-count v)

-- A call: a packet to append, or a turn of the send thread, from an epoll event or not.
pub data SendCall : Type 0 where
  appends : List ℕ → SendCall
  sends : SendThread → Bool → SendCall

-- The bytes of the packets that were accepted, those that came on the wire, and the session behind
-- a row of calls.
abbrev pub run_sends : Session → List SendCall → List ℕ × List ℕ × Session
run_sends s [] = ([], [], s)
run_sends s (appends packet ∷ calls) =
    let (ok, s') = append_data_to_send s (some packet) in
    let (accepted, wire, last) = run_sends s' calls in
    (if ok then packet ++ accepted else accepted, wire, last)
run_sends s (sends t flag ∷ calls) =
    let o = send_data_in_fix_circle_send_buf t s flag in
    let (accepted, wire, last) = run_sends o.session calls in (accepted, o.wire ++ wire, last)

-- In each turn the system takes blocks whole or not at all.
abbrev pub AllWhole : List SendCall → Type 0
AllWhole [] = Unit
AllWhole (appends packet ∷ calls) = AllWhole calls
AllWhole (sends t flag ∷ calls) = IsWhole t × AllWhole calls

-- The packets that were accepted go out whole, in their order, with nothing lost and nothing twice.
pub run_sends-accounted :
    (calls : List SendCall) (s : Session)
    → IsValid s.send_data
    → AllWhole calls
    → let (accepted, wire, last) = run_sends s calls in wire ++ waiting last ≡ waiting s ++ accepted
run_sends-accounted [] s v h = sym (append-nil (waiting s))
run_sends-accounted (appends packet ∷ calls) s v h =
    let ih =
      run_sends-accounted calls (append_data_to_send s (some packet)).1
        (append-IsValid s v (some packet)) h in
    ih ∙ append-accounted s v packet (run_sends (append_data_to_send s (some packet)).1 calls).0
run_sends-accounted (sends t flag ∷ calls) s v (w, h) =
    let o = send_data_in_fix_circle_send_buf t s flag in
    append_assoc o.wire _ _
    ∙ ap (◌++◌ o.wire) (run_sends-accounted calls o.session (send-IsValid s v t flag) h)
    ∙ sym (append_assoc o.wire (waiting o.session) _)
    ∙ ap (λ x. x ++ (run_sends o.session calls).0) (send_data-accounted t w s flag v)
