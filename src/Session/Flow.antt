-- ===== src/Session/Flow.antt =====
-- What happens to the bytes that wait in the send buffer of a session.
use linuxgameserver.Common.{
  ℕ, ◌-◌, ◌<◌, ◌≡◌, ◌≢◌, refl, sym, ap, ap₂, ◌∙◌, ◌⊎◌, inl, inr, Bool, true, false, Bool-cases,
  List, [], ◌++◌, ◌==◌, eqb→ne, length, take, drop, length-drop, take_all, append-nil, arith,
}
use linuxgameserver.Common.Words.{int_lt, int_of_size}
use linuxgameserver.CircleBuf.{set_read_index, get_max_item_count}
use linuxgameserver.CircleBuf.Valid.{IsValid, block, contents}
use linuxgameserver.Session.{Session}
use linuxgameserver.Session.Send.{
  SendResult, sent, system_buf_full, send_failed, SendThread, SendOutcome, wait_for_room, read_to,
  send_straight, send_second, send_wrapped, send_data_in_fix_circle_send_buf,
}

-- The system takes a block whole, or not at all.
pub record IsWhole (t : SendThread) : Type 0 where
  pub whole : (n k : ℕ) (block : List ℕ) → t.send n block ≡ sent k → k ≡ length block

pub SendResult-cases :
    (r : SendResult) → ((k : ℕ) × (r ≡ sent k)) ⊎ (r ≡ system_buf_full) ⊎ (r ≡ send_failed)
SendResult-cases (sent k) = inl (k, refl)
SendResult-cases system_buf_full = inr (inl refl)
SendResult-cases send_failed = inr (inr refl)

-- The bytes that an outcome accounts for: those on the wire and those that still wait.
abbrev pub accounted : SendOutcome → List ℕ
accounted o = o.wire ++ contents o.session.send_data

module _ (t : SendThread) (s : Session) where
  abbrev pub straight_part : List ℕ
  straight_part =
      take (s.send_data.write_index - s.send_data.read_index)
        (drop s.send_data.read_index (block s.send_data))

  abbrev pub first_part : List ℕ
  first_part =
      take (get_max_item_count s.send_data - s.send_data.read_index)
        (drop s.send_data.read_index (block s.send_data))

  abbrev pub second_part : List ℕ
  second_part = take s.send_data.write_index (block s.send_data)

  wait_for_room-accounted :
      (n : ℕ) (wire : List ℕ) → accounted (wait_for_room t s n wire) ≡ wire ++ contents s.send_data
  unfolding wait_for_room
  wait_for_room-accounted n wire = ground arith

  module _ (h : IsWhole t) (v : IsValid s.send_data) where
    send_straight-accounted :
        s.send_data.read_index < s.send_data.write_index
        → accounted (send_straight t s (block s.send_data)) ≡ contents s.send_data
    unfolding send_straight set_read_index
    send_straight-accounted l = elim (SendResult-cases (t.send 0 straight_part)) [
      | inl (k, e) ↦
          ground
            (arith, h.whole 0 k straight_part e, append-nil straight_part, take_all k straight_part)
      | inr (inl e) ↦ ground (arith, wait_for_room-accounted 0 [])
      | inr (inr e) ↦ ground arith
    ]

    send_second-accounted :
        (n : ℕ) (wire : List ℕ)
        → s.send_data.read_index ≡ 0
        → accounted (send_second t s (block s.send_data) n wire) ≡ wire ++ contents s.send_data
    unfolding send_second set_read_index
    send_second-accounted n wire z = elim (Bool-cases (s.send_data.write_index == 0)) [
      | inl b ↦ ground arith
      | inr b ↦ elim (SendResult-cases (t.send 1 second_part)) [
        | inl (k, e) ↦ ground (
          arith,
          h.whole 1 k second_part e,
          append-nil (wire ++ second_part),
          take_all k second_part,
        )
        | inr (inl e) ↦ rw (b, e) (wait_for_room-accounted n wire)
        | inr (inr e) ↦ ground arith
      ]
    ]

module _ (t : SendThread) (s : Session) (v : IsValid s.send_data) where
  pub get_max_item_count_lem : get_max_item_count s.send_data ≡ s.send_data.max_item_count
  unfolding get_max_item_count int_of_size
  get_max_item_count_lem = omega (arith, v.small)

  pub first_part-eq-drop : first_part t s ≡ drop s.send_data.read_index (block s.send_data)
  first_part-eq-drop =
      take_all (get_max_item_count s.send_data - s.send_data.read_index)
        (drop s.send_data.read_index (block s.send_data))
        (omega (
          arith,
          get_max_item_count_lem,
          length-drop s.send_data.read_index (block s.send_data),
          v.full_size,
        ))

  pub contents-read_to : contents (read_to s 0).send_data ≡ second_part t s
  unfolding set_read_index
  contents-read_to = ground arith

  pub contents_wrapped :
      s.send_data.write_index < s.send_data.read_index
      → contents s.send_data ≡ first_part t s ++ second_part t s
  contents_wrapped l = rw first_part-eq-drop (ground arith)

module _ (t : SendThread) (s : Session) (h : IsWhole t) (v : IsValid s.send_data) where
  read_to-IsValid : (i : ℕ) → i < s.send_data.max_item_count → IsValid (read_to s i).send_data
  unfolding set_read_index
  read_to-IsValid i l = record {
    allocated = v.allocated;
    full_size = v.full_size;
    small = v.small;
    read_in = l;
    write_in = v.write_in;
  }

  send_wrapped_first :
      (k : ℕ)
      → t.send 0 (first_part t s) ≡ sent k
      → k ≢ 0
      → send_wrapped t s (block s.send_data)
        ≡ send_second t (read_to s 0) (block s.send_data) k (take k (first_part t s))
  unfolding send_wrapped
  send_wrapped_first k e ne = ground arith

  send_wrapped_second :
      (k : ℕ)
      → t.send 0 (first_part t s) ≡ sent k
      → k ≢ 0
      → s.send_data.write_index < s.send_data.read_index
      → accounted (send_wrapped t s (block s.send_data)) ≡ contents s.send_data
  unfolding set_read_index
  send_wrapped_second k e ne l =
      ap accounted (send_wrapped_first k e ne)
      ∙ send_second-accounted t (read_to s 0) h (read_to-IsValid 0 (omega (arith, v.write_in))) k
          (take k (first_part t s)) refl
      ∙ ap₂ (◌++◌) (take_all k (first_part t s) (omega (arith, h.whole 0 k (first_part t s) e)))
          (contents-read_to t s v)
      ∙ sym (contents_wrapped t s v l)

  send_wrapped-accounted :
      s.send_data.write_index < s.send_data.read_index
      → accounted (send_wrapped t s (block s.send_data)) ≡ contents s.send_data
  unfolding send_wrapped
  send_wrapped-accounted l = elim (SendResult-cases (t.send 0 (first_part t s))) [
    | inl (k, e) ↦ elim (Bool-cases (k == 0)) [
      | inl z ↦ ground arith
      | inr z ↦ send_wrapped_second k e (eqb→ne _ _ z) l
    ]
    | inr (inl e) ↦ ground (arith, wait_for_room-accounted t s 0 [])
    | inr (inr e) ↦ ground arith
  ]

module _ (t : SendThread) (h : IsWhole t) where
  send_unflagged-accounted :
      (s : Session)
      → IsValid s.send_data
      → accounted (send_data_in_fix_circle_send_buf t s false) ≡ contents s.send_data
  unfolding send_data_in_fix_circle_send_buf int_lt
  send_unflagged-accounted s v =
      ground (arith, send_straight-accounted t s h v, send_wrapped-accounted t s h v)

  -- Each byte that waited is on the wire or still waits, in the order in which they came.
  pub send_data-accounted :
      (s : Session) (from_epoll_out_event : Bool)
      → IsValid s.send_data
      → accounted (send_data_in_fix_circle_send_buf t s from_epoll_out_event) ≡ contents s.send_data
  unfolding send_data_in_fix_circle_send_buf
  send_data-accounted s false v = send_unflagged-accounted s v
  send_data-accounted s true v = send_unflagged-accounted (record s { send_buf_is_full = 0 }) v
