-- ===== src/Session/Tests.antt =====
-- Runs of a session on small inputs, and its theorems at them.
use linuxgameserver.Common.{
  ℕ, ◌+◌, ◌≡◌, refl, sym, ap, subst, ◌∙◌, true, false, some, List, [], ◌∷◌, ◌++◌, length, arith,
}
use linuxgameserver.CircleBuf.{FixLenCircleBuf}
use linuxgameserver.CircleBuf.Valid.{IsValid}
use linuxgameserver.Session.{
  Session, RecvThread, recved, zeros, length-zeros, content_size, recv_data,
}
use linuxgameserver.Session.Frames.{pending, decode, encode}
use linuxgameserver.Session.Held.{IsOpen, IsServing, Matches, held, length-held}
use linuxgameserver.Session.Recv.{recv_data-Matches}
use linuxgameserver.Session.Chunks.{decode-append}
use linuxgameserver.Session.Packets.{encode_all, decode-encode_all}
use linuxgameserver.Session.Send.{SendThread, sent, send_data_in_fix_circle_send_buf}
use linuxgameserver.Session.Flow.{IsWhole, accounted, send_data-accounted}
use linuxgameserver.Session.Row.{
  SendCall, waiting, send_data_partial, appends, sends, run_sends, run_sends-accounted,
}
use linuxgameserver.Session.Turn.{IsTaking, SentAll, send_data-SentAll}

-- 12, 13 and 10, which go round the end of four places.
abbrev around : FixLenCircleBuf ℕ
around = record {
  read_index = 2;
  write_index = 1;
  item_size = 1;
  buf = some (10 ∷ 11 ∷ 12 ∷ 13 ∷ []);
  max_item_count = 4;
}

around-IsValid : IsValid around
around-IsValid = record {
  allocated = refl;
  full_size = refl;
  small = omega arith;
  read_in = omega arith;
  write_in = omega arith;
}

abbrev with_buf : FixLenCircleBuf ℕ → Session
with_buf b = record {
  session_id = 1;
  recv_thread_id = 0;
  send_thread_id = 0;
  epoll_thread_id = 0;
  recved_content = zeros content_size;
  current_content_len = 0;
  can_send = true;
  last_recv_time = 0;
  last_send_time = 0;
  send_data = b;
  send_buf_is_full = 0;
  send_thread_stop = 0;
  recv_thread_stop = 0;
  main_logic_thread_stop = 0;
  epoll_thread_stop = 0;
  close_work_sended = 0;
}

abbrev fresh : Session
fresh = with_buf around

fresh-IsOpen : IsOpen fresh
fresh-IsOpen = record {
  whole = length-zeros content_size;
  inside = omega arith;
  not_closing = refl;
}

abbrev serving : RecvThread
serving = record {
  get_one_free_packet = λ n len. true;
  add_packet_to_local = λ n. true;
  add_to_epoll_wait_thread = true;
  now = 7;
}

serving-IsServing : IsServing serving
serving-IsServing = record { gives = λ n len. refl; takes = λ n. refl; watches = refl }

-- A packet with the payload 65, and the first byte of the next one.
abbrev four_bytes : List ℕ
four_bytes = 3 ∷ 0 ∷ 65 ∷ 4 ∷ []

recv_data-Matches_example :
    Matches
      (recv_data serving fresh (recved four_bytes))
      (decode (0 + length four_bytes) [] (held fresh ++ four_bytes))
recv_data-Matches_example =
    recv_data-Matches serving-IsServing {s = fresh} four_bytes fresh-IsOpen (λ e. cc) (omega arith)
      (omega arith)

four_bytes-decode : decode 4 [] four_bytes ≡ pending ((65 ∷ []) ∷ []) (4 ∷ [])
unfolding decode
four_bytes-decode = refl

decode-append_example :
    decode 6 [] (four_bytes ++ (0 ∷ 1 ∷ [])) ≡ decode 3 ((65 ∷ []) ∷ []) ((4 ∷ []) ++ (0 ∷ 1 ∷ []))
decode-append_example =
    decode-append 4 6 3 [] ((65 ∷ []) ∷ []) four_bytes (0 ∷ 1 ∷ []) (4 ∷ []) (omega arith)
      (omega arith) (omega arith) four_bytes-decode

abbrev two_packets : List (List ℕ)
two_packets = (65 ∷ []) ∷ (1 ∷ 2 ∷ []) ∷ []

decode-encode_all_example : decode 7 [] (encode_all two_packets) ≡ pending two_packets []
unfolding encode
decode-encode_all_example =
    decode-encode_all 7 two_packets [] (omega arith, (omega arith, tt)) (omega arith)

-- The byte of the second packet that the first call leaves.
left_over : (recv_data serving fresh (recved four_bytes)).session.current_content_len ≡ 1
left_over =
    let (p, r, w, c, o) : Matches (recv_data serving fresh (recved four_bytes))
        (pending ((65 ∷ []) ∷ []) (4 ∷ [])) =
      subst (Matches (recv_data serving fresh (recved four_bytes))) four_bytes-decode
        recv_data-Matches_example in
    sym (length-held o) ∙ ap length r

-- A system that takes every block.
abbrev roomy : SendThread
roomy = record {
  send = λ n block. sent (length block);
  has_epoll_thread = λ id. true;
  epoll_ctl = true;
}

roomy-IsTaking : IsTaking roomy
roomy-IsTaking = record { takes = λ n block. refl }

roomy-IsWhole : IsWhole roomy
roomy-IsWhole = record { whole = λ n k block e. cc }

send_data-accounted_example :
    accounted (send_data_in_fix_circle_send_buf roomy fresh true) ≡ 12 ∷ 13 ∷ 10 ∷ []
send_data-accounted_example = send_data-accounted roomy roomy-IsWhole fresh true around-IsValid

send_data-SentAll_example :
    SentAll (send_data_in_fix_circle_send_buf roomy fresh true) (12 ∷ 13 ∷ 10 ∷ [])
send_data-SentAll_example = send_data-SentAll roomy roomy-IsTaking fresh true around-IsValid

abbrev calls : List SendCall
calls = sends roomy true ∷ appends (5 ∷ 6 ∷ []) ∷ sends roomy false ∷ []

run_sends-accounted_example :
    let (accepted, wire, last) = run_sends fresh calls in
    wire ++ waiting last ≡ (12 ∷ 13 ∷ 10 ∷ []) ++ accepted
run_sends-accounted_example =
    run_sends-accounted calls fresh around-IsValid (roomy-IsWhole, (roomy-IsWhole, tt))

abbrev straight : Session
straight = with_buf (record around { read_index = 0; write_index = 2 })

straight-IsValid : IsValid straight.send_data
straight-IsValid = record {
  allocated = refl;
  full_size = refl;
  small = omega arith;
  read_in = omega arith;
  write_in = omega arith;
}

-- A system that takes one byte of each block.
abbrev slow : SendThread
slow = record { send = λ n block. sent 1; has_epoll_thread = λ id. true; epoll_ctl = true }

send_data_partial_example :
    let o = send_data_in_fix_circle_send_buf slow straight false in
    (o.result ≡ some 1) × (o.wire ≡ 10 ∷ []) × (waiting o.session ≡ [])
send_data_partial_example =
    send_data_partial straight straight-IsValid slow 1 (omega arith) (omega arith) refl
