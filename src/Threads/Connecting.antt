-- ===== src/Threads/Connecting.antt =====
-- NetWork/LNetWorkServices.cpp: a socket that is connected gets a session and its threads.
use linuxgameserver.Common.{ℕ, Bool, true, false, Option, none, some, if◌then◌else◌}
use linuxgameserver.Common.Words.{int_le}
use linuxgameserver.SessionManager.{alloc_session}
use linuxgameserver.Threads.{
  NetWorkServices, bind_recv_thread, bind_send_thread, bind_epoll_thread, unbind_recv_thread,
  unbind_send_thread, reset_session, give_back, unbind_all, report,
}

-- `packet` is the packet of the accept thread that reports the connection, and `watched` the result
-- of `epoll_ctl`.
unfoldable pub watch : NetWorkServices → ℕ → Bool → Bool × NetWorkServices
watch s p true = (true, s)
watch s p false = (false, give_back (unbind_all (report s p none).1 p) p)

unfoldable pub announce : NetWorkServices → ℕ → Option ℕ → Bool → Bool × NetWorkServices
announce s p packet watched =
    let (ok, n) = report s p packet in
    if ok then watch n p watched else (false, give_back (unbind_all n p) p)

unfoldable pub bind_third : NetWorkServices → ℕ → Option ℕ → Bool → Bool × NetWorkServices
bind_third s p packet watched =
    let (ok, n) = bind_epoll_thread s p in
    if ok
    then announce n p packet watched
    else (false, give_back (unbind_recv_thread (unbind_send_thread n p) p) p)

unfoldable pub bind_second : NetWorkServices → ℕ → Option ℕ → Bool → Bool × NetWorkServices
bind_second s p packet watched =
    let (ok, n) = bind_send_thread s p in
    if ok then bind_third n p packet watched else (false, give_back (unbind_recv_thread n p) p)

unfoldable pub bind_first : NetWorkServices → ℕ → Option ℕ → Bool → Bool × NetWorkServices
bind_first s p packet watched =
    let (ok, n) = bind_recv_thread s p in
    if ok then bind_second n p packet watched else (false, give_back n p)

-- The null socket and the negative ones are refused; a session that cannot be bound, announced or
-- watched is freed, and its object stays outside the pool.
unfoldable pub add_connected_socket : NetWorkServices → ℕ → Option ℕ → Bool → Bool × NetWorkServices
add_connected_socket s socket packet watched =
    let (o, m) = alloc_session s.sessions in
    if int_le socket 0 then (false, s) else (elim o [
      | none ↦ (false, s)
      | some p ↦ bind_first (reset_session (record s { sessions = m }) p) p packet watched
    ])
