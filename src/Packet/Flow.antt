-- ===== src/Packet/Flow.antt =====
-- `AddData` and `GetData` as the two ends of a queue of bytes.
use linuxgameserver.Common.{
  ℕ, ◌+◌, ◌-◌, ◌^◌, ◌≤◌, ◌<◌, ◌≡◌, refl, sym, ap, ◌∙◌, subst, some, List, ◌++◌, length, take, drop,
  drop-take, drop-drop, take-take, arith,
}
use linuxgameserver.Packet.{
  PacketBase, data_too_long, data_not_enough, append_at, set_error_code, add_data, get_data,
}
use linuxgameserver.Packet.Region.{
  block, data_len, IsWhole, unread, payload, length-unread, length-append_at,
  current_data_len-append_at, data_from-append_at,
}

-- `p'` is `p` with the bytes `bs` behind its data.
pub record Added (p : PacketBase) (bs : List ℕ) (p' : PacketBase) : Type 0 where
  pub sound : IsWhole p'
  pub behind : unread p' ≡ unread p ++ bs
  pub paid : payload p' ≡ payload p ++ bs
  pub grown : data_len p' ≡ data_len p + length bs
  pub same_error : p'.error_code ≡ p.error_code
  pub same_size : p'.packet_buf_len ≡ p.packet_buf_len
  pub same_pos : p'.current_read_pos ≡ p.current_read_pos

-- `p'` is `p` with `n` bytes read.
pub record Taken (p : PacketBase) (n : ℕ) (p' : PacketBase) : Type 0 where
  pub sound : IsWhole p'
  pub rest : unread p' ≡ drop n (unread p)
  pub same_error : p'.error_code ≡ p.error_code

module _ (p : PacketBase) (w : IsWhole p) where
  add_data_lem :
      (bs : List ℕ)
      → length bs < 8192
      → data_len p + length bs ≤ p.packet_buf_len
      → add_data p (some bs) ≡ record p { data_buf = some (append_at (block p) bs) }
  unfolding add_data
  add_data_lem bs h k = ground (arith, w.held)

  pub add_data-Added :
      (bs : List ℕ)
      → length bs < 8192
      → data_len p + length bs ≤ p.packet_buf_len
      → Added p bs (add_data p (some bs))
  add_data-Added bs h k =
      let two = w.two in
      let two' : 2 ≤ length (block p) = omega (arith, w.full, w.len_in, w.pos_in, w.two) in
      let small : length (block p) < 2 ^ 16 = omega (arith, w.full, w.small) in
      let room : data_len p + length bs ≤ length (block p) = omega (arith, w.full, k) in
      subst (Added p bs) (sym (add_data_lem bs h k)) (record {
        sound = record {
          held = refl;
          full = length-append_at (block p) bs two' small room ∙ w.full;
          small = w.small;
          len_in = omega (arith, current_data_len-append_at (block p) bs two' small room, k);
          pos_in = omega (arith, current_data_len-append_at (block p) bs two' small room, w.pos_in);
          two = w.two;
        };
        behind = data_from-append_at (block p) bs two' small room p.current_read_pos w.two w.pos_in;
        paid =
            data_from-append_at (block p) bs two' small room 2 (omega arith)
              (omega (arith, w.two, w.pos_in));
        grown = current_data_len-append_at (block p) bs two' small room;
        same_error = refl;
        same_size = refl;
        same_pos = refl;
      })

  -- What has no room is refused whole.
  pub add_data_full :
      (bs : List ℕ)
      → p.packet_buf_len < data_len p + length bs
      → add_data p (some bs) ≡ set_error_code p data_too_long
  unfolding add_data
  add_data_full bs h = ground (arith, w.held)

  get_data_lem :
      (old : List ℕ) (n : ℕ)
      → n ≤ length (unread p)
      → n < 10240
      → get_data p (some old) n
        ≡ (some (take n (unread p)), record p { current_read_pos = p.current_read_pos + n })
  unfolding get_data
  get_data_lem old n h k = ground (
    arith,
    w.held,
    length-unread p w,
    drop-take p.current_read_pos (data_len p) (block p),
    take-take n (data_len p - p.current_read_pos) (drop p.current_read_pos (block p)),
  )

  pub get_data_short :
      (old : List ℕ) (n : ℕ)
      → length (unread p) < n
      → n < 10240
      → get_data p (some old) n ≡ (some old, set_error_code p data_not_enough)
  unfolding get_data
  get_data_short old n h k = ground (arith, w.held, length-unread p w)

  pub get_data-Taken :
      (old : List ℕ) (n : ℕ)
      → n ≤ length (unread p)
      → n < 10240
      → ((get_data p (some old) n).0 ≡ some (take n (unread p)))
        × Taken p n (get_data p (some old) n).1
  get_data-Taken old n h k = (
    ap (λ x. x.0) (get_data_lem old n h k),
    subst (Taken p n) (sym (ap (λ x. x.1) (get_data_lem old n h k))) (record {
      sound = record {
        held = w.held;
        full = w.full;
        small = w.small;
        len_in = w.len_in;
        pos_in = omega (arith, h, length-unread p w, w.pos_in);
        two = omega (arith, w.two);
      };
      rest = sym (drop-drop n p.current_read_pos (take (data_len p) (block p)));
      same_error = refl;
    }),
  )
