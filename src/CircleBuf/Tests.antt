-- ===== src/CircleBuf/Tests.antt =====
-- Runs of the circular buffer on small inputs, and its theorems at them.
use linuxgameserver.Common.{
  ℕ, zero, suc, ap, ◌≡◌, refl, true, none, some, List, [], ◌∷◌, length, arith,
}
use linuxgameserver.Common.Words.{
  size_of_int, int_of_size, size_add, size_sub, int_add, int_sub, int_lt, int_le,
}
use linuxgameserver.CircleBuf.{
  no_error, can_not_contain_data, is_empty, FixLenCircleBuf, add_items, get_one_item, request_items,
  copy_all_items_to_other_fix_len_circle_buf, free_item_count, current_item_count, store, add_block,
  next_read_index,
}
use linuxgameserver.CircleBuf.Valid.{IsValid, contents}
use linuxgameserver.CircleBuf.Refine.{add_items_refines, add_items-IsValid, get_one_item_refines}
use linuxgameserver.CircleBuf.Transfer.{Moved, request_items-Moved}
use linuxgameserver.CircleBuf.Copy.{copy_all_items-Moved}
use linuxgameserver.CircleBuf.Run.{run, run_refines}
use linuxgameserver.CircleBuf.Queue
use linuxgameserver.CircleBuf.Queue.{Call, adds, gets}

-- Four places with 12, 13 and 10, which goes round the end.
abbrev around : FixLenCircleBuf ℕ
around = record {
  read_index = 2;
  write_index = 1;
  item_size = 1;
  buf = some (10 ∷ 11 ∷ 12 ∷ 13 ∷ []);
  max_item_count = 4;
}

abbrev vacant : FixLenCircleBuf ℕ
vacant = record {
  read_index = 5;
  write_index = 5;
  item_size = 1;
  buf = some (0 ∷ 0 ∷ 0 ∷ 0 ∷ 0 ∷ 0 ∷ []);
  max_item_count = 6;
}

around-IsValid : IsValid around
around-IsValid = record {
  allocated = refl;
  full_size = refl;
  small = omega arith;
  read_in = omega arith;
  write_in = omega arith;
}

vacant-IsValid : IsValid vacant
vacant-IsValid = record {
  allocated = refl;
  full_size = refl;
  small = omega arith;
  read_in = omega arith;
  write_in = omega arith;
}

contents-around : contents around ≡ 12 ∷ 13 ∷ 10 ∷ []
contents-around = refl

abbrev script : List (Call ℕ)
script = adds (7 ∷ []) ∷ gets ∷ adds (7 ∷ []) ∷ gets ∷ gets ∷ gets ∷ gets ∷ []

run-around :
    run around script
    ≡ (can_not_contain_data, none)
      ∷ (no_error, some 12)
      ∷ (no_error, none)
      ∷ (no_error, some 13)
      ∷ (no_error, some 10)
      ∷ (no_error, some 7)
      ∷ (is_empty, none)
      ∷ []
unfolding run add_items get_one_item free_item_count current_item_count store add_block
    next_read_index size_of_int int_of_size size_add size_sub int_add int_sub int_lt int_le
run-around = refl

run_refines_example : run around script ≡ Queue.run 3 (12 ∷ 13 ∷ 10 ∷ []) script
run_refines_example = run_refines script around-IsValid

add_items_refines_example :
    let (e, b') = add_items vacant (some (1 ∷ 2 ∷ 3 ∷ [])) 2 in
    (e, contents b') ≡ Queue.add 5 [] (1 ∷ 2 ∷ [])
add_items_refines_example = add_items_refines (1 ∷ 2 ∷ 3 ∷ []) 2 vacant-IsValid (omega arith)

add_items-IsValid_example : IsValid (add_items vacant (some (1 ∷ 2 ∷ 3 ∷ [])) 3).1
add_items-IsValid_example = add_items-IsValid (1 ∷ 2 ∷ 3 ∷ []) 3 vacant-IsValid

get_one_item_refines_example :
    let (e, out, b') = get_one_item around true 8 in
    (e, out, contents b') ≡ Queue.get (12 ∷ 13 ∷ 10 ∷ [])
get_one_item_refines_example = get_one_item_refines 8 around-IsValid (omega arith)

request_items-Moved_example :
    let (k, b', dest) = request_items around (some vacant) 3 in
    (d' : FixLenCircleBuf ℕ) × (dest ≡ some d') × Moved around vacant k b' d' × (k ≡ 2)
request_items-Moved_example = request_items-Moved around-IsValid vacant-IsValid 3

copy_all_items-Moved_example :
    let (all, b', dest) = copy_all_items_to_other_fix_len_circle_buf around (some vacant) in
    (d' : FixLenCircleBuf ℕ) × (dest ≡ some d') × (k : ℕ) × Moved around vacant k b' d'
copy_all_items-Moved_example = copy_all_items-Moved around-IsValid vacant-IsValid

abbrev zeros : ℕ → List ℕ
zeros = elim [ zero ↦ [] | suc (n → ih) ↦ 0 ∷ ih ]

abbrev blank : FixLenCircleBuf ℕ
blank = record { read_index = 0; write_index = 0; item_size = 0; buf = none; max_item_count = 0 }

length-zeros : (k : ℕ) → length (zeros k) ≡ k
length-zeros zero = refl
length-zeros (suc k) = ap suc (length-zeros k)

zeros_len : (k : ℕ) (mem : List ℕ) → some (zeros k) ≡ some mem → length mem ≡ k
zeros_len k mem e = ground (arith, e, length-zeros k)
