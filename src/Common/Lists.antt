-- ===== src/Common/Lists.antt =====
-- Blocks of memory as lists with native indices.
use Prim.Native.Nat.{ℕ, zero, suc, ◌+◌, ◌-◌, ◌≤◌, ◌<◌}
use mathlib.Core.Path.{◌≡◌, refl, sym, ap, ◌∙◌}
use mathlib.Core.Logic.{◌≢◌}
use mathlib.Core.List.{List, [], ◌∷◌, ◌++◌, append-nil}
use mathlib.Core.Option.{Option, none, some}
use native.Mathlib.Omega.{arith}

module _ {ℓ} {A : Type ℓ} where
  abbrev pub length : List A → ℕ
  length [] = 0
  length (_ ∷ xs) = suc (length xs)

  abbrev pub get_elem? : List A → ℕ → Option A
  get_elem? [] _ = none
  get_elem? (x ∷ _) zero = some x
  get_elem? (_ ∷ xs) (suc i) = get_elem? xs i

  abbrev pub take : ℕ → List A → List A
  take zero _ = []
  take (suc n) [] = []
  take (suc n) (x ∷ xs) = x ∷ take n xs

  abbrev pub drop : ℕ → List A → List A
  drop zero xs = xs
  drop (suc n) [] = []
  drop (suc n) (_ ∷ xs) = drop n xs

  -- `memcpy` of `ys` to the place `i` of a block. What would fall outside of the block is dropped;
  -- the theorems on bounds show where nothing does.
  abbrev pub write_at : List A → ℕ → List A → List A
  write_at xs i [] = xs
  write_at [] i (y ∷ ys) = []
  write_at (x ∷ xs) zero (y ∷ ys) = y ∷ write_at xs zero ys
  write_at (x ∷ xs) (suc i) (y ∷ ys) = x ∷ write_at xs i (y ∷ ys)

  pub length-append : (xs ys : List A) → length (xs ++ ys) ≡ length xs + length ys
  length-append [] ys = omega arith
  length-append (x ∷ xs) ys = omega (arith, length-append xs ys)

  pub length-take : (n : ℕ) (xs : List A) → n ≤ length xs → length (take n xs) ≡ n
  length-take zero xs h = refl
  length-take (suc n) [] h = absurd (omega arith)
  length-take (suc n) (x ∷ xs) h = ap suc (length-take n xs (omega arith))

  pub length-drop : (n : ℕ) (xs : List A) → length (drop n xs) ≡ length xs - n
  length-drop zero xs = omega arith
  length-drop (suc n) [] = omega arith
  length-drop (suc n) (x ∷ xs) = omega (arith, length-drop n xs)

  pub take-append-drop : (n : ℕ) (xs : List A) → take n xs ++ drop n xs ≡ xs
  take-append-drop zero xs = refl
  take-append-drop (suc n) [] = refl
  take-append-drop (suc n) (x ∷ xs) = ap (◌∷◌ x) (take-append-drop n xs)

  pub take_all : (n : ℕ) (xs : List A) → length xs ≤ n → take n xs ≡ xs
  take_all zero [] h = refl
  take_all zero (x ∷ xs) h = absurd (omega arith)
  take_all (suc n) [] h = refl
  take_all (suc n) (x ∷ xs) h = ap (◌∷◌ x) (take_all n xs (omega arith))

  pub drop_all : (n : ℕ) (xs : List A) → length xs ≤ n → drop n xs ≡ []
  drop_all zero [] h = refl
  drop_all zero (x ∷ xs) h = absurd (omega arith)
  drop_all (suc n) [] h = refl
  drop_all (suc n) (x ∷ xs) h = drop_all n xs (omega arith)

  drop_eq : {m n : ℕ} (xs : List A) → m ≡ n → drop m xs ≡ drop n xs
  drop_eq xs e = ap (λ k. drop k xs) e

  pub drop-drop : (m n : ℕ) (xs : List A) → drop m (drop n xs) ≡ drop (n + m) xs
  drop-drop m zero xs = drop_eq xs (omega arith)
  drop-drop m (suc n) [] = drop_all m [] (omega arith) ∙ sym (drop_all (suc n + m) [] (omega arith))
  drop-drop m (suc n) (x ∷ xs) =
      drop-drop m n xs ∙ drop_eq {m = suc (n + m)} {n = suc n + m} (x ∷ xs) (omega arith)

  pub take-append_left : (n : ℕ) (xs ys : List A) → n ≤ length xs → take n (xs ++ ys) ≡ take n xs
  take-append_left zero xs ys h = refl
  take-append_left (suc n) [] ys h = absurd (omega arith)
  take-append_left (suc n) (x ∷ xs) ys h = ap (◌∷◌ x) (take-append_left n xs ys (omega arith))

  pub drop-append_left :
      (n : ℕ) (xs ys : List A) → n ≤ length xs → drop n (xs ++ ys) ≡ drop n xs ++ ys
  drop-append_left zero xs ys h = refl
  drop-append_left (suc n) [] ys h = absurd (omega arith)
  drop-append_left (suc n) (x ∷ xs) ys h = drop-append_left n xs ys (omega arith)

  pub length-write_at : (xs : List A) (i : ℕ) (ys : List A) → length (write_at xs i ys) ≡ length xs
  length-write_at [] i [] = refl
  length-write_at [] i (y ∷ ys) = refl
  length-write_at (x ∷ xs) i [] = refl
  length-write_at (x ∷ xs) zero (y ∷ ys) = ap suc (length-write_at xs zero ys)
  length-write_at (x ∷ xs) (suc i) (y ∷ ys) = ap suc (length-write_at xs i (y ∷ ys))

  -- What lies behind the block that is written stays.
  pub drop-write_at_past :
      (r : ℕ) (xs : List A) (i : ℕ) (ys : List A)
      → i + length ys ≤ r
      → drop r (write_at xs i ys) ≡ drop r xs
  drop-write_at_past r [] i [] h = refl
  drop-write_at_past r [] i (y ∷ ys) h = refl
  drop-write_at_past r (x ∷ xs) i [] h = refl
  drop-write_at_past zero (x ∷ xs) i (y ∷ ys) h = absurd (omega arith)
  drop-write_at_past (suc r) (x ∷ xs) zero (y ∷ ys) h =
      drop-write_at_past r xs zero ys (omega arith)
  drop-write_at_past (suc r) (x ∷ xs) (suc i) (y ∷ ys) h =
      drop-write_at_past r xs i (y ∷ ys) (omega arith)

  -- Up to its end the block reads as what stood before it, then what was written.
  pub take-write_at :
      (n : ℕ) (xs : List A) (i : ℕ) (ys : List A)
      → n ≡ i + length ys
      → n ≤ length xs
      → take n (write_at xs i ys) ≡ take i xs ++ ys
  take-write_at n xs i [] e h =
      ap (λ k. take k xs) {x = n} {y = i} (omega arith) ∙ sym (append-nil _)
  take-write_at zero xs i (y ∷ ys) e h = absurd (omega arith)
  take-write_at (suc n) [] i (y ∷ ys) e h = absurd (omega arith)
  take-write_at (suc n) (x ∷ xs) zero (y ∷ ys) e h =
      ap (◌∷◌ y) (take-write_at n xs zero ys (omega arith) (omega arith))
  take-write_at (suc n) (x ∷ xs) (suc i) (y ∷ ys) e h =
      ap (◌∷◌ x) (take-write_at n xs i (y ∷ ys) (omega arith) (omega arith))

  pub drop-write_at :
      (r : ℕ) (xs : List A) (i : ℕ) (ys : List A)
      → r ≤ i
      → drop r (write_at xs i ys) ≡ write_at (drop r xs) (i - r) ys
  drop-write_at r xs i [] h = refl
  drop-write_at zero xs i (y ∷ ys) h =
      ap (λ k. write_at xs k (y ∷ ys)) {x = i} {y = i - 0} (omega arith)
  drop-write_at (suc r) [] i (y ∷ ys) h = refl
  drop-write_at (suc r) (x ∷ xs) zero (y ∷ ys) h = absurd (omega arith)
  drop-write_at (suc r) (x ∷ xs) (suc i) (y ∷ ys) h =
      drop-write_at r xs i (y ∷ ys) (omega arith)
      ∙ ap (λ k. write_at (drop r xs) k (y ∷ ys)) {x = i - r} {y = suc i - suc r} (omega arith)

  -- A block in two parts.
  pub take-append-take :
      (m n : ℕ) (xs : List A) → m ≤ n → take m xs ++ take (n - m) (drop m xs) ≡ take n xs
  take-append-take zero n xs h = ap (λ k. take k xs) {x = n - 0} {y = n} (omega arith)
  take-append-take (suc m) zero xs h = absurd (omega arith)
  take-append-take (suc m) (suc n) [] h = take_all (suc n - suc m) [] (omega arith)
  take-append-take (suc m) (suc n) (x ∷ xs) h = ap (◌∷◌ x) (
      ap (λ k. take m xs ++ take k (drop m xs)) {x = suc n - suc m} {y = n - m} (omega arith)
      ∙ take-append-take m n xs (omega arith))

  -- The item at an index stands before what lies behind it.
  pub drop-get_elem? :
      (n : ℕ) (xs : List A)
      → n < length xs
      → (x : A) × (get_elem? xs n ≡ some x) × (drop n xs ≡ x ∷ drop (n + 1) xs)
  drop-get_elem? n [] h = absurd (omega arith)
  drop-get_elem? zero (x ∷ xs) h = (x, refl, refl)
  drop-get_elem? (suc n) (x ∷ xs) h =
      let (y, e, d) = drop-get_elem? n xs (omega arith) in
      (y, e, d ∙ ap (◌∷◌ y) (drop_eq {m = suc (n + 1)} {n = suc n + 1} (x ∷ xs) (omega arith)))

  pub take-cons : (n : ℕ) (x : A) (xs : List A) → n ≢ 0 → take n (x ∷ xs) ≡ x ∷ take (n - 1) xs
  take-cons zero x xs h = absurd (h refl)
  take-cons (suc n) x xs h = ap (λ k. x ∷ take k xs) (omega arith)

  pub drop-take : (m n : ℕ) (xs : List A) → drop m (take n xs) ≡ take (n - m) (drop m xs)
  drop-take zero n xs = ap (λ k. take k xs) {x = n} {y = n - 0} (omega arith)
  drop-take (suc m) zero xs =
      ap (λ k. take k (drop (suc m) xs)) {x = 0} {y = 0 - suc m} (omega arith)
  drop-take (suc m) (suc n) [] = sym (take_all (suc n - suc m) [] (omega arith))
  drop-take (suc m) (suc n) (x ∷ xs) =
      drop-take m n xs ∙ ap (λ k. take k (drop m xs)) {x = n - m} (omega arith)

  pub take-take : (m n : ℕ) (xs : List A) → m ≤ n → take m (take n xs) ≡ take m xs
  take-take zero n xs h = refl
  take-take (suc m) zero xs h = absurd (omega arith)
  take-take (suc m) (suc n) [] h = refl
  take-take (suc m) (suc n) (x ∷ xs) h = ap (◌∷◌ x) (take-take m n xs (omega arith))

  -- What lies before the block that is written stays.
  pub take-write_at_before :
      (r : ℕ) (xs : List A) (i : ℕ) (ys : List A) → r ≤ i → take r (write_at xs i ys) ≡ take r xs
  take-write_at_before zero xs i ys h = refl
  take-write_at_before (suc r) xs i [] h = refl
  take-write_at_before (suc r) [] i (y ∷ ys) h = refl
  take-write_at_before (suc r) (x ∷ xs) zero (y ∷ ys) h = absurd (omega arith)
  take-write_at_before (suc r) (x ∷ xs) (suc i) (y ∷ ys) h =
      ap (◌∷◌ x) (take-write_at_before r xs i (y ∷ ys) (omega arith))
