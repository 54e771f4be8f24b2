-- ===== src/Packet/Bytes.antt =====
-- Integers as rows of bytes in memory, the lowest byte first.
use mathlib.Core.List.{reverse, reverse-cons, reverse-reverse}
use linuxgameserver.Common.{
  ℕ, zero, suc, ◌+◌, ◌*◌, ◌/◌, ◌%◌, ◌^◌, ◌<◌, ◌≡◌, refl, sym, ap, ap₂, ◌∙◌, subst, List, [], ◌∷◌,
  ◌++◌, length, length-append, arith,
}

abbrev pub bytes : ℕ → ℕ → List ℕ
bytes zero x = []
bytes (suc n) x = (x % 256) ∷ bytes n (x / 256)

abbrev pub value : List ℕ → ℕ
value [] = 0
value (b ∷ bs) = b + 256 * value bs

-- The integer of `n` bytes with the bytes of `x` in the other order.
unfoldable pub swap : ℕ → ℕ → ℕ
swap n x = value (reverse (bytes n x))

-- 256 ^ n.
abbrev pub limit : ℕ → ℕ
limit zero = 1
limit (suc n) = 256 * limit n

abbrev pub AreBytes : List ℕ → Type 0
AreBytes [] = Unit
AreBytes (b ∷ bs) = (b < 256) × AreBytes bs

pub length-bytes : (n x : ℕ) → length (bytes n x) ≡ n
length-bytes zero x = refl
length-bytes (suc n) x = ap suc (length-bytes n (x / 256))

pub value-bytes : (n x : ℕ) → x < limit n → value (bytes n x) ≡ x
value-bytes zero x h = omega arith
value-bytes (suc n) x h = omega (arith, value-bytes n (x / 256) (omega arith))

pub bytes-value : (bs : List ℕ) → AreBytes bs → bytes (length bs) (value bs) ≡ bs
bytes-value [] h = refl
bytes-value (b ∷ bs) (h, hs) = ap₂ ◌∷◌ (omega arith) (
    ap (bytes (length bs)) {x = (b + 256 * value bs) / 256} {y = value bs} (omega arith)
    ∙ bytes-value bs hs)

value-lt : (bs : List ℕ) → AreBytes bs → value bs < limit (length bs)
value-lt [] h = omega arith
value-lt (b ∷ bs) (h, hs) = omega (arith, value-lt bs hs)

bytes-AreBytes : (n x : ℕ) → AreBytes (bytes n x)
bytes-AreBytes zero x = tt
bytes-AreBytes (suc n) x = (omega arith, bytes-AreBytes n (x / 256))

AreBytes-append : (xs ys : List ℕ) → AreBytes xs → AreBytes ys → AreBytes (xs ++ ys)
AreBytes-append [] ys h k = k
AreBytes-append (x ∷ xs) ys (h, hs) k = (h, AreBytes-append xs ys hs k)

AreBytes-reverse : (xs : List ℕ) → AreBytes xs → AreBytes (reverse xs)
AreBytes-reverse [] h = tt
AreBytes-reverse (x ∷ xs) (h, hs) =
    subst AreBytes (sym (reverse-cons x xs))
      (AreBytes-append (reverse xs) (x ∷ []) (AreBytes-reverse xs hs) (h, tt))

length-reverse : (xs : List ℕ) → length (reverse xs) ≡ length xs
length-reverse [] = refl
length-reverse (x ∷ xs) =
    ap length (reverse-cons x xs)
    ∙ omega (arith, length-append (reverse xs) (x ∷ []), length-reverse xs)

reverse-bytes-AreBytes : (n x : ℕ) → AreBytes (reverse (bytes n x))
reverse-bytes-AreBytes n x = AreBytes-reverse (bytes n x) (bytes-AreBytes n x)

length-reverse-bytes : (n x : ℕ) → length (reverse (bytes n x)) ≡ n
length-reverse-bytes n x = length-reverse (bytes n x) ∙ length-bytes n x

-- In memory the swapped integer has the highest byte first.
pub bytes-swap : (n x : ℕ) → bytes n (swap n x) ≡ reverse (bytes n x)
unfolding swap
bytes-swap n x =
    ap (λ k. bytes k (value (reverse (bytes n x)))) (sym (length-reverse-bytes n x))
    ∙ bytes-value (reverse (bytes n x)) (reverse-bytes-AreBytes n x)

pub swap_lt : (n x : ℕ) → swap n x < limit n
unfolding swap
swap_lt n x =
    subst (λ k. value (reverse (bytes n x)) < limit k) (length-reverse-bytes n x)
      (value-lt (reverse (bytes n x)) (reverse-bytes-AreBytes n x))

pub swap-swap : (n x : ℕ) → x < limit n → swap n (swap n x) ≡ x
unfolding swap
swap-swap n x h =
    ap (λ bs. value (reverse bs)) (bytes-swap n x)
    ∙ ap value (reverse-reverse (bytes n x))
    ∙ value-bytes n x h

low : (lo hi : ℕ) → lo < 2 ^ 32 → bytes 4 (hi * 2 ^ 32 + lo) ≡ bytes 4 lo
low lo hi h =
    ap₂ ◌∷◌ (omega arith)
      (ap₂ ◌∷◌ (omega arith) (ap₂ ◌∷◌ (omega arith) (ap₂ ◌∷◌ (omega arith) refl)))

-- `swap 4` looks at the lower half of an integer of 64 bits.
pub swap_low : (lo hi : ℕ) → lo < 2 ^ 32 → swap 4 (hi * 2 ^ 32 + lo) ≡ swap 4 lo
unfolding swap
swap_low lo hi h = ap (λ bs. value (reverse bs)) (low lo hi h)

-- An integer of 64 bits as two of 32.
pub bytes_halves : (lo hi : ℕ) → lo < 2 ^ 32 → bytes 8 (hi * 2 ^ 32 + lo) ≡ bytes 4 lo ++ bytes 4 hi
bytes_halves lo hi h = ap₂ ◌∷◌ (omega arith) (
    ap₂ ◌∷◌ (omega arith) (
      ap₂ ◌∷◌ (omega arith) (
        ap₂ ◌∷◌ (omega arith) (
          ap₂ ◌∷◌ (omega arith)
            (ap₂ ◌∷◌ (omega arith) (ap₂ ◌∷◌ (omega arith) (ap₂ ◌∷◌ (omega arith) refl)))))))
