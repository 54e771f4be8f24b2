-- ===== src/PacketPool/Select.antt =====
-- Which class of buffers `SelectIndexForPacketLen` and `SelectIndexForPacketLenEqual` choose.
use linuxgameserver.Common.{
  ℕ, zero, suc, ◌+◌, ◌<◌, ◌≡◌, refl, subst, inl, inr, Bool, true, false, Bool-cases, some, List, [],
  ◌∷◌, leb, ◌==◌, get_elem?, arith,
}
use linuxgameserver.PacketPool.{
  PacketPoolDesc, PacketPoolManager, first_index, select_index_for_packet_len,
  select_index_for_packet_len_equal,
}

-- The first place, counted from `i`, at which the test holds.
pub record IsFirst (test : ℕ → Bool) (ds : List PacketPoolDesc) (k : ℕ) : Type 0 where
  pub desc : PacketPoolDesc
  pub at : get_elem? ds k ≡ some desc
  pub holds : test desc.packet_len ≡ true
  pub before :
      (j : ℕ) (d : PacketPoolDesc) → j < k → get_elem? ds j ≡ some d → test d.packet_len ≡ false

module _ (test : ℕ → Bool) (d : PacketPoolDesc) (ds : List PacketPoolDesc) where
  IsFirst-here : test d.packet_len ≡ true → IsFirst test (d ∷ ds) 0
  IsFirst-here e = record { desc = d; at = refl; holds = e; before = λ j c l. absurd (omega arith) }

  before-cons :
      (m : ℕ)
      → test d.packet_len ≡ false
      → IsFirst test ds m
      → (j : ℕ) (c : PacketPoolDesc) → j < suc m
      → get_elem? (d ∷ ds) j ≡ some c
      → test c.packet_len ≡ false
  before-cons m e f zero c l g = ground (arith, g)
  before-cons m e f (suc j) c l g = f.before j c (omega arith) g

  IsFirst-cons :
      (m : ℕ) → test d.packet_len ≡ false → IsFirst test ds m → IsFirst test (d ∷ ds) (suc m)
  IsFirst-cons m e f = record {
    desc = f.desc;
    at = f.at;
    holds = f.holds;
    before = before-cons m e f;
  }

first_index-IsFirst :
    (test : ℕ → Bool) (ds : List PacketPoolDesc) (i k : ℕ)
    → first_index test ds i ≡ some k
    → (m : ℕ) × (k ≡ i + m) × IsFirst test ds m
unfolding first_index
first_index-IsFirst test [] i k h = cc
first_index-IsFirst test (d ∷ ds) i k h = elim (Bool-cases (test d.packet_len)) [
  | inl e ↦ (0, ground arith, IsFirst-here test d ds e)
  | inr e ↦
      let (m, l, f) = first_index-IsFirst test ds (suc i) k (ground arith) in
      (suc m, omega arith, IsFirst-cons test d ds m e f)
]

first_index-start :
    (test : ℕ → Bool) (ds : List PacketPoolDesc) (k : ℕ)
    → first_index test ds 0 ≡ some k
    → IsFirst test ds k
first_index-start test ds k h =
    let (m, l, f) = first_index-IsFirst test ds 0 k h in
    subst (IsFirst test ds) {x = m} {y = k} (omega arith) f

module _ {P : Type 0} (m : PacketPoolManager P) (len k : ℕ) where
  pub select_index_for_packet_len-IsFirst :
      select_index_for_packet_len m len ≡ some k → IsFirst (λ l. leb len l) m.descs k
  unfolding select_index_for_packet_len
  select_index_for_packet_len-IsFirst h = first_index-start _ m.descs k (ground arith)

  pub select_index_for_packet_len_equal-IsFirst :
      select_index_for_packet_len_equal m len ≡ some k → IsFirst (λ l. len == l) m.descs k
  unfolding select_index_for_packet_len_equal
  select_index_for_packet_len_equal-IsFirst h = first_index-start _ m.descs k (ground arith)
