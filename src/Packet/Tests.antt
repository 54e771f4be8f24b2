-- ===== src/Packet/Tests.antt =====
-- Runs of a packet on small inputs, and its theorems at them.
use linuxgameserver.Common.{List, [], ◌∷◌, arith}
use linuxgameserver.Packet.{PacketBase, set_packet_id}
use linuxgameserver.Packet.Typed.{char, ushort, int, long, ulong_long}
use linuxgameserver.Packet.RoundTrip.{Field}
use linuxgameserver.Packet.Fresh.{fresh, IsFresh, fresh-IsFresh, IsLost, set_packet_id_overwritten}

abbrev small : PacketBase
small = fresh 64

small-IsFresh : IsFresh small
small-IsFresh = fresh-IsFresh 64 (omega arith) (omega arith)

abbrev fields : List Field
fields =
    record { kind = char; number = 65; old = 0 }
    ∷ record { kind = ushort; number = 515; old = 9 }
    ∷ record { kind = int; number = 4294967295; old = 0 }
    ∷ record { kind = long; number = 4294967303; old = 1 }
    ∷ record { kind = ulong_long; number = 1099511627779; old = 0 }
    ∷ []

set_packet_id_overwritten_example : IsLost (set_packet_id small 1001) (1 ∷ 2 ∷ 3 ∷ 4 ∷ [])
set_packet_id_overwritten_example =
    set_packet_id_overwritten small small-IsFresh 1001 (omega arith) (1 ∷ 2 ∷ 3 ∷ 4 ∷ [])
      (omega arith) (omega arith) (omega arith)
