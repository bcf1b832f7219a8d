-- ===== src/Sfu/Rtp/NackBuffer.antt =====
-- meeting-server/sfu/rtp/NackBuffer. Each method holds the mutex from beginning to end, so a call is
-- one step.
pub mod Refine
use meeting_system.Prelude.{
  ℕ, ◌≤◌, Bool, true, false, List, [], ◌∷◌, ◌++◌, Option, none, some, not, ◌&&◌, ◌||◌, ltb, leb,
  ◌==◌, if◌then◌else◌, length,
}
use meeting_system.Prelude.Assoc.{nat_eq, lookup, contains, insert, erase, is_empty}

pub record NackBuffer : Type 0 where
  pub capacity : ℕ
  pub max_packet_size : ℕ
  pub order : List ℕ
  pub packets : List (ℕ × List ℕ)

unfoldable pub init : ℕ → ℕ → NackBuffer
init capacity max_packet_size = record {
  capacity = if ltb 0 capacity then capacity else 1500;
  max_packet_size = if ltb 0 max_packet_size then max_packet_size else 1600;
  order = [];
  packets = [];
}

-- `order_.pop_front()`, with the packet of that number.
unfoldable pub evict : List ℕ → NackBuffer → NackBuffer
evict [] b = b
evict (oldest ∷ rest) b = record b { order = rest; packets = erase oldest b.packets }

unfoldable pub store_packet : NackBuffer → ℕ → List ℕ → NackBuffer
unfolding evict
store_packet b seq packet =
    if contains seq b.packets
    then record b { packets = insert seq packet b.packets }
    else let b' =
        if leb b.capacity (length b.packets) && not (is_empty b.order)
        then evict b.order b
        else b in
      record b' { order = b'.order ++ (seq ∷ []); packets = insert seq packet b'.packets }

-- `none` is the null pointer.
unfoldable pub store : NackBuffer → ℕ → Option (List ℕ) → NackBuffer
unfolding store_packet
store b seq none = b
store b seq (some packet) =
    if length packet == 0 || ltb b.max_packet_size (length packet)
    then b
    else store_packet b seq packet

unfoldable pub get : NackBuffer → ℕ → Option (List ℕ)
get b seq = lookup seq b.packets

unfoldable pub has : NackBuffer → ℕ → Bool
has b seq = contains seq b.packets

unfoldable pub size : NackBuffer → ℕ
size b = length b.packets
