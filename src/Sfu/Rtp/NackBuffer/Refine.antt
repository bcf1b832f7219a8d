-- ===== src/Sfu/Rtp/NackBuffer/Refine.antt =====
-- A NackBuffer is a queue of at most `capacity` numbered packets, oldest first.
use meeting_system.Prelude.{
  ℕ, ◌≤◌, ◌<◌, ◌≡◌, refl, sym, ap, ◌∙◌, true, false, List, [], ◌∷◌, ◌++◌, Option, none, some, arith,
  ltb, leb, ◌==◌, if◌then◌else◌, length, drop, length-drop, ◌||◌, ◌⊎◌, inl, inr, Bool-cases,
}
use meeting_system.Prelude.Assoc.{nat_eq, lookup, contains, insert, keys, Unique, is_empty}
use meeting_system.Prelude.Assoc.Laws.{
  contains-lookup, lookup-insert, lookup-erase, Unique-insert, Unique-erase, length-insert,
  length-erase, keys-insert_present, keys-insert_absent,
}
use meeting_system.Sfu.Rtp.NackBuffer.{NackBuffer, init, evict, store_packet, store, get, has, size}

abbrev pub Packets : Type 0
Packets = List (ℕ × List ℕ)

-- A packet whose number is there replaces the old one in its place; a new one goes to the end, and
-- the oldest makes room for it.
unfoldable pub fifo_store : ℕ → Packets → ℕ → List ℕ → Packets
fifo_store capacity q seq packet =
    if contains seq q
    then insert seq packet q
    else insert seq packet (if leb capacity (length q) then drop 1 q else q)

pub record Represents (b : NackBuffer) (q : Packets) : Type 0 where
  pub order : b.order ≡ keys q
  pub unique : Unique q
  pub packets : (seq : ℕ) → lookup seq b.packets ≡ lookup seq q
  pub unique_packets : Unique b.packets
  pub count : length b.packets ≡ length q
  pub positive : 0 < b.capacity
  pub bounded : length q ≤ b.capacity

allowed :
    (b : NackBuffer) (packet : List ℕ)
    → 0 < length packet
    → length packet ≤ b.max_packet_size
    → (length packet == 0 || ltb b.max_packet_size (length packet)) ≡ false
allowed b packet lo hi = ground arith

pub init-Represents : (capacity max_packet_size : ℕ) → Represents (init capacity max_packet_size) []
unfolding init lookup
init-Represents capacity max_packet_size = record {
  order = refl;
  unique = tt;
  packets = λ seq. refl;
  unique_packets = tt;
  count = refl;
  positive = ground arith;
  bounded = omega arith;
}

contains-Represents :
    {b : NackBuffer} {q : Packets} (seq : ℕ)
    → Represents b q
    → contains seq b.packets ≡ contains seq q
contains-Represents {b} {q} seq r =
    rw (contains-lookup seq b.packets, contains-lookup seq q, r.packets seq)

lookup-cons :
    (k : ℕ) (w : List ℕ) (seq : ℕ) (q : Packets)
    → lookup seq ((k, w) ∷ q) ≡ (if k == seq then some w else lookup seq q)
unfolding lookup
lookup-cons k w seq q = refl

contains-cons :
    (k : ℕ) (w : List ℕ) (seq : ℕ) (q : Packets)
    → contains seq ((k, w) ∷ q) ≡ (if k == seq then true else contains seq q)
unfolding contains
contains-cons k w seq q = refl

evict-Represents :
    (b : NackBuffer) (order : List ℕ) (q : Packets)
    → order ≡ keys q
    → Represents b q
    → Represents (evict order b) (drop 1 q)
unfolding evict
evict-Represents b [] [] e r = r
evict-Represents b (o ∷ os) [] e r = absurd (cc)
evict-Represents b [] ((k, w) ∷ q) e r = absurd (cc)
evict-Represents b (o ∷ os) ((k, w) ∷ q) e r = record {
  order = ground arith;
  unique = r.unique.1;
  packets = λ seq. ground (
    arith,
    lookup-erase o seq b.packets,
    r.packets seq,
    contains-lookup seq q,
    lookup-cons k w seq q,
  );
  unique_packets = Unique-erase o b.packets r.unique_packets;
  count = ground (
    arith,
    length-erase o b.packets r.unique_packets,
    contains-Represents o r,
    contains-cons k w o q,
  );
  positive = r.positive;
  bounded = omega (arith, r.bounded);
}

-- The packet that `store_packet` writes, whether its number is there or not.
insert-packets :
    (seq : ℕ) (packet : List ℕ) (m q : Packets)
    → ((j : ℕ) → lookup j m ≡ lookup j q)
    → (j : ℕ) → lookup j (insert seq packet m) ≡ lookup j (insert seq packet q)
insert-packets seq packet m q h j =
    rw (lookup-insert seq j packet m, lookup-insert seq j packet q, h j)

insert-present :
    (b : NackBuffer) (q : Packets) (seq : ℕ) (packet : List ℕ)
    → Represents b q
    → contains seq q ≡ true
    → Represents (record b { packets = insert seq packet b.packets }) (insert seq packet q)
insert-present b q seq packet r h = record {
  order = r.order ∙ sym (keys-insert_present seq packet q h);
  unique = Unique-insert seq packet q r.unique;
  packets = insert-packets seq packet b.packets q r.packets;
  unique_packets = Unique-insert seq packet b.packets r.unique_packets;
  count = ground (
    arith,
    contains-Represents seq r,
    length-insert seq packet q,
    length-insert seq packet b.packets,
  );
  positive = r.positive;
  bounded = ground (arith, length-insert seq packet q);
}

insert-absent :
    (b : NackBuffer) (q : Packets) (seq : ℕ) (packet : List ℕ)
    → Represents b q
    → contains seq q ≡ false
    → length q < b.capacity
    → Represents
        (record b { order = b.order ++ (seq ∷ []); packets = insert seq packet b.packets })
        (insert seq packet q)
insert-absent b q seq packet r h room = record {
  order = ap (λ o. o ++ (seq ∷ [])) r.order ∙ sym (keys-insert_absent seq packet q h);
  unique = Unique-insert seq packet q r.unique;
  packets = insert-packets seq packet b.packets q r.packets;
  unique_packets = Unique-insert seq packet b.packets r.unique_packets;
  count = ground (
    arith,
    contains-Represents seq r,
    length-insert seq packet q,
    length-insert seq packet b.packets,
  );
  positive = r.positive;
  bounded = ground (arith, length-insert seq packet q);
}

contains-drop : (seq : ℕ) (q : Packets) → contains seq q ≡ false → contains seq (drop 1 q) ≡ false
contains-drop seq [] h = h
contains-drop seq ((k, w) ∷ q) h = ground (arith, contains-cons k w seq q)

is_empty-keys :
    (q : Packets) (order : List ℕ) → order ≡ keys q → 0 < length q → is_empty order ≡ false
is_empty-keys [] order e h = absurd (omega arith)
is_empty-keys ((k, w) ∷ q) [] e h = cc
is_empty-keys ((k, w) ∷ q) (o ∷ os) e h = refl

capacity-evict : (b : NackBuffer) (order : List ℕ) → (evict order b).capacity ≡ b.capacity
unfolding evict
capacity-evict b [] = refl
capacity-evict b (o ∷ os) = refl

max_packet_size-evict :
    (b : NackBuffer) (order : List ℕ) → (evict order b).max_packet_size ≡ b.max_packet_size
unfolding evict
max_packet_size-evict b [] = refl
max_packet_size-evict b (o ∷ os) = refl

-- What `store_packet` does with a new number.
store_packet-absent :
    (b : NackBuffer) (q : Packets) (seq : ℕ) (packet : List ℕ)
    → Represents b q
    → contains seq q ≡ false
    → Represents (store_packet b seq packet) (fifo_store b.capacity q seq packet)
unfolding store_packet fifo_store
store_packet-absent b q seq packet r h = elim (Bool-cases (leb b.capacity (length q))) [
  | inl full ↦
      rw
        (
          contains-Represents seq r,
          h,
          r.count,
          full,
          is_empty-keys q b.order r.order (ground arith),
        )
        (insert-absent (evict b.order b) (drop 1 q) seq packet
          (evict-Represents b b.order q r.order r) (contains-drop seq q h)
          (omega (arith, capacity-evict b b.order, length-drop 1 q, r.bounded, r.positive)))
  | inr room ↦
      rw (contains-Represents seq r, h, r.count, room)
        (insert-absent b q seq packet r h (ground arith))
]

-- Storing a packet of an allowed size in the buffer is storing it in the queue, and the queue
-- stays within the capacity.
pub store-Represents :
    (b : NackBuffer) (q : Packets) (seq : ℕ) (packet : List ℕ)
    → Represents b q
    → 0 < length packet
    → length packet ≤ b.max_packet_size
    → Represents (store b seq (some packet)) (fifo_store b.capacity q seq packet)
unfolding store
store-Represents b q seq packet r lo hi =
    rw (allowed b packet lo hi) (elim (Bool-cases (contains seq q)) [
      | inl present ↦
          unfold store_packet fifo_store in
          rw (contains-Represents seq r, present) (insert-present b q seq packet r present)
      | inr absent ↦ store_packet-absent b q seq packet r absent
    ])

-- A packet that is empty or too long, or a null pointer, changes nothing.
pub store_refused :
    (b : NackBuffer) (seq : ℕ) (packet : Option (List ℕ))
    → ((p : List ℕ) → packet ≡ some p → (length p ≡ 0) ⊎ (b.max_packet_size < length p))
    → store b seq packet ≡ b
unfolding store
store_refused b seq none h = refl
store_refused b seq (some p) h = ground (arith, h p refl)

-- The buffer answers with the packet of that number in the queue.
pub get-Represents :
    (b : NackBuffer) (q : Packets) (seq : ℕ)
    → Represents b q
    → (get b seq ≡ lookup seq q)
      × (has b seq ≡ contains seq q)
      × (size b ≡ length q)
      × (size b ≤ b.capacity)
unfolding get has size
get-Represents b q seq r =
    (r.packets seq, contains-Represents seq r, r.count, omega (arith, r.count, r.bounded))

-- The packet stored last is there, also when the buffer was full.
pub get-store :
    (b : NackBuffer) (seq : ℕ) (packet : List ℕ)
    → 0 < length packet
    → length packet ≤ b.max_packet_size
    → get (store b seq (some packet)) seq ≡ some packet
unfolding get store store_packet
get-store b seq packet lo hi = rw (allowed b packet lo hi) (
    ground (
      arith,
      lookup-insert seq seq packet b.packets,
      lookup-insert seq seq packet (evict b.order b).packets,
    ))

pub max_packet_size-store :
    (b : NackBuffer) (seq : ℕ) (packet : Option (List ℕ))
    → (store b seq packet).max_packet_size ≡ b.max_packet_size
unfolding store store_packet
max_packet_size-store b seq none = refl
max_packet_size-store b seq (some packet) = ground (arith, max_packet_size-evict b b.order)
