-- ===== src/Client/MarketDataConsumer/Packets/Whole.antt =====
-- The callback on bytes against the one on messages.
use trading_system.Prelude.{
  ℕ, zero, suc, ◌≤◌, ◌<◌, ◌≡◌, refl, Bool, true, false, ◌&&◌, not, List, [], ◌∷◌, ◌++◌, map, arith,
  leb, length, length-append, if◌then◌else◌, joined, take-append, drop-append,
}
use trading_system.Messages.{MdpMarketUpdate}
use trading_system.Client.MarketDataConsumer.{
  MarketDataConsumer, recv_message, recv_loop, recv_callbacks,
}
use trading_system.Client.MarketDataConsumer.Packets.{message_size, recv_bytes, recv_packet}

-- Every chunk has the size of a message.
abbrev pub AreWhole : List (List ℕ) → Type 0
AreWhole [] = Unit {0}
AreWhole (c ∷ cs) = (length c ≡ message_size) × AreWhole cs

if_pair {ℓ κ} :
    {A : Type ℓ} {B : Type κ} (b : Bool) (p q : A × B)
    → (if b then p else q) ≡ (if b then p.0 else q.0, if b then p.1 else q.1)
if_pair true p q = refl
if_pair false p q = refl

chunks_fit :
    (chunks : List (List ℕ)) (tail : List ℕ)
    → AreWhole chunks
    → length chunks ≤ length (joined chunks tail)
chunks_fit [] tail w = omega arith
chunks_fit (c ∷ cs) tail (w, ws) =
    omega (arith, chunks_fit cs tail ws, length-append c (joined cs tail))

module _ (decode : List ℕ → MdpMarketUpdate) where
  recv_bytes-short :
      (fuel : ℕ) (c : MarketDataConsumer) (is_snapshot : Bool) (tail : List ℕ)
      → length tail < message_size
      → recv_bytes decode fuel c is_snapshot tail ≡ (c, tail)
  unfolding recv_bytes
  recv_bytes-short zero c is_snapshot tail h = refl
  recv_bytes-short (suc fuel) c is_snapshot tail h = ground arith

  recv_bytes-joined :
      (chunks : List (List ℕ)) (tail : List ℕ) (fuel : ℕ) (c : MarketDataConsumer)
      (is_snapshot : Bool)
      → AreWhole chunks
      → length tail < message_size
      → length chunks ≤ fuel
      → recv_bytes decode fuel c is_snapshot (joined chunks tail)
        ≡ (recv_loop c is_snapshot (map decode chunks), tail)
  unfolding recv_bytes recv_loop
  recv_bytes-joined [] tail fuel c is_snapshot whole short enough =
      recv_bytes-short fuel c is_snapshot tail short
  recv_bytes-joined (b ∷ bs) tail zero c is_snapshot whole short enough = absurd (omega arith)
  recv_bytes-joined (b ∷ bs) tail (suc fuel) c is_snapshot (whole, wholes) short enough =
      let fits : leb message_size (length (b ++ joined bs tail)) ≡ true =
        ground (arith, length-append b (joined bs tail), whole) in
      rw
        (
          fits,
          take-append b (joined bs tail) message_size whole,
          drop-append b (joined bs tail) message_size whole,
        )
        (recv_bytes-joined bs tail fuel (recv_message c is_snapshot (decode b)) is_snapshot wholes
          short (omega (arith, enough)))

  -- Whole messages followed by fewer bytes than a message has are handled as the messages that they
  -- decode to, in order. The bytes behind the last message stay in the buffer, but for a snapshot out
  -- of recovery, which leaves it empty.
  pub recv_packet-joined :
      (chunks : List (List ℕ)) (tail : List ℕ) (c : MarketDataConsumer) (is_snapshot : Bool)
      → AreWhole chunks
      → length tail < message_size
      → recv_packet decode c is_snapshot (joined chunks tail) ≡ (
        recv_callbacks c is_snapshot (map decode chunks),
        if not c.packet_lost && is_snapshot then [] else tail,
      )
  unfolding recv_packet recv_callbacks
  recv_packet-joined chunks tail c is_snapshot whole short =
      rw
        (recv_bytes-joined chunks tail (length (joined chunks tail)) c is_snapshot whole short
          (chunks_fit chunks tail whole))
        (if_pair (not c.packet_lost && is_snapshot) (c, [])
          (recv_loop c is_snapshot (map decode chunks), tail))
