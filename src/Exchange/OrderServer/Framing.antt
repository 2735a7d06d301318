-- ===== src/Exchange/OrderServer/Framing.antt =====
-- How a buffer of bytes is cut into requests.
use trading_system.Prelude.{
  ℕ, zero, suc, ◌≤◌, ◌<◌, ◌≡◌, refl, true, List, [], ◌∷◌, ◌++◌, map, arith, leb, length,
  length-append, joined, take-append, drop-append,
}
use trading_system.Messages.{OgClientRequest}
use trading_system.Exchange.OrderServer.{request_size, split_requests}

-- Every chunk has the size of a request.
abbrev pub AreWhole : List (List ℕ) → Type 0
AreWhole [] = Unit {0}
AreWhole (c ∷ cs) = (length c ≡ request_size) × AreWhole cs

module _ (decode : List ℕ → OgClientRequest) where
  split_short :
      (fuel : ℕ) (tail : List ℕ)
      → length tail < request_size
      → split_requests decode fuel tail ≡ ([], tail)
  unfolding split_requests
  split_short zero tail h = refl
  split_short (suc fuel) tail h = ground arith

  -- Whole requests followed by fewer bytes than a request has are cut exactly there: each request is
  -- decoded, in order, and the bytes that stay in the buffer are the ones behind the last of them.
  pub split_requests-joined :
      (chunks : List (List ℕ)) (tail : List ℕ) (fuel : ℕ)
      → AreWhole chunks
      → length tail < request_size
      → length chunks ≤ fuel
      → split_requests decode fuel (joined chunks tail) ≡ (map decode chunks, tail)
  unfolding split_requests
  split_requests-joined [] tail fuel whole short enough = split_short fuel tail short
  split_requests-joined (c ∷ cs) tail zero whole short enough = absurd (omega arith)
  split_requests-joined (c ∷ cs) tail (suc fuel) (whole, wholes) short enough =
      let fits : leb request_size (length (c ++ joined cs tail)) ≡ true =
        ground (arith, length-append c (joined cs tail), whole) in
      rw
        (
          fits,
          take-append c (joined cs tail) request_size whole,
          drop-append c (joined cs tail) request_size whole,
          split_requests-joined cs tail fuel wholes short (omega (arith, enough)),
          split_requests,
        )
        refl
