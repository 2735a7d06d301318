-- ===== src/Exchange/OrderServer/Tests.antt =====
-- A buffer with one whole request and two bytes of the next.
use trading_system.Prelude.{joined, ℕ, ◌≡◌, refl, List, [], ◌∷◌, replicate, arith}
use trading_system.Messages.{OgClientRequest, blank_request}
use trading_system.Exchange.OrderServer.{split_requests}
use trading_system.Exchange.OrderServer.Framing.{split_requests-joined}

-- A reader that takes the first byte for the sequence number.
abbrev first_byte : List ℕ → OgClientRequest
first_byte [] = record { seq_num = 0; me_client_request = blank_request }
first_byte (x ∷ xs) = record { seq_num = x; me_client_request = blank_request }

split_requests-joined_example :
    split_requests first_byte 5 (joined (replicate 38 9 ∷ []) (1 ∷ 2 ∷ []))
    ≡ (first_byte (replicate 38 9) ∷ [], 1 ∷ 2 ∷ [])
split_requests-joined_example =
    split_requests-joined first_byte (replicate 38 9 ∷ []) (1 ∷ 2 ∷ []) 5 (refl, tt) (omega arith)
      (omega arith)
