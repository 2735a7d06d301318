-- ===== src/Exchange/FifoSequencer.antt =====
-- include/exchange/fifo_sequencer.hpp: requests of one polling round are sorted by the time at which
-- the kernel received them, and then published. `std::sort` is a parameter.
pub mod Publishing
mod Tests
use trading_system.Prelude.{
  ℕ, ◌++◌, List, [], ◌∷◌, Result, ok, ◌>>◌, require, assert_failed, ltb, ◌==◌, if◌then◌else◌,
  length, map,
}
use trading_system.Messages.{MeClientRequest}
use trading_system.SpscQueue.{SpscQueue}
use trading_system.Exchange.MatchingEngine.{push_all}

abbrev pub max_pending_requests : ℕ
max_pending_requests = 1024

pub record RecvTimeClientRequest : Type 0 where
  pub recv_time : ℕ
  pub request : MeClientRequest

-- `pending_client_requests` is the array below `pending_size_`.
pub record FifoSequencer : Type 0 where
  pub pending_client_requests : List RecvTimeClientRequest
  pub incoming_request : SpscQueue MeClientRequest

unfoldable pub add_client_request : FifoSequencer → ℕ → MeClientRequest → Result FifoSequencer
add_client_request f rx_time request = do
  require (ltb (length f.pending_client_requests) max_pending_requests) assert_failed
  ok (record f {
    pending_client_requests =
        f.pending_client_requests ++ (record { recv_time = rx_time; request = request } ∷ []);
  })

module _ (sort : List RecvTimeClientRequest → List RecvTimeClientRequest) where
  unfoldable pub sequence_and_publish : FifoSequencer → FifoSequencer
  sequence_and_publish f = if length f.pending_client_requests == 0 then f else record {
    pending_client_requests = [];
    incoming_request =
        push_all f.incoming_request
          (map (λ (r : RecvTimeClientRequest). r.request) (sort f.pending_client_requests));
  }
