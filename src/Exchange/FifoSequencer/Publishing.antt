-- ===== src/Exchange/FifoSequencer/Publishing.antt =====
-- What a round of the sequencer publishes, for a sort that sorts.
use mathlib.Core.List.{Perm, append-nil}
use mathlib.Core.List.Perm
use trading_system.Prelude.{
  ◌+◌, ◌≤◌, ◌≡◌, refl, sym, ap, ◌∙◌, false, List, [], ◌∷◌, ◌++◌, map, arith, length, length-map,
  length-perm, ◌==◌, if◌then◌else◌,
}
use trading_system.Messages.{MeClientRequest}
use trading_system.SpscQueue.Refine.{IsValid, contents}
use trading_system.Exchange.MatchingEngine.{push_all}
use trading_system.Exchange.MatchingEngine.Sending.{push_all-contents}
use trading_system.Exchange.FifoSequencer.{
  RecvTimeClientRequest, FifoSequencer, sequence_and_publish,
}

-- No request is older than the one before it.
abbrev pub IsAscending : List RecvTimeClientRequest → Type 0
IsAscending [] = Unit {0}
IsAscending (r ∷ []) = Unit {0}
IsAscending (r ∷ s ∷ rs) = (r.recv_time ≤ s.recv_time) × IsAscending (s ∷ rs)

abbrev pub requests_of : List RecvTimeClientRequest → List MeClientRequest
requests_of = map (λ (r : RecvTimeClientRequest). r.request)

-- What `std::sort` promises.
pub record Sorts (sort : List RecvTimeClientRequest → List RecvTimeClientRequest) : Type 0 where
  pub keeps : (rs : List RecvTimeClientRequest) → Perm (sort rs) rs
  pub orders : (rs : List RecvTimeClientRequest) → IsAscending (sort rs)

pub record Published (f g : FifoSequencer) : Type 0 where
  pub emptied : g.pending_client_requests ≡ []
  pub order : List RecvTimeClientRequest
  pub each : Perm order f.pending_client_requests
  pub by_time : IsAscending order
  pub sent : contents g.incoming_request ≡ contents f.incoming_request ++ requests_of order
  pub valid : IsValid g.incoming_request

length-requests_of :
    (sort : List RecvTimeClientRequest → List RecvTimeClientRequest)
    (rs : List RecvTimeClientRequest)
    → Sorts sort
    → length (requests_of (sort rs)) ≡ length rs
length-requests_of sort rs s =
    length-map (sort rs) (λ (r : RecvTimeClientRequest). r.request) ∙ length-perm (s.keeps rs)

-- With a sort that sorts, and room in a valid queue for all that is pending, the requests pending
-- are sent to the engine each once, in the order of the times at which they were received, and
-- none is left pending.
pub sequence_and_publish-Published :
    (sort : List RecvTimeClientRequest → List RecvTimeClientRequest) (f : FifoSequencer)
    → Sorts sort
    → IsValid f.incoming_request
    → f.incoming_request.num_elements + length f.pending_client_requests
      ≤ f.incoming_request.capacity
    → Published f (sequence_and_publish sort f)
unfolding sequence_and_publish
sequence_and_publish-Published sort f s w room = by_pending f.pending_client_requests refl
  where
    sent :
        IsValid (push_all f.incoming_request (requests_of (sort f.pending_client_requests)))
        × (contents (push_all f.incoming_request (requests_of (sort f.pending_client_requests)))
            ≡ contents f.incoming_request ++ requests_of (sort f.pending_client_requests))
    sent =
        push_all-contents f.incoming_request _ w
          (omega (arith, length-requests_of sort f.pending_client_requests s))

    some_pending :
        {r : RecvTimeClientRequest} (rs : List RecvTimeClientRequest)
        → f.pending_client_requests ≡ r ∷ rs
        → (length f.pending_client_requests == 0) ≡ false
    some_pending rs e = ground (arith, ap length e)

    by_pending :
        (rs : List RecvTimeClientRequest)
        → f.pending_client_requests ≡ rs
        → Published f (sequence_and_publish sort f)
    by_pending [] e =
        let still : sequence_and_publish sort f ≡ f = rw (sequence_and_publish, e) refl in
        rw still (record {
          emptied = e;
          order = [];
          each = rw e (Perm.refl []);
          by_time = tt;
          sent = sym (append-nil (contents f.incoming_request));
          valid = w;
        })
    by_pending (r ∷ rs) e =
        let next : sequence_and_publish sort f ≡ record {
          pending_client_requests = [];
          incoming_request =
              push_all f.incoming_request (requests_of (sort f.pending_client_requests));
        } =
          ap
            (λ b. if b then f else record {
              pending_client_requests = [];
              incoming_request =
                  push_all f.incoming_request (requests_of (sort f.pending_client_requests));
            })
            (some_pending rs e) in
        rw next (record {
          emptied = refl;
          order = sort f.pending_client_requests;
          each = s.keeps f.pending_client_requests;
          by_time = s.orders f.pending_client_requests;
          sent = sent.1;
          valid = sent.0;
        })
