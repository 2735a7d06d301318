-- ===== src/Client/RandomTrader/Bounds.antt =====
-- What the random trader asks for, and that it never draws from an empty list.
use mathlib.Core.Path.{subst}
use trading_system.Prelude.{
  ℕ, zero, suc, ◌+◌, Bool, ◌%◌, ◌≤◌, ◌<◌, ◌≡◌, ◌≢◌, refl, ◌∙◌, ◌⊎◌, inl, inr, true, false, ◌||◌,
  List, [], ◌∷◌, ◌++◌, some, ok, arith, leb, ltb, if◌then◌else◌, Bool-cases, length, length-append,
  get_elem?, Result, ◌>>=◌, Returns, gives, Returns-bind, Returns-mono,
}
use trading_system.Types.{me_max_tickers}
use trading_system.Messages.{ClientRequestType, MeClientRequest}
use trading_system.Client.RandomTrader.{
  RandomTrader, new_trader, Draws, Tick, random_request, send_new, send_cancel, on_timer,
}

-- The request places an order.
abbrev is_new : ClientRequestType → Bool
is_new ClientRequestType.new = true
is_new _ = false

-- A request for a known instrument, with a price from 101 to 209 and a quantity from 2 to 101.
pub record InBounds (client : ℕ) (q : MeClientRequest) : Type 0 where
  pub of_client : q.client_id ≡ client
  pub known : q.ticker_id < me_max_tickers
  pub price_above : 101 ≤ q.price
  pub price_below : q.price ≤ 209
  pub qty_above : 2 ≤ q.qty
  pub qty_below : q.qty ≤ 101

abbrev pub AllInBounds : ℕ → List MeClientRequest → Type 0
AllInBounds c [] = Unit {0}
AllInBounds c (q ∷ qs) = InBounds c q × AllInBounds c qs

-- The number of requests that place an order.
abbrev pub placements : List MeClientRequest → ℕ
placements [] = 0
placements (q ∷ qs) = (if is_new q.type then 1 else 0) + placements qs

placements-append :
    (qs rs : List MeClientRequest) → placements (qs ++ rs) ≡ placements qs + placements rs
placements-append [] rs = omega arith
placements-append (q ∷ qs) rs = ground (arith, placements-append qs rs)

pub record IsValid (r : RandomTrader) : Type 0 where
  pub base_above : (t : ℕ) → 100 ≤ r.ticker_base_price t
  pub base_below : (t : ℕ) → r.ticker_base_price t ≤ 199
  pub asked : AllInBounds r.client_id r.requests
  pub counted : r.order_count ≡ length r.requests
  pub few : r.order_count ≤ 10000
  pub cancels_something : r.cancel_next ≡ true → r.order_count ≢ 0

-- Nothing was sent, or one request within the bounds: a new order if none is to be cancelled.
pub record Acted (r s : RandomTrader) : Type 0 where
  pub valid : IsValid s
  pub same_client : s.client_id ≡ r.client_id
  pub placed : placements s.sent + r.order_count ≡ placements r.sent + s.order_count
  pub outcome :
      (s.sent ≡ r.sent)
      ⊎ ((q : MeClientRequest) × (s.sent ≡ r.sent ++ (q ∷ []))
          × InBounds r.client_id q
          × (q.type ≡ (if r.cancel_next then ClientRequestType.cancel else ClientRequestType.new))
          × (s.cancel_next ≡ (if r.cancel_next then false else true)))

AllInBounds-append :
    (c : ℕ) (qs rs : List MeClientRequest)
    → AllInBounds c qs
    → AllInBounds c rs
    → AllInBounds c (qs ++ rs)
AllInBounds-append c [] rs h k = k
AllInBounds-append c (q ∷ qs) rs (h, hs) k = (h, AllInBounds-append c qs rs hs k)

get_elem?-InBounds :
    {c : ℕ} (qs : List MeClientRequest) (i : ℕ)
    → AllInBounds c qs
    → i < length qs
    → (q : MeClientRequest) × (get_elem? qs i ≡ some q) × InBounds c q
get_elem?-InBounds [] i h k = absurd (omega arith)
get_elem?-InBounds (q ∷ qs) zero (h, hs) k = (q, refl, h)
get_elem?-InBounds (q ∷ qs) (suc i) (h, hs) k = get_elem?-InBounds qs i hs (omega arith)

random_request-InBounds :
    (r : RandomTrader) (d : Draws) → IsValid r → InBounds r.client_id (random_request r d)
random_request-InBounds r d v =
    let above = v.base_above (d.ticker % me_max_tickers) in
    let below = v.base_below (d.ticker % me_max_tickers) in
    record {
      of_client = refl;
      known = omega arith;
      price_above = omega arith;
      price_below = omega arith;
      qty_above = omega arith;
      qty_below = omega arith;
    }

pub new_trader-IsValid : (client now : ℕ) (draws : ℕ → ℕ) → IsValid (new_trader client now draws)
unfolding new_trader
new_trader-IsValid client now draws = record {
  base_above = λ t. omega arith;
  base_below = λ t. omega arith;
  asked = tt;
  counted = refl;
  few = omega arith;
  cancels_something = λ e. cc;
}

send_new-Acted :
    (r : RandomTrader) (d : Draws) (time : ℕ)
    → IsValid r
    → r.order_count < 10000
    → r.cancel_next ≡ false
    → Acted r (record (send_new r d) { next_action_time = time })
unfolding send_new
send_new-Acted r d time v room e = record {
  valid = record {
    base_above = v.base_above;
    base_below = v.base_below;
    asked = AllInBounds-append r.client_id r.requests _ v.asked (random_request-InBounds r d v, tt);
    counted = omega (arith, v.counted, length-append r.requests (random_request r d ∷ []));
    few = omega arith;
    cancels_something = λ _. omega arith;
  };
  same_client = refl;
  placed = ground (arith, placements-append r.sent (random_request r d ∷ []));
  outcome = inr (random_request r d, refl, random_request-InBounds r d v, rw e refl, rw e refl);
}

-- The trader as it is after a cancel of `q`.
abbrev cancelled : RandomTrader → MeClientRequest → RandomTrader
cancelled r q = record r {
  cancel_next = false;
  sent = r.sent ++ (record q { type = ClientRequestType.cancel } ∷ []);
}

cancelled-Acted :
    (r : RandomTrader) (q : MeClientRequest) (time : ℕ)
    → IsValid r
    → InBounds r.client_id q
    → r.cancel_next ≡ true
    → Acted r (record (cancelled r q) { next_action_time = time })
cancelled-Acted r q time v b e = record {
  valid = record {
    base_above = v.base_above;
    base_below = v.base_below;
    asked = v.asked;
    counted = v.counted;
    few = v.few;
    cancels_something = λ f. cc;
  };
  same_client = refl;
  placed =
      ground (arith, placements-append r.sent (record q { type = ClientRequestType.cancel } ∷ []));
  outcome = inr (
    _,
    refl,
    record {
      of_client = b.of_client;
      known = b.known;
      price_above = b.price_above;
      price_below = b.price_below;
      qty_above = b.qty_above;
      qty_below = b.qty_below;
    },
    rw e refl,
    rw e refl,
  );
}

send_cancel-ok :
    (r : RandomTrader) (draw : ℕ)
    → IsValid r
    → r.cancel_next ≡ true
    → (q : MeClientRequest) × (send_cancel r draw ≡ ok (cancelled r q)) × InBounds r.client_id q
unfolding send_cancel
send_cancel-ok r draw v e =
    let some_order = v.cancels_something e in
    let (q, found, b) =
      get_elem?-InBounds r.requests (draw % length r.requests) v.asked (omega (arith, v.counted)) in
    (q, rw (send_cancel, found) refl, b)

still-Acted : (r : RandomTrader) → IsValid r → Acted r r
still-Acted r v = record { valid = v; same_client = refl; placed = refl; outcome = inl refl }

-- On a valid trader the timer returns, whatever is drawn: the trader stays valid, and sends nothing
-- or one request within the bounds, where new orders and cancels take turns.
pub on_timer-Acted : (r : RandomTrader) (k : Tick) → IsValid r → Returns (Acted r) (on_timer r k)
unfolding on_timer
on_timer-Acted r k v = elim (Bool-cases (leb 10000 r.order_count || ltb k.now r.next_action_time)) [
  | inl e ↦ rw (e, if◌then◌else◌) (gives (still-Acted r v))
  | inr e ↦ elim (Bool-cases r.cancel_next) [
    | inl c ↦
        let (q, sent, b) = send_cancel-ok r k.cancel_draw v c in
        simp (e, c, sent, if◌then◌else◌) (gives (cancelled-Acted r q _ v b c))
    | inr c ↦ simp (e, c, if◌then◌else◌) (gives (send_new-Acted r k.draws _ v (ground arith) c))
  ]
]

-- The timer, called over and over.
unfoldable pub run_timers : RandomTrader → List Tick → Result RandomTrader
run_timers r [] = ok r
run_timers r (k ∷ ks) = on_timer r k >>= λ s. run_timers s ks

pub record Asked (client : ℕ) (r : RandomTrader) : Type 0 where
  pub valid : IsValid r
  pub by : r.client_id ≡ client
  pub all : AllInBounds client r.sent
  pub counted : placements r.sent ≡ r.order_count

Acted-Asked : {c : ℕ} (r s : RandomTrader) → Asked c r → Acted r s → Asked c s
Acted-Asked {c} r s a t = record {
  valid = t.valid;
  by = t.same_client ∙ a.by;
  counted = omega (arith, t.placed, a.counted);
  all = elim t.outcome [
    | inl e ↦ rw e a.all
    | inr (q, e, b, _, _) ↦
        rw e (AllInBounds-append c r.sent (q ∷ []) a.all (subst (λ n. InBounds n q) a.by b, tt))
  ];
}

run_timers-Asked :
    {c : ℕ} (r : RandomTrader) (ks : List Tick) → Asked c r → Returns (Asked c) (run_timers r ks)
unfolding run_timers
run_timers-Asked r [] a = gives a
run_timers-Asked r (k ∷ ks) a =
    Returns-bind (on_timer-Acted r k a.valid) (λ s t. run_timers-Asked s ks (Acted-Asked r s a t))

-- A new trader never fails, whatever the clock says and whatever is drawn: it asks only for known
-- instruments, with prices from 101 to 209 and quantities from 2 to 101, in its own name, and at most
-- 10000 of the requests that it sends place an order.
pub run_timers_new :
    (client now : ℕ) (draws : ℕ → ℕ) (ks : List Tick)
    → Returns
        (λ r. AllInBounds client r.sent × (placements r.sent ≤ 10000))
        (run_timers (new_trader client now draws) ks)
unfolding new_trader
run_timers_new client now draws ks =
    Returns-mono
      (run_timers-Asked (new_trader client now draws) ks (record {
        valid = new_trader-IsValid client now draws;
        by = refl;
        all = tt;
        counted = refl;
      }))
      (λ r a. (a.all, omega (arith, a.counted, a.valid.few)))
