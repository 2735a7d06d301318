-- ===== src/Exchange/OrderServer/Chunks.antt =====
-- Bytes that come in more than one piece: what the callback makes of them does not depend on the cuts.
use trading_system.Prelude.{
  ℕ, zero, suc, ◌≤◌, ◌<◌, ◌≡◌, refl, sym, ap, ◌∙◌, inl, inr, true, List, [], ◌∷◌, ◌++◌,
  Result-cases, ok, ◌>>=◌, arith, leb, Bool-cases, length, length-append, length-drop, take, drop,
  Allows, allowed, Allows-bind, Allows-any,
}
use trading_system.Messages.{OgClientRequest}
use trading_system.Exchange.OrderServer.{
  OrderServer, recv_request, recv_requests, request_size, split_requests, recv_callbacks,
}

take-append_of_le : (n : ℕ) (a b : List ℕ) → n ≤ length a → take n (a ++ b) ≡ take n a
take-append_of_le zero a b h = refl
take-append_of_le (suc n) [] b h = absurd (omega arith)
take-append_of_le (suc n) (x ∷ a) b h = ap (λ t. x ∷ t) (take-append_of_le n a b (omega arith))

drop-append_of_le : (n : ℕ) (a b : List ℕ) → n ≤ length a → drop n (a ++ b) ≡ drop n a ++ b
drop-append_of_le zero a b h = refl
drop-append_of_le (suc n) [] b h = absurd (omega arith)
drop-append_of_le (suc n) (x ∷ a) b h = drop-append_of_le n a b (omega arith)

module _ (decode : List ℕ → OgClientRequest) where
  abbrev requests_in : ℕ → List ℕ → List OgClientRequest
  requests_in k a = (split_requests decode k a).0

  abbrev left_in : ℕ → List ℕ → List ℕ
  left_in k a = (split_requests decode k a).1

  split-short : (k : ℕ) (a : List ℕ) → length a < request_size → split_requests decode k a ≡ ([], a)
  unfolding split_requests
  split-short zero a h = refl
  split-short (suc k) a h = ground arith

  split-whole :
      (k : ℕ) (a : List ℕ)
      → leb request_size (length a) ≡ true
      → split_requests decode (suc k) a ≡ (
        decode (take request_size a) ∷ requests_in k (drop request_size a),
        left_in k (drop request_size a),
      )
  unfolding split_requests
  split-whole k a h = rw (h, split_requests) refl

  split-nothing : (a : List ℕ) → length a ≤ 0 → length a < request_size
  split-nothing a h = omega arith

  left-short : (k : ℕ) (a : List ℕ) → length a < request_size → left_in k a ≡ a
  left-short k a h = ap (λ p. p.1) (split-short k a h)

  requests-short : (k : ℕ) (a : List ℕ) → length a < request_size → requests_in k a ≡ []
  requests-short k a h = ap (λ p. p.0) (split-short k a h)

  left-whole :
      (k : ℕ) (a : List ℕ)
      → leb request_size (length a) ≡ true
      → left_in (suc k) a ≡ left_in k (drop request_size a)
  left-whole k a h = ap (λ p. p.1) (split-whole k a h)

  requests-whole :
      (k : ℕ) (a : List ℕ)
      → leb request_size (length a) ≡ true
      → requests_in (suc k) a ≡ decode (take request_size a) ∷ requests_in k (drop request_size a)
  requests-whole k a h = ap (λ p. p.0) (split-whole k a h)

  -- More fuel than bytes changes nothing.
  split-fuel :
      (k m : ℕ) (a : List ℕ)
      → length a ≤ k
      → length a ≤ m
      → split_requests decode k a ≡ split_requests decode m a
  split-fuel zero m a h g = split-short zero a (omega arith) ∙ sym (split-short m a (omega arith))
  split-fuel (suc k) zero a h g =
      split-short (suc k) a (omega arith) ∙ sym (split-short zero a (omega arith))
  split-fuel (suc k) (suc m) a h g = elim (Bool-cases (leb request_size (length a))) [
    | inl e ↦
        let shorter = length-drop request_size a in
        let ih =
          split-fuel k m (drop request_size a) (omega (arith, h, shorter))
            (omega (arith, g, shorter)) in
        split-whole k a e
        ∙ ap (λ p. (decode (take request_size a) ∷ p.0, p.1)) ih
        ∙ sym (split-whole m a e)
    | inr e ↦
        let short : length a < request_size = ground arith in
        split-short (suc k) a short ∙ sym (split-short (suc m) a short)
  ]

  -- What is left is less than a request, and no more than there was.
  split-left :
      (k : ℕ) (a : List ℕ)
      → length a ≤ k
      → (length (left_in k a) < request_size) × (length (left_in k a) ≤ length a)
  split-left zero a h = rw (left-short zero a (split-nothing a h)) (split-nothing a h, omega arith)
  split-left (suc k) a h = elim (Bool-cases (leb request_size (length a))) [
    | inl e ↦
        let shorter = length-drop request_size a in
        let (short, few) = split-left k (drop request_size a) (omega (arith, h, shorter)) in
        rw (left-whole k a e) (short, omega (arith, few, shorter))
    | inr e ↦
        let short : length a < request_size = ground arith in
        rw (left-short (suc k) a short) (short, omega arith)
  ]

  -- Bytes that come later are cut behind what was left.
  split-append :
      (k m : ℕ) (a b : List ℕ)
      → length a ≤ k
      → length (a ++ b) ≤ m
      → split_requests decode m (a ++ b)
        ≡ (requests_in k a ++ requests_in m (left_in k a ++ b), left_in m (left_in k a ++ b))
  split-append zero m a b h g =
      rw (left-short zero a (split-nothing a h), requests-short zero a (split-nothing a h)) refl
  split-append (suc k) zero a b h g =
      let none_there = length-append a b in
      let short : length a < request_size = omega (arith, g, none_there) in
      rw (left-short (suc k) a short, requests-short (suc k) a short) refl
  split-append (suc k) (suc m) a b h g = elim (Bool-cases (leb request_size (length a))) [
    | inl e ↦
        let rest = drop request_size a in
        let there = length-append a b in
        let shorter = length-drop request_size a in
        let longer = length-append rest b in
        let left = length-append (left_in k rest) b in
        let few = (split-left k rest (omega (arith, h, shorter))).1 in
        let enough : request_size ≤ length a = ground arith in
        let ih =
          split-append k m rest b (omega (arith, h, shorter))
            (omega (arith, g, there, longer, shorter, enough)) in
        let refuel =
          split-fuel m (suc m) (left_in k rest ++ b)
            (omega (arith, g, there, left, few, shorter, enough))
            (omega (arith, g, there, left, few, shorter, enough)) in
        split-whole m (a ++ b) (ground (arith, there, enough))
        ∙ rw
            (
              take-append_of_le request_size a b enough,
              drop-append_of_le request_size a b enough,
              ap (λ p. p.0) ih,
              ap (λ p. p.1) ih,
              left-whole k a e,
              requests-whole k a e,
              ap (λ p. p.0) refuel,
              ap (λ p. p.1) refuel,
            )
            refl
    | inr e ↦
        let short : length a < request_size = ground arith in
        rw (left-short (suc k) a short, requests-short (suc k) a short) refl
  ]

recv_requests-append :
    (o : OrderServer) (socket time : ℕ) (rs ss : List OgClientRequest)
    → recv_requests o socket time (rs ++ ss)
      ≡ (recv_requests o socket time rs >>= λ o1. recv_requests o1 socket time ss)
unfolding recv_requests
recv_requests-append o socket time [] ss = refl
recv_requests-append o socket time (r ∷ rs) ss =
    elim (Result-cases (recv_request o socket time r)) [
      | inl (o1, e) ↦ rw (recv_requests, e) (recv_requests-append o1 socket time rs ss)
      | inr (x, e) ↦ rw (recv_requests, e) refl
    ]

module _ (decode : List ℕ → OgClientRequest) where
  -- Bytes that come in two pieces are handled like the two pieces in one: the requests are the same,
  -- in the same order, and so are the bytes that stay behind.
  pub recv_callbacks-append :
      (o : OrderServer) (socket time : ℕ) (a b : List ℕ)
      → recv_callbacks decode o socket time (a ++ b) ≡ (
          recv_callbacks decode o socket time a >>= λ p.
          recv_callbacks decode p.0 socket time (p.1 ++ b))
  unfolding recv_callbacks
  recv_callbacks-append o socket time a b =
      let left = left_in decode (length a) a in
      let few = (split-left decode (length a) a (omega arith)).1 in
      let fits : length (left ++ b) ≤ length (a ++ b) =
        omega (arith, few, length-append left b, length-append a b) in
      let cut = split-append decode (length a) (length (a ++ b)) a b (omega arith) (omega arith) in
      let refuel =
        split-fuel decode (length (a ++ b)) (length (left ++ b)) (left ++ b) fits (omega arith) in
      elim (Result-cases (recv_requests o socket time (requests_in decode (length a) a))) [
        | inl (o1, e) ↦
            rw
              (
                recv_callbacks,
                ap (λ p. p.0) cut,
                ap (λ p. p.1) cut,
                recv_requests-append,
                e,
                ap (λ p. p.0) refuel,
                ap (λ p. p.1) refuel,
              )
              refl
        | inr (x, e) ↦
            rw (recv_callbacks, ap (λ p. p.0) cut, ap (λ p. p.1) cut, recv_requests-append, e) refl
      ]

  pub recv_callbacks-left :
      (o : OrderServer) (socket time : ℕ) (a : List ℕ)
      → Allows
          (λ p. (length p.1 < request_size) × (length p.1 ≤ length a))
          (recv_callbacks decode o socket time a)
  unfolding recv_callbacks
  recv_callbacks-left o socket time a =
      Allows-bind {f = λ o1. ok (o1, left_in decode (length a) a)}
        (Allows-any (recv_requests o socket time (requests_in decode (length a) a)))
        (λ o1 _. allowed (split-left decode (length a) a (omega arith)))

  -- Less than a request waits for more.
  pub recv_callbacks-short :
      (o : OrderServer) (socket time : ℕ) (a : List ℕ)
      → length a < request_size
      → recv_callbacks decode o socket time a ≡ ok (o, a)
  unfolding recv_callbacks recv_requests
  recv_callbacks-short o socket time a h =
      rw (recv_callbacks, split-short decode (length a) a h) refl
