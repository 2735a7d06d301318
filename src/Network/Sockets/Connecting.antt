-- ===== src/Network/Sockets/Connecting.antt =====
-- What `createSocket` makes of the answer of `connect`.
use trading_system.Prelude.{
  ℕ, ◌≡◌, refl, ap, ◌∙◌, Bool, true, false, not, List, [], ◌∷◌, Result, ok, err, ◌>>=◌, require,
  assert_failed, if◌then◌else◌,
}
use trading_system.Prelude.Int.{ℤ, pos, negsuc}
use trading_system.Network.Sockets.{
  SocketConfigs, SystemCall, open_socket, connect, Kernel, is_pos, demand, call_is_zero, bind_call,
  set_non_blocking, disable_nagle, reuse_address, is_minus_one, bind_any, bind_to, connect_to,
  prepare, prepare_all, found, ip_of, create_socket,
}

-- The answers of a kernel whose `connect` always succeeds.
abbrev pub connected : (List SystemCall → ℤ) → List SystemCall → ℤ
connected answer (connect fd rp ∷ calls) = pos 0
connected answer calls = answer calls

abbrev pub all_connected : Kernel → Kernel
all_connected k = record k { answer = connected k.answer }

-- `connect` returns 0 or -1, so never 1.
abbrev pub NeverOne : Kernel → Type 0
NeverOne k =
    (fd : ℤ) (rp : ℕ) (calls : List SystemCall)
    → is_pos 1 (k.answer (connect fd rp ∷ calls)) ≡ false

bind-same {ℓ κ} :
    {A : Type ℓ} {B : Type κ} (r r' : Result A) {f g : A → Result B}
    → r ≡ r'
    → ((a : A) → f a ≡ g a)
    → (r >>= f) ≡ (r' >>= g)
bind-same (ok a) r' {g} e h = h a ∙ ap (λ x. x >>= g) e
bind-same (err e') r' {g} e h = ap (λ x. x >>= g) e

demand-same :
    (k : Kernel) (b : Bool) (f g : List SystemCall → Bool × List SystemCall)
    (calls : List SystemCall)
    → f calls ≡ g calls
    → demand k b f calls ≡ demand (all_connected k) b g calls
demand-same k false f g calls e = refl
demand-same k true f g calls e = ap (λ r. require r.0 assert_failed >>= (λ _. ok r.1)) e

connect_to-same :
    (k : Kernel) (fd : ℤ) (rp : ℕ) (calls : List SystemCall)
    → NeverOne k
    → connect_to k fd rp calls ≡ connect_to (all_connected k) fd rp calls
connect_to-same k fd rp calls h = ap (λ b. (not b, connect fd rp ∷ calls)) (h fd rp calls)

bind_call-same :
    (k : Kernel) (cfg : SocketConfigs) (fd : ℤ) (rp : ℕ) (calls : List SystemCall)
    → call_is_zero k (bind_call k cfg fd rp) calls
      ≡ call_is_zero (all_connected k) (bind_call (all_connected k) cfg fd rp) calls
bind_call-same k cfg fd rp calls =
    elim cfg.is_udp
      as (λ u.
        (let c = if u then bind_any fd cfg.port else bind_to fd rp in
          call_is_zero k c calls ≡ call_is_zero (all_connected k) c calls)) [
            | true ↦ refl
            | false ↦ refl
          ]

prepare-same :
    (k : Kernel) (cfg : SocketConfigs) (rp : ℕ) (calls : List SystemCall)
    → NeverOne k
    → prepare k cfg rp calls ≡ prepare (all_connected k) cfg rp calls
unfolding prepare
prepare-same k cfg rp calls h =
    let fd = k.answer (open_socket rp ∷ calls) in
    let k' = all_connected k in
    let r1 = require (not (is_minus_one fd)) assert_failed in
    bind-same r1 r1 refl (λ _.
      let r2 = demand k true (set_non_blocking k fd) (open_socket rp ∷ calls) in
      bind-same r2 r2 refl (λ c2.
        let r3 = demand k (not cfg.is_udp) (disable_nagle k fd) c2 in
        bind-same r3 r3 refl (λ c3.
          bind-same (demand k (not cfg.is_listening) (connect_to k fd rp) c3)
            (demand k' (not cfg.is_listening) (connect_to k' fd rp) c3)
            (demand-same k (not cfg.is_listening) (connect_to k fd rp) (connect_to k' fd rp) c3
              (connect_to-same k fd rp c3 h))
            (λ c4.
              let r5 = demand k cfg.is_listening (call_is_zero k (reuse_address fd)) c4 in
              bind-same r5 r5 refl (λ c5.
                bind-same (demand k cfg.is_listening (call_is_zero k (bind_call k cfg fd rp)) c5)
                  (demand k' cfg.is_listening (call_is_zero k' (bind_call k' cfg fd rp)) c5)
                  (demand-same k cfg.is_listening (call_is_zero k (bind_call k cfg fd rp))
                    (call_is_zero k' (bind_call k' cfg fd rp)) c5 (bind_call-same k cfg fd rp c5))
                  (λ c6. refl))))))

prepare_all-same :
    (k : Kernel) (cfg : SocketConfigs) (rps : List ℕ) (fd : ℤ) (calls : List SystemCall)
    → NeverOne k
    → prepare_all k cfg rps fd calls ≡ prepare_all (all_connected k) cfg rps fd calls
unfolding prepare_all
prepare_all-same k cfg [] fd calls h = refl
prepare_all-same k cfg (rp ∷ rps) fd calls h =
    bind-same (prepare k cfg rp calls) (prepare (all_connected k) cfg rp calls)
      (prepare-same k cfg rp calls h) (λ r. prepare_all-same k cfg rps r.0 r.1 h)

-- As `connect` returns 0 or -1, a socket is created in the same way, and the same calls are made,
-- whether its connections succeed or not.
pub create_socket-connect_ignored :
    (k : Kernel) (cfg : SocketConfigs) (calls : List SystemCall)
    → NeverOne k
    → create_socket k cfg calls ≡ create_socket (all_connected k) cfg calls
unfolding create_socket
create_socket-connect_ignored k cfg calls h =
    bind-same (found (k.resolve (ip_of k cfg) cfg)) (found (k.resolve (ip_of k cfg) cfg)) refl
      (λ rps. prepare_all-same k cfg rps (negsuc 0) calls h)
