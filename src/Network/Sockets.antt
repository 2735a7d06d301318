-- ===== src/Network/Sockets.antt =====
-- include/networking/socket_utils.hpp: how a socket is created. The kernel is a parameter: what it
-- answers to a call may depend on all calls before. `getaddrinfo` gives the addresses.
pub mod Connecting
mod Tests
use Prim.Native.String.{String}
use text.Mathlib.Text as Text
use trading_system.Prelude.{
  ℕ, ◌==◌, Bool, true, false, not, ◌&&◌, List, [], ◌∷◌, Option, none, some, Result, ok, err, ◌>>=◌,
  ◌>>◌, require, assert_failed, if◌then◌else◌,
}
use trading_system.Prelude.Int.{ℤ, pos, negsuc}

abbrev pub max_tcp_server_backlog : ℕ
max_tcp_server_backlog = 1024

pub record SocketConfigs : Type 0 where
  pub ip : String
  pub iface : String
  pub port : ℤ
  pub is_udp : Bool
  pub is_listening : Bool
  pub needs_so_timestamp : Bool

abbrev pub is_minus_one : ℤ → Bool
is_minus_one (pos n) = false
is_minus_one (negsuc n) = n == 0

abbrev pub is_pos : ℕ → ℤ → Bool
is_pos m (pos n) = n == m
is_pos m (negsuc n) = false

-- An address is the number of its entry in the list that `getaddrinfo` gives.
pub data SystemCall : Type 0 where
  open_socket : ℕ → SystemCall
  get_flags : ℤ → SystemCall
  set_flags : ℤ → ℤ → SystemCall
  no_delay : ℤ → SystemCall
  connect : ℤ → ℕ → SystemCall
  reuse_address : ℤ → SystemCall
  bind_any : ℤ → ℤ → SystemCall
  bind_to : ℤ → ℕ → SystemCall
  listen : ℤ → ℕ → SystemCall
  so_timestamp : ℤ → SystemCall
  time_to_live : ℤ → ℤ → SystemCall
  mcast_time_to_live : ℤ → ℤ → SystemCall
  add_membership : ℤ → String → SystemCall

-- An entry of `getifaddrs`: whether it has an address of the family AF_INET, and that address as
-- `getnameinfo` prints it.
pub record Interface : Type 0 where
  pub is_inet : Bool
  pub name : String
  pub host : String

-- `resolve` is `getaddrinfo` for the address, with the port and the hints of the configuration, and
-- `interfaces` what `getifaddrs` gives; `none` is a failure. `answer` gets the calls, the latest first; `has_nonblock` and `with_nonblock` test and set O_NONBLOCK.
pub record Kernel : Type 0 where
  pub interfaces : Option (List Interface)
  pub resolve : String → SocketConfigs → Option (List ℕ)
  pub answer : List SystemCall → ℤ
  pub has_nonblock : ℤ → Bool
  pub with_nonblock : ℤ → ℤ

-- The first interface of that name, and an empty text where there is none.
unfoldable pub host_of : List Interface → String → String
host_of [] iface = ""
host_of (i ∷ rest) iface =
    let later = host_of rest iface in if i.is_inet && Text.◌==◌ i.name iface then i.host else later

unfoldable pub get_iface_ip : Option (List Interface) → String → String
unfolding host_of
get_iface_ip none iface = ""
get_iface_ip (some interfaces) iface = host_of interfaces iface

abbrev pub found : Option (List ℕ) → Result (List ℕ)
found none = err assert_failed
found (some results) = ok results

module _ (k : Kernel) where
  -- What the calls so far are, and what the kernel answers to one more.
  abbrev pub call : SystemCall → List SystemCall → ℤ × List SystemCall
  call c calls = (k.answer (c ∷ calls), c ∷ calls)

  -- A call that returns zero when it succeeds.
  abbrev pub call_is_zero : SystemCall → List SystemCall → Bool × List SystemCall
  call_is_zero c calls = (is_pos 0 (k.answer (c ∷ calls)), c ∷ calls)

  unfoldable pub change_flags : ℤ → ℤ → List SystemCall → Bool × List SystemCall
  change_flags fd flags calls =
      let c = set_flags fd (k.with_nonblock flags) in
      (not (is_minus_one (k.answer (c ∷ calls))), c ∷ calls)

  unfoldable pub set_non_blocking : ℤ → List SystemCall → Bool × List SystemCall
  unfolding change_flags
  set_non_blocking fd calls =
      let asked = get_flags fd ∷ calls in
      let flags = k.answer asked in
      if is_minus_one flags
      then (false, asked)
      else (if k.has_nonblock flags then (true, asked) else change_flags fd flags asked)

  abbrev pub disable_nagle : ℤ → List SystemCall → Bool × List SystemCall
  disable_nagle fd = call_is_zero (no_delay fd)

  abbrev pub set_so_timestamp : ℤ → List SystemCall → Bool × List SystemCall
  set_so_timestamp fd = call_is_zero (so_timestamp fd)

  abbrev pub set_ttl : ℤ → ℤ → List SystemCall → Bool × List SystemCall
  set_ttl fd ttl = call_is_zero (time_to_live fd ttl)

  abbrev pub set_mcast_ttl : ℤ → ℤ → List SystemCall → Bool × List SystemCall
  set_mcast_ttl fd ttl = call_is_zero (mcast_time_to_live fd ttl)

  unfoldable pub join : ℤ → String → List SystemCall → Bool × List SystemCall
  join fd ip calls =
      let c = add_membership fd ip in (not (is_minus_one (k.answer (c ∷ calls))), c ∷ calls)

  -- An `ASSERT` on what a call returns, under a condition on the configuration.
  abbrev pub demand :
      Bool → (List SystemCall → Bool × List SystemCall) → List SystemCall → Result (List SystemCall)
  demand false f calls = ok calls
  demand true f calls = do require (f calls).0 assert_failed; ok (f calls).1

  -- The test is against 1.
  abbrev pub connect_to : ℤ → ℕ → List SystemCall → Bool × List SystemCall
  connect_to fd rp calls =
      (not (is_pos 1 (k.answer (connect fd rp ∷ calls))), connect fd rp ∷ calls)

  abbrev pub bind_call : SocketConfigs → ℤ → ℕ → SystemCall
  bind_call cfg fd rp = if cfg.is_udp then bind_any fd cfg.port else bind_to fd rp

  -- One round of the loop of `createSocket`, for the address `rp`.
  unfoldable pub prepare : SocketConfigs → ℕ → List SystemCall → Result (ℤ × List SystemCall)
  unfolding set_non_blocking
  prepare cfg rp calls =
      let (fd, calls) = call (open_socket rp) calls in
      do
        require (not (is_minus_one fd)) assert_failed
        calls ← demand true (set_non_blocking fd) calls
        calls ← demand (not cfg.is_udp) (disable_nagle fd) calls
        calls ← demand (not cfg.is_listening) (connect_to fd rp) calls
        calls ← demand cfg.is_listening (call_is_zero (reuse_address fd)) calls
        calls ← demand cfg.is_listening (call_is_zero (bind_call cfg fd rp)) calls
        calls ←
            demand (not cfg.is_udp && cfg.is_listening)
              (call_is_zero (listen fd max_tcp_server_backlog)) calls
        calls ← demand cfg.needs_so_timestamp (set_so_timestamp fd) calls
        ok (fd, calls)

  -- Over the addresses; the descriptor that is returned is the last one.
  unfoldable pub prepare_all :
      SocketConfigs → List ℕ → ℤ → List SystemCall → Result (ℤ × List SystemCall)
  unfolding prepare
  prepare_all cfg [] fd calls = ok (fd, calls)
  prepare_all cfg (rp ∷ rest) fd calls = do
    (fd, calls) ← prepare cfg rp calls
    prepare_all cfg rest fd calls

  abbrev pub ip_of : SocketConfigs → String
  ip_of cfg = if Text.◌==◌ cfg.ip "" then get_iface_ip k.interfaces cfg.iface else cfg.ip

  unfoldable pub create_socket : SocketConfigs → List SystemCall → Result (ℤ × List SystemCall)
  unfolding prepare_all
  create_socket cfg calls = do
    results ← found (k.resolve (ip_of cfg) cfg)
    prepare_all cfg results (negsuc 0) calls
