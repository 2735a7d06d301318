-- ===== src/Network/Sockets/Tests.antt =====
-- A connection that is refused.
use trading_system.Prelude.{◌≡◌, refl, true, false, List, [], ◌∷◌, none, some, ok}
use trading_system.Prelude.Int.{ℤ, pos, negsuc}
use trading_system.Network.Sockets.{
  SocketConfigs, SystemCall, open_socket, get_flags, set_flags, no_delay, connect, so_timestamp,
  Kernel, create_socket,
}
use trading_system.Network.Sockets.Connecting.{all_connected, create_socket-connect_ignored}

-- The descriptor is 3, every connection is refused, and all else succeeds.
abbrev refuses : List SystemCall → ℤ
refuses (open_socket rp ∷ calls) = pos 3
refuses (connect fd rp ∷ calls) = negsuc 0
refuses calls = pos 0

abbrev refusing : Kernel
refusing = record {
  interfaces = none;
  resolve = λ _ _. some (7 ∷ []);
  answer = refuses;
  has_nonblock = λ _. false;
  with_nonblock = λ _. pos 2048;
}

abbrev to_exchange : SocketConfigs
to_exchange = record {
  ip = "127.0.0.1";
  iface = "lo";
  port = pos 12345;
  is_udp = false;
  is_listening = false;
  needs_so_timestamp = true;
}

create_socket-connect_ignored_example :
    create_socket refusing to_exchange [] ≡ create_socket (all_connected refusing) to_exchange []
create_socket-connect_ignored_example =
    create_socket-connect_ignored refusing to_exchange [] (λ fd rp calls. refl)

-- The socket is returned.
created :
    create_socket refusing to_exchange []
    ≡ ok (
      pos 3,
      so_timestamp (pos 3)
          ∷ connect (pos 3) 7
          ∷ no_delay (pos 3)
          ∷ set_flags (pos 3) (pos 2048)
          ∷ get_flags (pos 3)
          ∷ open_socket 7
          ∷ [],
    )
unfolding create_socket
created = refl
