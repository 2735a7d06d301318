-- ===== src/Network/TcpSocket/Tests.antt =====
-- A turn in which the kernel takes three of five bytes.
use mathlib.Core.List.{flatten}
use trading_system.Prelude.{ℕ, refl, List, [], ◌∷◌, Result, ok, ◌>>=◌, arith, Returns}
use trading_system.Network.TcpSocket.{TcpSocket, new_socket, Kernel, send_and_recv}
use trading_system.Network.TcpSocket.Sending.{send_all, Went, send_and_recv-Went}

abbrev no_callback : ℕ → TcpSocket → ℕ → Result (ℕ × TcpSocket)
no_callback w s time = ok (w, s)

abbrev two_messages : List (List ℕ)
two_messages = (1 ∷ 2 ∷ []) ∷ (3 ∷ 4 ∷ 5 ∷ []) ∷ []

abbrev busy : Kernel
busy = record { arrived = []; time = 0; accepts = 3 }

send_and_recv-Went_example :
    Returns
      (Went two_messages busy 0)
      (send_all (new_socket 7) two_messages >>= λ s1. send_and_recv no_callback 0 s1 busy)
unfolding flatten
send_and_recv-Went_example =
    send_and_recv-Went no_callback 0 (new_socket 7) two_messages busy refl (omega arith) refl
