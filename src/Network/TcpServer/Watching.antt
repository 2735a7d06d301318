-- ===== src/Network/TcpServer/Watching.antt =====
-- Which sockets are watched after a poll.
use trading_system.Prelude.{
  ℕ, ◌≡◌, refl, ◌∙◌, inl, inr, Bool, true, false, ◌&&◌, ◌||◌, List, [], ◌∷◌, ◌++◌, some, arith,
  ◌==◌, Bool-cases,
}
use trading_system.Network.TcpSocket.{TcpSocket}
use trading_system.Network.TcpServer.{
  TcpServer, contains, insert, Event, watch_recv, watch_send, on_event,
}

abbrev pub Distinct : List ℕ → Type 0
Distinct [] = Unit {0}
Distinct (x ∷ xs) = (contains xs x ≡ false) × Distinct xs

contains-append : (xs : List ℕ) (x y : ℕ) → contains (xs ++ (x ∷ [])) y ≡ (contains xs y || x == y)
contains-append [] x y = ground arith
contains-append (z ∷ xs) x y = let ih = contains-append xs x y in ground arith

pub contains-insert_self : (xs : List ℕ) (x : ℕ) → contains (insert xs x) x ≡ true
unfolding insert
contains-insert_self xs x = let last = contains-append xs x x in ground arith

pub contains-insert :
    (xs : List ℕ) (x y : ℕ) → contains xs y ≡ true → contains (insert xs x) y ≡ true
unfolding insert
contains-insert xs x y h = let last = contains-append xs x y in ground arith

append-Distinct :
    (xs : List ℕ) (x : ℕ) → Distinct xs → contains xs x ≡ false → Distinct (xs ++ (x ∷ []))
append-Distinct [] x d h = (refl, tt)
append-Distinct (y ∷ xs) x d h =
    let last = contains-append xs x y in (ground arith, append-Distinct xs x d.1 (ground arith))

pub insert-Distinct : (xs : List ℕ) (x : ℕ) → Distinct xs → Distinct (insert xs x)
unfolding insert
insert-Distinct xs x d = elim (Bool-cases (contains xs x)) [
  | inl e ↦ rw (insert, e) d
  | inr e ↦ rw (insert, e) (append-Distinct xs x d e)
]

-- The server `u` has all that `t` has: no member leaves a set, and no set has a member twice.
pub record Grows (t u : TcpServer) : Type 0 where
  pub same_listener : u.listener_fd ≡ t.listener_fd
  pub kept_recv : (fd : ℕ) → contains t.recv_sockets fd ≡ true → contains u.recv_sockets fd ≡ true
  pub kept_send : (fd : ℕ) → contains t.send_sockets fd ≡ true → contains u.send_sockets fd ≡ true
  pub kept_sockets :
      (fd : ℕ) (s : TcpSocket) → t.all_sockets fd ≡ some s → u.all_sockets fd ≡ some s
  pub distinct_recv : Distinct t.recv_sockets → Distinct u.recv_sockets
  pub distinct_send : Distinct t.send_sockets → Distinct u.send_sockets

pub Grows-refl : (t : TcpServer) → Grows t t
Grows-refl t = record {
  same_listener = refl;
  kept_recv = λ fd h. h;
  kept_send = λ fd h. h;
  kept_sockets = λ fd s h. h;
  distinct_recv = λ d. d;
  distinct_send = λ d. d;
}

pub Grows-trans : {t u v : TcpServer} → Grows t u → Grows u v → Grows t v
Grows-trans g h = record {
  same_listener = h.same_listener ∙ g.same_listener;
  kept_recv = λ fd k. h.kept_recv fd (g.kept_recv fd k);
  kept_send = λ fd k. h.kept_send fd (g.kept_send fd k);
  kept_sockets = λ fd s k. h.kept_sockets fd s (g.kept_sockets fd s k);
  distinct_recv = λ d. h.distinct_recv (g.distinct_recv d);
  distinct_send = λ d. h.distinct_send (g.distinct_send d);
}

pub watch_recv-Grows : (t : TcpServer) (b : Bool) (fd : ℕ) → Grows t (watch_recv t b fd)
watch_recv-Grows t false fd = Grows-refl t
watch_recv-Grows t true fd = record {
  same_listener = refl;
  kept_recv = contains-insert t.recv_sockets fd;
  kept_send = λ fd h. h;
  kept_sockets = λ fd s h. h;
  distinct_recv = insert-Distinct t.recv_sockets fd;
  distinct_send = λ d. d;
}

pub watch_send-Grows : (t : TcpServer) (b : Bool) (fd : ℕ) → Grows t (watch_send t b fd)
watch_send-Grows t false fd = Grows-refl t
watch_send-Grows t true fd = record {
  same_listener = refl;
  kept_recv = λ fd h. h;
  kept_send = contains-insert t.send_sockets fd;
  kept_sockets = λ fd s h. h;
  distinct_recv = λ d. d;
  distinct_send = insert-Distinct t.send_sockets fd;
}

pub on_event-Grows : (t : TcpServer) (e : Event) → Grows t (on_event t e).1
unfolding on_event
on_event-Grows t e = elim (Bool-cases (e.readable && e.fd == t.listener_fd)) [
  | inl h ↦ rw h (Grows-refl t)
  | inr h ↦ rw h (
      Grows-trans (watch_recv-Grows t e.readable e.fd)
        (Grows-trans (watch_send-Grows _ e.writable e.fd) (watch_recv-Grows _ e.failed e.fd)))
]
