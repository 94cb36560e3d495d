-- ===== src/Ws/Rooms.antt =====
-- Histories of connects, disconnects and sends, against the relation between users (or jobs) and sockets
-- that they mean.
use clutch_d_backend.Base.{
  ℕ, ◌≡◌, refl, ap, ◌∙◌, inl, inr, Bool, true, not, ◌&&◌, ◌||◌, List, [], ◌∷◌, ◌==◌, arith,
  Bool-cases, select, ==_eq, ==_refl, if_elim,
}
use clutch_d_backend.Ws.Manager.{
  Room, has_socket, connect, disconnect, sockets_of, disconnect_all, send_json,
}
use clutch_d_backend.Ws.Clean.{
  IsClean, IsSockets, is_connected, connect-IsClean, connect-is_connected, disconnect-IsClean,
  disconnect-is_connected,
}

-- `send` with the sockets that can be sent to at that time.
pub data SocketEvent : Type 0 where
  joins leaves : (key ws : ℕ) → SocketEvent
  sends : (key : ℕ) → (ℕ → Bool) → SocketEvent

unfoldable pub handle : SocketEvent → List Room → List Room
unfolding connect disconnect send_json
handle (SocketEvent.joins key ws) rooms = connect key ws rooms
handle (SocketEvent.leaves key ws) rooms = disconnect key ws rooms
handle (SocketEvent.sends key alive) rooms = (send_json alive key rooms).1

unfoldable pub run : List SocketEvent → List Room → List Room
run [] rooms = rooms
run (e ∷ events) rooms = run events (handle e rooms)

-- The same on the relation: a send leaves the sockets under its key that it reaches.
abbrev pub meant : SocketEvent → (ℕ → ℕ → Bool) → ℕ → ℕ → Bool
meant (SocketEvent.joins key ws) on k v = (k == key && v == ws) || on k v
meant (SocketEvent.leaves key ws) on k v = not (k == key && v == ws) && on k v
meant (SocketEvent.sends key alive) on k v = on k v && (not (k == key) || alive v)

abbrev pub replay : List SocketEvent → (ℕ → ℕ → Bool) → ℕ → ℕ → Bool
replay [] on = on
replay (e ∷ events) on = replay events (meant e on)

disconnect_all-lem :
    (key : ℕ) (dead : List ℕ) (rooms : List Room)
    → IsClean rooms
    → IsClean (disconnect_all key dead rooms)
      × ((k v : ℕ)
          → is_connected k v (disconnect_all key dead rooms)
            ≡ (not (k == key && has_socket v dead) && is_connected k v rooms))
unfolding disconnect_all
disconnect_all-lem key [] rooms clean = (clean, λ k v. ground arith)
disconnect_all-lem key (ws ∷ dead) rooms clean =
    let (still, rest) =
      disconnect_all-lem key dead (disconnect key ws rooms)
        (disconnect-IsClean key ws rooms clean) in
    (still, λ k v. ground (arith, rest k v, disconnect-is_connected key ws k v rooms clean))

has_socket-select :
    (p : ℕ → Bool) (v : ℕ) (sockets : List ℕ)
    → has_socket v (select p sockets) ≡ (p v && has_socket v sockets)
has_socket-select p v [] = ground arith
has_socket-select p v (x ∷ sockets) = elim (Bool-cases (x == v)) [
  | inl hit ↦
      let same : p x ≡ p v = ap p (==_eq x v hit) in
      ground (arith, same, has_socket-select p v sockets)
  | inr miss ↦ ground (arith, has_socket-select p v sockets)
]

same_room :
    (key k v : ℕ) (rooms : List Room)
    → (k == key) ≡ true
    → is_connected k v rooms ≡ is_connected key v rooms
same_room key k v rooms hit = ap (λ i. is_connected i v rooms) (==_eq k key hit)

meant-ext :
    (e : SocketEvent) (f g : ℕ → ℕ → Bool)
    → ((k v : ℕ) → f k v ≡ g k v)
    → (k v : ℕ) → meant e f k v ≡ meant e g k v
meant-ext (SocketEvent.joins key ws) f g h k v = cc (h k v)
meant-ext (SocketEvent.leaves key ws) f g h k v = cc (h k v)
meant-ext (SocketEvent.sends key alive) f g h k v = cc (h k v)

handle-lem :
    (e : SocketEvent) (rooms : List Room)
    → IsClean rooms
    → IsClean (handle e rooms)
      × ((k v : ℕ)
          → is_connected k v (handle e rooms) ≡ meant e (λ i u. is_connected i u rooms) k v)
unfolding handle send_json
handle-lem (SocketEvent.joins key ws) rooms clean =
    (connect-IsClean key ws rooms clean, λ k v. connect-is_connected key ws k v rooms)
handle-lem (SocketEvent.leaves key ws) rooms clean =
    (disconnect-IsClean key ws rooms clean, λ k v. disconnect-is_connected key ws k v rooms clean)
handle-lem (SocketEvent.sends key alive) rooms clean =
    let dead = select (λ ws. not (alive ws)) (sockets_of key rooms) in
    let (still, rest) = disconnect_all-lem key dead rooms clean in
    (
      still,
      λ k v. ground (
        arith,
        rest k v,
        has_socket-select (λ ws. not (alive ws)) v (sockets_of key rooms),
        same_room key k v rooms,
      ),
    )

replay-ext :
    (events : List SocketEvent) (f g : ℕ → ℕ → Bool)
    → ((k v : ℕ) → f k v ≡ g k v)
    → (k v : ℕ) → replay events f k v ≡ replay events g k v
replay-ext [] f g h k v = h k v
replay-ext (e ∷ events) f g h k v =
    replay-ext events (meant e f) (meant e g) (meant-ext e f g h) k v

-- After any connects, disconnects and sends to sockets that may be gone, the dictionary holds no key
-- twice, no empty set and no socket twice in a set, and a socket is under a key exactly if the same
-- events say so of the relation, where a send takes away the sockets that it does not reach.
pub run_refines :
    (events : List SocketEvent) (rooms : List Room)
    → IsClean rooms
    → IsClean (run events rooms)
      × ((k v : ℕ)
          → is_connected k v (run events rooms) ≡ replay events (λ i u. is_connected i u rooms) k v)
unfolding run
run_refines [] rooms clean = (clean, λ k v. refl)
run_refines (e ∷ events) rooms clean =
    let (next, one) = handle-lem e rooms clean in
    let (last, rest) = run_refines events (handle e rooms) next in
    (
      last,
      λ k v.
          rest k v
          ∙ replay-ext events (λ i u. is_connected i u (handle e rooms))
              (meant e (λ i u. is_connected i u rooms)) one k v,
    )

select-IsSockets :
    (p : ℕ → Bool) (sockets : List ℕ) → IsSockets sockets → IsSockets (select p sockets)
select-IsSockets p [] h = tt
select-IsSockets p (ws ∷ sockets) h =
    ground (arith, select-IsSockets p sockets h.1, has_socket-select p ws sockets)

sockets_of-IsSockets :
    (key : ℕ) (rooms : List Room) → IsClean rooms → IsSockets (sockets_of key rooms)
unfolding sockets_of
sockets_of-IsSockets key [] clean = tt
sockets_of-IsSockets key (r ∷ rooms) clean =
    if_elim IsSockets (r.key == key) (λ hit. clean.2)
      (λ miss. sockets_of-IsSockets key rooms clean.3)

-- In a clean dictionary a message under a key gets to every socket that is connected there and can be
-- sent to, once, and to no other; the sockets that cannot be sent to are gone afterwards.
pub send_json_lem :
    (alive : ℕ → Bool) (key : ℕ) (rooms : List Room)
    → IsClean rooms
    → let (delivered, after) = send_json alive key rooms in
      IsSockets delivered
      × ((v : ℕ) → has_socket v delivered ≡ (alive v && is_connected key v rooms))
      × ((v : ℕ) → is_connected key v after ≡ (alive v && is_connected key v rooms))
unfolding send_json
send_json_lem alive key rooms clean =
    let (still, rest) =
      disconnect_all-lem key (select (λ ws. not (alive ws)) (sockets_of key rooms)) rooms clean in
    (
      select-IsSockets alive (sockets_of key rooms) (sockets_of-IsSockets key rooms clean),
      (λ v. has_socket-select alive v (sockets_of key rooms)),
      λ v. ground (
        arith,
        rest key v,
        has_socket-select (λ ws. not (alive ws)) v (sockets_of key rooms),
        ==_refl key,
      ),
    )
