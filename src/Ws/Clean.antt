-- ===== src/Ws/Clean.antt =====
-- The dictionary as a relation between keys and sockets, and its well-formedness.
use clutch_d_backend.Base.{
  ℕ, ◌≡◌, ◌≢◌, refl, ◌∙◌, inl, inr, Bool, false, not, ◌&&◌, ◌||◌, List, [], ◌∷◌, ◌==◌,
  if◌then◌else◌, arith, Bool-cases, exists,
}
use clutch_d_backend.Ws.Manager.{
  Room, has_socket, add_socket, discard, connect, unless_empty, disconnect, sockets_of,
}

-- Whether a socket is connected under a key.
abbrev pub is_connected : ℕ → ℕ → List Room → Bool
is_connected key ws rooms = has_socket ws (sockets_of key rooms)

abbrev pub has_key : ℕ → List Room → Bool
has_key key = exists (λ r. r.key == key)

-- No socket twice.
abbrev pub IsSockets : List ℕ → Type 0
IsSockets [] = Unit {0}
IsSockets (ws ∷ sockets) = (has_socket ws sockets ≡ false) × IsSockets sockets

-- No key twice, and under each key a set that is not empty.
abbrev pub IsClean : List Room → Type 0
IsClean [] = Unit {0}
IsClean (r ∷ rooms) =
    (has_key r.key rooms ≡ false) × (r.sockets ≢ []) × IsSockets r.sockets × IsClean rooms

has_socket-discard :
    (v ws : ℕ) (sockets : List ℕ)
    → has_socket v (discard ws sockets) ≡ (not (v == ws) && has_socket v sockets)
has_socket-discard v ws [] = ground arith
has_socket-discard v ws (x ∷ sockets) = ground (arith, has_socket-discard v ws sockets)

discard-IsSockets : (ws : ℕ) (sockets : List ℕ) → IsSockets sockets → IsSockets (discard ws sockets)
discard-IsSockets ws [] h = tt
discard-IsSockets ws (x ∷ sockets) h =
    ground (arith, discard-IsSockets ws sockets h.1, has_socket-discard x ws sockets)

add_socket-IsSockets :
    (ws : ℕ) (sockets : List ℕ) → IsSockets sockets → IsSockets (add_socket ws sockets)
add_socket-IsSockets ws sockets h = ground arith

pub connect-is_connected :
    (key ws k v : ℕ) (rooms : List Room)
    → is_connected k v (connect key ws rooms) ≡ ((k == key && v == ws) || is_connected k v rooms)
unfolding connect sockets_of
connect-is_connected key ws k v [] = ground arith
connect-is_connected key ws k v (r ∷ rooms) = ground (arith, connect-is_connected key ws k v rooms)

-- A key that is not there has no sockets.
sockets_of-absent :
    (key : ℕ) (rooms : List Room) → has_key key rooms ≡ false → sockets_of key rooms ≡ []
unfolding sockets_of
sockets_of-absent key [] h = refl
sockets_of-absent key (r ∷ rooms) h = ground (arith, sockets_of-absent key rooms)

has_key-connect :
    (key ws k : ℕ) (rooms : List Room)
    → has_key k (connect key ws rooms) ≡ (k == key || has_key k rooms)
unfolding connect
has_key-connect key ws k [] = ground arith
has_key-connect key ws k (r ∷ rooms) = ground (arith, has_key-connect key ws k rooms)

add_socket-some : (ws : ℕ) (sockets : List ℕ) → add_socket ws sockets ≢ []
add_socket-some ws [] h = ground arith
add_socket-some ws (x ∷ sockets) h = ground arith

pub connect-IsClean :
    (key ws : ℕ) (rooms : List Room) → IsClean rooms → IsClean (connect key ws rooms)
unfolding connect
connect-IsClean key ws [] h = (refl, (λ e. cc), (refl, tt), tt)
connect-IsClean key ws (r ∷ rooms) (fresh, some_of, sockets, clean) =
    elim (Bool-cases (r.key == key)) [
      | inl hit ↦
          rw hit
            (fresh, add_socket-some ws r.sockets, add_socket-IsSockets ws r.sockets sockets, clean)
      | inr miss ↦ rw miss (
        has_key-connect key ws r.key rooms ∙ ground arith,
        some_of,
        sockets,
        connect-IsClean key ws rooms clean,
      )
    ]

has_key-disconnect :
    (key ws k : ℕ) (rooms : List Room)
    → has_key k rooms ≡ false
    → has_key k (disconnect key ws rooms) ≡ false
unfolding disconnect
has_key-disconnect key ws k [] h = refl
has_key-disconnect key ws k (r ∷ rooms) h = ground (arith, has_key-disconnect key ws k rooms)

unless_empty-IsClean :
    (key : ℕ) (sockets : List ℕ) (rooms : List Room)
    → has_key key rooms ≡ false
    → IsSockets sockets
    → IsClean rooms
    → IsClean (unless_empty key sockets rooms)
unless_empty-IsClean key [] rooms fresh h clean = clean
unless_empty-IsClean key (ws ∷ sockets) rooms fresh h clean = (fresh, (λ e. cc), h, clean)

pub disconnect-IsClean :
    (key ws : ℕ) (rooms : List Room) → IsClean rooms → IsClean (disconnect key ws rooms)
unfolding disconnect
disconnect-IsClean key ws [] h = tt
disconnect-IsClean key ws (r ∷ rooms) (fresh, some_of, sockets, clean) =
    elim (Bool-cases (r.key == key)) [
      | inl hit ↦ rw hit (
          unless_empty-IsClean r.key (discard ws r.sockets) rooms fresh
            (discard-IsSockets ws r.sockets sockets) clean)
      | inr miss ↦ rw miss (
        has_key-disconnect key ws r.key rooms fresh,
        some_of,
        sockets,
        disconnect-IsClean key ws rooms clean,
      )
    ]

sockets_of-unless_empty :
    (key k : ℕ) (sockets : List ℕ) (rooms : List Room)
    → has_key key rooms ≡ false
    → sockets_of k (unless_empty key sockets rooms)
      ≡ (if key == k then sockets else sockets_of k rooms)
unfolding sockets_of
sockets_of-unless_empty key k [] rooms fresh = ground (arith, sockets_of-absent k rooms)
sockets_of-unless_empty key k (ws ∷ sockets) rooms fresh = refl

pub disconnect-is_connected :
    (key ws k v : ℕ) (rooms : List Room)
    → IsClean rooms
    → is_connected k v (disconnect key ws rooms)
      ≡ (not (k == key && v == ws) && is_connected k v rooms)
unfolding disconnect sockets_of
disconnect-is_connected key ws k v [] h = ground arith
disconnect-is_connected key ws k v (r ∷ rooms) (fresh, some_of, sockets, clean) = ground (
  arith,
  sockets_of-unless_empty r.key k (discard ws r.sockets) rooms fresh,
  has_socket-discard v ws r.sockets,
  disconnect-is_connected key ws k v rooms clean,
)
