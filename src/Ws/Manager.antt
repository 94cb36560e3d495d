-- ===== src/Ws/Manager.antt =====
-- ConnectionManager of backend/app/ws/manager.py. `_user_sockets` and `_job_sockets` are dictionaries of
-- sets with the same operations; one such dictionary is a list of rooms. A socket is a number.
use clutch_d_backend.Base.{ℕ, Bool, not, List, [], ◌∷◌, ◌==◌, if◌then◌else◌, select, exists}

-- A key of the dictionary, and the set under it.
pub record Room : Type 0 where
  pub key : ℕ
  pub sockets : List ℕ

abbrev pub has_socket : ℕ → List ℕ → Bool
has_socket ws = exists (λ v. v == ws)

-- `set.add` and `set.discard`
abbrev pub add_socket : ℕ → List ℕ → List ℕ
add_socket ws sockets = if has_socket ws sockets then sockets else ws ∷ sockets

abbrev pub discard : ℕ → List ℕ → List ℕ
discard ws = select (λ v. not (v == ws))

-- connect_user and connect_job, at a defaultdict
unfoldable pub connect : ℕ → ℕ → List Room → List Room
connect key ws [] = record { key = key; sockets = ws ∷ [] } ∷ []
connect key ws (r ∷ rooms) =
    if r.key == key
    then record { key = r.key; sockets = add_socket ws r.sockets } ∷ rooms
    else r ∷ connect key ws rooms

-- `del` of a key whose set has become empty
abbrev pub unless_empty : ℕ → List ℕ → List Room → List Room
unless_empty key [] rooms = rooms
unless_empty key (ws ∷ sockets) rooms = record { key = key; sockets = ws ∷ sockets } ∷ rooms

-- disconnect_user and disconnect_job
unfoldable pub disconnect : ℕ → ℕ → List Room → List Room
disconnect key ws [] = []
disconnect key ws (r ∷ rooms) =
    if r.key == key
    then unless_empty r.key (discard ws r.sockets) rooms
    else r ∷ disconnect key ws rooms

-- `.get(key, ())`
unfoldable pub sockets_of : ℕ → List Room → List ℕ
sockets_of key [] = []
sockets_of key (r ∷ rooms) = if r.key == key then r.sockets else sockets_of key rooms

-- The loop over the sockets that could not be sent to.
unfoldable pub disconnect_all : ℕ → List ℕ → List Room → List Room
disconnect_all key [] rooms = rooms
disconnect_all key (ws ∷ dead) rooms = disconnect_all key dead (disconnect key ws rooms)

-- send_json_to_user and broadcast_job: the sockets that have got the message, and what is left.
-- `alive` tells whether `send_text` to a socket returns or raises.
unfoldable pub send_json : (ℕ → Bool) → ℕ → List Room → List ℕ × List Room
send_json alive key rooms =
    let sockets = sockets_of key rooms in
    (select alive sockets, disconnect_all key (select (λ ws. not (alive ws)) sockets) rooms)
