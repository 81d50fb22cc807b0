-- ===== src/Control/Registry.antt =====
-- server/src/common/ClientRegistry.cpp: the table of connected clients, a `std::unordered_map` from
-- sockets as an association list. Each operation runs under one lock, so it is one step.
use socket_programming.Base.{
  ℕ, ◌≡◌, ◌≢◌, refl, List, [], ◌∷◌, map, Option, none, some, length, ◌==◌, if◌then◌else◌, arith,
}
use socket_programming.Text.{Text}

pub record ClientInfo : Type 0 where
  pub address : Text
  pub username : Text

abbrev pub Registry : Type 0
Registry = List (ℕ × ClientInfo)

-- `findClient`
unfoldable pub find_client : ℕ → Registry → Option ClientInfo
find_client socket [] = none
find_client socket ((k, c) ∷ m) = if k == socket then some c else find_client socket m

-- `removeClient`
unfoldable pub remove_client : ℕ → Registry → Registry
remove_client socket [] = []
remove_client socket ((k, c) ∷ m) =
    let rest = remove_client socket m in if k == socket then rest else (k, c) ∷ rest

-- `clients[socket] = info`
unfoldable pub assign : ℕ → ClientInfo → Registry → Registry
assign socket c [] = (socket, c) ∷ []
assign socket c ((k, d) ∷ m) =
    let rest = assign socket c m in if k == socket then (k, c) ∷ m else (k, d) ∷ rest

-- `addClient`
unfoldable pub add_client : ℕ → Text → Registry → Registry
unfolding assign
add_client socket address m = assign socket (record { address = address; username = [] }) m

-- `setUsername`: nothing where the socket is not in the table.
unfoldable pub set_username : ℕ → Text → Registry → Registry
set_username socket name [] = []
set_username socket name ((k, c) ∷ m) =
    let rest = set_username socket name m in
    if k == socket then (k, record c { username = name }) ∷ m else (k, c) ∷ rest

-- `count` and `snapshot`
abbrev pub count : Registry → ℕ
count m = length m

abbrev pub snapshot : Registry → List ClientInfo
snapshot m = map (λ (e : ℕ × ClientInfo). e.1) m

-- Every key stands once.
abbrev pub IsTable : Registry → Type 0
IsTable [] = Unit {0}
IsTable ((k, c) ∷ m) = (find_client k m ≡ none) × IsTable m

abbrev pub renamed : Text → Option ClientInfo → Option ClientInfo
renamed name none = none
renamed name (some c) = some (record c { username = name })

pub find_client-assign :
    (socket other : ℕ) (c : ClientInfo) (m : Registry)
    → find_client other (assign socket c m)
      ≡ (if socket == other then some c else find_client other m)
unfolding find_client assign
find_client-assign socket other c [] = refl
find_client-assign socket other c ((k, d) ∷ m) = ground (arith, find_client-assign socket other c m)

pub assign-IsTable :
    (socket : ℕ) (c : ClientInfo) (m : Registry) → IsTable m → IsTable (assign socket c m)
unfolding assign find_client
assign-IsTable socket c [] h = (refl, tt)
assign-IsTable socket c ((k, d) ∷ m) h =
    ground (arith, h.0, h.1, find_client-assign socket k c m, assign-IsTable socket c m h.1)

pub find_client-remove_client :
    (socket other : ℕ) (m : Registry)
    → find_client other (remove_client socket m)
      ≡ (if socket == other then none else find_client other m)
unfolding find_client remove_client
find_client-remove_client socket other [] = ground arith
find_client-remove_client socket other ((k, d) ∷ m) =
    ground (arith, find_client-remove_client socket other m)

pub find_client-set_username :
    (socket other : ℕ) (name : Text) (m : Registry)
    → find_client other (set_username socket name m)
      ≡ (if socket == other then renamed name (find_client other m) else find_client other m)
unfolding find_client set_username
find_client-set_username socket other name [] = ground arith
find_client-set_username socket other name ((k, d) ∷ m) =
    ground (arith, find_client-set_username socket other name m)

count-remove_client :
    (socket : ℕ) (m : Registry) → find_client socket m ≡ none → remove_client socket m ≡ m
unfolding find_client remove_client
count-remove_client socket [] e = refl
count-remove_client socket ((k, d) ∷ m) e = ground (arith, e, count-remove_client socket m)

-- Of a socket that is not in the table: adding it and removing it again leaves the table as it was.
pub remove_client-add_client :
    (socket : ℕ) (address : Text) (m : Registry)
    → find_client socket m ≡ none
    → remove_client socket (add_client socket address m) ≡ m
unfolding find_client remove_client add_client assign
remove_client-add_client socket address [] e = ground arith
remove_client-add_client socket address ((k, d) ∷ m) e =
    ground (arith, e, count-remove_client socket m, remove_client-add_client socket address m)

-- A client that is added is found with its address and no name, and changes nothing for another socket.
add_client-find_client :
    (socket other : ℕ) (address : Text) (m : Registry)
    → socket ≢ other
    → (find_client socket (add_client socket address m)
        ≡ some (record { address = address; username = [] }))
      × (find_client other (add_client socket address m) ≡ find_client other m)
unfolding add_client
add_client-find_client socket other address m ne =
    let c : ClientInfo = record { address = address; username = [] } in
    (
      ground (arith, find_client-assign socket socket c m),
      ground (arith, ne, find_client-assign socket other c m),
    )
