-- ===== src/Server/Clients.antt =====
-- Server, server/server.hpp and server/server.cpp: the list of client handlers, with the addresses of
-- its nodes. What is pending in the context points to handlers by those addresses.
pub mod Moves
use boutique.Common.{ℕ, ◌+◌, Bool, true, false, List, [], ◌∷◌, ◌++◌, if◌then◌else◌}

-- the members of a ClientHandler that accepting a client reads or moves
pub record Handler : Type 0 where
  pub m_socket : ℕ
  pub m_closed : Bool

-- a node of the std::list at its address
abbrev pub Node : Type 0
Node = ℕ × Handler

-- `receiving` are the handlers (`this`) of the async_recv operations that are pending, `accepting`
-- the number of pending accepts.
pub record Server : Type 0 where
  pub m_clients : List Node
  pub receiving : List ℕ
  pub accepting : ℕ

-- std::remove_if with closed(), and erase of the rest. `holes` are the nodes between the result and
-- the current one: a handler that stays is move-assigned to the first of them, and its own node is
-- then free.
unfoldable pub remove_closed : List ℕ → List Node → List Node
remove_closed holes [] = []
remove_closed [] ((a, c) ∷ nodes) =
    if c.m_closed then remove_closed (a ∷ []) nodes else (a, c) ∷ remove_closed [] nodes
remove_closed (hole ∷ holes) ((a, c) ∷ nodes) =
    if c.m_closed
    then remove_closed (hole ∷ (holes ++ a ∷ [])) nodes
    else (hole, c) ∷ remove_closed (holes ++ a ∷ []) nodes

-- ClientHandler(Server&, Socket) in a new node at `fresh`: it starts to receive
unfoldable pub emplace_back : ℕ → ℕ → Server → Server
emplace_back fresh socket server = record server {
  m_clients = server.m_clients ++ (fresh, record { m_socket = socket; m_closed = false }) ∷ [];
  receiving = server.receiving ++ fresh ∷ [];
}

-- accept_handler(Socket), where the allocator gives `fresh`
unfoldable pub accept_handler : ℕ → ℕ → Server → Server
unfolding emplace_back
accept_handler fresh socket server =
    let kept = record server { m_clients = remove_closed [] server.m_clients } in
    let added = emplace_back fresh socket kept in record added { accepting = added.accepting + 1 }
