-- ===== src/Server/Clients/Moves.antt =====
-- Which handlers change their address when closed ones are removed.
use boutique.Common.{
  ℕ, ◌+◌, ◌≡◌, ◌≢◌, ◌↔◌, refl, true, false, inl, inr, List, [], ◌∷◌, ◌++◌, map, map-append,
  if◌then◌else◌, Bool-cases,
}
use boutique.Server.Clients.{Node, Server, remove_closed, accept_handler}

-- the nodes of the handlers that are not closed, as they are
unfoldable pub open_nodes : List Node → List Node
open_nodes [] = []
open_nodes ((a, c) ∷ nodes) = if c.m_closed then open_nodes nodes else (a, c) ∷ open_nodes nodes

abbrev pub AreClosed : List Node → Type 0
AreClosed [] = Unit
AreClosed ((a, c) ∷ nodes) = (c.m_closed ≡ true) × AreClosed nodes

-- No closed handler stands before one that is not.
abbrev pub ClosedLast : List Node → Type 0
ClosedLast [] = Unit
ClosedLast ((a, c) ∷ nodes) = if c.m_closed then AreClosed nodes else ClosedLast nodes

-- The address `a` is of none of the nodes.
abbrev pub NotAt : ℕ → List Node → Type 0
NotAt a [] = Unit
NotAt a ((b, c) ∷ nodes) = (a ≢ b) × NotAt a nodes

-- Different nodes have different addresses.
abbrev pub AreApart : List Node → Type 0
AreApart [] = Unit
AreApart ((a, c) ∷ nodes) = NotAt a nodes × AreApart nodes

remove_closed-handlers_lem :
    (holes : List ℕ) (nodes : List Node)
    → map (λ n. n.1) (remove_closed holes nodes) ≡ map (λ n. n.1) (open_nodes nodes)
unfolding remove_closed open_nodes
remove_closed-handlers_lem holes [] = refl
remove_closed-handlers_lem [] ((a, c) ∷ nodes) = elim (Bool-cases c.m_closed) [
  | inl shut ↦ rw (shut, remove_closed-handlers_lem (a ∷ []) nodes)
  | inr runs ↦ rw (runs, remove_closed-handlers_lem [] nodes)
]
remove_closed-handlers_lem (hole ∷ holes) ((a, c) ∷ nodes) = elim (Bool-cases c.m_closed) [
  | inl shut ↦ rw (shut, remove_closed-handlers_lem (hole ∷ (holes ++ a ∷ [])) nodes)
  | inr runs ↦ rw (runs, remove_closed-handlers_lem (holes ++ a ∷ []) nodes)
]

-- Accepting a client keeps the handlers that are not closed in their order, and puts the new one
-- behind them. It starts to receive, and the next client is waited for.
pub accept_handler-handlers :
    (fresh socket : ℕ) (server : Server)
    → (map (λ n. n.1) (accept_handler fresh socket server).m_clients
        ≡ map (λ n. n.1) (open_nodes server.m_clients)
          ++ record { m_socket = socket; m_closed = false } ∷ [])
      × ((accept_handler fresh socket server).receiving ≡ server.receiving ++ fresh ∷ [])
      × ((accept_handler fresh socket server).accepting ≡ server.accepting + 1)
unfolding accept_handler
accept_handler-handlers fresh socket server =
    (rw (map-append, remove_closed-handlers_lem [] server.m_clients), refl, refl)

remove_closed-AreClosed :
    (holes : List ℕ) (nodes : List Node) → AreClosed nodes → remove_closed holes nodes ≡ []
unfolding remove_closed
remove_closed-AreClosed holes [] h = refl
remove_closed-AreClosed [] ((a, c) ∷ nodes) h = rw (h.0, remove_closed-AreClosed (a ∷ []) nodes h.1)
remove_closed-AreClosed (hole ∷ holes) ((a, c) ∷ nodes) h =
    rw (h.0, remove_closed-AreClosed (hole ∷ (holes ++ a ∷ [])) nodes h.1)

open_nodes-AreClosed : (nodes : List Node) → AreClosed nodes → open_nodes nodes ≡ []
unfolding open_nodes
open_nodes-AreClosed [] h = refl
open_nodes-AreClosed ((a, c) ∷ nodes) h = rw (h.0, open_nodes-AreClosed nodes h.1)

-- with a hole before them, handlers that stay where they are are all closed
holes-AreClosed :
    (hole : ℕ) (holes : List ℕ) (nodes : List Node)
    → NotAt hole nodes
    → remove_closed (hole ∷ holes) nodes ≡ open_nodes nodes
    → AreClosed nodes
unfolding remove_closed open_nodes
holes-AreClosed hole holes [] out e = tt
holes-AreClosed hole holes ((a, c) ∷ nodes) out e = elim (Bool-cases c.m_closed) [
  | inl shut ↦ (shut, holes-AreClosed hole (holes ++ a ∷ []) nodes out.1 (rw shut at e))
  | inr runs ↦ let heads = rw runs at e in let same : hole ≡ a = cc in absurd (out.0 same)
]

stays_if : (nodes : List Node) → ClosedLast nodes → remove_closed [] nodes ≡ open_nodes nodes
unfolding remove_closed open_nodes
stays_if [] h = refl
stays_if ((a, c) ∷ nodes) h = elim (Bool-cases c.m_closed) [
  | inl shut ↦
      let rest : AreClosed nodes = rw shut at h in
      rw (shut, remove_closed-AreClosed (a ∷ []) nodes rest, open_nodes-AreClosed nodes rest)
  | inr runs ↦ rw (runs, stays_if nodes (rw runs at h))
]

stays_only_if :
    (nodes : List Node)
    → AreApart nodes
    → remove_closed [] nodes ≡ open_nodes nodes
    → ClosedLast nodes
unfolding remove_closed open_nodes
stays_only_if [] out e = tt
stays_only_if ((a, c) ∷ nodes) out e = elim (Bool-cases c.m_closed) [
  | inl shut ↦ rw shut (holes-AreClosed a [] nodes out.0 (rw shut at e))
  | inr runs ↦
      let both = rw runs at e in
      let rest : remove_closed [] nodes ≡ open_nodes nodes = cc in
      rw runs (stays_only_if nodes out.1 rest)
]

-- Where the nodes of the list have different addresses, removing the closed handlers leaves every
-- other handler at its address exactly when no closed handler stands before one that is not closed.
pub remove_closed-eq-open_nodes_iff :
    (nodes : List Node)
    → AreApart nodes
    → (remove_closed [] nodes ≡ open_nodes nodes) ↔ ClosedLast nodes
remove_closed-eq-open_nodes_iff nodes out = (stays_only_if nodes out, stays_if nodes)
