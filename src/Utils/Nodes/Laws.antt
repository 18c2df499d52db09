-- ===== src/Utils/Nodes/Laws.antt =====
-- No socket is lost: each is closed, or belongs to a node that is still there.
use coin_tool.Base.{
  ℕ, ◌+◌, ◌≡◌, refl, Bool, List, [], ◌∷◌, ◌++◌, arith, ◌==◌, if◌then◌else◌, Option-cases,
  Bool-cases, inl, inr, Text,
}
use coin_tool.Utils.Nodes.{Node, Net, NetLib, connected_node, add_one_node, close_all, free_node}

abbrev pub count : ℕ → List ℕ → ℕ
count s [] = 0
count s (x ∷ xs) = (if s == x then 1 else 0) + count s xs

abbrev pub count_nodes : ℕ → List Node → ℕ
count_nodes s [] = 0
count_nodes s (n ∷ ns) = (if s == n.socket then 1 else 0) + count_nodes s ns

count-append : (s : ℕ) (xs ys : List ℕ) → count s (xs ++ ys) ≡ count s xs + count s ys
count-append s [] ys = omega arith
count-append s (x ∷ xs) ys = omega (arith, count-append s xs ys)

count_nodes-append :
    (s : ℕ) (xs ys : List Node) → count_nodes s (xs ++ ys) ≡ count_nodes s xs + count_nodes s ys
count_nodes-append s [] ys = omega arith
count_nodes-append s (x ∷ xs) ys = omega (arith, count_nodes-append s xs ys)

count-close_all :
    (s : ℕ) (ns : List Node) (closed : List ℕ)
    → count s (close_all ns closed) ≡ count s closed + count_nodes s ns
unfolding close_all
count-close_all s [] closed = omega arith
count-close_all s (n ∷ ns) closed =
    omega (
      arith,
      count-close_all s ns (closed ++ (n.socket ∷ [])),
      count-append s closed (n.socket ∷ []),
    )

-- Each socket was opened as often as it was closed and stands in a node.
abbrev pub Balanced : Net → ℕ → Type 0
Balanced net s = count s net.opened ≡ count s net.closed + count_nodes s net.nodes

-- A connection, made or failed, keeps the sockets balanced, if a new node keeps its socket.
pub add_one_node-Balanced :
    (lib : NetLib) (node : Text) (to_masternode : Bool) (net : Net) (s : ℕ)
    → ((socket : ℕ) (addr : Text) → (lib.new_node socket addr).socket ≡ socket)
    → Balanced net s
    → Balanced (add_one_node lib node to_masternode net).0 s
unfolding add_one_node
add_one_node-Balanced lib node to_masternode net s keeps h =
    elim (Option-cases (lib.connect node)) [
      | inl failed ↦ ground (arith, failed)
      | inr (t, e) ↦ elim (Bool-cases (lib.is_selectable t)) [
        | inl good ↦ ground (
          arith,
          e,
          good,
          keeps t node,
          count-append s net.opened (t ∷ []),
          count_nodes-append s net.nodes (connected_node lib t node to_masternode ∷ []),
        )
        | inr bad ↦
            ground (
              arith,
              e,
              bad,
              count-append s net.opened (t ∷ []),
              count-append s net.closed (t ∷ []),
            )
      ]
    ]

-- After all nodes are freed there is no node, and each socket was closed as often as it was opened.
pub free_node_lem :
    (net : Net) (s : ℕ)
    → Balanced net s
    → ((free_node net).nodes ≡ [])
      × (count s (free_node net).opened ≡ count s (free_node net).closed)
unfolding free_node
free_node_lem net s h = (refl, omega (arith, count-close_all s net.nodes net.closed))
