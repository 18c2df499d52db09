-- ===== src/Utils/Nodes.antt =====
-- `AddOneNode` and `FreeNode` of `common/utils.cpp`, over the chain library's list of nodes.
pub mod Laws
use coin_tool.Base.{
  ℕ, zero, suc, ◌+◌, Bool, true, false, not, Option, none, some, List, [], ◌∷◌, ◌++◌, if◌then◌else◌,
  Text,
}
use coin_tool.Base.Output.{Out, lit, endl}

pub record Node : Type 0 where
  pub socket : ℕ
  pub addr : Text
  pub time_connected : ℕ
  pub version : ℕ
  pub refs : ℕ
  pub is_masternode : Bool

-- `vNodes`, and the sockets that were opened and closed since the start, in order.
pub record Net : Type 0 where
  pub nodes : List Node
  pub opened : List ℕ
  pub closed : List ℕ
  pub attempts : List Text

-- The chain library: `ConnectSocket` with the socket that it opens, `IsSelectableSocket`, the fields
-- that `CNode`'s constructor sets, `PROTOCOL_VERSION` and `GetTime()`.
pub record NetLib : Type 0 where
  pub connect : Text → Option ℕ
  pub is_selectable : ℕ → Bool
  pub new_node : ℕ → Text → Node
  pub protocol_version : ℕ
  pub get_time : ℕ

module _ (lib : NetLib) where
  -- The new node with the fields that `AddOneNode` sets.
  abbrev pub connected_node : ℕ → Text → Bool → Node
  connected_node s str_node to_masternode =
      let fresh = lib.new_node s str_node in
      record fresh {
        time_connected = lib.get_time;
        version = lib.protocol_version;
        refs = if to_masternode then fresh.refs + 1 else fresh.refs;
        is_masternode = if to_masternode then true else fresh.is_masternode;
      }

  unfoldable pub add_one_node : Text → Bool → Net → Net × Bool × Out
  add_one_node str_node to_masternode net = elim (lib.connect str_node) [
    | none ↦ (net, false, lit "ConnectSocket failed!" ∷ endl ∷ [])
    | some s ↦
        if not (lib.is_selectable s)
        then (
          record net { opened = net.opened ++ (s ∷ []); closed = net.closed ++ (s ∷ []) },
          false,
          lit "Cannot create connection: non-selectable socket created (fd >= FD_SETSIZE ?)"
              ∷ endl
              ∷ [],
        )
        else (
          record net {
            nodes = net.nodes ++ (connected_node s str_node to_masternode ∷ []);
            opened = net.opened ++ (s ∷ []);
            attempts = net.attempts ++ (str_node ∷ []);
          },
          true,
          [],
        )
  ]

unfoldable pub close_all : List Node → List ℕ → List ℕ
close_all [] closed = closed
close_all (n ∷ ns) closed = close_all ns (closed ++ (n.socket ∷ []))

unfoldable pub free_node : Net → Net
unfolding close_all
free_node net = record net { nodes = []; closed = close_all net.nodes net.closed }
