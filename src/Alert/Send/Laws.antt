-- ===== src/Alert/Send/Laws.antt =====
-- An alert is relayed only with a signature that the network's alert key accepts, to every node; and
-- a run that succeeds leaves no node and no open socket.
use coin_tool.Base.{
  ℕ, ◌≤◌, ◌≡◌, refl, true, false, Option, none, some, List, [], ◌∷◌, arith, ◌⊎◌, length, All, map,
  Text, bytes, inl, inr, Bool-cases, Option-cases,
}
use coin_tool.Base.Dict.{contains}
use coin_tool.Base.Output.{Out}
use coin_tool.Chain.{Crypto}
use coin_tool.Utils.Config.{Settings}
use coin_tool.Utils.Nodes.{Node, Net, NetLib, add_one_node}
use coin_tool.Utils.Nodes.Laws.{Balanced, count, add_one_node-Balanced, free_node_lem}
use coin_tool.Utils.Report.{showerror}
use coin_tool.Alert.{Alert, AlertLib}
use coin_tool.Alert.Send.{
  Wire, Sent, Signing, refused, signed, add_nodes, write_msg, sign_with, sign_alert, relay_all,
  relay_signed, send_alert,
}

add_nodes-Balanced :
    (lib : NetLib) (strs : List Text) (net : Net) (s : ℕ)
    → ((socket : ℕ) (addr : Text) → (lib.new_node socket addr).socket ≡ socket)
    → Balanced net s
    → Balanced (add_nodes lib strs net).0 s
unfolding add_nodes
add_nodes-Balanced lib [] net s keeps h = h
add_nodes-Balanced lib (str ∷ strs) net s keeps h =
    add_nodes-Balanced lib strs (add_one_node lib str false net).0 s keeps
      (add_one_node-Balanced lib str false net s keeps h)

module _ (C : Crypto) (wire : Wire C) where
  -- The alert of a relay passes the check by the alert key.
  abbrev pub IsChecked : Alert × Node → Type 0
  IsChecked (alert, node) = wire.check_signature alert wire.alert_key ≡ true

  abbrev IsSigned : Signing → Type 0
  IsSigned (refused out) = Unit {0}
  IsSigned (signed alert out) = wire.check_signature alert wire.alert_key ≡ true

  sign_with-IsSigned :
      (k : C.Key) (p : C.PubKey) (ready : Alert) → IsSigned (sign_with C wire k p ready)
  unfolding sign_with
  sign_with-IsSigned k p ready = elim (Option-cases (C.sign k (wire.hash_msg ready.msg))) [
    | inl e ↦ rw (e, sign_with) tt
    | inr (sig, e) ↦
        let full : Alert = record ready { sig = sig } in
        elim (Bool-cases (wire.check_signature full wire.alert_key)) [
          | inl good ↦ rw (e, sign_with) (rw good good)
          | inr bad ↦ rw (e, sign_with) (rw bad tt)
        ]
  ]

  sign_alert-IsSigned : (str : Text) (alert : Alert) → IsSigned (sign_alert C wire str alert)
  unfolding sign_alert
  sign_alert-IsSigned str alert = elim (Option-cases (C.parse_secret str)) [
    | inl e ↦ rw (e, sign_alert) tt
    | inr (k, e) ↦
        rw (e, sign_alert) (sign_with-IsSigned k (C.get_pub_key k) (write_msg C wire alert))
  ]

  relay_all-le : (alert : Alert) (ns : List Node) → (relay_all C wire alert ns).0 ≤ length ns
  unfolding relay_all
  relay_all-le alert [] = omega arith
  relay_all-le alert (n ∷ ns) = ground (arith, relay_all-le alert ns)

  All-relays :
      (alert : Alert) (ns : List Node)
      → wire.check_signature alert wire.alert_key ≡ true
      → All IsChecked (map (λ n. (alert, n)) ns)
  All-relays alert [] h = tt
  All-relays alert (n ∷ ns) h = (h, All-relays alert ns h)

  -- What the end of a run guarantees: a run that fails relays nothing; one that succeeds relays only
  -- checked alerts, and leaves no node and every opened socket closed.
  abbrev pub Safe : ℕ → Sent → Type 0
  Safe s r =
      ((r.success ≡ false) × (r.relays ≡ []))
      ⊎ ((r.success ≡ true)
          × All IsChecked r.relays
          × (r.net.nodes ≡ [])
          × (count s r.net.opened ≡ count s r.net.closed))

  module _ (net_lib : NetLib) (lib : AlertLib) where
    relay_signed-Safe :
        (net : Net) (out : Out) (g : Signing) (s : ℕ)
        → IsSigned g
        → Balanced net s
        → Safe s (relay_signed C wire net_lib lib net out g)
    unfolding relay_signed
    relay_signed-Safe net out (refused more) s g h = inl (refl, refl)
    relay_signed-Safe net out (signed alert more) s g h =
        let freed = free_node_lem net s h in
        inr (refl, All-relays alert net.nodes g, freed.0, freed.1)

    abbrev IsSafe : ℕ → Option Sent → Type 0
    IsSafe s none = Unit {0}
    IsSafe s (some r) = Safe s r

    send_alert-IsSafe :
        (st : Settings) (net : Net) (s : ℕ)
        → ((socket : ℕ) (addr : Text) → (net_lib.new_node socket addr).socket ≡ socket)
        → Balanced net s
        → IsSafe s (send_alert C wire net_lib lib st net)
    unfolding send_alert showerror
    send_alert-IsSafe st net s keeps h = elim (Bool-cases (contains (bytes "-privkey") st.args)) [
      | inr no_key ↦ rw no_key (inl (refl, refl))
      | inl key ↦ elim (Bool-cases (contains (bytes "-addnode") st.args)) [
        | inr no_node ↦ rw (key, no_node) (inl (refl, refl))
        | inl node ↦
            rw (key, node)
              (relay_signed-Safe _ _ _ s (sign_alert-IsSigned _ _)
                (add_nodes-Balanced net_lib _ net s keeps h))
      ]
    ]

    -- Every run of "sendalert" either fails and relays nothing, or succeeds, has relayed only alerts
    -- with a signature that the network's alert key accepts, and leaves no node and every socket
    -- closed; the sockets balance before the run, and a new node keeps its socket.
    pub send_alert-Safe :
        (st : Settings) (net : Net) (s : ℕ) (r : Sent)
        → ((socket : ℕ) (addr : Text) → (net_lib.new_node socket addr).socket ≡ socket)
        → Balanced net s
        → send_alert C wire net_lib lib st net ≡ some r
        → Safe s r
    unfolding send_alert
    send_alert-Safe st net s r keeps h e = rw e at (send_alert-IsSafe st net s keeps h)
