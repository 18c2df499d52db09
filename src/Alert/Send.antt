-- ===== src/Alert/Send.antt =====
-- `SendAlert` and `SendAlertHandle` of `common/alerttool.cpp`.
pub mod Laws
use coin_tool.Base.{
  ℕ, zero, suc, ◌+◌, Bool, true, false, not, Option, none, some, List, [], ◌∷◌, ◌++◌, length, map,
  if◌then◌else◌, Text, bytes,
}
use coin_tool.Base.Int.{ℤ, pos}
use coin_tool.Base.Dict.{lookup, contains, values, value_or}
use coin_tool.Base.Output.{Out, lit, text, int, endl}
use coin_tool.Chain.{Crypto}
use coin_tool.Utils.Argv.{lacks, argument, help}
use coin_tool.Utils.Config.{Settings, Entry, read_current_file}
use coin_tool.Utils.Nodes.{Node, Net, NetLib, add_one_node, free_node}
use coin_tool.Utils.Report.{showerror}
use coin_tool.Key.Check.{get_keys_from_secret}
use coin_tool.Alert.{Alert, AlertLib, create_alert}

-- The chain library: the alert that `CAlert`'s constructor makes, the bytes of the unsigned alert,
-- the hash of a message, the network's alert key with the id that is printed for it,
-- `CAlert::CheckSignature`, `CAlert::RelayTo` and the text of a node's address.
pub record Wire (C : Crypto) : Type 0 where
  pub blank : Alert
  pub serialize : Alert → Text
  pub hash_msg : Text → C.Digest
  pub alert_key : Text
  pub check_signature : Alert → Text → Bool
  pub relay_to : Alert → Node → Bool
  pub addr_string : Node → Text

-- The connections for the values of `-addnode`.
unfoldable pub add_nodes : NetLib → List Text → Net → Net × Out
add_nodes lib [] net = (net, [])
add_nodes lib (str ∷ strs) net =
    let (net', added, out) = add_one_node lib str false net in
    let (net'', more) = add_nodes lib strs net' in
    (
      net'',
      out
          ++ ((if added then lit "add node : " else lit "add node failed : ")
              ∷ text str
              ∷ endl
              ∷ more),
    )

-- What `SendAlert` returns, leaves and prints, and the calls of `RelayTo` that it makes.
pub record Sent : Type 0 where
  pub success : Bool
  pub net : Net
  pub out : Out
  pub relays : List (Alert × Node)

-- An alert that was signed and whose signature was checked, or a refusal, with what is printed.
pub data Signing : Type 0 where
  refused : Out → Signing
  signed : Alert → Out → Signing

module _ (C : Crypto) (wire : Wire C) where
  -- The bytes of the alert are put behind its message in a stream, and the stream behind its message.
  unfoldable pub write_msg : Alert → Alert
  write_msg alert = record alert { msg = alert.msg ++ (alert.msg ++ wire.serialize alert) }

  -- From the keys on: the signature, and its check by the alert key.
  unfoldable pub sign_with : C.Key → C.PubKey → Alert → Signing
  sign_with key pub_key ready =
      let head = lit "pubkey from prikey " ∷ text (C.id_string (C.get_id pub_key)) ∷ endl ∷ [] in
      elim (C.sign key (wire.hash_msg ready.msg)) [
        | none ↦ refused (head ++ (lit "Error: Sign msg failed!" ∷ endl ∷ []))
        | some sig ↦
            let full : Alert = record ready { sig = sig } in
            let shown =
              head
              ++ (lit "pubkey from params "
                  ∷ text (C.id_string (C.get_id (C.parse_pub_key wire.alert_key)))
                  ∷ endl
                  ∷ []) in
            if not (wire.check_signature full wire.alert_key)
            then refused (shown ++ (lit "Error: Check signature failed!" ∷ endl ∷ []))
            else signed full shown
      ]

  unfoldable pub sign_alert : Text → Alert → Signing
  unfolding get_keys_from_secret write_msg
  sign_alert str_prikey alert = elim (get_keys_from_secret C str_prikey) [
    | none ↦ refused (lit "Error: getKeys failed by privkey = " ∷ text str_prikey ∷ endl ∷ [])
    | some (key, pub_key) ↦ sign_with key pub_key (write_msg alert)
  ]

  -- The loop over the nodes: how many relays succeeded, and what is printed.
  unfoldable pub relay_all : Alert → List Node → ℕ × Out
  relay_all alert [] = (0, [])
  relay_all alert (n ∷ ns) =
      let (successes, out) = relay_all alert ns in
      if not (wire.relay_to alert n)
      then (successes, lit "Send failed to Node " ∷ text (wire.addr_string n) ∷ endl ∷ out)
      else (suc successes, lit "Send success to Node " ∷ text (wire.addr_string n) ∷ endl ∷ out)

  module _ (net_lib : NetLib) (lib : AlertLib) where
    -- From the connected nodes on.
    unfoldable pub relay_signed : Net → Out → Signing → Sent
    unfolding relay_all
    relay_signed net out (refused more) = record {
      success = false;
      net = net;
      out = out ++ more;
      relays = [];
    }
    relay_signed net out (signed alert more) =
        let (successes, lines) = relay_all alert net.nodes in
        record {
          success = true;
          net = free_node net;
          out =
              out
              ++ (more
                  ++ (lines
                      ++ (lit "wait for message sending "
                          ∷ endl
                          ∷ lit "send alert finished. total send to "
                          ∷ int (pos (length net.nodes))
                          ∷ lit " nodes. "
                          ∷ int (pos successes)
                          ∷ lit " successes!"
                          ∷ endl
                          ∷ [])));
          relays = map (λ n. (alert, n)) net.nodes;
        }

    -- `none` is a write behind the buffer of `showerror`.
    unfoldable pub send_alert : Settings → Net → Option Sent
    unfolding relay_signed
    send_alert s net =
        if not (contains (bytes "-privkey") s.args)
        then elim (showerror (bytes "File without privkey, add privkey= frist!")) [
          | none ↦ none
          | some (b, line) ↦ some (record { success = b; net = net; out = line; relays = [] })
        ]
        else let str_prikey = value_or (lookup (bytes "-privkey") s.args) [] in
          let (alert, created) = create_alert lib s wire.blank in
          if not (contains (bytes "-addnode") s.args)
          then some (record {
            success = false;
            net = net;
            out =
                created
                ++ (lit "add one node by write as :  node=10.175.0.100:9888   in config file frist"
                    ∷ endl
                    ∷ []);
            relays = [];
          })
          else let (net', added) = add_nodes net_lib (values (bytes "-addnode") s.multi) net in
            some (relay_signed net' (created ++ added) (sign_alert str_prikey alert))

    -- The command, with the settings that the file leaves. The alert's own result is not used.
    unfoldable pub send_alert_handle :
        (Text → ℤ)
        → (Text → Option (List Entry))
        → Settings
        → Net
        → List Text
        → Option (Settings × Net × Out)
    unfolding send_alert
    send_alert_handle atoi open_file s net argv =
        if lacks argv 2
        then some (s, net, help "Command \"sendalert\" example :" "sendalert alertconfigurefile")
        else elim (read_current_file atoi open_file s (argument argv 1)) [
          | none ↦ none
          | some (s', success, out) ↦
              if success
              then elim (send_alert s' net) [
                | none ↦ none
                | some r ↦ some (s', r.net, out ++ r.out)
              ]
              else some (s', net, out)
        ]
