-- ===== src/Tests/Alert.antt =====
-- Concrete runs of the functions of `common/alerttool.cpp` over a small network.
use coin_tool.Base.{
  ◌≡◌, refl, true, false, ◌||◌, ◌&&◌, Option, none, some, [], ◌∷◌, text_eq, bytes, length,
}
use coin_tool.Base.Int.{pos}
use coin_tool.Base.Dict.{contains, values, lookup}
use coin_tool.Chain.Toy.{toy}
use coin_tool.Utils.Config.{Settings}
use coin_tool.Utils.Init.{has_level}
use coin_tool.Utils.Nodes.{Net, NetLib}
use coin_tool.Alert.{Alert, AlertLib, has_text, create_alert}
use coin_tool.Alert.Fields.{spells, create_alert_sets}
use coin_tool.Alert.Send.{sign_alert, sign_with, Wire, Sent, send_alert}
use coin_tool.Alert.Send.Laws.{Safe, send_alert-Safe}

abbrev alert_lib : AlertLib
alert_lib = record {
  atoi = λ s. pos (length s);
  atoi64 = λ s. pos (length s);
  protocol_version = pos 70;
  to_string = λ a. a.comment;
}

abbrev blank_alert : Alert
blank_alert = record {
  version = pos 1;
  relay_until = pos 0;
  expiration = pos 0;
  id = pos 0;
  cancel = pos 0;
  set_cancel = [];
  min_ver = pos 0;
  max_ver = pos 0;
  set_sub_ver = [];
  priority = pos 0;
  comment = [];
  status_bar = [];
  msg = [];
  sig = [];
}

abbrev wire : Wire toy
wire = record {
  blank = blank_alert;
  serialize = λ a. a.comment;
  hash_msg = λ s. s;
  alert_key = 7 ∷ [];
  check_signature = λ a key. text_eq a.sig (7 ∷ a.msg);
  relay_to = λ a n. true;
  addr_string = λ n. n.addr;
}

abbrev net_lib : NetLib
net_lib = record {
  connect = λ s. some (length s);
  is_selectable = λ socket. true;
  new_node = λ socket addr. record {
    socket = socket;
    addr = addr;
    time_connected = 0;
    version = 0;
    refs = 0;
    is_masternode = false;
  };
  protocol_version = 70;
  get_time = 5;
}

abbrev no_net : Net
no_net = record { nodes = []; opened = []; closed = []; attempts = [] }

abbrev alert_settings : Settings
alert_settings = record {
  args =
      (bytes "-privkey", 7 ∷ [])
      ∷ (bytes "-addnode", bytes "a:1")
      ∷ (bytes "-setcancel", bytes "x")
      ∷ [];
  multi =
      (bytes "-addnode", bytes "a:1" ∷ bytes "bb:2" ∷ [])
      ∷ (bytes "-setcancel", bytes "x" ∷ bytes "xyz" ∷ [])
      ∷ [];
}

create_alert_sets_example :
    let filled = (create_alert alert_lib alert_settings blank_alert).0 in
    (has_level filled.set_cancel (pos 3) ≡ (
      has_level blank_alert.set_cancel (pos 3)
      || (contains (bytes "-setcancel") alert_settings.args
          && spells alert_lib (values (bytes "-setcancel") alert_settings.multi) (pos 3))))
    × (has_text filled.set_sub_ver (bytes "v") ≡ (
        has_text blank_alert.set_sub_ver (bytes "v")
        || (contains (bytes "-setsubver") alert_settings.args
            && has_text (values (bytes "-setsubver") alert_settings.multi) (bytes "v"))))
create_alert_sets_example =
    create_alert_sets alert_lib alert_settings blank_alert (pos 3) (bytes "v")

-- What a run gives, where it gives something.
abbrev outcome : Option Sent → Sent
outcome none = record { success = false; net = no_net; out = []; relays = [] }
outcome (some r) = r

run_sends : (outcome (send_alert toy wire net_lib alert_lib alert_settings no_net)).success ≡ true
unfolding send_alert lookup text_eq sign_alert sign_with create_alert
run_sends = refl

send_alert-Safe_example :
    Safe toy wire 3 (outcome (send_alert toy wire net_lib alert_lib alert_settings no_net))
unfolding send_alert lookup text_eq
send_alert-Safe_example =
    send_alert-Safe toy wire net_lib alert_lib alert_settings no_net 3
      (outcome (send_alert toy wire net_lib alert_lib alert_settings no_net)) (λ socket addr. refl)
      refl refl
