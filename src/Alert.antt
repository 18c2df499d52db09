-- ===== src/Alert.antt =====
-- `common/alerttool.cpp`: an alert is filled from the settings, signed, checked and sent to the nodes.
pub mod Send
pub mod Fields
use coin_tool.Base.{
  ℕ, Bool, true, false, ◌||◌, Option, none, some, List, [], ◌∷◌, ◌++◌, if◌then◌else◌, Text, text_eq,
  bytes,
}
use coin_tool.Base.Int.{ℤ, pos, eqb_ℤ}
use coin_tool.Base.Dict.{lookup, contains, values, value_or}
use coin_tool.Base.Output.{Out, lit, text, endl}
use coin_tool.Utils.Config.{Settings}
use coin_tool.Utils.Init.{Levels, insert_level}

-- The fields of the chain library's `CAlert` that the tool sets; a set is kept in insertion order.
pub record Alert : Type 0 where
  pub version : ℤ
  pub relay_until : ℤ
  pub expiration : ℤ
  pub id : ℤ
  pub cancel : ℤ
  pub set_cancel : Levels
  pub min_ver : ℤ
  pub max_ver : ℤ
  pub set_sub_ver : List Text
  pub priority : ℤ
  pub comment : Text
  pub status_bar : Text
  pub msg : Text
  pub sig : Text

unfoldable pub has_text : List Text → Text → Bool
has_text [] t = false
has_text (s ∷ ss) t = text_eq s t || has_text ss t

unfoldable pub insert_text : Text → List Text → List Text
unfolding has_text
insert_text t ss = if has_text ss t then ss else ss ++ (t ∷ [])

-- The chain library's `atoi`, `atoi64`, `PROTOCOL_VERSION` and `CAlert::ToString`
pub record AlertLib : Type 0 where
  pub atoi : Text → ℤ
  pub atoi64 : Text → ℤ
  pub protocol_version : ℤ
  pub to_string : Alert → Text

module _ (lib : AlertLib) where
  -- `mapArgs.count(key)` chooses between the key's number and a default.
  abbrev pub number_or : (Text → ℤ) → Settings → Text → ℤ → ℤ
  number_or read s key default =
      if contains key s.args then read (value_or (lookup key s.args) []) else default

  abbrev pub text_or : Settings → Text → Text → Text
  text_or s key default = if contains key s.args then value_or (lookup key s.args) [] else default

  unfoldable pub insert_cancels : List Text → Levels → Levels
  insert_cancels [] set = set
  insert_cancels (str ∷ strs) set = insert_cancels strs (insert_level (lib.atoi str) set)

  unfoldable pub insert_sub_vers : List Text → List Text → List Text
  insert_sub_vers [] set = set
  insert_sub_vers (str ∷ strs) set = insert_sub_vers strs (insert_text str set)

  unfoldable pub create_alert : Settings → Alert → Alert × Out
  unfolding insert_cancels insert_sub_vers insert_text
  create_alert s alert =
      let filled : Alert = record alert {
        version = number_or lib.atoi s (bytes "-version") lib.protocol_version;
        relay_until = number_or lib.atoi64 s (bytes "-relayuntil") (pos 4070908800);
        expiration = number_or lib.atoi64 s (bytes "-expiration") (pos 4070908800);
        id = number_or lib.atoi s (bytes "-id") (pos 1);
        cancel = number_or lib.atoi s (bytes "-cancel") (pos 0);
        set_cancel =
            if contains (bytes "-setcancel") s.args
            then insert_cancels (values (bytes "-setcancel") s.multi) alert.set_cancel
            else alert.set_cancel;
        min_ver = number_or lib.atoi s (bytes "-minver") (pos 0);
        max_ver = number_or lib.atoi s (bytes "-maxver") (pos 0x7fffffff);
        set_sub_ver =
            if contains (bytes "-setsubver") s.args
            then insert_sub_vers (values (bytes "-setsubver") s.multi) alert.set_sub_ver
            else alert.set_sub_ver;
        priority = number_or lib.atoi s (bytes "-priority") (pos 1);
        comment = text_or s (bytes "-comment") (bytes "TEST: alert test");
        status_bar =
            text_or s (bytes "-statusbar")
              (bytes "URGENT: Alert key compromised, upgrade required");
      } in
      (filled, lit "alert message " ∷ endl ∷ text (lib.to_string filled) ∷ endl ∷ [])
