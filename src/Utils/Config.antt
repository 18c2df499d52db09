-- ===== src/Utils/Config.antt =====
-- The configuration: `mapArgs` and `mapMultiArgs`, and the functions of `common/utils.cpp` that read
-- a file into them.
pub mod Laws
pub mod Negative
use coin_tool.Base.{
  ℕ, Bool, true, false, not, ◌&&◌, ◌++◌, Option, none, some, List, [], ◌∷◌, length, get_or, drop,
  ltb, ◌==◌, if◌then◌else◌, Text, bytes,
}
use coin_tool.Base.Int.{ℤ, pos, eqb_ℤ}
use coin_tool.Base.Dict.{Dict, lookup, insert, contains, push_back}
use coin_tool.Base.Output.{Out, lit, text, endl}
use coin_tool.Utils.Report.{showerror}

-- `mapArgs` has one value for a key, `mapMultiArgs` all values that were given.
pub record Settings : Type 0 where
  pub args : Dict Text
  pub multi : Dict (List Text)

-- One option of a file, as boost's parser returns it: its `string_key` and its `value[0]`.
abbrev pub Entry : Type 0
Entry = Text × Text

-- Whether a key has the form "-no…" with at least one more byte.
unfoldable pub is_negative : Text → Bool
is_negative k =
    ltb 3 (length k) && (get_or k 0 0 == b'-' && (get_or k 1 0 == b'n' && get_or k 2 0 == b'o'))

-- The chain library's `atoi(const std::string&)` is a parameter.
module _ (atoi : Text → ℤ) where
  unfoldable pub tools_interpret_bool : Text → Bool
  tools_interpret_bool [] = true
  tools_interpret_bool (c ∷ s) = not (eqb_ℤ (atoi (c ∷ s)) (pos 0))

  -- Turns -noX into -X with the negated value.
  unfoldable pub tools_interpret_negative_setting : Text → Text → Text × Text
  unfolding tools_interpret_bool is_negative
  tools_interpret_negative_setting k v =
      if is_negative k
      then (b'-' ∷ drop 3 k, if tools_interpret_bool v then bytes "0" else bytes "1")
      else (k, v)

  -- The body of the loop over the options of a file.
  unfoldable pub read_entry : Settings → Entry → Settings
  read_entry s (string_key, value) =
      let (k, v) = tools_interpret_negative_setting (b'-' ∷ string_key) value in
      record {
        args = if contains k s.args then s.args else insert k v s.args;
        multi = push_back k v s.multi;
      }

  unfoldable pub read_entries : Settings → List Entry → Settings
  read_entries s [] = s
  read_entries s (e ∷ es) = read_entries (read_entry s e) es

  -- The files that can be opened, with the options that boost's parser finds in them.
  module _ (open_file : Text → Option (List Entry)) where
    -- A result of `none` is a write behind the buffer of `showerror`.
    unfoldable pub read_current_file : Settings → Text → Option (Settings × Bool × Out)
    read_current_file s strfile = elim (open_file strfile) [
      | none ↦ elim (showerror (bytes "Open file <" ++ (strfile ++ bytes "> failed!"))) [
        | none ↦ none
        | some (b, out) ↦ some (s, b, out)
      ]
      | some entries ↦ some (read_entries s entries, true, [])
    ]

    -- boost's `is_complete` and `operator/`, and `GetCoinToolDir()`
    module _ (is_complete : Text → Bool) (join : Text → Text → Text) (coin_tool_dir : Text) where
      unfoldable pub get_file : Text → Text
      get_file filename = if is_complete filename then filename else join coin_tool_dir filename

      unfoldable pub read_file : Settings → Text → Option (Settings × Bool × Out)
      unfolding get_file read_current_file
      read_file s strfile = read_current_file s (get_file strfile)

-- `GetCoinToolDir` on Unix; the first argument is the environment's HOME.
unfoldable pub get_coin_tool_dir : Option Text → (Text → Text → Text) → Text
get_coin_tool_dir none join = join (bytes "/") (bytes ".cointools")
get_coin_tool_dir (some []) join = join (bytes "/") (bytes ".cointools")
get_coin_tool_dir (some (c ∷ home)) join = join (c ∷ home) (bytes ".cointools")

-- `SetFilePath`: where the chain library's `ReadConfigFile` looks, and its `GetConfigFile` prints.
unfoldable pub set_file_path :
    Option Text → (Text → Text → Text) → (Settings → Text) → Text → Settings → Settings × Out
unfolding get_coin_tool_dir
set_file_path home join get_config_file filename s =
    let dir = get_coin_tool_dir home join in
    let s' : Settings = record s {
      args = insert (bytes "-conf") (join dir filename) (insert (bytes "-datadir") dir s.args);
    } in
    (s', lit "Info: Using config file " ∷ text (get_config_file s') ∷ endl ∷ [])
