-- ===== src/Utils/Config/Laws.antt =====
-- What reading a file leaves in the settings: a value that is there already stays, the first value
-- of the file counts otherwise, and all values are collected in order.
use coin_tool.Base.{
  ◌≡◌, refl, sym, ◌↔◌, false, Option, none, some, List, [], ◌∷◌, ◌++◌, arith, first, not_empty,
  append-nil, append_assoc, length, ◌≤◌, ◌+◌, if◌then◌else◌, Text, text_eq, text_eq_iff, bytes,
  All-append, length-append, ◌<◌,
}
use coin_tool.Base.Int.{ℤ}
use coin_tool.Base.Dict.{lookup, contains, values, is_some, lookup-insert, values-push_back}
use coin_tool.Utils.Config.{
  Settings, Entry, tools_interpret_negative_setting, read_entry, read_entries, read_current_file,
}
use coin_tool.Utils.Report.{error_line}
use coin_tool.Utils.Report.Laws.{HasNoNul, showerror_lem}

abbrev pub or_first : Option Text → List Text → Option Text
or_first (some v) vs = some v
or_first none vs = first vs

module _ (atoi : Text → ℤ) where
  -- The values that a file gives to a key, in their order in the file.
  pub file_values : Text → List Entry → List Text
  file_values k [] = []
  file_values k ((name, given) ∷ es) =
      let rest = file_values k es in
      let (k', v) = tools_interpret_negative_setting atoi (b'-' ∷ name) given in
      if text_eq k' k then v ∷ rest else rest

  read_entry-lookup :
      (k : Text) (s : Settings) (e : Entry)
      → lookup k (read_entry atoi s e).args ≡ or_first (lookup k s.args) (file_values k (e ∷ []))
  unfolding read_entry file_values
  read_entry-lookup k s (name, given) =
      let r = tools_interpret_negative_setting atoi (b'-' ∷ name) given in
      ground (arith, lookup-insert k r.0 r.1 s.args, text_eq_iff r.0 k)

  read_entry-values :
      (k : Text) (s : Settings) (e : Entry)
      → values k (read_entry atoi s e).multi ≡ values k s.multi ++ file_values k (e ∷ [])
  unfolding read_entry file_values
  read_entry-values k s (name, given) =
      let r = tools_interpret_negative_setting atoi (b'-' ∷ name) given in
      ground (arith, values-push_back k r.0 r.1 s.multi, append-nil (values k s.multi))

  file_values-cons :
      (k : Text) (e : Entry) (es : List Entry)
      → file_values k (e ∷ es) ≡ file_values k (e ∷ []) ++ file_values k es
  unfolding file_values
  file_values-cons k (name, given) es = ground arith

  or_first-append :
      (o : Option Text) (vs ws : List Text) → or_first (or_first o vs) ws ≡ or_first o (vs ++ ws)
  or_first-append (some v) vs ws = refl
  or_first-append none [] ws = refl
  or_first-append none (v ∷ vs) ws = refl

  pub lookup-read_entries :
      (k : Text) (s : Settings) (es : List Entry)
      → lookup k (read_entries atoi s es).args ≡ or_first (lookup k s.args) (file_values k es)
  unfolding read_entries file_values
  lookup-read_entries k s [] = ground arith
  lookup-read_entries k s (e ∷ es) =
      rw (lookup-read_entries k (read_entry atoi s e) es, read_entry-lookup k s e)
        (rw (or_first-append, ← file_values-cons k e es))

  pub values-read_entries :
      (k : Text) (s : Settings) (es : List Entry)
      → values k (read_entries atoi s es).multi ≡ values k s.multi ++ file_values k es
  unfolding read_entries file_values
  values-read_entries k s [] = sym (append-nil (values k s.multi))
  values-read_entries k s (e ∷ es) =
      rw (values-read_entries k (read_entry atoi s e) es, read_entry-values k s e)
        (rw append_assoc (rw (← file_values-cons k e es)))

-- After a file is read, a key has the value that it had before, or else the first value that the
-- file gives to it; all of the file's values stand in order behind the values that were there.
pub read_entries_lem :
    (atoi : Text → ℤ) (k : Text) (s : Settings) (es : List Entry)
    → (lookup k (read_entries atoi s es).args ≡ or_first (lookup k s.args) (file_values atoi k es))
      × (values k (read_entries atoi s es).multi ≡ values k s.multi ++ file_values atoi k es)
read_entries_lem atoi k s es = (lookup-read_entries atoi k s es, values-read_entries atoi k s es)

is_some-or_first :
    (o : Option Text) (vs ws : List Text)
    → is_some o ≡ not_empty vs
    → is_some (or_first o ws) ≡ not_empty (vs ++ ws)
is_some-or_first none [] [] h = refl
is_some-or_first none [] (w ∷ ws) h = refl
is_some-or_first none (v ∷ vs) ws h = cc
is_some-or_first (some a) [] ws h = cc
is_some-or_first (some a) (v ∷ vs) ws h = refl

-- If a key is in `mapArgs` exactly when it has values in `mapMultiArgs`, that still holds after a
-- file is read.
pub contains-read_entries :
    (atoi : Text → ℤ) (k : Text) (s : Settings) (es : List Entry)
    → contains k s.args ≡ not_empty (values k s.multi)
    → contains k (read_entries atoi s es).args ≡ not_empty (values k (read_entries atoi s es).multi)
contains-read_entries atoi k s es h =
    rw (lookup-read_entries atoi k s es, values-read_entries atoi k s es)
      (is_some-or_first (lookup k s.args) (values k s.multi) (file_values atoi k es) h)

abbrev pub failed_line : Text → Text
failed_line name = bytes "Open file <" ++ (name ++ bytes "> failed!")

length-failed_line : (name : Text) → length (failed_line name) ≡ length name + 20
length-failed_line name = omega (arith, length-append {0} name (bytes "> failed!"))

HasNoNul-failed_line : (name : Text) → HasNoNul name → HasNoNul (failed_line name)
HasNoNul-failed_line name h =
    let tail : HasNoNul (name ++ bytes "> failed!") =
      All-append _ name (bytes "> failed!") h (omega arith) in
    ground (arith, tail)

-- A file that cannot be opened leaves the settings as they are and gives false, with the error
-- printed, if its name has fewer than 80 bytes.
pub read_current_file_missing :
    (atoi : Text → ℤ) (open_file : Text → Option (List Entry)) (s : Settings) (name : Text)
    → HasNoNul name
    → open_file name ≡ none
    → length name < 80
    → read_current_file atoi open_file s name ≡ some (s, false, error_line (failed_line name))
unfolding read_current_file
read_current_file_missing atoi open_file s name h missing short =
    let printed =
      (showerror_lem (failed_line name) (HasNoNul-failed_line name h)).0
        (omega (arith, length-failed_line name)) in
    rw (missing, read_current_file) (rw printed)

-- For a name without zero bytes, reading a file writes behind the buffer of the error message
-- exactly if the file cannot be opened and its name has 80 bytes or more.
pub read_current_file-eq-none :
    (atoi : Text → ℤ) (open_file : Text → Option (List Entry)) (s : Settings) (name : Text)
    → HasNoNul name
    → (read_current_file atoi open_file s name ≡ none)
      ↔ ((open_file name ≡ none) × (80 ≤ length name))
unfolding read_current_file
read_current_file-eq-none atoi open_file s name h =
    let overrun = (showerror_lem (failed_line name) (HasNoNul-failed_line name h)).1 in
    let size = length-failed_line name in
    (λ e. ground (arith, overrun.0, size), λ e. ground (arith, overrun.1, size))
