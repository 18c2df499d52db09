-- ===== src/Alert/Fields.antt =====
-- The sets of an alert hold what was in them and every value of their settings, and nothing else.
use coin_tool.Base.{
  ◌≡◌, Bool, false, ◌||◌, ◌&&◌, List, [], ◌∷◌, ◌++◌, arith, Text, text_eq, text_eq_iff, Bool-cases,
  inl, inr, bytes,
}
use coin_tool.Base.Int.{ℤ, eqb_ℤ}
use coin_tool.Base.Dict.{contains, values}
use coin_tool.Utils.Config.{Settings}
use coin_tool.Utils.Init.{Levels, has_level, insert_level}
use coin_tool.Utils.Init.Laws.{has_level-insert_level}
use coin_tool.Alert.{
  Alert, AlertLib, has_text, insert_text, insert_cancels, insert_sub_vers, create_alert,
}

has_text-append :
    (ss : List Text) (s t : Text) → has_text (ss ++ (s ∷ [])) t ≡ (has_text ss t || text_eq s t)
unfolding has_text
has_text-append [] s t = ground arith
has_text-append (x ∷ ss) s t = ground (arith, has_text-append ss s t)

has_text-insert_text :
    (s t : Text) (ss : List Text) → has_text (insert_text s ss) t ≡ (has_text ss t || text_eq s t)
unfolding insert_text
has_text-insert_text s t ss = elim (Bool-cases (has_text ss s)) [
  | inl old ↦ elim (Bool-cases (text_eq s t)) [
    | inl same ↦ rw (insert_text, old) (rw (same, ← (text_eq_iff s t).0 same) (rw old))
    | inr other ↦ ground arith
  ]
  | inr new ↦ rw (insert_text, new) (has_text-append ss s t)
]

module _ (lib : AlertLib) where
  -- Whether one of the texts spells a number.
  abbrev pub spells : List Text → ℤ → Bool
  spells [] n = false
  spells (str ∷ strs) n = eqb_ℤ (lib.atoi str) n || spells strs n

  has_level-insert_cancels :
      (strs : List Text) (ls : Levels) (n : ℤ)
      → has_level (insert_cancels lib strs ls) n ≡ (has_level ls n || spells strs n)
  unfolding insert_cancels
  has_level-insert_cancels [] ls n = ground arith
  has_level-insert_cancels (str ∷ strs) ls n = ground (
    arith,
    has_level-insert_level ls (lib.atoi str) n,
    has_level-insert_cancels strs (insert_level (lib.atoi str) ls) n,
  )

  has_text-insert_sub_vers :
      (strs : List Text) (ss : List Text) (t : Text)
      → has_text (insert_sub_vers lib strs ss) t ≡ (has_text ss t || has_text strs t)
  unfolding insert_sub_vers has_text
  has_text-insert_sub_vers [] ss t = ground arith
  has_text-insert_sub_vers (str ∷ strs) ss t =
      ground
        (arith, has_text-insert_text str t ss, has_text-insert_sub_vers strs (insert_text str ss) t)

  -- An alert cancels a number exactly if it did before or a `-setcancel` value spells the number,
  -- and it names a version exactly if it did before or a `-setsubver` value is that version; a
  -- setting counts only if it is in `mapArgs`.
  pub create_alert_sets :
      (s : Settings) (alert : Alert) (n : ℤ) (t : Text)
      → let filled = (create_alert lib s alert).0 in
        (has_level filled.set_cancel n ≡ (
          has_level alert.set_cancel n
          || (contains (bytes "-setcancel") s.args
              && spells (values (bytes "-setcancel") s.multi) n)))
        × (has_text filled.set_sub_ver t ≡ (
            has_text alert.set_sub_ver t
            || (contains (bytes "-setsubver") s.args
                && has_text (values (bytes "-setsubver") s.multi) t)))
  unfolding create_alert
  create_alert_sets s alert n t = (
    elim (Bool-cases (contains (bytes "-setcancel") s.args)) [
      | inl e ↦ rw e (has_level-insert_cancels _ alert.set_cancel n)
      | inr e ↦ rw e (ground arith)
    ],
    elim (Bool-cases (contains (bytes "-setsubver") s.args)) [
      | inl e ↦ rw e (has_text-insert_sub_vers _ alert.set_sub_ver t)
      | inr e ↦ rw e (ground arith)
    ],
  )
