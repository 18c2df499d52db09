-- ===== src/Command/Laws.antt =====
-- The table is sorted and finds exactly what was registered.
use coin_tool.Base.{
  ℕ, ◌≡◌, refl, ◌∙◌, sym, subst, Bool, true, false, ◌&&◌, Option, none, some, List, [], ◌∷◌, arith,
  All, get_elem?, All-get_elem?, if◌then◌else◌, Bool-cases, Option-cases, inl, inr, Text, text_eq,
  text_eq_iff, text_lt,
}
use coin_tool.Base.Int.{pos}
use coin_tool.Base.Output.{Out, lit, text, endl}
use coin_tool.Command.{
  Handler, CommandMap, insert_command, find_command, registrations, register_all, register_cmd,
  dispatch, main,
}

text_lt_irrefl : (s : Text) → text_lt s s ≡ false
unfolding text_lt
text_lt_irrefl [] = refl
text_lt_irrefl (x ∷ s) = ground (arith, text_lt_irrefl s)

-- Two texts of which neither is before the other are equal.
text_lt_total : (s t : Text) → text_lt s t ≡ false → text_lt t s ≡ false → s ≡ t
unfolding text_lt
text_lt_total [] [] a b = refl
text_lt_total [] (y ∷ t) a b = cc
text_lt_total (x ∷ s) [] a b = cc
text_lt_total (x ∷ s) (y ∷ t) a b = ground (arith, text_lt_total s t)

text_lt_trans : (s t u : Text) → text_lt s t ≡ true → text_lt t u ≡ true → text_lt s u ≡ true
unfolding text_lt
text_lt_trans s t [] a b = cc
text_lt_trans s [] (z ∷ u) a b = cc
text_lt_trans [] (y ∷ t) (z ∷ u) a b = refl
text_lt_trans (x ∷ s) (y ∷ t) (z ∷ u) a b = ground (arith, text_lt_trans s t u)

-- The keys rise strictly.
abbrev pub is_sorted : CommandMap → Bool
is_sorted [] = true
is_sorted ((k, h) ∷ []) = true
is_sorted ((k, h) ∷ (j, g) ∷ m) = text_lt k j && is_sorted ((j, g) ∷ m)

insert_command-is_sorted :
    (k : Text) (h : Handler) (m : CommandMap)
    → is_sorted m ≡ true
    → is_sorted (insert_command k h m) ≡ true
unfolding insert_command
insert_command-is_sorted k h [] s = refl
insert_command-is_sorted k h ((j, g) ∷ []) s = ground (arith)
insert_command-is_sorted k h ((j, g) ∷ (i, f) ∷ m) s =
    ground (arith, insert_command-is_sorted k h ((i, f) ∷ m))

-- A key before the first key of a sorted map is not in it.
find_command_below :
    (k j : Text) (g : Handler) (m : CommandMap)
    → text_lt k j ≡ true
    → is_sorted ((j, g) ∷ m) ≡ true
    → find_command k ((j, g) ∷ m) ≡ none
unfolding find_command
find_command_below k j g [] b s = ground (arith, text_eq_iff j k, text_lt_irrefl k)
find_command_below k j g ((i, f) ∷ m) b s =
    ground
      (arith, text_eq_iff j k, text_lt_irrefl k, text_lt_trans k j i b, find_command_below k i f m)

abbrev pub or_handler : Option Handler → Option Handler → Option Handler
or_handler (some h) o = some h
or_handler none o = o

is_sorted-tail :
    (j : Text) (g : Handler) (m : CommandMap) → is_sorted ((j, g) ∷ m) ≡ true → is_sorted m ≡ true
is_sorted-tail j g [] s = refl
is_sorted-tail j g ((i, f) ∷ m) s = ground arith

find_command-insert_command :
    (i k : Text) (h : Handler) (m : CommandMap)
    → is_sorted m ≡ true
    → find_command i (insert_command k h m)
      ≡ or_handler (find_command i m) (if text_eq k i then some h else none)
unfolding find_command insert_command
find_command-insert_command i k h [] s = refl
find_command-insert_command i k h ((j, g) ∷ m) s =
    let tail = is_sorted-tail j g m s in
    elim (Bool-cases (text_lt k j)) [
      | inl before ↦ elim (Bool-cases (text_eq k i)) [
        | inl e ↦
            let absent : find_command i ((j, g) ∷ m) ≡ none =
              subst (λ (t : Text). find_command t ((j, g) ∷ m) ≡ none) ((text_eq_iff k i).0 e)
                (find_command_below k j g m before s) in
            ground (arith, before, e, absent)
        | inr e ↦ ground arith
      ]
      | inr not_before ↦ elim (Bool-cases (text_lt j k)) [
        | inl behind ↦ ground (arith, find_command-insert_command i k h m tail)
        | inr not_behind ↦
            ground
              (arith, text_lt_total k j not_before not_behind, text_eq_iff j i, text_eq_iff k i)
      ]
    ]

or_handler_assoc :
    (a b c : Option Handler) → or_handler (or_handler a b) c ≡ or_handler a (or_handler b c)
or_handler_assoc (some h) b c = refl
or_handler_assoc none b c = refl

or_handler-none : (o : Option Handler) → or_handler o none ≡ o
or_handler-none (some h) = refl
or_handler-none none = refl

find_command-cons :
    (i k : Text) (h : Handler) (rs : List (Text × Handler))
    → find_command i ((k, h) ∷ rs)
      ≡ or_handler (if text_eq k i then some h else none) (find_command i rs)
unfolding find_command
find_command-cons i k h rs = ground arith

find_command-nil : (k : Text) (o : Option Handler) → or_handler (find_command k []) o ≡ o
unfolding find_command
find_command-nil k o = refl

-- Registering a list of commands in a sorted table gives a sorted table, in which a name stands for
-- the handler that it had before, or else for the one of its first registration.
pub find_command-register_all :
    (i : Text) (rs : List (Text × Handler)) (m : CommandMap)
    → is_sorted m ≡ true
    → (is_sorted (register_all rs m) ≡ true)
      × (find_command i (register_all rs m) ≡ or_handler (find_command i m) (find_command i rs))
unfolding register_all find_command
find_command-register_all i [] m s = (s, sym (or_handler-none (find_command i m)))
find_command-register_all i ((k, h) ∷ rs) m s =
    let rest =
      find_command-register_all i rs (insert_command k h m) (insert_command-is_sorted k h m s) in
    (
      rest.0,
      rest.1
          ∙ rw (find_command-insert_command i k h m s, find_command-cons i k h rs)
              (or_handler_assoc (find_command i m) (if text_eq k i then some h else none)
                (find_command i rs)),
    )

find_command-register_cmd :
    (k : Text) → find_command k (register_cmd []) ≡ find_command k registrations
unfolding register_cmd
find_command-register_cmd k =
    (find_command-register_all k registrations [] refl).1
    ∙ find_command-nil k (find_command k registrations)

-- What is printed for a name without a handler.
abbrev pub unknown_lines : Text → Option Handler → Out
unknown_lines cmd none = lit "Error: unknown method " ∷ text cmd ∷ endl ∷ []
unknown_lines cmd (some h) = []

dispatch_lem :
    (m : CommandMap) (prog cmd : Text) (rest : List Text)
    → let d = dispatch m (prog ∷ cmd ∷ rest) in
      (d.status ≡ pos 0)
      × (d.call ≡ find_command cmd m)
      × (d.out ≡ unknown_lines cmd (find_command cmd m))
unfolding dispatch
dispatch_lem m prog cmd rest = elim (Option-cases (find_command cmd m)) [
  | inl e ↦ ground (arith, e)
  | inr (h, e) ↦ ground (arith, e)
]

-- With a command's name, `main` gives 0, calls the first handler that is registered for the name and
-- prints nothing by itself; with an unknown name it calls nothing and says so.
pub main_lem :
    (prog cmd : Text) (rest : List Text)
    → let d = main (prog ∷ cmd ∷ rest) in
      (d.status ≡ pos 0)
      × (d.call ≡ find_command cmd registrations)
      × (d.out ≡ unknown_lines cmd (find_command cmd registrations))
unfolding main
main_lem prog cmd rest =
    rw (find_command-register_cmd cmd) at (dispatch_lem (register_cmd []) prog cmd rest)

registrations_found : All (λ e. find_command e.0 registrations ≡ some e.1) registrations
unfolding find_command text_eq
registrations_found = (
  refl,
  (
    refl,
    (
      refl,
      (
        refl,
        (
          refl,
          (
            refl,
            (
              refl,
              (
                refl,
                (refl, (refl, (refl, (refl, (refl, (refl, (refl, (refl, (refl, (refl, tt)))))))))),
              ),
            ),
          ),
        ),
      ),
    ),
  ),
)

-- Each of the registered names is reached: no name is registered twice.
pub main_reaches :
    (i : ℕ) (k : Text) (h : Handler) (prog : Text) (rest : List Text)
    → get_elem? registrations i ≡ some (k, h)
    → (main (prog ∷ k ∷ rest)).call ≡ some h
main_reaches i k h prog rest e =
    (main_lem prog k rest).1
    ∙ All-get_elem? (λ e. find_command e.0 registrations ≡ some e.1) registrations i (k, h)
        registrations_found e
