-- ===== src/Utils/Log/Laws.antt =====
-- Where a message goes, and that stamps stand at the beginnings of lines only.
use coin_tool.Base.{
  ℕ, ◌+◌, ◌≤◌, ◌≡◌, refl, ◌∙◌, sym, ◌↔◌, ◌⊎◌, inl, inr, Bool, true, false, not, ◌&&◌, ◌||◌, none,
  some, [], ◌∷◌, ◌++◌, arith, length, length-append, append_assoc, ◌/◌, ◌%◌, if◌then◌else◌, Text,
  Option-cases, append-nil,
}
use coin_tool.Base.Int.{ℤ, pos, eqb_ℤ}
use coin_tool.Utils.Init.{System, has_level}
use coin_tool.Utils.Report.{vsprintf}
use coin_tool.Utils.Report.Laws.{HasNoNul, vsprintf-eq-none, vsprintf-cases}
use coin_tool.Utils.Log.{
  Format, Call, LogFile, Log, ends_with_newline, get_timestamp_str, get_thread_name_str, write_str,
  tool_log,
}

ends_with_newline-append :
    (s : Text) (c : ℕ) (t : Text) → ends_with_newline (s ++ (c ∷ t)) ≡ ends_with_newline (c ∷ t)
unfolding ends_with_newline
ends_with_newline-append [] c t = refl
ends_with_newline-append (x ∷ []) c t = refl
ends_with_newline-append (x ∷ y ∷ s) c t = ends_with_newline-append (y ∷ s) c t

-- The flag that is set from a message fits a file that ends with the message.
ends_with_newline-cases :
    (str front : Text) → (str ≡ []) ⊎ (ends_with_newline str ≡ ends_with_newline (front ++ str))
ends_with_newline-cases [] front = inl refl
ends_with_newline-cases (c ∷ str) front = inr (sym (ends_with_newline-append front c str))

-- A write faults exactly if the file is not open and cannot be opened.
write_str-eq-none :
    (f : Format) (call : Call) (str : Text) (file : LogFile)
    → (write_str f call str file ≡ none) ↔ ((file.opened || call.can_open) ≡ false)
unfolding write_str
write_str-eq-none f call str file = (λ h. ground arith, λ h. ground arith)

module _ (f : Format) (head : Text → Text) where
  -- `"%16s | %s"` puts a text that depends on the name alone in front of the line.
  abbrev pub PutsHead : Type 0
  PutsHead = (t s : Text) → f.thread_line t s ≡ head t ++ s

  time_stamp : ℕ → Text
  time_stamp now =
      let part = if f.log_time_micros then f.micros (now % 1000000) else [] in
      if f.log_timestamps then f.date (now / 1000000) ++ (part ++ (b' ' ∷ [])) else []

  thread_stamp : Text → Text
  thread_stamp name = if f.log_thread_names then head name else []

  -- What stands in front of a message in the file: nothing within a line, and at its beginning the
  -- time and the thread's name, as far as they are switched on.
  pub stamp : Call → Bool → Text
  unfolding time_stamp thread_stamp
  stamp call started = if started then time_stamp call.now ++ thread_stamp call.thread_name else []

  time_stamp-append :
      (now : ℕ) (str : Text) → get_timestamp_str f now str true ≡ time_stamp now ++ str
  unfolding get_timestamp_str time_stamp
  time_stamp-append now str =
      let date = f.date (now / 1000000) in
      let part = if f.log_time_micros then f.micros (now % 1000000) else [] in
      ground (arith, append_assoc date (part ++ (b' ' ∷ [])) str, append_assoc part (b' ' ∷ []) str)

  thread_stamp-append :
      (name str : Text) → PutsHead → get_thread_name_str f name str true ≡ thread_stamp name ++ str
  unfolding get_thread_name_str thread_stamp
  thread_stamp-append name str puts = ground (arith, puts name str)

  within_line :
      (now : ℕ) (name str : Text)
      → get_timestamp_str f now (get_thread_name_str f name str false) false ≡ str
  unfolding get_timestamp_str get_thread_name_str
  within_line now name str = ground arith

  stamped-append :
      (call : Call) (str : Text) (started : Bool)
      → PutsHead
      → get_timestamp_str f call.now (get_thread_name_str f call.thread_name str started) started
        ≡ stamp call started ++ str
  unfolding stamp
  stamped-append call str false puts = within_line call.now call.thread_name str
  stamped-append call str true puts =
      time_stamp-append call.now _
      ∙ rw (thread_stamp-append call.thread_name str puts) (rw append_assoc)

  -- A write that does not fault appends the stamp and the message, and its result counts these bytes,
  -- if a thread's line is a head and the line. After a message that is not empty the flag says
  -- whether the file ends with a newline, which is when the next message gets a stamp.
  pub write_str-stamp :
      (call : Call) (str : Text) (file file' : LogFile) (n : ℕ)
      → PutsHead
      → write_str f call str file ≡ some (file', n)
      → (file'.written ≡ file.written ++ (stamp call file.started_new_line ++ str))
        × (length file'.written ≡ length file.written + n)
        × ((str ≡ []) ⊎ (file'.started_new_line ≡ ends_with_newline file'.written))
  unfolding write_str
  write_str-stamp call str file file' n puts e =
      let appended = stamped-append call str file.started_new_line puts in
      let front = stamp call file.started_new_line in
      (
        ground (arith, appended),
        ground (arith, appended, length-append file.written (front ++ str)),
        ground (
          arith,
          appended,
          ends_with_newline-cases str (file.written ++ front),
          append_assoc file.written front str,
        ),
      )

  abbrev pub shown : System → ℤ → Bool
  shown sys debug = eqb_ℤ debug (pos 0) || has_level sys.debug_levels debug

  abbrev pub logged : System → ℤ → Bool
  logged sys debug = not (shown sys debug) && has_level sys.log_levels debug

  -- Where `ToolLog` does not fault, a message without zero bytes that has level 0 or a debug level
  -- goes to the screen only, one of another level in the log set goes to the file only, behind its
  -- stamp, and any other goes nowhere, if a thread's line is a head and the line.
  pub tool_log_routes :
      (sys : System) (call : Call) (debug : ℤ) (s : Text) (log log' : Log) (n : ℕ)
      → PutsHead
      → HasNoNul s
      → tool_log f sys call debug s log ≡ some (log', n)
      → (log'.screen ≡ log.screen ++ (if shown sys debug then s else []))
        × (log'.file.written
            ≡ log.file.written
              ++ (if logged sys debug then stamp call log.file.started_new_line ++ s else []))
  unfolding tool_log
  tool_log_routes sys call debug s log log' n puts h e = elim (vsprintf-cases 1000 s h) [
    | inl overrun ↦ ground (arith, overrun)
    | inr fits ↦ elim (Option-cases (write_str f call s log.file)) [
      | inl failed ↦
          ground (arith, fits, failed, append-nil log.screen, append-nil log.file.written)
      | inr ((file', m), wrote) ↦ ground (
        arith,
        fits,
        wrote,
        (write_str-stamp call s log.file file' m puts wrote).0,
        append-nil log.screen,
        append-nil log.file.written,
      )
    ]
  ]

  -- `ToolLog` faults exactly if the message does not fit 999 bytes, or if it is for the file and the
  -- file is not open and cannot be opened.
  pub tool_log-eq-none :
      (sys : System) (call : Call) (debug : ℤ) (s : Text) (log : Log)
      → (tool_log f sys call debug s log ≡ none) ↔ (
          (1000 ≤ length s)
          ⊎ ((logged sys debug ≡ true) × ((log.file.opened || call.can_open) ≡ false)))
  unfolding tool_log
  tool_log-eq-none sys call debug s log =
      let overrun = vsprintf-eq-none 1000 s in
      let failed = λ (str : Text). write_str-eq-none f call str log.file in
      elim (Option-cases (vsprintf 1000 s)) [
        | inl e ↦ (λ _. inl (overrun.0 e), λ _. rw (e, tool_log))
        | inr (str, e) ↦
            let fits : ¬ (1000 ≤ length s) = λ long. ground (arith, overrun.1 long, e) in
            (λ h. inr (ground (arith, e, failed str)), λ h. ground (arith, e, failed str))
      ]
