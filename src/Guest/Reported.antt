-- ===== src/Guest/Reported.antt =====
-- What `run_in_vm` of src/qemu.rs hands over of a process that has exited.
use vmtest.Base.{
  List, [], ◌∷◌, ◌++◌, append-nil, append_assoc, map, map-append, Option, none, some, Bool, true,
  false, Text, text, lines, ◌≡◌, refl, sym, ap, ◌∙◌,
}
use vmtest.Output.{Output}
use vmtest.Host.{World, Act, ExecStatus, done, pure, send, ◌>>=◌}
use vmtest.Host.Inversion.{bind-done}
use vmtest.Guest.{send_lines, send_captured, send_truncation, send_status, report_status}

-- The lines of the output of a process: of stdout, of stderr behind it, and behind each of them a
-- notice where it was cut short.
abbrev captured_lines : Option Text → List Text
captured_lines none = []
captured_lines (some captured) = lines captured

abbrev notice : Option Bool → Text → List Text
notice (some true) message = message ∷ []
notice (some false) message = []
notice none message = []

abbrev pub output_lines : ExecStatus → List Text
output_lines status =
    captured_lines status.out_data
    ++ (notice status.out_truncated (text "<stdout truncation>")
        ++ (captured_lines status.err_data
            ++ notice status.err_truncated (text "<stderr truncation>")))

abbrev pub reported : Option (Text → Output) → ExecStatus → List Output
reported none status = []
reported (some output) status = map output (output_lines status)

module _ {S : Type 0} where
  abbrev pub sending : World S → List Output → World S
  sending w us = record w { sent = w.sent ++ us }

  -- The action only hands over these lines.
  abbrev Sends : (Text → Output) → Act S (Unit {0}) → List Text → Type 0
  Sends output m ls = (w : World S) → m w ≡ (done tt, sending w (map output ls))

  Sends-none : (output : Text → Output) → Sends output (pure tt) []
  unfolding pure
  Sends-none output w = ap (λ us. (done tt, record w { sent = us })) (sym (append-nil w.sent))

  Sends-then :
      (output : Text → Output) (m n : Act S (Unit {0})) (xs ys : List Text)
      → Sends output m xs
      → Sends output n ys
      → Sends output (m >>= λ _. n) (xs ++ ys)
  Sends-then output m n xs ys k l w =
      bind-done m (λ _. n) w tt (sending w (map output xs)) (k w)
      ∙ l (sending w (map output xs))
      ∙ ap (λ us. (done tt, record w { sent = us }))
          (append_assoc w.sent (map output xs) (map output ys)
            ∙ ap (λ us. w.sent ++ us) (sym (map-append output xs ys)))

  Sends-send : (output : Text → Output) (l : Text) → Sends output (send (output l)) (l ∷ [])
  unfolding send
  Sends-send output l w = refl

  send_lines-Sends :
      (output : Text → Output) (ls : List Text) → Sends output (send_lines output ls) ls
  unfolding send_lines
  send_lines-Sends output [] = Sends-none output
  send_lines-Sends output (l ∷ ls) =
      Sends-then output (send (output l)) (send_lines output ls) (l ∷ []) ls (Sends-send output l)
        (send_lines-Sends output ls)

  send_captured-Sends :
      (output : Text → Output) (captured : Option Text)
      → Sends output (send_captured output captured) (captured_lines captured)
  unfolding send_captured
  send_captured-Sends output none = Sends-none output
  send_captured-Sends output (some captured) = send_lines-Sends output (lines captured)

  send_truncation-Sends :
      (output : Text → Output) (truncated : Option Bool) (message : Text)
      → Sends output (send_truncation output truncated message) (notice truncated message)
  unfolding send_truncation
  send_truncation-Sends output none message = Sends-none output
  send_truncation-Sends output (some true) message = Sends-send output message
  send_truncation-Sends output (some false) message = Sends-none output

  send_status-Sends :
      (output : Text → Output) (status : ExecStatus)
      → Sends output (send_status output status) (output_lines status)
  unfolding send_status
  send_status-Sends output status =
      Sends-then output _ _ _ _ (send_captured-Sends output status.out_data) (
        Sends-then output _ _ _ _ (send_truncation-Sends output status.out_truncated _) (
          Sends-then output _ _ _ _ (send_captured-Sends output status.err_data)
            (send_truncation-Sends output status.err_truncated _)))

  pub report_status-done :
      (output : Option (Text → Output)) (status : ExecStatus) (w : World S)
      → report_status output status w ≡ (done tt, sending w (reported output status))
  unfolding pure
  report_status-done none status w =
      ap (λ us. (done tt, record w { sent = us })) (sym (append-nil w.sent))
  report_status-done (some output) status w = send_status-Sends output status w
