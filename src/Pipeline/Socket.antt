-- ===== src/Pipeline/Socket.antt =====
-- The window over the socket itself: crates/owlsentry-gui/src/client.rs, `spawn`, whose reader takes the
-- lines of what crates/owlsentry-daemon/src/ipc_server.rs, `send`, has written, up to where the
-- connection breaks off.
use owl_sentry.Base.{
  ◌≡◌, refl, ap, ◌∙◌, inl, inr, Bool, Option, none, List, [], ◌∷◌, ◌++◌, map, All, Bool-cases,
  nat_eq, ◌==◌, list_eq, pair_eq,
}
use owl_sentry.Text.{Text, is_empty, trim}
use owl_sentry.Text.Laws.{Lacks}
use owl_sentry.Text.Lines.{lines}
use owl_sentry.I18n.{Lang}
use owl_sentry.Ipc.{DaemonMessage}
use owl_sentry.Ipc.Wire.{wire, last_line, IsOneLine, lines-wire}
use owl_sentry.Gui.Client.{on_message, read_lines}
use owl_sentry.Gui.App.{new_app, drain_events, App}
use owl_sentry.Pipeline.Window.{IsReadable, events_of, event_of, all_events, events_of-on_message}

abbrev flagged : Bool → List Text → List (Text × Bool)
flagged enabled = map (λ l. (l, enabled))

-- A new window behind a connection over which this text has come
unfoldable pub window_over :
    (read_message : Text → Option DaemonMessage) (enabled : Bool) (lang : Lang) → Text → App
window_over read_message enabled lang text =
    drain_events (events_of (read_lines read_message (map (λ l. (l, enabled)) (lines text))))
      (new_app lang)

module _ (encode : DaemonMessage → Text) (read_message : Text → Option DaemonMessage)
    (enabled : Bool) where
  piece_events :
      (part : Text)
      → read_message part ≡ none
      → events_of (read_lines read_message (flagged enabled (last_line part))) ≡ all_events []
  unfolding read_lines events_of all_events on_message
  piece_events [] h = refl
  piece_events (c ∷ part) h = elim (Bool-cases (is_empty (trim (c ∷ part)))) [
    | inl e ↦ rw (read_lines, e) refl
    | inr e ↦ rw (read_lines, e, h) refl
  ]

  torn_events :
      (sent : List DaemonMessage) (part : Text)
      → All (IsReadable encode read_message) sent
      → read_message part ≡ none
      → events_of (read_lines read_message (flagged enabled (map encode sent ++ last_line part)))
        ≡ all_events sent
  unfolding read_lines all_events events_of
  torn_events [] part c h = piece_events part h
  torn_events (m ∷ sent) part c h =
      rw (c.0.is_full, c.0.reads_back)
        (events_of-on_message enabled m _
          ∙ ap (λ es. event_of m ++ es) (torn_events sent part c.1 h))

  -- Wherever a connection breaks off: if each message is read back from its line, no line is blank or has a
  -- line feed in it or a carriage return at its end, and the piece behind the last whole
  -- message has no line feed and is not read as a message, then the window takes exactly the messages
  -- that have come whole, in their order, and then the end of the connection.
  pub window_over-torn :
      (lang : Lang) (sent : List DaemonMessage) (part : Text)
      → All (IsReadable encode read_message) sent
      → All IsOneLine (map encode sent)
      → Lacks (λ c. c == 10) part
      → read_message part ≡ none
      → window_over read_message enabled lang (wire (map encode sent) ++ part)
        ≡ drain_events (all_events sent) (new_app lang)
  unfolding window_over
  window_over-torn lang sent part c o k h =
      ap
        (λ ls.
          drain_events (events_of (read_lines read_message (flagged enabled ls))) (new_app lang))
        (lines-wire (map encode sent) part o k)
      ∙ ap (λ es. drain_events es (new_app lang)) (torn_events sent part c h)
