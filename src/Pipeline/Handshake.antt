-- ===== src/Pipeline/Handshake.antt =====
-- The start of a connection from both sides: what crates/owlsentry-gui/src/client.rs, `spawn`, writes, and
-- what the session of crates/owlsentry-daemon/src/ipc_server.rs, `handle_client`, makes of it.
use owl_sentry.Base.{
  ◌≤◌, ◌≡◌, refl, sym, ap, ◌∙◌, true, false, List, [], ◌∷◌, append-nil, All, ltb, arith, nat_eq,
  list_eq, pair_eq,
}
use owl_sentry.Text.{Text, byte_len, is_empty, trim}
use owl_sentry.Text.Lines.{lines}
use owl_sentry.State.{recent_alerts, DaemonState}
use owl_sentry.Ipc.{
  ipc_protocol_version, default_recent_limit, ClientRequest, subscribe, get_recent, DaemonMessage,
}
use owl_sentry.Ipc.Wire.{wire, IsOneLine, lines-wire}
use owl_sentry.Server.{
  max_request_bytes, send, open_session, on_request, on_line, Session, Decoded, request, running,
}
use owl_sentry.Gui.Client.{first_requests}
use owl_sentry.Gui.Connect.{request_text, requests_text}

-- The session over the lines of a text, whose answers can all be written
unfoldable pub read_text : (Text → Decoded) → DaemonState → List Text → Session → Session
read_text decode state [] s = s
read_text decode state (l ∷ ls) s = read_text decode state ls (on_line decode state true l s)

-- serde's writing of a request is short, on one line, not blank, and read back.
pub record IsSound (encode : ClientRequest → Text) (decode : Text → Decoded) (r : ClientRequest)
    : Type 0 where
  pub one_line : IsOneLine (encode r)
  pub short : byte_len (encode r) ≤ max_request_bytes
  pub full : is_empty (trim (encode r)) ≡ false
  pub reads_back : decode (encode r) ≡ request r

module _ (encode : ClientRequest → Text) (decode : Text → Decoded) where
  line-request :
      (state : DaemonState) (r : ClientRequest) (s : Session)
      → IsSound encode decode r
      → on_line decode state true (encode r) s ≡ on_request state true (request r) s
  unfolding on_line
  line-request state r s c =
      let fits : ltb max_request_bytes (byte_len (encode r)) ≡ false = ground (arith, c.short) in
      rw (fits, c.full, c.reads_back) refl

  -- If each of the two requests that the client writes first is written on one short line and read back, then
  -- the session that reads what stands in the socket has greeted the client, is subscribed, runs,
  -- and has answered with the last 500 alerts of the daemon.
  pub requests-subscribe :
      (version language : Text) (state : DaemonState)
      → All (IsSound encode decode) first_requests
      → read_text decode state (lines (requests_text encode)) (open_session version language true)
        ≡ record {
          subscribed = true;
          status = running;
          sent =
              DaemonMessage.hello version ipc_protocol_version language
              ∷ DaemonMessage.recent (recent_alerts default_recent_limit state)
              ∷ [];
        }
  unfolding requests_text request_text first_requests wire read_text on_request send open_session
  requests-subscribe version language state h =
      let bodies = encode subscribe ∷ encode (get_recent default_recent_limit) ∷ [] in
      let two : lines (requests_text encode) ≡ bodies =
        ap lines (sym (append-nil (wire bodies)))
        ∙ lines-wire bodies [] (h.0.one_line, (h.1.0.one_line, tt)) tt
        ∙ append-nil bodies in
      let s0 = open_session version language true in
      ap (λ ls. read_text decode state ls s0) two
      ∙ ap (λ s. on_line decode state true (encode (get_recent default_recent_limit)) s)
          (line-request state subscribe s0 h.0)
      ∙ line-request state (get_recent default_recent_limit) _ h.1.0
