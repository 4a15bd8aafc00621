-- ===== src/Session.antt =====
-- apps/desktop/src/models/session.ts: sessions and their counters.
use socketlens.Common.{
  ℕ, ◌+◌, [], ◌∷◌, ◌++◌, Option, none, some, Text, lit, trim, truthy, starts_with, if◌then◌else◌,
  or_else,
}
use socketlens.Packet.{Packet, PacketDirection}

pub data SessionStatus : Type 0 where
  connecting connected closed error : SessionStatus

pub record Session : Type 0 where
  pub bytes_received : ℕ
  pub bytes_sent : ℕ
  pub close_code : Option ℕ
  pub close_reason : Option Text
  pub connection_id : Text
  pub created_at : ℕ
  pub ended_at : Option ℕ
  pub endpoint_url : Text
  pub id : Text
  pub name : Text
  pub packets_received : ℕ
  pub packets_sent : ℕ
  pub started_at : ℕ
  pub status : SessionStatus

pub record CreateSessionInput : Type 0 where
  pub connection_id : Text
  pub endpoint_url : Text
  pub id : Text
  pub name : Option Text
  pub started_at : ℕ

-- `s || d`
abbrev pub or_text : Text → Text → Text
or_text [] d = d
or_text (c ∷ s) d = c ∷ s

-- `url_host` is the host that `new URL` finds in a text, and `none` where it throws.
module _ (url_host : Text → Option Text) where
  unfoldable pub get_session_name : Text → Option Text → Text
  get_session_name endpoint_url name =
      let trimmed_name = trim (or_else name []) in
      if truthy trimmed_name
      then trimmed_name
      else if starts_with endpoint_url (lit "demo://")
      then lit "Demo session"
      else elim (url_host endpoint_url) [
        | some host ↦ if truthy host then host ++ lit " session" else lit "WebSocket session"
        | none ↦ or_text (trim endpoint_url) (lit "WebSocket session")
      ]

  unfoldable pub create_session : CreateSessionInput → Session
  unfolding get_session_name
  create_session input = record {
    bytes_received = 0;
    bytes_sent = 0;
    close_code = none;
    close_reason = none;
    connection_id = input.connection_id;
    created_at = input.started_at;
    ended_at = none;
    endpoint_url = input.endpoint_url;
    id = input.id;
    name = get_session_name input.endpoint_url input.name;
    packets_received = 0;
    packets_sent = 0;
    started_at = input.started_at;
    status = SessionStatus.connecting;
  }

abbrev count_packet : PacketDirection → ℕ → Session → Session
count_packet PacketDirection.inbound size session = record session {
  bytes_received = session.bytes_received + size;
  packets_received = session.packets_received + 1;
}
count_packet PacketDirection.outbound size session = record session {
  bytes_sent = session.bytes_sent + size;
  packets_sent = session.packets_sent + 1;
}

unfoldable pub apply_packet_stats : Session → Packet → Session
apply_packet_stats session packet = count_packet packet.direction packet.size_bytes session
