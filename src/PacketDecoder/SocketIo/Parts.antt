-- ===== src/PacketDecoder/SocketIo/Parts.antt =====
-- The types of a Socket.IO frame, and its parts: the attachments, the namespace, the acknowledgement
-- and the data, in apps/desktop/src/extensions/packet-decoder.ts.
-- A cursor into the frame is the text from there on. Numbers in a frame are natural numbers of any
-- size; those of the source are exact up to 2^53.
use socketlens.Common.{
  ℕ, ◌+◌, ◌-◌, ◌*◌, [], ◌∷◌, Option, none, some, Bool, true, false, not, ◌&&◌, ◌||◌, Text, lit,
  text_eq, leb, ◌==◌, trim, truthy, starts_with, drop, if◌then◌else◌,
}
use socketlens.Environment.{span}
use socketlens.Json.{Json}

pub data SocketIoEnginePacketType : Type 0 where
  close message noop open_ ping pong upgrade unknown : SocketIoEnginePacketType

pub data SocketIoPacketType : Type 0 where
  ack binary_ack binary_event connect connect_error disconnect event unknown : SocketIoPacketType

abbrev pub engine_word : SocketIoEnginePacketType → Text
engine_word SocketIoEnginePacketType.close = lit "close"
engine_word SocketIoEnginePacketType.message = lit "message"
engine_word SocketIoEnginePacketType.noop = lit "noop"
engine_word SocketIoEnginePacketType.open_ = lit "open"
engine_word SocketIoEnginePacketType.ping = lit "ping"
engine_word SocketIoEnginePacketType.pong = lit "pong"
engine_word SocketIoEnginePacketType.upgrade = lit "upgrade"
engine_word SocketIoEnginePacketType.unknown = lit "unknown"

abbrev pub packet_word : SocketIoPacketType → Text
packet_word SocketIoPacketType.ack = lit "ack"
packet_word SocketIoPacketType.binary_ack = lit "binary_ack"
packet_word SocketIoPacketType.binary_event = lit "binary_event"
packet_word SocketIoPacketType.connect = lit "connect"
packet_word SocketIoPacketType.connect_error = lit "connect_error"
packet_word SocketIoPacketType.disconnect = lit "disconnect"
packet_word SocketIoPacketType.event = lit "event"
packet_word SocketIoPacketType.unknown = lit "unknown"

pub record ParsedSocketIoFrame : Type 0 where
  pub ack_id : Option ℕ
  pub attachments : Option ℕ
  pub data_ : Json
  pub engine_packet_type : SocketIoEnginePacketType
  pub event_name : Text
  pub namespace : Text
  pub packet_type : Option SocketIoPacketType
  pub preview : Text
  pub raw_data : Text

-- `[0-9]`, which is `\d`
abbrev pub is_digit : ℕ → Bool
is_digit c = leb 48 c && leb c 57

unfoldable pub number_from : ℕ → Text → ℕ
number_from n [] = n
number_from n (c ∷ s) = number_from (10 * n + (c - 48)) s

-- `Number.parseInt(s, 10)` of a text of digits
unfoldable pub parse_int : Text → ℕ
unfolding number_from
parse_int s = number_from 0 s

unfoldable pub get_engine_packet_type : Text → Option SocketIoEnginePacketType
get_engine_packet_type [] = none
get_engine_packet_type (code ∷ s) =
    if code == 48
    then some SocketIoEnginePacketType.open_
    else if code == 49
    then some SocketIoEnginePacketType.close
    else if code == 50
    then some SocketIoEnginePacketType.ping
    else if code == 51
    then some SocketIoEnginePacketType.pong
    else if code == 52
    then some SocketIoEnginePacketType.message
    else if code == 53
    then some SocketIoEnginePacketType.upgrade
    else if code == 54
    then some SocketIoEnginePacketType.noop
    else none

unfoldable pub get_socket_io_packet_type : Text → Option SocketIoPacketType
get_socket_io_packet_type [] = none
get_socket_io_packet_type (code ∷ s) =
    if code == 48
    then some SocketIoPacketType.connect
    else if code == 49
    then some SocketIoPacketType.disconnect
    else if code == 50
    then some SocketIoPacketType.event
    else if code == 51
    then some SocketIoPacketType.ack
    else if code == 52
    then some SocketIoPacketType.connect_error
    else if code == 53
    then some SocketIoPacketType.binary_event
    else if code == 54
    then some SocketIoPacketType.binary_ack
    else none

abbrev pub is_binary : SocketIoPacketType → Bool
is_binary SocketIoPacketType.binary_event = true
is_binary SocketIoPacketType.binary_ack = true
is_binary _ = false

abbrev pub behind_dash : Text → (digits rest : Text) → Option ℕ × Text
behind_dash whole [] rest = (none, whole)
behind_dash whole (d ∷ digits) [] = (none, whole)
behind_dash whole (d ∷ digits) (c ∷ rest) =
    if c == 45 then (some (parse_int (d ∷ digits)), rest) else (none, whole)

-- `/^(\d+)-/`, for the types that have attachments
unfoldable pub read_attachments : SocketIoPacketType → Text → Option ℕ × Text
unfolding span parse_int
read_attachments packet_type s =
    let found = span is_digit s in
    if is_binary packet_type then behind_dash s found.0 found.1 else (none, s)

-- Up to the first comma, which is dropped. It starts with a slash, so that it is not empty.
unfoldable pub read_namespace : Text → Text × Text
unfolding span
read_namespace [] = (lit "/", [])
read_namespace (c ∷ s) =
    let found = span (λ d. not (d == 44)) (c ∷ s) in
    if c == 47 then (found.0, drop 1 found.1) else (lit "/", c ∷ s)

-- `/^(\d+)/`
unfoldable pub read_ack : Text → Option ℕ × Text
unfolding span parse_int
read_ack s =
    let found = span is_digit s in
    if truthy found.0 then (some (parse_int found.0), found.1) else (none, s)

pub record FrameParts : Type 0 where
  pub ack_id : Option ℕ
  pub attachments : Option ℕ
  pub namespace : Text
  pub raw_data : Text

-- Behind the two codes of a frame.
unfoldable pub read_parts : SocketIoPacketType → Text → FrameParts
unfolding read_attachments read_namespace read_ack
read_parts packet_type s =
    let (attachments, s1) = read_attachments packet_type s in
    let (namespace, s2) = read_namespace s1 in
    let (ack_id, raw_data) = read_ack s2 in
    record {
      ack_id = ack_id;
      attachments = attachments;
      namespace = namespace;
      raw_data = raw_data;
    }

unfoldable pub looks_like_socket_io_frame : Text → Bool
unfolding trim text_eq starts_with
looks_like_socket_io_frame value =
    let trimmed = trim value in
    if text_eq trimmed (lit "2") || text_eq trimmed (lit "3")
    then true
    else if starts_with trimmed (lit "0{")
    then true
    else if not (starts_with trimmed (lit "4"))
    then false
    else looks_like_message (drop 1 trimmed)
  where
    data_follows : Text → Bool
    data_follows [] = true
    data_follows (c ∷ s) = c == 47 || c == 91 || c == 123 || is_digit c

    looks_like_message : Text → Bool
    looks_like_message [] = false
    looks_like_message (c ∷ rest) = leb 48 c && leb c 54 && data_follows rest
