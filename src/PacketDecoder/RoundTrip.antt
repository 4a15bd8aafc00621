-- ===== src/PacketDecoder/RoundTrip.antt =====
-- The round trip of Socket.IO frames through `parseSocketIoFrame` of
-- apps/desktop/src/extensions/packet-decoder.ts, with decimal numbers as a peer writes them.
use socketlens.Common.{
  ℕ, ◌+◌, ◌-◌, ◌*◌, ◌<◌, ◌≡◌, refl, ap, ◌∙◌, [], ◌∷◌, ◌++◌, Option, none, some, true, arith, Text,
  trim, truthy, All-append,
}
use mathlib.Core.Option
use socketlens.Json.{Runtime, JsonResult, Json, parsed, failed, null, str}
use socketlens.PacketDecoder.SocketIo.{
  SocketIoPacketType, SocketIoEnginePacketType, ParsedSocketIoFrame, is_digit, parse_int,
  number_from, read_data, socket_frame, get_socket_io_packet_type, parse_trimmed_frame,
  parse_socket_io_frame,
}
use socketlens.PacketDecoder.Frames.{
  IsNumber, NoComma, IsData, CanAttach, written_attachments, written_namespace, written_ack,
  number_of, namespace_of, read_parts-written, parse-typed,
}

-- A number as it is written: a first digit, and digits behind.
pub data Decimal : Type 0 where
  digit : ℕ → Decimal
  behind : Decimal → ℕ → Decimal

abbrev pub value_of : Decimal → ℕ
value_of (digit d) = d
value_of (behind m d) = value_of m * 10 + d

abbrev pub written : Decimal → Text
written (digit d) = (48 + d) ∷ []
written (behind m d) = written m ++ (48 + d) ∷ []

abbrev pub IsDecimal : Decimal → Type 0
IsDecimal (digit d) = d < 10
IsDecimal (behind m d) = IsDecimal m × (d < 10)

abbrev pub AreDecimal : Option Decimal → Type 0
AreDecimal none = Unit
AreDecimal (some m) = IsDecimal m

digit-is_digit : (d : ℕ) → d < 10 → is_digit (48 + d) ≡ true
digit-is_digit d h = ground arith

truthy-snoc : (s : Text) (c : ℕ) → truthy (s ++ c ∷ []) ≡ true
truthy-snoc [] c = refl
truthy-snoc (d ∷ s) c = refl

written-IsNumber : (m : Decimal) → IsDecimal m → IsNumber (some (written m))
written-IsNumber (digit d) h = (refl, (digit-is_digit d h, tt))
written-IsNumber (behind m d) h = (
  truthy-snoc (written m) (48 + d),
  All-append _ (written m) ((48 + d) ∷ []) (written-IsNumber m h.0).1 (digit-is_digit d h.1, tt),
)

number_from-snoc :
    (n : ℕ) (s : Text) (d : ℕ) → number_from n (s ++ (48 + d) ∷ []) ≡ number_from n s * 10 + d
unfolding number_from
number_from-snoc n [] d = omega arith
number_from-snoc n (c ∷ s) d = number_from-snoc (10 * n + (c - 48)) s d

parse_int-written : (m : Decimal) → parse_int (written m) ≡ value_of m
unfolding parse_int number_from
parse_int-written (digit d) = omega arith
parse_int-written (behind m d) =
    number_from-snoc 0 (written m) d ∙ ap (λ n. n * 10 + d) (parse_int-written m)

written-AreNumber : (o : Option Decimal) → AreDecimal o → IsNumber (Option.map written o)
written-AreNumber none h = tt
written-AreNumber (some m) h = written-IsNumber m h

number_of-written : (o : Option Decimal) → number_of (Option.map written o) ≡ Option.map value_of o
number_of-written none = refl
number_of-written (some m) = ap some (parse_int-written m)

-- What the data of a frame is: the value that the text parses to, or the text if it parses to none.
abbrev pub IsPayload : JsonResult → Text → Json → Type 0
IsPayload result [] data_ = data_ ≡ null
IsPayload (parsed value) (c ∷ s) data_ = data_ ≡ value
IsPayload (failed message) (c ∷ s) data_ = data_ ≡ str (c ∷ s)

read_data-IsPayload :
    (ρ : Runtime) (raw : Text) → IsPayload (ρ.parse_json raw) raw (read_data ρ raw)
unfolding read_data
read_data-IsPayload ρ [] = refl
read_data-IsPayload ρ (c ∷ s) = by_result (ρ.parse_json (c ∷ s)) refl
  where
    by_result :
        (r : JsonResult)
        → ρ.parse_json (c ∷ s) ≡ r
        → IsPayload (ρ.parse_json (c ∷ s)) (c ∷ s) (read_data ρ (c ∷ s))
    by_result (parsed value) e = rw (e, read_data) refl
    by_result (failed message) e = rw (e, read_data) refl

-- A frame with the parts that were written.
pub record IsRead (ρ : Runtime) (kind : SocketIoPacketType) (count : Option Decimal)
    (name : Option Text) (number : Option Decimal) (text : Text) (frame : ParsedSocketIoFrame)
    : Type 0 where
  pub engine : frame.engine_packet_type ≡ SocketIoEnginePacketType.message
  pub packet_type : frame.packet_type ≡ some kind
  pub attachments : frame.attachments ≡ Option.map value_of count
  pub namespace : frame.namespace ≡ namespace_of name
  pub ack : frame.ack_id ≡ Option.map value_of number
  pub raw : frame.raw_data ≡ text
  pub payload : IsPayload (ρ.parse_json text) text frame.data_

socket_frame-IsRead :
    (ρ : Runtime) (packet_type : SocketIoPacketType) (attachments : Option Decimal)
    (namespace : Option Text) (ack : Option Decimal) (raw : Text)
    → IsRead ρ packet_type attachments namespace ack raw (
        socket_frame ρ packet_type (record {
          ack_id = number_of (Option.map written ack);
          attachments = number_of (Option.map written attachments);
          namespace = namespace_of namespace;
          raw_data = raw;
        }))
unfolding socket_frame
socket_frame-IsRead ρ packet_type attachments namespace ack raw = record {
  engine = refl;
  packet_type = refl;
  attachments = number_of-written attachments;
  namespace = refl;
  ack = number_of-written ack;
  raw = refl;
  payload = read_data-IsPayload ρ raw;
}

-- A written frame is read back: its packet type, the values of its decimal numbers, its namespace,
-- and its data, parsed if it parses, if its packet type has the code, only binary types have
-- attachments, the namespace has no comma, the data does not begin like one of the other parts, and
-- the frame has no white space at its ends.
pub parse-written_frame :
    (ρ : Runtime) (code : ℕ) (packet_type : SocketIoPacketType) (attachments : Option Decimal)
    (namespace : Option Text) (ack : Option Decimal) (raw : Text)
    → let parts =
        written_attachments (Option.map written attachments)
        ++ (written_namespace namespace ++ (written_ack (Option.map written ack) ++ raw)) in
      get_socket_io_packet_type (code ∷ parts) ≡ some packet_type
      → CanAttach packet_type (Option.map written attachments)
      → AreDecimal attachments
      → NoComma namespace
      → AreDecimal ack
      → IsData raw
      → trim (52 ∷ code ∷ parts) ≡ 52 ∷ code ∷ parts
      → (frame : ParsedSocketIoFrame) × (parse_socket_io_frame ρ (52 ∷ code ∷ parts) ≡ some frame)
        × IsRead ρ packet_type attachments namespace ack raw frame
unfolding parse_socket_io_frame
parse-written_frame ρ code packet_type attachments namespace ack raw t c a n h k e = (
  _,
  ap (parse_trimmed_frame ρ) e
      ∙ parse-typed ρ code _ packet_type t
      ∙ ap (λ parts. some (socket_frame ρ packet_type parts))
          (read_parts-written packet_type (Option.map written attachments) namespace
            (Option.map written ack) raw c (written-AreNumber attachments a) n
            (written-AreNumber ack h) k),
  socket_frame-IsRead ρ packet_type attachments namespace ack raw,
)
