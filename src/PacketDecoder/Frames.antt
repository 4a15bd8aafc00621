-- ===== src/PacketDecoder/Frames.antt =====
-- The Socket.IO frames that a peer writes, against `parseSocketIoFrame` of
-- apps/desktop/src/extensions/packet-decoder.ts. A frame is written as the protocol has it: 4, the
-- code of the packet type, the attachments with a dash, a namespace with a comma, the
-- acknowledgement, and the data; all but the two codes may be missing.
use socketlens.Common.{
  ℕ, ◌≡◌, refl, [], ◌∷◌, ◌++◌, Option, none, some, Bool, true, false, not, arith, Text, lit, truthy,
  All, ◌==◌, if◌then◌else◌,
}
use mathlib.Core.List.{append_assoc}
use socketlens.Environment.{span}
use socketlens.Environment.Spans.{Stops, span-Stops, span-append}
use socketlens.Json.{Runtime}
use socketlens.PacketDecoder.SocketIo.{
  SocketIoPacketType, is_digit, is_binary, parse_int, read_attachments, read_namespace, read_ack,
  read_parts, get_engine_packet_type, get_socket_io_packet_type, parse_trimmed_frame, socket_frame,
  behind_dash,
}

-- Decimal digits, at least one.
abbrev pub IsNumber : Option Text → Type 0
IsNumber none = Unit
IsNumber (some s) = (truthy s ≡ true) × All (λ c. is_digit c ≡ true) s

abbrev pub NoComma : Option Text → Type 0
NoComma none = Unit
NoComma (some s) = All (λ c. not (c == 44) ≡ true) s

-- The data does not begin as one of the parts before it does.
abbrev pub IsData : Text → Type 0
IsData [] = Unit
IsData (c ∷ s) = (is_digit c ≡ false) × ((c == 45) ≡ false) × ((c == 47) ≡ false)

abbrev pub CanAttach : SocketIoPacketType → Option Text → Type 0
CanAttach packet_type none = Unit
CanAttach packet_type (some s) = is_binary packet_type ≡ true

abbrev pub written_attachments : Option Text → Text
written_attachments none = []
written_attachments (some s) = s ++ 45 ∷ []

-- A namespace without its slash.
abbrev pub written_namespace : Option Text → Text
written_namespace none = []
written_namespace (some s) = 47 ∷ (s ++ 44 ∷ [])

abbrev pub written_ack : Option Text → Text
written_ack none = []
written_ack (some s) = s

abbrev pub number_of : Option Text → Option ℕ
number_of none = none
number_of (some s) = some (parse_int s)

abbrev pub namespace_of : Option Text → Text
namespace_of none = lit "/"
namespace_of (some s) = 47 ∷ s

IsData-Stops : (raw : Text) → IsData raw → Stops is_digit raw
IsData-Stops [] h = tt
IsData-Stops (c ∷ s) h = h.0

read_ack-written :
    (ack : Option Text) (raw : Text)
    → IsNumber ack
    → IsData raw
    → read_ack (written_ack ack ++ raw) ≡ (number_of ack, raw)
unfolding read_ack
read_ack-written none raw h k = rw (span-Stops is_digit raw (IsData-Stops raw k))
read_ack-written (some s) raw h k = rw (span-append is_digit s raw h.1 (IsData-Stops raw k), h.0)

-- What does not begin with a slash has no namespace.
read_namespace-none : (s : Text) → Stops (λ c. c == 47) s → read_namespace s ≡ (lit "/", s)
unfolding read_namespace
read_namespace-none [] h = refl
read_namespace-none (c ∷ s) h = rw h

digit_no_slash : (c : ℕ) → is_digit c ≡ true → (c == 47) ≡ false
digit_no_slash c h = ground arith

ack-no_slash :
    (ack : Option Text) (raw : Text)
    → IsNumber ack
    → IsData raw
    → Stops (λ c. c == 47) (written_ack ack ++ raw)
ack-no_slash none [] h k = tt
ack-no_slash none (c ∷ raw) h k = k.2
ack-no_slash (some []) raw h k = cc (h.0)
ack-no_slash (some (c ∷ s)) raw h k = digit_no_slash c h.1.0

read_namespace-written :
    (namespace ack : Option Text) (raw : Text)
    → NoComma namespace
    → IsNumber ack
    → IsData raw
    → read_namespace (written_namespace namespace ++ (written_ack ack ++ raw))
      ≡ (namespace_of namespace, written_ack ack ++ raw)
unfolding read_namespace span
read_namespace-written none ack raw n h k = read_namespace-none _ (ack-no_slash ack raw h k)
read_namespace-written (some s) ack raw n h k =
    rw (append_assoc s (44 ∷ []) (written_ack ack ++ raw))
      (rw (span-append (λ d. not (d == 44)) s (44 ∷ (written_ack ack ++ raw)) n refl))

-- No dash follows the digits.
abbrev NoDash : Text → Type 0
NoDash = Stops (λ c. c == 45)

IsData-NoDash : (raw : Text) → IsData raw → NoDash raw
IsData-NoDash [] h = tt
IsData-NoDash (c ∷ s) h = h.1

behind-NoDash :
    (whole digits rest : Text) → NoDash rest → behind_dash whole digits rest ≡ (none, whole)
behind-NoDash whole [] rest h = refl
behind-NoDash whole (d ∷ digits) [] h = refl
behind-NoDash whole (d ∷ digits) (c ∷ rest) h = rw h

nothing_attached :
    (packet_type : SocketIoPacketType) (s digits rest : Text)
    → span is_digit s ≡ (digits, rest)
    → NoDash rest
    → read_attachments packet_type s ≡ (none, s)
unfolding read_attachments
nothing_attached packet_type s digits rest e h =
    rw e (either (is_binary packet_type) (behind-NoDash s digits rest h))
  where
    either : {x y : Option ℕ × Text} (b : Bool) → x ≡ y → (if b then x else y) ≡ y
    either true e = e
    either false e = refl

read_attachments-none :
    (packet_type : SocketIoPacketType) (namespace ack : Option Text) (raw : Text)
    → IsNumber ack
    → IsData raw
    → let rest = written_namespace namespace ++ (written_ack ack ++ raw) in
      read_attachments packet_type rest ≡ (none, rest)
unfolding span
read_attachments-none packet_type (some s) ack raw h k =
    nothing_attached packet_type _ [] _ refl refl
read_attachments-none packet_type none none raw h k =
    nothing_attached packet_type raw [] raw (span-Stops is_digit raw (IsData-Stops raw k))
      (IsData-NoDash raw k)
read_attachments-none packet_type none (some s) raw h k =
    nothing_attached packet_type (s ++ raw) s raw
      (span-append is_digit s raw h.1 (IsData-Stops raw k)) (IsData-NoDash raw k)

attached :
    (packet_type : SocketIoPacketType) (s : Text) (d : ℕ) (digits rest : Text)
    → span is_digit s ≡ (d ∷ digits, 45 ∷ rest)
    → is_binary packet_type ≡ true
    → read_attachments packet_type s ≡ (some (parse_int (d ∷ digits)), rest)
unfolding read_attachments
attached packet_type s d digits rest e c = rw (e, c)

read_attachments-written :
    (packet_type : SocketIoPacketType) (attachments namespace ack : Option Text) (raw : Text)
    → CanAttach packet_type attachments
    → IsNumber attachments
    → IsNumber ack
    → IsData raw
    → let rest = written_namespace namespace ++ (written_ack ack ++ raw) in
      read_attachments packet_type (written_attachments attachments ++ rest)
      ≡ (number_of attachments, rest)
unfolding read_attachments
read_attachments-written packet_type none namespace ack raw c a h k =
    read_attachments-none packet_type namespace ack raw h k
read_attachments-written packet_type (some []) namespace ack raw c a h k = cc (a.0)
read_attachments-written packet_type (some (d ∷ s)) namespace ack raw c a h k =
    attached packet_type
      (written_attachments (some (d ∷ s))
        ++ (written_namespace namespace ++ (written_ack ack ++ raw)))
      d s _ (rw (append_assoc s (45 ∷ []) _) (span-append is_digit (d ∷ s) _ a.1 refl)) c

-- Digits, names and data behind the two codes are read back.
pub read_parts-written :
    (packet_type : SocketIoPacketType) (attachments namespace ack : Option Text) (raw : Text)
    → CanAttach packet_type attachments
    → IsNumber attachments
    → NoComma namespace
    → IsNumber ack
    → IsData raw
    → read_parts packet_type (
        written_attachments attachments
        ++ (written_namespace namespace ++ (written_ack ack ++ raw)))
      ≡ record {
        ack_id = number_of ack;
        attachments = number_of attachments;
        namespace = namespace_of namespace;
        raw_data = raw;
      }
unfolding read_parts
read_parts-written packet_type attachments namespace ack raw c a n h k = rw (
  read_attachments-written packet_type attachments namespace ack raw c a h k,
  read_namespace-written namespace ack raw n h k,
  read_ack-written ack raw h k,
)

pub parse-typed :
    (ρ : Runtime) (code : ℕ) (s : Text) (packet_type : SocketIoPacketType)
    → get_socket_io_packet_type (code ∷ s) ≡ some packet_type
    → parse_trimmed_frame ρ (52 ∷ code ∷ s)
      ≡ some (socket_frame ρ packet_type (read_parts packet_type s))
unfolding parse_trimmed_frame get_engine_packet_type
parse-typed ρ code s packet_type t = rw (t, parse_trimmed_frame)
