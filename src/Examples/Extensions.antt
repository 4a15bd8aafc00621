-- ===== src/Examples/Extensions.antt =====
-- Filters, decoders and plugins at concrete inputs.
use socketlens.Common.{
  ℕ, arith, ◌≡◌, is_space, refl, ap, [], ◌∷◌, List, none, some, true, false, lit, filter, non_empty,
  trim,
}
use socketlens.Packet.{Packet}
use socketlens.Json.{Runtime, failed}
use socketlens.FilterState.{
  FilterState, default_filter_state, parse_smart_condition, SmartFilterOperator,
  get_filter_validation_issues, is_name_start, is_name_char,
}
use socketlens.FilterState.Grammar.{Quoting, parse-written}
use socketlens.FilterEngine.{apply, matches}
use socketlens.FilterEngine.Matching.{apply-matches, apply-invalid}
use socketlens.PacketInspection.{PacketSummary}
use socketlens.PacketAnalyzer.{get_packet_summary}
use socketlens.PacketDecoder.{PacketDecoder, pos, thrown, create_decoder_registry, find_decoder}
use socketlens.PacketDecoder.Choosing.{IsChoice, find_decoder-IsChoice}
use socketlens.PacketDecoder.Builtin.{
  default_packet_decoders, fallback_packet_decoder, decode_packet, IsDecoded,
  decode_packet-IsDecoded,
}
use socketlens.PacketDecoder.SocketIo.{
  parse_socket_io_frame, ParsedSocketIoFrame, SocketIoPacketType, get_socket_io_packet_type,
}
use socketlens.PacketDecoder.RoundTrip.{digit, behind, IsRead, parse-written_frame}
use socketlens.PluginRegistry.{
  SocketLensPlugin, PluginRegistry, done, is_enabled, set_enabled, create_registry,
}
use socketlens.PluginRegistry.Enabling.{is_enabled-set_enabled}
use socketlens.PluginRegistry.Registered.{IsRegistry, run, run-IsRegistry, add, switch}
use socketlens.Examples.{packet_at, digits}

-- Nothing parses as JSON, and every text is in lower case.
abbrev runtime : Runtime
runtime = record {
  lower = λ s. s;
  parse_json = λ s. failed (lit "Unexpected token");
  stringify = λ value. lit "null";
  stringify_indented = λ value. lit "null";
  nat_text = digits;
  new_reg_exp = λ source. none;
}

abbrev summary : Packet → PacketSummary
summary = get_packet_summary runtime

abbrev packets : List Packet
packets = packet_at 1 (lit "a") ∷ packet_at 2 (lit "b") ∷ []

abbrev errors_only : FilterState
errors_only = record default_filter_state { errors_only = true }

abbrev nonsense : FilterState
nonsense = record default_filter_state { smart_query = lit "type is ping" }

apply-matches_example :
    apply runtime summary packets errors_only
    ≡ filter (λ packet. matches runtime summary packet errors_only) packets
apply-matches_example = apply-matches runtime summary packets errors_only refl

apply-invalid_example : apply runtime summary packets nonsense ≡ []
unfolding get_filter_validation_issues
apply-invalid_example =
    apply-invalid runtime summary packets nonsense refl (λ h. cc (ap non_empty h))

parse-written_example :
    parse_smart_condition (lit "payload.user.name != \"Ann B\"")
    ≡ some (record {
      expected_value = lit "Ann B";
      operator = SmartFilterOperator.different;
      path = lit "user" ∷ lit "name" ∷ [];
      source = lit "payload.user.name != \"Ann B\"";
    })
unfolding is_space is_name_start is_name_char
parse-written_example =
    parse-written (lit "user") (lit "name" ∷ []) (lit " ") (lit " ") SmartFilterOperator.different
      Quoting.double (lit "Ann B")
      ((refl, (refl, (refl, (refl, (refl, tt))))), ((refl, (refl, (refl, (refl, (refl, tt))))), tt))
      (refl, tt) (refl, tt) (refl, (refl, (refl, (refl, (refl, tt)))))

find_decoder-IsChoice_example :
    IsChoice fallback_packet_decoder (packet_at 1 (lit "a")) (default_packet_decoders runtime) (
      find_decoder
        (create_decoder_registry (default_packet_decoders runtime) fallback_packet_decoder)
        (packet_at 1 (lit "a")))
find_decoder-IsChoice_example =
    find_decoder-IsChoice fallback_packet_decoder (packet_at 1 (lit "a"))
      (default_packet_decoders runtime)

-- A decoder that takes every packet, and throws.
abbrev broken : PacketDecoder
broken = record {
  can_decode = λ p. some true;
  decode = λ p. thrown (some (lit "bad frame"));
  id = lit "broken";
  label = lit "Broken";
  priority = pos 900;
}

broken_picked :
    find_decoder
      (create_decoder_registry (broken ∷ default_packet_decoders runtime) fallback_packet_decoder)
      (packet_at 1 (lit "a"))
    ≡ broken
unfolding find_decoder create_decoder_registry
broken_picked = refl

decode_packet-IsDecoded_example :
    IsDecoded
      (find_decoder
        (create_decoder_registry (broken ∷ default_packet_decoders runtime) fallback_packet_decoder)
        (packet_at 1 (lit "a")))
      (packet_at 1 (lit "a"))
      (decode_packet (broken ∷ default_packet_decoders runtime) (packet_at 1 (lit "a")))
decode_packet-IsDecoded_example =
    decode_packet-IsDecoded (broken ∷ default_packet_decoders runtime) (packet_at 1 (lit "a"))

-- 42/chat,12["hi"]
parse-written_frame_example :
    (frame : ParsedSocketIoFrame) × (parse_socket_io_frame runtime (lit "42/chat,12[\"hi\"]")
      ≡ some frame)
    × IsRead runtime SocketIoPacketType.event none
        (some (lit "chat"))
        (some (behind (digit 1) 2))
        (lit "[\"hi\"]")
        frame
unfolding get_socket_io_packet_type trim
parse-written_frame_example =
    parse-written_frame runtime 50 SocketIoPacketType.event none (some (lit "chat"))
      (some (behind (digit 1) 2)) (lit "[\"hi\"]") refl tt tt (refl, (refl, (refl, (refl, tt))))
      (omega arith, omega arith) (refl, refl, refl) refl

abbrev Plugin : Type 0
Plugin = SocketLensPlugin ℕ ℕ ℕ

abbrev plugin : Plugin
plugin = record {
  analyzers = none;
  decoders = some (default_packet_decoders runtime);
  exporters = none;
  filters = none;
  description = none;
  enabled_by_default = true;
  id = lit "core";
  label = lit "Core";
  source = lit "local";
}

abbrev registry : PluginRegistry ℕ ℕ ℕ
registry = record { enablement = []; plugins = plugin ∷ [] }

is_enabled-set_enabled_example :
    is_enabled (record registry { enablement = (lit "core", false) ∷ [] }) (lit "core") ≡ done false
unfolding set_enabled
is_enabled-set_enabled_example =
    is_enabled-set_enabled ℕ ℕ ℕ registry
      (record registry { enablement = (lit "core", false) ∷ [] }) (lit "core") (lit "core") false
      refl

run-IsRegistry_example :
    IsRegistry ℕ ℕ ℕ
      (run ℕ ℕ ℕ registry (switch (lit "core") false ∷ add plugin ∷ switch (lit "other") true ∷ []))
unfolding create_registry
run-IsRegistry_example =
    run-IsRegistry ℕ ℕ ℕ (plugin ∷ []) [] registry
      (switch (lit "core") false ∷ add plugin ∷ switch (lit "other") true ∷ []) refl
