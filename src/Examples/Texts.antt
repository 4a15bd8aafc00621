-- ===== src/Examples/Texts.antt =====
-- The results on texts, annotations, templates and endpoints at concrete inputs.
use socketlens.Common.{
  map, is_space, trim, text_eq, ◌≡◌, none, ◌≤◌, ◌↔◌, refl, [], ◌∷◌, List, some, true, false, Text,
  lit, length, All,
}
use socketlens.Packet.{
  PacketAnnotations, has_packet_annotations, normalize_annotation_tags,
  normalize_packet_annotations, create_packet_annotations, normalize_annotation_note,
}
use socketlens.Packet.Tags.{IsTag, IsDistinct, normalize_annotation_tags-IsTag}
use socketlens.Environment.{
  EnvironmentInterpolationResult, AppEnvironment, pieces, interpolate_environment_variables,
}
use socketlens.Environment.Written.{Segment, literal, variable, piece_of, pieces-write}
use socketlens.Environment.Interpolation.{IsInterpolation, interpolate-IsInterpolation}
use socketlens.Connection.{WebSocketUrlValidationResult, validate_web_socket_url}
use socketlens.Connection.Validation.{IsEndpoint, validate_iff_IsEndpoint}
use socketlens.Examples.{platform}

abbrev tags : List Text
tags = lit " Auth flow " ∷ lit "auth-flow" ∷ lit "slow" ∷ []

-- Spaces become dashes and a tag is kept once.
tags_normal : normalize_annotation_tags tags ≡ lit "Auth-flow" ∷ lit "auth-flow" ∷ lit "slow" ∷ []
unfolding normalize_annotation_tags
tags_normal = refl

normalize_annotation_tags-IsTag_example :
    All IsTag (normalize_annotation_tags tags)
    × IsDistinct (normalize_annotation_tags tags)
    × (length (normalize_annotation_tags tags) ≤ 12)
normalize_annotation_tags-IsTag_example = normalize_annotation_tags-IsTag tags

abbrev noted : PacketAnnotations
noted = record { bookmarked = true; note = lit "hm"; suspicious = false; tags = []; updated_at = 7 }

noted_normal : normalize_packet_annotations (some noted) ≡ some noted
unfolding normalize_packet_annotations create_packet_annotations has_packet_annotations
    normalize_annotation_note normalize_annotation_tags
noted_normal = refl

abbrev local : AppEnvironment
local = record {
  connection_profiles = [];
  created_at = 1;
  description = [];
  id = lit "e";
  name = lit "local";
  preset = none;
  updated_at = 1;
  variables = record { id = lit "v"; is_secret = false; key = lit "HOST"; value = lit "a" } ∷ [];
}

abbrev segments : List Segment
segments = literal 47 ∷ variable (lit " ") 72 (lit "OST") (lit " ") ∷ literal 47 ∷ literal 120 ∷ []

pieces-write_example : pieces (lit "/{{ HOST }}/x") ≡ map piece_of segments
unfolding is_space
pieces-write_example =
    pieces-write segments
      (refl, (((refl, tt), refl, (refl, (refl, (refl, tt))), (refl, tt)), (refl, (refl, tt))))

-- A token is replaced by the value of its variable.
host_replaced :
    interpolate_environment_variables (lit "ws://{{HOST}}/x") (some local)
    ≡ EnvironmentInterpolationResult.ok (lit "HOST" ∷ []) (lit "ws://a/x")
unfolding interpolate_environment_variables trim text_eq
host_replaced = refl

interpolate-IsInterpolation_example :
    IsInterpolation local.variables
      (lit "ws://{{HOST}}/x")
      (interpolate_environment_variables (lit "ws://{{HOST}}/x") (some local))
interpolate-IsInterpolation_example =
    interpolate-IsInterpolation (lit "ws://{{HOST}}/x") (some local)

validate_iff_IsEndpoint_example :
    (validate_web_socket_url platform (lit " ws://a")
      ≡ WebSocketUrlValidationResult.ok (lit "ws://a"))
    ↔ IsEndpoint platform (lit " ws://a") (lit "ws://a")
validate_iff_IsEndpoint_example = validate_iff_IsEndpoint platform (lit " ws://a") (lit "ws://a")
