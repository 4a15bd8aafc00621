-- ===== src/FilterEngine/Matching.antt =====
-- `apply` against `matches` in apps/desktop/src/extensions/filter-engine.ts.
use socketlens.Common.{
  ℕ, ◌≡◌, ◌≢◌, refl, sym, ap, List, [], ◌∷◌, Option, none, some, Bool, true, false, not, ◌&&◌, ◌||◌,
  arith, Text, trim, truthy, filter, non_empty, is_some, if◌then◌else◌,
}
use socketlens.Packet.{Packet}
use socketlens.Json.{Runtime}
use socketlens.PacketInspection.{PacketSummary}
use socketlens.FilterState.{
  FilterValidationIssue, FilterState, compile_filter_state, compile_search_regex,
  PacketDirectionFilter, PacketPayloadKindFilter, get_filter_validation_issues,
}
use socketlens.FilterState.Blank.{compile_smart_conditions-blank}
use socketlens.FilterEngine.{
  apply, matches, matches_default_filter, is_semantic_filter_active, matches_search_query,
  matches_smart_conditions, wants_all, wants_all_kinds,
}

nil_of_not_truthy : (s : Text) → truthy s ≡ false → s ≡ []
nil_of_not_truthy [] h = refl
nil_of_not_truthy (c ∷ s) h = cc

filter_all :
    (p : Packet → Bool) (packets : List Packet)
    → ((packet : Packet) → p packet ≡ true)
    → filter p packets ≡ packets
filter_all p [] h = refl
filter_all p (packet ∷ packets) h = rw (h packet) (ap (◌∷◌ packet) (filter_all p packets h))

-- A list is read off the test, or given whole where the test is known to hold for all.
if_either :
    (b : Bool) (xs ys zs : List Packet)
    → (b ≡ true → xs ≡ zs)
    → ys ≡ zs
    → (if b then xs else ys) ≡ zs
if_either true xs ys zs h k = h refl
if_either false xs ys zs h k = k

filter_none :
    (p : Packet → Bool) (packets : List Packet)
    → ((packet : Packet) → p packet ≡ false)
    → filter p packets ≡ []
filter_none p [] h = refl
filter_none p (packet ∷ packets) h = rw (h packet) (filter_none p packets h)

or_false : (a b : Bool) → (a || b) ≡ false → (a ≡ false) × (b ≡ false)
or_false a b h = ground arith

all_of_not : (d : PacketDirectionFilter) → not (wants_all d) ≡ false → d ≡ PacketDirectionFilter.all
all_of_not PacketDirectionFilter.all h = refl
all_of_not (PacketDirectionFilter.only wanted) h = cc

all_kinds_of_not :
    (k : PacketPayloadKindFilter)
    → not (wants_all_kinds k) ≡ false
    → k ≡ PacketPayloadKindFilter.all
all_kinds_of_not PacketPayloadKindFilter.all h = refl
all_kinds_of_not (PacketPayloadKindFilter.only wanted) h = cc

none_of_not_some : (o : Option ℕ) → is_some o ≡ false → o ≡ none
none_of_not_some none h = refl
none_of_not_some (some n) h = cc

filter-refused :
    (refused : Bool) (p : Packet → Bool) (packets : List Packet)
    → (if refused then [] else filter p packets)
      ≡ filter (λ packet. not refused && p packet) packets
filter-refused true p packets = sym (filter_none (λ packet. false) packets (λ packet. refl))
filter-refused false p packets = refl

-- What a filter leaves open when no semantic filter is active.
Idle : FilterState → Type 0
Idle fs =
    (fs.direction ≡ PacketDirectionFilter.all)
    × (fs.errors_only ≡ false)
    × (trim fs.event_query ≡ [])
    × (fs.hide_heartbeat ≡ false)
    × (fs.hide_ping_pong ≡ false)
    × (fs.payload_kind ≡ PacketPayloadKindFilter.all)
    × (trim fs.search_query ≡ [])
    × (trim fs.smart_query ≡ [])
    × (fs.min_size_bytes ≡ none)
    × (fs.max_size_bytes ≡ none)

Idle-of_inactive : (fs : FilterState) → is_semantic_filter_active fs ≡ false → Idle fs
unfolding is_semantic_filter_active trim Idle
Idle-of_inactive fs h =
    let h1 = or_false _ _ h in
    let h2 = or_false _ _ h1.0 in
    let h3 = or_false _ _ h2.0 in
    let h4 = or_false _ _ h3.0 in
    let h5 = or_false _ _ h4.0 in
    let h6 = or_false _ _ h5.0 in
    let h7 = or_false _ _ h6.0 in
    let h8 = or_false _ _ h7.0 in
    let h9 = or_false _ _ h8.0 in
    (
      all_of_not fs.direction h9.0,
      h9.1,
      nil_of_not_truthy (trim fs.event_query) h8.1,
      h7.1,
      h6.1,
      all_kinds_of_not fs.payload_kind h5.1,
      nil_of_not_truthy (trim fs.search_query) h4.1,
      nil_of_not_truthy (trim fs.smart_query) h3.1,
      none_of_not_some fs.min_size_bytes h2.1,
      none_of_not_some fs.max_size_bytes h1.1,
    )

module _ (ρ : Runtime) where
  compile-Idle :
      (fs : FilterState)
      → ρ.lower [] ≡ []
      → Idle fs
      → compile_filter_state ρ fs
        ≡ record { event_query = []; issues = []; search_regex = none; smart_conditions = [] }
  unfolding compile_filter_state compile_search_regex Idle
  compile-Idle fs l (d, e, q, b, p, k, s, m, a, z) =
      rw (q, s, l) (rw (compile_smart_conditions-blank fs.smart_query m) refl)

  module _ (summary : Packet → PacketSummary) where
    matches-Idle :
        (packet : Packet) (fs : FilterState)
        → ρ.lower [] ≡ []
        → fs.session_id ≡ none
        → Idle fs
        → matches_default_filter ρ summary packet fs (compile_filter_state ρ fs) ≡ true
    unfolding matches_default_filter matches_search_query matches_smart_conditions Idle
    matches-Idle packet fs l n i =
        rw (compile-Idle fs l i) (rw (n, i.0, i.1, i.3, i.4, i.5) (rw (i.6, i.8, i.9) (rw l refl)))

    inactive : FilterState → Bool
    inactive fs = not (is_some fs.session_id) && not (is_semantic_filter_active fs)

    Idle-of_inactive_filter :
        (fs : FilterState) → inactive fs ≡ true → (fs.session_id ≡ none) × Idle fs
    unfolding inactive
    Idle-of_inactive_filter fs h =
        (no_session fs.session_id (ground arith), Idle-of_inactive fs (ground arith))
      where
        no_session : (o : Option Text) → is_some o ≡ false → o ≡ none
        no_session none h = refl
        no_session (some id) h = cc

    all_match :
        (packet : Packet) (fs : FilterState)
        → ρ.lower [] ≡ []
        → inactive fs ≡ true
        → matches ρ summary packet fs ≡ true
    unfolding matches
    all_match packet fs l h =
        let (n, i) = Idle-of_inactive_filter fs h in
        accepted (compile_filter_state ρ fs).issues _ (ap (λ c. c.issues) (compile-Idle fs l i))
          (matches-Idle packet fs l n i)
      where
        accepted :
            (issues : List FilterValidationIssue) (b : Bool)
            → issues ≡ []
            → b ≡ true
            → (not (non_empty issues) && b) ≡ true
        accepted [] b h k = k
        accepted (issue ∷ issues) b h k = cc

    -- The list that the filter gives holds the packets that match it, in their order, if the lower
    -- case of the empty text is empty.
    pub apply-matches :
        (packets : List Packet) (fs : FilterState)
        → ρ.lower [] ≡ []
        → apply ρ summary packets fs ≡ filter (λ packet. matches ρ summary packet fs) packets
    unfolding apply matches inactive
    apply-matches packets fs l =
        if_either (inactive fs) packets _ _
          (λ h. sym (
            filter_all (λ packet. matches ρ summary packet fs) packets
              (λ packet. all_match packet fs l h)))
          (filter-refused (non_empty (compile_filter_state ρ fs).issues)
            (λ packet. matches_default_filter ρ summary packet fs (compile_filter_state ρ fs))
            packets)

    -- A filter that does not compile keeps no packet.
    pub apply-invalid :
        (packets : List Packet) (fs : FilterState)
        → ρ.lower [] ≡ []
        → get_filter_validation_issues ρ fs ≢ []
        → apply ρ summary packets fs ≡ []
    unfolding apply get_filter_validation_issues inactive
    apply-invalid packets fs l h =
        if_either (inactive fs) packets _ []
          (λ k.
            absurd (h (ap (λ c. c.issues) (compile-Idle fs l (Idle-of_inactive_filter fs k).1))))
          (refused_all _ (compile_filter_state ρ fs).issues h)
      where
        refused_all :
            (p : Packet → Bool) (issues : List FilterValidationIssue)
            → issues ≢ []
            → (if non_empty issues then [] else filter p packets) ≡ []
        refused_all p [] h = absurd (h refl)
        refused_all p (issue ∷ issues) h = refl
