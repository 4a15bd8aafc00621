-- ===== src/Grouping/Runs.antt =====
-- The groups of apps/desktop/src/lib/packet-grouping.ts, and the figures that they show.
use socketlens.Common.{
  ℕ, zero, suc, ◌+◌, ◌≤◌, ◌≡◌, refl, ◌⊎◌, ◌∙◌, ap, inl, inr, List, [], ◌∷◌, map, Bool, true, false,
  arith, Text, text_eq, text_eq_iff, leb→le, length, leb, Bool-cases, if◌then◌else◌, All,
  All-append,
}
use socketlens.Packet.{Packet}
use socketlens.Packet.Times.{HasTime, HasTime-choice, HasTime-first}
use socketlens.PacketInspection.{PacketSummary}
use socketlens.Grouping.{
  PacketTimelineItem, PacketTimelineGroup, PacketTimelineGroupKind, GroupingOptions,
  create_packet_item, create_packet_timeline_group, should_create_group, get_packet_group_candidate,
  take_run, emit_run, group_from, group_timeline_packets, first_of_run, last_of_run, total_bytes,
}

-- A time range that holds every packet.
abbrev pub Within : ℕ → ℕ → Packet → Type 0
Within from to p = (from ≤ p.timestamp) × (p.timestamp ≤ to)

-- The least size that the options ask of a kind.
abbrev pub least_size : GroupingOptions → PacketTimelineGroupKind → ℕ
least_size options PacketTimelineGroupKind.auth_flow = options.min_auth_flow_size
least_size options PacketTimelineGroupKind.heartbeat_storm = options.min_heartbeat_storm_size
least_size options PacketTimelineGroupKind.reconnect_flow = options.min_reconnect_flow_size
least_size options PacketTimelineGroupKind.repeated_event = options.min_repeated_event_size

abbrev pub sum : List ℕ → ℕ
sum [] = 0
sum (n ∷ ns) = n + sum ns

module _ (summary : Packet → PacketSummary) (lower : Text → Text) where
  abbrev pub HasKey : Text → Packet → Type 0
  HasKey key p = (get_packet_group_candidate summary lower p).key ≡ key

  -- What a timeline group promises.
  pub record IsGroup (options : GroupingOptions) (g : PacketTimelineGroup) : Type 0 where
    pub same_key :
        All
          (HasKey (get_packet_group_candidate summary lower g.representative_packet).key)
          g.packets
    pub kind : g.kind ≡ (get_packet_group_candidate summary lower g.representative_packet).kind
    pub large : least_size options g.kind ≤ length g.packets
    pub counted : g.packet_count ≡ length g.packets
    pub dated : All (Within g.first_timestamp g.last_timestamp) g.packets
    pub first_dated : HasTime g.first_timestamp g.packets
    pub last_dated : HasTime g.last_timestamp g.packets
    pub sized : g.total_bytes ≡ sum (map (λ (p : Packet). p.size_bytes) g.packets)

  abbrev pub IsItem : GroupingOptions → PacketTimelineItem → Type 0
  IsItem options (PacketTimelineItem.packet id p) = id ≡ p.id
  IsItem options (PacketTimelineItem.group id g) = (id ≡ g.id) × IsGroup options g

first_of_run-le :
    (m t : ℕ) (ps : List Packet)
    → m ≡ first_of_run t ps
    → (m ≤ t) × All (λ (p : Packet). m ≤ p.timestamp) ps
unfolding first_of_run
first_of_run-le m t [] q = (omega arith, tt)
first_of_run-le m t (p ∷ ps) q =
    let chosen : (b : Bool)
        → leb t p.timestamp ≡ b
        → m ≡ first_of_run (if b then t else p.timestamp) ps =
      λ b e. q ∙ ap (λ c. first_of_run (if c then t else p.timestamp) ps) e in
    elim (Bool-cases (leb t p.timestamp)) [
      | inl e ↦
          let (low, all) = first_of_run-le m t ps (chosen true e) in
          (low, (omega (arith, low, leb→le t p.timestamp e), all))
      | inr e ↦
          let (low, all) = first_of_run-le m p.timestamp ps (chosen false e) in
          let order : p.timestamp ≤ t = ground arith in (omega (arith, low, order), (low, all))
    ]

le-last_of_run :
    (m t : ℕ) (ps : List Packet)
    → m ≡ last_of_run t ps
    → (t ≤ m) × All (λ (p : Packet). p.timestamp ≤ m) ps
unfolding last_of_run
le-last_of_run m t [] q = (omega arith, tt)
le-last_of_run m t (p ∷ ps) q =
    let chosen : (b : Bool)
        → leb p.timestamp t ≡ b
        → m ≡ last_of_run (if b then t else p.timestamp) ps =
      λ b e. q ∙ ap (λ c. last_of_run (if c then t else p.timestamp) ps) e in
    elim (Bool-cases (leb p.timestamp t)) [
      | inl e ↦
          let (high, all) = le-last_of_run m t ps (chosen true e) in
          (high, (omega (arith, high, leb→le p.timestamp t e), all))
      | inr e ↦
          let (high, all) = le-last_of_run m p.timestamp ps (chosen false e) in
          let order : t ≤ p.timestamp = ground arith in (omega (arith, high, order), (high, all))
    ]

least_size-le :
    (options : GroupingOptions) (kind : PacketTimelineGroupKind) (n : ℕ)
    → should_create_group kind n options ≡ true
    → least_size options kind ≤ n
unfolding should_create_group
least_size-le options PacketTimelineGroupKind.auth_flow n h = leb→le _ n h
least_size-le options PacketTimelineGroupKind.heartbeat_storm n h = leb→le _ n h
least_size-le options PacketTimelineGroupKind.reconnect_flow n h = leb→le _ n h
least_size-le options PacketTimelineGroupKind.repeated_event n h = leb→le _ n h

total_bytes-sum : (ps : List Packet) → total_bytes ps ≡ sum (map (λ (p : Packet). p.size_bytes) ps)
unfolding total_bytes
total_bytes-sum [] = refl
total_bytes-sum (p ∷ ps) = ap (λ n. p.size_bytes + n) (total_bytes-sum ps)

All-both {ℓ κ} :
    {A : Type ℓ} (P Q R : A → Type κ)
    → ((x : A) → P x → Q x → R x)
    → (xs : List A) → All P xs
    → All Q xs
    → All R xs
All-both P Q R f [] h k = tt
All-both P Q R f (x ∷ xs) h k = (f x h.0 k.0, All-both P Q R f xs h.1 k.1)

first_of_run-HasTime :
    (t : ℕ) (ps : List Packet) → (first_of_run t ps ≡ t) ⊎ HasTime (first_of_run t ps) ps
unfolding first_of_run
first_of_run-HasTime t [] = inl refl
first_of_run-HasTime t (p ∷ ps) =
    HasTime-choice (leb t p.timestamp) t _ p ps
      (first_of_run-HasTime (if leb t p.timestamp then t else p.timestamp) ps)

last_of_run-HasTime :
    (t : ℕ) (ps : List Packet) → (last_of_run t ps ≡ t) ⊎ HasTime (last_of_run t ps) ps
unfolding last_of_run
last_of_run-HasTime t [] = inl refl
last_of_run-HasTime t (p ∷ ps) =
    HasTime-choice (leb p.timestamp t) t _ p ps
      (last_of_run-HasTime (if leb p.timestamp t then t else p.timestamp) ps)

module _ (summary : Packet → PacketSummary) (lower : Text → Text) where
  take_run-HasKey :
      (key : Text) (ps : List Packet)
      → All (HasKey summary lower key) (take_run summary lower key ps).0
  unfolding take_run
  take_run-HasKey key [] = tt
  take_run-HasKey key (p ∷ ps) =
      elim (Bool-cases (text_eq (get_packet_group_candidate summary lower p).key key)) [
        | inl e ↦ rw e ((text_eq_iff _ key).0 e, take_run-HasKey key ps)
        | inr e ↦ rw e tt
      ]

  items-IsItem :
      (options : GroupingOptions) (ps : List Packet)
      → All (IsItem summary lower options) (map create_packet_item ps)
  items-IsItem options [] = tt
  items-IsItem options (p ∷ ps) = (refl, items-IsItem options ps)

  create-IsGroup :
      (options : GroupingOptions) (p : Packet) (ps : List Packet)
      → All (HasKey summary lower (get_packet_group_candidate summary lower p).key) ps
      → should_create_group
          (get_packet_group_candidate summary lower p).kind
          (length (p ∷ ps))
          options
        ≡ true
      → IsGroup summary lower options
          (create_packet_timeline_group (get_packet_group_candidate summary lower p) p ps)
  unfolding create_packet_timeline_group
  create-IsGroup options p ps keys large =
      let (low, lows) = first_of_run-le _ p.timestamp ps refl in
      let (high, highs) = le-last_of_run _ p.timestamp ps refl in
      record {
        same_key = (refl, keys);
        kind = refl;
        large = least_size-le options _ _ large;
        counted = refl;
        dated = ((low, high), All-both _ _ _ (λ x a b. (a, b)) ps lows highs);
        first_dated = HasTime-first _ p ps (first_of_run-HasTime p.timestamp ps);
        last_dated = HasTime-first _ p ps (last_of_run-HasTime p.timestamp ps);
        sized = total_bytes-sum (p ∷ ps);
      }

  module _ (options : GroupingOptions) (expanded : Text → Bool) where
    emit_run-IsItem :
        (p : Packet) (ps : List Packet)
        → All (HasKey summary lower (get_packet_group_candidate summary lower p).key) ps
        → All (IsItem summary lower options) (emit_run summary lower options expanded p ps)
    unfolding emit_run
    emit_run-IsItem p ps keys =
        let c = get_packet_group_candidate summary lower p in
        let made = create_packet_timeline_group c p ps in
        elim (Bool-cases (should_create_group c.kind (length (p ∷ ps)) options)) [
          | inr e ↦ rw e (items-IsItem options (p ∷ ps))
          | inl e ↦ elim (Bool-cases (expanded made.id)) [
            | inl wide ↦ rw e (
              (refl, create-IsGroup options p ps keys e),
              rw wide (items-IsItem options (p ∷ ps)),
            )
            | inr narrow ↦ rw e ((refl, create-IsGroup options p ps keys e), rw narrow tt)
          ]
        ]

    group_from-IsItem :
        (fuel : ℕ) (ps : List Packet)
        → All (IsItem summary lower options) (group_from summary lower options expanded fuel ps)
    unfolding group_from
    group_from-IsItem zero [] = tt
    group_from-IsItem (suc fuel) [] = tt
    group_from-IsItem zero (p ∷ ps) = tt
    group_from-IsItem (suc fuel) (p ∷ ps) =
        All-append (IsItem summary lower options) _ _
          (emit_run-IsItem p _
            (take_run-HasKey (get_packet_group_candidate summary lower p).key ps))
          (group_from-IsItem fuel _)

    -- Every group of the timeline holds packets of one key, at least as many as the options ask of
    -- its kind; it shows their number, the sum of their sizes, and the first and the last of their times.
    pub group_timeline-IsItem :
        (packets : List Packet)
        → All
            (IsItem summary lower options)
            (group_timeline_packets summary lower options expanded packets)
    unfolding group_timeline_packets
    group_timeline-IsItem packets = group_from-IsItem (length packets) packets
