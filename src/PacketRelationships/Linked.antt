-- ===== src/PacketRelationships/Linked.antt =====
-- Which packets the relationships of apps/desktop/src/lib/packet-relationships.ts join.
use socketlens.Common.{
  ◌≡◌, refl, subst, List, [], ◌∷◌, ◌++◌, Option, none, some, Bool, true, false, ◌⊎◌, inl, inr, Text,
  text_eq, text_eq_iff, any, All, All-map, All-append, Bool-cases, or_some, length, ltb,
  if◌then◌else◌,
}
use socketlens.Packet.{Packet}
use socketlens.Json.{Runtime}
use socketlens.PacketInspection.{PacketSummary}
use socketlens.PacketRelationships.{
  PacketRelationship, PacketRelationshipMetadata, RelationshipInput, insert_sorted, sort,
  packet_by_id, in_one_session, relationship_id, add_relationship, add_all,
}
use socketlens.PacketRelationships.Sources.{create_relationship_metadata}
use socketlens.PacketRelationships.Building.{
  relationship_inputs, index_of, sorted_metadata, build_packet_relationship_index,
}

abbrev pub Among : {A : Type 0} → A → List A → Type 0
Among x [] = ⊥
Among x (y ∷ rest) = (x ≡ y) ⊎ Among x rest

-- Two packets of the list, of one session, under the two ids.
abbrev Joins : List Packet → Text → Text → Type 0
Joins packets source_id target_id =
    (source : Packet) × (target : Packet) × Among source packets
    × Among target packets
    × (source.id ≡ source_id)
    × (target.id ≡ target_id)
    × (source.session_id ≡ target.session_id)

abbrev pub IsLink : List Packet → PacketRelationship → Type 0
IsLink packets relationship =
    (text_eq relationship.input.source_packet_id relationship.input.target_packet_id ≡ false)
    × (relationship.id ≡ relationship_id relationship.input)
    × Joins packets relationship.input.source_packet_id relationship.input.target_packet_id

abbrev Distinct : List PacketRelationship → Type 0
Distinct [] = Unit
Distinct (r ∷ rest) = All (λ other. text_eq r.id other.id ≡ false) rest × Distinct rest

abbrev pub AreLinks : List Packet → List PacketRelationship → Type 0
AreLinks packets relationships = All (IsLink packets) relationships × Distinct relationships

All-Among :
    (P : Packet → Type 0) (packets : List Packet)
    → ((packet : Packet) → Among packet packets → P packet)
    → All P packets
All-Among P [] f = tt
All-Among P (packet ∷ packets) f =
    (f packet (inl refl), All-Among P packets (λ other m. f other (inr m)))

module _ {A : Type 0} (P : A → Type 0) (le : A → A → Bool) where
  All-insert : (x : A) (xs : List A) → P x → All P xs → All P (insert_sorted le x xs)
  unfolding insert_sorted
  All-insert x [] h k = (h, tt)
  All-insert x (y ∷ ys) h k = elim (Bool-cases (le x y)) [
    | inl e ↦ rw e (h, k)
    | inr e ↦ rw e (k.0, All-insert x ys h k.1)
  ]

  All-sort : (xs : List A) → All P xs → All P (sort le xs)
  unfolding sort
  All-sort [] h = tt
  All-sort (x ∷ xs) h = All-insert x (sort le xs) h.0 (All-sort xs h.1)

some_inj : {A : Type 0} {x y : A} → some x ≡ some y → x ≡ y
some_inj h = cc

or_some-found :
    {A : Type 0} (o p : Option A) (x : A) → or_some o p ≡ some x → (o ≡ some x) ⊎ (p ≡ some x)
or_some-found none p x h = inr h
or_some-found (some a) p x h = inl h

module _ (packets : List Packet) where
  abbrev IsFrom : PacketRelationshipMetadata → Type 0
  IsFrom item = Among item.packet packets

  packet_by_id_sound :
      (metadata : List PacketRelationshipMetadata) (id : Text) (item : PacketRelationshipMetadata)
      → All IsFrom metadata
      → packet_by_id metadata id ≡ some item
      → IsFrom item × (item.packet.id ≡ id)
  unfolding packet_by_id
  packet_by_id_sound [] id item h e = cc
  packet_by_id_sound (first ∷ metadata) id item h e =
      elim (or_some-found (packet_by_id metadata id) _ item e) [
        | inl later ↦ packet_by_id_sound metadata id item h.1 later
        | inr here ↦ own item here
      ]
    where
      own :
          (item : PacketRelationshipMetadata)
          → (if text_eq first.packet.id id then some first else none) ≡ some item
          → IsFrom item × (item.packet.id ≡ id)
      own item here = elim (Bool-cases (text_eq first.packet.id id)) [
        | inl e ↦
            subst (λ x. IsFrom x × (x.packet.id ≡ id)) (some_inj (rw e at here))
              (h.0, (text_eq_iff first.packet.id id).0 e)
        | inr e ↦ cc (rw e at here)
      ]

  in_one_session-Joins :
      (metadata : List PacketRelationshipMetadata) (s t : Text)
      → All IsFrom metadata
      → in_one_session (packet_by_id metadata s) (packet_by_id metadata t) ≡ true
      → Joins packets s t
  in_one_session-Joins metadata s t h e =
      found (packet_by_id metadata s) (packet_by_id metadata t) refl refl e
    where
      found :
          (o p : Option PacketRelationshipMetadata)
          → packet_by_id metadata s ≡ o
          → packet_by_id metadata t ≡ p
          → in_one_session o p ≡ true
          → Joins packets s t
      found (some source) (some target) a b same =
          let x = packet_by_id_sound metadata s source h a in
          let y = packet_by_id_sound metadata t target h b in
          (
            source.packet,
            target.packet,
            x.0,
            y.0,
            x.1,
            y.1,
            (text_eq_iff source.packet.session_id target.packet.session_id).0 same,
          )
      found (some source) none a b same = cc
      found none p a b same = cc

  unseen :
      (id : Text) (relationships : List PacketRelationship)
      → any (λ other. text_eq other.id id) relationships ≡ false
      → All (λ other. text_eq other.id id ≡ false) relationships
  unseen id [] h = tt
  unseen id (r ∷ rest) h = elim (Bool-cases (text_eq r.id id)) [
    | inl e ↦ cc (rw e at h)
    | inr e ↦ (e, unseen id rest (rw e at h))
  ]

  Distinct-append :
      (relationships : List PacketRelationship) (r : PacketRelationship)
      → Distinct relationships
      → All (λ other. text_eq other.id r.id ≡ false) relationships
      → Distinct (relationships ++ r ∷ [])
  Distinct-append [] r h k = (tt, tt)
  Distinct-append (other ∷ rest) r h k =
      (All-append _ rest (r ∷ []) h.0 (k.0, tt), Distinct-append rest r h.1 k.1)

  add_relationship-AreLinks :
      (metadata : List PacketRelationshipMetadata) (relationships : List PacketRelationship)
      (input : RelationshipInput)
      → All IsFrom metadata
      → AreLinks packets relationships
      → AreLinks packets (add_relationship metadata relationships input)
  unfolding add_relationship
  add_relationship-AreLinks metadata relationships input h k =
      elim (Bool-cases (text_eq input.source_packet_id input.target_packet_id)) [
        | inl e ↦ rw e k
        | inr e ↦
            elim (Bool-cases (
              in_one_session (packet_by_id metadata input.source_packet_id)
                (packet_by_id metadata input.target_packet_id))) [
                  | inr n ↦ rw (e, n) k
                  | inl y ↦
                      elim (Bool-cases
                        (any (λ other. text_eq other.id (relationship_id input)) relationships)) [
                          | inl seen ↦ rw (e, y, seen) k
                          | inr new ↦
                              rw (e, y, new)
                                (
                                  All-append _ relationships _ k.0
                                      ((e, refl, in_one_session-Joins metadata _ _ h y), tt),
                                  Distinct-append relationships _ k.1 (unseen _ relationships new),
                                )
                        ]
                ]
      ]

  add_all-AreLinks :
      (metadata : List PacketRelationshipMetadata) (relationships : List PacketRelationship)
      (inputs : List RelationshipInput)
      → All IsFrom metadata
      → AreLinks packets relationships
      → AreLinks packets (add_all metadata relationships inputs)
  unfolding add_all
  add_all-AreLinks metadata relationships [] h k = k
  add_all-AreLinks metadata relationships (input ∷ inputs) h k =
      add_all-AreLinks metadata (add_relationship metadata relationships input) inputs h
        (add_relationship-AreLinks metadata relationships input h k)

index_of-relationships :
    (metadata : List PacketRelationshipMetadata) (relationships : List PacketRelationship)
    → (index_of metadata relationships).relationships ≡ relationships
unfolding index_of
index_of-relationships metadata [] = refl
index_of-relationships metadata (r ∷ rest) = refl

sorted_metadata-IsFrom :
    (ρ : Runtime) (summary : Packet → PacketSummary) (packets : List Packet)
    → All (IsFrom packets) (sorted_metadata ρ summary packets)
unfolding sorted_metadata create_relationship_metadata
sorted_metadata-IsFrom ρ summary packets =
    All-map (λ packet. Among packet packets) (IsFrom packets) _ (λ packet m. m) _
      (All-sort _ _ packets (All-Among _ packets (λ packet m. m)))

-- Every relationship of the index joins two different packet ids, which packets of the list with
-- one session have. Its id is the one its fields spell, and no two relationships have the same id.
pub build-AreLinks :
    (ρ : Runtime) (summary : Packet → PacketSummary) (packets : List Packet)
    → AreLinks packets (build_packet_relationship_index ρ summary packets).relationships
unfolding build_packet_relationship_index
build-AreLinks ρ summary packets = elim (Bool-cases (ltb (length packets) 2)) [
  | inl e ↦ rw e (tt, tt)
  | inr e ↦
      rw (e, index_of-relationships (sorted_metadata ρ summary packets) _)
        (add_all-AreLinks packets _ [] (relationship_inputs (sorted_metadata ρ summary packets))
          (sorted_metadata-IsFrom ρ summary packets) (tt, tt))
]
