-- ===== src/PacketRelationships/Indexed.antt =====
-- What `getPacketRelationships` of apps/desktop/src/lib/packet-relationships.ts finds in an index.
use socketlens.Common.{
  ◌≡◌, refl, sym, subst, List, [], ◌∷◌, ◌++◌, map, some, Bool, true, false, ◌⊎◌, inl, inr, ◌↔◌,
  arith, Text, text_eq, text_eq_iff, text_eq_refl, truthy, Bool-cases, length, ltb, if◌then◌else◌,
}
use socketlens.Packet.{Packet}
use socketlens.Json.{Runtime}
use socketlens.PacketInspection.{PacketSummary}
use socketlens.PacketRelationships.{
  PacketRelationship, PacketRelationshipMetadata, insert_sorted, sort, entries_of,
  push_relationship,
}
use socketlens.PacketRelationships.Building.{
  sort_relationships_for_packet, index_by_packet, index_of, sorted_metadata,
  build_packet_relationship_index, get_packet_relationships,
}
use socketlens.PacketRelationships.Linked.{Among}

module _ {A : Type 0} (r : A) where
  Among-append : (xs : List A) (x : A) → Among r (xs ++ x ∷ []) ↔ (Among r xs ⊎ (r ≡ x))
  Among-append [] x = (
    λ h. elim h [ inl e ↦ inr e | inr b ↦ absurd b ],
    λ h. elim h [ inl b ↦ absurd b | inr e ↦ inl e ],
  )
  Among-append (y ∷ ys) x = (
    λ h. elim h [
      | inl e ↦ inl (inl e)
      | inr m ↦ elim ((Among-append ys x).0 m) [ inl k ↦ inl (inr k) | inr e ↦ inr e ]
    ],
    λ h. elim h [
      | inl m ↦ elim m [ inl e ↦ inl e | inr k ↦ inr ((Among-append ys x).1 (inl k)) ]
      | inr e ↦ inr ((Among-append ys x).1 (inr e))
    ],
  )

  module _ (le : A → A → Bool) where
    Among-insert : (x : A) (xs : List A) → Among r (insert_sorted le x xs) ↔ Among r (x ∷ xs)
    unfolding insert_sorted
    Among-insert x [] = (λ h. h, λ h. h)
    Among-insert x (y ∷ ys) = elim (Bool-cases (le x y)) [
      | inl e ↦ rw e (λ h. h, λ h. h)
      | inr e ↦ rw e (
        λ h. elim h [
          | inl k ↦ inr (inl k)
          | inr m ↦ elim ((Among-insert x ys).0 m) [ inl k ↦ inl k | inr n ↦ inr (inr n) ]
        ],
        λ h. elim h [
          | inl k ↦ inr ((Among-insert x ys).1 (inl k))
          | inr m ↦ elim m [ inl k ↦ inl k | inr n ↦ inr ((Among-insert x ys).1 (inr n)) ]
        ],
      )
    ]

    Among-sort : (xs : List A) → Among r (sort le xs) ↔ Among r xs
    unfolding sort
    Among-sort [] = (λ h. h, λ h. h)
    Among-sort (x ∷ xs) =
        let step = Among-insert x (sort le xs) in
        let rest = Among-sort xs in
        (
          λ h. elim (step.0 h) [ inl e ↦ inl e | inr m ↦ inr (rest.0 m) ],
          λ h. step.1 (elim h [ inl e ↦ inl e | inr m ↦ inr (rest.1 m) ]),
        )

  entries_of-push :
      (m : List (Text × List A)) (key : Text) (x : A) (id : Text)
      → entries_of (push_relationship m key x) id
        ≡ (if text_eq key id then entries_of m id ++ x ∷ [] else entries_of m id)
  unfolding entries_of push_relationship
  entries_of-push [] key x id = refl
  entries_of-push ((k, xs) ∷ m) key x id = elim (Bool-cases (text_eq k key)) [
    | inl e ↦
        subst
          (λ j. entries_of (push_relationship ((k, xs) ∷ m) j x) id ≡ (
            if text_eq j id
            then entries_of ((k, xs) ∷ m) id ++ x ∷ []
            else entries_of ((k, xs) ∷ m) id))
          ((text_eq_iff k key).0 e) (same (Bool-cases (text_eq k id)))
    | inr e ↦ elim (Bool-cases (text_eq k id)) [
      | inl f ↦ rw (e, f, other e f) refl
      | inr f ↦ rw (e, f) (entries_of-push m key x id)
    ]
  ]
    where
      same :
          (text_eq k id ≡ true) ⊎ (text_eq k id ≡ false)
          → entries_of (push_relationship ((k, xs) ∷ m) k x) id ≡ (
              if text_eq k id
              then entries_of ((k, xs) ∷ m) id ++ x ∷ []
              else entries_of ((k, xs) ∷ m) id)
      same (inl f) = rw (text_eq_refl k, f) refl
      same (inr f) = rw (text_eq_refl k, f) refl

      other : text_eq k key ≡ false → text_eq k id ≡ true → text_eq key id ≡ false
      other e f =
          ground (arith, text_eq_iff k id, text_eq_iff key id, text_eq_refl k, text_eq_iff k key)

  Among-push :
      (m : List (Text × List A)) (key : Text) (x : A) (id : Text)
      → Among r (entries_of (push_relationship m key x) id)
        ↔ (Among r (entries_of m id) ⊎ ((key ≡ id) × (r ≡ x)))
  Among-push m key x id = elim (Bool-cases (text_eq key id)) [
    | inl e ↦
        rw (entries_of-push m key x id, e)
          (
            λ h. elim ((Among-append (entries_of m id) x).0 h) [
              | inl k ↦ inl k
              | inr f ↦ inr ((text_eq_iff key id).0 e, f)
            ],
            λ h.
                (Among-append (entries_of m id) x).1
                  (elim h [ inl k ↦ inl k | inr (g, f) ↦ inr f ]),
          )
    | inr e ↦
        rw (entries_of-push m key x id, e)
          (inl, λ h. elim h [ inl k ↦ k | inr (g, f) ↦ cc (e, (text_eq_iff key id).1 g) ])
  ]

module _ (r : PacketRelationship) where
  -- The relationship leads to or from the packet.
  abbrev pub Touches : Text → Type 0
  Touches id = (r.input.source_packet_id ≡ id) ⊎ (r.input.target_packet_id ≡ id)

  Among-index :
      (m : List (Text × List PacketRelationship)) (rs : List PacketRelationship) (id : Text)
      → Among r (entries_of (index_by_packet m rs) id)
        ↔ (Among r (entries_of m id) ⊎ (Among r rs × Touches id))
  unfolding index_by_packet
  Among-index m [] id = (inl, λ h. elim h [ inl k ↦ k | inr (b, t) ↦ absurd b ])
  Among-index m (x ∷ rs) id =
      let outer = push_relationship m x.input.source_packet_id x in
      let rest = Among-index (push_relationship outer x.input.target_packet_id x) rs id in
      let second = Among-push r outer x.input.target_packet_id x id in
      let first = Among-push r m x.input.source_packet_id x id in
      (
        λ h. elim (rest.0 h) [
          | inl k ↦ elim (second.0 k) [
            | inl j ↦ elim (first.0 j) [
              | inl i ↦ inl i
              | inr (p, e) ↦ inr (inl e, inl (subst (λ y. y.input.source_packet_id ≡ id) (sym e) p))
            ]
            | inr (p, e) ↦ inr (inl e, inr (subst (λ y. y.input.target_packet_id ≡ id) (sym e) p))
          ]
          | inr (a, t) ↦ inr (inr a, t)
        ],
        λ h. rest.1 (elim h [
          | inl i ↦ inl (second.1 (inl (first.1 (inl i))))
          | inr (a, t) ↦ elim a [
            | inr b ↦ inr (b, t)
            | inl e ↦ inl (
                second.1 (elim t [
                  | inl p ↦ inl (first.1 (inr (subst (λ y. y.input.source_packet_id ≡ id) e p, e)))
                  | inr p ↦ inr (subst (λ y. y.input.target_packet_id ≡ id) e p, e)
                ]))
          ]
        ]),
      )

  Among-sorted :
      (metadata : List PacketRelationshipMetadata) (m : List (Text × List PacketRelationship))
      (id : Text)
      → Among r (
          entries_of
            (map (λ entry. (entry.0, sort_relationships_for_packet metadata entry.1 entry.0)) m)
            id)
        ↔ Among r (entries_of m id)
  unfolding entries_of sort_relationships_for_packet
  Among-sorted metadata [] id = (λ h. h, λ h. h)
  Among-sorted metadata ((key, xs) ∷ m) id = elim (Bool-cases (text_eq key id)) [
    | inl e ↦ rw e (Among-sort r _ xs)
    | inr e ↦ rw e (Among-sorted metadata m id)
  ]

  Among-index_of :
      (metadata : List PacketRelationshipMetadata) (rs : List PacketRelationship) (id : Text)
      → Among r (entries_of (index_of metadata rs).by_packet_id id)
        ↔ (Among r (index_of metadata rs).relationships × Touches id)
  unfolding index_of entries_of
  Among-index_of metadata [] id = (λ h. absurd h, λ h. absurd h.0)
  Among-index_of metadata (x ∷ rs) id =
      let sorted = Among-sorted metadata (index_by_packet [] (x ∷ rs)) id in
      let found = Among-index [] (x ∷ rs) id in
      (
        λ h. elim (found.0 (sorted.0 h)) [ inl k ↦ absurd k | inr k ↦ k ],
        λ h. sorted.1 (found.1 (inr h)),
      )

-- Of a packet id that is not empty, the index lists the relationships that it has which lead to or
-- from the packet, and no others.
pub get_packet_relationships-Touches :
    (ρ : Runtime) (summary : Packet → PacketSummary) (packets : List Packet) (id : Text)
    (r : PacketRelationship)
    → truthy id ≡ true
    → Among r (
        get_packet_relationships
          (some (build_packet_relationship_index ρ summary packets))
          (some id))
      ↔ (Among r (build_packet_relationship_index ρ summary packets).relationships × Touches r id)
unfolding build_packet_relationship_index get_packet_relationships entries_of
get_packet_relationships-Touches ρ summary packets id r h =
    elim (Bool-cases (ltb (length packets) 2)) [
      | inl e ↦ rw (e, h) (λ k. absurd k, λ k. absurd k.0)
      | inr e ↦ rw (e, h) (Among-index_of r (sorted_metadata ρ summary packets) _ id)
    ]
