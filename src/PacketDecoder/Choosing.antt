-- ===== src/PacketDecoder/Choosing.antt =====
-- Which decoder `findDecoder` of apps/desktop/src/extensions/packet-decoder.ts picks.
use socketlens.Common.{
  ◌≡◌, refl, List, [], ◌∷◌, Bool, true, false, not, inl, inr, arith, text_eq, filter, All,
  Bool-cases, if◌then◌else◌, ◌⊎◌,
}
use socketlens.Packet.{Packet}
use socketlens.PacketDecoder.{
  ℤ, pos, negsuc, at_most, PacketDecoder, insert_decoder, sort_decoders, create_decoder_registry,
  accepts, first_decoder, find_decoder,
}

abbrev pub Among : PacketDecoder → List PacketDecoder → Type 0
Among decoder [] = ⊥
Among decoder (other ∷ rest) = (decoder ≡ other) ⊎ Among decoder rest

at_most_trans : (a b c : ℤ) → at_most a b ≡ true → at_most b c ≡ true → at_most a c ≡ true
at_most_trans (pos a) (pos b) (pos c) h k = ground arith
at_most_trans (pos a) (pos b) (negsuc c) h k = cc
at_most_trans (pos a) (negsuc b) c h k = cc
at_most_trans (negsuc a) (pos b) (pos c) h k = refl
at_most_trans (negsuc a) (pos b) (negsuc c) h k = cc
at_most_trans (negsuc a) (negsuc b) (pos c) h k = refl
at_most_trans (negsuc a) (negsuc b) (negsuc c) h k = ground arith

at_most_total : (a b : ℤ) → at_most a b ≡ false → at_most b a ≡ true
at_most_total (pos a) (pos b) h = ground arith
at_most_total (pos a) (negsuc b) h = refl
at_most_total (negsuc a) (pos b) h = cc
at_most_total (negsuc a) (negsuc b) h = ground arith

at_most_refl : (a : ℤ) → at_most a a ≡ true
at_most_refl (pos a) = ground arith
at_most_refl (negsuc a) = ground arith

All-imp :
    {P Q : PacketDecoder → Type 0} (xs : List PacketDecoder)
    → ((x : PacketDecoder) → P x → Q x)
    → All P xs
    → All Q xs
All-imp [] f h = tt
All-imp (x ∷ xs) f h = (f x h.0, All-imp xs f h.1)

abbrev Outranks : PacketDecoder → PacketDecoder → Type 0
Outranks d e = at_most e.priority d.priority ≡ true

abbrev Sorted : List PacketDecoder → Type 0
Sorted [] = Unit
Sorted (d ∷ rest) = All (Outranks d) rest × Sorted rest

module _ (P : PacketDecoder → Type 0) where
  All-insert :
      (d : PacketDecoder) (xs : List PacketDecoder) → P d → All P xs → All P (insert_decoder d xs)
  unfolding insert_decoder
  All-insert d [] h k = (h, tt)
  All-insert d (x ∷ xs) h k = elim (Bool-cases (at_most x.priority d.priority)) [
    | inl e ↦ rw e (h, k)
    | inr e ↦ rw e (k.0, All-insert d xs h k.1)
  ]

  All-of_insert :
      (d : PacketDecoder) (xs : List PacketDecoder) → All P (insert_decoder d xs) → P d × All P xs
  unfolding insert_decoder
  All-of_insert d [] h = (h.0, tt)
  All-of_insert d (x ∷ xs) h = elim (Bool-cases (at_most x.priority d.priority)) [
    | inl e ↦ let k = rw e at h in (k.0, k.1)
    | inr e ↦ let k = rw e at h in let r = All-of_insert d xs k.1 in (r.0, (k.0, r.1))
  ]

  All-of_sort : (xs : List PacketDecoder) → All P (sort_decoders xs) → All P xs
  unfolding sort_decoders
  All-of_sort [] h = tt
  All-of_sort (x ∷ xs) h = let r = All-of_insert x (sort_decoders xs) h in (r.0, All-of_sort xs r.1)

  All-of_filter :
      (q : PacketDecoder → Bool) (xs : List PacketDecoder)
      → All P (filter q xs)
      → All (λ x. (q x ≡ false) ⊎ P x) xs
  All-of_filter q [] h = tt
  All-of_filter q (x ∷ xs) h = elim (Bool-cases (q x)) [
    | inl e ↦ let k = rw e at h in (inr k.0, All-of_filter q xs k.1)
    | inr e ↦ (inl e, All-of_filter q xs (rw e at h))
  ]

insert-Sorted :
    (d : PacketDecoder) (xs : List PacketDecoder) → Sorted xs → Sorted (insert_decoder d xs)
unfolding insert_decoder
insert-Sorted d [] h = (tt, tt)
insert-Sorted d (x ∷ xs) h = elim (Bool-cases (at_most x.priority d.priority)) [
  | inl e ↦ rw e ((e, weaken xs e h.0), h)
  | inr e ↦ rw e (
    All-insert (Outranks x) d xs (at_most_total x.priority d.priority e) h.0,
    insert-Sorted d xs h.1,
  )
]
  where
    weaken : (ys : List PacketDecoder) → Outranks d x → All (Outranks x) ys → All (Outranks d) ys
    weaken [] e k = tt
    weaken (y ∷ ys) e k = (at_most_trans y.priority x.priority d.priority k.0 e, weaken ys e k.1)

sort-Sorted : (xs : List PacketDecoder) → Sorted (sort_decoders xs)
unfolding sort_decoders
sort-Sorted [] = tt
sort-Sorted (x ∷ xs) = insert-Sorted x (sort_decoders xs) (sort-Sorted xs)

Among-of_insert :
    (c d : PacketDecoder) (xs : List PacketDecoder)
    → Among c (insert_decoder d xs)
    → (c ≡ d) ⊎ Among c xs
unfolding insert_decoder
Among-of_insert c d [] (inl e) = inl e
Among-of_insert c d [] (inr e) = absurd e
Among-of_insert c d (x ∷ xs) h = elim (Bool-cases (at_most x.priority d.priority)) [
  | inl e ↦ rw e at h
  | inr e ↦ elim (rw e at h) [
    | inl k ↦ inr (inl k)
    | inr k ↦ elim (Among-of_insert c d xs k) [ inl i ↦ inl i | inr i ↦ inr (inr i) ]
  ]
]

Among-of_sort :
    (c : PacketDecoder) (xs : List PacketDecoder) → Among c (sort_decoders xs) → Among c xs
unfolding sort_decoders
Among-of_sort c [] h = absurd h
Among-of_sort c (x ∷ xs) h = elim (Among-of_insert c x (sort_decoders xs) h) [
  | inl e ↦ inl e
  | inr e ↦ inr (Among-of_sort c xs e)
]

Among-of_filter :
    (c : PacketDecoder) (q : PacketDecoder → Bool) (xs : List PacketDecoder)
    → Among c (filter q xs)
    → Among c xs
Among-of_filter c q [] h = absurd h
Among-of_filter c q (x ∷ xs) h = elim (Bool-cases (q x)) [
  | inl e ↦ elim (rw e at h) [ inl k ↦ inl k | inr k ↦ inr (Among-of_filter c q xs k) ]
  | inr e ↦ inr (Among-of_filter c q xs (rw e at h))
]

module _ (fallback : PacketDecoder) (packet : Packet) where
  -- The decoder is the fallback, or it does not take the packet.
  abbrev pub Ignored : PacketDecoder → Type 0
  Ignored e = (text_eq e.id fallback.id ≡ true) ⊎ (accepts e packet ≡ false)

  abbrev First : List PacketDecoder → PacketDecoder → Type 0
  First xs d =
      (Among d xs
        × (accepts d packet ≡ true)
        × All (λ e. (accepts e packet ≡ false) ⊎ Outranks d e) xs)
      ⊎ ((d ≡ fallback) × All (λ e. accepts e packet ≡ false) xs)

  First-cons :
      (x : PacketDecoder) (xs : List PacketDecoder) (d : PacketDecoder) (b : Bool)
      → accepts x packet ≡ b
      → All (Outranks x) xs
      → First xs d
      → First (x ∷ xs) (if b then x else d)
  First-cons x xs d true e o f =
      inl (inl refl, e, (inr (at_most_refl x.priority), All-imp xs (λ y k. inr k) o))
  First-cons x xs d false e o (inl (m, a, r)) = inl (inr m, a, (inl e, r))
  First-cons x xs d false e o (inr (q, r)) = inr (q, (e, r))

  first_decoder-First :
      (xs : List PacketDecoder) → Sorted xs → First xs (first_decoder xs fallback packet)
  unfolding first_decoder
  first_decoder-First [] h = inr (refl, tt)
  first_decoder-First (x ∷ xs) h =
      First-cons x xs _ (accepts x packet) refl h.0 (first_decoder-First xs h.1)

  same :
      {P : Type 0} (e : PacketDecoder)
      → (not (text_eq e.id fallback.id) ≡ false) ⊎ ((accepts e packet ≡ false) ⊎ P)
      → Ignored e ⊎ P
  same e (inl i) = inl (inl (ground arith))
  same e (inr (inl a)) = inl (inr a)
  same e (inr (inr p)) = inr p

  -- What the registry picks: a decoder of the list that takes the packet, and has the highest
  -- priority among those that do; or the fallback, when none does.
  abbrev pub IsChoice : List PacketDecoder → PacketDecoder → Type 0
  IsChoice decoders d =
      (Among d decoders
        × (accepts d packet ≡ true)
        × All (λ e. Ignored e ⊎ (at_most e.priority d.priority ≡ true)) decoders)
      ⊎ ((d ≡ fallback) × All Ignored decoders)

  -- The registry picks a decoder of its list that takes the packet, such that each decoder of higher
  -- priority does not take it or has the fallback's id; or the fallback, when there is none.
  pub find_decoder-IsChoice :
      (decoders : List PacketDecoder)
      → IsChoice decoders (find_decoder (create_decoder_registry decoders fallback) packet)
  unfolding find_decoder create_decoder_registry
  find_decoder-IsChoice decoders =
      let kept : PacketDecoder → Bool = λ e. not (text_eq e.id fallback.id) in
      let others = filter kept decoders in
      elim (first_decoder-First (sort_decoders others) (sort-Sorted others)) [
        | inl (m, a, o) ↦ inl (
          Among-of_filter _ kept decoders (Among-of_sort _ others m),
          a,
          All-imp decoders (λ e. same e) (All-of_filter _ kept decoders (All-of_sort _ others o)),
        )
        | inr (q, o) ↦ inr (
          q,
          All-imp decoders (λ e i. elim i [ inl j ↦ inl (ground arith) | inr j ↦ inr j ])
              (All-of_filter _ kept decoders (All-of_sort _ others o)),
        )
      ]
