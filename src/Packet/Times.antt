-- ===== src/Packet/Times.antt =====
-- The timestamps of packets in apps/desktop/src/models/packet.ts, for what is shown of several.
use socketlens.Common.{◌≡◌, sym, ◌⊎◌, inl, inr, ℕ, List, [], ◌∷◌, Bool, true, false, if◌then◌else◌}
use socketlens.Packet.{Packet}

-- A packet of the list has the time.
abbrev pub HasTime : ℕ → List Packet → Type 0
HasTime time [] = ⊥
HasTime time (p ∷ ps) = (p.timestamp ≡ time) ⊎ HasTime time ps

-- A search that goes on from one of two times ends at the one it began with, or at a packet's.
pub HasTime-choice :
    (b : Bool) (start time : ℕ) (p : Packet) (ps : List Packet)
    → (time ≡ (if b then start else p.timestamp)) ⊎ HasTime time ps
    → (time ≡ start) ⊎ HasTime time (p ∷ ps)
HasTime-choice b start time p ps (inr later) = inr (inr later)
HasTime-choice true start time p ps (inl e) = inl e
HasTime-choice false start time p ps (inl e) = inr (inl (sym e))

-- The same, where the test chooses the packet's time.
pub HasTime-choice_of :
    (b : Bool) (start time : ℕ) (p : Packet) (ps : List Packet)
    → (time ≡ (if b then p.timestamp else start)) ⊎ HasTime time ps
    → (time ≡ start) ⊎ HasTime time (p ∷ ps)
HasTime-choice_of b start time p ps (inr later) = inr (inr later)
HasTime-choice_of true start time p ps (inl e) = inr (inl (sym e))
HasTime-choice_of false start time p ps (inl e) = inl e

pub HasTime-first :
    (time : ℕ) (p : Packet) (ps : List Packet)
    → (time ≡ p.timestamp) ⊎ HasTime time ps
    → HasTime time (p ∷ ps)
HasTime-first time p ps (inl e) = inl (sym e)
HasTime-first time p ps (inr later) = inr later
