-- ===== src/ConnectionStore/Storing.antt =====
-- What apps/desktop/src/store/connection-store.ts keeps in local storage and reads back:
-- `partialize`, `merge` and `sanitizeConnection`.
use socketlens.Common.{
  ◌≡◌, refl, ap, ◌∙◌, inl, inr, List, [], ◌∷◌, map, false, not, filter, All, Bool-cases,
}
use socketlens.Connection.{Connection, ConnectionStatus}
use socketlens.ConnectionStore.{ConnectionStore, Settings}
use socketlens.ConnectionStore.Connections.{sanitize_connection}
use socketlens.ConnectionStore.Saved.{is_demo, partialize, merge_persisted}

-- A status that a stored connection may have.
abbrev pub IsAtRest : ConnectionStatus → Type 0
IsAtRest ConnectionStatus.connected = ⊥
IsAtRest ConnectionStatus.connecting = ⊥
IsAtRest _ = Unit

pub record IsStored (c : Connection) : Type 0 where
  pub at_rest : IsAtRest c.status
  pub websocket : is_demo c.transport ≡ false

sanitize-IsStored :
    (c : Connection) (status : ConnectionStatus)
    → c.status ≡ status
    → is_demo c.transport ≡ false
    → IsStored (sanitize_connection c)
unfolding sanitize_connection
sanitize-IsStored c ConnectionStatus.idle e h = record {
  at_rest = rw (e, IsAtRest) tt;
  websocket = h;
}
sanitize-IsStored c ConnectionStatus.connecting e h = record {
  at_rest = rw (e, IsAtRest) tt;
  websocket = h;
}
sanitize-IsStored c ConnectionStatus.connected e h = record {
  at_rest = rw (e, IsAtRest) tt;
  websocket = h;
}
sanitize-IsStored c ConnectionStatus.disconnected e h = record {
  at_rest = rw (e, IsAtRest) tt;
  websocket = h;
}
sanitize-IsStored c ConnectionStatus.error e h = record {
  at_rest = rw (e, IsAtRest) tt;
  websocket = h;
}

-- Sanitizing twice is sanitizing once.
pub sanitize-sanitize :
    (c : Connection) → sanitize_connection (sanitize_connection c) ≡ sanitize_connection c
unfolding sanitize_connection
sanitize-sanitize c = go c.status refl
  where
    go :
        (status : ConnectionStatus)
        → c.status ≡ status
        → sanitize_connection (sanitize_connection c) ≡ sanitize_connection c
    go ConnectionStatus.idle e = rw e
    go ConnectionStatus.connecting e = rw e
    go ConnectionStatus.connected e = rw e
    go ConnectionStatus.disconnected e = rw e
    go ConnectionStatus.error e = rw e

websockets : List Connection → List Connection
websockets cs = map sanitize_connection (filter (λ (c : Connection). not (is_demo c.transport)) cs)

websockets-IsStored : (cs : List Connection) → All IsStored (websockets cs)
unfolding websockets
websockets-IsStored [] = tt
websockets-IsStored (c ∷ cs) = elim (Bool-cases (is_demo c.transport)) [
  | inl e ↦ rw e (websockets-IsStored cs)
  | inr e ↦ rw e (sanitize-IsStored c c.status refl e, websockets-IsStored cs)
]

websockets-websockets :
    (cs : List Connection) → websockets (map sanitize_connection (websockets cs)) ≡ websockets cs
unfolding websockets sanitize_connection
websockets-websockets [] = refl
websockets-websockets (c ∷ cs) = elim (Bool-cases (is_demo c.transport)) [
  | inl e ↦ rw e (websockets-websockets cs)
  | inr e ↦ rw e (
      rw e (
        ap (λ d. d ∷ websockets (map sanitize_connection (websockets cs)))
          (ap sanitize_connection (sanitize-sanitize c) ∙ sanitize-sanitize c)
        ∙ ap (λ ds. sanitize_connection c ∷ ds) (websockets-websockets cs)))
]

-- Whatever the state, the connections that are written are at rest and none is the demo's, none is
-- written if the settings say so, and what is read back is written again as it is.
pub partialize-merge :
    (settings : Settings) (s current : ConnectionStore)
    → All IsStored (partialize settings s).connections
      × (settings.persist_recent_connections ≡ false → (partialize settings s).connections ≡ [])
      × (partialize settings (merge_persisted (partialize settings s) current)
          ≡ partialize settings s)
unfolding partialize merge_persisted websockets
partialize-merge settings s current = elim (Bool-cases settings.persist_recent_connections) [
  | inl e ↦ rw e (
    websockets-IsStored s.connections,
    (λ f. cc),
    ap
        (λ cs. record {
          connections = cs;
          endpoint_url = s.endpoint_url;
          selected_connection_id = s.selected_connection_id;
        })
        (websockets-websockets s.connections),
  )
  | inr e ↦ rw e (tt, (λ f. refl), refl)
]
