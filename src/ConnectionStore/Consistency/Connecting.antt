-- ===== src/ConnectionStore/Consistency/Connecting.antt =====
-- `connect` of apps/desktop/src/store/connection-store.ts keeps a consistent state.
use socketlens.Common.{Option-cases, ℕ, refl, inl, inr, List, Option, none, some, Text}
use socketlens.Packet.{Stamp}
use socketlens.Platform.{Platform}
use socketlens.Connection.{Connection, validate_web_socket_url}
use socketlens.ConnectionStore.{Settings, World}
use socketlens.ConnectionStore.Sockets.{is_live_socket}
use socketlens.ConnectionStore.Connections.{resolve_connection_endpoint}
use socketlens.ConnectionStore.Connect.{
  Candidate, ConnectInput, connect_candidate, drop_socket, patch_target, fail_connect, open_socket,
  connect_to, connect_resolved, connect,
}
use socketlens.ConnectionStore.Listing.{IsListing, KeepsIds, upsert-IsListing, patch-IsListing}
use socketlens.ConnectionStore.Consistency.{
  IsConsistent, if-IsConsistent, IsConsistent-cleanup, validation-cases, resolution-cases,
}

patch_target-IsListing :
    (target : Option Connection) (patch : Connection → Connection) (cs : List Connection)
    → KeepsIds patch
    → IsListing cs
    → IsListing (patch_target target patch cs)
patch_target-IsListing none patch cs k h = h
patch_target-IsListing (some target) patch cs k h = patch-IsListing cs target.id patch k h

module _ (π : Platform) (settings : Settings) where
  IsConsistent-open_socket :
      (stamps : ℕ → Stamp) (c : Candidate) (url : Text) (w : World)
      → IsListing w.connection.connections
      → IsConsistent (open_socket π settings stamps c url w).connection
  unfolding open_socket
  IsConsistent-open_socket stamps c url w h = record {
    listing = upsert-IsListing _ _ h;
    backed = tt;
    live = tt;
  }

  IsConsistent-connect_to :
      (stamps : ℕ → Stamp) (c : Candidate) (endpoint : Text) (w : World)
      → IsListing w.connection.connections
      → IsConsistent (connect_to π settings stamps c endpoint w).connection
  unfolding connect_to fail_connect
  IsConsistent-connect_to stamps c endpoint w h =
      elim (validation-cases (validate_web_socket_url π endpoint)) [
        | inl (message, e) ↦
            rw (e, connect_to)
              (record {
                listing = patch_target-IsListing c.target _ _ (λ x. refl) h;
                backed = tt;
                live = tt;
              })
        | inr (url, e) ↦ elim (Option-cases (π.socket_error url)) [
          | inl f ↦ rw (e, f, connect_to) (IsConsistent-open_socket stamps c url w h)
          | inr (thrown, f) ↦
              rw (e, f, connect_to)
                (record {
                  listing = patch_target-IsListing c.target _ _ (λ x. refl) h;
                  backed = tt;
                  live = tt;
                })
        ]
      ]

  drop_socket-IsListing :
      (stamp : Stamp) (socket : Option ℕ) (w : World)
      → IsConsistent w.connection
      → IsListing (drop_socket π settings stamp socket w).connection.connections
  drop_socket-IsListing stamp none w h = h.listing
  drop_socket-IsListing stamp (some n) w h =
      (IsConsistent-cleanup π settings stamp n 1000 w h).listing

  IsConsistent-connect_resolved :
      (stamps : ℕ → Stamp) (c : Candidate) (w : World)
      → IsListing w.connection.connections
      → IsConsistent (connect_resolved π settings stamps c w).connection
  unfolding connect_resolved fail_connect
  IsConsistent-connect_resolved stamps c w h =
      elim (resolution-cases
        (resolve_connection_endpoint π c.endpoint_template c.raw_endpoint c.environment)) [
          | inl (message, technical_message, e) ↦
              rw (e, connect_resolved)
                (record {
                  listing = patch_target-IsListing c.target _ _ (λ x. refl) h;
                  backed = tt;
                  live = tt;
                })
          | inr (endpoint, e) ↦
              rw (e, connect_resolved) (IsConsistent-connect_to stamps c endpoint w h)
        ]

  pub IsConsistent-connect :
      (stamps : ℕ → Stamp) (input : ConnectInput) (w : World)
      → IsConsistent w.connection
      → IsConsistent (connect π settings stamps input w).connection
  unfolding connect
  IsConsistent-connect stamps input w h = if-IsConsistent w.ui.demo_mode.is_active _ _ h (
      if-IsConsistent (is_live_socket w w.connection.socket) _ _ h (
        IsConsistent-connect_resolved stamps (connect_candidate settings w.connection input)
          (drop_socket π settings (stamps 4) w.connection.socket w)
          (drop_socket-IsListing (stamps 4) w.connection.socket w h)))
