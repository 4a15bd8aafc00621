-- ===== src/ConnectionStore/Consistency/Reachable.antt =====
-- Every operation of apps/desktop/src/store/connection-store.ts and every event of a socket keeps
-- a consistent state, so that every state that is reached is one.
use socketlens.Common.{
  ℕ, Bool, or_some, arith, ◌≡◌, inl, inr, List, [], ◌∷◌, Option, none, some, Text, All,
  Option-cases,
}
use socketlens.Packet.{Stamp}
use socketlens.Platform.{Platform}
use socketlens.Connection.{Connection, ConnectionStatus, validate_web_socket_url}
use socketlens.ConnectionStore.{ReadyState, Handlers, Settings, World, initial_connection}
use socketlens.ConnectionStore.Sockets.{read}
use socketlens.ConnectionStore.Connections.{
  find_connection, resolve_connection_endpoint, get_connection_environment,
}
use socketlens.ConnectionStore.Connect.{no_input, template_of}
use socketlens.ConnectionStore.Saved.{
  SaveConnectionInput, only_active, truthy_or, register_connection, remove_connection,
  select_connection, set_connection_status, set_endpoint_url, clear_connection_history, fail_save,
  commit_save, save_connection,
}
use socketlens.ConnectionStore.Calls.{Call, becomes, dispatch, step, run}
use socketlens.ConnectionStore.Events.{on_open, on_close, on_error, message_failed}
use socketlens.ConnectionStore.Listing.{
  IsListing, KeepsIds, IsListing-filter, upsert-IsListing, patch-IsListing,
}
use socketlens.ConnectionStore.Consistency.{
  IsConsistent, IsLive, IsConsistent-≡, validation-cases, resolution-cases,
}
use socketlens.ConnectionStore.Consistency.Connecting.{IsConsistent-connect}
use socketlens.ConnectionStore.Consistency.Handling.{
  IsConsistent-on_open, IsConsistent-on_close, IsConsistent-on_error,
  IsConsistent-message_normalized,
}
use socketlens.ConnectionStore.Consistency.Commanding.{
  IsConsistent-disconnect, IsConsistent-dispose, IsConsistent-reconnect, IsConsistent-send_message,
}

-- The patch of `setConnectionStatus` gives no connection another id.
abbrev pub IsTame : Call → Type 0
IsTame (Call.sets_status id status patch at) = KeepsIds patch
IsTame _ = Unit

only_active-IsListing :
    (id : Option Text) (cs : List Connection) → IsListing cs → IsListing (only_active id cs)
only_active-IsListing none cs h = record { distinct = tt; bounded = omega arith }
only_active-IsListing (some []) cs h = record { distinct = tt; bounded = omega arith }
only_active-IsListing (some (c ∷ id)) cs h = IsListing-filter _ cs h

IsConsistent-select_connection :
    (id : Text) (w : World)
    → IsConsistent w.connection
    → IsConsistent (select_connection id w).connection
unfolding select_connection
IsConsistent-select_connection id w h =
    elim (Option-cases (find_connection w.connection.connections id)) [
      | inl e ↦ rw (e, select_connection) h
      | inr (c, e) ↦
          rw (e, select_connection)
            (record { listing = h.listing; backed = h.backed; live = h.live })
    ]

module _ (π : Platform) (settings : Settings) where
  truthy_or-IsLive :
      (id : Option Text) (status : ConnectionStatus) (b : Bool)
      → IsLive status b
      → IsLive (truthy_or id status ConnectionStatus.idle) b
  truthy_or-IsLive none status b h = tt
  truthy_or-IsLive (some []) status b h = tt
  truthy_or-IsLive (some (c ∷ id)) status b h = h

  IsConsistent-save_connection :
      (stamps : ℕ → Stamp) (input : SaveConnectionInput) (w : World)
      → IsConsistent w.connection
      → IsConsistent (save_connection π settings stamps input w).0.connection
  unfolding save_connection commit_save fail_save
  IsConsistent-save_connection stamps input w h =
      elim (resolution-cases (
        resolve_connection_endpoint π
          (or_some input.endpoint_template (template_of input.endpoint_url)) input.endpoint_url
          (get_connection_environment settings input.environment_id))) [
            | inl (message, technical_message, e) ↦
                rw (e, save_connection)
                  (record { listing = h.listing; backed = h.backed; live = tt })
            | inr (endpoint, e) ↦ elim (validation-cases (validate_web_socket_url π endpoint)) [
              | inl (message, f) ↦
                  rw (e, f, save_connection)
                    (record { listing = h.listing; backed = h.backed; live = tt })
              | inr (url, f) ↦
                  rw (e, f, save_connection)
                    (record {
                      listing = upsert-IsListing _ _ h.listing;
                      backed = h.backed;
                      live =
                          truthy_or-IsLive w.connection.active_connection_id w.connection.status
                            w.connection.is_connected h.live;
                    })
            ]
          ]

  dispatch-IsConsistent :
      (n : ℕ) (handler : Handlers → World → World) (w : World)
      → IsConsistent w.connection
      → ((k : Handlers) → IsConsistent (handler k w).connection)
      → IsConsistent (dispatch π settings n handler w).connection
  dispatch-IsConsistent n handler w h handled = elim (Option-cases (read w n).handlers) [
    | inl e ↦ rw (e, dispatch) h
    | inr (k, e) ↦ rw (e, dispatch) (handled k)
  ]

  -- A step of a tame call from a consistent state ends in one: at most 20 connections are listed,
  -- with distinct ids, the store counts as connected only with a socket and a session, and its
  -- status is `connected` only if it does.
  pub step-IsConsistent :
      (stamps : ℕ → Stamp) (call : Call) (w : World)
      → IsTame call
      → IsConsistent w.connection
      → IsConsistent (step π settings stamps call w).connection
  unfolding step register_connection remove_connection set_connection_status set_endpoint_url
      clear_connection_history message_failed
  step-IsConsistent stamps (Call.connects input) w tame h =
      IsConsistent-connect π settings stamps input w h
  step-IsConsistent stamps Call.disconnects w tame h = IsConsistent-disconnect π settings stamps w h
  step-IsConsistent stamps (Call.disposes reason) w tame h =
      IsConsistent-dispose π settings stamps reason w h
  step-IsConsistent stamps (Call.reconnects id) w tame h =
      IsConsistent-reconnect π settings stamps id w h
  step-IsConsistent stamps (Call.resumes id) w tame h =
      IsConsistent-connect π settings stamps (record no_input { connection_id = some id }) w h
  step-IsConsistent stamps (Call.sends thrown payload options) w tame h =
      IsConsistent-send_message π settings stamps thrown payload options w h
  step-IsConsistent stamps (Call.registers connection) w tame h = record {
    listing = upsert-IsListing _ _ h.listing;
    backed = h.backed;
    live = h.live;
  }
  step-IsConsistent stamps (Call.removes id) w tame h = record {
    listing = IsListing-filter _ _ h.listing;
    backed = h.backed;
    live = h.live;
  }
  step-IsConsistent stamps (Call.saves input) w tame h =
      IsConsistent-save_connection stamps input w h
  step-IsConsistent stamps (Call.selects id) w tame h = IsConsistent-select_connection id w h
  step-IsConsistent stamps (Call.sets_status id status patch at) w tame h = record {
    listing = patch-IsListing _ id _ tame h.listing;
    backed = h.backed;
    live = h.live;
  }
  step-IsConsistent stamps (Call.sets_url url) w tame h = record {
    listing = h.listing;
    backed = h.backed;
    live = h.live;
  }
  step-IsConsistent stamps Call.clears w tame h = record {
    listing = only_active-IsListing w.connection.active_connection_id _ h.listing;
    backed = h.backed;
    live = h.live;
  }
  step-IsConsistent stamps (Call.opens n) w tame h =
      dispatch-IsConsistent n (on_open π settings stamps n) (becomes n ReadyState.open_ w) h
        (λ k. IsConsistent-on_open π settings stamps n k (becomes n ReadyState.open_ w) h)
  step-IsConsistent stamps (Call.closes n event) w tame h =
      dispatch-IsConsistent n (λ k. on_close π settings stamps n k event)
        (becomes n ReadyState.closed w) h
        (λ k. IsConsistent-on_close π settings stamps n k event (becomes n ReadyState.closed w) h)
  step-IsConsistent stamps (Call.errors n) w tame h =
      dispatch-IsConsistent n (on_error π settings stamps n) w h
        (λ k. IsConsistent-on_error π settings stamps n k w h)
  step-IsConsistent stamps (Call.frames n k payload kind) w tame h =
      IsConsistent-message_normalized π settings stamps n k payload kind w h
  step-IsConsistent stamps (Call.frame_fails k error) w tame h = h

  -- After any sequence of calls and events from the initial state, in which no patch gives a
  -- connection another id: at most 20 connections are listed, with distinct ids; the store counts
  -- as connected only with a socket and a session; and its status is `connected` only if it counts
  -- as connected.
  pub run-IsConsistent :
      (calls : List ((ℕ → Stamp) × Call)) (w : World)
      → w.connection ≡ initial_connection
      → All (λ call. IsTame call.1) calls
      → IsConsistent (run π settings calls w).connection
  unfolding run
  run-IsConsistent calls w start tame = go calls w tame (
      IsConsistent-≡ start (record {
        listing = record { distinct = tt; bounded = omega arith };
        backed = tt;
        live = tt;
      }))
    where
      go :
          (calls : List ((ℕ → Stamp) × Call)) (w : World)
          → All (λ call. IsTame call.1) calls
          → IsConsistent w.connection
          → IsConsistent (run π settings calls w).connection
      go [] w tame h = h
      go ((stamps, call) ∷ calls) w tame h =
          go calls (step π settings stamps call w) tame.1 (step-IsConsistent stamps call w tame.0 h)
