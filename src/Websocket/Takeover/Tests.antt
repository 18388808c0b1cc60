-- ===== src/Websocket/Takeover/Tests.antt =====
-- Upgrade of nbhttp/websocket/upgrader.go at concrete connections.
use nbio.Base.{◌≡◌, refl, true, false, [], ◌∷◌, none, codes}
use nbio.Websocket.Upgrade.{accepted}
use nbio.Websocket.Takeover.{World, Settings, empty, polled, tcp, bool, upgrade}
use nbio.Websocket.Takeover.Settled.{Settled, upgrade-Settled}

-- A connection of net/http's server.
abbrev plain : World
plain = record {
  is_hijacker = true;
  by_parser = false;
  conn_parser = false;
  response_parser = none;
  under = tcp;
  hijack_error = none;
  nb_conn_error = none;
  add_error = none;
  write_error = none;
}

abbrev settings : Settings
settings = record {
  transfer_conn_to_poller = false;
  async_write = true;
  handle_read = true;
  release_payload = false;
  engine_releases = true;
  parser_engine_releases = true;
  keepalive_time = 120;
  has_open_handler = true;
  one_shot = false;
}

upgrade-Settled_example :
    Settled
      (accepted (codes "k") [] false)
      (upgrade plain settings (bool true ∷ []) (accepted (codes "k") [] false))
upgrade-Settled_example =
    upgrade-Settled plain settings (bool true ∷ []) (accepted (codes "k") [] false) tt

-- On a connection of the poller that has no session, Upgrade returns neither a connection nor an error.
nothing_returned :
    let w : World = record plain { under = polled empty } in
    ((upgrade w settings [] (accepted (codes "k") [] false)).conn ≡ none)
    × ((upgrade w settings [] (accepted (codes "k") [] false)).error ≡ none)
unfolding upgrade
nothing_returned = (refl, refl)

-- With the argument the connection goes to the poller, and without it a goroutine reads it.
transfers :
    (upgrade plain settings (bool true ∷ []) (accepted (codes "k") [] false)).effects.added ≡ true
unfolding upgrade
transfers = refl

stays_outside : (upgrade plain settings [] (accepted (codes "k") [] false)).effects.added ≡ false
unfolding upgrade
stays_outside = refl
