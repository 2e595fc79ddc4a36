-- ===== src/Engine/Gproxy/Reconnect.antt =====
-- `GameState::handle_gps_reconnect` and `reap_gproxy_timeouts` of gproxy.rs, over the player table.
use ghostrs.Base.{
  ℕ, ◌-◌, ◌/◌, Bool, true, false, ◌||◌, not, List, [], ◌∷◌, ◌++◌, Option, none, some, leb, ◌==◌,
  if◌then◌else◌, text,
}
use ghostrs.Protocol.Buffer.{Bytes}
use ghostrs.Protocol.Gps.{ReconnectReq, reconnect_ok, reject}
use ghostrs.Engine.Link.{PlayerLink, delivered, failed, try_send}
use ghostrs.Engine.Players.{GProxyBuffer, Player, PlayerTable, by_pid, with_pid}
use ghostrs.Engine.Gproxy.{replay_from, total_sent}

abbrev pub not_found : ℕ
not_found = 1

abbrev pub invalid_key : ℕ
invalid_key = 2

-- `let _ = link.try_send(message)`. The message of a panicking `expect` is never sent.
abbrev pub send : PlayerLink → Option Bytes → PlayerLink
send link none = link
send link (some bytes) = (try_send link bytes).1

-- `for packet in replay { if try_send(packet).is_err() { break } }`.
unfoldable pub send_replay : PlayerLink → List Bytes → PlayerLink
send_replay link [] = link
send_replay link (p ∷ ps) = elim (try_send link p).0 [
  | delivered ↦ send_replay (try_send link p).1 ps
  | failed e ↦ link
]

-- Whether the client is back, the players, and the link, which the player holds if it is back.
pub record Reconnected : Type 0 where
  pub back : Bool
  pub players : PlayerTable
  pub link : PlayerLink

abbrev pub refuse : PlayerTable → PlayerLink → ℕ → Reconnected
refuse players link reason = record {
  back = false;
  players = players;
  link = send link (reject reason);
}

abbrev pub replay_of : Option GProxyBuffer → ℕ → Option (List Bytes)
replay_of none last = none
replay_of (some b) last = replay_from b last

abbrev pub received_of : Option GProxyBuffer → ℕ
received_of none = 0
received_of (some b) = total_sent b

-- The player with its new connection.
abbrev pub reattached : ℕ → PlayerLink → Player → Player
reattached conn_id link p = record p {
  conn_id = conn_id;
  link = link;
  disconnected_since = none;
  left = none;
}

abbrev pub replay_to :
    PlayerTable → ℕ → ReconnectReq → PlayerLink → Player → Option (List Bytes) → Reconnected
replay_to players conn_id req link p none = refuse players link not_found
replay_to players conn_id req link p (some replay) =
    let link' = send_replay (send link (reconnect_ok (received_of p.gproxy_buffer))) replay in
    record {
      back = true;
      players = with_pid players req.pid (reattached conn_id link');
      link = link';
    }

abbrev pub reconnect_player :
    PlayerTable → ℕ → ReconnectReq → PlayerLink → Option Player → Reconnected
reconnect_player players conn_id req link none = refuse players link not_found
reconnect_player players conn_id req link (some p) =
    if not p.gproxy || not (p.reconnect_key == req.reconnect_key)
    then refuse players link invalid_key
    else replay_to players conn_id req link p (replay_of p.gproxy_buffer req.last_packet)

unfoldable pub handle_gps_reconnect : PlayerTable → ℕ → ReconnectReq → PlayerLink → Reconnected
handle_gps_reconnect players conn_id req link =
    reconnect_player players conn_id req link (by_pid players req.pid)

-- What `reap_gproxy_timeouts` tells the players; the code renders it as chat text.
pub data Notice : Type 0 where
  lost_connection : Bytes → Notice
  waiting_seconds : ℕ → Notice

abbrev pub is_stale : ℕ → Option ℕ → Bool
is_stale now none = false
is_stale now (some t) = leb 20000 (now - t)

abbrev pub timed_out : Player → Player
timed_out p = record p {
  left = some (text "failed to reconnect in time");
  left_code = 100;
  disconnected_since = none;
}

-- One player in the loop, at the time `now`: 100 is PLAYERLEAVE_GPROXY. Times are milliseconds, and
-- the notice counts whole seconds.
abbrev pub reap_since : ℕ → ℕ → Player → Option ℕ → Player × List Notice
reap_since now grace p none = (p, [])
reap_since now grace p (some since) =
    let elapsed = now - since in
    if leb grace elapsed
    then (timed_out p, [])
    else if not p.gproxy_disconnect_notice_sent
    then (
      record p { gproxy_disconnect_notice_sent = true; last_gproxy_wait_notice = some now },
      lost_connection p.name ∷ [],
    )
    else if is_stale now p.last_gproxy_wait_notice
    then (
      record p { last_gproxy_wait_notice = some now },
      waiting_seconds ((grace - elapsed) / 1000) ∷ [],
    )
    else (p, [])

unfoldable pub reap_player : ℕ → ℕ → Player → Player × List Notice
reap_player now grace p = reap_since now grace p p.disconnected_since

unfoldable pub reap_gproxy_timeouts : ℕ → ℕ → PlayerTable → PlayerTable × List Notice
reap_gproxy_timeouts now grace [] = ([], [])
reap_gproxy_timeouts now grace (p ∷ players) =
    let (p', notices) = reap_player now grace p in
    let (players', more) = reap_gproxy_timeouts now grace players in
    (p' ∷ players', notices ++ more)
