-- ===== src/Engine/Gproxy/Handlers.antt =====
-- What a reconnect request gets, and whom the reaper drops.
use mathlib.Core.Option
use ghostrs.Base.{
  ℕ, ◌+◌, ◌-◌, ◌^◌, ◌≤◌, ◌<◌, ◌≡◌, refl, ap, ◌∙◌, ◌⊎◌, inl, inr, true, false, not, ◌||◌, List, [],
  ◌∷◌, ◌++◌, Option, none, some, arith, ◌==◌, if◌then◌else◌, length, drop, append_assoc, append-nil,
  length-append, length-drop, Option-cases, Bool-cases,
}
use ghostrs.Protocol.Buffer.{Bytes}
use ghostrs.Protocol.Gps.{ReconnectReq, reconnect_ok}
use ghostrs.Engine.Link.{PlayerLink, try_send, delivered}
use ghostrs.Engine.Players.{GProxyBuffer, Player, PlayerTable, by_pid, with_pid}
use ghostrs.Engine.Players.Table.{by_pid-with_pid}
use ghostrs.Engine.Gproxy.{new, push_all}
use ghostrs.Engine.Gproxy.Replay.{replay_of_log}
use ghostrs.Engine.Gproxy.Reconnect.{
  send, send_replay, replay_of, received_of, reattached, replay_to, reconnect_player,
  handle_gps_reconnect,
}

try_send_room :
    (link : PlayerLink) (bytes : Bytes)
    → link.is_closed ≡ false
    → length link.queue < link.capacity
    → try_send link bytes ≡ (delivered, record link { queue = link.queue ++ bytes ∷ [] })
unfolding try_send
try_send_room link bytes o r = ground arith

send_replay_next :
    (link link' : PlayerLink) (p : Bytes) (ps : List Bytes)
    → try_send link p ≡ (delivered, link')
    → send_replay link (p ∷ ps) ≡ send_replay link' ps
unfolding send_replay
send_replay_next link link' p ps e = ground (arith, ap (λ r. r.0) e, ap (λ r. r.1) e)

send_replay_room :
    (link : PlayerLink) (ps : List Bytes)
    → link.is_closed ≡ false
    → length link.queue + length ps ≤ link.capacity
    → send_replay link ps ≡ record link { queue = link.queue ++ ps }
unfolding send_replay
send_replay_room link [] o r = rw append-nil
send_replay_room link (p ∷ ps) o r =
    send_replay_next link (record link { queue = link.queue ++ p ∷ [] }) p ps
      (try_send_room link p o (omega (arith, r)))
    ∙ send_replay_room (record link { queue = link.queue ++ p ∷ [] }) ps o
        (omega (arith, r, length-append link.queue (p ∷ [])))
    ∙ rw (append_assoc link.queue (p ∷ []) ps)

-- A request is let back in only if it names a seated GProxy player and its key, and asks for packets
-- that the buffer still holds; a request that is not let back in changes no player.
pub reconnect_guards :
    (players : PlayerTable) (conn_id : ℕ) (req : ReconnectReq) (link : PlayerLink)
    → let r = handle_gps_reconnect players conn_id req link in
      ((r.back ≡ false) × (r.players ≡ players))
      ⊎ ((r.back ≡ true)
          × ((p : Player) × (by_pid players req.pid ≡ some p)
              × (p.gproxy ≡ true)
              × (p.reconnect_key ≡ req.reconnect_key)
              × ((replay : List Bytes) × (replay_of p.gproxy_buffer req.last_packet
                    ≡ some replay))))
unfolding handle_gps_reconnect
reconnect_guards players conn_id req link = elim (Option-cases (by_pid players req.pid)) [
  | inl gone ↦ rw gone (inl (refl, refl))
  | inr (p, here) ↦ rw here (inside p (replay_of p.gproxy_buffer req.last_packet) refl)
]
  where
    inside :
        (p : Player) (o : Option (List Bytes))
        → replay_of p.gproxy_buffer req.last_packet ≡ o
        → let r = reconnect_player players conn_id req link (some p) in
          ((r.back ≡ false) × (r.players ≡ players))
          ⊎ ((r.back ≡ true)
              × ((p' : Player) × (some p ≡ some p')
                  × (p'.gproxy ≡ true)
                  × (p'.reconnect_key ≡ req.reconnect_key)
                  × ((replay : List Bytes) × (replay_of p'.gproxy_buffer req.last_packet
                        ≡ some replay))))
    inside p o q = elim (Bool-cases (not p.gproxy || not (p.reconnect_key == req.reconnect_key))) [
      | inl bad ↦ rw bad (inl (refl, refl))
      | inr good ↦ rw good (asked p o q (ground arith) (ground arith))
    ]
      where
        asked :
            (p : Player) (o : Option (List Bytes))
            → replay_of p.gproxy_buffer req.last_packet ≡ o
            → p.gproxy ≡ true
            → p.reconnect_key ≡ req.reconnect_key
            → let r =
                replay_to players conn_id req link p (replay_of p.gproxy_buffer req.last_packet) in
              ((r.back ≡ false) × (r.players ≡ players))
              ⊎ ((r.back ≡ true)
                  × ((p' : Player) × (some p ≡ some p')
                      × (p'.gproxy ≡ true)
                      × (p'.reconnect_key ≡ req.reconnect_key)
                      × ((replay : List Bytes) × (replay_of p'.gproxy_buffer req.last_packet
                            ≡ some replay))))
        asked p none q g k = rw q (inl (refl, refl))
        asked p (some replay) q g k = rw q (inr (refl, (p, refl, g, k, (replay, q))))

-- A GProxy player with its buffer, filled by `log`, asks for what follows packet `last`.
pub record Returns (c : ℕ) (log : List Bytes) (players : PlayerTable) (req : ReconnectReq)
    (link : PlayerLink) (p : Player) : Type 0 where
  pub seated : by_pid players req.pid ≡ some p
  pub gproxy : p.gproxy ≡ true
  pub key : p.reconnect_key ≡ req.reconnect_key
  pub buffered : p.gproxy_buffer ≡ some (push_all (new c) log)
  pub bounded : 0 < c
  pub short : length log < 2 ^ 32
  pub held : length log ≤ req.last_packet + c
  pub sent : req.last_packet ≤ length log
  pub link_open : link.is_closed ≡ false
  pub room : length link.queue + 1 + (length log - req.last_packet) ≤ link.capacity

reconnect_player_back :
    (players : PlayerTable) (conn_id : ℕ) (req : ReconnectReq) (link final : PlayerLink)
    (p : Player) (replay : List Bytes)
    → p.gproxy ≡ true
    → p.reconnect_key ≡ req.reconnect_key
    → replay_of p.gproxy_buffer req.last_packet ≡ some replay
    → send_replay (send link (reconnect_ok (received_of p.gproxy_buffer))) replay ≡ final
    → reconnect_player players conn_id req link (some p) ≡ record {
      back = true;
      players = with_pid players req.pid (reattached conn_id final);
      link = final;
    }
reconnect_player_back players conn_id req link final p replay g k r f =
    ground (arith, g, k, ap (replay_to players conn_id req link p) r, f)

-- A seated GProxy player, whose buffer was filled by `log` and still holds what the client asks for,
-- is let back with its key if the new link is open and has room: the link carries the acknowledgement
-- and then every packet that the client missed, in order, and the player holds the new connection and
-- is neither gone nor disconnected.
pub reconnect_replays :
    (c conn_id : ℕ) (log : List Bytes) (players : PlayerTable) (req : ReconnectReq)
    (link : PlayerLink) (p : Player) (ack : Bytes)
    → Returns c log players req link p
    → reconnect_ok (length log) ≡ some ack
    → let r = handle_gps_reconnect players conn_id req link in
      (r.back ≡ true)
      × (r.link ≡ record link { queue = (link.queue ++ ack ∷ []) ++ drop req.last_packet log })
      × (by_pid r.players req.pid ≡ some (reattached conn_id r.link p))
unfolding handle_gps_reconnect
reconnect_replays c conn_id log players req link p ack v e =
    rw (v.seated, back) (refl, refl, ground (arith, v.seated, kept))
  where
    b : GProxyBuffer
    b = push_all (new c) log

    received : received_of p.gproxy_buffer ≡ length log
    received = ap received_of v.buffered ∙ (replay_of_log c req.last_packet log v.bounded v.short).0

    replay : replay_of p.gproxy_buffer req.last_packet ≡ some (drop req.last_packet log)
    replay =
        ap (λ o. replay_of o req.last_packet) v.buffered
        ∙ ground (arith, (replay_of_log c req.last_packet log v.bounded v.short).1, v.held, v.sent)

    acked : PlayerLink
    acked = record link { queue = link.queue ++ ack ∷ [] }

    final : PlayerLink
    final = record link { queue = (link.queue ++ ack ∷ []) ++ drop req.last_packet log }

    first : send link (reconnect_ok (received_of p.gproxy_buffer)) ≡ acked
    first =
        ap (λ n. send link (reconnect_ok n)) received
        ∙ ap (send link) e
        ∙ ap (λ r. r.1) (try_send_room link ack v.link_open (omega (arith, v.room)))

    rest : send_replay acked (drop req.last_packet log) ≡ final
    rest = send_replay_room acked (drop req.last_packet log) v.link_open (
        omega (
          arith,
          v.room,
          v.sent,
          length-append link.queue (ack ∷ []),
          length-drop req.last_packet log,
        ))

    back : reconnect_player players conn_id req link (some p) ≡ record {
      back = true;
      players = with_pid players req.pid (reattached conn_id final);
      link = final;
    }
    back =
        reconnect_player_back players conn_id req link final p (drop req.last_packet log) v.gproxy
          v.key replay (ap (λ l. send_replay l (drop req.last_packet log)) first ∙ rest)

    kept : by_pid (with_pid players req.pid (reattached conn_id final)) req.pid ≡ (
        if req.pid == req.pid
        then Option.map (reattached conn_id final) (by_pid players req.pid)
        else by_pid players req.pid)
    kept = by_pid-with_pid players req.pid req.pid (reattached conn_id final) (λ q. refl)
