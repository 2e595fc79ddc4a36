-- ===== src/Engine/Keeps/Handlers.antt =====
-- The handlers of a connection's frames that neither seat nor unseat anybody.
use ghostrs.Engine.Join.{take_pending}
use ghostrs.Protocol.W3gs.Incoming.{pong_to_host}
use ghostrs.Engine.Rejoin.{without_token}
use ghostrs.Protocol.Frame.{Frame}
use ghostrs.Engine.Link.{PlayerLink}
use ghostrs.Engine.Actor.{
  reconnect_taken, reconnect_in, on_iccup_gps_frame, on_gps_frame, keep_token,
}
use ghostrs.Engine.Gproxy.Reconnect.{replay_of, reconnect_player, replay_to, handle_gps_reconnect}
use ghostrs.Protocol.Gps.{decode_full, decode_reconnect, ReconnectReq}
use ghostrs.Engine.Lag.{kick_all}
use ghostrs.Engine.Transfer.{
  ping_of, is_too_slow, kick_slow, part_not_ok, part_ok, handle_drop_request, handle_pong, pinged,
  handle_map_part_not_ok, handle_map_part_ok,
}
use ghostrs.Engine.Lobby.{close_of, leave_of, handle_conn_closed, hung_up, handle_leave}
use ghostrs.Base.{
  ◌==◌, ◌||◌, not, Option, ℕ, ◌≡◌, refl, inl, inr, List, [], ◌∷◌, none, some, arith, Bool-cases,
}
use ghostrs.Protocol.Error.{Result, ok, err}
use ghostrs.Protocol.W3gs.Incoming.{run}
use ghostrs.Protocol.Buffer.{Bytes}
use ghostrs.Engine.Players.{by_conn, by_pid, record_ping, Player, PlayerTable, with_pid, with_conn}
use ghostrs.Engine.State.{Pending, GameState}
use ghostrs.Engine.Keeps.{if_kept, Keeps, kept, same, and_then, pids}
use ghostrs.Engine.Keeps.{pids-with_pid, pids-with_conn, kick_player-Keeps}

-- A write to one player that keeps its id.
pub at_pid :
    (pid : ℕ) (f : Player → Player) (st : GameState)
    → ((p : Player) → (f p).pid ≡ p.pid)
    → Keeps st (record st { players = with_pid st.players pid f })
at_pid pid f st keep = kept (pids-with_pid pid f st.players keep) refl refl

pub at_conn :
    (conn_id : ℕ) (f : Player → Player) (st : GameState)
    → ((p : Player) → (f p).pid ≡ p.pid)
    → Keeps st (record st { players = with_conn st.players conn_id f })
at_conn conn_id f st keep = kept (pids-with_conn conn_id f st.players keep) refl refl

leave_of-Keeps :
    (o : Option Player) (conn_id reason_code : ℕ) (st : GameState)
    → Keeps st (leave_of o conn_id reason_code st)
leave_of-Keeps none conn_id reason_code st = kept refl refl refl
leave_of-Keeps (some p) conn_id reason_code st = at_conn conn_id _ st (λ p. refl)

pub handle_leave-Keeps :
    (conn_id reason_code : ℕ) (st : GameState) → Keeps st (handle_leave conn_id reason_code st)
unfolding handle_leave
handle_leave-Keeps conn_id reason_code st = leave_of-Keeps _ conn_id reason_code st

hung_up-pid :
    (now : ℕ) (reason : Bytes) (left_code : ℕ) (p : Player)
    → (hung_up now reason left_code p).pid ≡ p.pid
hung_up-pid now reason left_code p = ground arith

close_of-Keeps :
    (o : Option Player) (now conn_id : ℕ) (reason : Bytes) (st : GameState)
    → Keeps st (close_of o now conn_id reason st)
close_of-Keeps none now conn_id reason st = kept refl refl refl
close_of-Keeps (some p) now conn_id reason st =
    at_conn conn_id _ st (λ p. hung_up-pid now reason _ p)

pub handle_conn_closed-Keeps :
    (now conn_id : ℕ) (reason : Bytes) (st : GameState)
    → Keeps st (handle_conn_closed now conn_id reason st)
unfolding handle_conn_closed
handle_conn_closed-Keeps now conn_id reason st =
    let k =
      close_of-Keeps (by_conn st.players conn_id) now conn_id reason
        (record st { pending_full = without_token conn_id st.pending_full }) in
    kept k.seats k.slots k.queued

part_ok-Keeps : (o : Option Player) (r : Result ℕ) (st : GameState) → Keeps st (part_ok o r st)
part_ok-Keeps none r st = same
part_ok-Keeps (some p) (err e) st = same
part_ok-Keeps (some p) (ok acked) st = kept (pids-with_pid p.pid _ st.players (λ p. refl)) refl refl

pub handle_map_part_ok-Keeps :
    (conn_id : ℕ) (payload : Bytes) (st : GameState)
    → Keeps st (handle_map_part_ok conn_id payload st)
unfolding handle_map_part_ok
handle_map_part_ok-Keeps conn_id payload st = part_ok-Keeps _ _ st

part_not_ok-Keeps :
    (o : Option Player) (r : Result ℕ) (st : GameState) → Keeps st (part_not_ok o r st)
part_not_ok-Keeps none r st = same
part_not_ok-Keeps (some p) (err e) st = same
part_not_ok-Keeps (some p) (ok pos) st =
    kept (pids-with_pid p.pid _ st.players (λ p. refl)) refl refl

pub handle_map_part_not_ok-Keeps :
    (conn_id : ℕ) (payload : Bytes) (st : GameState)
    → Keeps st (handle_map_part_not_ok conn_id payload st)
unfolding handle_map_part_not_ok
handle_map_part_not_ok-Keeps conn_id payload st = part_not_ok-Keeps _ _ st

kick_slow-Keeps : (o : Option Player) (st : GameState) → Keeps st (kick_slow o st)
kick_slow-Keeps none st = same
kick_slow-Keeps (some p) st = if_kept (is_too_slow st p) (kick_player-Keeps p.pid _ _ st) same

record_ping-pid : (p : Player) (ping : ℕ) → (record_ping p ping).pid ≡ p.pid
unfolding record_ping
record_ping-pid p ping = refl

pinged-Keeps :
    (now conn_id : ℕ) (r : Result ℕ) (st : GameState) → Keeps st (pinged now conn_id r st)
pinged-Keeps now conn_id (err e) st = same
pinged-Keeps now conn_id (ok pong) st = if_kept (pong == 1) same (
    and_then (at_conn conn_id _ st (λ p. record_ping-pid p (ping_of now pong st)))
      (kick_slow-Keeps _ _))

pub handle_pong-Keeps :
    (now conn_id : ℕ) (payload : Bytes) (st : GameState)
    → Keeps st (handle_pong now conn_id payload st)
unfolding handle_pong
handle_pong-Keeps now conn_id payload st = pinged-Keeps now conn_id (run pong_to_host payload) st

pub kick_all-Keeps :
    (reason : Bytes) (to_drop : PlayerTable) (st : GameState)
    → Keeps st (kick_all reason to_drop st)
unfolding kick_all
kick_all-Keeps reason [] st = same
kick_all-Keeps reason (p ∷ to_drop) st =
    and_then (kick_player-Keeps p.pid reason _ st) (kick_all-Keeps reason to_drop _)

pub handle_drop_request-Keeps : (st : GameState) → Keeps st (handle_drop_request st)
unfolding handle_drop_request
handle_drop_request-Keeps st = if_kept st.lagging (kick_all-Keeps _ _ st) same

replay_to-pids :
    (players : PlayerTable) (conn_id : ℕ) (req : ReconnectReq) (link : PlayerLink) (p : Player)
    (o : Option (List Bytes))
    → pids (replay_to players conn_id req link p o).players ≡ pids players
replay_to-pids players conn_id req link p none = refl
replay_to-pids players conn_id req link p (some replay) =
    pids-with_pid req.pid _ players (λ p. refl)

reconnect_player-pids :
    (players : PlayerTable) (conn_id : ℕ) (req : ReconnectReq) (link : PlayerLink)
    (o : Option Player)
    → pids (reconnect_player players conn_id req link o).players ≡ pids players
reconnect_player-pids players conn_id req link none = refl
reconnect_player-pids players conn_id req link (some p) =
    elim (Bool-cases (not p.gproxy || not (p.reconnect_key == req.reconnect_key))) [
      | inl refused ↦ rw refused refl
      | inr back ↦
          rw back
            (replay_to-pids players conn_id req link p (replay_of p.gproxy_buffer req.last_packet))
    ]

pub reconnect_in-Keeps :
    (conn_id : ℕ) (req : ReconnectReq) (link : PlayerLink) (st : GameState)
    → Keeps st (reconnect_in conn_id req link st).1
unfolding handle_gps_reconnect
reconnect_in-Keeps conn_id req link st =
    kept (reconnect_player-pids st.players conn_id req link (by_pid st.players req.pid)) refl refl

reconnect_taken-Keeps :
    (conn_id : ℕ) (r : Result ReconnectReq) (o : Option (Pending × List Pending)) (st : GameState)
    → Keeps st (reconnect_taken conn_id r o st)
reconnect_taken-Keeps conn_id (err e) o st = same
reconnect_taken-Keeps conn_id (ok req) none st = same
reconnect_taken-Keeps conn_id (ok req) (some (q, pending)) st =
    let k = reconnect_in-Keeps conn_id req q.link (record st { pending = pending }) in
    kept k.seats k.slots k.queued

keep_token-Keeps :
    (conn_id : ℕ) (r : Result (ℕ × ℕ)) (st : GameState) → Keeps st (keep_token conn_id r st)
keep_token-Keeps conn_id (err e) st = same
keep_token-Keeps conn_id (ok (pid, reconnect_key)) st = kept refl refl refl

pub on_gps_frame-Keeps :
    (conn_id : ℕ) (frame : Frame) (st : GameState) → Keeps st (on_gps_frame conn_id frame st)
unfolding on_gps_frame
on_gps_frame-Keeps conn_id frame st =
    if_kept (frame.id == 0x01) (at_conn conn_id _ st (λ p. refl)) (
      if_kept (frame.id == 0x03) (at_conn conn_id _ st (λ p. refl)) (
        if_kept (frame.id == 0x02)
          (reconnect_taken-Keeps conn_id (decode_reconnect frame.payload)
            (take_pending conn_id st.pending) st)
          (if_kept (frame.id == 0x05) (keep_token-Keeps conn_id (decode_full frame.payload) st)
            same)))

pub on_iccup_gps_frame-Keeps :
    (conn_id : ℕ) (frame : Frame) (st : GameState) → Keeps st (on_iccup_gps_frame conn_id frame st)
unfolding on_iccup_gps_frame
on_iccup_gps_frame-Keeps conn_id frame st =
    if_kept (frame.id == 0x08) (at_conn conn_id _ st (λ p. refl)) (
      if_kept (frame.id == 0x32) (at_conn conn_id _ st (λ p. refl)) (
        if_kept (frame.id == 0x16)
          (reconnect_taken-Keeps conn_id (decode_reconnect frame.payload)
            (take_pending conn_id st.pending) st)
          same))
