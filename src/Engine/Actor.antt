-- ===== src/Engine/Actor.antt =====
-- crates/spectre-engine/src/actor.rs: the frames of a connection and the commands to a game, each to
-- its handler. `none` is a panic. `key` stands for the random key of a new player; the parameters
-- `words` to `dota` and `fake_link` are those of `run_command` (Engine/Chat/Run), the others those of
-- the tick. `DotaTV` spectators are not attached here.
use ghostrs.Engine.MapSize.{handle_map_size}
use ghostrs.Engine.Transfer.{
  handle_pong, handle_drop_request, handle_map_part_not_ok, handle_map_part_ok, handle_pong,
}
use ghostrs.Engine.Virtual.{create_virtual_host, toggle_fake_player}
use ghostrs.Engine.Announce.{send_chat_all}
use ghostrs.Engine.Lobby.{handle_action, handle_leave, handle_conn_closed}
use ghostrs.Engine.Gproxy.Reconnect.{handle_gps_reconnect}
use ghostrs.Engine.OnTick.{on_tick}
use ghostrs.Engine.Reap.{reap_left_players}
use ghostrs.Engine.Rejoin.{without_token}
use ghostrs.Protocol.Buffer.{Bytes}
use ghostrs.Engine.Join.{handle_req_join, take_pending, try_ok, reconn_port, try_some}
use ghostrs.Base.{
  ◌-◌, min, as_u8, ◌==◌, leb, if◌then◌else◌, Bool, ◌/◌, List, Option, ℕ, none, some, ◌∷◌, true,
}
use ghostrs.Protocol.Error.{Result, ok, err}
use ghostrs.Protocol.Frame.{Frame}
use ghostrs.Protocol.W3gs.Ids
use ghostrs.Protocol.W3gs.Outgoing.{rejoin_token}
use ghostrs.Protocol.W3gs.Incoming.{run, leave_game}
use ghostrs.Protocol.Gps
use ghostrs.Protocol.Gps.{ReconnectReq, decode_reconnect, decode_full}
use ghostrs.Engine.Phases.{handle_loaded, start_countdown, ◌>>=◌}
use ghostrs.Engine.Gproxy
use ghostrs.Net.Conn.{AnyFrame, w3gs, gps, iccup_gps, dota_tv}
use ghostrs.Engine.Players.{Player, GProxyBuffer, with_conn}
use ghostrs.Engine.Link.{PlayerLink}
use ghostrs.Engine.Chat.Handle.{handle_chat_to_host}
use ghostrs.Engine.State.{Hold, is_in_lobby, add_conn, GameState, Pending, FullToken}
use ghostrs.Engine.Desync.{handle_keepalive, Bin}

abbrev pub unwrap_or_zero : Result ℕ → ℕ
unwrap_or_zero (ok n) = n
unwrap_or_zero (err e) = 0

-- `gproxy_empty_actions` of gproxy.rs, the wait in milliseconds.
unfoldable pub gproxy_empty_actions : GameState → ℕ
gproxy_empty_actions st =
    let secs = st.cfg.reconnect_wait / 1000 in
    let mins = if leb 60 secs then secs / 60 else secs in
    if secs == 0 then 0 else as_u8 (min (mins - 1) 9)

abbrev pub buffer_or : Option GProxyBuffer → Option GProxyBuffer
buffer_or none = some (Gproxy.new 500)
buffer_or (some b) = some b

abbrev pub uses_gproxy : Player → Player
uses_gproxy p = record p { gproxy = true; gproxy_buffer = buffer_or p.gproxy_buffer }

abbrev pub answer_init : GameState → Player → Player
answer_init st p =
    let link =
      try_some (Gps.init (reconn_port st) p.pid p.reconnect_key (gproxy_empty_actions st)) p.link in
    record (uses_gproxy p) { link = link }

abbrev pub iccup_token : GameState → Player → Result Bytes
iccup_token st p =
    let m = st.cfg.map in
    rejoin_token p.pid p.reconnect_key (reconn_port st) m.crc m.sha1 st.cfg.name m.path

abbrev pub answer_iccup : GameState → Player → Player
answer_iccup st p =
    let link =
      try_some (Gps.iccup_init (reconn_port st) p.pid p.reconnect_key (gproxy_empty_actions st))
        p.link in
    record (uses_gproxy p) { link = try_ok (iccup_token st p) link }

-- `handle_gps_reconnect` on the game. The link that is left is that of a client that is refused.
abbrev pub reconnect_in : ℕ → ReconnectReq → PlayerLink → GameState → Bool × GameState
reconnect_in conn_id req link st =
    let r = handle_gps_reconnect st.players conn_id req link in
    (r.back, record st { players = r.players })

abbrev pub reconnect_taken :
    ℕ → Result ReconnectReq → Option (Pending × List Pending) → GameState → GameState
reconnect_taken conn_id (err e) taken st = st
reconnect_taken conn_id (ok req) none st = st
reconnect_taken conn_id (ok req) (some (q, pending)) st =
    (reconnect_in conn_id req q.link (record st { pending = pending })).1

-- `pending_full.insert`.
unfoldable pub put_token : FullToken → List FullToken → List FullToken
put_token t tokens = t ∷ without_token t.conn_id tokens

abbrev pub keep_token : ℕ → Result (ℕ × ℕ) → GameState → GameState
keep_token conn_id (err e) st = st
keep_token conn_id (ok (pid, reconnect_key)) st = record st {
  pending_full =
      put_token (record { conn_id = conn_id; pid = pid; reconnect_key = reconnect_key })
        st.pending_full;
}

unfoldable pub on_gps_frame : ℕ → Frame → GameState → GameState
on_gps_frame conn_id frame st =
    if frame.id == 0x01
    then record st { players = with_conn st.players conn_id (answer_init st) }
    else if frame.id == 0x03
    then record st { players = with_conn st.players conn_id uses_gproxy }
    else if frame.id == 0x02
    then reconnect_taken conn_id (decode_reconnect frame.payload) (take_pending conn_id st.pending)
        st
    else if frame.id == 0x05
    then keep_token conn_id (decode_full frame.payload) st
    else st

unfoldable pub on_iccup_gps_frame : ℕ → Frame → GameState → GameState
on_iccup_gps_frame conn_id frame st =
    if frame.id == 0x08
    then record st { players = with_conn st.players conn_id (answer_iccup st) }
    else if frame.id == 0x32
    then record st { players = with_conn st.players conn_id uses_gproxy }
    else if frame.id == 0x16
    then reconnect_taken conn_id (decode_reconnect frame.payload) (take_pending conn_id st.pending)
        st
    else st

-- `GameCmd` of handle.rs, without the attachment of a stream for `DotaTV`.
pub data GameCmd : Type 0 where
  new_conn : ℕ → PlayerLink → Bytes → GameCmd
  adopt_reconnect : ℕ → ReconnectReq → PlayerLink → GameCmd
  conn_frame : ℕ → AnyFrame → GameCmd
  conn_closed : ℕ → Bytes → GameCmd
  start : GameCmd
  chat_line : Bytes → GameCmd
  unhost : GameCmd
  toggle_fake : GameCmd
  make_virtual_host shutdown : GameCmd

module _ (show_secs : ℕ → Bytes) (crc32 : Bytes → ℕ) (order : List Bin → List Bin)
    (words : Bytes → List Bytes) (lowercase : Bytes → Bytes) (random : ℕ → ℕ)
    (order_holds : List Hold → List Hold) (dota : Option (Bytes → Option Bytes)) (key : ℕ)
    (fake_link : PlayerLink) (fuel now : ℕ) where
  unfoldable pub on_w3gs_frame : ℕ → Frame → GameState → Option GameState
  on_w3gs_frame conn_id frame st =
      if frame.id == Ids.req_join
      then some (handle_req_join now key conn_id frame.payload st).0
      else if frame.id == Ids.leave_game
      then some (handle_leave conn_id (unwrap_or_zero (run leave_game frame.payload)) st)
      else if frame.id == Ids.outgoing_action
      then some (handle_action conn_id frame.payload st)
      else if frame.id == Ids.outgoing_keepalive
      then handle_keepalive order fuel now conn_id frame.payload st
      else if frame.id == Ids.chat_to_host
      then handle_chat_to_host words lowercase random order_holds dota fake_link now conn_id
          frame.payload st
      else if frame.id == Ids.game_loaded_self
      then handle_loaded show_secs now conn_id st
      else if frame.id == Ids.pong_to_host
      then some (handle_pong now conn_id frame.payload st)
      else if frame.id == Ids.map_size
      then handle_map_size show_secs now conn_id frame.payload st
      else if frame.id == Ids.map_part_ok
      then some (handle_map_part_ok conn_id frame.payload st)
      else if frame.id == Ids.map_part_not_ok
      then some (handle_map_part_not_ok conn_id frame.payload st)
      else if frame.id == Ids.drop_req
      then some (handle_drop_request st)
      else some st

  unfoldable pub on_frame : ℕ → AnyFrame → GameState → Option GameState
  on_frame conn_id (w3gs f) st = on_w3gs_frame conn_id f st
  on_frame conn_id (gps f) st = some (on_gps_frame conn_id f st)
  on_frame conn_id (iccup_gps f) st = some (on_iccup_gps_frame conn_id f st)
  on_frame conn_id (dota_tv f) st = some st

  unfoldable pub handle_cmd : GameCmd → GameState → Option GameState
  handle_cmd (new_conn conn_id link external_ip) st = some (add_conn conn_id link external_ip st)
  handle_cmd (adopt_reconnect conn_id req link) st = some (reconnect_in conn_id req link st).1
  handle_cmd (conn_frame conn_id frame) st = on_frame conn_id frame st
  handle_cmd (conn_closed conn_id reason) st = some (handle_conn_closed now conn_id reason st)
  handle_cmd start st = some (start_countdown now st)
  handle_cmd (chat_line msg) st = send_chat_all now msg st
  handle_cmd unhost st = some (if is_in_lobby st.phase then record st { finished = true } else st)
  handle_cmd toggle_fake st = some (toggle_fake_player now fake_link st)
  handle_cmd shutdown st = some (record st { finished = true })
  handle_cmd make_virtual_host st = some (create_virtual_host now st)

  -- A round of the loop in `run`, with a command or with the tick that `skipped` others, which
  -- `TickScheduler::advance` counts.
  unfoldable pub serve_cmd : GameCmd → GameState → Option GameState
  serve_cmd cmd st = handle_cmd cmd st >>= reap_left_players show_secs now

  unfoldable pub serve_tick : Option Bytes → ℕ → GameState → Option GameState
  serve_tick winner skipped st =
      on_tick show_secs crc32 order fuel now winner skipped st >>= reap_left_players show_secs now
