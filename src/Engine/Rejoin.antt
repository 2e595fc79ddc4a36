-- ===== src/Engine/Rejoin.antt =====
-- crates/spectre-engine/src/full_rejoin.rs, with the branches of `handle_map_size` (mapxfer.rs) and
-- `handle_loaded` (actions.rs) that go on with a rejoin: a client that lost its whole game comes back
-- through the ordinary join packets.
pub mod Guards
pub mod Handshake
use ghostrs.Base.{
  ℕ, ◌+◌, Bool, true, false, ◌&&◌, ◌||◌, not, List, [], ◌∷◌, ◌++◌, Option, none, some, leb, ltb,
  ◌==◌, if◌then◌else◌, text,
}
use ghostrs.Protocol.Error.{Result, ok, err}
use ghostrs.Protocol.Buffer.{Bytes}
use ghostrs.Protocol.W3gs.Ids
use ghostrs.Protocol.W3gs.Incoming.{ReqJoin}
use ghostrs.Protocol.W3gs.Outgoing.{
  slot_info_join, player_info, map_check, game_loaded_others, countdown_start, countdown_end,
}
use ghostrs.Engine.Link.{PlayerLink}
use ghostrs.Engine.History.{first_seq}
use ghostrs.Engine.Players.{
  Player, PlayerTable, RejoinStage, normal, awaiting_map_size, awaiting_loaded, by_pid, with_pid,
  filter,
}
use ghostrs.Engine.State.{GameState, FullToken, is_some, is_in_game}
use ghostrs.Engine.Broadcast.{broadcast, send_to}
use ghostrs.Engine.Announce.{broadcast_some, send_ok, send_some}

-- `pending_full.get(&conn_id)` and `pending_full.remove(&conn_id)`.
unfoldable pub token_of : ℕ → List FullToken → Option FullToken
token_of conn_id [] = none
token_of conn_id (t ∷ tokens) = if t.conn_id == conn_id then some t else token_of conn_id tokens

unfoldable pub without_token : ℕ → List FullToken → List FullToken
without_token conn_id [] = []
without_token conn_id (t ∷ tokens) =
    let rest = without_token conn_id tokens in if t.conn_id == conn_id then rest else t ∷ rest

-- `eq_ignore_ascii_case` on the bytes of two strings.
abbrev pub to_ascii_lowercase : ℕ → ℕ
to_ascii_lowercase c = if leb 65 c && leb c 90 then c + 32 else c

unfoldable pub eq_ignore_ascii_case : Bytes → Bytes → Bool
eq_ignore_ascii_case [] [] = true
eq_ignore_ascii_case [] (y ∷ ys) = false
eq_ignore_ascii_case (x ∷ xs) [] = false
eq_ignore_ascii_case (x ∷ xs) (y ∷ ys) =
    (to_ascii_lowercase x == to_ascii_lowercase y) && eq_ignore_ascii_case xs ys

-- `q.pid != pid && !q.virtual_host && q.left.is_none()`.
abbrev pub is_other : ℕ → Player → Bool
is_other pid q = not (q.pid == pid) && (not q.virtual_host && not (is_some q.left))

unfoldable pub introduce : ℕ → ℕ → PlayerTable → GameState → GameState
introduce now pid [] st = st
introduce now pid (q ∷ others) st =
    introduce now pid others
      (send_ok now pid (player_info q.pid q.name q.external_ip q.internal_ip) st)

-- The player on the new connection.
abbrev pub rejoined : ℕ → PlayerLink → Player → Player
rejoined conn_id link p = record p {
  conn_id = conn_id;
  link = link;
  disconnected_since = none;
  left = none;
  consecutive_send_failures = 0;
  loaded = false;
  rejoin = awaiting_map_size;
  sync_counter = 0;
  checksums = [];
  lagging = false;
  started_lagging = none;
}

abbrev pub seat_again : ℕ → ℕ → PlayerLink → GameState → GameState
seat_again conn_id pid link st = record st {
  players = with_pid st.players pid (rejoined conn_id link);
  pending_full = without_token conn_id st.pending_full;
}

-- The packets of its join: the slots, the other players, the map.
abbrev pub join_flow : ℕ → ℕ → ReqJoin → Bytes → GameState → GameState
join_flow now pid req external_ip st =
    let m = st.cfg.map in
    let slots =
      slot_info_join pid req.listen_port external_ip st.slots st.random_seed m.layout_style
        m.num_players in
    let st' = send_ok now pid slots st in
    send_ok now pid (map_check m.path m.size m.info m.crc m.sha1)
      (introduce now pid (filter (is_other pid) st'.players) st')

abbrev pub may_rejoin : ReqJoin → FullToken → Player → Bool
may_rejoin req token p =
    (is_some p.disconnected_since && not (is_some p.left))
    && (eq_ignore_ascii_case p.name req.name && p.reconnect_key == token.reconnect_key)

abbrev pub rejoin_player :
    ℕ → ℕ → ReqJoin → Bytes → PlayerLink → GameState → FullToken → Option Player → Bool × GameState
rejoin_player now conn_id req external_ip link st token none = (false, st)
rejoin_player now conn_id req external_ip link st token (some p) =
    if may_rejoin req token p
    then (true, join_flow now token.pid req external_ip (seat_again conn_id token.pid link st))
    else (false, st)

abbrev pub rejoin_with :
    ℕ → ℕ → ReqJoin → Bytes → PlayerLink → GameState → Option FullToken → Bool × GameState
rejoin_with now conn_id req external_ip link st none = (false, st)
rejoin_with now conn_id req external_ip link st (some token) =
    rejoin_player now conn_id req external_ip link st token (by_pid st.players token.pid)

-- What the call returns, and the state behind it.
unfoldable pub try_full_rejoin : ℕ → ℕ → ReqJoin → Bytes → PlayerLink → GameState → Bool × GameState
try_full_rejoin now conn_id req external_ip link st =
    if is_in_game st.phase
    then rejoin_with now conn_id req external_ip link st (token_of conn_id st.pending_full)
    else (false, st)

-- `handle_map_size` for a player of stage `AwaitingMapSize`.
abbrev pub await_loaded : Player → Player
await_loaded p = record p { rejoin = awaiting_loaded }

unfoldable pub map_size_rejoin : ℕ → ℕ → GameState → GameState
map_size_rejoin now pid st =
    let st' = send_some now pid countdown_end (send_some now pid countdown_start st) in
    record st' { players = with_pid st'.players pid await_loaded }

-- `handle_loaded` for a player of stage `AwaitingLoaded`.
abbrev pub too_late : Player → Player
too_late p = record p {
  rejoin = normal;
  left = some (text "cannot rejoin: game history too long to replay");
  left_code = Ids.playerleave_disconnect;
}

abbrev pub start_catch_up : ℕ → Player → Player
start_catch_up start_seq p = record p {
  loaded = true;
  rejoin = normal;
  catchup_cursor = some start_seq;
  catching_up = true;
}

unfoldable pub tell_loaded : ℕ → ℕ → PlayerTable → GameState → GameState
tell_loaded now pid [] st = st
tell_loaded now pid (q ∷ others) st =
    tell_loaded now pid others (send_some now pid (game_loaded_others q.pid) st)

unfoldable pub loaded_rejoin : ℕ → ℕ → GameState → GameState
loaded_rejoin now pid st =
    let start_seq = first_seq st.full_history in
    if ltb 0 start_seq
    then record st { players = with_pid st.players pid too_late }
    else (let st' = tell_loaded now pid (filter (is_other pid) st.players) st in
        broadcast_some now (game_loaded_others pid)
          (record st' { players = with_pid st'.players pid (start_catch_up start_seq) }))
