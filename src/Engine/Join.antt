-- ===== src/Engine/Join.antt =====
-- `handle_req_join` of crates/spectre-engine/src/lobby.rs: a connection asks for a seat. The random
-- key of the player is an argument.
use ghostrs.Engine.Announce.{delete_virtual_host, send_all_slot_info}
use ghostrs.Engine.Rejoin.{try_full_rejoin, eq_ignore_ascii_case}
use ghostrs.Engine.Slots.{is_open, occupy_slot, release, SlotTable}
use ghostrs.Engine.Players.{human_count, next_free_pid, insert, new_player, Player, PlayerTable}
use ghostrs.Protocol.Buffer.{Bytes}
use mathlib.Core.Option
use ghostrs.Base.{
  ◌-◌, leb, as_u8, map, get_or, ◌&&◌, not, ◌||◌, ◌+◌, ◌==◌, any, if◌then◌else◌, Bool, List, Option,
  ℕ, none, some, [], ◌∷◌, true, false,
}
use ghostrs.Protocol.Error.{Result, ok, err}
use ghostrs.Protocol.W3gs.Outgoing.{
  player_info, slot_info_join, map_check, rejoin_token, reject_join,
}
use ghostrs.Protocol.W3gs.Incoming.{run, req_join, ReqJoin}
use ghostrs.Engine.Link.{PlayerLink, Sent, delivered, failed, try_send}
use ghostrs.Engine.State.{is_some, is_in_lobby, GameState, Hold, Pending}

abbrev pub reject_full : ℕ
reject_full = 0x09

abbrev pub reject_started : ℕ
reject_started = 0x0A

abbrev pub max_slots : ℕ
max_slots = 24

-- The entry of the connection, and what `Vec::remove` leaves.
unfoldable pub take_pending : ℕ → List Pending → Option (Pending × List Pending)
take_pending conn_id [] = none
take_pending conn_id (q ∷ pending) =
    if q.conn_id == conn_id
    then some (q, pending)
    else Option.map (λ (r : Pending × List Pending). (r.0, q ∷ r.1)) (take_pending conn_id pending)

-- What the call leaves: the game, and the link of a client that is refused.
abbrev pub Joining : Type 0
Joining = GameState × Option PlayerLink

-- `let _ = link.try_send(packet)` for a packet that may fail to build.
abbrev pub try_ok : Result Bytes → PlayerLink → PlayerLink
try_ok (ok b) link = (try_send link b).1
try_ok (err e) link = link

abbrev pub try_some : Option Bytes → PlayerLink → PlayerLink
try_some none link = link
try_some (some b) link = (try_send link b).1

abbrev pub refuse : ℕ → PlayerLink → GameState → Joining
refuse reason link st = (st, some (try_some (reject_join reason) link))

unfoldable pub hold_for : Bytes → List Hold → Option ℕ
hold_for name [] = none
hold_for name (h ∷ holds) =
    if eq_ignore_ascii_case h.name name then some h.sid else hold_for name holds

abbrev pub is_held : ℕ → List Hold → Bool
is_held sid holds = any (λ h. h.sid == sid) holds

-- The first open slot that is held for nobody, from index `i` on.
unfoldable pub unheld_from : List Hold → ℕ → SlotTable → Option ℕ
unheld_from holds i [] = none
unheld_from holds i (s ∷ slots) =
    let rest = unheld_from holds (i + 1) slots in
    if s.slot_status == 0 && not (is_held (as_u8 i) holds) then some (as_u8 i) else rest

abbrev pub target_sid : Option ℕ → GameState → Option ℕ
target_sid none st = unheld_from st.holds 0 st.slots
target_sid (some rsid) st =
    if is_open st.slots rsid then some rsid else unheld_from st.holds 0 st.slots

abbrev pub is_trusted : ℕ → Bytes → Bool
is_trusted spoof_checks ip =
    spoof_checks == 0
    || (get_or ip 0 0 == 127 && (get_or ip 1 0 == 0 && (get_or ip 2 0 == 0 && get_or ip 3 0 == 1)))
    || get_or ip 0 0 == 192
    || get_or ip 0 0 == 10

abbrev pub newcomer : ℕ → ℕ → ℕ → ReqJoin → Bool → Pending → GameState → Player
newcomer key pid conn_id req is_reserved q st = record (new_player pid req.name conn_id q.link) {
  external_ip = q.external_ip;
  internal_ip = req.internal_ip;
  reconnect_key = key;
  reserved = is_reserved;
  spoofed = is_trusted st.cfg.spoof_checks q.external_ip;
}

unfoldable pub introduce_all : PlayerTable → PlayerLink → PlayerLink
introduce_all [] link = link
introduce_all (p ∷ players) link =
    introduce_all players (try_ok (player_info p.pid p.name p.external_ip p.internal_ip) link)

abbrev pub reconn_port : GameState → ℕ
reconn_port st =
    if not (st.cfg.gproxy_reconnect_port == 0)
    then st.cfg.gproxy_reconnect_port
    else if not (st.cfg.host_port == 0)
    then st.cfg.host_port
    else 6114

-- The other players, the map and the token for a rejoin.
abbrev pub welcome : Player → GameState → PlayerLink → PlayerLink
welcome p st link =
    let m = st.cfg.map in
    try_ok (rejoin_token p.pid p.reconnect_key (reconn_port st) m.crc m.sha1 st.cfg.name m.path)
      (try_ok (map_check m.path m.size m.info m.crc m.sha1) (introduce_all st.players link))

abbrev pub meet : ℕ → Result Bytes → Player → Player
meet pid packet q = if q.pid == pid then q else record q { link = try_ok packet q.link }

-- The newcomer is in the table, and the others meet it.
abbrev pub seated : ℕ → Player → GameState → GameState
seated now p st =
    let players = insert st.players p in
    let st' = send_all_slot_info now (record st {
      players = map (meet p.pid (player_info p.pid p.name p.external_ip p.internal_ip)) players;
    }) in
    if leb (max_slots - 1) (human_count st'.players) then delete_virtual_host now st' else st'

abbrev pub give_up : ℕ → PlayerLink → GameState → Joining
give_up pid link st = (record st { slots = (release st.slots pid).1 }, some link)

abbrev pub sent_slots : ℕ → Player → GameState → Sent × PlayerLink → Joining
sent_slots now p st (delivered, link) =
    (seated now (record p { link = welcome p st link }) st, none)
sent_slots now p st (failed e, link) = give_up p.pid link st

abbrev pub built_slots : ℕ → Player → GameState → Result Bytes → Joining
built_slots now p st (ok b) = sent_slots now p st (try_send p.link b)
built_slots now p st (err e) = give_up p.pid p.link st

abbrev pub seat_at : ℕ → ReqJoin → ℕ → Player → GameState → Joining
seat_at now req sid p st =
    let st' = record st { slots = (occupy_slot st.slots sid p.pid).1 } in
    let m = st.cfg.map in
    built_slots now p st' (
      slot_info_join p.pid req.listen_port p.external_ip st'.slots st.random_seed m.layout_style
        m.num_players)

abbrev pub join_at :
    ℕ → ℕ → ℕ → ReqJoin → Pending → Bool → Option ℕ → Option ℕ → GameState → Joining
join_at now key conn_id req q is_reserved none pid st = refuse reject_full q.link st
join_at now key conn_id req q is_reserved (some sid) none st = refuse reject_full q.link st
join_at now key conn_id req q is_reserved (some sid) (some pid) st =
    seat_at now req sid (newcomer key pid conn_id req is_reserved q st) st

abbrev pub join_lobby : ℕ → ℕ → ℕ → ReqJoin → Pending → GameState → Joining
join_lobby now key conn_id req q st =
    if any (λ p. eq_ignore_ascii_case p.name req.name) st.players
    then refuse reject_full q.link st
    else (let reserved_sid = hold_for req.name st.holds in
        join_at now key conn_id req q (is_some reserved_sid) (target_sid reserved_sid st)
          (next_free_pid st.players) st)

abbrev pub rejoin_or_refuse : PlayerLink → Bool × GameState → Joining
rejoin_or_refuse link (true, st) = (st, none)
rejoin_or_refuse link (false, st) = refuse reject_started link st

abbrev pub join_decoded : ℕ → ℕ → ℕ → Pending → Result ReqJoin → GameState → Joining
join_decoded now key conn_id q (err e) st = (st, some q.link)
join_decoded now key conn_id q (ok req) st =
    if is_in_lobby st.phase
    then join_lobby now key conn_id req q st
    else rejoin_or_refuse q.link (try_full_rejoin now conn_id req q.external_ip q.link st)

abbrev pub join_taken : ℕ → ℕ → ℕ → Bytes → Option (Pending × List Pending) → GameState → Joining
join_taken now key conn_id payload none st = (st, none)
join_taken now key conn_id payload (some (q, pending)) st =
    join_decoded now key conn_id q (run req_join payload) (record st { pending = pending })

unfoldable pub handle_req_join : ℕ → ℕ → ℕ → Bytes → GameState → Joining
handle_req_join now key conn_id payload st =
    join_taken now key conn_id payload (take_pending conn_id st.pending) st
