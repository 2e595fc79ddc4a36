-- ===== src/Engine/Announce.antt =====
-- What a game says to all: `send_chat_all`, `send_all_slot_info` and `delete_virtual_host` of
-- crates/spectre-engine/src/state.rs.
use ghostrs.Engine.Slots.{sid_of_pid, SlotTable}
use ghostrs.Protocol.W3gs.Slot.{SlotInfo}
use ghostrs.Base.{
  ◌+◌, get_elem?, as_u8, ℕ, ◌&&◌, not, [], ◌∷◌, Option, none, some, leb, ltb, ◌==◌, if◌then◌else◌,
  length, take, get_or,
}
use mathlib.Core.Option
use ghostrs.Protocol.Error.{Result, ok, err}
use ghostrs.Protocol.Buffer.{Bytes}
use ghostrs.Protocol.W3gs.Ids
use ghostrs.Protocol.W3gs.Outgoing.{chat_from_host, slot_info, player_leave_others}
use ghostrs.Engine.Players.{PlayerTable, filter, remove_pid}
use ghostrs.Engine.State.{GameState, relay_send, viewer_chat, is_before_game, is_some, host_pid}
use ghostrs.Engine.Broadcast.{send_to, broadcast}
use ghostrs.Spectator.Body.{add_chat}

-- `if let Ok(b) = packet { self.broadcast(b) }`, and the same for a packet that ends in `expect`.
abbrev pub broadcast_ok : ℕ → Result Bytes → GameState → GameState
broadcast_ok now (ok b) st = broadcast now b st
broadcast_ok now (err e) st = st

abbrev pub broadcast_some : ℕ → Option Bytes → GameState → GameState
broadcast_some now none st = st
broadcast_some now (some b) st = broadcast now b st

-- The same for one player.
abbrev pub send_ok : ℕ → ℕ → Result Bytes → GameState → GameState
send_ok now pid (ok b) st = send_to now pid b st
send_ok now pid (err e) st = st

abbrev pub send_some : ℕ → ℕ → Option Bytes → GameState → GameState
send_some now pid none st = st
send_some now pid (some b) st = send_to now pid b st

-- `if s.len() > n { &s[..n] } else { s }`: `none` where the slice panics, inside a character.
unfoldable pub at_most : ℕ → Bytes → Option Bytes
at_most n s =
    if ltb n (length s)
    then (if leb 128 (get_or s n 0) && ltb (get_or s n 0) 192 then none else some (take n s))
    else some s

pub pids_of : PlayerTable → Bytes
pids_of [] = []
pids_of (p ∷ players) = p.pid ∷ pids_of players

-- The recipients: every player who is there, but for the virtual host.
pub recipients : GameState → Bytes
unfolding pids_of
recipients st = pids_of (filter (λ p. not p.virtual_host && not (is_some p.left)) st.players)

abbrev pub relay_chat : Bytes → GameState → GameState
relay_chat message st = record st {
  relay = Option.map (λ r. relay_send r (viewer_chat st.cfg.virtual_host_name message)) st.relay;
}

abbrev pub replay_chat : ℕ → Bytes → GameState → GameState
replay_chat from msg st = record st {
  replay = Option.map (λ rep. add_chat rep from 0x20 0 msg) st.replay;
}

abbrev pub chat_before_game : ℕ → ℕ → Bytes → Option Bytes → GameState → Option GameState
chat_before_game now from pids none st = none
chat_before_game now from pids (some msg) st =
    some (broadcast_ok now (chat_from_host from pids 0x10 [] msg) st)

abbrev pub chat_in_game : ℕ → ℕ → Bytes → Option Bytes → GameState → Option GameState
chat_in_game now from pids none st = none
chat_in_game now from pids (some msg) st = some (
    broadcast_ok now (chat_from_host from pids 0x20 (0 ∷ 0 ∷ 0 ∷ 0 ∷ []) msg)
      (replay_chat from msg st))

abbrev pub say : ℕ → Bytes → ℕ → Bytes → GameState → Option GameState
say now message from [] st = some st
say now message from (pid ∷ pids) st =
    let st' = relay_chat message st in
    if is_before_game st.phase
    then chat_before_game now from (pid ∷ pids) (at_most 254 message) st'
    else chat_in_game now from (pid ∷ pids) (at_most 127 message) st'

-- `none` where the code panics.
unfoldable pub send_chat_all : ℕ → Bytes → GameState → Option GameState
send_chat_all now message st =
    if host_pid st == 255 then some st else say now message (host_pid st) (recipients st) st

unfoldable pub send_all_slot_info : ℕ → GameState → GameState
send_all_slot_info now st =
    broadcast_ok now
      (slot_info st.slots st.random_seed st.cfg.map.layout_style st.cfg.map.num_players) st

unfoldable pub delete_virtual_host : ℕ → GameState → GameState
delete_virtual_host now st =
    if st.virtual_host_pid == 255
    then st
    else broadcast_some now (player_leave_others st.virtual_host_pid Ids.playerleave_lobby)
        (record st {
          virtual_host_pid = 255;
          players = (remove_pid st.players st.virtual_host_pid).1;
        })

-- The colour of the player's slot, or 0.
abbrev pub colour_at : Option SlotInfo → ℕ
colour_at none = 0
colour_at (some s) = s.colour

abbrev pub slot_at : SlotTable → Option ℕ → Option SlotInfo
slot_at slots none = none
slot_at slots (some sid) = get_elem? slots sid

abbrev pub whisper : ℕ → ℕ → ℕ → ℕ → Bytes → Option Bytes → GameState → Option GameState
whisper now from pid flag extra none st = none
whisper now from pid flag extra (some msg) st =
    some (send_ok now pid (chat_from_host from (pid ∷ []) flag extra msg) st)

-- `send_chat_to` of chat.rs; `none` where the code panics. The sum in the colour wraps in a release.
unfoldable pub send_chat_to : ℕ → ℕ → Bytes → GameState → Option GameState
send_chat_to now pid message st =
    if host_pid st == 255
    then some st
    else if is_before_game st.phase
    then whisper now (host_pid st) pid 0x10 [] (at_most 254 message) st
    else whisper now (host_pid st) pid 0x20
        (as_u8 (3 + colour_at (slot_at st.slots (sid_of_pid st.slots pid))) ∷ 0 ∷ 0 ∷ 0 ∷ [])
        (at_most 127 message) st
