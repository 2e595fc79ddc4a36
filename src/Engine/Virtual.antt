-- ===== src/Engine/Virtual.antt =====
-- The players behind whom nobody sits: `create_virtual_host` (state.rs) and `toggle_fake_player`
-- (actions.rs) of crates/spectre-engine/src.
use ghostrs.Engine.Slots.{release, occupy_slot, first_open}
use ghostrs.Engine.Announce.{broadcast_ok, broadcast_some, send_all_slot_info}
use ghostrs.Engine.Link.{PlayerLink}
use ghostrs.Engine.Players.{remove_pid, insert, next_free_pid, new_player, Player}
use ghostrs.Protocol.Buffer.{Bytes}
use ghostrs.Base.{none, false, text, true, ◌==◌, some, [], if◌then◌else◌, Option, ◌∷◌, ℕ}
use ghostrs.Protocol.W3gs.Outgoing.{player_leave_others}
use ghostrs.Protocol.W3gs.Ids
use ghostrs.Protocol.W3gs.Outgoing.{player_info}
use ghostrs.Engine.State.{is_in_lobby, GameState}

abbrev pub virtual_player : ℕ → Bytes → Player
virtual_player pid name =
    record (new_player pid name 18446744073709551615
      (record { capacity = 1; queue = []; is_closed = true })) {
        virtual_host = true;
        loaded = true;
      }

abbrev pub no_ip : Bytes
no_ip = 0 ∷ 0 ∷ 0 ∷ 0 ∷ []

abbrev pub host_with : ℕ → Option ℕ → GameState → GameState
host_with now none st = st
host_with now (some pid) st =
    let st' =
      broadcast_ok now (player_info pid st.cfg.virtual_host_name no_ip no_ip)
        (record st { virtual_host_pid = pid }) in
    record st' { players = insert st'.players (virtual_player pid st.cfg.virtual_host_name) }

-- The receiver of the virtual host's channel is dropped at once.
unfoldable pub create_virtual_host : ℕ → GameState → GameState
create_virtual_host now st =
    if st.virtual_host_pid == 255 then host_with now (next_free_pid st.players) st else st

-- `fake_link` is the channel of the fake player, which a task drains.
abbrev pub fake_player : ℕ → PlayerLink → Player
fake_player fpid fake_link = record (new_player fpid (text "FakePlayer") 0 fake_link) {
  virtual_host = false;
  loaded = true;
}

abbrev pub remove_fake : ℕ → ℕ → GameState → GameState
remove_fake now fpid st = send_all_slot_info now (
    broadcast_some now (player_leave_others fpid Ids.playerleave_lobby) (record st {
      fake_player_pid = none;
      players = (remove_pid st.players fpid).1;
      slots = (release st.slots fpid).1;
    }))

abbrev pub add_fake : ℕ → PlayerLink → Option ℕ → Option ℕ → GameState → GameState
add_fake now fake_link none slot_idx st = st
add_fake now fake_link (some fpid) none st = st
add_fake now fake_link (some fpid) (some slot_idx) st = send_all_slot_info now (
    broadcast_ok now (player_info fpid (text "FakePlayer") no_ip no_ip) (record st {
      players = insert st.players (fake_player fpid fake_link);
      slots = (occupy_slot st.slots slot_idx fpid).1;
      fake_player_pid = some fpid;
    }))

abbrev pub toggle_of : ℕ → PlayerLink → Option ℕ → GameState → GameState
toggle_of now fake_link (some fpid) st = remove_fake now fpid st
toggle_of now fake_link none st =
    add_fake now fake_link (next_free_pid st.players) (first_open st.slots) st

-- The state behind the call; the text that it returns is only logged.
unfoldable pub toggle_fake_player : ℕ → PlayerLink → GameState → GameState
toggle_fake_player now fake_link st =
    if is_in_lobby st.phase then toggle_of now fake_link st.fake_player_pid st else st
