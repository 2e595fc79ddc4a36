-- ===== src/Protocol/W3gs/Ids.antt =====
-- crates/spectre-protocol/src/w3gs/ids.rs.
use ghostrs.Base.{ℕ}

abbrev pub ping_from_host : ℕ
ping_from_host = 0x01

abbrev pub slot_info_join : ℕ
slot_info_join = 0x04

abbrev pub reject_join : ℕ
reject_join = 0x05

abbrev pub player_info : ℕ
player_info = 0x06

abbrev pub player_leave_others : ℕ
player_leave_others = 0x07

abbrev pub game_loaded_others : ℕ
game_loaded_others = 0x08

abbrev pub slot_info : ℕ
slot_info = 0x09

abbrev pub countdown_start : ℕ
countdown_start = 0x0A

abbrev pub countdown_end : ℕ
countdown_end = 0x0B

abbrev pub incoming_action : ℕ
incoming_action = 0x0C

abbrev pub chat_from_host : ℕ
chat_from_host = 0x0F

abbrev pub start_lag : ℕ
start_lag = 0x10

abbrev pub stop_lag : ℕ
stop_lag = 0x11

abbrev pub host_kick_player : ℕ
host_kick_player = 0x1C

abbrev pub req_join : ℕ
req_join = 0x1E

abbrev pub leave_game : ℕ
leave_game = 0x21

abbrev pub game_loaded_self : ℕ
game_loaded_self = 0x23

abbrev pub outgoing_action : ℕ
outgoing_action = 0x26

abbrev pub outgoing_keepalive : ℕ
outgoing_keepalive = 0x27

abbrev pub chat_to_host : ℕ
chat_to_host = 0x28

abbrev pub drop_req : ℕ
drop_req = 0x29

abbrev pub search_game : ℕ
search_game = 0x2F

abbrev pub game_info : ℕ
game_info = 0x30

abbrev pub create_game : ℕ
create_game = 0x31

abbrev pub refresh_game : ℕ
refresh_game = 0x32

abbrev pub decreate_game : ℕ
decreate_game = 0x33

abbrev pub chat_others : ℕ
chat_others = 0x34

abbrev pub ping_from_others : ℕ
ping_from_others = 0x35

abbrev pub pong_to_others : ℕ
pong_to_others = 0x36

abbrev pub map_check : ℕ
map_check = 0x3D

abbrev pub start_download : ℕ
start_download = 0x3F

abbrev pub map_size : ℕ
map_size = 0x42

abbrev pub map_part : ℕ
map_part = 0x43

abbrev pub map_part_ok : ℕ
map_part_ok = 0x44

abbrev pub map_part_not_ok : ℕ
map_part_not_ok = 0x45

abbrev pub pong_to_host : ℕ
pong_to_host = 0x46

abbrev pub incoming_action2 : ℕ
incoming_action2 = 0x48

abbrev pub rejoin_token : ℕ
rejoin_token = 0x77

abbrev pub playerleave_disconnect : ℕ
playerleave_disconnect = 1

abbrev pub playerleave_lost : ℕ
playerleave_lost = 7

abbrev pub playerleave_lostbuildings : ℕ
playerleave_lostbuildings = 8

abbrev pub playerleave_won : ℕ
playerleave_won = 9

abbrev pub playerleave_draw : ℕ
playerleave_draw = 10

abbrev pub playerleave_observer : ℕ
playerleave_observer = 11

abbrev pub playerleave_lobby : ℕ
playerleave_lobby = 13

abbrev pub playerleave_gproxy : ℕ
playerleave_gproxy = 100
