-- ===== src/Protocol/DotaTv/Ids.antt =====
-- The `ids` of crates/spectre-protocol/src/dotatv.rs.
use ghostrs.Base.{ℕ}

abbrev pub hello : ℕ
hello = 0x01

abbrev pub game_start_snapshot : ℕ
game_start_snapshot = 0x02

abbrev pub player : ℕ
player = 0x03

abbrev pub action : ℕ
action = 0x04

abbrev pub chat : ℕ
chat = 0x05

abbrev pub game_over : ℕ
game_over = 0x06

abbrev pub history_end : ℕ
history_end = 0x07

abbrev pub subscribe : ℕ
subscribe = 0x80

abbrev pub client_chat : ℕ
client_chat = 0x81
