-- ===== src/Engine/Chat.antt =====
-- `ChatCommand` of crates/spectre-engine/src/chat.rs: the commands of a chat line. Texts are bytes.
pub mod Words
pub mod Arms
pub mod Parse
pub mod SlotRequest
pub mod Handle
pub mod Run
pub mod Reports
pub mod Settings
pub mod Seats
pub mod Votes
pub mod Start
pub mod Names
use ghostrs.Base.{ℕ, Bool, Option}
use ghostrs.Protocol.Buffer.{Bytes}

pub data ChatCommand : Type 0 where
  start : Bool → ChatCommand
  abort : ChatCommand
  open_slot close_slot : ℕ → ChatCommand
  open_all close_all : ChatCommand
  swap : ℕ → ℕ → ChatCommand
  hold : Bytes → Option ℕ → ChatCommand
  clear_hold : ChatCommand
  kick : Bytes → ChatCommand
  ban : Bytes → Bytes → ChatCommand
  unban check_ban ban_last check_admin add_admin del_admin : Bytes → ChatCommand
  ping : ChatCommand
  mute unmute : Bytes → ChatCommand
  mute_all unmute_all vote_start vote_cancel : ChatCommand
  vote_kick : Bytes → ChatCommand
  yes : ChatCommand
  sync_limit latency : Option ℕ → ChatCommand
  shuffle_players version : ChatCommand
  say : Bytes → ChatCommand
  whisper : Bytes → Bytes → ChatCommand
  stats stats_dota : Bytes → ChatCommand
  drop draw : ChatCommand
  hcl : Bytes → ChatCommand
  clear_hcl : ChatCommand
  owner : Option Bytes → ChatCommand
  unhost end lock unlock : ChatCommand
  check : Bytes → ChatCommand
  check_me : ChatCommand
  announce : Bytes → ChatCommand
  auto_start : Option ℕ → ChatCommand
  refresh : ChatCommand
  virtual_host : Bytes → ChatCommand
  comp : (slot team colour race computer_type handicap : ℕ) → ChatCommand
  comp_colour comp_race comp_handicap comp_team : (slot value : ℕ) → ChatCommand
  download : Bytes → ChatCommand
  db_status fake_player fp_pause fp_resume from : ChatCommand
  messages : Option Bool → ChatCommand
  send_lan : Bytes → Option ℕ → ChatCommand
  pub_game priv_game : Bytes → ChatCommand
  mute_lobby : Option Bool → ChatCommand
  unknown : Bytes → ChatCommand
