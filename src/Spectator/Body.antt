-- ===== src/Spectator/Body.antt =====
-- crates/spectre-spectator/src/body.rs: the body of a replay, written while the game runs. A `String`
-- is the list of its UTF-8 bytes.
pub mod Runs
use ghostrs.Base.{
  ℕ, ◌+◌, ◌*◌, ◌/◌, ◌%◌, List, [], ◌∷◌, ◌++◌, Bool, true, false, not, ◌==◌, if◌then◌else◌, length,
  drop, as_u8, as_u16, as_u32, le16, le32,
}
use ghostrs.Protocol.Buffer.{Bytes}

pub data ReplayBodyError : Type 0 where
  start_never_set : ReplayBodyError
  invalid_slots_length : ℕ → ReplayBodyError

-- `Result<A, ReplayBodyError>`.
pub data Outcome (A : Type 0) : Type 0 where
  done : A → Outcome A
  failure : ReplayBodyError → Outcome A

pub record ReplayBody : Type 0 where
  pub host_pid : ℕ
  pub host_name : Bytes
  pub players : List (ℕ × Bytes)
  pub slots : Bytes
  pub random_seed : ℕ
  pub select_mode : ℕ
  pub start_spots : ℕ
  pub num_slots : ℕ
  pub start_set : Bool
  pub game_name : Bytes
  pub stat_string : Bytes
  pub map_game_type : ℕ
  pub loading_blocks : List Bytes
  pub blocks : Bytes
  pub replay_length_ms : ℕ
  pub published : ℕ

abbrev pub put_cstr : Bytes → Bytes → Bytes
put_cstr out s = out ++ s ++ 0 ∷ []

unfoldable pub new : ℕ → Bytes → ReplayBody
new host_pid host_name = record {
  host_pid = host_pid;
  host_name = host_name;
  players = [];
  slots = [];
  random_seed = 0;
  select_mode = 0;
  start_spots = 0;
  num_slots = 0;
  start_set = false;
  game_name = [];
  stat_string = [];
  map_game_type = 0;
  loading_blocks = [];
  blocks = [];
  replay_length_ms = 0;
  published = 0;
}

unfoldable pub set_host : ReplayBody → ℕ → Bytes → ReplayBody
set_host b host_pid host_name = record b { host_pid = host_pid; host_name = host_name }

unfoldable pub set_game : ReplayBody → Bytes → Bytes → ℕ → ReplayBody
set_game b game_name stat_string map_game_type = record b {
  game_name = game_name;
  stat_string = stat_string;
  map_game_type = map_game_type;
}

unfoldable pub add_player : ReplayBody → ℕ → Bytes → ReplayBody
add_player b pid name =
    if not (pid == b.host_pid) then record b { players = b.players ++ (pid, name) ∷ [] } else b

-- The body after the call, and the result.
unfoldable pub set_start : ReplayBody → Bytes → ℕ → ℕ → ℕ → ReplayBody × Outcome (Unit {0})
set_start b slots random_seed select_mode start_spots =
    if not (length slots % 9 == 0) then (b, failure (invalid_slots_length (length slots))) else (
      record b {
        num_slots = length slots / 9;
        slots = slots;
        random_seed = random_seed;
        select_mode = select_mode;
        start_spots = start_spots;
        start_set = true;
      },
      done tt,
    )

-- The length in milliseconds is a u32 that wraps (a debug build panics there).
unfoldable pub add_timeslot : ReplayBody → ℕ → Bytes → ReplayBody
add_timeslot b time_increment actions = record b {
  replay_length_ms = as_u32 (b.replay_length_ms + time_increment);
  blocks =
      b.blocks
      ++ ((0x1F ∷ []) ++ le16 (as_u16 (2 + length actions)) ++ le16 time_increment ++ actions);
}

unfoldable pub add_timeslot2 : ReplayBody → Bytes → ReplayBody
add_timeslot2 b actions = record b {
  blocks = b.blocks ++ ((0x1E ∷ []) ++ le16 (as_u16 (2 + length actions)) ++ le16 0 ++ actions);
}

unfoldable pub add_chat : ReplayBody → ℕ → ℕ → ℕ → Bytes → ReplayBody
add_chat b pid flag extra message = record b {
  blocks =
      b.blocks
      ++ put_cstr
          ((0x20 ∷ pid ∷ [])
            ++ le16 (as_u16 (1 + 4 + length message + 1))
            ++ (flag ∷ [])
            ++ le32 extra)
          message;
}

abbrev pub leaver_block : ℕ → ℕ → ℕ → Bytes
leaver_block pid reason result = (0x17 ∷ []) ++ le32 reason ++ (pid ∷ []) ++ le32 result ++ le32 1

unfoldable pub add_leaver : ReplayBody → ℕ → ℕ → ℕ → ReplayBody
add_leaver b pid reason result = record b { blocks = b.blocks ++ leaver_block pid reason result }

unfoldable pub add_server_chat : ReplayBody → ℕ → Bytes → ReplayBody
add_server_chat b pid message = add_chat b pid 0x20 0 message

unfoldable pub add_leaver_loading : ReplayBody → ℕ → ℕ → ℕ → ReplayBody
add_leaver_loading b pid reason result = record b {
  loading_blocks = b.loading_blocks ++ leaver_block pid reason result ∷ [];
}

-- The loops of `prologue`.
abbrev pub player_records : List (ℕ × Bytes) → Bytes
player_records [] = []
player_records ((pid, name) ∷ players) =
    put_cstr (22 ∷ pid ∷ []) name ++ (1 ∷ 0 ∷ []) ++ le32 0 ++ player_records players

abbrev pub joined : List Bytes → Bytes
joined [] = []
joined (b ∷ bs) = b ++ joined bs

unfoldable pub prologue : ReplayBody → Outcome Bytes
prologue b =
    if not b.start_set
    then failure start_never_set
    else done (
        put_cstr (put_cstr (le32 0x110 ++ (0 ∷ b.host_pid ∷ [])) b.host_name ++ (1 ∷ 0 ∷ []))
          b.game_name
        ++ (0 ∷ [])
        ++ b.stat_string
        ++ (0 ∷ [])
        ++ le32 (as_u32 b.num_slots)
        ++ le32 1
        ++ le32 0x12F8B0
        ++ player_records b.players
        ++ (25 ∷ [])
        ++ le16 (as_u16 (7 + b.num_slots * 9))
        ++ (as_u8 b.num_slots ∷ [])
        ++ b.slots
        ++ le32 b.random_seed
        ++ (b.select_mode ∷ b.start_spots ∷ [])
        ++ (0x1A ∷ [])
        ++ le32 1
        ++ (0x1B ∷ [])
        ++ le32 1
        ++ joined b.loading_blocks
        ++ (0x1C ∷ [])
        ++ le32 1)

unfoldable pub finish : ReplayBody → Outcome (Bytes × ℕ)
finish b = elim (prologue b) [
  | failure e ↦ failure e
  | done r ↦ done (r ++ b.blocks, b.replay_length_ms)
]

-- The body after the call, and the blocks since the last one.
unfoldable pub drain_new_blocks : ReplayBody → ReplayBody × Bytes
drain_new_blocks b = (record b { published = length b.blocks }, drop b.published b.blocks)
