-- ===== src/Lib.antt =====
-- Spectre, a host for Warcraft III games: the protocols on its wire, the state of its games, the
-- replays that it keeps for spectators, and the reader of map archives.
--
-- A client's bytes go through the framing codec, which cuts them into frames; the decoders of a
-- protocol read a frame's payload; the game reacts on its players and slots and queues frames on the
-- players' links; and the tick scheduler paces the game. Each packet of a running game goes into two
-- logs: the GProxy buffer of a player, from which a player who lost the link is sent what it missed,
-- and the full history, from which spectators and late joiners read.
--
-- Which file models which part, with paths from the root of the repository:
--   Protocol/Error, Protocol/Buffer: crates/spectre-protocol/src/error.rs and bytes_ext.rs. A buffer
--     is the list of its bytes, and a read returns its result and the buffer it leaves. Statstring
--     below Buffer is the codec of stat strings, and Protocol/Utf8 the lossy reading of text.
--   Protocol/Frame: crates/spectre-protocol/src/frame.rs, `Frame::encode_with` and `HeaderCodec`.
--   Protocol/Gps: crates/spectre-protocol/src/gps/mod.rs, the reconnect messages.
--   Protocol/W3gs: crates/spectre-protocol/src/w3gs, its ids, slots, incoming and outgoing packets.
--     `crc32fast::hash` is a parameter of the packets that carry a checksum.
--   Engine/Tick, Engine/History, Engine/Slots, Engine/Players: tick.rs, full_history.rs, slots.rs and
--     players.rs of crates/spectre-engine/src. A method on `&mut self` returns the new state beside
--     its result. A write through `by_pid_mut` is a function on the first player that matches.
--   Engine/Gproxy: gproxy.rs of the same crate, with the reconnect handler and the reaper of lost
--     players over the player table. The current time is an argument.
--   Engine/State, Engine/Broadcast, Engine/Announce: state.rs of the same crate, its `GameState` with
--     the fields that the modelled handlers use, `broadcast`, `send_to`, `send_chat_all` and their
--     like. The relay of the spectators is the sending end of a bounded queue.
--   Engine/Catchup: `pump_rejoin_catchup` of state.rs, over runs of broadcasts, pumps, reads and closings.
--   Engine/Rejoin: full_rejoin.rs, and the branches of mapxfer.rs and actions.rs that go on with it.
--   Engine/Desync: `handle_keepalive` and `check_desync` of actions.rs. The order in which the hash
--     map of the vote is read is a parameter.
--   Engine/Actions: `send_all_actions` of actions.rs; the winner that the statistics report is an
--     argument of it.
--   Engine/Lag: lagcheck.rs. Engine/Lobby: `handle_action` of actions.rs, `handle_leave` and
--     `handle_conn_closed` of lobby.rs.
--   Engine/Transfer, Engine/MapSize: mapxfer.rs, the acknowledgements of a map's parts, the pump that
--     sends them, the pings, the drop requests and `handle_map_size`.
--   Engine/Join: `handle_req_join` of lobby.rs. Engine/Virtual: the virtual host and the fake player
--     of state.rs and actions.rs. Engine/Reap: `reap_left_players` of state.rs.
--   Engine/Phases, Engine/OnTick: actions.rs, from the countdown over the loading into the game, and
--     `on_tick`. The text of a loading time is a parameter.
--   Engine/Chat: chat.rs, `parse_command` (Parse, with Words and Arms), the requests for a slot
--     (SlotRequest), and `run_command` (Run) with the commands in groups: Start, Votes, Seats, Settings, Reports, and
--     Names for `by_name_partial` of players.rs; Handle is `handle_chat_to_host`.
--   Engine/Actor: actor.rs, the frames and commands to the handlers, and a round of the loop.
--   Engine/Keeps, Engine/Soundness: for each handler, that it keeps who sits in the game, or the
--     well-formedness of a game; Soundness/Games has the rounds as a relation.
--   Engine/Map: map.rs, the flags and the type of a game and the slots that a map's options ask for,
--     and what `MapInfo` of state.rs reads back from the flags.
--   Engine/Hcl: `encode_hcl_into_slots` of hcl.rs of the same crate.
--   Protocol/DotaTv: crates/spectre-protocol/src/dotatv.rs, the messages of the spectators.
--   Net/Conn: the codecs of crates/spectre-net/src/conn.rs.
--   Engine/Link: `PlayerLink` of crates/spectre-net/src/conn.rs, a bounded queue.
--   Spectator/Body: crates/spectre-spectator/src/body.rs, the body of a replay.
--   Mpq: crypt.rs, header.rs, hash_table.rs and block_table.rs of crates/spectre-mpq/src.
--   Base: Booleans, lists, machine words and windows of a list, which all parts share.
--   Tests: concrete inputs.
--
-- A client that comes back with nothing walks through Rejoin, whose last step hands it to Catchup,
-- whose runs stand on Broadcast, History and Link.
--
-- Numbers are native, and an operation of a w-bit integer that can wrap has its remainder written
-- out; where a debug build would panic on overflow a comment says so. A message that the code ends
-- in `expect` is `none` where that would panic. Loops are structural; three loops take fuel. For
-- `TickScheduler::advance` with a period above zero, fuel for each nanosecond up to the current
-- time is enough; for `check_desync`, one more than the checksums that wait; for a download, one
-- more than the bytes of the map. The searches for ids, colours and hash entries run for the
-- number of candidates that the code names, the chunks of a stat string for as many rounds as
-- there are bytes.
--
-- Not modelled: the BNCS protocol, the Battle.net client and its key checks, the parsing of maps,
-- the statistics, the sectors of archives, the relay and the replay container; the rows in the
-- database that a finished game or download leaves, and the live stream for DotaTV; and what is I/O:
-- sockets, tasks, the database, configuration and logging. What the game prints of its statistics
-- and what it reads of the actions are parameters; so are the Unicode tables behind
-- `split_whitespace` and `to_lowercase`, random numbers, and the order in which a hash map is read.

pub mod Base
pub mod Protocol
pub mod Net
pub mod Engine
pub mod Spectator
pub mod Mpq
pub mod Tests
