-- ===== src/Engine/Transfer.antt =====
-- crates/spectre-engine/src/mapxfer.rs: maps on their way to players, and the pings and drop requests
-- that the file handles too. Times are milliseconds; `crc32` stands for `crc32fast::hash`.
pub mod Chunks
pub mod Ends
use mathlib.Core.Option
use ghostrs.Base.{
  ℕ, zero, suc, ◌+◌, ◌-◌, ◌*◌, ◌/◌, ◌^◌, Bool, true, false, ◌&&◌, ◌||◌, not, List, [], ◌∷◌, ◌++◌,
  Option, none, some, leb, ltb, ◌==◌, if◌then◌else◌, length, take, drop, min, max, map, as_u8,
  as_u32, text,
}
use ghostrs.Protocol.Error.{Result, ok, err}
use ghostrs.Protocol.Buffer.{Bytes}
use ghostrs.Protocol.W3gs.Ids
use ghostrs.Protocol.W3gs.Incoming.{run, map_part_ok, decode_map_part_not_ok, pong_to_host}
use ghostrs.Protocol.W3gs.Outgoing.{map_part}
use ghostrs.Engine.Players.{
  Player, PlayerTable, by_pid, by_conn, with_pid, with_conn, filter, record_ping, average_ping,
}
use ghostrs.Engine.State.{
  GameState, GamePhase, Download, is_some, is_in_lobby, host_pid, kick_player,
}
use ghostrs.Engine.Broadcast.{send_to}
use ghostrs.Engine.Lag.{decimal, kick_all}

abbrev pub map_chunk : ℕ
map_chunk = 1442

abbrev pub start_at : ℕ → ℕ → Download
start_at now pid = record { pid = pid; sent_upto = 0; acked_upto = 0; started = now }

-- A write through `downloads.iter_mut().find(|d| d.pid == pid)`.
unfoldable pub with_download : ℕ → (Download → Download) → List Download → List Download
with_download pid f [] = []
with_download pid f (d ∷ downloads) =
    if d.pid == pid then f d ∷ downloads else d ∷ with_download pid f downloads

-- `((upto as u64 * 100) / total as u64).min(100) as u8`, with `total` at least 1.
abbrev pub percent : ℕ → ℕ → ℕ
percent upto size = as_u8 (min (upto * 100 / max size 1) 100)

abbrev pub shows : ℕ → ℕ → Player → Player
shows upto size p = record p { download_status = percent upto size }

abbrev pub acknowledge : ℕ → ℕ → GameState → GameState
acknowledge pid acked st = record st {
  downloads = with_download pid (λ d. record d { acked_upto = acked }) st.downloads;
  players = with_pid st.players pid (shows acked st.cfg.map.size);
}

abbrev pub part_ok : Option Player → Result ℕ → GameState → GameState
part_ok none r st = st
part_ok (some p) (err e) st = st
part_ok (some p) (ok acked) st = acknowledge p.pid acked st

unfoldable pub handle_map_part_ok : ℕ → Bytes → GameState → GameState
handle_map_part_ok conn_id payload st =
    part_ok (by_conn st.players conn_id) (run map_part_ok payload) st

abbrev pub rewind : ℕ → ℕ → GameState → GameState
rewind pid nack_pos st = record st {
  downloads =
      with_download pid (λ d. record d { sent_upto = nack_pos; acked_upto = nack_pos })
        st.downloads;
  players = with_pid st.players pid (shows nack_pos st.cfg.map.size);
}

abbrev pub part_not_ok : Option Player → Result ℕ → GameState → GameState
part_not_ok none r st = st
part_not_ok (some p) (err e) st = st
part_not_ok (some p) (ok nack_pos) st = rewind p.pid nack_pos st

unfoldable pub handle_map_part_not_ok : ℕ → Bytes → GameState → GameState
handle_map_part_not_ok conn_id payload st =
    part_not_ok (by_conn st.players conn_id) (decode_map_part_not_ok payload) st

-- A player whose average ping is over the limit of the lobby.
abbrev pub is_over : ℕ → Option ℕ → Bool
is_over limit none = false
is_over limit (some avg) = ltb limit avg

abbrev pub is_too_slow : GameState → Player → Bool
is_too_slow st p =
    is_in_lobby st.phase
    && (not p.reserved
        && (ltb 0 st.cfg.autokick_ping
            && (leb 3 (length p.ping_history) && is_over st.cfg.autokick_ping (average_ping p))))

abbrev pub digits : ℕ → Bytes
digits n = decimal (n + 1) n

abbrev pub ping_reason : ℕ → Option ℕ → Bytes
ping_reason limit none = []
ping_reason limit (some avg) =
    text "autokicked for high ping (" ++ digits avg ++ text "ms > " ++ digits limit ++ text "ms)"

abbrev pub kick_slow : Option Player → GameState → GameState
kick_slow none st = st
kick_slow (some p) st =
    if is_too_slow st p
    then kick_player p.pid (ping_reason st.cfg.autokick_ping (average_ping p))
        Ids.playerleave_disconnect st
    else st

abbrev pub ping_of : ℕ → ℕ → GameState → ℕ
ping_of now pong st =
    let latency_raw = as_u32 (now - st.created_at) - pong in
    if st.cfg.lc_pings then latency_raw / 2 else latency_raw

abbrev pub pinged : ℕ → ℕ → Result ℕ → GameState → GameState
pinged now conn_id (err e) st = st
pinged now conn_id (ok pong) st =
    let players = with_conn st.players conn_id (λ p. record_ping p (ping_of now pong st)) in
    if pong == 1 then st else kick_slow (by_conn players conn_id) (record st { players = players })

unfoldable pub handle_pong : ℕ → ℕ → Bytes → GameState → GameState
handle_pong now conn_id payload st = pinged now conn_id (run pong_to_host payload) st

unfoldable pub handle_drop_request : GameState → GameState
handle_drop_request st =
    if st.lagging
    then kick_all (text "was dropped by vote")
        (filter (λ p. p.lagging && not (is_some p.left)) st.players) st
    else st

-- A download behind its loop, the bytes of the second, and what is to be sent.
pub record Burst : Type 0 where
  pub download : Download
  pub counter : ℕ
  pub packets : List Bytes

abbrev pub add_packet : Bytes → Burst → Burst
add_packet b r = record r { packets = b ∷ r.packets }

abbrev pub slice : ℕ → ℕ → Bytes → Bytes
slice start end bytes = take (end - start) (drop start bytes)

abbrev pub burst_limit_of : Download → ℕ
burst_limit_of d = min (d.acked_upto + map_chunk * 100) (2 ^ 32 - 1)

-- What the loop over the downloads leaves: the downloads, the bytes and the packets with their pids.
abbrev pub Pumped : Type 0
Pumped = List Download × ℕ × List (ℕ × Bytes)

abbrev pub after : ℕ → Option Burst → (ℕ → Option Pumped) → Option Pumped
after pid none go = none
after pid (some r) go =
    Option.map
      (λ (p : Pumped). (r.download ∷ p.0, p.1, map {A = Bytes} (λ b. (pid, b)) r.packets ++ p.2))
      (go r.counter)

unfoldable pub send_parts : ℕ → List (ℕ × Bytes) → GameState → GameState
send_parts now [] st = st
send_parts now ((pid, b) ∷ packets) st = send_parts now packets (send_to now pid b st)

abbrev pub new_second : ℕ → GameState → GameState
new_second now st =
    if leb 1000 (now - st.last_download_counter_reset)
    then record st { download_counter = 0; last_download_counter_reset = now }
    else st

module _ (crc32 : Bytes → ℕ) (contents : Bytes) where
  abbrev pub sent_part : Result Bytes → Burst → Option Burst → Option Burst
  sent_part (ok b) stop rest = Option.map (add_packet b) rest
  sent_part (err e) stop rest = some stop

  -- `while d.sent_upto < burst_limit && d.sent_upto < total`; `none` where the fuel runs out.
  unfoldable pub part_loop : ℕ → ℕ → ℕ → ℕ → Download → ℕ → Option Burst
  part_loop zero host_pid max_speed_bytes burst_limit d counter = none
  part_loop (suc fuel) host_pid max_speed_bytes burst_limit d counter =
      let start = d.sent_upto in
      let end = min (start + map_chunk) (length contents) in
      let stop : Burst = record { download = d; counter = counter; packets = [] } in
      let rest =
        part_loop fuel host_pid max_speed_bytes burst_limit (record d { sent_upto = as_u32 end })
          (counter + (end - start)) in
      if ltb start burst_limit && ltb start (as_u32 (length contents))
      then (if ltb 0 max_speed_bytes && leb max_speed_bytes counter
          then some stop
          else sent_part (map_part crc32 host_pid d.pid start (slice start end contents)) stop rest)
      else some stop

  -- `for d in self.downloads.iter_mut()`, with the downloaders so far.
  unfoldable pub download_loop : ℕ → ℕ → ℕ → ℕ → List Download → ℕ → ℕ → Option Pumped
  download_loop fuel host_pid max_speed_bytes max_downloaders [] count counter =
      some ([], counter, [])
  download_loop fuel host_pid max_speed_bytes max_downloaders (d ∷ downloads) count counter =
      let go = download_loop fuel host_pid max_speed_bytes max_downloaders downloads in
      if leb (as_u32 (length contents)) d.acked_upto
      then Option.map (λ (p : Pumped). (d ∷ p.0, p.1, p.2)) (go count counter)
      else if ltb 0 max_downloaders && ltb max_downloaders (count + 1)
      then some (d ∷ downloads, counter, [])
      else after d.pid (part_loop fuel host_pid max_speed_bytes (burst_limit_of d) d counter)
          (go (count + 1))

  -- `retain`: the downloads that are not acknowledged whole.
  unfoldable pub unfinished : List Download → List Download
  unfinished [] = []
  unfinished (d ∷ downloads) =
      let rest = unfinished downloads in
      if leb (as_u32 (length contents)) d.acked_upto then rest else d ∷ rest

  abbrev pub pump_with : ℕ → GameState → Option Pumped → Option GameState
  pump_with now st none = none
  pump_with now st (some (downloads, counter, packets)) = some (
      send_parts now packets
        (record st { downloads = unfinished downloads; download_counter = counter }))

  abbrev pub pump_map : ℕ → ℕ → GameState → Option GameState
  pump_map fuel now st =
      let st' = new_second now st in
      pump_with now st' (
        download_loop fuel (host_pid st') (st'.cfg.max_download_speed * 1024)
          st'.cfg.max_downloaders st'.downloads 0 st'.download_counter)

abbrev pub pump_of : (Bytes → ℕ) → ℕ → ℕ → Option Bytes → GameState → Option GameState
pump_of crc32 fuel now none st = some (record st { downloads = [] })
pump_of crc32 fuel now (some contents) st = pump_map crc32 contents fuel now st

-- What `retain` gives to the database is left out; `none` where the fuel runs out.
unfoldable pub pump_downloads : (Bytes → ℕ) → ℕ → ℕ → GameState → Option GameState
pump_downloads crc32 fuel now st =
    if is_in_lobby st.phase then pump_of crc32 fuel now st.cfg.map.map_data st else some st
