-- ===== src/Engine/MapSize.antt =====
-- `handle_map_size` of crates/spectre-engine/src/mapxfer.rs: a player tells how much of the map it has.
use ghostrs.Engine.Reap.{reap_left_players}
use ghostrs.Engine.Rejoin.{map_size_rejoin}
use ghostrs.Protocol.Buffer.{Bytes}
use ghostrs.Engine.Announce.{send_some}
use ghostrs.Base.{
  text, leb, not, ◌++◌, ◌||◌, if◌then◌else◌, ◌==◌, List, Bool, ℕ, Option, none, some, [], ◌∷◌, true,
  false,
}
use ghostrs.Protocol.Error.{Result, ok, err}
use ghostrs.Protocol.W3gs.Ids
use ghostrs.Protocol.W3gs.Outgoing.{start_download}
use ghostrs.Protocol.W3gs.Incoming.{run, map_size_report, MapSizeReport}
use ghostrs.Engine.Players.{
  with_pid, by_pid, by_conn, Player, RejoinStage, awaiting_loaded, awaiting_map_size, normal,
}
use ghostrs.Engine.Transfer.{start_at}
use ghostrs.Base.{◌&&◌}
use ghostrs.Engine.State.{kick_player, is_some, host_pid, Download, GameState}

abbrev pub is_awaiting_map_size : RejoinStage → Bool
is_awaiting_map_size awaiting_map_size = true
is_awaiting_map_size awaiting_loaded = false
is_awaiting_map_size normal = false

abbrev pub awaits_map_size : Option Player → Bool
awaits_map_size none = false
awaits_map_size (some p) = is_awaiting_map_size p.rejoin

abbrev pub may_download : Option Player → Bool
may_download none = false
may_download (some p) = p.download_allowed

unfoldable pub has_download : ℕ → List Download → Bool
has_download pid [] = false
has_download pid (d ∷ downloads) = d.pid == pid || has_download pid downloads

abbrev pub download_from : ℕ → ℕ → ℕ → Download
download_from now pid upto = record (start_at now pid) { sent_upto = upto; acked_upto = upto }

abbrev pub begin_download : ℕ → ℕ → ℕ → GameState → GameState
begin_download now pid upto st =
    send_some now pid (start_download (host_pid st))
      (record st { downloads = st.downloads ++ download_from now pid upto ∷ [] })

module _ (show_secs : ℕ → Bytes) (now : ℕ) where
  abbrev pub offer_map : ℕ → ℕ → GameState → Option GameState
  offer_map pid map_size st =
      if not (is_some st.cfg.map.map_data) || st.cfg.allow_downloads == 0
      then reap_left_players show_secs now (
          kick_player pid (text "lacks map and downloads are disabled") Ids.playerleave_disconnect
            st)
      else if st.cfg.allow_downloads == 2 && not (may_download (by_pid st.players pid))
      then some st
      else if has_download pid st.downloads
      then some st
      else some (begin_download now pid map_size st)

  abbrev pub reported : ℕ → Result MapSizeReport → GameState → Option GameState
  reported pid (err e) st = some st
  reported pid (ok report) st =
      if leb st.cfg.map.size report.map_size
      then some (record st {
        players = with_pid st.players pid (λ p. record p { download_status = 100 });
      })
      else offer_map pid report.map_size st

  abbrev pub map_size_of : Option Player → Bytes → GameState → Option GameState
  map_size_of none payload st = some st
  map_size_of (some p) payload st =
      if awaits_map_size (by_pid st.players p.pid)
      then some (map_size_rejoin now p.pid st)
      else reported p.pid (run map_size_report payload) st

  unfoldable pub handle_map_size : ℕ → Bytes → GameState → Option GameState
  handle_map_size conn_id payload st = map_size_of (by_conn st.players conn_id) payload st
