-- ===== src/Engine/Soundness/Loading.antt =====
-- `begin_loading` (actions.rs), `handle_map_size` (mapxfer.rs) and `handle_action` (actions.rs) of
-- crates/spectre-engine/src keep a game sound.
use ghostrs.Engine.Soundness.Leavers.{reap_left_players-SoundIf}
use ghostrs.Engine.Keeps.Starts.{play_if-Still, map_size_rejoin-Keeps}
use ghostrs.Engine.Hcl.{encode_hcl_into_slots}
use ghostrs.Engine.MapSize.{
  download_from, has_download, may_download, awaits_map_size, handle_map_size, map_size_of,
  reported, offer_map,
}
use ghostrs.Engine.Slots.{SlotTable}
use ghostrs.Engine.Phases.{
  all_loaded, with_slots, into_loading, load_fake, encode_hcl, begin_loading,
}
use ghostrs.Base.{
  ◌++◌, ◌==◌, leb, not, Option, ℕ, Bool, true, none, some, [], ◌∷◌, refl, ◌&&◌, ◌||◌,
}
use ghostrs.Protocol.Buffer.{Bytes}
use ghostrs.Protocol.Error.{Result, ok, err}
use ghostrs.Protocol.W3gs.Outgoing.{
  start_download, game_loaded_others, countdown_end, countdown_start,
}
use ghostrs.Protocol.W3gs.Incoming.{run, MapSizeReport, map_size_report}
use ghostrs.Engine.Announce.{delete_virtual_host, broadcast_some}
use ghostrs.Engine.Soundness.{
  beside, Sound, SoundIf, is_sound, Still-Sound, Keeps-Sound, if_sound, delete_virtual_host-Sound,
}
use ghostrs.Engine.Keeps.{
  send_some-Keeps, kick_player-Keeps, broadcast_some-Keeps, send_all_slot_info-Keeps, Keeps, same,
  and_then, if_kept,
}
use ghostrs.Engine.Keeps.Handlers.{at_pid}
use ghostrs.Engine.State.{host_pid, is_some, GameState}
use ghostrs.Engine.Players.{by_pid, by_conn, Player}

module _ (show_secs : ℕ → Bytes) (now : ℕ) where
  with_slots-Sound :
      (r : Bool × SlotTable) (st : GameState) → Sound st → Sound (with_slots show_secs now r st)
  with_slots-Sound (encoded, slots) st s =
      let st' : GameState = record st { slots = slots } in
      Keeps-Sound (if_kept encoded (send_all_slot_info-Keeps now st') same) (beside s refl refl)

  encode_hcl-Sound :
      (o : Option Bytes) (st : GameState) → Sound st → Sound (encode_hcl show_secs now o st)
  encode_hcl-Sound none st s = s
  encode_hcl-Sound (some hcl) st s = with_slots-Sound (encode_hcl_into_slots hcl st.slots) st s

  load_fake-Keeps : (o : Option ℕ) (st : GameState) → Keeps st (load_fake show_secs now o st)
  load_fake-Keeps none st = same
  load_fake-Keeps (some fpid) st =
      and_then (at_pid fpid (λ p. record p { loaded = true }) st (λ p. refl))
        (broadcast_some-Keeps now (game_loaded_others fpid) _)

  pub begin_loading-SoundIf : (st : GameState) → Sound st → SoundIf (begin_loading show_secs now st)
  unfolding begin_loading
  begin_loading-SoundIf st s =
      let entered = into_loading show_secs now st in
      let shown = encode_hcl show_secs now st.hcl entered in
      let counted = broadcast_some now countdown_start shown in
      let alone = delete_virtual_host now counted in
      let done = broadcast_some now countdown_end alone in
      let st' = load_fake show_secs now st.fake_player_pid done in
      let s1 = encode_hcl-Sound st.hcl entered (beside s refl refl) in
      let s2 = Keeps-Sound (broadcast_some-Keeps now countdown_start shown) s1 in
      let s3 = delete_virtual_host-Sound now counted s2 in
      let s4 = Keeps-Sound (broadcast_some-Keeps now countdown_end alone) s3 in
      Still-Sound (play_if-Still show_secs now (all_loaded st'.players) st')
        (Keeps-Sound (load_fake-Keeps st.fake_player_pid done) s4)

  offer_map-SoundIf :
      (pid map_size : ℕ) (st : GameState)
      → Sound st
      → SoundIf (offer_map show_secs now pid map_size st)
  offer_map-SoundIf pid map_size st s =
      if_sound (not (is_some st.cfg.map.map_data) || st.cfg.allow_downloads == 0)
        (reap_left_players-SoundIf show_secs now _ (Keeps-Sound (kick_player-Keeps pid _ _ st) s))
        (if_sound (st.cfg.allow_downloads == 2 && not (may_download (by_pid st.players pid)))
          (is_sound s)
          (if_sound (has_download pid st.downloads) (is_sound s) (
            is_sound (
              let asked : GameState = record st {
                downloads = st.downloads ++ download_from now pid map_size ∷ [];
              } in
              Keeps-Sound (send_some-Keeps now pid (start_download (host_pid st)) asked)
                (beside s refl refl)))))

  reported-SoundIf :
      (pid : ℕ) (r : Result MapSizeReport) (st : GameState)
      → Sound st
      → SoundIf (reported show_secs now pid r st)
  reported-SoundIf pid (err e) st s = is_sound s
  reported-SoundIf pid (ok report) st s =
      if_sound (leb st.cfg.map.size report.map_size)
        (is_sound
          (Keeps-Sound (at_pid pid (λ p. record p { download_status = 100 }) st (λ p. refl)) s))
        (offer_map-SoundIf pid report.map_size st s)

  map_size_of-SoundIf :
      (o : Option Player) (payload : Bytes) (st : GameState)
      → Sound st
      → SoundIf (map_size_of show_secs now o payload st)
  map_size_of-SoundIf none payload st s = is_sound s
  map_size_of-SoundIf (some p) payload st s =
      if_sound (awaits_map_size (by_pid st.players p.pid))
        (is_sound (Keeps-Sound (map_size_rejoin-Keeps now p.pid st) s))
        (reported-SoundIf p.pid (run map_size_report payload) st s)

  pub handle_map_size-SoundIf :
      (conn_id : ℕ) (payload : Bytes) (st : GameState)
      → Sound st
      → SoundIf (handle_map_size show_secs now conn_id payload st)
  unfolding handle_map_size
  handle_map_size-SoundIf conn_id payload st s =
      map_size_of-SoundIf (by_conn st.players conn_id) payload st s
