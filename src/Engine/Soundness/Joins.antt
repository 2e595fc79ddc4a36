-- ===== src/Engine/Soundness/Joins.antt =====
-- `handle_req_join` of crates/spectre-engine/src/lobby.rs keeps a game sound, whoever asks for a seat.
use ghostrs.Engine.Keeps.Starts.{try_full_rejoin-Keeps}
use ghostrs.Engine.Rejoin.{try_full_rejoin, eq_ignore_ascii_case}
use ghostrs.Engine.Announce.{send_all_slot_info}
use ghostrs.Engine.Join.{
  target_sid, max_slots, take_pending, join_taken, hold_for, newcomer, welcome, handle_req_join,
  join_decoded, rejoin_or_refuse, join_lobby, Joining, join_at, built_slots, sent_slots, give_up,
  seated, meet,
}
use ghostrs.Base.{
  ◌-◌, if◌then◌else◌, map, ◌==◌, List, Option, ℕ, Bool, true, false, none, some, refl, ◌≡◌, any,
  leb, Bool-cases, inl, inr,
}
use ghostrs.Protocol.Buffer.{Bytes}
use ghostrs.Protocol.Error.{Result, ok, err}
use ghostrs.Protocol.W3gs.Incoming.{run, ReqJoin, req_join}
use ghostrs.Protocol.W3gs.Outgoing.{player_info}
use ghostrs.Engine.Link.{PlayerLink, Sent, delivered, failed, try_send}
use ghostrs.Engine.Soundness.{
  beside, Sound, Keeps-Sound, seat-Distinct, same_pids-Distinct, if_Sound_state,
  delete_virtual_host-Sound,
}
use ghostrs.Engine.Keeps.{send_all_slot_info-Keeps, same, pids-map}
use ghostrs.Engine.Slots.{occupy_slot}
use ghostrs.Engine.State.{is_in_lobby, is_some, GameState, Pending}
use ghostrs.Engine.Players.{new_player, human_count, next_free_pid, insert, Player}

-- `st` is the game in which the id was free, of the same players as the one that the newcomer enters.
module _ (now : ℕ) where
  meet-pid : (pid : ℕ) (packet : Result Bytes) (q : Player) → (meet pid packet q).pid ≡ q.pid
  meet-pid pid packet q = elim (Bool-cases (q.pid == pid)) [
    | inl itself ↦ rw itself refl
    | inr other ↦ rw other refl
  ]

  seated-Sound :
      (p : Player) (st : GameState)
      → next_free_pid st.players ≡ some p.pid
      → Sound st
      → Sound (seated now p st)
  seated-Sound p st e s =
      let packet = player_info p.pid p.name p.external_ip p.internal_ip in
      let met : GameState = record st { players = map (meet p.pid packet) (insert st.players p) } in
      let shown = send_all_slot_info now met in
      let s' : Sound shown = Keeps-Sound (send_all_slot_info-Keeps now met) (record {
        distinct =
            same_pids-Distinct (insert st.players p) met.players
              (pids-map (meet p.pid packet) (insert st.players p) (meet-pid p.pid packet))
              (seat-Distinct st st p e same s);
        small = s.small;
      }) in
      if_Sound_state (leb (max_slots - 1) (human_count shown.players))
        (delete_virtual_host-Sound now shown s') s'

  give_up-Sound :
      (pid : ℕ) (link : PlayerLink) (st : GameState) → Sound st → Sound (give_up pid link st).0
  give_up-Sound pid link st s = beside s refl refl

  sent_slots-Sound :
      (p : Player) (st : GameState) (r : Sent × PlayerLink)
      → next_free_pid st.players ≡ some p.pid
      → Sound st
      → Sound (sent_slots now p st r).0
  sent_slots-Sound p st (delivered, link) e s =
      seated-Sound (record p { link = welcome p st link }) st e s
  sent_slots-Sound p st (failed x, link) e s = give_up-Sound p.pid link st s

  built_slots-Sound :
      (p : Player) (st : GameState) (r : Result Bytes)
      → next_free_pid st.players ≡ some p.pid
      → Sound st
      → Sound (built_slots now p st r).0
  built_slots-Sound p st (ok b) e s = sent_slots-Sound p st (try_send p.link b) e s
  built_slots-Sound p st (err x) e s = give_up-Sound p.pid p.link st s

  join_at-Sound :
      (key conn_id : ℕ) (req : ReqJoin) (q : Pending) (is_reserved : Bool) (sid pid : Option ℕ)
      (st : GameState)
      → next_free_pid st.players ≡ pid
      → Sound st
      → Sound (join_at now key conn_id req q is_reserved sid pid st).0
  unfolding new_player
  join_at-Sound key conn_id req q is_reserved none pid st e s = s
  join_at-Sound key conn_id req q is_reserved (some sid) none st e s = s
  join_at-Sound key conn_id req q is_reserved (some sid) (some pid) st e s =
      let p = newcomer key pid conn_id req is_reserved q st in
      let st' : GameState = record st { slots = (occupy_slot st.slots sid pid).1 } in
      built_slots-Sound p st' _ e (beside s refl refl)

  if_Sound_game :
      (a b : Joining) (test : Bool) → Sound a.0 → Sound b.0 → Sound (if test then a else b).0
  if_Sound_game a b true h k = h
  if_Sound_game a b false h k = k

  join_lobby-Sound :
      (key conn_id : ℕ) (req : ReqJoin) (q : Pending) (st : GameState)
      → Sound st
      → Sound (join_lobby now key conn_id req q st).0
  join_lobby-Sound key conn_id req q st s =
      let reserved_sid = hold_for req.name st.holds in
      if_Sound_game _ _ (any (λ p. eq_ignore_ascii_case p.name req.name) st.players) s (
        join_at-Sound key conn_id req q (is_some reserved_sid) (target_sid reserved_sid st)
          (next_free_pid st.players) st refl s)

  rejoin_or_refuse-Sound :
      (link : PlayerLink) (r : Bool × GameState) → Sound r.1 → Sound (rejoin_or_refuse link r).0
  rejoin_or_refuse-Sound link (true, st) s = s
  rejoin_or_refuse-Sound link (false, st) s = s

  join_decoded-Sound :
      (key conn_id : ℕ) (q : Pending) (r : Result ReqJoin) (st : GameState)
      → Sound st
      → Sound (join_decoded now key conn_id q r st).0
  join_decoded-Sound key conn_id q (err e) st s = s
  join_decoded-Sound key conn_id q (ok req) st s =
      if_Sound_game _ _ (is_in_lobby st.phase) (join_lobby-Sound key conn_id req q st s) (
        rejoin_or_refuse-Sound q.link (try_full_rejoin now conn_id req q.external_ip q.link st)
          (Keeps-Sound (try_full_rejoin-Keeps now conn_id req q.external_ip q.link st) s))

  join_taken-Sound :
      (key conn_id : ℕ) (payload : Bytes) (o : Option (Pending × List Pending)) (st : GameState)
      → Sound st
      → Sound (join_taken now key conn_id payload o st).0
  join_taken-Sound key conn_id payload none st s = s
  join_taken-Sound key conn_id payload (some (q, pending)) st s =
      join_decoded-Sound key conn_id q (run req_join payload) (record st { pending = pending })
        (beside s refl refl)

  pub handle_req_join-Sound :
      (key conn_id : ℕ) (payload : Bytes) (st : GameState)
      → Sound st
      → Sound (handle_req_join now key conn_id payload st).0
  unfolding handle_req_join
  handle_req_join-Sound key conn_id payload st s =
      join_taken-Sound key conn_id payload (take_pending conn_id st.pending) st s
