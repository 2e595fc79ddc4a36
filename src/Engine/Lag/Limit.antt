-- ===== src/Engine/Lag/Limit.antt =====
-- The game goes on only while nobody is too far behind.
use ghostrs.Base.{
  ℕ, ◌-◌, ◌/◌, ◌≤◌, ◌≡◌, refl, sym, ap₂, ◌∙◌, ◌⊎◌, inl, inr, Bool, true, false, ◌&&◌, ◌||◌, not,
  List, [], ◌∷◌, Option, none, some, arith, leb, ltb, if◌then◌else◌, map, All, Bool-cases,
}
use ghostrs.Protocol.Error.{Result, ok, err}
use ghostrs.Protocol.Buffer.{Bytes}
use ghostrs.Protocol.W3gs.Outgoing.{start_lag, stop_lag, incoming_action}
use ghostrs.Engine.Link.{Sent, delivered, failed, backpressure, closed, try_send}
use ghostrs.Engine.Players.{Player, PlayerTable}
use ghostrs.Engine.State.{GameState, is_some}
use ghostrs.Engine.Broadcast.{broadcast, offer, settle, record_packet}
use ghostrs.Engine.Announce.{broadcast_ok, broadcast_some}
use ghostrs.Engine.Catchup.Progress.{is_held}
use ghostrs.Engine.Lag.{
  is_watched, lag_player, tell_stopped, screen_reset, raise_screen, any_lagging, refresh_with,
  refresh_screen, note_lag, set_lagging, check_lag, laggers_of, notices,
}

-- What every broadcast and the clock of the screen keep, the steps of the lag screen keep.
module _ (now : ℕ) (P : GameState → Type 0)
    (keeps : (b : Bytes) (st : GameState) → P st → P (broadcast now b st))
    (resets : (st : GameState) → P st → P (screen_reset now st)) where
  broadcast_ok-keeps : (r : Result Bytes) (st : GameState) → P st → P (broadcast_ok now r st)
  broadcast_ok-keeps (ok b) st h = keeps b st h
  broadcast_ok-keeps (err e) st h = h

  broadcast_some-keeps : (o : Option Bytes) (st : GameState) → P st → P (broadcast_some now o st)
  broadcast_some-keeps none st h = h
  broadcast_some-keeps (some b) st h = keeps b st h

  tell_stopped-keeps : (l : List (ℕ × ℕ)) (st : GameState) → P st → P (tell_stopped now l st)
  unfolding tell_stopped
  tell_stopped-keeps [] st h = h
  tell_stopped-keeps ((pid, ms) ∷ rest) st h =
      tell_stopped-keeps rest _ (broadcast_some-keeps (stop_lag pid ms) st h)

  raise_screen-keeps :
      (was : Bool) (l : List (ℕ × ℕ)) (st : GameState) → P st → P (raise_screen now was l st)
  raise_screen-keeps was [] st h = h
  raise_screen-keeps true (l ∷ laggers) st h = broadcast_ok-keeps (start_lag (l ∷ laggers)) st h
  raise_screen-keeps false (l ∷ laggers) st h =
      resets _ (broadcast_ok-keeps (start_lag (l ∷ laggers)) st h)

  module _ (crc32 : Bytes → ℕ) where
    refresh_with-keeps :
        (l : List (ℕ × ℕ)) (st : GameState) → P st → P (refresh_with crc32 now l st)
    refresh_with-keeps [] st h = h
    refresh_with-keeps (l ∷ laggers) st h = resets _ (
        broadcast_ok-keeps (start_lag (l ∷ laggers)) _ (
          broadcast_ok-keeps (incoming_action crc32 [] 0) _
            (tell_stopped-keeps (l ∷ laggers) st h)))

    refresh_screen-keeps : (st : GameState) → P st → P (refresh_screen crc32 now st)
    refresh_screen-keeps st h =
        elim (Bool-cases (st.lagging && leb 60000 (now - st.last_lag_screen_reset))) [
          | inl old ↦ rw old (refresh_with-keeps (laggers_of now st.players) st h)
          | inr fresh ↦ rw fresh h
        ]

-- A player who is not watched, or whose backlog fits what is noted of the player.
abbrev pub IsJudged : ℕ → ℕ → Player → Type 0
IsJudged limit game_sync p =
    (is_watched p ≡ false)
    ⊎ (if p.lagging
        then limit / 2 ≤ game_sync - p.sync_counter
        else game_sync - p.sync_counter ≤ limit)

lag_player-IsJudged :
    (now limit game_sync : ℕ) (p : Player)
    → IsJudged limit game_sync (lag_player now limit game_sync p)
unfolding lag_player
lag_player-IsJudged now limit game_sync p = elim (Bool-cases (is_watched p)) [
  | inr off ↦ rw off (inl off)
  | inl on ↦ elim (Bool-cases p.lagging) [
    | inl lags ↦ elim (Bool-cases (ltb (game_sync - p.sync_counter) (limit / 2))) [
      | inl near ↦ rw (on, lags, near) (inr (ground (arith, near)))
      | inr far ↦ rw (on, lags, far) (inr (ground (arith, lags, far)))
    ]
    | inr keeps_up ↦ elim (Bool-cases (ltb limit (game_sync - p.sync_counter))) [
      | inl far ↦ rw (on, keeps_up, far) (inr (ground (arith, far)))
      | inr near ↦ rw (on, keeps_up, near) (inr (ground (arith, keeps_up, near)))
    ]
  ]
]

-- What a broadcast keeps of a player, for the lag screen.
abbrev Alike : Player → Player → Type 0
Alike p q =
    (q.lagging ≡ p.lagging)
    × (q.sync_counter ≡ p.sync_counter)
    × (q.virtual_host ≡ p.virtual_host)
    × (is_watched p ≡ false → is_watched q ≡ false)

settle-Alike : (now : ℕ) (r : Sent) (p : Player) → Alike p (settle now r p)
settle-Alike now delivered p = (refl, refl, refl, λ h. h)
settle-Alike now (failed backpressure) p = (ground arith, ground arith, ground arith, ground arith)
settle-Alike now (failed closed) p = (ground arith, ground arith, ground arith, ground arith)

offer-Alike : (now : ℕ) (b : Bytes) (p : Player) → Alike p (offer now b p)
unfolding offer
offer-Alike now b p = elim (Bool-cases (is_some p.left || p.virtual_host)) [
  | inl out ↦ rw out (refl, refl, refl, λ h. h)
  | inr seated ↦ elim (Bool-cases (is_held p)) [
    | inl held ↦ rw (seated, held) (refl, refl, refl, λ h. h)
    | inr free ↦
        rw (seated, free)
          (settle-Alike now (try_send p.link b).0
            (record (record_packet b p) { link = (try_send p.link b).1 }))
  ]
]

offer-IsJudged :
    (now limit game_sync : ℕ) (b : Bytes) (p : Player)
    → IsJudged limit game_sync p
    → IsJudged limit game_sync (offer now b p)
offer-IsJudged now limit game_sync b p judged =
    let (lagging, counter, host, unwatched) = offer-Alike now b p in
    kept (offer now b p).lagging (offer now b p).sync_counter lagging counter judged unwatched
  where
    kept :
        (l : Bool) (n : ℕ)
        → l ≡ p.lagging
        → n ≡ p.sync_counter
        → IsJudged limit game_sync p
        → (is_watched p ≡ false → is_watched (offer now b p) ≡ false)
        → (is_watched (offer now b p) ≡ false)
          ⊎ (if l then limit / 2 ≤ game_sync - n else game_sync - n ≤ limit)
    kept l n el en (inl off) unwatched = inl (unwatched off)
    kept l n el en (inr fits) unwatched = inr (rw (el, en) fits)

AllJudged-lag :
    (now limit game_sync : ℕ) (players : PlayerTable)
    → All (IsJudged limit game_sync) (map (lag_player now limit game_sync) players)
AllJudged-lag now limit game_sync [] = tt
AllJudged-lag now limit game_sync (p ∷ players) =
    (lag_player-IsJudged now limit game_sync p, AllJudged-lag now limit game_sync players)

AllJudged-offer :
    (now limit game_sync : ℕ) (b : Bytes) (players : PlayerTable)
    → All (IsJudged limit game_sync) players
    → All (IsJudged limit game_sync) (map (offer now b) players)
AllJudged-offer now limit game_sync b [] h = tt
AllJudged-offer now limit game_sync b (p ∷ players) h =
    (offer-IsJudged now limit game_sync b p h.0, AllJudged-offer now limit game_sync b players h.1)

any_lagging-offer :
    (now : ℕ) (b : Bytes) (players : PlayerTable)
    → any_lagging (map (offer now b) players) ≡ any_lagging players
any_lagging-offer now b [] = refl
any_lagging-offer now b (p ∷ players) =
    let (lagging, counter, host, unwatched) = offer-Alike now b p in
    ap₂ ◌||◌ (ap₂ (λ h l. not h && l) host lagging) (any_lagging-offer now b players)

-- After `check_lag`, of the players it watches (seated ones, no virtual host, none who rejoin or
-- catch up), those noted as lagging are at least half the limit behind the game, and all others are
-- within the limit; and it returns whether any player but a virtual host is noted as lagging.
pub check_lag_lem :
    (crc32 : Bytes → ℕ) (now : ℕ) (st : GameState)
    → let r = check_lag crc32 now st in
      All (IsJudged st.cfg.sync_limit st.sync_counter) r.1.players × (r.0 ≡ any_lagging r.1.players)
unfolding check_lag
check_lag_lem crc32 now st =
    let (judged, noted) =
      refresh_screen-keeps now Checked keeps (λ s h. h) crc32 (set_lagging (note_lag now st))
        (noted_judged, refl) in
    (judged, noted)
  where
    Judged : GameState → Type 0
    Judged s = All (IsJudged st.cfg.sync_limit st.sync_counter) s.players

    Checked : GameState → Type 0
    Checked s =
        All (IsJudged st.cfg.sync_limit st.sync_counter) s.players
        × (s.lagging ≡ any_lagging s.players)

    judged_on :
        (b : Bytes) (s : GameState)
        → All (IsJudged st.cfg.sync_limit st.sync_counter) s.players
        → All (IsJudged st.cfg.sync_limit st.sync_counter) (broadcast now b s).players
    judged_on b s h =
        unfold broadcast in AllJudged-offer now st.cfg.sync_limit st.sync_counter b s.players h

    keeps : (b : Bytes) (s : GameState) → Checked s → Checked (broadcast now b s)
    keeps b s (h, e) =
        (judged_on b s h, unfold broadcast in (e ∙ sym (any_lagging-offer now b s.players)))

    noted_judged : Judged (note_lag now st)
    noted_judged =
        let seen = notices now st.cfg.sync_limit st.sync_counter st.players in
        raise_screen-keeps now Judged judged_on (λ s h. h) st.lagging seen.newly_lagging _
          (tell_stopped-keeps now Judged judged_on (λ s h. h) seen.recovered _
            (AllJudged-lag now st.cfg.sync_limit st.sync_counter st.players))
