-- ===== src/Engine/Soundness.antt =====
-- Every handler of a game keeps it sound: the ids of the players are distinct and between 1 and 254,
-- and each action that waits fits into a packet.
pub mod Leavers
pub mod Loading
pub mod Joins
pub mod Sending
pub mod Rounds
pub mod Chats
pub mod Replies
pub mod Commands
pub mod Lines
pub mod Games
use ghostrs.Engine.Slots.{occupy_slot, first_open, release}
use ghostrs.Engine.Link.{PlayerLink}
use ghostrs.Engine.Phases.{start_countdown, ◌>>=◌}
use ghostrs.Engine.Virtual.{
  fake_player, toggle_of, add_fake, toggle_fake_player, remove_fake, virtual_player, no_ip,
  host_with, create_virtual_host,
}
use ghostrs.Engine.Announce.{broadcast_some, broadcast_ok, delete_virtual_host}
use mathlib.Core.Option
use ghostrs.Base.{
  text, ◌||◌, if◌then◌else◌, Option, All, subst, sym, ◌≤◌, any, ◌==◌, ℕ, zero, suc, ◌≡◌, refl, ap,
  ◌∙◌, inl, inr, Bool, true, false, List, [], ◌∷◌, none, some, map, arith, Bool-cases,
}
use ghostrs.Protocol.Error.{Result, ok, err}
use ghostrs.Protocol.Buffer.{Bytes}
use ghostrs.Protocol.W3gs.Incoming.{run}
use ghostrs.Engine.Players.{
  insert, has_pid, new_player, remove_pid, next_free_pid, Player, PlayerTable, with_pid, with_conn,
  filter,
}
use ghostrs.Engine.State.{is_in_lobby, GameState}
use ghostrs.Engine.Keeps.{
  Keeps, Still, panics, goes, kept, same, and_then, behind, bind-Still, map-Still, if_kept,
  if_Still, pids, pids-with_pid, pids-with_conn, pids-map, kick_player-Keeps, broadcast-Keeps,
  send_to-Keeps, broadcast_ok-Keeps, broadcast_some-Keeps, send_ok-Keeps, send_some-Keeps,
  send_chat_all-Still, send_chat_to-Still, send_all_slot_info-Keeps,
}
use ghostrs.Engine.Keeps.Handlers.{at_pid, at_conn, kick_all-Keeps}
use ghostrs.Engine.Players.Pids.{
  Distinct, IsFresh, insert-Distinct, remove-Distinct, found-Distinct,
}
use ghostrs.Engine.Players.Pids.{next_free_pid-Searched, Searched}
use ghostrs.Protocol.W3gs.Outgoing.{player_info, player_leave_others}
use ghostrs.Protocol.W3gs.Ids
use ghostrs.Engine.Actions.Batches.{IsSmall}

-- The ids alone.
in_use : ℕ → List ℕ → Bool
in_use c [] = false
in_use c (pid ∷ rest) = pid == c || in_use c rest

any-pids : (c : ℕ) (players : PlayerTable) → any (has_pid c) players ≡ in_use c (pids players)
unfolding in_use
any-pids c [] = refl
any-pids c (p ∷ players) = cc (any-pids c players)

abbrev Unique : List ℕ → Type 0
Unique [] = Unit {0}
Unique (pid ∷ rest) = (in_use pid rest ≡ false) × (1 ≤ pid) × (pid ≤ 254) × Unique rest

Distinct-Unique : (players : PlayerTable) → Distinct players → Unique (pids players)
Distinct-Unique [] d = tt
Distinct-Unique (p ∷ players) (fresh, low, high, d) =
    (sym (any-pids p.pid players) ∙ fresh, low, high, Distinct-Unique players d)

Unique-Distinct : (players : PlayerTable) → Unique (pids players) → Distinct players
Unique-Distinct [] u = tt
Unique-Distinct (p ∷ players) (fresh, low, high, u) =
    (any-pids p.pid players ∙ fresh, low, high, Unique-Distinct players u)

same_pids-Distinct :
    (players players' : PlayerTable)
    → pids players' ≡ pids players
    → Distinct players
    → Distinct players'
same_pids-Distinct players players' e d =
    Unique-Distinct players' (subst Unique (sym e) (Distinct-Unique players d))

pub record Sound (st : GameState) : Type 0 where
  pub distinct : Distinct st.players
  pub small : All IsSmall st.actions

pub Keeps-Sound : {st st' : GameState} → Keeps st st' → Sound st → Sound st'
Keeps-Sound {st} {st'} k s = record {
  distinct = same_pids-Distinct st.players st'.players k.seats s.distinct;
  small = subst (All IsSmall) (sym k.queued) s.small;
}

-- A change of other fields.
pub beside :
    {st st' : GameState}
    → Sound st
    → st'.players ≡ st.players
    → st'.actions ≡ st.actions
    → Sound st'
beside s seats queued = record {
  distinct = subst Distinct (sym seats) s.distinct;
  small = subst (All IsSmall) (sym queued) s.small;
}

-- The same of a call that may panic.
pub data SoundIf : Option GameState → Type 0 where
  panicked : SoundIf none
  is_sound : {st : GameState} → Sound st → SoundIf (some st)

pub Still-Sound : {st : GameState} {o : Option GameState} → Still st o → Sound st → SoundIf o
Still-Sound panics s = panicked
Still-Sound (goes k) s = is_sound (Keeps-Sound k s)

pub bind_sound :
    {o : Option GameState} (f : GameState → Option GameState)
    → SoundIf o
    → ((st : GameState) → Sound st → SoundIf (f st))
    → SoundIf (o >>= f)
bind_sound f panicked k = panicked
bind_sound f (is_sound {st} s) k = k st s

pub map_sound :
    {o : Option GameState} (f : GameState → GameState)
    → SoundIf o
    → ((st : GameState) → Sound st → Sound (f st))
    → SoundIf (Option.map f o)
map_sound f panicked k = panicked
map_sound f (is_sound {st} s) k = is_sound (k st s)

pub if_sound :
    {a b : Option GameState} (test : Bool) → SoundIf a → SoundIf b → SoundIf (if test then a else b)
if_sound true h k = h
if_sound false h k = k

pub if_Sound_state :
    {a b : GameState} (test : Bool) → Sound a → Sound b → Sound (if test then a else b)
if_Sound_state true h k = h
if_Sound_state false h k = k

-- Players come under an id that was free before the packets of their arrival, and go.
pub seat-Distinct :
    (st st' : GameState) (p : Player)
    → next_free_pid st.players ≡ some p.pid
    → Keeps st st'
    → Sound st
    → Distinct (insert st'.players p)
seat-Distinct st st' p e k s =
    let (low, high, fresh, lower) =
      subst (Searched st.players 1 254) e (next_free_pid-Searched st.players) in
    insert-Distinct st'.players p (Keeps-Sound k s).distinct
      (any-pids p.pid st'.players
        ∙ ap (in_use p.pid) k.seats
        ∙ sym (any-pids p.pid st.players)
        ∙ fresh)
      low (omega arith)

pub remove-Sound : (st : GameState) (pid : ℕ) → Sound st → Distinct (remove_pid st.players pid).1
unfolding remove_pid
remove-Sound st pid s = remove-Distinct (has_pid pid) st.players s.distinct

module _ (now : ℕ) where
  pub delete_virtual_host-Sound : (st : GameState) → Sound st → Sound (delete_virtual_host now st)
  unfolding delete_virtual_host
  delete_virtual_host-Sound st s =
      let gone : GameState = record st {
        virtual_host_pid = 255;
        players = (remove_pid st.players st.virtual_host_pid).1;
      } in
      if_Sound_state (st.virtual_host_pid == 255) s (
        Keeps-Sound
          (broadcast_some-Keeps now (player_leave_others st.virtual_host_pid Ids.playerleave_lobby)
            gone)
          (record { distinct = remove-Sound st st.virtual_host_pid s; small = s.small }))

  host_with-Sound :
      (o : Option ℕ) (st : GameState)
      → next_free_pid st.players ≡ o
      → Sound st
      → Sound (host_with now o st)
  unfolding new_player
  host_with-Sound none st e s = s
  host_with-Sound (some pid) st e s =
      let named : GameState = record st { virtual_host_pid = pid } in
      let packet = player_info pid st.cfg.virtual_host_name no_ip no_ip in
      let k = broadcast_ok-Keeps now packet named in
      record {
        distinct =
            seat-Distinct st (broadcast_ok now packet named)
              (virtual_player pid st.cfg.virtual_host_name) e (kept k.seats k.slots k.queued) s;
        small = subst (All IsSmall) (sym k.queued) s.small;
      }

  pub create_virtual_host-Sound : (st : GameState) → Sound st → Sound (create_virtual_host now st)
  unfolding create_virtual_host
  create_virtual_host-Sound st s =
      if_Sound_state (st.virtual_host_pid == 255)
        (host_with-Sound (next_free_pid st.players) st refl s) s

  remove_fake-Sound : (fpid : ℕ) (st : GameState) → Sound st → Sound (remove_fake now fpid st)
  remove_fake-Sound fpid st s =
      let gone : GameState = record st {
        fake_player_pid = none;
        players = (remove_pid st.players fpid).1;
        slots = (release st.slots fpid).1;
      } in
      let told = broadcast_some now (player_leave_others fpid Ids.playerleave_lobby) gone in
      Keeps-Sound
        (and_then (broadcast_some-Keeps now (player_leave_others fpid Ids.playerleave_lobby) gone)
          (send_all_slot_info-Keeps now told))
        (record { distinct = remove-Sound st fpid s; small = s.small })

  add_fake-Sound :
      (fake_link : PlayerLink) (o slot : Option ℕ) (st : GameState)
      → next_free_pid st.players ≡ o
      → Sound st
      → Sound (add_fake now fake_link o slot st)
  unfolding new_player
  add_fake-Sound fake_link none slot st e s = s
  add_fake-Sound fake_link (some fpid) none st e s = s
  add_fake-Sound fake_link (some fpid) (some idx) st e s =
      let seated : GameState = record st {
        players = insert st.players (fake_player fpid fake_link);
        slots = (occupy_slot st.slots idx fpid).1;
        fake_player_pid = some fpid;
      } in
      let packet = player_info fpid (text "FakePlayer") no_ip no_ip in
      Keeps-Sound
        (and_then (broadcast_ok-Keeps now packet seated)
          (send_all_slot_info-Keeps now (broadcast_ok now packet seated)))
        (record {
          distinct = seat-Distinct st st (fake_player fpid fake_link) e same s;
          small = s.small;
        })

  toggle_of-Sound :
      (fake_link : PlayerLink) (o : Option ℕ) (st : GameState)
      → Sound st
      → Sound (toggle_of now fake_link o st)
  toggle_of-Sound fake_link (some fpid) st s = remove_fake-Sound fpid st s
  toggle_of-Sound fake_link none st s =
      add_fake-Sound fake_link (next_free_pid st.players) (first_open st.slots) st refl s

  pub toggle_fake_player-Sound :
      (fake_link : PlayerLink) (st : GameState)
      → Sound st
      → Sound (toggle_fake_player now fake_link st)
  unfolding toggle_fake_player
  toggle_fake_player-Sound fake_link st s =
      if_Sound_state (is_in_lobby st.phase) (toggle_of-Sound fake_link st.fake_player_pid st s) s

pub start_countdown-Sound : (now : ℕ) (st : GameState) → Sound st → Sound (start_countdown now st)
unfolding start_countdown
start_countdown-Sound now st s =
    if_Sound_state (is_in_lobby st.phase) (record { distinct = s.distinct; small = s.small }) s
