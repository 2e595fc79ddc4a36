-- ===== src/Engine/Keeps.antt =====
-- What the packets, chat lines and kicks of a game leave as it is: who sits in it, the slots, and the
-- actions that wait.
use ghostrs.Protocol.W3gs.Outgoing.{chat_from_host}
use ghostrs.Engine.Announce.{
  recipients, at_most, replay_chat, chat_in_game, relay_chat, chat_before_game, whisper, send_some,
  broadcast_some, send_chat_all, say, send_chat_to, send_all_slot_info, send_ok, broadcast_ok,
}
use mathlib.Core.Option
pub mod Handlers
pub mod Ticks
pub mod Votes
pub mod Starts
use ghostrs.Base.{
  if◌then◌else◌, ◌==◌, Bool, Option, ℕ, ◌≡◌, refl, ap, ◌∙◌, inl, inr, true, false, List, [], ◌∷◌,
  none, some, map, arith, Bool-cases,
}
use ghostrs.Protocol.Error.{Result, ok, err}
use ghostrs.Protocol.Buffer.{Bytes}
use ghostrs.Engine.Players.{Player, PlayerTable, update_first, with_pid, with_conn}
use ghostrs.Engine.State.{is_before_game, host_pid, GameState, kick_player}
use ghostrs.Engine.Broadcast.{broadcast, send_to, offer, deliver}
use ghostrs.Engine.Broadcast.Lost.{offer-pid, deliver-pid}
use ghostrs.Engine.Phases.{◌>>=◌}

abbrev pub pids : PlayerTable → List ℕ
pids [] = []
pids (p ∷ players) = p.pid ∷ pids players

pub record Keeps (st st' : GameState) : Type 0 where
  pub seats : pids st'.players ≡ pids st.players
  pub slots : st'.slots ≡ st.slots
  pub queued : st'.actions ≡ st.actions

pub kept :
    {st st' : GameState}
    → pids st'.players ≡ pids st.players
    → st'.slots ≡ st.slots
    → st'.actions ≡ st.actions
    → Keeps st st'
kept a b c = record { seats = a; slots = b; queued = c }

pub same : {st : GameState} → Keeps st st
same = record { seats = refl; slots = refl; queued = refl }

pub and_then : {a b c : GameState} → Keeps a b → Keeps b c → Keeps a c
and_then h k = record {
  seats = k.seats ∙ h.seats;
  slots = k.slots ∙ h.slots;
  queued = k.queued ∙ h.queued;
}

-- The same of a call that may panic.
pub data Still (st : GameState) : Option GameState → Type 0 where
  panics : Still st none
  goes : {st' : GameState} → Keeps st st' → Still st (some st')

pub behind : {st st' : GameState} {o : Option GameState} → Keeps st st' → Still st' o → Still st o
behind h panics = panics
behind h (goes k) = goes (and_then h k)

-- A test in the code, whichever way it goes.
pub if_kept :
    {st a b : GameState} (test : Bool) → Keeps st a → Keeps st b → Keeps st (if test then a else b)
if_kept true h k = h
if_kept false h k = k

pub if_Still :
    {st : GameState} {a b : Option GameState} (test : Bool)
    → Still st a
    → Still st b
    → Still st (if test then a else b)
if_Still true h k = h
if_Still false h k = k

pub bind-Still :
    {st : GameState} {o : Option GameState} (f : GameState → Option GameState)
    → Still st o
    → ((st' : GameState) → Still st' (f st'))
    → Still st (o >>= f)
bind-Still f panics k = panics
bind-Still f (goes {st'} h) k = behind h (k st')

pub map-Still :
    {st : GameState} {o : Option GameState} (f : GameState → GameState)
    → Still st o
    → ((st' : GameState) → Keeps st' (f st'))
    → Still st (Option.map f o)
map-Still f panics k = panics
map-Still f (goes {st'} h) k = goes (and_then h (k st'))

pub pids-map :
    (f : Player → Player) (players : PlayerTable)
    → ((p : Player) → (f p).pid ≡ p.pid)
    → pids (map f players) ≡ pids players
pids-map f [] keep = refl
pids-map f (p ∷ players) keep = cc (keep p, pids-map f players keep)

pub pids-update_first :
    (test : Player → Bool) (f : Player → Player) (players : PlayerTable)
    → ((p : Player) → (f p).pid ≡ p.pid)
    → pids (update_first test f players) ≡ pids players
unfolding update_first
pids-update_first test f [] keep = refl
pids-update_first test f (p ∷ players) keep = elim (Bool-cases (test p)) [
  | inl hit ↦ rw hit (ap (λ c. c ∷ pids players) (keep p))
  | inr miss ↦ rw miss (ap (λ cs. p.pid ∷ cs) (pids-update_first test f players keep))
]

pub pids-with_pid :
    (pid : ℕ) (f : Player → Player) (players : PlayerTable)
    → ((p : Player) → (f p).pid ≡ p.pid)
    → pids (with_pid players pid f) ≡ pids players
unfolding with_pid
pids-with_pid pid f players keep = pids-update_first _ f players keep

pub pids-with_conn :
    (conn_id : ℕ) (f : Player → Player) (players : PlayerTable)
    → ((p : Player) → (f p).pid ≡ p.pid)
    → pids (with_conn players conn_id f) ≡ pids players
unfolding with_conn
pids-with_conn conn_id f players keep = pids-update_first _ f players keep

module _ (now : ℕ) where
  pub broadcast-Keeps : (b : Bytes) (st : GameState) → Keeps st (broadcast now b st)
  unfolding broadcast
  broadcast-Keeps b st = record {
    seats = pids-map (offer now b) st.players (offer-pid now b);
    slots = refl;
    queued = refl;
  }

  pub send_to-Keeps : (pid : ℕ) (b : Bytes) (st : GameState) → Keeps st (send_to now pid b st)
  unfolding send_to
  send_to-Keeps pid b st = record {
    seats = pids-with_pid pid (deliver now b) st.players (deliver-pid now b);
    slots = refl;
    queued = refl;
  }

  pub broadcast_ok-Keeps : (r : Result Bytes) (st : GameState) → Keeps st (broadcast_ok now r st)
  broadcast_ok-Keeps (ok b) st = broadcast-Keeps b st
  broadcast_ok-Keeps (err e) st = same

  pub broadcast_some-Keeps :
      (o : Option Bytes) (st : GameState) → Keeps st (broadcast_some now o st)
  broadcast_some-Keeps none st = same
  broadcast_some-Keeps (some b) st = broadcast-Keeps b st

  pub send_ok-Keeps :
      (pid : ℕ) (r : Result Bytes) (st : GameState) → Keeps st (send_ok now pid r st)
  send_ok-Keeps pid (ok b) st = send_to-Keeps pid b st
  send_ok-Keeps pid (err e) st = same

  pub send_some-Keeps :
      (pid : ℕ) (o : Option Bytes) (st : GameState) → Keeps st (send_some now pid o st)
  send_some-Keeps pid none st = same
  send_some-Keeps pid (some b) st = send_to-Keeps pid b st

  pub send_all_slot_info-Keeps : (st : GameState) → Keeps st (send_all_slot_info now st)
  unfolding send_all_slot_info
  send_all_slot_info-Keeps st = broadcast_ok-Keeps _ st

  pub whisper-Still :
      (from pid flag : ℕ) (extra : Bytes) (o : Option Bytes) (st : GameState)
      → Still st (whisper now from pid flag extra o st)
  whisper-Still from pid flag extra none st = panics
  whisper-Still from pid flag extra (some msg) st = goes (send_ok-Keeps pid _ st)

  pub send_chat_to-Still :
      (pid : ℕ) (msg : Bytes) (st : GameState) → Still st (send_chat_to now pid msg st)
  unfolding send_chat_to
  send_chat_to-Still pid msg st = elim (Bool-cases (host_pid st == 255)) [
    | inl none_there ↦ rw none_there (goes same)
    | inr host ↦ elim (Bool-cases (is_before_game st.phase)) [
      | inl before ↦ rw (host, before) (whisper-Still _ pid 0x10 [] _ st)
      | inr game ↦ rw (host, game) (whisper-Still _ pid 0x20 _ _ st)
    ]
  ]

  said-Still :
      (flag from : ℕ) (ps extra : Bytes) (o : Option Bytes) (st : GameState)
      → Still st (chat_before_game now from ps o st) × Still st (chat_in_game now from ps o st)
  said-Still flag from ps extra none st = (panics, panics)
  said-Still flag from ps extra (some msg) st =
      let k =
        broadcast_ok-Keeps (chat_from_host from ps 0x20 (0 ∷ 0 ∷ 0 ∷ 0 ∷ []) msg)
          (replay_chat from msg st) in
      (goes (broadcast_ok-Keeps _ st), goes (kept k.seats k.slots k.queued))

  say-Still :
      (msg : Bytes) (from : ℕ) (ps : Bytes) (st : GameState) → Still st (say now msg from ps st)
  say-Still msg from [] st = goes same
  say-Still msg from (p ∷ ps) st =
      let st' = relay_chat msg st in
      elim (Bool-cases (is_before_game st.phase)) [
        | inl before ↦
            rw before
              (behind (kept refl refl refl) (said-Still 0 from (p ∷ ps) [] (at_most 254 msg) st').0)
        | inr game ↦
            rw game
              (behind (kept refl refl refl) (said-Still 0 from (p ∷ ps) [] (at_most 127 msg) st').1)
      ]

  pub send_chat_all-Still : (msg : Bytes) (st : GameState) → Still st (send_chat_all now msg st)
  unfolding send_chat_all
  send_chat_all-Still msg st = elim (Bool-cases (host_pid st == 255)) [
    | inl none_there ↦ rw none_there (goes same)
    | inr host ↦ rw host (say-Still msg (host_pid st) (recipients st) st)
  ]

pub kick_player-Keeps :
    (pid : ℕ) (reason : Bytes) (left_code : ℕ) (st : GameState)
    → Keeps st (kick_player pid reason left_code st)
unfolding kick_player
kick_player-Keeps pid reason left_code st = record {
  seats = pids-with_pid pid _ st.players (λ p. refl);
  slots = refl;
  queued = refl;
}
