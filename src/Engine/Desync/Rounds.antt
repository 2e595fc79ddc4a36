-- ===== src/Engine/Desync/Rounds.antt =====
-- `check_desync` ends: each further round takes a checksum off a queue.

use ghostrs.Base.{
  ℕ, zero, suc, ◌+◌, ◌≤◌, ◌<◌, ◌≡◌, refl, sym, ap, ◌∙◌, ◌⊎◌, inl, inr, Bool, true, false, not, ◌||◌,
  List, [], ◌∷◌, ◌++◌, Option, none, some, arith, ltb, leb, ◌==◌, if◌then◌else◌, length, any, All,
  Bool-cases, length-append, length-drop, text, min,
}
use ghostrs.Protocol.Buffer.{Bytes}
use ghostrs.Engine.Players.{Player, PlayerTable, by_pid, with_pid, find, update_first, has_pid}
use ghostrs.Engine.Players.{ChecksumEntry}
use ghostrs.Engine.Players.Pids.{Distinct, IsFresh}
use ghostrs.Engine.State.{GameState, is_before_game, host_pid}
use ghostrs.Engine.Announce.{send_chat_all, at_most, say, recipients}
use ghostrs.Engine.Desync.{
  is_active, active_pids, lowered, min_turn, Vote, vote, vote_of, participants, has_desync,
  pop_front, pop_all, in_flight, Bin, Round, ended, again, round_with, round_at, round,
  check_desync,
}

-- The checksums that wait in a table.
unfoldable pub waiting : PlayerTable → ℕ
waiting [] = 0
waiting (p ∷ players) = length p.checksums + waiting players

abbrev pub queue_of : Option Player → List ChecksumEntry
queue_of none = []
queue_of (some p) = p.checksums

waiting-pop :
    (players : PlayerTable) (pid : ℕ)
    → waiting (with_pid players pid pop_front) + min 1 (length (queue_of (by_pid players pid)))
      ≡ waiting players
unfolding waiting with_pid update_first by_pid find
waiting-pop [] pid = refl
waiting-pop (p ∷ players) pid = ground (arith, waiting-pop players pid, length-drop 1 p.checksums)

waiting-pop_all :
    (votes : List Vote) (players : PlayerTable) → waiting (pop_all votes players) ≤ waiting players
unfolding pop_all
waiting-pop_all [] players = omega arith
waiting-pop_all (v ∷ votes) players =
    omega
      (arith, waiting-pop_all votes (with_pid players v.pid pop_front), waiting-pop players v.pid)

-- The first vote of a list comes from a player with a checksum.
vote_front :
    (target pid : ℕ) (o : Option Player) (v : Vote) (votes rest : List Vote)
    → vote_of target pid o ++ rest ≡ v ∷ votes
    → (vote_of target pid o ≡ []) ⊎ ((v.pid ≡ pid) × (0 < length (queue_of o)))
vote_front target pid none v votes rest e = inl refl
vote_front target pid (some p) v votes rest e = vote_queue p.checksums e
  where
    vote_queue :
        (es : List ChecksumEntry)
        → vote target pid es ++ rest ≡ v ∷ votes
        → (vote target pid es ≡ []) ⊎ ((v.pid ≡ pid) × (0 < length es))
    vote_queue [] q = inl refl
    vote_queue (c ∷ es) q = ground (arith, q)

participants_front :
    (target : ℕ) (players : PlayerTable) (pids : List ℕ) (v : Vote) (votes : List Vote)
    → participants target players pids ≡ v ∷ votes
    → 0 < length (queue_of (by_pid players v.pid))
unfolding participants
participants_front target players [] v votes e = absurd (ground (arith, e))
participants_front target players (pid ∷ pids) v votes e =
    elim (vote_front target pid (by_pid players pid) v votes (participants target players pids) e) [
      | inl silent ↦
          participants_front target players pids v votes
            (sym (ap (λ l. l ++ participants target players pids) silent) ∙ e)
      | inr (same, queued) ↦ rw same queued
    ]

-- Every player is found by its id.
abbrev Found : PlayerTable → PlayerTable → Type 0
Found players rest = All (λ p. by_pid players p.pid ≡ some p) rest

Found-cons :
    (q : Player) (players rest : PlayerTable)
    → IsFresh rest q.pid
    → Found players rest
    → Found (q ∷ players) rest
unfolding by_pid find
Found-cons q players [] fresh found = tt
Found-cons q players (p ∷ rest) fresh found =
    (ground (arith, found.0, fresh), Found-cons q players rest (ground arith) found.1)

Distinct-Found : (players : PlayerTable) → Distinct players → Found players players
Distinct-Found [] d = tt
Distinct-Found (q ∷ players) (fresh, low, high, d) = (
  unfold by_pid find in ground arith,
  Found-cons q players players fresh (Distinct-Found players d),
)

-- The turn that a round is about is at the front of some queue, so that it has a vote.
lowered_cases :
    (acc : Option ℕ) (es : List ChecksumEntry) (m : ℕ)
    → lowered acc es ≡ some m
    → (acc ≡ some m) ⊎ ((pid : ℕ) → 0 < length (vote m pid es))
lowered_cases acc [] m e = inl e
lowered_cases none (c ∷ es) m e = inr λ pid. ground (arith, e)
lowered_cases (some k) (c ∷ es) m e = elim (Bool-cases (c.turn == m)) [
  | inl hit ↦ inr λ pid. ground (arith, hit)
  | inr other ↦ inl (ground (arith, e, other))
]

has_votes :
    (m : ℕ) (acc : Option ℕ) (players rest : PlayerTable)
    → Found players rest
    → min_turn acc rest ≡ some m
    → (acc ≡ some m) ⊎ (0 < length (participants m players (active_pids rest)))
unfolding min_turn active_pids participants
has_votes m acc players [] found e = inl e
has_votes m acc players (p ∷ rest) found e = elim (Bool-cases (is_active p)) [
  | inr idle ↦ rw idle (has_votes m acc players rest found.1 (rw idle at e))
  | inl active ↦
      rw active
        (elim (has_votes m (lowered acc p.checksums) players rest found.1 (rw active at e)) [
          | inr later ↦ inr (omega (arith, later, both))
          | inl here ↦ elim (lowered_cases acc p.checksums m here) [
            | inl before ↦ inl before
            | inr votes ↦ inr (omega (arith, votes p.pid, both, own))
          ]
        ])
]
  where
    both :
        length (vote_of m p.pid (by_pid players p.pid) ++ participants m players (active_pids rest))
        ≡ length (vote_of m p.pid (by_pid players p.pid))
          + length (participants m players (active_pids rest))
    both = length-append (vote_of m p.pid (by_pid players p.pid)) _

    own : length (vote_of m p.pid (by_pid players p.pid)) ≡ length (vote m p.pid p.checksums)
    own = ap (λ o. length (vote_of m p.pid o)) found.0

-- What a round comes to: an answer, or a table with fewer checksums waiting, and the same ids.
abbrev Advances : GameState → Round → Type 0
Advances st (ended none) = ⊥
Advances st (ended (some st')) = Unit {0}
Advances st (again st') = (waiting st'.players < waiting st.players) × Distinct st'.players

any-pop :
    (c pid : ℕ) (players : PlayerTable)
    → any (has_pid c) (with_pid players pid pop_front) ≡ any (has_pid c) players
unfolding with_pid update_first
any-pop c pid [] = refl
any-pop c pid (p ∷ players) = ground (arith, any-pop c pid players)

pop-Distinct :
    (pid : ℕ) (players : PlayerTable) → Distinct players → Distinct (with_pid players pid pop_front)
unfolding with_pid update_first
pop-Distinct pid [] d = tt
pop-Distinct pid (p ∷ players) (fresh, low, high, d) = elim (Bool-cases (has_pid pid p)) [
  | inl hit ↦ rw hit (fresh, low, high, d)
  | inr miss ↦ rw miss (any-pop p.pid pid players ∙ fresh, low, high, pop-Distinct pid players d)
]

popped-Distinct :
    (votes : List Vote) (players : PlayerTable)
    → Distinct players
    → Distinct (pop_all votes players)
unfolding pop_all
popped-Distinct [] players d = d
popped-Distinct (v ∷ votes) players d =
    popped-Distinct votes (with_pid players v.pid pop_front) (pop-Distinct v.pid players d)

pop_fewer :
    (target : ℕ) (players : PlayerTable) (pids : List ℕ) (votes : List Vote)
    → participants target players pids ≡ votes
    → 0 < length votes
    → waiting (pop_all votes players) < waiting players
unfolding pop_all
pop_fewer target players pids [] e few = absurd (omega arith)
pop_fewer target players pids (v ∷ votes) e few = omega (
  arith,
  participants_front target players pids v votes e,
  waiting-pop players v.pid,
  waiting-pop_all votes (with_pid players v.pid pop_front),
)

either_some :
    (b : Bool) (x y : GameState) → (z : GameState) × ((if b then some x else some y) ≡ some z)
either_some true x y = (x, refl)
either_some false x y = (y, refl)

say_short :
    (now from : ℕ) (pids : Bytes) (st : GameState)
    → (st' : GameState) × (say now (text "Desync detected!") from pids st ≡ some st')
unfolding at_most
say_short now from [] st = (st, refl)
say_short now from (pid ∷ pids) st = either_some (is_before_game st.phase) _ _

pub send_chat_all_short :
    (now : ℕ) (st : GameState)
    → (st' : GameState) × (send_chat_all now (text "Desync detected!") st ≡ some st')
unfolding send_chat_all
send_chat_all_short now st = elim (Bool-cases (host_pid st == 255)) [
  | inl nobody ↦ (st, rw nobody refl)
  | inr host ↦ let (st', e) = say_short now (host_pid st) (recipients st) st in (st', rw host e)
]

module _ (order : List Bin → List Bin) where
  round_with-Advances :
      (now target : ℕ) (pids : List ℕ) (st : GameState)
      → Distinct st.players
      → 0 < length (participants target st.players pids)
      → Advances st (round_with order now (participants target st.players pids) st)
  round_with-Advances now target pids st d few =
      let votes = participants target st.players pids in
      elim (Bool-cases (ltb (length votes) 2 || not (has_desync votes))) [
        | inl quiet ↦
            rw quiet
              (pop_fewer target st.players pids votes refl few, popped-Distinct votes st.players d)
        | inr split ↦ let (st', said) = send_chat_all_short now st in rw (split, said) tt
      ]

  round-Advances :
      (now : ℕ) (st : GameState) (o : Option ℕ)
      → min_turn none st.players ≡ o
      → Distinct st.players
      → Advances st (round_at order now (active_pids st.players) o st)
  round-Advances now st none e d = tt
  round-Advances now st (some target) e d =
      elim (Bool-cases (leb (length (active_pids st.players)) 1)) [
        | inl alone ↦ rw alone tt
        | inr several ↦ elim (Bool-cases (in_flight target st.players (active_pids st.players))) [
          | inl waits ↦ rw (several, waits) tt
          | inr all_in ↦
              rw (several, all_in)
                (round_with-Advances now target (active_pids st.players) st d (
                  voted
                    (has_votes target none st.players st.players (Distinct-Found st.players d) e)))
        ]
      ]
    where
      voted :
          (none ≡ some target)
            ⊎ (0 < length (participants target st.players (active_pids st.players)))
          → 0 < length (participants target st.players (active_pids st.players))
      voted (inl impossible) = absurd (ground (arith, impossible))
      voted (inr few) = few

  -- In a table where every id is that of one player only, `check_desync` ends, and without a panic,
  -- in fewer rounds than one and the checksums that wait; in whatever order the bins are read.
  pub check_desync_ends :
      (fuel now : ℕ) (st : GameState)
      → Distinct st.players
      → waiting st.players < fuel
      → (st' : GameState) × (check_desync order fuel now st ≡ some st')
  unfolding check_desync
  check_desync_ends zero now st d enough = absurd (omega arith)
  check_desync_ends (suc fuel) now st d enough =
      go (round order now st) (unfold round in round-Advances now st _ refl d)
        (λ next distinct fewer. check_desync_ends fuel now next distinct (omega arith))
    where
      go :
          (r : Round)
          → Advances st r
          → ((next : GameState)
              → Distinct next.players
              → waiting next.players < waiting st.players
              → (st' : GameState) × (check_desync order fuel now next ≡ some st'))
          → (st' : GameState) × (elim r [
            | ended o ↦ o
            | again next ↦ check_desync order fuel now next
          ]
              ≡ some st')
      go (ended (some st')) a later = (st', refl)
      go (ended none) a later = absurd a
      go (again next) (fewer, distinct) later = later next distinct fewer
