-- ===== src/Engine/Desync/Honest.antt =====
-- Players who report the same checksums are not dropped by `check_desync`.
use ghostrs.Base.{
  ℕ, zero, suc, ◌<◌, ◌≡◌, refl, sym, ap, ◌∙◌, inl, inr, true, false, not, ◌||◌, List, [], ◌∷◌,
  Option, none, some, arith, ltb, leb, ◌==◌, length, map, any, All, All-append, Bool-cases,
  All-drop,
}
use ghostrs.Engine.Players.{
  Player, PlayerTable, ChecksumEntry, by_pid, with_pid, find, update_first, has_pid,
}
use ghostrs.Engine.Players.Pids.{Distinct}
use ghostrs.Engine.State.{GameState}
use ghostrs.Engine.Desync.{
  is_active, active_pids, min_turn, Vote, vote, vote_of, participants, has_desync, pop_front,
  pop_all, in_flight, Bin, Round, ended, again, clear_checksums, round_at, round, check_desync,
}
use ghostrs.Engine.Desync.Rounds.{queue_of, waiting, check_desync_ends}

abbrev pub without_queue : Player → Player
without_queue p = record p { checksums = [] }

-- A table without its queues of checksums.
abbrev pub without_checksums : PlayerTable → PlayerTable
without_checksums players = map without_queue players

pop-without :
    (pid : ℕ) (players : PlayerTable)
    → without_checksums (with_pid players pid pop_front) ≡ without_checksums players
unfolding with_pid update_first
pop-without pid [] = refl
pop-without pid (p ∷ players) = elim (Bool-cases (has_pid pid p)) [
  | inl hit ↦ rw hit refl
  | inr miss ↦ rw miss (ap (λ l. without_queue p ∷ l) (pop-without pid players))
]

pop_all-without :
    (votes : List Vote) (players : PlayerTable)
    → without_checksums (pop_all votes players) ≡ without_checksums players
unfolding pop_all
pop_all-without [] players = refl
pop_all-without (v ∷ votes) players =
    pop_all-without votes (with_pid players v.pid pop_front) ∙ pop-without v.pid players

clear-without :
    (players : PlayerTable)
    → without_checksums (map clear_checksums players) ≡ without_checksums players
clear-without [] = refl
clear-without (p ∷ players) = elim (Bool-cases (is_active p)) [
  | inl active ↦ rw active (ap (λ l. without_queue p ∷ l) (clear-without players))
  | inr idle ↦ rw idle (ap (λ l. without_queue p ∷ l) (clear-without players))
]

abbrev table_of : Option GameState → PlayerTable
table_of none = []
table_of (some st) = st.players

module _ (truth : ℕ → ℕ) where
  abbrev pub IsTrue : ChecksumEntry → Type 0
  IsTrue e = e.checksum ≡ truth e.turn

  -- Each checksum that waits is the one that `truth` gives for its turn.
  abbrev pub Honest : PlayerTable → Type 0
  Honest players = All (λ p. All IsTrue p.checksums) players

  by_pid-Honest :
      (players : PlayerTable) (pid : ℕ)
      → Honest players
      → All IsTrue (queue_of (by_pid players pid))
  unfolding by_pid find
  by_pid-Honest [] pid h = tt
  by_pid-Honest (p ∷ players) pid h = elim (Bool-cases (has_pid pid p)) [
    | inl hit ↦ rw hit h.0
    | inr miss ↦ rw miss (by_pid-Honest players pid h.1)
  ]

  abbrev Agrees : ℕ → Vote → Type 0
  Agrees target v = v.checksum ≡ truth target

  vote-Agrees :
      (target pid : ℕ) (es : List ChecksumEntry)
      → All IsTrue es
      → All (Agrees target) (vote target pid es)
  vote-Agrees target pid [] h = tt
  vote-Agrees target pid (e ∷ es) h = elim (Bool-cases (e.turn == target)) [
    | inl hit ↦ let same : e.turn ≡ target = ground arith in rw hit (h.0 ∙ ap truth same, tt)
    | inr other ↦ rw other tt
  ]

  vote_of-Agrees :
      (target pid : ℕ) (o : Option Player)
      → All IsTrue (queue_of o)
      → All (Agrees target) (vote_of target pid o)
  vote_of-Agrees target pid none h = tt
  vote_of-Agrees target pid (some p) h = vote-Agrees target pid p.checksums h

  participants-Agrees :
      (target : ℕ) (players : PlayerTable) (pids : List ℕ)
      → Honest players
      → All (Agrees target) (participants target players pids)
  unfolding participants
  participants-Agrees target players [] h = tt
  participants-Agrees target players (pid ∷ pids) h =
      All-append (Agrees target) (vote_of target pid (by_pid players pid))
        (participants target players pids)
        (vote_of-Agrees target pid (by_pid players pid) (by_pid-Honest players pid h))
        (participants-Agrees target players pids h)

  same_checksum :
      (target c : ℕ) (votes : List Vote)
      → c ≡ truth target
      → All (Agrees target) votes
      → any (λ v. not (v.checksum == c)) votes ≡ false
  same_checksum target c [] e h = refl
  same_checksum target c (v ∷ votes) e h =
      ground (arith, same_checksum target c votes e h.1, h.0, e)

  agreed-no_desync :
      (target : ℕ) (votes : List Vote) → All (Agrees target) votes → has_desync votes ≡ false
  agreed-no_desync target [] h = refl
  agreed-no_desync target (v ∷ votes) h = same_checksum target v.checksum votes h.0 h.1

  pop-Honest :
      (players : PlayerTable) (pid : ℕ) → Honest players → Honest (with_pid players pid pop_front)
  unfolding with_pid update_first
  pop-Honest [] pid h = tt
  pop-Honest (p ∷ players) pid h = elim (Bool-cases (has_pid pid p)) [
    | inl hit ↦ rw hit (All-drop IsTrue 1 p.checksums h.0, h.1)
    | inr miss ↦ rw miss (h.0, pop-Honest players pid h.1)
  ]

  pop_all-Honest :
      (votes : List Vote) (players : PlayerTable) → Honest players → Honest (pop_all votes players)
  unfolding pop_all
  pop_all-Honest [] players h = h
  pop_all-Honest (v ∷ votes) players h =
      pop_all-Honest votes (with_pid players v.pid pop_front) (pop-Honest players v.pid h)

  abbrev Spares : GameState → Round → Type 0
  Spares st (ended none) = Unit {0}
  Spares st (ended (some st')) = without_checksums st'.players ≡ without_checksums st.players
  Spares st (again st') =
      (without_checksums st'.players ≡ without_checksums st.players) × Honest st'.players

  module _ (order : List Bin → List Bin) where
    round-Spares :
        (now : ℕ) (st : GameState) (pids : List ℕ) (o : Option ℕ)
        → Honest st.players
        → Spares st (round_at order now pids o st)
    round-Spares now st pids none h = elim (Bool-cases (leb (length pids) 1)) [
      | inl alone ↦ rw alone (clear-without st.players)
      | inr several ↦ rw several refl
    ]
    round-Spares now st pids (some target) h = elim (Bool-cases (leb (length pids) 1)) [
      | inl alone ↦ rw alone (clear-without st.players)
      | inr several ↦ elim (Bool-cases (in_flight target st.players pids)) [
        | inl waits ↦ rw (several, waits) refl
        | inr all_in ↦
            let votes = participants target st.players pids in
            let agreed : (ltb (length votes) 2 || not (has_desync votes)) ≡ true = ground (
              arith,
              agreed-no_desync target votes (participants-Agrees target st.players pids h),
            ) in
            rw (several, all_in, agreed)
              (pop_all-without votes st.players, pop_all-Honest votes st.players h)
      ]
    ]

    spared :
        (fuel now : ℕ) (st st' : GameState)
        → Honest st.players
        → check_desync order fuel now st ≡ some st'
        → without_checksums st'.players ≡ without_checksums st.players
    unfolding check_desync
    spared zero now st st' h e = absurd (ground (arith, e))
    spared (suc fuel) now st st' h e =
        go (round order now st)
          (unfold round in
            round-Spares now st (active_pids st.players) (min_turn none st.players) h)
          e (λ next. spared fuel now next st')
      where
        go :
            (r : Round)
            → Spares st r
            → (elim r [ ended o ↦ o | again next ↦ check_desync order fuel now next ] ≡ some st')
            → ((next : GameState)
                → Honest next.players
                → check_desync order fuel now next ≡ some st'
                → without_checksums st'.players ≡ without_checksums next.players)
            → without_checksums st'.players ≡ without_checksums st.players
        go (ended none) s q later = absurd (ground (arith, q))
        go (ended (some answer)) s q later = ap (λ o. without_checksums (table_of o)) (sym q) ∙ s
        go (again next) (same, honest) q later = later next honest q ∙ same

    -- Where every id is that of one player only, and all checksums that wait are those of one account
    -- `truth` of the game, `check_desync` ends, in fewer rounds than one and the checksums that
    -- wait, and changes nothing of any player but the queue of checksums: nobody is dropped.
    pub nobody_dropped :
        (fuel now : ℕ) (st : GameState)
        → Distinct st.players
        → waiting st.players < fuel
        → Honest st.players
        → (st' : GameState) × (check_desync order fuel now st ≡ some st')
          × (without_checksums st'.players ≡ without_checksums st.players)
    nobody_dropped fuel now st d enough h =
        let (st', e) = check_desync_ends order fuel now st d enough in
        (st', e, spared fuel now st st' h e)
