-- ===== src/Spectator/Body/Runs.antt =====
-- Runs of a replay body: what the drains publish, the length, and when it can be finished.
use ghostrs.Base.{
  ℕ, ◌+◌, ◌%◌, ◌^◌, ◌<◌, ◌≤◌, ◌≡◌, refl, sym, ap, ◌∙◌, List, [], ◌∷◌, ◌++◌, Bool, true, false, ◌||◌,
  ◌==◌, arith, length, take, append_assoc, append-nil, length-append, take-append-drop,
  take-append_le, take_all, ◌⊎◌, inl, inr, as_u32, Bool-cases,
}
use ghostrs.Protocol.Buffer.{Bytes}
use ghostrs.Spectator.Body.{
  ReplayBody, done, failure, start_never_set, new, set_host, set_game, add_player, set_start,
  add_timeslot, add_timeslot2, add_chat, add_leaver, add_server_chat, add_leaver_loading, prologue,
  finish, drain_new_blocks,
}

-- A call on the body.
pub data Call : Type 0 where
  host_set : ℕ → Bytes → Call
  game_set : Bytes → Bytes → ℕ → Call
  player : ℕ → Bytes → Call
  start : Bytes → ℕ → ℕ → ℕ → Call
  timeslot : ℕ → Bytes → Call
  timeslot2 : Bytes → Call
  chat : ℕ → ℕ → ℕ → Bytes → Call
  leaver : ℕ → ℕ → ℕ → Call
  server_chat : ℕ → Bytes → Call
  leaver_loading : ℕ → ℕ → ℕ → Call
  drain : Call

-- The body after the call, and what it published.
unfoldable pub call : ReplayBody → Call → ReplayBody × Bytes
call b (host_set pid name) = (set_host b pid name, [])
call b (game_set name stat game_type) = (set_game b name stat game_type, [])
call b (player pid name) = (add_player b pid name, [])
call b (start slots seed mode spots) = ((set_start b slots seed mode spots).0, [])
call b (timeslot ms actions) = (add_timeslot b ms actions, [])
call b (timeslot2 actions) = (add_timeslot2 b actions, [])
call b (chat pid flag extra message) = (add_chat b pid flag extra message, [])
call b (leaver pid reason result) = (add_leaver b pid reason result, [])
call b (server_chat pid message) = (add_server_chat b pid message, [])
call b (leaver_loading pid reason result) = (add_leaver_loading b pid reason result, [])
call b drain = drain_new_blocks b

unfoldable pub run : ReplayBody → List Call → ReplayBody × Bytes
run b [] = (b, [])
run b (c ∷ cs) = let (b', out) = call b c in let (final, more) = run b' cs in (final, out ++ more)

-- The milliseconds of the time slots, and whether a start was accepted.
abbrev pub total_ms : List Call → ℕ
total_ms [] = 0
total_ms (timeslot ms actions ∷ cs) = ms + total_ms cs
total_ms (_ ∷ cs) = total_ms cs

abbrev pub is_start : Call → Bool
is_start (start slots seed mode spots) = length slots % 9 == 0
is_start _ = false

abbrev pub started : List Call → Bool
started [] = false
started (c ∷ cs) = is_start c || started cs

-- The part that has been published.
abbrev sent : ReplayBody → Bytes
sent b = take b.published b.blocks

abbrev Continues : ReplayBody → ReplayBody × Bytes → Type 0
Continues b (b', out) = (b'.published ≤ length b'.blocks) × (sent b ++ out ≡ sent b')

-- A call that appends blocks, and one that appends none.
appends :
    (b b' : ReplayBody) (more : Bytes)
    → b.published ≤ length b.blocks
    → b'.published ≡ b.published
    → b'.blocks ≡ b.blocks ++ more
    → Continues b (b', [])
appends b b' more h p e =
    rw (p, e)
      (
        omega (arith, h, length-append b.blocks more),
        append-nil _ ∙ sym (take-append_le b.published b.blocks more h),
      )

keeps :
    (b b' : ReplayBody)
    → b.published ≤ length b.blocks
    → b'.published ≡ b.published
    → b'.blocks ≡ b.blocks
    → Continues b (b', [])
keeps b b' h p e = appends b b' [] h p (e ∙ sym (append-nil b.blocks))

call-Continues :
    (b : ReplayBody) (c : Call) → b.published ≤ length b.blocks → Continues b (call b c)
unfolding call set_host set_game add_timeslot add_timeslot2 add_chat add_leaver add_server_chat
    add_leaver_loading drain_new_blocks
call-Continues b (host_set pid name) h = keeps b (call b (host_set pid name)).0 h refl refl
call-Continues b (game_set name stat game_type) h =
    keeps b (call b (game_set name stat game_type)).0 h refl refl
call-Continues b (player pid name) h = elim (Bool-cases (pid == b.host_pid)) [
  | inl e ↦
      keeps b (call b (player pid name)).0 h (unfold add_player in ground (arith, e))
        (unfold add_player in ground (arith, e))
  | inr e ↦
      keeps b (call b (player pid name)).0 h (unfold add_player in ground (arith, e))
        (unfold add_player in ground (arith, e))
]
call-Continues b (start slots seed mode spots) h =
    keeps b (call b (start slots seed mode spots)).0 h (unfold set_start in ground arith)
      (unfold set_start in ground arith)
call-Continues b (timeslot ms actions) h = appends b (call b (timeslot ms actions)).0 _ h refl refl
call-Continues b (timeslot2 actions) h = appends b (call b (timeslot2 actions)).0 _ h refl refl
call-Continues b (chat pid flag extra message) h =
    appends b (call b (chat pid flag extra message)).0 _ h refl refl
call-Continues b (leaver pid reason result) h =
    appends b (call b (leaver pid reason result)).0 _ h refl refl
call-Continues b (server_chat pid message) h =
    appends b (call b (server_chat pid message)).0 _ h refl refl
call-Continues b (leaver_loading pid reason result) h =
    keeps b (call b (leaver_loading pid reason result)).0 h refl refl
call-Continues b drain h = (
  omega arith,
  take-append-drop b.published b.blocks ∙ sym (take_all (length b.blocks) b.blocks (omega arith)),
)

run-Continues :
    (b : ReplayBody) (cs : List Call) → b.published ≤ length b.blocks → Continues b (run b cs)
unfolding run
run-Continues b [] h = (h, append-nil _)
run-Continues b (c ∷ cs) h =
    let (le, first) = call-Continues b c h in
    let (le', rest) = run-Continues (call b c).0 cs le in
    (
      le',
      sym (append_assoc (sent b) (call b c).1 (run (call b c).0 cs).1)
          ∙ ap (λ s. s ++ (run (call b c).0 cs).1) first
          ∙ rest,
    )

-- Whatever calls follow, what the drains publish, and then one more drain, is every block that the
-- body holds, each byte once and in order.
pub drains-blocks :
    (host_pid : ℕ) (host_name : Bytes) (cs : List Call)
    → let (b, out) = run (new host_pid host_name) cs in out ++ (drain_new_blocks b).1 ≡ b.blocks
unfolding new drain_new_blocks
drains-blocks host_pid host_name cs =
    let (le, e) = run-Continues (new host_pid host_name) cs (omega arith) in
    rw e (take-append-drop _ _)

-- The length of a call's slot, and the start that it sets.
call_effects :
    (b : ReplayBody) (c : Call)
    → b.replay_length_ms < 2 ^ 32
    → ((call b c).0.replay_length_ms ≡ as_u32 (b.replay_length_ms + total_ms (c ∷ [])))
      × ((call b c).0.start_set ≡ (b.start_set || is_start c))
unfolding call set_host set_game add_player set_start add_timeslot add_timeslot2 add_chat add_leaver
    add_server_chat add_leaver_loading drain_new_blocks
call_effects b (host_set pid name) h = (omega arith, ground arith)
call_effects b (game_set name stat game_type) h = (omega arith, ground arith)
call_effects b (player pid name) h = (ground arith, ground arith)
call_effects b (start slots seed mode spots) h = (ground arith, ground arith)
call_effects b (timeslot ms actions) h = (omega arith, ground arith)
call_effects b (timeslot2 actions) h = (omega arith, ground arith)
call_effects b (chat pid flag extra message) h = (omega arith, ground arith)
call_effects b (leaver pid reason result) h = (omega arith, ground arith)
call_effects b (server_chat pid message) h = (omega arith, ground arith)
call_effects b (leaver_loading pid reason result) h = (omega arith, ground arith)
call_effects b drain h = (omega arith, ground arith)

total_ms_cons : (c : Call) (cs : List Call) → total_ms (c ∷ cs) ≡ total_ms (c ∷ []) + total_ms cs
total_ms_cons (timeslot ms actions) cs = omega arith
total_ms_cons (host_set pid name) cs = omega arith
total_ms_cons (game_set name stat game_type) cs = omega arith
total_ms_cons (player pid name) cs = omega arith
total_ms_cons (start slots seed mode spots) cs = omega arith
total_ms_cons (timeslot2 actions) cs = omega arith
total_ms_cons (chat pid flag extra message) cs = omega arith
total_ms_cons (leaver pid reason result) cs = omega arith
total_ms_cons (server_chat pid message) cs = omega arith
total_ms_cons (leaver_loading pid reason result) cs = omega arith
total_ms_cons drain cs = omega arith

run_effects :
    (b : ReplayBody) (cs : List Call)
    → b.replay_length_ms < 2 ^ 32
    → ((run b cs).0.replay_length_ms ≡ as_u32 (b.replay_length_ms + total_ms cs))
      × ((run b cs).0.start_set ≡ (b.start_set || started cs))
unfolding run
run_effects b [] h = (omega arith, ground arith)
run_effects b (c ∷ cs) h =
    let (n, s) = call_effects b c h in
    let (ns, ss) = run_effects (call b c).0 cs (omega (arith, n)) in
    (omega (arith, n, ns, total_ms_cons c cs), ground (arith, s, ss))

prologue_started :
    (b : ReplayBody)
    → b.start_set ≡ true
    → (r : Bytes) × (prologue b ≡ done r) × (finish b ≡ done (r ++ b.blocks, b.replay_length_ms))
unfolding finish prologue
prologue_started b s = rw s (_, refl, refl)

-- A body can be finished exactly when some call gave it slots that are a whole number of nine-byte
-- records. It is then its prologue and every block, and its length is the sum of the time slots,
-- which a u32 holds modulo 2 ^ 32; else the error is the missing start.
pub finish_lem :
    (host_pid : ℕ) (host_name : Bytes) (cs : List Call)
    → let b = (run (new host_pid host_name) cs).0 in
      ((started cs ≡ false) × (finish b ≡ failure start_never_set))
      ⊎ ((started cs ≡ true)
          × ((r : Bytes) × (prologue b ≡ done r)
              × (finish b ≡ done (r ++ b.blocks, as_u32 (total_ms cs)))))
unfolding new finish prologue
finish_lem host_pid host_name cs =
    let (n, s) = run_effects (new host_pid host_name) cs (omega arith) in
    elim (Bool-cases (started cs)) [
      | inr unset ↦ inl (unset, ground (arith, s, unset))
      | inl begun ↦
          let (r, p, f) = prologue_started (run (new host_pid host_name) cs).0 (s ∙ begun) in
          inr (
            begun,
            (
              r,
              p,
              f
                  ∙ ap (λ ms. done (r ++ (run (new host_pid host_name) cs).0.blocks, ms))
                      (omega (arith, n)),
            ),
          )
    ]
