-- ===== src/Engine/Actions/Batches.antt =====
-- The packets of a tick: each queued action once and in order.
use mathlib.Core.Option
use ghostrs.Base.{
  ℕ, ◌+◌, ◌≤◌, ◌≡◌, refl, sym, ap, ◌∙◌, inl, inr, true, false, ◌&&◌, not, List, [], ◌∷◌, ◌++◌,
  Option, arith, ltb, length, All, All-append, append_assoc, append-nil, Bool-cases, length-append,
}
use ghostrs.Protocol.Error.{ok, ◌>>=◌}
use ghostrs.Protocol.Buffer.{Bytes}
use ghostrs.Protocol.Frame.RoundTrip.{encode_with_lem}
use ghostrs.Protocol.W3gs.Outgoing.{
  ActionBlock, put, encode_actions_raw, is_empty, incoming_action, incoming_action2, framed,
}
use ghostrs.Protocol.W3gs.Outgoing.Actions.{Fits, tick_payload, action_payload_ok}
use ghostrs.Engine.State.{GameState}
use ghostrs.Engine.Actions.{
  max_action_payload, block_len, interval_of, new_winner, begin_tick, tell_more, tell_tick, tick_ok,
  batch_loop, announce, send_all_actions,
}

-- An action that `handle_action` queues.
abbrev pub IsSmall : ActionBlock → Type 0
IsSmall a = block_len a ≤ 1027

abbrev size : List ActionBlock → ℕ
size batch = length (encode_actions_raw batch)

size-snoc :
    (batch : List ActionBlock) (a : ActionBlock) → size (batch ++ a ∷ []) ≡ size batch + block_len a
unfolding encode_actions_raw put
size-snoc [] a = omega (arith, length-append a.actions [])
size-snoc (b ∷ batch) a = omega (
  arith,
  length-append b.actions (encode_actions_raw (batch ++ a ∷ [])),
  length-append b.actions (encode_actions_raw batch),
  size-snoc batch a,
)

size-Fits : (batch : List ActionBlock) → All IsSmall batch → Fits batch
size-Fits [] h = tt
size-Fits (a ∷ batch) h = (omega (arith, h.0), size-Fits batch h.1)

module _ (crc32 : Bytes → ℕ) where
  tick_payload_fits :
      (batch : List ActionBlock) (interval : ℕ)
      → size batch ≤ 1452
      → length (tick_payload crc32 batch interval) ≤ 65531
  tick_payload_fits [] interval h = omega arith
  tick_payload_fits (a ∷ batch) interval h = omega (arith, h)

  incoming_action-ok :
      (batch : List ActionBlock) (interval : ℕ)
      → All IsSmall batch
      → size batch ≤ 1452
      → (b : Bytes) × (incoming_action crc32 batch interval ≡ ok b)
  unfolding incoming_action
  incoming_action-ok batch interval small short = (
    _,
    ap (λ r. r >>= framed 0x0C) (action_payload_ok crc32 batch interval (size-Fits batch small))
        ∙ (encode_with_lem _ 0xF7).0 (tick_payload_fits batch interval short),
  )

  incoming_action2-ok :
      (batch : List ActionBlock)
      → All IsSmall batch
      → size batch ≤ 1452
      → (b : Bytes) × (incoming_action2 crc32 batch ≡ ok b)
  unfolding incoming_action2
  incoming_action2-ok batch small short = (
    _,
    ap (λ r. r >>= framed 0x48) (action_payload_ok crc32 batch 0 (size-Fits batch small))
        ∙ (encode_with_lem _ 0xF7).0 (tick_payload_fits batch 0 short),
  )

  module _ (now : ℕ) where
    -- From a game with actions in the queue to the game with the last batch of them: each step sends
    -- the actions at the front, one at least, in one packet of at most 1452 bytes of blocks.
    pub data Overflows (last : List ActionBlock) (st' : GameState)
        : List ActionBlock → GameState → Type 0 where
      last_batch : Overflows last st' last st'
      overflow :
          (batch rest : List ActionBlock) {st : GameState} (b : Bytes)
          → is_empty batch ≡ false
          → size batch ≤ 1452
          → incoming_action2 crc32 batch ≡ ok b
          → Overflows last st' rest (tell_more now batch b st)
          → Overflows last st' (batch ++ rest) st

    room :
        (batch : List ActionBlock) (len : ℕ)
        → (ltb max_action_payload (size batch + len) && not (is_empty batch)) ≡ false
        → len ≤ 1027
        → size batch + len ≤ 1452
    unfolding is_empty encode_actions_raw
    room [] len h small = omega (arith, small)
    room (a ∷ batch) len h small = ground (arith, h)

    full :
        (batch : List ActionBlock) (len : ℕ)
        → (ltb max_action_payload (size batch + len) && not (is_empty batch)) ≡ true
        → is_empty batch ≡ false
    full batch len h = ground (arith, h)

    abbrev pub Batched : List ActionBlock → GameState → List ActionBlock × GameState → Type 0
    Batched actions st r = Overflows r.0 r.1 actions st × (size r.0 ≤ 1452) × All IsSmall r.0

    loop_over :
        (a : ActionBlock) (queued batch : List ActionBlock) (n : ℕ) (b : Bytes) (st : GameState)
        → (ltb max_action_payload (n + block_len a) && not (is_empty batch)) ≡ true
        → incoming_action2 crc32 batch ≡ ok b
        → batch_loop crc32 now (a ∷ queued) batch n st
          ≡ batch_loop crc32 now queued (a ∷ []) (block_len a) (tell_more now batch b st)
    unfolding batch_loop
    loop_over a queued batch n b st over built = rw (over, built) refl

    loop_under :
        (a : ActionBlock) (queued batch : List ActionBlock) (n : ℕ) (st : GameState)
        → (ltb max_action_payload (n + block_len a) && not (is_empty batch)) ≡ false
        → batch_loop crc32 now (a ∷ queued) batch n st
          ≡ batch_loop crc32 now queued (batch ++ a ∷ []) (n + block_len a) st
    unfolding batch_loop
    loop_under a queued batch n st under = rw under refl

    batch_loop-Batched :
        (queued batch : List ActionBlock) (n : ℕ) (st : GameState)
        → n ≡ size batch
        → All IsSmall queued
        → All IsSmall batch
        → size batch ≤ 1452
        → Batched (batch ++ queued) st (batch_loop crc32 now queued batch n st)
    unfolding batch_loop encode_actions_raw
    batch_loop-Batched [] batch n st e smalls small short = (rw append-nil last_batch, short, small)
    batch_loop-Batched (a ∷ queued) batch n st e smalls small short =
        elim (Bool-cases (ltb max_action_payload (n + block_len a) && not (is_empty batch))) [
          | inl over ↦
              let (b, built) = incoming_action2-ok batch small short in
              let (rest, fits, smalls') =
                batch_loop-Batched queued (a ∷ []) (block_len a) (tell_more now batch b st)
                  (omega (arith, size-snoc [] a)) smalls.1 (smalls.0, tt)
                  (omega (arith, size-snoc [] a, smalls.0)) in
              rw (loop_over a queued batch n b st over built) (
                overflow batch (a ∷ queued) b (full batch (block_len a) (rw e at over)) short built
                    rest,
                fits,
                smalls',
              )
          | inr under ↦
              let short' : size batch + block_len a ≤ 1452 =
                room batch (block_len a) (rw e at under) smalls.0 in
              let batched =
                batch_loop-Batched queued (batch ++ a ∷ []) (n + block_len a) st
                  (ap (λ n. n + block_len a) e ∙ sym (size-snoc batch a)) smalls.1
                  (All-append IsSmall batch (a ∷ []) small (smalls.0, tt))
                  (omega (arith, size-snoc batch a, short')) in
              rw (loop_under a queued batch n st under, sym (append_assoc batch (a ∷ []) queued))
                batched
        ]

    -- What a tick sends: overflowing packets, and the packet of the last batch with the interval.
    pub record IsTick (winner : Option Bytes) (interval : ℕ) (actions : List ActionBlock)
        (st : GameState) (r : Option GameState) : Type 0 where
      pub last : List ActionBlock
      pub before : GameState
      pub packet : Bytes
      pub overflows : Overflows last before actions st
      pub fits : size last ≤ 1452
      pub built : incoming_action crc32 last interval ≡ ok packet
      pub sent :
          r ≡ Option.map (tell_tick now interval last packet) (announce crc32 now winner before)

    -- Where `handle_action` has queued the actions, a tick sends each of them once and in order: the
    -- queue is cut into batches of at most 1452 bytes, each but the last with an action at least and
    -- sent in an overflow packet, and the last, which may be empty, in the packet that carries the
    -- interval; both go to the relay, the replay and the players. None of the packets is refused, the
    -- queue is empty when the first one is sent, and a winner, where none was announced before, is
    -- announced before the last one; where that chat line panics, so does the tick.
    pub send_all_actions-IsTick :
        (winner : Option Bytes) (skipped : ℕ) (st : GameState)
        → All IsSmall st.actions
        → IsTick
            (new_winner st winner)
            (interval_of st skipped)
            st.actions
            (begin_tick skipped st)
            (send_all_actions crc32 now winner skipped st)
    unfolding send_all_actions encode_actions_raw
    send_all_actions-IsTick winner skipped st smalls =
        let interval = interval_of st skipped in
        let r = batch_loop crc32 now st.actions [] 0 (begin_tick skipped st) in
        let (rest, short, small) =
          batch_loop-Batched st.actions [] 0 (begin_tick skipped st) refl smalls tt (omega arith) in
        let (b, built) = incoming_action-ok r.0 interval small short in
        record {
          last = r.0;
          before = r.1;
          packet = b;
          overflows = rest;
          fits = short;
          built = built;
          sent =
              ap
                (λ res.
                  Option.map (tick_ok now interval r.0 res)
                    (announce crc32 now (new_winner st winner) r.1))
                built;
        }
