-- ===== src/Engine/Rejoin/Guards.antt =====
-- Who may rejoin, and what a refusal leaves.
use ghostrs.Base.{
  ℕ, ◌≡◌, refl, ◌⊎◌, inl, inr, true, false, none, some, arith, Bool-cases, Option-cases,
}
use ghostrs.Protocol.Buffer.{Bytes}
use ghostrs.Protocol.W3gs.Incoming.{ReqJoin}
use ghostrs.Engine.Link.{PlayerLink}
use ghostrs.Engine.Players.{Player, by_pid}
use ghostrs.Engine.State.{GameState, FullToken, is_some, is_in_game}
use ghostrs.Engine.Rejoin.{
  token_of, eq_ignore_ascii_case, may_rejoin, try_full_rejoin, join_flow, seat_again,
}

-- A full rejoin is refused, and then changes nothing; or the game is running or loading, the
-- connection has a token, the token's player is held for a reconnect and has not left, the name is the
-- player's but for the case of its letters and the key is the token's, and the player is seated on
-- the new connection and sent its join packets.
pub try_full_rejoin_lem :
    (now conn_id : ℕ) (req : ReqJoin) (external_ip : Bytes) (link : PlayerLink) (st : GameState)
    → (try_full_rejoin now conn_id req external_ip link st ≡ (false, st))
      ⊎ ((token : FullToken) × (p : Player) × (is_in_game st.phase ≡ true)
          × (token_of conn_id st.pending_full ≡ some token)
          × (by_pid st.players token.pid ≡ some p)
          × (is_some p.disconnected_since ≡ true)
          × (p.left ≡ none)
          × (eq_ignore_ascii_case p.name req.name ≡ true)
          × (p.reconnect_key ≡ token.reconnect_key)
          × (try_full_rejoin now conn_id req external_ip link st ≡ (
            true,
            join_flow now token.pid req external_ip (seat_again conn_id token.pid link st),
          )))
unfolding try_full_rejoin
try_full_rejoin_lem now conn_id req external_ip link st = elim (Bool-cases (is_in_game st.phase)) [
  | inr out ↦ inl (rw out refl)
  | inl running ↦ elim (Option-cases (token_of conn_id st.pending_full)) [
    | inl none_kept ↦ inl (rw (running, none_kept) refl)
    | inr (token, kept) ↦ elim (Option-cases (by_pid st.players token.pid)) [
      | inl gone ↦ inl (rw (running, kept, gone) refl)
      | inr (p, seated) ↦ elim (Bool-cases (may_rejoin req token p)) [
        | inr refused ↦ inl (rw (running, kept, seated, refused) refl)
        | inl let_in ↦ inr (
          token,
          p,
          running,
          kept,
          seated,
          ground (arith, let_in),
          ground (arith, let_in),
          ground (arith, let_in),
          ground (arith, let_in),
          rw (running, kept, seated, let_in) refl,
        )
      ]
    ]
  ]
]
