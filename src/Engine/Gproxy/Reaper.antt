-- ===== src/Engine/Gproxy/Reaper.antt =====
-- `reap_gproxy_timeouts`: who is given up, and how often the others hear of a lost player.
use ghostrs.Base.{
  ℕ, ◌+◌, ◌-◌, ◌≤◌, ◌<◌, ◌≡◌, refl, [], ◌∷◌, some, arith, leb, true, false, ap, ◌∙◌, Bool-cases,
  inl, inr, ◌⊎◌,
}
use ghostrs.Engine.Players.{Player}
use ghostrs.Engine.Gproxy.Reconnect.{Notice, is_stale, timed_out, reap_since, reap_player}

reap-some :
    (now grace since : ℕ) (p : Player)
    → p.disconnected_since ≡ some since
    → reap_player now grace p ≡ reap_since now grace p (some since)
unfolding reap_player
reap-some now grace since p lost = ap (reap_since now grace p) lost

stays_silent :
    (now grace since told : ℕ) (q : Player)
    → q.disconnected_since ≡ some since
    → q.gproxy_disconnect_notice_sent ≡ true
    → q.last_gproxy_wait_notice ≡ some told
    → now < told + 20000
    → now - since < grace
    → reap_player now grace q ≡ (q, [])
stays_silent now grace since told q lost sent last soon young =
    reap-some now grace since q lost
    ∙ (let fresh : is_stale now q.last_gproxy_wait_notice ≡ false =
          ap (is_stale now) last ∙ ground arith in
        ground (arith, sent, fresh, young))

-- A sweep gives up a player whose link has been lost for the grace period, and says nothing of it.
-- A player lost for less keeps its seat, and is still taken for lost.
pub reap_player_lem :
    (grace now since : ℕ) (p : Player)
    → p.disconnected_since ≡ some since
    → let r = reap_player now grace p in
      ((grace ≤ now - since) × (r ≡ (timed_out p, [])))
      ⊎ ((now - since < grace)
          × (r.0.left ≡ p.left)
          × (r.0.disconnected_since ≡ p.disconnected_since))
reap_player_lem grace now since p lost =
    rw (reap-some now grace since p lost) (elim (Bool-cases (leb grace (now - since))) [
      | inl old ↦ inl (ground arith, ground arith)
      | inr young ↦ inr (ground arith, ground arith, ground arith)
    ])

told :
    (grace now since later : ℕ) (p : Player) (n : Notice)
    → p.disconnected_since ≡ some since
    → (reap_since now grace p (some since)).1 ≡ n ∷ []
    → later < now + 20000
    → later - since < grace
    → reap_player later grace (reap_since now grace p (some since)).0
      ≡ ((reap_since now grace p (some since)).0, [])
told grace now since later p n lost e soon young = elim (Bool-cases (leb grace (now - since))) [
  | inl old ↦ absurd (ground arith)
  | inr y ↦ elim (Bool-cases p.gproxy_disconnect_notice_sent) [
    | inr unsent ↦ rw (y, unsent) (stays_silent later grace since now _ lost refl refl soon young)
    | inl sent ↦ elim (Bool-cases (is_stale now p.last_gproxy_wait_notice)) [
      | inl stale ↦
          rw (y, sent, stale) (stays_silent later grace since now _ lost refl refl soon young)
      | inr fresh ↦ absurd (ground arith)
    ]
  ]
]

-- Where a sweep has told the others of a lost player, a sweep less than 20 seconds later, with the
-- grace period not over, changes nothing and says nothing.
pub notices_spaced :
    (grace now since later : ℕ) (p : Player) (n : Notice)
    → p.disconnected_since ≡ some since
    → (reap_player now grace p).1 ≡ n ∷ []
    → later < now + 20000
    → later - since < grace
    → reap_player later grace (reap_player now grace p).0 ≡ ((reap_player now grace p).0, [])
notices_spaced grace now since later p n lost =
    rw (reap-some now grace since p lost) (told grace now since later p n lost)
