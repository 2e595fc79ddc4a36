-- ===== src/Protocol/W3gs/Outgoing/Fits.antt =====
-- The packets that the code ends in `expect`, and the chat packet.
use ghostrs.Base.{ℕ, [], ◌∷◌, ◌++◌, arith, le32}
use ghostrs.Protocol.Gps.Messages.{IsReadAs, message-IsReadAs}
use ghostrs.Protocol.W3gs.Outgoing.{
  w3gs_header, ping_from_host, reject_join, player_leave_others, game_loaded_others,
  countdown_start, countdown_end, stop_lag, start_download,
}

-- Whatever their fields, none of the host's eight packets of fixed size ends in a panic, and a client
-- reads each with its id and fields.
pub packets-IsReadAs :
    (a b : ℕ)
    → IsReadAs w3gs_header 0x01 (le32 a) (ping_from_host a)
      × IsReadAs w3gs_header 0x05 (le32 a) (reject_join a)
      × IsReadAs w3gs_header 0x07 (b ∷ le32 a) (player_leave_others b a)
      × IsReadAs w3gs_header 0x08 (b ∷ []) (game_loaded_others b)
      × IsReadAs w3gs_header 0x0A [] countdown_start
      × IsReadAs w3gs_header 0x0B [] countdown_end
      × IsReadAs w3gs_header 0x11 (b ∷ le32 a) (stop_lag b a)
      × IsReadAs w3gs_header 0x3F (le32 1 ++ b ∷ []) (start_download b)
unfolding ping_from_host reject_join player_leave_others game_loaded_others countdown_start
    countdown_end stop_lag start_download
packets-IsReadAs a b = (
  message-IsReadAs _ _ _ (omega arith),
  message-IsReadAs _ _ _ (omega arith),
  message-IsReadAs _ _ _ (omega arith),
  message-IsReadAs _ _ _ (omega arith),
  message-IsReadAs _ _ _ (omega arith),
  message-IsReadAs _ _ _ (omega arith),
  message-IsReadAs _ _ _ (omega arith),
  message-IsReadAs _ _ _ (omega arith),
)
