-- ===== src/Engine/Link.antt =====
-- `PlayerLink` of crates/spectre-net/src/conn.rs: the sending end of a connection's bounded queue.
use ghostrs.Base.{ℕ, Bool, List, [], ◌∷◌, ◌++◌, leb, if◌then◌else◌, length}
use ghostrs.Protocol.Buffer.{Bytes}

pub data LinkError : Type 0 where
  backpressure closed : LinkError

-- The channel of tokio, as its queue of at most `capacity` messages.
pub record PlayerLink : Type 0 where
  pub capacity : ℕ
  pub queue : List Bytes
  pub is_closed : Bool

pub data Sent : Type 0 where
  delivered : Sent
  failed : LinkError → Sent

unfoldable pub try_send : PlayerLink → Bytes → Sent × PlayerLink
try_send link bytes =
    if link.is_closed
    then (failed closed, link)
    else if leb link.capacity (length link.queue)
    then (failed backpressure, link)
    else (delivered, record link { queue = link.queue ++ bytes ∷ [] })
