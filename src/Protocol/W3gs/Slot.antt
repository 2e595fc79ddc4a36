-- ===== src/Protocol/W3gs/Slot.antt =====
-- crates/spectre-protocol/src/w3gs/slot.rs.
use ghostrs.Base.{ℕ, List, [], ◌∷◌}

pub record SlotInfo : Type 0 where
  pub pid : ℕ
  pub download_status : ℕ
  pub slot_status : ℕ
  pub computer : ℕ
  pub team : ℕ
  pub colour : ℕ
  pub race : ℕ
  pub computer_type : ℕ
  pub handicap : ℕ

abbrev pub wire_len : ℕ
wire_len = 9

-- `SlotInfo::encode` appends these bytes.
abbrev pub encode : SlotInfo → List ℕ
encode s =
    pid ∷ download_status ∷ slot_status ∷ computer ∷ team ∷ colour ∷ race ∷ computer_type ∷ handicap
    ∷ []
  where
    open s use {
      pid, download_status, slot_status, computer, team, colour, race, computer_type, handicap,
    }
