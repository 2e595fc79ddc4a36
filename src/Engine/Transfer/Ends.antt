-- ===== src/Engine/Transfer/Ends.antt =====
-- The pump of the downloads ends.
use mathlib.Core.Option
use ghostrs.Base.{
  ℕ, ◌+◌, ◌*◌, ◌^◌, ◌<◌, ◌≡◌, refl, ap, ◌∙◌, inl, inr, ◌&&◌, List, [], ◌∷◌, ◌++◌, map, Option, none,
  some, arith, leb, ltb, length, as_u32, Bool-cases,
}
use ghostrs.Protocol.Buffer.{Bytes}
use ghostrs.Engine.State.{GameState, Download, is_in_lobby, host_pid}
use ghostrs.Engine.Transfer.{
  Burst, Pumped, part_loop, burst_limit_of, download_loop, after, new_second, pump_with, pump_of,
  send_parts, unfinished, pump_downloads,
}
use ghostrs.Engine.Transfer.Chunks.{part_loop-IsBurst}

abbrev pub Ends {ℓ} : {A : Type ℓ} → Option A → Type ℓ
Ends {A = A} o = (a : A) × (o ≡ some a)

module _ (crc32 : Bytes → ℕ) (contents : Bytes) (small : length contents < 2 ^ 32) where
  after-Ends :
      (pid : ℕ) (o : Option Burst) (go : ℕ → Option Pumped) (r : Burst)
      → o ≡ some r
      → Ends (go r.counter)
      → Ends (after pid o go)
  after-Ends pid o go r e (p, e') = (
    (r.download ∷ p.0, p.1, map {A = Bytes} (λ b. (pid, b)) r.packets ++ p.2),
    ap (λ o. after pid o go) e
        ∙ ap
            (Option.map (λ (p : Pumped).
              (r.download ∷ p.0, p.1, map {A = Bytes} (λ b. (pid, b)) r.packets ++ p.2)))
            e',
  )

  download_loop-Ends :
      (fuel host_pid speed most : ℕ) (downloads : List Download) (count counter : ℕ)
      → length contents < fuel
      → Ends (download_loop crc32 contents fuel host_pid speed most downloads count counter)
  unfolding download_loop
  download_loop-Ends fuel host speed most [] count counter enough = (([], counter, []), refl)
  download_loop-Ends fuel host speed most (d ∷ downloads) count counter enough =
      elim (Bool-cases (leb (as_u32 (length contents)) d.acked_upto)) [
        | inl over ↦
            let (p, e) = download_loop-Ends fuel host speed most downloads count counter enough in
            ((d ∷ p.0, p.1, p.2), rw (over, e) refl)
        | inr goes ↦ elim (Bool-cases (ltb 0 most && ltb most (count + 1))) [
          | inl full ↦ ((d ∷ downloads, counter, []), rw (goes, full) refl)
          | inr room ↦
              let (r, e, v) =
                part_loop-IsBurst crc32 contents fuel host speed (burst_limit_of d) d counter small
                  (omega (arith, enough)) (omega (arith, enough)) in
              let (p, e') =
                after-Ends d.pid
                  (part_loop crc32 contents fuel host speed (burst_limit_of d) d counter)
                  (download_loop crc32 contents fuel host speed most downloads (count + 1)) r e
                  (download_loop-Ends fuel host speed most downloads (count + 1) r.counter
                    enough) in
              (p, rw (goes, room) e')
        ]
      ]

-- The bytes of the map, none where it is not loaded.
abbrev pub bytes_of : Option Bytes → Bytes
bytes_of none = []
bytes_of (some contents) = contents

pump_with-Ends :
    (crc32 : Bytes → ℕ) (contents : Bytes) (now : ℕ) (st : GameState) (p : Pumped)
    {o : Option Pumped}
    → o ≡ some p
    → Ends (pump_with crc32 contents now st o)
pump_with-Ends crc32 contents now st (downloads, counter, packets) e = (
  send_parts now packets
      (record st { downloads = unfinished crc32 contents downloads; download_counter = counter }),
  ap (pump_with crc32 contents now st) e,
)

pump_of-Ends :
    (crc32 : Bytes → ℕ) (fuel now : ℕ) (map_data : Option Bytes) (st : GameState)
    → length (bytes_of map_data) < 2 ^ 32
    → length (bytes_of map_data) < fuel
    → Ends (pump_of crc32 fuel now map_data st)
pump_of-Ends crc32 fuel now none st small enough = (record st { downloads = [] }, refl)
pump_of-Ends crc32 fuel now (some contents) st small enough =
    let st' = new_second now st in
    let (p, e) =
      download_loop-Ends crc32 contents small fuel (host_pid st')
        (st'.cfg.max_download_speed * 1024) st'.cfg.max_downloaders st'.downloads 0
        st'.download_counter enough in
    pump_with-Ends crc32 contents now st' p e

-- With the map shorter than 4 GiB and fuel above its length for each download, the pump comes to a
-- state in every state of the game.
pub pump_downloads-Ends :
    (crc32 : Bytes → ℕ) (fuel now : ℕ) (st : GameState)
    → length (bytes_of st.cfg.map.map_data) < 2 ^ 32
    → length (bytes_of st.cfg.map.map_data) < fuel
    → Ends (pump_downloads crc32 fuel now st)
unfolding pump_downloads
pump_downloads-Ends crc32 fuel now st small enough = elim (Bool-cases (is_in_lobby st.phase)) [
  | inl here ↦
      let (st', e) = pump_of-Ends crc32 fuel now st.cfg.map.map_data st small enough in
      (st', rw here e)
  | inr away ↦ (st, rw away refl)
]
