-- ===== src/Engine/Transfer/Chunks.antt =====
-- What a burst sends: the map in consecutive parts.

use ghostrs.Base.{
  ℕ, zero, suc, ◌+◌, ◌-◌, ◌^◌, ◌≤◌, ◌<◌, ◌≡◌, refl, ap, ◌∙◌, ◌⊎◌, inl, inr, ◌&&◌, List, [], ◌∷◌,
  some, arith, leb, ltb, length, drop, min, as_u32, Bool-cases, length-take,
}
use ghostrs.Protocol.Error.{ok}
use ghostrs.Protocol.Buffer.{Bytes}
use ghostrs.Protocol.Frame.RoundTrip.{encode_with_lem}
use ghostrs.Protocol.W3gs.Outgoing.{map_part}
use ghostrs.Engine.State.{Download}
use ghostrs.Engine.Transfer.{map_chunk, slice, Burst, add_packet, part_loop}

module _ (crc32 : Bytes → ℕ) (contents : Bytes) where
  -- The packets carry the map from the first position to the last, each a part of at most 1442 bytes
  -- that begins where the one before it ends.
  pub data Parts (host_pid pid : ℕ) : ℕ → List Bytes → ℕ → Type 0 where
    done : {at' : ℕ} → Parts host_pid pid at' [] at'
    part :
        {start last : ℕ} {b : Bytes} {bs : List Bytes} (end : ℕ)
        → start < end
        → end ≤ start + map_chunk
        → map_part crc32 host_pid pid start (slice start end contents) ≡ ok b
        → Parts host_pid pid end bs last
        → Parts host_pid pid start (b ∷ bs) last

  -- What a burst from `d` comes to.
  pub record IsBurst (host_pid max_speed_bytes burst_limit : ℕ) (d : Download) (counter : ℕ)
      (r : Burst) : Type 0 where
    pub parts : Parts host_pid d.pid d.sent_upto r.packets r.download.sent_upto
    pub same_pid : r.download.pid ≡ d.pid
    pub acked : r.download.acked_upto ≡ d.acked_upto
    pub counted : r.counter ≡ counter + (r.download.sent_upto - d.sent_upto)
    pub forward : d.sent_upto ≤ r.download.sent_upto
    pub window :
        (r.download.sent_upto ≡ d.sent_upto) ⊎ (r.download.sent_upto < burst_limit + map_chunk)
    pub whole : (r.download.sent_upto ≡ d.sent_upto) ⊎ (r.download.sent_upto ≤ length contents)
    pub speed :
        (r.counter ≡ counter) ⊎ (max_speed_bytes ≡ 0) ⊎ (r.counter < max_speed_bytes + map_chunk)

  map_part_fits :
      (host_pid pid start : ℕ) (chunk : Bytes)
      → length chunk ≤ map_chunk
      → (b : Bytes) × (map_part crc32 host_pid pid start chunk ≡ ok b)
  unfolding map_part
  map_part_fits host_pid pid start chunk fits = (_, (encode_with_lem _ 0xF7).0 (omega arith))

  slice_short :
      (start end : ℕ) → end ≤ start + map_chunk → length (slice start end contents) ≤ map_chunk
  slice_short start end le = omega (arith, length-take (end - start) (drop start contents))

  -- One part more in front of a burst.
  grow :
      (host_pid max_speed burst end counter : ℕ) (d : Download) (r : Burst) (b : Bytes)
      → IsBurst host_pid max_speed burst
          (record d { sent_upto = end })
          (counter + (end - d.sent_upto))
          r
      → d.sent_upto < end
      → end ≤ d.sent_upto + map_chunk
      → end ≤ length contents
      → d.sent_upto < burst
      → (max_speed ≡ 0) ⊎ (counter < max_speed)
      → map_part crc32 host_pid d.pid d.sent_upto (slice d.sent_upto end contents) ≡ ok b
      → IsBurst host_pid max_speed burst d counter (add_packet b r)
  grow host_pid max_speed burst end counter d r b v ahead near inside before slow built = record {
    parts = part end ahead near built v.parts;
    same_pid = v.same_pid;
    acked = v.acked;
    counted = omega (arith, v.counted, v.forward);
    forward = omega (arith, v.forward);
    window = elim v.window [ inl same ↦ inr (omega (arith, same)) | inr under ↦ inr under ];
    whole = elim v.whole [ inl same ↦ inr (omega (arith, same)) | inr under ↦ inr under ];
    speed = elim slow [
      | inl free ↦ inr (inl free)
      | inr room ↦ elim v.speed [ inl same ↦ inr (inr (omega (arith, same))) | inr rest ↦ inr rest ]
    ];
  }

  -- For a map shorter than 4 GiB, and with fuel for each byte that is not sent and one more, the loop
  -- of a download ends, and what it leaves is a burst: its packets carry the map from the position
  -- before the loop to the one behind it, without a gap or an overlap, each a part of at most 1442
  -- bytes; the pid and the acknowledged position stay, the bytes counted are those sent; and if it
  -- sends at all, it ends less than one part past the limit of the burst, within the map and, where a
  -- speed is set, with a count less than one part past the bytes of the second.
  pub part_loop-IsBurst :
      (fuel host_pid max_speed_bytes burst_limit : ℕ) (d : Download) (counter : ℕ)
      → length contents < 2 ^ 32
      → length contents < d.sent_upto + fuel
      → 0 < fuel
      → (r : Burst) × (part_loop crc32 contents fuel host_pid max_speed_bytes burst_limit d counter
          ≡ some r)
        × IsBurst host_pid max_speed_bytes burst_limit d counter r
  unfolding part_loop
  part_loop-IsBurst zero host_pid speed burst d counter small enough some_fuel =
      absurd (omega arith)
  part_loop-IsBurst (suc fuel) host_pid speed burst d counter small enough some_fuel =
      elim (Bool-cases (ltb d.sent_upto burst && ltb d.sent_upto (as_u32 (length contents)))) [
        | inr over ↦ (stop, rw over refl, stopped)
        | inl goes ↦ elim (Bool-cases (ltb 0 speed && leb speed counter)) [
          | inl slow ↦ (stop, rw (goes, slow) refl, stopped)
          | inr fast ↦
              let before : d.sent_upto < burst = ground (arith, goes) in
              let inside : d.sent_upto < length contents = ground (arith, goes, small) in
              let room : (speed ≡ 0) ⊎ (counter < speed) = ground (arith, fast) in
              let wrap : as_u32 end ≡ end = omega (arith, small) in
              let (r, e, v) =
                part_loop-IsBurst fuel host_pid speed burst (record d { sent_upto = end })
                  (counter + (end - d.sent_upto)) small (omega (arith, inside, enough))
                  (omega (arith, inside, enough)) in
              let (b, built) =
                map_part_fits host_pid d.pid d.sent_upto (slice d.sent_upto end contents)
                  (slice_short d.sent_upto end (omega arith)) in
              let e' : part_loop crc32 contents fuel host_pid speed burst
                    (record d { sent_upto = as_u32 end }) (counter + (end - d.sent_upto))
                  ≡ some r =
                ap
                  (λ n.
                    part_loop crc32 contents fuel host_pid speed burst (record d { sent_upto = n })
                      (counter + (end - d.sent_upto)))
                  wrap
                ∙ e in
              (
                add_packet b r,
                rw (goes, fast, built, e') refl,
                grow host_pid speed burst end counter d r b v (omega (arith, inside)) (omega arith)
                    (omega arith) before room built,
              )
        ]
      ]
    where
      stop : Burst
      stop = record { download = d; counter = counter; packets = [] }

      stopped : IsBurst host_pid speed burst d counter stop
      stopped = record {
        parts = done;
        same_pid = refl;
        acked = refl;
        counted = omega arith;
        forward = omega arith;
        window = inl refl;
        whole = inl refl;
        speed = inl refl;
      }

      end : ℕ
      end = min (d.sent_upto + map_chunk) (length contents)
