-- ===== src/Tests/Archive.antt =====
-- The archive tables and the replay body at concrete inputs.
use ghostrs.Base.{◌≡◌, ◌⊎◌, refl, true, false, List, [], ◌∷◌, ◌++◌, text, as_u32, replicate}
use ghostrs.Protocol.Buffer.{Bytes}
use ghostrs.Mpq.Crypt.{
  hash_string, folded, hash_file_key, hash_name_a, hash_name_b, hash_loop, build_storm_buffer, rows,
  column,
}
use ghostrs.Mpq.Tables.{MpqHashEntry}
use ghostrs.Mpq.Header.{located, locate, header_at, aligned, found_at, user_data_at, parse_at}
use ghostrs.Mpq.Header.Search
use ghostrs.Mpq.HashTable.{start_index, Found, find_block_index, find_block_index-Found}
use ghostrs.Spectator.Body.{new, finish, prologue, drain_new_blocks, done, failure, start_never_set}
use ghostrs.Spectator.Body.Runs.{
  Call, run, start, player, timeslot, leaver, chat, drain, started, total_ms, drains-blocks,
  finish_lem,
}

-- The constant that the source's own test checks.
hash_table_key : hash_string (text "(hash table)") hash_file_key ≡ 0xC3AF3770
unfolding hash_string hash_loop build_storm_buffer rows column folded
hash_table_key = refl

abbrev entry : MpqHashEntry
entry = record { hash_a = 1; hash_b = 2; locale = 0; platform = 0; block_index = 5 }

find_block_index_example :
    Found
      (entry ∷ [])
      (start_index (entry ∷ []) (text "(listfile)"))
      (hash_string (text "(listfile)") hash_name_a)
      (hash_string (text "(listfile)") hash_name_b)
      0
      1
      (find_block_index (entry ∷ []) (text "(listfile)"))
find_block_index_example = find_block_index-Found (entry ∷ []) (text "(listfile)")

-- The table of one entry, as an archive holds it.
abbrev sealed : Bytes
sealed =
    205 ∷ 207 ∷ 60 ∷ 134 ∷ 219 ∷ 38 ∷ 205 ∷ 103 ∷ 136 ∷ 140 ∷ 144 ∷ 96 ∷ 54 ∷ 128 ∷ 177 ∷ 22 ∷ []

-- User data at 0 leads to the archive at 16.
abbrev file : Bytes
file =
    (77 ∷ 80 ∷ 81 ∷ 0x1B ∷ 0 ∷ 0 ∷ 0 ∷ 0 ∷ 16 ∷ 0 ∷ 0 ∷ 0 ∷ 0 ∷ 0 ∷ 0 ∷ 0 ∷ [])
    ++ (77 ∷ 80 ∷ 81 ∷ 0x1A ∷ 32 ∷ [])
    ++ replicate 27 0

locate-Outcome_example : Search.Outcome file (locate file)
locate-Outcome_example = Search.locate-Outcome file

locate_user_data : locate file ≡ located (header_at file 0 16)
unfolding locate aligned found_at user_data_at parse_at header_at
locate_user_data = refl

abbrev calls : List Call
calls =
    timeslot 100 (1 ∷ 2 ∷ [])
    ∷ drain
    ∷ start (replicate 9 0) 77 0 1
    ∷ player 2 (text "Blue")
    ∷ chat 2 0x20 0 (text "hi")
    ∷ drain
    ∷ timeslot 150 []
    ∷ leaver 2 1 8
    ∷ []

drains-blocks_example :
    let (b, out) = run (new 1 (text "host")) calls in out ++ (drain_new_blocks b).1 ≡ b.blocks
drains-blocks_example = drains-blocks 1 (text "host") calls

finish_example :
    let b = (run (new 1 (text "host")) calls).0 in
    ((started calls ≡ false) × (finish b ≡ failure start_never_set))
    ⊎ ((started calls ≡ true)
        × ((r : Bytes) × (prologue b ≡ done r)
            × (finish b ≡ done (r ++ b.blocks, as_u32 (total_ms calls)))))
finish_example = finish_lem 1 (text "host") calls
