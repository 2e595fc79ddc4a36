-- ===== src/Engine/Chat/Arms.antt =====
-- The arms of the match in `parse_command` of crates/spectre-engine/src/chat.rs.
use ghostrs.Engine.Chat.Words.{
  parse_u64, parse_unsigned, parse_u32, on_or_off, is_empty_text, join_words, text_behind, arg_or,
  is_force, parsed_or, parse_u8, slot_arg,
}
use mathlib.Core.Option
use ghostrs.Base.{◌^◌, ℕ, ◌+◌, true, List, [], ◌∷◌, Option, some, if◌then◌else◌, text, get_elem?}
use ghostrs.Protocol.Buffer.{Bytes}
use ghostrs.Engine.Phases.{◌>>=◌}
use ghostrs.Engine.Chat.{ChatCommand}

-- An arm of the match: its patterns, and what it makes of the arguments.
abbrev pub Arm : Type 0
Arm = List Bytes × (List Bytes → Option ChatCommand)

abbrev pub just : Bytes → ChatCommand → Arm
just verb cmd = (verb ∷ [], λ args. some cmd)

-- `args.first()?.to_string()`.
abbrev pub with_first : List Bytes → (Bytes → ChatCommand) → Arm
with_first verbs f = (verbs, λ args. Option.map f (get_elem? args 0))

-- `slot_arg(args.first()?)?`.
abbrev pub first_slot : List Bytes → Option ℕ
first_slot args = get_elem? args 0 >>= slot_arg

abbrev pub second_u8 : List Bytes → Option ℕ
second_u8 args = get_elem? args 1 >>= parse_u8

abbrev pub comp_change : Bytes → (ℕ → ℕ → ChatCommand) → Arm
comp_change verb f =
    (verb ∷ [], λ args. first_slot args >>= λ slot. Option.map (f slot) (second_u8 args))

abbrev pub comp_of : List Bytes → ℕ → ChatCommand
comp_of args slot =
    ChatCommand.comp slot (parsed_or 1 (second_u8 args))
      (parsed_or (slot + 1) (get_elem? args 2 >>= parse_u8))
      (parsed_or 0x20 (get_elem? args 3 >>= parse_u8)) 1
      (parsed_or 100 (get_elem? args 4 >>= parse_u8))

-- The arms up to `virtualhost`.
abbrev pub first_arms : List Arm
first_arms =
    (text "start" ∷ text "s" ∷ [], λ args. some (ChatCommand.start (is_force (get_elem? args 0))))
    ∷ (text "sf" ∷ text "startforce" ∷ [], λ args. some (ChatCommand.start true))
    ∷ (text "abort" ∷ text "a" ∷ [], λ args. some ChatCommand.abort)
    ∷ (text "ping" ∷ text "p" ∷ [], λ args. some ChatCommand.ping)
    ∷ just (text "unhost") ChatCommand.unhost
    ∷ just (text "end") ChatCommand.end
    ∷ just (text "lock") ChatCommand.lock
    ∷ just (text "unlock") ChatCommand.unlock
    ∷ (text "open" ∷ text "o" ∷ [], λ args. Option.map ChatCommand.open_slot (first_slot args))
    ∷ (text "close" ∷ text "c" ∷ [], λ args. Option.map ChatCommand.close_slot (first_slot args))
    ∷ just (text "openall") ChatCommand.open_all
    ∷ just (text "closeall") ChatCommand.close_all
    ∷ (
      text "swap" ∷ [],
      λ args.
          first_slot args >>= λ a. Option.map (ChatCommand.swap a) (get_elem? args 1 >>= slot_arg),
    )
    ∷ (
      text "hold" ∷ text "h" ∷ [],
      λ args.
          Option.map (λ name. ChatCommand.hold name (get_elem? args 1 >>= slot_arg))
            (get_elem? args 0),
    )
    ∷ just (text "clearhold") ChatCommand.clear_hold
    ∷ with_first (text "kick" ∷ text "k" ∷ []) ChatCommand.kick
    ∷ (
      text "ban" ∷ [],
      λ args. Option.map (λ name. ChatCommand.ban name (text_behind args)) (get_elem? args 0),
    )
    ∷ with_first (text "unban" ∷ []) ChatCommand.unban
    ∷ with_first (text "checkban" ∷ []) ChatCommand.check_ban
    ∷ (
      text "banlast" ∷ [],
      λ args. some (
          ChatCommand.ban_last
            (if is_empty_text (join_words args) then text "banned by host" else join_words args)),
    )
    ∷ with_first (text "checkadmin" ∷ []) ChatCommand.check_admin
    ∷ with_first (text "addadmin" ∷ []) ChatCommand.add_admin
    ∷ with_first (text "deladmin" ∷ []) ChatCommand.del_admin
    ∷ with_first (text "mute" ∷ []) ChatCommand.mute
    ∷ with_first (text "unmute" ∷ []) ChatCommand.unmute
    ∷ just (text "muteall") ChatCommand.mute_all
    ∷ just (text "unmuteall") ChatCommand.unmute_all
    ∷ just (text "votestart") ChatCommand.vote_start
    ∷ just (text "votecancel") ChatCommand.vote_cancel
    ∷ with_first (text "votekick" ∷ text "vk" ∷ []) ChatCommand.vote_kick
    ∷ (
      text "synclimit" ∷ text "sl" ∷ [],
      λ args. some (ChatCommand.sync_limit (get_elem? args 0 >>= parse_u32)),
    )
    ∷ (
      text "latency" ∷ text "lat" ∷ text "l" ∷ [],
      λ args. some (ChatCommand.latency (get_elem? args 0 >>= parse_u32)),
    )
    ∷ just (text "sp") ChatCommand.shuffle_players
    ∷ just (text "version") ChatCommand.version
    ∷ (text "say" ∷ [], λ args. some (ChatCommand.say (join_words args)))
    ∷ (
      text "w" ∷ text "whisper" ∷ [],
      λ args. Option.map (λ user. ChatCommand.whisper user (text_behind args)) (get_elem? args 0),
    )
    ∷ with_first (text "check" ∷ []) ChatCommand.check
    ∷ just (text "checkme") ChatCommand.check_me
    ∷ (text "announce" ∷ [], λ args. some (ChatCommand.announce (join_words args)))
    ∷ (
      text "autostart" ∷ [],
      λ args. some (ChatCommand.auto_start (get_elem? args 0 >>= parse_u64)),
    )
    ∷ just (text "refresh") ChatCommand.refresh
    ∷ with_first (text "virtualhost" ∷ []) ChatCommand.virtual_host
    ∷ []

-- The arms from `dl` on.
abbrev pub last_arms : List Arm
last_arms =
    (
      text "dl" ∷ text "download" ∷ [],
      λ args. some (ChatCommand.download (arg_or [] (get_elem? args 0))),
    )
    ∷ (text "comp" ∷ [], λ args. Option.map (comp_of args) (first_slot args))
    ∷ comp_change (text "compcolour") ChatCommand.comp_colour
    ∷ comp_change (text "comprace") ChatCommand.comp_race
    ∷ comp_change (text "comphandicap") ChatCommand.comp_handicap
    ∷ comp_change (text "compteam") ChatCommand.comp_team
    ∷ (text "stats" ∷ [], λ args. some (ChatCommand.stats (arg_or [] (get_elem? args 0))))
    ∷ (
      text "statsdota" ∷ text "sd" ∷ [],
      λ args. some (ChatCommand.stats_dota (arg_or [] (get_elem? args 0))),
    )
    ∷ just (text "drop") ChatCommand.drop
    ∷ just (text "draw") ChatCommand.draw
    ∷ (text "hcl" ∷ [], λ args. some (ChatCommand.hcl (join_words args)))
    ∷ just (text "clearhcl") ChatCommand.clear_hcl
    ∷ (text "owner" ∷ [], λ args. some (ChatCommand.owner (get_elem? args 0)))
    ∷ just (text "dbstatus") ChatCommand.db_status
    ∷ (text "fakeplayer" ∷ text "fp" ∷ [], λ args. some ChatCommand.fake_player)
    ∷ just (text "fppause") ChatCommand.fp_pause
    ∷ just (text "fpresume") ChatCommand.fp_resume
    ∷ just (text "from") ChatCommand.from
    ∷ (text "messages" ∷ [], λ args. some (ChatCommand.messages (get_elem? args 0 >>= on_or_off)))
    ∷ (
      text "sendlan" ∷ [],
      λ args.
          Option.map (λ ip. ChatCommand.send_lan ip (get_elem? args 1 >>= parse_unsigned (2 ^ 16)))
            (get_elem? args 0),
    )
    ∷ (text "pub" ∷ [], λ args. some (ChatCommand.pub_game (join_words args)))
    ∷ (text "priv" ∷ [], λ args. some (ChatCommand.priv_game (join_words args)))
    ∷ (
      text "mutelobby" ∷ [],
      λ args. some (ChatCommand.mute_lobby (get_elem? args 0 >>= on_or_off)),
    )
    ∷ []
