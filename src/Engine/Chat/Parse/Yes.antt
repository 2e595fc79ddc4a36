-- ===== src/Engine/Chat/Parse/Yes.antt =====
-- Which commands `parse_command` (crates/spectre-engine/src/chat.rs) never makes.
use mathlib.Core.Option
use ghostrs.Base.{
  arith, ℕ, Bool, true, false, List, [], ◌∷◌, ◌++◌, Option, none, some, ◌≡◌, ◌≢◌, refl, sym, ◌∙◌,
  ap, any, text, inl, inr, Bool-cases, get_elem?,
}
use ghostrs.Protocol.Buffer.{Bytes}
use ghostrs.Engine.Phases.{◌>>=◌}
use ghostrs.Engine.Chat.{ChatCommand}
use ghostrs.Engine.Chat.Words.{slot_arg, same_text}
use ghostrs.Engine.Chat.Arms.{second_u8, first_slot, Arm, first_arms, last_arms}
use ghostrs.Engine.Chat.Parse.{dispatch, split_verb, strip_trigger, parse_command}

is_yes : ChatCommand → Bool
is_yes ChatCommand.yes = true
is_yes cmd = false

is_some_yes : Option ChatCommand → Bool
unfolding is_yes
is_some_yes none = false
is_some_yes (some cmd) = is_yes cmd

abbrev IsOther : Option ChatCommand → Type 0
IsOther o = is_some_yes o ≡ false

mapped :
    {A : Type 0} (f : A → ChatCommand) (o : Option A)
    → ((a : A) → is_yes (f a) ≡ false)
    → IsOther (Option.map f o)
unfolding is_some_yes
mapped f none other = refl
mapped f (some a) other = other a

bound :
    {A : Type 0} (o : Option A) (f : A → Option ChatCommand)
    → ((a : A) → IsOther (f a))
    → IsOther (o >>= f)
unfolding is_some_yes
bound none f other = refl
bound (some a) f other = other a

infixr 5 ◌◂◌
data MakeOther : List Arm → Type 0 where
  no_arm : MakeOther []
  ◌◂◌ :
      {verbs : List Bytes} {f : List Bytes → Option ChatCommand} {arms : List Arm}
      → ((args : List Bytes) → IsOther (f args))
      → MakeOther arms
      → MakeOther ((verbs, f) ∷ arms)

both-MakeOther : {xs ys : List Arm} → MakeOther xs → MakeOther ys → MakeOther (xs ++ ys)
both-MakeOther no_arm k = k
both-MakeOther (h ◂ hs) k = h ◂ both-MakeOther hs k

first_arms-MakeOther : MakeOther first_arms
unfolding is_some_yes is_yes
first_arms-MakeOther =
    (λ args. refl)
    ◂ (λ args. refl)
    ◂ (λ args. refl)
    ◂ (λ args. refl)
    ◂ (λ args. refl)
    ◂ (λ args. refl)
    ◂ (λ args. refl)
    ◂ (λ args. refl)
    ◂ (λ args. mapped _ (first_slot args) (λ a. refl))
    ◂ (λ args. mapped _ (first_slot args) (λ a. refl))
    ◂ (λ args. refl)
    ◂ (λ args. refl)
    ◂ (λ args.
        bound (first_slot args) _ (λ a. mapped _ (get_elem? args 1 >>= slot_arg) (λ b. refl)))
    ◂ (λ args. mapped _ (get_elem? args 0) (λ a. refl))
    ◂ (λ args. refl)
    ◂ (λ args. mapped _ (get_elem? args 0) (λ a. refl))
    ◂ (λ args. mapped _ (get_elem? args 0) (λ a. refl))
    ◂ (λ args. mapped _ (get_elem? args 0) (λ a. refl))
    ◂ (λ args. mapped _ (get_elem? args 0) (λ a. refl))
    ◂ (λ args. refl)
    ◂ (λ args. mapped _ (get_elem? args 0) (λ a. refl))
    ◂ (λ args. mapped _ (get_elem? args 0) (λ a. refl))
    ◂ (λ args. mapped _ (get_elem? args 0) (λ a. refl))
    ◂ (λ args. mapped _ (get_elem? args 0) (λ a. refl))
    ◂ (λ args. mapped _ (get_elem? args 0) (λ a. refl))
    ◂ (λ args. refl)
    ◂ (λ args. refl)
    ◂ (λ args. refl)
    ◂ (λ args. refl)
    ◂ (λ args. mapped _ (get_elem? args 0) (λ a. refl))
    ◂ (λ args. refl)
    ◂ (λ args. refl)
    ◂ (λ args. refl)
    ◂ (λ args. refl)
    ◂ (λ args. refl)
    ◂ (λ args. mapped _ (get_elem? args 0) (λ a. refl))
    ◂ (λ args. mapped _ (get_elem? args 0) (λ a. refl))
    ◂ (λ args. refl)
    ◂ (λ args. refl)
    ◂ (λ args. refl)
    ◂ (λ args. refl)
    ◂ (λ args. mapped _ (get_elem? args 0) (λ a. refl))
    ◂ no_arm

last_arms-MakeOther : MakeOther last_arms
unfolding is_some_yes is_yes
last_arms-MakeOther =
    (λ args. refl)
    ◂ (λ args. mapped _ (first_slot args) (λ a. refl))
    ◂ (λ args. bound (first_slot args) _ (λ slot. mapped _ (second_u8 args) (λ v. refl)))
    ◂ (λ args. bound (first_slot args) _ (λ slot. mapped _ (second_u8 args) (λ v. refl)))
    ◂ (λ args. bound (first_slot args) _ (λ slot. mapped _ (second_u8 args) (λ v. refl)))
    ◂ (λ args. bound (first_slot args) _ (λ slot. mapped _ (second_u8 args) (λ v. refl)))
    ◂ (λ args. refl)
    ◂ (λ args. refl)
    ◂ (λ args. refl)
    ◂ (λ args. refl)
    ◂ (λ args. refl)
    ◂ (λ args. refl)
    ◂ (λ args. refl)
    ◂ (λ args. refl)
    ◂ (λ args. refl)
    ◂ (λ args. refl)
    ◂ (λ args. refl)
    ◂ (λ args. refl)
    ◂ (λ args. refl)
    ◂ (λ args. mapped _ (get_elem? args 0) (λ a. refl))
    ◂ (λ args. refl)
    ◂ (λ args. refl)
    ◂ (λ args. refl)
    ◂ no_arm

dispatch-IsOther :
    (arms : List Arm) (verb : Bytes) (args : List Bytes)
    → MakeOther arms
    → IsOther (dispatch arms verb args)
unfolding dispatch is_some_yes is_yes
dispatch-IsOther [] verb args no_arm = refl
dispatch-IsOther ((verbs, f) ∷ arms) verb args (other ◂ others) =
    elim (Bool-cases (any (same_text verb) verbs)) [
      | inl hit ↦ rw hit (other args)
      | inr miss ↦ rw miss (dispatch-IsOther arms verb args others)
    ]

split_verb-IsOther :
    (lowercase : Bytes → Bytes) (ws : List Bytes) → IsOther (split_verb lowercase ws)
unfolding is_some_yes
split_verb-IsOther lowercase [] = refl
split_verb-IsOther lowercase (verb ∷ args) =
    dispatch-IsOther (first_arms ++ last_arms) (lowercase verb) args
      (both-MakeOther first_arms-MakeOther last_arms-MakeOther)

-- No chat line is parsed as the command `yes`, with whatever trigger, splitting and lower case; and the
-- verb "yes" itself, with whatever arguments, is the unknown command "yes".
pub parse_command-ne_yes :
    (words : Bytes → List Bytes) (lowercase : Bytes → Bytes) (trigger : ℕ) (msg : Bytes)
    (args : List Bytes)
    → (parse_command words lowercase trigger msg ≢ some ChatCommand.yes)
      × (dispatch (first_arms ++ last_arms) (text "yes") args
          ≡ some (ChatCommand.unknown (text "yes")))
parse_command-ne_yes words lowercase trigger msg args = (
  unfold parse_command is_some_yes is_yes in
      λ e.
        let other =
          bound (strip_trigger trigger msg) (λ rest. split_verb lowercase (words rest))
            (λ rest. split_verb-IsOther lowercase (words rest)) in
        let contra : true ≡ false = sym (ap is_some_yes e) ∙ other in ground (arith, contra),
  unfold dispatch same_text in refl,
)
