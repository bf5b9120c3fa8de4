-- ===== src/BtcScript/Tests.antt =====
-- Scripts of pignus/btcscript.py at concrete values, and instances of the theorems.
use pignus.Prelude.{
  ◌≡◌, ◌↔◌, refl, true, false, some, List, [], ◌∷◌, Text, codes, text_eq, replicate, All, arith,
}
use pignus.BtcScript.{
  digits, top_set, script_num, ser_push, ser_item, ser_script, two_of_two, timelocked_single,
  hashlocked_two_of_two,
}
use pignus.BtcScript.Rules.{Spending, opens}
use pignus.BtcScript.Opens.{BothSigned, hashlocked_two_of_two-opens_iff}
use pignus.BtcScript.Numbers.{script_num_ends}
use pignus.BtcScript.Rules.{
  number_of, negative, drop, read, locks, signs, executes_two, executes, runs, truthy, leaves_true,
}
use pignus.BtcScript.Tree.{Curve, TapTree, tap_tree, control_block, script_pub_key}
use pignus.BtcScript.Control.{commits, tap_tree-commits}

-- A number over 2 ^ 31 takes a fifth byte for the sign.
long_number : script_num 4_000_000_000 ≡ 0x00 ∷ 0x28 ∷ 0x6b ∷ 0xee ∷ 0x00 ∷ []
unfolding script_num digits top_set
long_number = refl

-- A run in which a key's signature is the key itself.
abbrev run : Spending
run = record {
  sha256 = λ s. s;
  verifies = λ key sig. text_eq key sig;
  locktime = 800_000;
  sequence = 0xfffffffe;
}

abbrev pair_script : Text
pair_script = 1 ∷ 5 ∷ 0xad ∷ 1 ∷ 6 ∷ 0xac ∷ []

pair : two_of_two (5 ∷ []) (6 ∷ []) ≡ some pair_script
unfolding two_of_two ser_script ser_item ser_push
pair = refl

pair_opens : opens run pair_script ((5 ∷ []) ∷ (6 ∷ []) ∷ []) ≡ true
unfolding opens read drop locks negative signs executes_two executes runs truthy leaves_true
pair_opens = refl

pair_swapped : opens run pair_script ((6 ∷ []) ∷ (5 ∷ []) ∷ []) ≡ false
unfolding opens read drop locks negative signs executes_two executes runs truthy leaves_true
pair_swapped = refl

abbrev hash_script : Text
hash_script = 0xa8 ∷ 1 ∷ 9 ∷ 0x88 ∷ 1 ∷ 5 ∷ 0xad ∷ 1 ∷ 6 ∷ 0xac ∷ []

hashed : hashlocked_two_of_two (9 ∷ []) (5 ∷ []) (6 ∷ []) ≡ some hash_script
unfolding hashlocked_two_of_two ser_script ser_item ser_push
hashed = refl

abbrev hash_stack : List Text
hash_stack = (9 ∷ []) ∷ (5 ∷ []) ∷ (6 ∷ []) ∷ []

hashlocked_two_of_two-opens_iff_example : (opens run hash_script hash_stack ≡ true) ↔ (
    (secret : Text) × (rest : List Text) × (hash_stack ≡ secret ∷ rest)
    × (secret ≡ 9 ∷ [])
    × BothSigned run (5 ∷ []) (6 ∷ []) rest)
hashlocked_two_of_two-opens_iff_example =
    hashlocked_two_of_two-opens_iff run (9 ∷ []) (5 ∷ []) (6 ∷ []) hash_script hash_stack hashed

abbrev lock_script : Text
lock_script = 3 ∷ 0x00 ∷ 0x35 ∷ 0x0c ∷ 0xb1 ∷ 0x75 ∷ 1 ∷ 5 ∷ 0xac ∷ []

locked : timelocked_single 800_000 (5 ∷ []) ≡ some lock_script
unfolding timelocked_single ser_script ser_item ser_push script_num digits top_set
locked = refl

abbrev curve : Curve
curve = record { sha256 = λ s. replicate 32 7; tweak_add_pubkey = λ key tweak. (key, true) }

abbrev tree : TapTree
tree = tap_tree curve (replicate 32 3) (codes "a", pair_script) ((codes "b", lock_script) ∷ [])

tap_tree-commits_example :
    All
      (λ l. commits curve (script_pub_key tree) l.script (control_block tree l) ≡ true)
      tree.leaves
tap_tree-commits_example =
    tap_tree-commits curve (λ s. refl) (replicate 32 3) (codes "a", pair_script)
      ((codes "b", lock_script) ∷ []) refl

script_num_ends_example :
    (digits 4_000_000_009 4_000_000_000 ≡ digits 4_000_000_000 4_000_000_000)
    × (negative (script_num 4_000_000_000) ≡ false)
    × (number_of (script_num 4_000_000_000) ≡ 4_000_000_000)
script_num_ends_example = script_num_ends 4_000_000_009 4_000_000_000 (omega arith)
