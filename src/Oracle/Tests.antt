-- ===== src/Oracle/Tests.antt =====
-- The theorems on thresholds, at three oracles of which two must attest.
use pignus.Prelude.{
  ℕ, ◌≤◌, ◌≡◌, refl, none, some, List, [], ◌∷◌, ◌++◌, Text, codes, text_eq, length, get_elem?, ok,
  arith,
}
use pignus.Prelude.Hex.{lower, from_hex, to_hex}
use pignus.Terms.{threshold, oracle_keys}
use pignus.Terms.Sample.{shared_loan}
use pignus.Oracle.{
  Attestation, Signing, Usable, SlotList, verify, by_key, is_usable, usable_from, select_threshold,
  max_price, liquidatable_slots,
}
use pignus.Oracle.Slots.{count_given, dearest}
use pignus.Oracle.Choice.{done, keep, leave, select_threshold_optimal}
use pignus.Oracle.Sound.{IsPresented, select_threshold_sound}

-- Hashing by the text itself, and signatures that repeat the key.
abbrev pub toy : Signing
toy = record {
  feed_of = λ market. market;
  attestation_message = λ feed time price. feed ++ time ∷ price ∷ [];
  verify_schnorr_varlen = λ key sig message. text_eq key sig;
}

abbrev pub attest : ℕ → Text → Attestation
attest price signature = record {
  market = codes "G";
  feed_id = codes "47";
  timestamp = 200;
  price = price;
  price_scale = 1000;
  signature = signature;
}

abbrev pub sent : List (Text × Attestation)
sent =
    (codes "0C", attest 910 (codes "0c"))
    ∷ (codes "0b", attest 880 (codes "0b"))
    ∷ (codes "0a", attest 900 (codes "0a"))
    ∷ []

abbrev found : Usable
found =
    (0, attest 900 (codes "0a")) ∷ (1, attest 880 (codes "0b")) ∷ (2, attest 910 (codes "0c")) ∷ []

abbrev pub slots_given : SlotList
slots_given = some (attest 900 (codes "0a")) ∷ some (attest 880 (codes "0b")) ∷ none ∷ []

all_found : usable_from toy shared_loan 0 (oracle_keys shared_loan) sent ≡ ok found
unfolding usable_from is_usable verify by_key oracle_keys lower from_hex to_hex
all_found = refl

selected : select_threshold toy shared_loan sent ≡ ok (some (slots_given, 900))
unfolding select_threshold is_usable verify by_key oracle_keys threshold lower from_hex to_hex
selected = refl

pub liquidatable : liquidatable_slots toy shared_loan sent ≡ ok (some (slots_given, 900))
unfolding liquidatable_slots is_usable verify by_key oracle_keys threshold lower from_hex to_hex
liquidatable = refl

abbrev other : Usable
other = (0, attest 900 (codes "0a")) ∷ (2, attest 910 (codes "0c")) ∷ []

threshold_met : threshold shared_loan ≤ length other
unfolding threshold
threshold_met = omega arith

select_threshold_optimal_example : 900 ≤ max_price other
select_threshold_optimal_example =
    select_threshold_optimal toy shared_loan sent found other selected all_found
      (keep (0, attest 900 (codes "0a"))
        (leave (1, attest 880 (codes "0b")) (keep (2, attest 910 (codes "0c")) done)))
      threshold_met

select_threshold_sound_example :
    (length slots_given ≡ length (oracle_keys shared_loan))
    × (count_given slots_given ≡ threshold shared_loan)
    × (900 ≡ dearest slots_given)
    × ((i : ℕ) (a : Attestation)
        → get_elem? slots_given i ≡ some (some a)
        → IsPresented toy shared_loan sent 900 i a)
select_threshold_sound_example = select_threshold_sound toy shared_loan sent selected
