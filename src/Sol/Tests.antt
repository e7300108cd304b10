-- ===== src/Sol/Tests.antt =====
-- The Solana client on three nodes, whose answers are numbers.
use sxn_spv.Common.{
  ℕ, ◌≤◌, ◌<◌, ◌≡◌, ◌≢◌, ◌↔◌, ◌⊎◌, inl, inr, refl, sym, Bool-cases, All, true, false, String,
  Option, none, some, List, [], ◌∷◌, ◌==◌, if◌then◌else◌, arith,
}
use sxn_spv.Common.Outcome.{ok, panic}
use sxn_spv.Common.Classes.{nat_eq, bytes_eq, string_eq}
use sxn_spv.Common.HashMap
use sxn_spv.Common.HashMap.{HashMap}
use sxn_spv.Common.Tally.{count, tally_into, bump}
use sxn_spv.Sol.Types.{rpc_failed, internal, done, failed, Json, SignaturesConfig, ResponseEvent}
use sxn_spv.Sol.Sample.{nat_serde, option_serde, option_beq, test_solana}
use sxn_spv.Sol.Votes.{
  answers, texts, most_counted, max_value, count_value, max_by_count, deal_get_slot_res,
  deal_get_account_res, deal_get_program_accounts_res,
}
use sxn_spv.Sol.Votes.Results.{Preferred}
use sxn_spv.Sol.Votes.Agreement.{NoRepeats, ListedByAll, deal_get_program_accounts_res_iff}
use sxn_spv.Sol.Worker.{AccountCall, account}
use sxn_spv.Sol.Collect.{
  Turn, quiet, received, deal, collect, insert_vote, deal_get_slot, deal_get_account_info,
}
use sxn_spv.Sol.Collect.Rounds.{voters, InTime}
use sxn_spv.Sol.Collect.Elections.{DistinctNodes}
use sxn_spv.Sol.Judge.{
  judge_answer, get_program_accounts, get_signatures_for_address, get_account_info, get_slot,
}
use sxn_spv.Sol.Judge.Verdicts.{get_program_accounts_both}
use sxn_spv.Sol.Judge.Nodes.{
  get_slot_agreed, get_account_info_agreed, get_account_info_error, get_signatures_for_address_both,
}

program : Unit {0}
unfolding deal deal_get_slot deal_get_account_info deal_get_slot_res deal_get_account_res collect
    insert_vote most_counted max_value count_value max_by_count tally_into bump HashMap.get
    HashMap.insert
program = tt

-- Three nodes; two of them agree. A second passes without a message.
abbrev slot_turns : List (Turn ℕ)
slot_turns =
    received 1 (done 8) "a" ∷ quiet ∷ received 2 (done 8) "b" ∷ received 2 (done 9) "c" ∷ []

abbrev account_turns : List (Turn (Option ℕ))
account_turns =
    received 1 (done (some 8)) "a"
    ∷ received 2 (done none) "b"
    ∷ quiet
    ∷ received 2 (done (some 8)) "c"
    ∷ []

slot_votes :
    (t : ℕ) → t ≢ 8 → count t (answers (voters slot_turns)) < count 8 (answers (voters slot_turns))
slot_votes t other = ground arith

slot_run : deal_get_slot test_solana 3 true slot_turns ≡ some (ok (ResponseEvent.get_slot (done 8)))
unfolding program
slot_run = refl

account_run :
    deal_get_account_info test_solana 3 true account_turns
    ≡ some (ok (ResponseEvent.get_account_info (done (some 8))))
unfolding program
account_run = refl

texts_differ : (u v : String) → string_eq.beq u v ≡ false → v ≢ u
texts_differ u v h same = ground (arith, (string_eq.beq_iff u v).1 (sym same))

slots-InTime : All InTime slot_turns
slots-InTime = (omega arith, (tt, (omega arith, (omega arith, tt))))

abbrev judge_slot : Option ℕ
judge_slot = some 7

get_slot_agreed_example :
    (get_slot {solana = test_solana} true judge_slot (some (ResponseEvent.get_slot (done 8)))
      ≡ ok 7)
    ↔ ((judge_slot ≡ some 7)
        × ((slot : ℕ) × (0 < count slot (answers (voters slot_turns)))
            × ((t : ℕ)
                → t ≢ slot
                → count t (answers (voters slot_turns)) < count slot (answers (voters slot_turns)))
            × (7 ≤ slot)))
get_slot_agreed_example =
    get_slot_agreed test_solana slot_turns (ResponseEvent.get_slot (done 8)) judge_slot 7
      slots-InTime
      (
        (texts_differ "a" "b" refl, (texts_differ "a" "c" refl, tt)),
        ((texts_differ "b" "c" refl, tt), (tt, tt)),
      )
      (omega arith) slot_run

get_account_info_error_example :
    (event : ResponseEvent test_solana) × (deal_get_account_info test_solana 3 true
        (received 1 (done (some 8)) "a" ∷ received 2 (failed (internal rpc_failed)) "b" ∷ [])
      ≡ some (ok event))
    × (get_account_info true (inl (account 8)) (some event) ≡ panic)
get_account_info_error_example =
    get_account_info_error test_solana 3 (received 1 (done (some 8)) "a" ∷ []) 2
      (internal rpc_failed) "b" [] (inl (account 8)) (some 8) (omega arith, tt) (tt, tt)
      (omega arith) refl

once : (n m : ℕ) → n ≢ m → (t : Json) → count t (texts nat_serde (n ∷ m ∷ [])) ≤ 1
once n m differ t =
    let left = (bytes_eq.beq_iff (n ∷ []) t).0 in
    let right = (bytes_eq.beq_iff (m ∷ []) t).0 in
    elim (Bool-cases (bytes_eq.beq (n ∷ []) t)) [
      | inl a ↦ elim (Bool-cases (bytes_eq.beq (m ∷ []) t)) [
        | inl b ↦ absurd (differ (cc (left a, right b)))
        | inr b ↦ ground (arith, a, b)
      ]
      | inr a ↦ ground (arith, a)
    ]

get_program_accounts_both_example :
    (items : List ℕ) × (get_program_accounts {solana = test_solana} true
        (some (4 ∷ 5 ∷ []))
        (some (ResponseEvent.get_program_accounts (done (5 ∷ 6 ∷ []))))
      ≡ ok items)
    × ((t : Json)
        → (0 < count t (texts nat_serde items)) ↔ (
            (0 < count t (texts nat_serde (4 ∷ 5 ∷ [])))
            × (0 < count t (texts nat_serde (5 ∷ 6 ∷ [])))))
get_program_accounts_both_example =
    get_program_accounts_both test_solana (4 ∷ 5 ∷ []) (5 ∷ 6 ∷ []) (once 4 5 (λ h. omega arith))
      (once 5 6 (λ h. omega arith))

account_nodes : DistinctNodes (voters account_turns)
account_nodes = (
  (texts_differ "a" "b" refl, (texts_differ "a" "c" refl, tt)),
  ((texts_differ "b" "c" refl, tt), (tt, tt)),
)

abbrev judged : AccountCall ℕ ⊎ Option (Option ℕ)
judged = inl (account 8)

get_account_info_agreed_example :
    (get_account_info {solana = test_solana} true judged
        (some (ResponseEvent.get_account_info (done (some 8))))
      ≡ ok (some 8))
    ↔ ((judge_answer judged ≡ some (some 8))
        × Preferred option_serde (some 8) (voters account_turns))
get_account_info_agreed_example =
    get_account_info_agreed test_solana account_turns
      (ResponseEvent.get_account_info (done (some 8))) judged (some 8)
      (omega arith, (omega arith, (tt, (omega arith, tt)))) account_nodes (omega arith) account_run

-- The nodes answer with what comes before the signature that they are asked for, and have nothing before
-- any other.
abbrev ask : SignaturesConfig test_solana → Option (ResponseEvent test_solana)
ask config =
    if option_beq config.before (some 9)
    then some (ResponseEvent.get_signatures_for_address (done (5 ∷ 6 ∷ [])))
    else none

-- The caller asks for at most ten, before another signature.
abbrev caller_config : SignaturesConfig test_solana
caller_config = record { before = some 2; until = none; limit = some 10; commitment = none }

get_signatures_for_address_both_example :
    (items : List ℕ) × (get_signatures_for_address true
        (some caller_config)
        (some (9 ∷ 4 ∷ 5 ∷ []))
        ask
      ≡ ok (9 ∷ items))
    × ((t : Json)
        → (0 < count t (texts nat_serde items)) ↔ (
            (0 < count t (texts nat_serde (4 ∷ 5 ∷ [])))
            × (0 < count t (texts nat_serde (5 ∷ 6 ∷ [])))))
get_signatures_for_address_both_example =
    get_signatures_for_address_both test_solana (some caller_config) 9 9 (4 ∷ 5 ∷ []) (5 ∷ 6 ∷ [])
      ask refl refl (once 4 5 (λ h. omega arith)) (once 5 6 (λ h. omega arith))

abbrev judge_tx : Option ℕ
judge_tx = some 3

abbrev tx_event : Option (ResponseEvent test_solana)
tx_event = some (ResponseEvent.get_transaction (done 3))

abbrev lists : HashMap String (List ℕ)
lists = ("a", 4 ∷ 5 ∷ []) ∷ ("b", 5 ∷ 6 ∷ []) ∷ []

lists-NoRepeats : NoRepeats nat_serde lists
lists-NoRepeats = (once 4 5 (λ h. omega arith), (once 5 6 (λ h. omega arith), tt))

deal_get_program_accounts_res_iff_example :
    (items : List ℕ) × (deal_get_program_accounts_res nat_serde lists ≡ ok items)
    × ((t : Json) → (0 < count t (texts nat_serde items)) ↔ ListedByAll nat_serde t lists)
deal_get_program_accounts_res_iff_example =
    deal_get_program_accounts_res_iff nat_serde lists (omega arith) lists-NoRepeats

-- A node that fails once.
abbrev second_try : ℕ → Option ℕ
second_try n = if n == 0 then none else some n
