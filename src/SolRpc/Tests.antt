-- ===== src/SolRpc/Tests.antt =====
-- A client over nodes that agree on one transaction.
use sxn_spv.Common.{
  ℕ, ◌≡◌, refl, ◌⊎◌, inl, inr, true, String, Option, none, some, List, [], ◌∷◌, map, if◌then◌else◌,
  arith,
}
use sxn_spv.Common.Classes.{string_eq}
use sxn_spv.Common.Order.{bytes_ord}
use sxn_spv.Common.Outcome.{ok}
use sxn_spv.Common.BTreeMap
use sxn_spv.Cache
use sxn_spv.Cache.Laws.{IsValid}
use sxn_spv.JsonRpc.{Json, ResponseCache}
use sxn_spv.Sol.Types.{ResponseEvent, done}
use sxn_spv.Sol.Judge
use sxn_spv.Sol.Judge.Verdicts.{get_transaction_iff}
use sxn_spv.Sol.Sample.{test_solana}
use sxn_spv.Sol.Votes.{most_counted, max_value, count_value, max_by_count, deal_get_transaction_res}
use sxn_spv.Sol.Collect.{Turn, quiet, received, deal, collect, insert_vote, deal_get_transaction}
use sxn_spv.Common.HashMap
use sxn_spv.Common.Tally.{tally_into, bump}
use sxn_spv.SolRpc.Types.{SolReq, SolanaJson, answer, try_from}
use sxn_spv.SolRpc.Params.{signature_param, transaction_config_param}
use sxn_spv.SolRpc.Handlers.{
  handle_request, handle_get_transaction, transaction_of, fetch_transaction,
}
use sxn_spv.SolRpc.Answers.{Ends, Returns, Formed, handle_request-Formed}
use sxn_spv.SolRpc.Judged.{fresh, served, written_by_others, AsksTransaction, handle_request-agreed}
use sxn_spv.SolRpc.Nodes.{Nodes, event_transaction, client_of, AgreedOnce}
use sxn_spv.SolRpc.Config.{handle_get_transaction_twice}

vote_program : Unit {0}
unfolding deal deal_get_transaction deal_get_transaction_res collect insert_vote most_counted
    max_value count_value max_by_count tally_into bump HashMap.get HashMap.insert
vote_program = tt

data TestValue : Type 0 where
  text : String → TestValue
  texts : List String → TestValue
  number : ℕ → TestValue

abbrev as_text : TestValue → Option String
as_text (text s) = some s
as_text _ = none

abbrev as_texts : TestValue → Option (List TestValue)
as_texts (texts ss) = some (map text ss)
as_texts _ = none

abbrev as_number : TestValue → Option ℕ
as_number (number n) = some n
as_number _ = none

abbrev test_json : Json
test_json = record { Value = TestValue; as_array = as_texts; as_str = as_text }

-- 64 bytes, the first of which is the number.
abbrev signature_key : ℕ → List ℕ
signature_key s =
    s ∷ 0 ∷ 0 ∷ 0 ∷ 0 ∷ 0 ∷ 0 ∷ 0 ∷ 0 ∷ 0 ∷ 0 ∷ 0 ∷ 0 ∷ 0 ∷ 0 ∷ 0 ∷ 0 ∷ 0 ∷ 0 ∷ 0 ∷ 0 ∷ 0 ∷ 0 ∷ 0
    ∷ 0 ∷ 0 ∷ 0 ∷ 0 ∷ 0 ∷ 0 ∷ 0 ∷ 0 ∷ 0 ∷ 0 ∷ 0 ∷ 0 ∷ 0 ∷ 0 ∷ 0 ∷ 0 ∷ 0 ∷ 0 ∷ 0 ∷ 0 ∷ 0 ∷ 0 ∷ 0 ∷ 0
    ∷ 0 ∷ 0 ∷ 0 ∷ 0 ∷ 0 ∷ 0 ∷ 0 ∷ 0 ∷ 0 ∷ 0 ∷ 0 ∷ 0 ∷ 0 ∷ 0 ∷ 0 ∷ 0 ∷ []

signature_key-injective : (s t : ℕ) → signature_key s ≡ signature_key t → s ≡ t
signature_key-injective s t eq = cc

-- The signature 1 is written "one"; a configuration is "finalized" or none.
abbrev config_of : TestValue → String ⊎ Option ℕ
config_of (text s) = if string_eq.beq s "finalized" then inr (some 0) else inl "unknown"
config_of _ = inl "unknown"

abbrev test_sj : SolanaJson test_json test_solana
test_sj = record {
  pubkey_from_str = λ s. inr 0;
  signature_from_str = λ s. if string_eq.beq s "one" then inr 1 else inl "unknown";
  signature_bytes = signature_key;
  signature_bytes_length = λ s. refl;
  signature_bytes_injective = signature_key-injective;
  transaction_config = config_of;
  commitment_config = config_of;
  account_config = config_of;
  program_config = config_of;
  signatures_config = λ v. inl "unknown";
  of_transaction = number;
  to_transaction = as_number;
  transaction_read = λ tx. refl;
  of_slot = number;
  of_account = λ a. number 0;
  of_signatures = λ s. number 0;
  of_program_accounts = λ s. number 0;
  error_text = λ e. "error";
}

-- Two nodes that give one transaction for every signature, and have nothing else.
abbrev turns_on : ℕ → List (Turn ℕ)
turns_on tx = received 1 (done tx) "a" ∷ quiet ∷ received 2 (done tx) "b" ∷ []

abbrev nodes_on : ℕ → Nodes test_solana
nodes_on tx = record {
  sent = true;
  broadcast = true;
  rpc_num = 2;
  judge_transaction = λ s c. some tx;
  judge_slot = λ c. none;
  judge_account = λ k c. inr none;
  judge_signatures = λ k c. none;
  judge_programs = λ k c. none;
  transaction_turns = λ s c. turns_on tx;
  event_slot = λ c. none;
  event_account = λ k c. none;
  event_signatures = λ k c. none;
  event_programs = λ k c. none;
}

nodes_on-event :
    (s : ℕ) (c : Option ℕ)
    → event_transaction (nodes_on 7) s c ≡ some (ResponseEvent.get_transaction (done 7))
unfolding vote_program
nodes_on-event s c = refl

agreed_on : (s : ℕ) (c : Option ℕ) → (client_of (nodes_on 7)).transaction s c ≡ ok 7
agreed_on s c =
    (get_transaction_iff {solana = test_solana} true (some 7) (event_transaction (nodes_on 7) s c)
        7).1
      (refl, refl, nodes_on-event s c)

nodes_on-Returns : Returns (client_of (nodes_on 7))
unfolding Judge.get_transaction Judge.get_slot Judge.get_account_info
    Judge.get_signatures_for_address Judge.get_program_accounts
nodes_on-Returns = record {
  transaction = λ s c eq. ground (arith, agreed_on s c, eq);
  slot = λ c eq. cc;
  account_info = λ k c eq. cc;
  signatures_for_address = λ k c eq. cc;
  program_accounts = λ k c eq. cc;
}

abbrev test_req : List String → SolReq test_json
test_req params = record {
  jsonrpc = "2.0";
  method = "getTransaction";
  params = texts params;
  id = number 5;
}

abbrev no_entries : ResponseCache test_json
no_entries = Cache.new 10

no_entries-IsValid : IsValid no_entries
no_entries-IsValid = record { sorted = tt; bounded = omega arith }

test_req-Asks : AsksTransaction test_sj (test_req ("one" ∷ "finalized" ∷ [])) 1
unfolding signature_param
test_req-Asks = record {
  method_is = refl;
  params = text "one" ∷ text "finalized" ∷ [];
  params_are = refl;
  signature_is = refl;
}

handle_request-Formed_example :
    Ends
      (λ r. Formed test_json (number 5) r.0)
      (handle_request test_sj (client_of (nodes_on 7)) (test_req ("one" ∷ [])) no_entries)
handle_request-Formed_example =
    handle_request-Formed test_sj (client_of (nodes_on 7)) (test_req ("one" ∷ [])) no_entries
      nodes_on-Returns

-- The cache with the transaction of the first request, and then also with a header that another chain wrote.
abbrev first_cached : ResponseCache test_json
first_cached = Cache.insert no_entries (signature_key 1) (number 7)

abbrev both_cached : ResponseCache test_json
both_cached = Cache.insert first_cached (5 ∷ []) (text "header")

-- The second request is answered with the transaction of the first, which the nodes elected then.
handle_request-agreed_example :
    (tx : ℕ) × (number tx ≡ number 7) × AgreedOnce (nodes_on 8 ∷ nodes_on 7 ∷ []) 1 tx
unfolding handle_request handle_get_transaction transaction_of fetch_transaction signature_param
    transaction_config_param Judge.get_transaction try_from Cache.get BTreeMap.get Cache.insert
    BTreeMap.insert vote_program
handle_request-agreed_example =
    handle_request-agreed test_sj (nodes_on 7 ∷ []) (nodes_on 8)
      (test_req ("one" ∷ "finalized" ∷ [])) 1 both_cached both_cached (answer (number 5) (number 7))
      (number 7)
      (written_by_others (nodes_on 7 ∷ []) (5 ∷ []) (text "header") first_cached
        (served [] (nodes_on 7) (test_req ("one" ∷ [])) no_entries first_cached
          (answer (number 5) (number 7)) (fresh 10) refl)
        (λ h. omega (arith, h)))
      test_req-Asks refl refl

handle_get_transaction_twice_example :
    (cache' : ResponseCache test_json) × (handle_get_transaction test_sj
        (client_of (nodes_on 7))
        (text "one" ∷ [])
        (number 1)
        no_entries
      ≡ ok (answer (number 1) (number 7), cache'))
    × (handle_get_transaction test_sj
          (client_of (nodes_on 8))
          (text "one" ∷ text "nonsense" ∷ [])
          (number 2)
          cache'
        ≡ ok (answer (number 2) (number 7), cache'))
unfolding Cache.get BTreeMap.get signature_param transaction_config_param
handle_get_transaction_twice_example =
    handle_get_transaction_twice test_sj (client_of (nodes_on 7)) (client_of (nodes_on 8))
      (text "one" ∷ []) (text "one" ∷ text "nonsense" ∷ []) (number 1) (number 2) no_entries 1 none
      7 no_entries-IsValid refl refl refl refl (agreed_on 1 none)
