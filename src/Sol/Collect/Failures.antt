-- ===== src/Sol/Collect/Failures.antt =====
-- How the loops of `deal_*` fail: by a node that gives no answer, and by a node's error.
use sxn_spv.Common.{
  ℕ, ◌<◌, ◌≡◌, true, String, Option, some, List, [], ◌∷◌, ◌++◌, length, All, arith,
}
use sxn_spv.Common.Outcome.{ok}
use sxn_spv.Common.Classes.{nat_eq, bytes_eq}
use sxn_spv.Sol.Types.{received_error_from, SolClientError, internal, failed, Solana, get_slot}
use sxn_spv.Sol.Votes.{deal_get_account_res}
use sxn_spv.Sol.Collect.{Turn, received, deal, slot_error, deal_get_account_info}
use sxn_spv.Sol.Types.{get_account_info}
use sxn_spv.Sol.Collect.Rounds.{voters, InTime, collect_error}
use sxn_spv.Sol.Collect.Elections.{DistinctNodes, vote, vote-Grows, no-votes}

module _ (solana : Solana) where
  open solana use {Account}

  -- The first error of a node is the response of `deal_get_account_info`, as one to `GetSlot`.
  pub deal_get_account_info_error :
      (rpc_num : ℕ) (turns : List (Turn (Option Account))) (secs : ℕ) (e : SolClientError)
      (from : String) (after : List (Turn (Option Account)))
      → All InTime turns
      → DistinctNodes (voters turns)
      → length (voters turns) < rpc_num
      → deal_get_account_info solana rpc_num true (turns ++ received secs (failed e) from ∷ after)
        ≡ some (ok (get_slot (failed (internal (received_error_from from)))))
  unfolding deal_get_account_info deal
  deal_get_account_info_error rpc_num turns secs e from after t d few =
      let to_json = solana.account_serde.to_json in
      collect_error slot_error get_account_info (vote to_json) length
        (deal_get_account_res solana.account_serde) rpc_num turns secs e from after [] t
        (vote-Grows to_json (voters turns) [] d (no-votes to_json (voters turns))) (omega arith)
