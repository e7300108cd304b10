-- ===== src/Sol/Start/Tests.antt =====
-- A Solana client on four urls, two of which are the same, and a node that is down.
use sxn_spv.Common.{
  ◌≤◌, ◌%◌, ◌≡◌, ◌↔◌, refl, ◌++◌, All, length, true, false, not, Bool, String, none, some, List, [],
  ◌∷◌,
}
use sxn_spv.Common.Outcome.{ok, err}
use sxn_spv.Common.Classes.{string_eq}
use sxn_spv.Sol.Start.{
  SolClient, initialize_sol_client, unique_urls, check_urls, start_clients, is_all_client_available,
  available_after, pop, not_all_available, initialize_sol_client_iff,
}

abbrev urls : List String
urls = "a" ∷ "b" ∷ "a" ∷ "c" ∷ []

abbrev healthy : String → Bool
healthy url = not (string_eq.beq url "down")

abbrev started : SolClient
started = record { sol_judge_rpc = "judge"; sol_extra_rpc = unique_urls urls }

judge_down : initialize_sol_client healthy true false urls "down" ≡ err not_all_available
unfolding initialize_sol_client check_urls unique_urls start_clients is_all_client_available
    available_after
judge_down = refl

starts : initialize_sol_client healthy true false urls "judge" ≡ ok (some started)
unfolding initialize_sol_client check_urls unique_urls start_clients is_all_client_available
    available_after pop
starts = refl

initialize_sol_client_iff_example :
    ((initialize_sol_client healthy true false urls "judge" ≡ ok (some started)) ↔ (
      (started ≡ record { sol_judge_rpc = "judge"; sol_extra_rpc = unique_urls urls })
      × (false ≡ false → (3 ≤ length (unique_urls urls)) × (length (unique_urls urls) % 2 ≡ 1))
      × All (λ c. healthy c ≡ true) (unique_urls urls ++ "judge" ∷ [])))
    × (initialize_sol_client healthy false false urls "judge" ≡ ok none)
initialize_sol_client_iff_example = initialize_sol_client_iff healthy false urls "judge" started
