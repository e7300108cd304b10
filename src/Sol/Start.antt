-- ===== src/Sol/Start.antt =====
-- `initialize_sol_client` of src/chains/sol.rs: the nodes that a client starts with. A node is known by its
-- url, and whether `get_health` of a node succeeds is a parameter. The set of urls is a list of its elements
-- in some order; the channels, the runtime and the workers are started with what this makes.
mod Tests
use sxn_spv.Common.{
  ℕ, ◌+◌, ◌%◌, ◌≤◌, ◌<◌, String, ◌≡◌, ◌↔◌, inl, inr, refl, ap, Option, none, some, List, [], ◌∷◌,
  ◌++◌, Bool, true, false, length, ltb, ◌==◌, if◌then◌else◌, Bool-cases, All, arith,
}
use sxn_spv.Common.Outcome.{Outcome, ok, err, panic, ◌>>=◌, ◌>>◌, unwrap}
use sxn_spv.Common.Classes.{string_eq}
use sxn_spv.Common.Tally.{count}

pub data StartError : Type 0 where
  sol_urls_num_must_be_at_least_3 : StartError
  urls_num_must_be_odd : StartError
  not_all_available : StartError

pub record SolClient : Type 0 where
  pub sol_judge_rpc : String
  pub sol_extra_rpc : List String

-- `collect::<HashSet<_>>()`
unfoldable pub unique_urls : List String → List String
unique_urls [] = []
unique_urls (url ∷ urls) =
    let rest = unique_urls urls in if ltb 0 (count url rest) then rest else url ∷ rest

-- The checks that the variable `ENABLE_SINGLE_SOL_RPC` turns off.
unfoldable pub check_urls : Bool → ℕ → Outcome StartError (Unit {0})
check_urls true n = ok tt
check_urls false n =
    if ltb n 3
    then err sol_urls_num_must_be_at_least_3
    else if n % 2 == 0
    then err urls_num_must_be_odd
    else ok tt

-- The last of `x ∷ xs`, given that of `xs`.
abbrev pub pop_after : String → Option (String × List String) → Option (String × List String)
pop_after x none = some (x, [])
pop_after x (some v) = some (v.0, x ∷ v.1)

-- `Vec::pop`
unfoldable pub pop : List String → Option (String × List String)
pop [] = none
pop (x ∷ xs) = pop_after x (pop xs)

pop-snoc : (xs : List String) (x : String) → pop (xs ++ x ∷ []) ≡ some (x, xs)
unfolding pop
pop-snoc [] x = refl
pop-snoc (y ∷ xs) x = ap (pop_after y) (pop-snoc xs x)

started_iff :
    (m : Outcome StartError (Unit {0})) (n : Outcome StartError SolClient) (client : SolClient)
    → ((m >> (n >>= λ c. ok (some c))) ≡ ok (some client)) ↔ ((m ≡ ok tt) × (n ≡ ok client))
started_iff (ok _) (ok c) client = ground arith
started_iff (ok _) (err e) client = ground arith
started_iff (ok _) panic client = ground arith
started_iff (err e) n client = ground arith
started_iff panic n client = ground arith

module _ (healthy : String → Bool) where
  -- The flag after a loop over the clients.
  unfoldable pub available_after : Bool → List String → Bool
  available_after all_available [] = all_available
  available_after all_available (client ∷ clients) =
      available_after (if healthy client then all_available else false) clients

  unfoldable pub is_all_client_available : List String → Bool
  is_all_client_available clients = available_after true clients

  unfoldable pub start_clients : List String → Outcome StartError SolClient
  start_clients extra_clients =
      if is_all_client_available extra_clients
      then unwrap (pop extra_clients)
        >>= (λ v. ok (record { sol_judge_rpc = v.0; sol_extra_rpc = v.1 }))
      else err not_all_available

  -- Whether the service is on, whether the variable is set, the extra urls as they were split at the
  -- commas, and the judge's url.
  unfoldable pub initialize_sol_client :
      Bool → Bool → List String → String → Outcome StartError (Option SolClient)
  initialize_sol_client false single sol_extra_rpcs sol_judge_rpc = ok none
  initialize_sol_client true single sol_extra_rpcs sol_judge_rpc =
      let urls = unique_urls sol_extra_rpcs in
      check_urls single (length urls)
      >> (start_clients (urls ++ sol_judge_rpc ∷ []) >>= λ client. ok (some client))

  available_after_lem :
      (flag : Bool) (clients : List String)
      → (available_after flag clients ≡ true)
        ↔ ((flag ≡ true) × All (λ c. healthy c ≡ true) clients)
  unfolding available_after
  available_after_lem flag [] = ground arith
  available_after_lem flag (c ∷ clients) = elim (Bool-cases (healthy c)) [
    | inl up ↦ ground (arith, available_after_lem flag clients, up)
    | inr down ↦ ground (arith, available_after_lem false clients, down)
  ]

  check_urls_iff :
      (single : Bool) (n : ℕ)
      → (check_urls single n ≡ ok tt) ↔ (single ≡ false → (3 ≤ n) × (n % 2 ≡ 1))
  unfolding check_urls
  check_urls_iff true n = ground arith
  check_urls_iff false n = ground arith

  start_clients_iff :
      (urls : List String) (judge : String) (client : SolClient)
      → (start_clients (urls ++ judge ∷ []) ≡ ok client) ↔ (
          (client ≡ record { sol_judge_rpc = judge; sol_extra_rpc = urls })
          × All (λ c. healthy c ≡ true) (urls ++ judge ∷ []))
  unfolding start_clients is_all_client_available
  start_clients_iff urls judge client =
      let all_up = available_after_lem true (urls ++ judge ∷ []) in
      elim (Bool-cases (available_after true (urls ++ judge ∷ []))) [
        | inl up ↦ ground (arith, all_up, up, pop-snoc urls judge)
        | inr down ↦ ground (arith, all_up, down)
      ]

  -- With the service on, a client is started if and only if the number of different urls is odd and at
  -- least 3, unless the variable is set, and the health check succeeds on every one of them and on the judge.
  -- The client has the given judge, and the different urls for its extra nodes. With the service off, the
  -- result is no client and no error.
  initialize_sol_client_iff :
      (single : Bool) (sol_extra_rpcs : List String) (judge : String) (client : SolClient)
      → ((initialize_sol_client true single sol_extra_rpcs judge ≡ ok (some client)) ↔ (
          (client ≡ record { sol_judge_rpc = judge; sol_extra_rpc = unique_urls sol_extra_rpcs })
          × (single ≡ false
              → (3 ≤ length (unique_urls sol_extra_rpcs))
                × (length (unique_urls sol_extra_rpcs) % 2 ≡ 1))
          × All (λ c. healthy c ≡ true) (unique_urls sol_extra_rpcs ++ judge ∷ [])))
        × (initialize_sol_client false single sol_extra_rpcs judge ≡ ok none)
  unfolding initialize_sol_client
  initialize_sol_client_iff single sol_extra_rpcs judge client =
      let urls = unique_urls sol_extra_rpcs in
      let both =
        started_iff (check_urls single (length urls)) (start_clients (urls ++ judge ∷ [])) client in
      let enough = check_urls_iff single (length urls) in
      let made = start_clients_iff urls judge client in
      (
        (
          λ h. let m = made.0 (both.0 h).1 in (m.0, enough.0 (both.0 h).0, m.1),
          λ h. both.1 (enough.1 h.1, made.1 (h.0, h.2)),
        ),
        refl,
      )

-- The set has a url once if it is among those given, and not at all otherwise.
unique_urls_lem :
    (urls : List String) (url : String)
    → count url (unique_urls urls) ≡ (if ltb 0 (count url urls) then 1 else 0)
unfolding unique_urls
unique_urls_lem [] url = refl
unique_urls_lem (u ∷ urls) url =
    ground (arith, unique_urls_lem urls url, unique_urls_lem urls u, string_eq.beq_iff u url)
