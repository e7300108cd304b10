-- ===== src/Server/Clients.antt =====
-- The clients in the state that `main` of src/main.rs makes, and the requests that src/server.rs lets through.
mod Tests
use sxn_spv.Common.{
  ◌≡◌, refl, sym, ap, ◌∙◌, inl, inr, String, Bool, true, false, ◌||◌, Option, none, some, List,
  if◌then◌else◌, Bool-cases, arith,
}
use mathlib.Core.Path.{subst}
use sxn_spv.Common.Outcome.{
  Outcome, Panics, ok, err, panic, ◌>>=◌, ◌>>◌, unwrap, bind-ok, ok-injective,
}
use sxn_spv.Cache
use sxn_spv.JsonRpc.{Json, ResponseCache}
use sxn_spv.Sol.Start.{StartError, SolClient, initialize_sol_client}
use sxn_spv.Server.Network.{Network}
use sxn_spv.Server.Services.{Service, is_some, is_service_enabled, route_enabled}
use sxn_spv.Server.Start.{
  Config, Makers, ChainsState, unwrap_result, when_enabled, initialize_helios_client,
  initialize_p2p_clients, initialize_daemons, initialize_chains_state, sol_client_of, initialize,
}

when_enabled-ok :
    {A : Type 0} (enabled : Bool) (made : Panics A) (r : Option A)
    → when_enabled enabled made ≡ ok r
    → is_some r ≡ enabled
when_enabled-ok false made r eq = sym (ap is_some (ok-injective eq))
when_enabled-ok true (ok a) r eq = sym (ap is_some (ok-injective eq))
when_enabled-ok true (err e) r eq = absurd e
when_enabled-ok true panic r eq = absurd (ground arith)

-- Both halves of a pair of clients are there when they are enabled.
pair-ok :
    {A B : Type 0} (first second : Bool) (made : Panics A) (other : Panics B)
    (r : Option A × Option B)
    → (when_enabled first made >>= λ a. when_enabled second other >>= λ b. ok (a, b)) ≡ ok r
    → (is_some r.0 ≡ first) × (is_some r.1 ≡ second)
pair-ok first second made other r eq =
    let (a, one, rest) = bind-ok (when_enabled first made) _ r eq in
    let (b, two, same) = bind-ok (when_enabled second other) _ r rest in
    let pair = ok-injective same in
    (
      ap (λ p. is_some p.0) (sym pair) ∙ when_enabled-ok first made a one,
      ap (λ p. is_some p.1) (sym pair) ∙ when_enabled-ok second other b two,
    )

started-ok :
    {A : Type 0} (m : Outcome StartError (Unit {0})) (n : Outcome StartError A) (r : Option A)
    → unwrap_result (m >> (n >>= λ a. ok (some a))) ≡ ok r
    → is_some r ≡ true
started-ok (ok u) (ok a) r eq = sym (ap is_some (ok-injective eq))
started-ok (ok u) (err e) r eq = absurd (ground arith)
started-ok (ok u) panic r eq = absurd (ground arith)
started-ok (err e) n r eq = absurd (ground arith)
started-ok panic n r eq = absurd (ground arith)

sol-ok :
    (healthy : String → Bool) (enabled single : Bool) (urls : List String) (judge : String)
    (r : Option SolClient)
    → unwrap_result (initialize_sol_client healthy enabled single urls judge) ≡ ok r
    → is_some r ≡ enabled
unfolding initialize_sol_client
sol-ok healthy false single urls judge r eq = sym (ap is_some (ok-injective eq))
sol-ok healthy true single urls judge r eq = started-ok _ _ r eq

module _ (makers : Makers) where
  -- The state has a client for each service that is on, and for no other.
  pub record HasClients (state : ChainsState makers) (service : Service) : Type 0 where
    pub daemon_on : is_some state.daemon ≡ service.btc
    pub doge_daemon_on : is_some state.doge_daemon ≡ service.doge
    pub handle_on : is_some state.handle ≡ service.btc
    pub doge_handle_on : is_some state.doge_handle ≡ service.doge
    pub helios_on : is_some state.helios_client ≡ service.eth
    pub helios_op_on : is_some state.helios_op_client ≡ service.op
    pub sol_on : is_some state.sol_client ≡ service.sol

  pub initialize-HasClients :
      (config : Config) (state : ChainsState makers)
      → initialize makers config ≡ ok state
      → HasClients state config.service
  unfolding initialize initialize_helios_client initialize_p2p_clients initialize_daemons
      initialize_chains_state
  initialize-HasClients config state eq =
      let (helios, h, eq1) = bind-ok (initialize_helios_client makers config) _ state eq in
      let (handles, p, eq2) = bind-ok (initialize_p2p_clients makers config) _ state eq1 in
      let (daemons, d, eq3) = bind-ok (initialize_daemons makers config) _ state eq2 in
      let (sol_client, s, eq4) = bind-ok (sol_client_of makers config) _ state eq3 in
      let (store, o, eq5) = bind-ok makers.store_opened _ state eq4 in
      let made : initialize_chains_state makers store daemons handles helios sol_client ≡ state =
        ok-injective eq5 in
      let (eth_on, op_on) = pair-ok _ _ _ _ helios h in
      let (btc_on, doge_on) = pair-ok _ _ _ _ handles p in
      let (daemon_on, doge_daemon_on) = pair-ok _ _ _ _ daemons d in
      let sol_on =
        sol-ok makers.healthy config.service.sol config.configcli.enable_single_sol_rpc
          config.configcli.sol_extra_rpcs config.configcli.sol_judge_rpc sol_client s in
      subst (λ st. HasClients st config.service) made
        (record {
          daemon_on = daemon_on;
          doge_daemon_on = doge_daemon_on;
          handle_on = btc_on;
          doge_handle_on = doge_on;
          helios_on = eth_on;
          helios_op_on = op_on;
          sol_on = sol_on;
        })

  -- Once `main` has made the state, a request to the path of a chain passes the check of the server if and
  -- only if the client that its handler unwraps is there: no handler that is reached panics for want of it.
  pub is_service_enabled-initialize :
      (config : Config) (state : ChainsState makers)
      → initialize makers config ≡ ok state
      → (is_service_enabled config.service "/btc" ≡ is_some state.handle)
        × (is_service_enabled config.service "/doge" ≡ is_some state.doge_handle)
        × (is_service_enabled config.service "/eth" ≡ is_some state.helios_client)
        × (is_service_enabled config.service "/eth2" ≡ is_some state.helios_client)
        × (is_service_enabled config.service "/optimism" ≡ is_some state.helios_op_client)
        × (is_service_enabled config.service "/sol" ≡ is_some state.sol_client)
  unfolding is_service_enabled
  is_service_enabled-initialize config state eq =
      let c = initialize-HasClients config state eq in
      (
        sym c.handle_on,
        sym c.doge_handle_on,
        sym c.helios_on,
        sym c.helios_on,
        sym c.helios_op_on,
        sym c.sol_on,
      )
