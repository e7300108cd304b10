-- ===== src/Server/Start.antt =====
-- What `main` of src/main.rs makes before it serves: the clients of the services that are on, and the state
-- of src/chainstate.rs that holds them. Each client is made by other code, which may panic.
use sxn_spv.Common.{String, Bool, true, false, ◌||◌, Option, none, some, List, if◌then◌else◌}
use sxn_spv.Common.Outcome.{Outcome, Panics, ok, err, panic, ◌>>=◌, unwrap}
use sxn_spv.Cache
use sxn_spv.JsonRpc.{Json, ResponseCache}
use sxn_spv.Sol.Start.{SolClient, initialize_sol_client}
use sxn_spv.Server.Network.{Network}
use sxn_spv.Server.Services.{Service}

-- The options that the start reads; the rest is passed on to the clients.
pub record ConfigCli : Type 0 where
  pub network_type : Network
  pub doge_network_type : Network
  pub cookie : Option String
  pub doge_cookie : Option String
  pub electrs_support : Bool
  pub btc_only_p2p : Bool
  pub enable_single_sol_rpc : Bool
  pub sol_extra_rpcs : List String
  pub sol_judge_rpc : String

pub record Config : Type 0 where
  pub configcli : ConfigCli
  pub service : Service

-- The clients, and how they are made: by the node's cookie, the network and the flag for electrs the
-- daemons; from the network's name and the configuration the others. `none` is a `Result::Err`.
pub record Makers : Type 1 where
  pub Store : Type 0
  pub Daemon : Type 0
  pub Handle : Type 0
  pub EthereumClient : Type 0
  pub OpStackClient : Type 0
  pub store_opened : Panics Store
  pub new_daemon : String → Network → Bool → Option Daemon
  pub run_p2p_btc_client : Network → Option Handle
  pub run_p2p_doge_client : Network → Option Handle
  pub run_eth_light_client : Panics EthereumClient
  pub run_op_light_client : Panics OpStackClient
  pub healthy : String → Bool

-- `Result::unwrap`
abbrev pub unwrap_result : {E A : Type 0} → Outcome E A → Panics A
unwrap_result (ok a) = ok a
unwrap_result (err e) = panic
unwrap_result panic = panic

-- `if enabled { Some(..) } else { None }`
abbrev pub when_enabled : {A : Type 0} → Bool → Panics A → Panics (Option A)
when_enabled false made = ok none
when_enabled true made = made >>= λ a. ok (some a)

module _ (makers : Makers) where
  open makers use {Store, Daemon, Handle, EthereumClient, OpStackClient}

  -- The cache of responses stands beside it.
  pub record ChainsState : Type 0 where
    pub store : Store
    pub daemon : Option Daemon
    pub doge_daemon : Option Daemon
    pub handle : Option Handle
    pub doge_handle : Option Handle
    pub helios_client : Option EthereumClient
    pub helios_op_client : Option OpStackClient
    pub sol_client : Option SolClient

  unfoldable pub initialize_helios_client :
      Config → Panics (Option EthereumClient × Option OpStackClient)
  initialize_helios_client config = do
    eth_client ← when_enabled config.service.eth makers.run_eth_light_client
    op_client ← when_enabled config.service.op makers.run_op_light_client
    ok (eth_client, op_client)

  unfoldable pub initialize_p2p_clients : Config → Panics (Option Handle × Option Handle)
  initialize_p2p_clients config = do
    btc_handle ←
        when_enabled config.service.btc
          (unwrap (makers.run_p2p_btc_client config.configcli.network_type))
    doge_handle ←
        when_enabled config.service.doge
          (unwrap (makers.run_p2p_doge_client config.configcli.doge_network_type))
    ok (btc_handle, doge_handle)

  abbrev pub daemon_with : Option String → Network → Bool → Panics Daemon
  daemon_with cookie network electrs_support = do
    secret ← unwrap cookie
    unwrap (makers.new_daemon secret network electrs_support)

  unfoldable pub initialize_daemons : Config → Panics (Option Daemon × Option Daemon)
  initialize_daemons config = do
    btc_daemon ← when_enabled config.service.btc (
        daemon_with config.configcli.cookie config.configcli.network_type
          config.configcli.electrs_support)
    doge_daemon ← when_enabled config.service.doge (
        daemon_with config.configcli.doge_cookie config.configcli.doge_network_type
          config.configcli.electrs_support)
    ok (btc_daemon, doge_daemon)

  abbrev pub sol_client_of : Config → Panics (Option SolClient)
  sol_client_of config = unwrap_result (
      initialize_sol_client makers.healthy config.service.sol config.configcli.enable_single_sol_rpc
        config.configcli.sol_extra_rpcs config.configcli.sol_judge_rpc)

  unfoldable pub initialize_chains_state :
      Store
      → Option Daemon × Option Daemon
      → Option Handle × Option Handle
      → Option EthereumClient × Option OpStackClient
      → Option SolClient
      → ChainsState
  initialize_chains_state store daemons handles helios sol_client = record {
    store = store;
    daemon = daemons.0;
    doge_daemon = daemons.1;
    handle = handles.0;
    doge_handle = handles.1;
    helios_client = helios.0;
    helios_op_client = helios.1;
    sol_client = sol_client;
  }

  -- `main` up to the state.
  unfoldable pub initialize : Config → Panics ChainsState
  unfolding initialize_chains_state
  initialize config = do
    helios ← initialize_helios_client config
    handles ← initialize_p2p_clients config
    daemons ← initialize_daemons config
    sol_client ← sol_client_of config
    store ← makers.store_opened
    ok (initialize_chains_state store daemons handles helios sol_client)

  -- The state that is served, if any, and the cache of 2000 responses.
  unfoldable pub start_server :
      (json : Json) → ChainsState → Config → Option (ChainsState × ResponseCache json)
  start_server json chains_state config =
      if config.configcli.electrs_support || config.configcli.btc_only_p2p
      then some (chains_state, Cache.new 2000)
      else none
