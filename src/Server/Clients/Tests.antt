-- ===== src/Server/Clients/Tests.antt =====
-- A start with Bitcoin and Ethereum.
use sxn_spv.Common.{ℕ, ◌≡◌, refl, inl, inr, true, false, String, none, some, []}
use sxn_spv.Common.Outcome.{ok, panic}
use sxn_spv.Sol.Start.{initialize_sol_client}
use sxn_spv.Server.Network.{bitcoin, dogecoin_mainnet}
use sxn_spv.Server.Services.{Service, is_service_enabled}
use sxn_spv.Server.Start.{
  Config, Makers, ChainsState, initialize, initialize_helios_client, initialize_p2p_clients,
  initialize_daemons,
}
use sxn_spv.Server.Clients.{is_service_enabled-initialize}
use sxn_spv.Server.Status.{Queries, status, status-initialize}

abbrev test_makers : Makers
test_makers = record {
  Store = ℕ;
  Daemon = String;
  Handle = ℕ;
  EthereumClient = ℕ;
  OpStackClient = ℕ;
  store_opened = ok 0;
  new_daemon = λ cookie network electrs. some cookie;
  run_p2p_btc_client = λ network. some 100;
  run_p2p_doge_client = λ network. none;
  run_eth_light_client = ok 200;
  run_op_light_client = panic;
  healthy = λ url. true;
}

abbrev test_service : Service
test_service = record { btc = true; eth = true; op = false; doge = false; sol = false }

abbrev test_config : Config
test_config = record {
  configcli = record {
    network_type = bitcoin;
    doge_network_type = dogecoin_mainnet;
    cookie = some "secret";
    doge_cookie = none;
    electrs_support = false;
    btc_only_p2p = true;
    enable_single_sol_rpc = false;
    sol_extra_rpcs = [];
    sol_judge_rpc = "";
  };
  service = test_service;
}

abbrev test_state : ChainsState test_makers
test_state = record {
  store = 0;
  daemon = some "secret";
  doge_daemon = none;
  handle = some 100;
  doge_handle = none;
  helios_client = some 200;
  helios_op_client = none;
  sol_client = none;
}

-- The Bitcoin client is at its number, the Ethereum client is at the lowest limb of a larger one.
abbrev test_queries : Queries test_makers
test_queries = record {
  get_tip = λ h. inr h;
  eth_chain_id = λ c. 1;
  eth_block_number = λ c. inr 18446744073709551621;
  op_chain_id = λ c. 10;
  op_block_number = λ c. inl "down";
}

test_start : initialize test_makers test_config ≡ ok test_state
unfolding initialize initialize_helios_client initialize_p2p_clients initialize_daemons
    initialize_sol_client
test_start = refl

is_service_enabled-initialize_example :
    (is_service_enabled test_service "/btc" ≡ true)
    × (is_service_enabled test_service "/doge" ≡ false)
    × (is_service_enabled test_service "/eth" ≡ true)
    × (is_service_enabled test_service "/eth2" ≡ true)
    × (is_service_enabled test_service "/optimism" ≡ false)
    × (is_service_enabled test_service "/sol" ≡ false)
is_service_enabled-initialize_example =
    is_service_enabled-initialize test_makers test_config test_state test_start

status-initialize_example :
    status test_queries bitcoin dogecoin_mainnet test_service test_state
    ≡ ok (record {
      p2p_btc_height = 100;
      rpc_btc_tip = 0;
      lightclient_eth_height = 5;
      p2p_doge_height = 0;
      lightclient_op_height = 0;
      btc_chainid = 2693367830;
      eth_chainid = 1;
      doge_chainid = 2909556119;
      op_chainid = 0;
    })
status-initialize_example = status-initialize test_queries test_config test_state test_start
