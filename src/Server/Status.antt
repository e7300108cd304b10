-- ===== src/Server/Status.antt =====
-- `status` of src/server.rs: the heights that the clients report, and the chain ids.
use Prim.Native.Nat.{◌%◌, ◌^◌}
use sxn_spv.Common.{ℕ, ◌≡◌, refl, ◌⊎◌, inl, inr, String, Bool, true, false, Option, none, some}
use mathlib.Core.Path.{subst}
use sxn_spv.Common.Outcome.{Panics, ok, ◌>>=◌, unwrap}
use sxn_spv.Server.Network.{
  Network, bitcoin, testnet, testnet4, fractal, regtest, signet, dogecoin_mainnet, dogecoin_testnet,
  dogecoin_regtest, btc_chainid, doge_chainid,
}
use sxn_spv.Server.Services.{Service, is_some}
use sxn_spv.Server.Start.{Config, Makers, ChainsState, initialize}
use sxn_spv.Server.Clients.{initialize-HasClients}

pub record SyncStatus : Type 0 where
  pub p2p_btc_height : ℕ
  pub rpc_btc_tip : ℕ
  pub lightclient_eth_height : ℕ
  pub p2p_doge_height : ℕ
  pub lightclient_op_height : ℕ
  pub btc_chainid : ℕ
  pub eth_chainid : ℕ
  pub doge_chainid : ℕ
  pub op_chainid : ℕ

-- What is asked of the clients: the height of the tip, and the number of the latest block (a `U256`) with
-- the id of the chain. An error is its text.
pub record Queries (makers : Makers) : Type 0 where
  pub get_tip : makers.Handle → String ⊎ ℕ
  pub eth_chain_id : makers.EthereumClient → ℕ
  pub eth_block_number : makers.EthereumClient → String ⊎ ℕ
  pub op_chain_id : makers.OpStackClient → ℕ
  pub op_block_number : makers.OpStackClient → String ⊎ ℕ

abbrev pub or_zero : String ⊎ ℕ → ℕ
or_zero (inl e) = 0
or_zero (inr height) = height

-- `as_limbs()[0]`
abbrev pub lowest_limb : String ⊎ ℕ → ℕ
lowest_limb (inl e) = 0
lowest_limb (inr number) = number % 2 ^ 64

abbrev pub p2p_height : {H : Type 0} → (H → String ⊎ ℕ) → Bool → Option H → Panics ℕ
p2p_height get_tip false handle = ok 0
p2p_height get_tip true handle = unwrap handle >>= λ h. ok (or_zero (get_tip h))

abbrev pub lightclient :
    {C : Type 0} → (C → String ⊎ ℕ) → (C → ℕ) → Bool → Option C → Panics (ℕ × ℕ)
lightclient get_block_number chain_id false client = ok (0, 0)
lightclient get_block_number chain_id true client =
    unwrap client >>= λ c. ok (lowest_limb (get_block_number c), chain_id c)

module _ {makers : Makers} (queries : Queries makers) where
  unfoldable pub status : Network → Network → Service → ChainsState makers → Panics SyncStatus
  status btc doge service state = do
    btc_height ← p2p_height queries.get_tip service.btc state.handle
    doge_height ← p2p_height queries.get_tip service.doge state.doge_handle
    eth ← lightclient queries.eth_block_number queries.eth_chain_id service.eth state.helios_client
    op ← lightclient queries.op_block_number queries.op_chain_id service.op state.helios_op_client
    ok (record {
      p2p_btc_height = btc_height;
      rpc_btc_tip = 0;
      lightclient_eth_height = eth.0;
      p2p_doge_height = doge_height;
      lightclient_op_height = op.0;
      btc_chainid = btc_chainid btc;
      eth_chainid = eth.1;
      doge_chainid = doge_chainid doge;
      op_chainid = op.1;
    })

-- What a client that may be missing reports.
abbrev pub client_reports : {C : Type 0} → (C → ℕ) → Option C → ℕ
client_reports ask none = 0
client_reports ask (some c) = ask c

p2p_height-client_reports :
    {H : Type 0} (get_tip : H → String ⊎ ℕ) (on : Bool) (handle : Option H)
    → is_some handle ≡ on
    → p2p_height get_tip on handle ≡ ok (client_reports (λ h. or_zero (get_tip h)) handle)
p2p_height-client_reports get_tip on none same =
    subst (λ b. p2p_height get_tip b none ≡ ok 0) same refl
p2p_height-client_reports get_tip on (some h) same =
    subst (λ b. p2p_height get_tip b (some h) ≡ ok (or_zero (get_tip h))) same refl

lightclient-client_reports :
    {C : Type 0} (number : C → String ⊎ ℕ) (chain_id : C → ℕ) (on : Bool) (client : Option C)
    → is_some client ≡ on
    → lightclient number chain_id on client
      ≡ ok (client_reports (λ c. lowest_limb (number c)) client, client_reports chain_id client)
lightclient-client_reports number chain_id on none same =
    subst (λ b. lightclient number chain_id b none ≡ ok (0, 0)) same refl
lightclient-client_reports number chain_id on (some c) same =
    subst (λ b. lightclient number chain_id b (some c) ≡ ok (lowest_limb (number c), chain_id c))
      same refl

-- The ids that stand for the networks in the answer.
abbrev pub btc_id : Network → ℕ
btc_id network = elim network [ bitcoin ↦ 2693367830 | testnet ↦ 271847360 | _ ↦ 0 ]

abbrev pub doge_id : Network → ℕ
doge_id network = elim network [
  | dogecoin_mainnet ↦ 2909556119
  | dogecoin_testnet ↦ 876290947
  | _ ↦ 0
]

btc_chainid_lem : (network : Network) → btc_chainid network ≡ btc_id network
unfolding btc_chainid
btc_chainid_lem bitcoin = refl
btc_chainid_lem testnet = refl
btc_chainid_lem testnet4 = refl
btc_chainid_lem fractal = refl
btc_chainid_lem regtest = refl
btc_chainid_lem signet = refl
btc_chainid_lem dogecoin_mainnet = refl
btc_chainid_lem dogecoin_testnet = refl
btc_chainid_lem dogecoin_regtest = refl

doge_chainid_lem : (network : Network) → doge_chainid network ≡ doge_id network
unfolding doge_chainid
doge_chainid_lem bitcoin = refl
doge_chainid_lem testnet = refl
doge_chainid_lem testnet4 = refl
doge_chainid_lem fractal = refl
doge_chainid_lem regtest = refl
doge_chainid_lem signet = refl
doge_chainid_lem dogecoin_mainnet = refl
doge_chainid_lem dogecoin_testnet = refl
doge_chainid_lem dogecoin_regtest = refl

module _ {makers : Makers} (queries : Queries makers) where
  -- Once `main` has made the state, `status` returns. The heights are those that the clients report (for
  -- Ethereum and Optimism the lowest 64 bits of the number), and 0 without a client or where it fails. The
  -- chain ids of Ethereum and Optimism are those of the clients, and 0 without one; those of Bitcoin and
  -- Dogecoin go by the configured networks, whether or not there is a client, and are 0 for a network other
  -- than the main one and the test one. The tip of the stored headers is 0.
  pub status-initialize :
      (config : Config) (state : ChainsState makers)
      → initialize makers config ≡ ok state
      → status queries config.configcli.network_type config.configcli.doge_network_type
          config.service state
        ≡ ok (record {
          p2p_btc_height = client_reports (λ h. or_zero (queries.get_tip h)) state.handle;
          rpc_btc_tip = 0;
          lightclient_eth_height =
              client_reports (λ c. lowest_limb (queries.eth_block_number c)) state.helios_client;
          p2p_doge_height = client_reports (λ h. or_zero (queries.get_tip h)) state.doge_handle;
          lightclient_op_height =
              client_reports (λ c. lowest_limb (queries.op_block_number c)) state.helios_op_client;
          btc_chainid = btc_id config.configcli.network_type;
          eth_chainid = client_reports queries.eth_chain_id state.helios_client;
          doge_chainid = doge_id config.configcli.doge_network_type;
          op_chainid = client_reports queries.op_chain_id state.helios_op_client;
        })
  unfolding status
  status-initialize config state eq =
      let c = initialize-HasClients makers config state eq in
      rw
        (
          status,
          p2p_height-client_reports queries.get_tip config.service.btc state.handle c.handle_on,
          p2p_height-client_reports queries.get_tip config.service.doge state.doge_handle
              c.doge_handle_on,
          lightclient-client_reports queries.eth_block_number queries.eth_chain_id
              config.service.eth state.helios_client c.helios_on,
          lightclient-client_reports queries.op_block_number queries.op_chain_id config.service.op
              state.helios_op_client c.helios_op_on,
          btc_chainid_lem config.configcli.network_type,
          doge_chainid_lem config.configcli.doge_network_type,
        )
        refl
