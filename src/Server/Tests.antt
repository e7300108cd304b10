-- ===== src/Server/Tests.antt =====
-- A start filter with two chains.
use sxn_spv.Common.{◌≡◌, ◌↔◌, refl, true, false, String, List, [], ◌∷◌}
use sxn_spv.Common.Outcome.{ok}
use sxn_spv.Server.Network.{from_str, fmt, signet, from_str_iff}
use sxn_spv.Server.Services.{
  start_services, is_service_enabled, is_service_enabled-start_services, Service,
}

abbrev filter : List String
filter = "sol" ∷ "unknown" ∷ "btc" ∷ []

from_str_iff_example : (from_str "signet" ≡ ok signet) ↔ ("signet" ≡ fmt signet)
from_str_iff_example = from_str_iff "signet" signet

is_service_enabled-start_services_example :
    (is_service_enabled (start_services filter) "/btc" ≡ true)
    × (is_service_enabled (start_services filter) "/doge" ≡ false)
    × (is_service_enabled (start_services filter) "/eth" ≡ false)
    × (is_service_enabled (start_services filter) "/eth2" ≡ false)
    × (is_service_enabled (start_services filter) "/optimism" ≡ false)
    × (is_service_enabled (start_services filter) "/sol" ≡ true)
    × (is_service_enabled (start_services filter) "/status" ≡ true)
is_service_enabled-start_services_example = is_service_enabled-start_services filter

-- The route `/ping/{str}` is never served.
ping : (service : Service) → is_service_enabled service "/ping/hello" ≡ false
unfolding is_service_enabled
ping service = refl
