-- ===== src/Server/Network.antt =====
-- `Network` of src/types.rs with its text, and the chain ids of `status` in src/server.rs.
use sxn_spv.Common.{ℕ, ◌≡◌, ◌↔◌, refl, ap, ◌∙◌, String, Bool-cases, inl, inr, if◌then◌else◌, arith}
use sxn_spv.Common.Outcome.{Outcome, ok, err, ok-injective}
use sxn_spv.Common.Classes.{string_eq}

pub data Network : Type 0 where
  bitcoin testnet testnet4 fractal regtest signet : Network
  dogecoin_mainnet dogecoin_testnet dogecoin_regtest : Network

-- `Display`
unfoldable pub fmt : Network → String
fmt bitcoin = "bitcoin"
fmt testnet = "testnet"
fmt testnet4 = "testnet4"
fmt fractal = "fractal"
fmt dogecoin_mainnet = "dogecoin_mainnet"
fmt dogecoin_testnet = "dogecoin_testnet"
fmt dogecoin_regtest = "dogecoin_regtest"
fmt regtest = "regtest"
fmt signet = "signet"

-- `FromStr`; an error carries the text.
unfoldable pub from_str : String → Outcome String Network
from_str s =
    if string_eq.beq s "bitcoin"
    then ok bitcoin
    else if string_eq.beq s "testnet"
    then ok testnet
    else if string_eq.beq s "testnet4"
    then ok testnet4
    else if string_eq.beq s "fractal"
    then ok fractal
    else if string_eq.beq s "regtest"
    then ok regtest
    else if string_eq.beq s "signet"
    then ok signet
    else if string_eq.beq s "dogecoin_mainnet"
    then ok dogecoin_mainnet
    else if string_eq.beq s "dogecoin_testnet"
    then ok dogecoin_testnet
    else if string_eq.beq s "dogecoin_regtest"
    then ok dogecoin_regtest
    else err s

unfoldable pub btc_chainid : Network → ℕ
btc_chainid bitcoin = 2693367830
btc_chainid testnet = 271847360
btc_chainid _ = 0

unfoldable pub doge_chainid : Network → ℕ
doge_chainid dogecoin_mainnet = 2909556119
doge_chainid dogecoin_testnet = 876290947
doge_chainid _ = 0

from_str-fmt : (n : Network) → from_str (fmt n) ≡ ok n
unfolding from_str fmt
from_str-fmt bitcoin = refl
from_str-fmt testnet = refl
from_str-fmt testnet4 = refl
from_str-fmt fractal = refl
from_str-fmt regtest = refl
from_str-fmt signet = refl
from_str-fmt dogecoin_mainnet = refl
from_str-fmt dogecoin_testnet = refl
from_str-fmt dogecoin_regtest = refl

-- A text that is read as a network by the first of the tests that holds.
read_as :
    (s t : String) (x n : Network) (rest : Outcome String Network)
    → (rest ≡ ok n → s ≡ fmt n)
    → t ≡ fmt x
    → (if string_eq.beq s t then ok x else rest) ≡ ok n
    → s ≡ fmt n
read_as s t x n rest other text done = elim (Bool-cases (string_eq.beq s t)) [
  | inl same ↦
      let read : x ≡ n = ok-injective (rw same at done) in
      (string_eq.beq_iff s t).0 same ∙ text ∙ ap fmt read
  | inr differs ↦ other (rw differs at done)
]

fmt-from_str : (s : String) (n : Network) → from_str s ≡ ok n → s ≡ fmt n
unfolding from_str fmt
fmt-from_str s n =
    read_as s "bitcoin" bitcoin n _
      (read_as s "testnet" testnet n _
        (read_as s "testnet4" testnet4 n _
          (read_as s "fractal" fractal n _
            (read_as s "regtest" regtest n _
              (read_as s "signet" signet n _
                (read_as s "dogecoin_mainnet" dogecoin_mainnet n _
                  (read_as s "dogecoin_testnet" dogecoin_testnet n _
                    (read_as s "dogecoin_regtest" dogecoin_regtest n _ (λ h. absurd (ground arith))
                      refl)
                    refl)
                  refl)
                refl)
              refl)
            refl)
          refl)
        refl)
      refl

-- A text is read as a network exactly when it is the text of that network, for every text and every
-- network.
pub from_str_iff : (s : String) (n : Network) → (from_str s ≡ ok n) ↔ (s ≡ fmt n)
from_str_iff s n = (fmt-from_str s n, λ h. ap from_str h ∙ from_str-fmt n)
