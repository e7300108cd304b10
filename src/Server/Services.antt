-- ===== src/Server/Services.antt =====
-- `start_services` of src/config.rs and `is_service_enabled` of src/server.rs.
use mathlib.Core.Path.{subst}
use text.Mathlib.Text.{find?}
use sxn_spv.Common.{
  ◌≡◌, inl, inr, refl, sym, ap, ◌∙◌, String, Bool, true, false, ◌||◌, not, ◌&&◌, Option, none, some,
  List, [], ◌∷◌, Bool-cases, if◌then◌else◌, arith,
}
use sxn_spv.Common.Classes.{string_eq}

pub record Service : Type 0 where
  pub btc : Bool
  pub eth : Bool
  pub op : Bool
  pub doge : Bool
  pub sol : Bool

abbrev pub default : Service
default = record { btc = false; eth = false; op = false; doge = false; sol = false }

unfoldable pub start_service : Service → String → Service
start_service service s =
    if string_eq.beq s "btc"
    then record service { btc = true }
    else if string_eq.beq s "eth"
    then record service { eth = true }
    else if string_eq.beq s "op"
    then record service { op = true }
    else if string_eq.beq s "doge"
    then record service { doge = true }
    else if string_eq.beq s "sol"
    then record service { sol = true }
    else service

unfoldable pub start_from : Service → List String → Service
start_from service [] = service
start_from service (s ∷ se) = start_from (start_service service s) se

-- The names are those of the start filter, split at the commas.
unfoldable pub start_services : List String → Service
unfolding start_from
start_services se = start_from default se

-- A name stands in the list.
abbrev pub contains_name : String → List String → Bool
contains_name name [] = false
contains_name name (s ∷ se) = string_eq.beq s name || contains_name name se

-- A flag after a list of names.
abbrev flagged : String → List String → Bool → Bool
flagged name [] flag = flag
flagged name (s ∷ se) flag = flagged name se (string_eq.beq s name || flag)

flagged_lem :
    (name : String) (se : List String) (flag : Bool)
    → flagged name se flag ≡ (contains_name name se || flag)
flagged_lem name [] flag = refl
flagged_lem name (s ∷ se) flag = ground (arith, flagged_lem name se (string_eq.beq s name || flag))

off : (name : String) (se : List String) → flagged name se false ≡ contains_name name se
off name se = ground (arith, flagged_lem name se false)

abbrev flags : Service → List String → Service
flags service se = record {
  btc = flagged "btc" se service.btc;
  eth = flagged "eth" se service.eth;
  op = flagged "op" se service.op;
  doge = flagged "doge" se service.doge;
  sol = flagged "sol" se service.sol;
}

step_lem : (service : Service) (s : String) → start_service service s ≡ flags service (s ∷ [])
unfolding start_service
step_lem service s = elim (Bool-cases (string_eq.beq s "btc")) [
  | inl same ↦
      subst (λ (t : String). start_service service t ≡ flags service (t ∷ []))
        (sym ((string_eq.beq_iff s "btc").0 same)) refl
  | inr btc_ ↦ elim (Bool-cases (string_eq.beq s "eth")) [
    | inl same ↦
        subst (λ (t : String). start_service service t ≡ flags service (t ∷ []))
          (sym ((string_eq.beq_iff s "eth").0 same)) refl
    | inr eth_ ↦ elim (Bool-cases (string_eq.beq s "op")) [
      | inl same ↦
          subst (λ (t : String). start_service service t ≡ flags service (t ∷ []))
            (sym ((string_eq.beq_iff s "op").0 same)) refl
      | inr op_ ↦ elim (Bool-cases (string_eq.beq s "doge")) [
        | inl same ↦
            subst (λ (t : String). start_service service t ≡ flags service (t ∷ []))
              (sym ((string_eq.beq_iff s "doge").0 same)) refl
        | inr doge_ ↦ elim (Bool-cases (string_eq.beq s "sol")) [
          | inl same ↦
              subst (λ (t : String). start_service service t ≡ flags service (t ∷ []))
                (sym ((string_eq.beq_iff s "sol").0 same)) refl
          | inr sol_ ↦ rw (btc_, eth_, op_, doge_, sol_, start_service) refl
        ]
      ]
    ]
  ]
]

start_from_lem : (service : Service) (se : List String) → start_from service se ≡ flags service se
unfolding start_from
start_from_lem service [] = refl
start_from_lem service (s ∷ se) =
    start_from_lem (start_service service s) se ∙ ap (λ v. flags v se) (step_lem service s)

-- A service is switched on exactly when its name stands in the start filter, and no other name of the
-- filter has an effect.
pub start_services_lem :
    (se : List String)
    → start_services se ≡ record {
      btc = contains_name "btc" se;
      eth = contains_name "eth" se;
      op = contains_name "op" se;
      doge = contains_name "doge" se;
      sol = contains_name "sol" se;
    }
unfolding start_services
start_services_lem se =
    start_from_lem default se
    ∙ rw (off "btc" se, off "eth" se, off "op" se, off "doge" se, off "sol" se) refl

-- `path.contains(..)`
abbrev pub is_some {ℓ} : {A : Type ℓ} → Option A → Bool
is_some none = false
is_some (some a) = true

abbrev pub contains : String → String → Bool
contains path part = is_some (find? path part)

unfoldable pub route_enabled : Service → String → Bool
route_enabled service path =
    if string_eq.beq path "/btc"
    then service.btc
    else if string_eq.beq path "/doge"
    then service.doge
    else if string_eq.beq path "/eth"
    then service.eth
    else if string_eq.beq path "/eth2"
    then service.eth
    else if string_eq.beq path "/optimism"
    then service.op
    else if string_eq.beq path "/sol"
    then service.sol
    else string_eq.beq path "/status"

unfoldable pub is_service_enabled : Service → String → Bool
unfolding route_enabled
is_service_enabled service path =
    if contains path "/verify_tx_doge"
    then service.doge
    else if contains path "/verify_tx" && not (contains path "/verify_tx_doge")
    then service.btc
    else route_enabled service path

-- With a start filter, a request to the path of a chain passes exactly when the name of the chain stands
-- in the filter (`/eth2` goes with `eth`), and a request for the status always does.
pub is_service_enabled-start_services :
    (se : List String)
    → (is_service_enabled (start_services se) "/btc" ≡ contains_name "btc" se)
      × (is_service_enabled (start_services se) "/doge" ≡ contains_name "doge" se)
      × (is_service_enabled (start_services se) "/eth" ≡ contains_name "eth" se)
      × (is_service_enabled (start_services se) "/eth2" ≡ contains_name "eth" se)
      × (is_service_enabled (start_services se) "/optimism" ≡ contains_name "op" se)
      × (is_service_enabled (start_services se) "/sol" ≡ contains_name "sol" se)
      × (is_service_enabled (start_services se) "/status" ≡ true)
unfolding is_service_enabled
is_service_enabled-start_services se =
    let same = start_services_lem se in
    (
      ap (λ (v : Service). v.btc) same,
      ap (λ (v : Service). v.doge) same,
      ap (λ (v : Service). v.eth) same,
      ap (λ (v : Service). v.eth) same,
      ap (λ (v : Service). v.op) same,
      ap (λ (v : Service). v.sol) same,
      refl,
    )
