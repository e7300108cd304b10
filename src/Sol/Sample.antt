-- ===== src/Sol/Sample.antt =====
-- Small types for the tests of the Solana client and of its server: everything is a number.
use sxn_spv.Common.{
  ℕ, ◌≡◌, ◌↔◌, refl, ap, ==_iff, true, false, Bool, Option, none, some, [], ◌∷◌, ◌==◌,
}
use sxn_spv.Common.Classes.{Eq, nat_eq}
use sxn_spv.Sol.Types.{Json, Serde, Solana}

-- A number as a text of one byte, and an optional number as one of at most one.
abbrev pub number_of : Json → Option ℕ
number_of [] = none
number_of (n ∷ t) = some n

abbrev pub option_of : Json → Option (Option ℕ)
option_of [] = some none
option_of (n ∷ t) = some (some n)

abbrev pub option_text : Option ℕ → Json
option_text none = []
option_text (some n) = n ∷ []

pub option_round_trip : (a : Option ℕ) → option_of (option_text a) ≡ some a
option_round_trip none = refl
option_round_trip (some n) = refl

abbrev pub nat_serde : Serde ℕ
nat_serde = record { to_json = λ n. n ∷ []; from_json = number_of; round_trip = λ n. refl }

abbrev pub option_serde : Serde (Option ℕ)
option_serde = record {
  to_json = option_text;
  from_json = option_of;
  round_trip = option_round_trip;
}

abbrev pub option_beq : Option ℕ → Option ℕ → Bool
option_beq none none = true
option_beq none (some b) = false
option_beq (some a) none = false
option_beq (some a) (some b) = a == b

pub option_beq_iff : (a b : Option ℕ) → (option_beq a b ≡ true) ↔ (a ≡ b)
option_beq_iff none none = (λ h. refl, λ h. refl)
option_beq_iff none (some b) = (λ h. cc, λ h. cc)
option_beq_iff (some a) none = (λ h. cc, λ h. cc)
option_beq_iff (some a) (some b) = (λ h. ap some ((==_iff a b).0 h), λ h. (==_iff a b).1 (cc (h)))

abbrev pub option_eq : Eq (Option ℕ)
option_eq = record { beq = option_beq; beq_iff = option_beq_iff }

abbrev pub test_solana : Solana
test_solana = record {
  Pubkey = ℕ;
  Signature = ℕ;
  CommitmentConfig = ℕ;
  AccountConfig = ℕ;
  TransactionConfig = ℕ;
  ProgramConfig = ℕ;
  Account = ℕ;
  Transaction = ℕ;
  ProgramAccount = ℕ;
  SignatureStatus = ℕ;
  account_serde = option_serde;
  transaction_serde = nat_serde;
  program_serde = nat_serde;
  status_serde = nat_serde;
  account_eq = option_eq;
  transaction_eq = nat_eq;
  signature_of = λ s. some s;
}
