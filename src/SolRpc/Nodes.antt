-- ===== src/SolRpc/Nodes.antt =====
-- The calls of src/chains/sol.rs over what the nodes say, as the client of src/solrpc/mod.rs.
use sxn_spv.Common.{ℕ, ◌≡◌, ◌⊎◌, Bool, Option, none, some, List, [], ◌∷◌, arith}
use sxn_spv.Common.Outcome.{Panics, ok, err, panic}
use sxn_spv.Common.Order.{bytes_ord}
use sxn_spv.Sol.Types.{Solana, SignaturesConfig, ResponseEvent}
use sxn_spv.Sol.Worker.{AccountCall}
use sxn_spv.Sol.Collect.{Turn, deal_get_transaction}
use sxn_spv.Sol.Collect.Decided.{IsElected}
use sxn_spv.Sol.Judge
use sxn_spv.SolRpc.Types.{Client}

-- What the judge's node says to each call; what comes to the loop of the dispatcher that collects the answers
-- of the other nodes, for a transaction; and, for the other calls, the event that their loop gives. `sent`
-- tells whether the task channel is open, `broadcast` whether that of the workers is, and `rpc_num` is the
-- number of the other nodes.
pub record Nodes (solana : Solana) : Type 0 where
  pub sent : Bool
  pub broadcast : Bool
  pub rpc_num : ℕ
  pub judge_transaction :
      solana.Signature → Option solana.TransactionConfig → Option solana.Transaction
  pub judge_slot : Option solana.CommitmentConfig → Option ℕ
  pub judge_account :
      solana.Pubkey
      → Option solana.AccountConfig
      → AccountCall solana.Account ⊎ Option (Option solana.Account)
  pub judge_signatures :
      solana.Pubkey → Option (SignaturesConfig solana) → Option (List solana.SignatureStatus)
  pub judge_programs :
      solana.Pubkey → Option solana.ProgramConfig → Option (List solana.ProgramAccount)
  pub transaction_turns :
      solana.Signature → Option solana.TransactionConfig → List (Turn solana.Transaction)
  pub event_slot : Option solana.CommitmentConfig → Option (ResponseEvent solana)
  pub event_account : solana.Pubkey → Option solana.AccountConfig → Option (ResponseEvent solana)
  pub event_signatures : solana.Pubkey → SignaturesConfig solana → Option (ResponseEvent solana)
  pub event_programs : solana.Pubkey → Option solana.ProgramConfig → Option (ResponseEvent solana)

-- The event that the caller receives: none from a loop that has panicked. A call whose loop never responds
-- does not return either; it has no event here.
abbrev pub event_of : {E : Type 0} → Option (Panics E) → Option E
event_of none = none
event_of (some (ok event)) = some event
event_of (some (err e)) = none
event_of (some panic) = none

abbrev pub event_transaction :
    {solana : Solana}
    → Nodes solana
    → solana.Signature
    → Option solana.TransactionConfig
    → Option (ResponseEvent solana)
event_transaction {solana} n s c =
    event_of (deal_get_transaction solana n.rpc_num n.broadcast (n.transaction_turns s c))

-- The calls of the client, over these nodes.
abbrev pub client_of : {solana : Solana} → Nodes solana → Client solana
client_of n = record {
  transaction =
      λ s c. Judge.get_transaction n.sent (n.judge_transaction s c) (event_transaction n s c);
  slot = λ c. Judge.get_slot n.sent (n.judge_slot c) (n.event_slot c);
  account_info = λ k c. Judge.get_account_info n.sent (n.judge_account k c) (n.event_account k c);
  signatures_for_address = λ k c.
      Judge.get_signatures_for_address n.sent c (n.judge_signatures k c) (n.event_signatures k);
  program_accounts =
      λ k c. Judge.get_program_accounts n.sent (n.judge_programs k c) (n.event_programs k c);
}

pub event_of-some :
    {E : Type 0} (m : Option (Panics E)) (event : E) → event_of m ≡ some event → m ≡ some (ok event)
event_of-some none event h = absurd (ground (arith, h))
event_of-some (some (ok x)) event h = cc
event_of-some (some (err e)) event h = elim e [ ]
event_of-some (some panic) event h = absurd (ground (arith, h))

-- With some configuration, the judge gave this transaction for the signature, and the votes that came from
-- the other nodes elected it.
abbrev pub Agreed :
    {solana : Solana} → Nodes solana → solana.Signature → solana.Transaction → Type 0
Agreed {solana} n s tx =
    (c : Option solana.TransactionConfig) × (n.judge_transaction s c ≡ some tx)
    × IsElected solana n.rpc_num (n.transaction_turns s c) tx

-- At one of the requests.
abbrev pub AgreedOnce :
    {solana : Solana} → List (Nodes solana) → solana.Signature → solana.Transaction → Type 0
AgreedOnce [] s tx = ⊥
AgreedOnce (n ∷ history) s tx = Agreed n s tx ⊎ AgreedOnce history s tx
