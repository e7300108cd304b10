-- ===== src/Sol/Judge/Nodes.antt =====
-- The public calls together with the loops that answer them: from the nodes' answers to the result.
use sxn_spv.Common.{
  ℕ, ◌≤◌, ◌<◌, ◌≡◌, ◌≢◌, ◌↔◌, refl, sym, ◌∙◌, ◌⊎◌, true, String, Option, none, some, List, ◌∷◌,
  ◌++◌, length, All,
}
use sxn_spv.Common.Outcome.{ok, panic}
use sxn_spv.Common.Classes.{nat_eq, bytes_eq}
use sxn_spv.Common.Tally.{count}
use sxn_spv.Sol.Types.{
  received_error_from, SolClientError, internal, done, failed, Json, Solana, SignaturesConfig,
  ResponseEvent,
}
use sxn_spv.Sol.Votes.{answers, texts}
use sxn_spv.Sol.Votes.Results.{Preferred}
use sxn_spv.Sol.Worker.{AccountCall}
use sxn_spv.Sol.Collect.{Turn, received, deal_get_account_info, deal_get_slot}
use sxn_spv.Sol.Collect.Rounds.{voters, InTime}
use sxn_spv.Sol.Collect.Elections.{DistinctNodes, deal_get_slot_iff}
use sxn_spv.Sol.Collect.Parsed.{deal_get_account_info_iff}
use sxn_spv.Sol.Collect.Failures.{deal_get_account_info_error}
use sxn_spv.Sol.Judge.{
  judge_answer, config_to_send, same_signatures, get_signatures_for_address, get_account_info,
  get_slot,
}
use sxn_spv.Sol.Judge.Verdicts.{Once, both_lem, get_slot_iff, get_account_info_iff}

-- What the caller's configuration has, if there is one.
abbrev pub of_caller :
    {solana : Solana} {B : Type 0}
    → (SignaturesConfig solana → Option B)
    → Option (SignaturesConfig solana)
    → Option B
of_caller field none = none
of_caller field (some c) = field c

module _ (solana : Solana) where
  open solana use {Account, Signature, SignatureStatus}

  config_to_send_lem :
      (config : Option (SignaturesConfig solana)) (signature : Signature)
      → config_to_send config signature ≡ record {
        before = some signature;
        until = of_caller (λ c. c.until) config;
        limit = of_caller (λ c. c.limit) config;
        commitment = of_caller (λ c. c.commitment) config;
      }
  unfolding config_to_send
  config_to_send_lem none signature = refl
  config_to_send_lem (some c) signature = refl

  -- Once every node has answered, each for itself and in time, `get_slot` returns a slot exactly when
  -- the judge gave it and strictly more nodes gave some slot, not below it, than gave any other.
  pub get_slot_agreed :
      (turns : List (Turn ℕ)) (event : ResponseEvent solana) (judge : Option ℕ) (s : ℕ)
      → All InTime turns
      → DistinctNodes (voters turns)
      → 0 < length (voters turns)
      → deal_get_slot solana (length (voters turns)) true turns ≡ some (ok event)
      → (get_slot true judge (some event) ≡ ok s) ↔ (
          (judge ≡ some s)
          × ((slot : ℕ) × (0 < count slot (answers (voters turns)))
              × ((t : ℕ)
                  → t ≢ slot
                  → count t (answers (voters turns)) < count slot (answers (voters turns)))
              × (s ≤ slot)))
  get_slot_agreed turns event judge s t d pos responds = (
    λ h.
        let (sent, judged, (slot, same, below)) = (get_slot_iff true judge (some event) s).0 h in
        let (some_, more) = (deal_get_slot_iff solana turns slot t d pos).0 (cc (responds, same)) in
        (judged, (slot, some_, more, below)),
    λ (judged, (slot, some_, more, below)).
        let same = sym responds ∙ (deal_get_slot_iff solana turns slot t d pos).1 (some_, more) in
        (get_slot_iff true judge (some event) s).1 (refl, judged, (slot, cc (same), below)),
  )

  -- Once every node has answered, each for itself and in time, `get_account_info` returns an account, or
  -- that there is none, exactly when the judge gave that answer and strictly more nodes gave it than
  -- gave any other.
  pub get_account_info_agreed :
      (turns : List (Turn (Option Account))) (event : ResponseEvent solana)
      (judge : AccountCall Account ⊎ Option (Option Account)) (a : Option Account)
      → All InTime turns
      → DistinctNodes (voters turns)
      → 0 < length (voters turns)
      → deal_get_account_info solana (length (voters turns)) true turns ≡ some (ok event)
      → (get_account_info true judge (some event) ≡ ok a)
        ↔ ((judge_answer judge ≡ some a) × Preferred solana.account_serde a (voters turns))
  get_account_info_agreed turns event judge a t d pos responds =
      let called = get_account_info_iff true judge (some event) a in
      let elected = deal_get_account_info_iff solana turns a t d pos in
      (
        λ h. let (sent, judged, same) = called.0 h in (judged, elected.0 (cc (responds, same))),
        λ (judged, best).
            let same = sym responds ∙ elected.1 best in called.1 (refl, judged, cc (same)),
      )

  -- An error of one node, before the last answer, makes `get_account_info` panic: its response comes as
  -- one to `GetSlot`.
  pub get_account_info_error :
      (rpc_num : ℕ) (turns : List (Turn (Option Account))) (secs : ℕ) (e : SolClientError)
      (from : String) (after : List (Turn (Option Account)))
      (judge : AccountCall Account ⊎ Option (Option Account)) (a : Option Account)
      → All InTime turns
      → DistinctNodes (voters turns)
      → length (voters turns) < rpc_num
      → judge_answer judge ≡ some a
      → (event : ResponseEvent solana) × (deal_get_account_info solana rpc_num true
            (turns ++ received secs (failed e) from ∷ after)
          ≡ some (ok event))
        × (get_account_info true judge (some event) ≡ panic)
  unfolding get_account_info
  get_account_info_error rpc_num turns secs e from after judge a t d few judged = (
    ResponseEvent.get_slot (failed (internal (received_error_from from))),
    deal_get_account_info_error solana rpc_num turns secs e from after t d few,
    rw judged refl,
  )

  -- `get_signatures_for_address` starts from the judge's first signature. The other nodes are asked for what
  -- comes before that signature, whatever the caller asked to come before, with the caller's end, limit and
  -- commitment, if any. If they answer with a list, and neither it nor the judge's list repeats a signature,
  -- the judge's first signature stays at the front of the result, and behind it stand the signatures that
  -- both lists hold.
  pub get_signatures_for_address_both :
      (config : Option (SignaturesConfig solana)) (first : SignatureStatus) (signature : Signature)
      (others sigs : List SignatureStatus)
      (ask : SignaturesConfig solana → Option (ResponseEvent solana))
      → solana.signature_of first ≡ some signature
      → ask (record {
        before = some signature;
        until = of_caller (λ c. c.until) config;
        limit = of_caller (λ c. c.limit) config;
        commitment = of_caller (λ c. c.commitment) config;
      })
        ≡ some (ResponseEvent.get_signatures_for_address (done sigs))
      → Once solana.status_serde others
      → Once solana.status_serde sigs
      → (items : List SignatureStatus) × (get_signatures_for_address true config
            (some (first ∷ others))
            ask
          ≡ ok (first ∷ items))
        × ((t : Json)
            → (0 < count t (texts solana.status_serde items)) ↔ (
                (0 < count t (texts solana.status_serde others))
                × (0 < count t (texts solana.status_serde sigs))))
  unfolding get_signatures_for_address same_signatures
  get_signatures_for_address_both config first signature others sigs ask signed asked once once' =
      let (items, parsed, both) = both_lem solana.status_serde others sigs once once' in
      (items, rw (signed, config_to_send_lem config signature, asked, parsed) refl, both)
