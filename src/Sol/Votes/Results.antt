-- ===== src/Sol/Votes/Results.antt =====
-- What `deal_get_slot_res`, `deal_get_transaction_res` and `deal_get_account_res` return.
use sxn_spv.Common.{
  ℕ, ◌<◌, ◌≡◌, ◌≢◌, ◌↔◌, sym, ap, ◌∙◌, inl, inr, String, Option, List, [], ◌∷◌, map, Bool-cases,
  arith,
}
use sxn_spv.Common.Outcome.{ok, ◌>>=◌, bind-ok, unwrap}
use sxn_spv.Common.Classes.{nat_eq, bytes_eq}
use sxn_spv.Common.Tally.{tally, count, count-cases}
use sxn_spv.Sol.Types.{
  Message, Json, Serde, no_most_suitable_account, no_most_suitable_slot, no_most_suitable_tx,
}
use sxn_spv.Sol.Votes.{
  most_counted, answers, deal_get_slot_res, deal_get_transaction_res, deal_get_account_res,
}
use sxn_spv.Sol.Votes.Plurality.{most_counted_iff}

-- `deal_get_slot_res` returns a slot exactly when some node gave it and strictly more nodes gave it
-- than gave any other slot.
pub deal_get_slot_res_iff :
    (slots : List (ℕ × String)) (s : ℕ)
    → (deal_get_slot_res slots ≡ ok s) ↔ (
        (0 < count s (answers slots))
        × ((t : ℕ) → t ≢ s → count t (answers slots) < count s (answers slots)))
unfolding deal_get_slot_res
deal_get_slot_res_iff slots s = most_counted_iff no_most_suitable_slot (answers slots) s

module _ {A : Type 0} (serde : Serde A) where
  -- A node's answer, as the text that is put to the vote.
  abbrev pub encoded : List (A × String) → List (Json × String)
  encoded = map (λ v. (serde.to_json v.0, v.1))

  to_json-injective : (a b : A) → serde.to_json a ≡ serde.to_json b → a ≡ b
  to_json-injective a b same = cc (serde.round_trip a, serde.round_trip b, ap serde.from_json same)

  -- A text that got a vote is the text of a value.
  voted_text :
      (t : Json) (votes : List (A × String))
      → 0 < count t (answers (encoded votes))
      → (a : A) × (t ≡ serde.to_json a)
  voted_text t [] pos = absurd (omega arith)
  voted_text t ((a, from) ∷ votes) pos = elim (Bool-cases (bytes_eq.beq (serde.to_json a) t)) [
    | inl same ↦ (a, sym ((bytes_eq.beq_iff (serde.to_json a) t).0 same))
    | inr other ↦ voted_text t votes (ground arith)
  ]

  -- Strictly more nodes gave this answer than gave any other.
  abbrev pub Preferred : A → List (A × String) → Type 0
  Preferred a votes =
      (0 < count (serde.to_json a) (answers (encoded votes)))
      × ((b : A)
          → b ≢ a
          → count (serde.to_json b) (answers (encoded votes))
            < count (serde.to_json a) (answers (encoded votes)))

  Preferred-text :
      (a : A) (votes : List (A × String))
      → Preferred a votes
      → (t : Json) → t ≢ serde.to_json a
      → count t (answers (encoded votes)) < count (serde.to_json a) (answers (encoded votes))
  Preferred-text a votes (pos, more) t other = elim (count-cases t (answers (encoded votes))) [
    | inl nobody ↦ omega arith
    | inr some_ ↦
        let (b, text) = voted_text t votes some_ in
        rw text (more b (λ same. other (text ∙ ap serde.to_json same)))
  ]

  parsed_iff :
      (missing : Message) (a : A) (votes : List (A × String))
      → ((most_counted missing (tally (answers (encoded votes))) >>= λ t.
            unwrap (serde.from_json t))
          ≡ ok a)
        ↔ Preferred a votes
  parsed_iff missing a votes = (
    λ done.
        let (t, won, parsed) =
          bind-ok (most_counted missing (tally (answers (encoded votes)))) _ a done in
        let (pos, more) = (most_counted_iff missing (answers (encoded votes)) t).0 won in
        let (b, text) = voted_text t votes pos in
        let same : b ≡ a = ground (arith, parsed, serde.round_trip b, ap serde.from_json text) in
        let text' : t ≡ serde.to_json a = text ∙ ap serde.to_json same in
        (
          rw text' at pos,
          λ c other.
              rw text' at
                (more (serde.to_json c) (λ eq. other (to_json-injective c a (eq ∙ text')))),
        ),
    λ best.
        let won =
          (most_counted_iff missing (answers (encoded votes)) (serde.to_json a)).1
            (best.0, Preferred-text a votes best) in
        rw (won, serde.round_trip a),
  )

module _ {Tx : Type 0} (serde : Serde Tx) where
  -- `deal_get_transaction_res` returns a transaction exactly when strictly more nodes gave it than
  -- gave any other.
  pub deal_get_transaction_res_iff :
      (tx : Tx) (votes : List (Tx × String))
      → (deal_get_transaction_res serde (encoded serde votes) ≡ ok tx) ↔ Preferred serde tx votes
  unfolding deal_get_transaction_res
  deal_get_transaction_res_iff tx votes = parsed_iff serde no_most_suitable_tx tx votes

module _ {Account : Type 0} (serde : Serde (Option Account)) where
  -- `deal_get_account_res` returns an account, or that there is none, exactly when strictly more
  -- nodes gave that answer than gave any other.
  pub deal_get_account_res_iff :
      (account : Option Account) (votes : List (Option Account × String))
      → (deal_get_account_res serde (encoded serde votes) ≡ ok account)
        ↔ Preferred serde account votes
  unfolding deal_get_account_res
  deal_get_account_res_iff account votes = parsed_iff serde no_most_suitable_account account votes
