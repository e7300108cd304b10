-- ===== src/Sol/Judge/Verdicts.antt =====
-- When the public calls return an answer: what the judge and the other nodes must have said.
use sxn_spv.Common.{
  ℕ, ◌≤◌, ◌<◌, ◌≡◌, ◌↔◌, refl, sym, ap, ◌∙◌, inl, inr, ◌⊎◌, Bool, true, false, Option, none, some,
  List, ◌++◌, Bool-cases, All-append, leb, if◌then◌else◌, arith,
}
use sxn_spv.Common.Outcome.{Outcome, ok, err, panic, ◌>>=◌, ok_or}
use sxn_spv.Common.Classes.{Eq, bytes_eq}
use sxn_spv.Common.Tally.{count, count-append, tally}
use sxn_spv.Sol.Types.{
  slot_behind_judge, rpc_failed, account_differs_from_judge, tx_differs_from_judge, SolClientError,
  custom, done, failed, Json, Serde, Solana, ResponseEvent,
}
use sxn_spv.Sol.Votes.{texts, counted_as, parse_all}
use sxn_spv.Sol.Votes.Agreement.{agreed_lem, texts-Encoded, Encoded}
use sxn_spv.Sol.Worker.{AccountCall}
use sxn_spv.Sol.Judge.{
  judge_answer, send_task, slot_event, account_event, transaction_event, get_program_accounts,
  get_account_info, get_slot, get_transaction,
}

module _ {A : Type 0} (serde : Serde A) where
  -- No item stands twice in a list.
  abbrev pub Once : List A → Type 0
  Once items = (t : Json) → count t (texts serde items) ≤ 1

  -- The items that two lists share.
  pub both_lem :
      (xs ys : List A)
      → Once xs
      → Once ys
      → (items : List A) × (parse_all serde
            (counted_as serde 2 (tally (texts serde xs ++ texts serde ys)))
          ≡ ok items)
        × ((t : Json)
            → (0 < count t (texts serde items))
              ↔ ((0 < count t (texts serde xs)) × (0 < count t (texts serde ys))))
  both_lem xs ys once once' =
      let (items, parsed, same) =
        agreed_lem serde 2 (texts serde xs ++ texts serde ys) (omega arith) (
          All-append (Encoded serde) (texts serde xs) (texts serde ys) (texts-Encoded serde xs)
            (texts-Encoded serde ys)) in
      (
        items,
        parsed,
        λ t.
            let total = count-append t (texts serde xs) (texts serde ys) in
            (
              λ h. (
                omega (arith, total, (same t).0 h, once t, once' t),
                omega (arith, total, (same t).0 h, once t, once' t),
              ),
              λ (here, there). (same t).1 (omega (arith, total, here, there, once t, once' t)),
            ),
      )

-- A call that returns has an answer from the judge and one from the other nodes.
module _ {A B R : Type 0} (e : SolClientError) (decide : A → B → Outcome SolClientError R)
    (r : R) where
  asked_iff :
      (sent : Bool) (judge : Option A) (got : Outcome SolClientError B)
      → ((ok_or e judge >>= λ j. send_task sent >>= λ _. got >>= λ b. decide j b) ≡ ok r) ↔ (
          (sent ≡ true)
          × ((j : A) × (judge ≡ some j) × ((b : B) × (got ≡ ok b) × (decide j b ≡ ok r))))
  asked_iff sent none got = (λ h. cc, λ (s, (j, gone, b)). cc)
  asked_iff false (some j) got = (λ h. cc, λ (s, b). cc)
  asked_iff true (some j) (err x) = (λ h. cc, λ (s, (k, same, (b, gone, d))). cc)
  asked_iff true (some j) panic = (λ h. cc, λ (s, (k, same, (b, gone, d))). cc)
  asked_iff true (some j) (ok b) = (
    λ h. (refl, (j, refl, (b, refl, h))),
    λ (s, (k, same, (c, got, d))).
        let here : j ≡ k = cc in let there : b ≡ c = cc in cc (d, here, there),
  )

at-most :
    (j slot s : ℕ)
    → (if leb j slot then ok j else err (custom (slot_behind_judge slot j))) ≡ ok s
    → (j ≡ s) × (j ≤ slot)
at-most j slot s h = ground arith

-- An answer that is the judge's is returned.
module _ {A : Type 0} (eq : Eq A) (e : SolClientError) where
  same_iff : (j a r : A) → ((if eq.beq a j then ok a else err e) ≡ ok r) ↔ ((j ≡ r) × (a ≡ r))
  same_iff j a r = elim (Bool-cases (eq.beq a j)) [
    | inl same ↦
        let here : a ≡ j = (eq.beq_iff a j).0 same in rw same (λ h. (cc, cc), λ (x, y). ap ok y)
    | inr differs ↦
        rw differs (λ h. cc, λ (x, y). absurd (ground (arith, (eq.beq_iff a j).1 (y ∙ sym x))))
  ]

module _ {solana : Solana} where
  open solana use {Account, Transaction, ProgramAccount}

  slot_event_iff :
      (event : Option (ResponseEvent solana)) (slot : ℕ)
      → (slot_event event ≡ ok slot) ↔ (event ≡ some (ResponseEvent.get_slot (done slot)))
  slot_event_iff none slot = (λ h. cc, λ h. cc)
  slot_event_iff (some (ResponseEvent.get_slot (done x))) slot = (λ h. cc, λ h. cc)
  slot_event_iff (some (ResponseEvent.get_slot (failed e))) slot = (λ h. cc, λ h. cc)
  slot_event_iff (some (ResponseEvent.get_transaction x)) slot = (λ h. cc, λ h. cc)
  slot_event_iff (some (ResponseEvent.get_account_info x)) slot = (λ h. cc, λ h. cc)
  slot_event_iff (some (ResponseEvent.get_signatures_for_address x)) slot = (λ h. cc, λ h. cc)
  slot_event_iff (some (ResponseEvent.get_program_accounts x)) slot = (λ h. cc, λ h. cc)

  -- `get_slot` returns a slot exactly when the judge gave it and the nodes agreed on one that is
  -- not below it.
  pub get_slot_iff :
      (sent : Bool) (judge : Option ℕ) (event : Option (ResponseEvent solana)) (s : ℕ)
      → (get_slot sent judge event ≡ ok s) ↔ (
          (sent ≡ true)
          × (judge ≡ some s)
          × ((slot : ℕ) × (event ≡ some (ResponseEvent.get_slot (done slot))) × (s ≤ slot)))
  unfolding get_slot
  get_slot_iff sent judge event s =
      let asked =
        asked_iff (custom rpc_failed)
          (λ j slot. if leb j slot then ok j else err (custom (slot_behind_judge slot j))) s sent
          judge (slot_event event) in
      (
        λ h.
            let (s', (j, judged, (slot, got, decided))) = asked.0 h in
            let at_most : (j ≡ s) × (j ≤ slot) = at-most j slot s decided in
            (
              s',
              judged ∙ ap some at_most.0,
              (slot, (slot_event_iff event slot).0 got, omega (arith, at_most.0, at_most.1)),
            ),
        λ (s', judged, (slot, got, below)).
            asked.1
              (s', (s, judged, (slot, (slot_event_iff event slot).1 got, ground (arith, below)))),
      )

  account_event_iff :
      (event : Option (ResponseEvent solana)) (a : Option Account)
      → (account_event event ≡ ok a) ↔ (event ≡ some (ResponseEvent.get_account_info (done a)))
  account_event_iff none a = (λ h. cc, λ h. cc)
  account_event_iff (some (ResponseEvent.get_slot x)) a = (λ h. cc, λ h. cc)
  account_event_iff (some (ResponseEvent.get_transaction x)) a = (λ h. cc, λ h. cc)
  account_event_iff (some (ResponseEvent.get_account_info (done x))) a = (λ h. cc, λ h. cc)
  account_event_iff (some (ResponseEvent.get_account_info (failed e))) a = (λ h. cc, λ h. cc)
  account_event_iff (some (ResponseEvent.get_signatures_for_address x)) a = (λ h. cc, λ h. cc)
  account_event_iff (some (ResponseEvent.get_program_accounts x)) a = (λ h. cc, λ h. cc)

  -- `get_account_info` returns an account, or that there is none, exactly when the judge and the other
  -- nodes both gave it.
  pub get_account_info_iff :
      (sent : Bool) (judge : AccountCall Account ⊎ Option (Option Account))
      (event : Option (ResponseEvent solana)) (a : Option Account)
      → (get_account_info sent judge event ≡ ok a) ↔ (
          (sent ≡ true)
          × (judge_answer judge ≡ some a)
          × (event ≡ some (ResponseEvent.get_account_info (done a))))
  unfolding get_account_info
  get_account_info_iff sent judge event a =
      let asked =
        asked_iff (custom rpc_failed)
          (λ j x.
            if solana.account_eq.beq x j then ok x else err (custom account_differs_from_judge))
          a sent (judge_answer judge) (account_event event) in
      let same = same_iff solana.account_eq (custom account_differs_from_judge) in
      (
        λ h.
            let (s, (j, judged, (x, got, decided))) = asked.0 h in
            let (left, right) = (same j x a).0 decided in
            (s, judged ∙ ap some left, (account_event_iff event a).0 (got ∙ ap ok right)),
        λ (s, judged, got).
            asked.1
              (s, (a, judged, (a, (account_event_iff event a).1 got, (same a a a).1 (refl, refl)))),
      )

  transaction_event_iff :
      (event : Option (ResponseEvent solana)) (a : Transaction)
      → (transaction_event event ≡ ok a) ↔ (event ≡ some (ResponseEvent.get_transaction (done a)))
  transaction_event_iff none a = (λ h. cc, λ h. cc)
  transaction_event_iff (some (ResponseEvent.get_slot x)) a = (λ h. cc, λ h. cc)
  transaction_event_iff (some (ResponseEvent.get_transaction (done x))) a = (λ h. cc, λ h. cc)
  transaction_event_iff (some (ResponseEvent.get_transaction (failed e))) a = (λ h. cc, λ h. cc)
  transaction_event_iff (some (ResponseEvent.get_account_info x)) a = (λ h. cc, λ h. cc)
  transaction_event_iff (some (ResponseEvent.get_signatures_for_address x)) a = (λ h. cc, λ h. cc)
  transaction_event_iff (some (ResponseEvent.get_program_accounts x)) a = (λ h. cc, λ h. cc)

  -- `get_transaction` returns a transaction exactly when the judge and the other nodes both gave it.
  pub get_transaction_iff :
      (sent : Bool) (judge : Option Transaction) (event : Option (ResponseEvent solana))
      (a : Transaction)
      → (get_transaction sent judge event ≡ ok a) ↔ (
          (sent ≡ true)
          × (judge ≡ some a)
          × (event ≡ some (ResponseEvent.get_transaction (done a))))
  unfolding get_transaction
  get_transaction_iff sent judge event a =
      let asked =
        asked_iff (custom rpc_failed)
          (λ j x.
            if solana.transaction_eq.beq x j then ok x else err (custom tx_differs_from_judge))
          a sent (judge) (transaction_event event) in
      let same = same_iff solana.transaction_eq (custom tx_differs_from_judge) in
      (
        λ h.
            let (s, (j, judged, (x, got, decided))) = asked.0 h in
            let (left, right) = (same j x a).0 decided in
            (s, judged ∙ ap some left, (transaction_event_iff event a).0 (got ∙ ap ok right)),
        λ (s, judged, got). asked.1 (
          s,
          (a, judged, (a, (transaction_event_iff event a).1 got, (same a a a).1 (refl, refl))),
        ),
      )

module _ (solana : Solana) where
  open solana use {Account, ProgramAccount}

  -- `get_program_accounts` returns a list of the accounts that the judge and the other nodes both list,
  -- where neither lists one twice.
  pub get_program_accounts_both :
      (judge accounts : List ProgramAccount)
      → Once solana.program_serde judge
      → Once solana.program_serde accounts
      → (items : List ProgramAccount) × (get_program_accounts {solana = solana} true
            (some judge)
            (some (ResponseEvent.get_program_accounts (done accounts)))
          ≡ ok items)
        × ((t : Json)
            → (0 < count t (texts solana.program_serde items)) ↔ (
                (0 < count t (texts solana.program_serde judge))
                × (0 < count t (texts solana.program_serde accounts))))
  unfolding get_program_accounts
  get_program_accounts_both judge accounts = both_lem solana.program_serde judge accounts
