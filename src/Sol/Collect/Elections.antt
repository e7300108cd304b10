-- ===== src/Sol/Collect/Elections.antt =====
-- What the loops that put the nodes' answers to the vote respond with, once every node has answered.
use sxn_spv.Common.{
  ℕ, ◌+◌, ◌<◌, ◌≡◌, ◌≢◌, ◌↔◌, refl, sym, ap, ◌∙◌, true, false, String, some, List, [], ◌∷◌, map,
  length, All, arith,
}
use sxn_spv.Common.Outcome.{Outcome, ok, err, panic}
use sxn_spv.Common.Classes.{Eq, nat_eq, bytes_eq, string_eq}
use sxn_spv.Common.Tally.{count}
use sxn_spv.Sol.Types.{SolClientError, Answer, done, failed, Solana, ResponseEvent, get_slot}
use sxn_spv.Sol.Votes.{answers, deal_get_slot_res}
use sxn_spv.Sol.Votes.Results.{deal_get_slot_res_iff}
use sxn_spv.Sol.Collect.{Turn, contains, insert_vote, respond, deal, deal_get_slot}
use sxn_spv.Sol.Collect.Rounds.{voters, InTime, add_all, Grows, collect_full}

-- The nodes of the answers are distinct, and none of them has a vote in the set.
module _ {A : Type 0} where
  abbrev pub Fresh : String → List (A × String) → Type 0
  Fresh from = All (λ v. v.1 ≢ from)

  abbrev pub DistinctNodes : List (A × String) → Type 0
  DistinctNodes [] = Unit
  DistinctNodes ((a, from) ∷ votes) = Fresh from votes × DistinctNodes votes

module _ {A : Type 0} ⦃e : Eq A⦄ where
  contains-Fresh :
      (a : A) (from : String) (set : List (A × String))
      → Fresh from set
      → contains a from set ≡ false
  contains-Fresh a from [] f = refl
  contains-Fresh a from ((b, other) ∷ set) f =
      ground (arith, contains-Fresh a from set f.1, f.0, (string_eq.beq_iff other from).0)

  pub insert_vote-Fresh :
      (a : A) (from : String) (set : List (A × String))
      → Fresh from set
      → insert_vote from a set ≡ (a, from) ∷ set
  unfolding insert_vote
  insert_vote-Fresh a from set f = rw (contains-Fresh a from set f)

-- Answers of type `A` that are put to the vote as values of type `B`.
module _ {A B : Type 0} ⦃e : Eq B⦄ (f : A → B) where
  abbrev pub vote : String → A → List (B × String) → List (B × String)
  vote from a set = insert_vote from (f a) set

  pub Fresh-insert :
      (b : B) (from : String) (set : List (B × String)) (votes : List (A × String))
      → Fresh from votes
      → All (λ v. Fresh v.1 set) votes
      → All (λ v. Fresh v.1 ((b, from) ∷ set)) votes
  Fresh-insert b from set [] f all_ = tt
  Fresh-insert b from set (v ∷ votes) f all_ =
      ((λ same. f.0 (sym same), all_.0), Fresh-insert b from set votes f.1 all_.1)

  pub vote-Grows :
      (votes : List (A × String)) (set : List (B × String))
      → DistinctNodes votes
      → All (λ v. Fresh v.1 set) votes
      → Grows vote length votes set
  vote-Grows [] set d all_ = tt
  vote-Grows ((a, from) ∷ votes) set d all_ =
      let new = insert_vote-Fresh (f a) from set all_.0 in
      (
        omega (arith, ap length new),
        rw new (
            vote-Grows votes ((f a, from) ∷ set) d.1
              (Fresh-insert (f a) from set votes d.0 all_.1)),
      )

  count-add_all :
      (b : B) (votes : List (A × String)) (set : List (B × String))
      → DistinctNodes votes
      → All (λ v. Fresh v.1 set) votes
      → count b (answers (add_all vote votes set))
        ≡ count b (map f (answers votes)) + count b (answers set)
  count-add_all b [] set d all_ = omega arith
  count-add_all b ((a, from) ∷ votes) set d all_ =
      let new = insert_vote-Fresh (f a) from set all_.0 in
      let rest =
        count-add_all b votes ((f a, from) ∷ set) d.1
          (Fresh-insert (f a) from set votes d.0 all_.1) in
      rw new (omega (arith, rest))

  pub no-votes : (votes : List (A × String)) → All (λ (v : A × String). Unit {0}) votes
  no-votes [] = tt
  no-votes (v ∷ votes) = (tt, no-votes votes)

  -- The votes in the set, once all have been inserted, are the answers.
  unfoldable pub voted : List (A × String) → List (B × String)
  voted votes = add_all vote votes []

  pub count-voted :
      (b : B) (votes : List (A × String))
      → DistinctNodes votes
      → count b (answers (voted votes)) ≡ count b (map f (answers votes))
  unfolding voted
  count-voted b votes d = omega (arith, count-add_all b votes [] d (no-votes votes))

  -- All the answers come in time from distinct nodes: the loop ends with their votes.
  pub elected :
      {R E : Type 0} (on_error event : Answer R → E)
      (finish : List (B × String) → Outcome SolClientError R) (turns : List (Turn A))
      → All InTime turns
      → DistinctNodes (voters turns)
      → 0 < length (voters turns)
      → deal on_error event vote length finish (length (voters turns)) true turns []
        ≡ some (respond event (finish (voted (voters turns))))
  unfolding deal voted
  elected on_error event finish turns t d pos =
      collect_full on_error event vote length finish (length (voters turns)) turns [] t
        (vote-Grows (voters turns) [] d (no-votes (voters turns))) pos (omega arith)

module _ {R E : Type 0} (event : Answer R → E) where
  pub respond-done :
      ((x y : Answer R) → event x ≡ event y → x ≡ y)
      → (out : Outcome SolClientError R) (r : R)
      → (some (respond event out) ≡ some (ok (event (done r)))) ↔ (out ≡ ok r)
  respond-done inj (ok x) r = (
    λ h.
        let same : event (done x) ≡ event (done r) = cc in
        let eq : done x ≡ done r = inj (done x) (done r) same in cc,
    λ h. cc,
  )
  respond-done inj (err x) r = (
    λ h.
        let same : event (failed x) ≡ event (done r) = cc in
        let eq : failed x ≡ done r = inj (failed x) (done r) same in cc,
    λ h. cc,
  )
  respond-done inj panic r = (λ h. cc, λ h. cc)

count-map_id : (s : ℕ) (xs : List ℕ) → count s (map (λ x. x) xs) ≡ count s xs
count-map_id s [] = refl
count-map_id s (x ∷ xs) = omega (arith, count-map_id s xs)

module _ (solana : Solana) where
  open solana use {Account, Transaction}

  get_slot-injective :
      (x y : Answer ℕ) → ◌≡◌ {A = ResponseEvent solana} (get_slot x) (get_slot y) → x ≡ y
  get_slot-injective x y h = cc

  -- Once every node has answered, each for itself and in time, `deal_get_slot` responds with a slot
  -- exactly when strictly more nodes gave it than gave any other, in whatever order the answers came.
  pub deal_get_slot_iff :
      (turns : List (Turn ℕ)) (s : ℕ)
      → All InTime turns
      → DistinctNodes (voters turns)
      → 0 < length (voters turns)
      → (deal_get_slot solana (length (voters turns)) true turns ≡ some (ok (get_slot (done s))))
        ↔ ((0 < count s (answers (voters turns)))
            × ((t : ℕ)
                → t ≢ s
                → count t (answers (voters turns)) < count s (answers (voters turns))))
  unfolding deal_get_slot deal
  deal_get_slot_iff turns s t d pos =
      let set = voted (λ x. x) (voters turns) in
      let counted : (x : ℕ) → count x (answers set) ≡ count x (answers (voters turns)) =
        λ x. count-voted (λ y. y) x (voters turns) d ∙ count-map_id x (answers (voters turns)) in
      let won = deal_get_slot_res_iff set s in
      let responds = respond-done get_slot get_slot-injective (deal_get_slot_res set) s in
      let ends = elected (λ x. x) get_slot get_slot deal_get_slot_res turns t d pos in
      (
        λ h.
            let (some_, more) = won.0 (responds.0 (sym ends ∙ h)) in
            (
              omega (arith, some_, counted s),
              λ x other. omega (arith, more x other, counted s, counted x),
            ),
        λ (some_, more).
            ends
            ∙ responds.1 (
                won.1 (
                  omega (arith, some_, counted s),
                  λ x other. omega (arith, more x other, counted s, counted x),
                )),
      )
