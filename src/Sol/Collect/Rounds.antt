-- ===== src/Sol/Collect/Rounds.antt =====
-- When the loops of `deal_*` respond, and with what.
use sxn_spv.Common.{
  ℕ, ◌+◌, ◌<◌, ◌≡◌, refl, ap, String, none, some, List, [], ◌∷◌, ◌++◌, length, All, arith,
}
use sxn_spv.Common.Outcome.{Outcome, ok}
use sxn_spv.Common.Classes.{nat_eq, bytes_eq, string_eq}
use sxn_spv.Sol.Types.{received_error_from, SolClientError, internal, Answer, done, failed}
use sxn_spv.Sol.Collect.{Turn, quiet, received, respond, collect}

module _ {A : Type 0} where
  -- The answers that came, with the nodes that gave them.
  abbrev pub voters : List (Turn A) → List (A × String)
  voters [] = []
  voters (quiet ∷ turns) = voters turns
  voters (received secs (done a) from ∷ turns) = (a, from) ∷ voters turns
  voters (received secs (failed e) from ∷ turns) = voters turns

  -- A turn without a message, or with an answer in the first 60 seconds.
  abbrev pub InTime : Turn A → Type 0
  InTime quiet = Unit
  InTime (received secs (done a) from) = secs < 60
  InTime (received secs (failed e) from) = ⊥

module _ {A S : Type 0} (add : String → A → S → S) where
  abbrev pub add_all : List (A × String) → S → S
  add_all [] res = res
  add_all ((a, from) ∷ votes) res = add_all votes (add from a res)

  add_all-empty : (votes : List (A × String)) (res : S) → length votes ≡ 0 → add_all votes res ≡ res
  add_all-empty [] res h = refl
  add_all-empty (v ∷ votes) res h = absurd (omega arith)

  -- Each of the answers is one more.
  abbrev pub Grows : (S → ℕ) → List (A × String) → S → Type 0
  Grows size [] res = Unit
  Grows size ((a, from) ∷ votes) res =
      (size (add from a res) ≡ size res + 1) × Grows size votes (add from a res)

module _ {A S R E : Type 0} (on_error event : Answer R → E) (add : String → A → S → S)
    (size : S → ℕ) (finish : S → Outcome SolClientError R) (rpc_num : ℕ) where
  -- The last answer that is waited for ends the loop.
  pub collect_full :
      (turns : List (Turn A)) (res : S)
      → All InTime turns
      → Grows add size (voters turns) res
      → 0 < length (voters turns)
      → size res + length (voters turns) ≡ rpc_num
      → collect on_error event add size finish rpc_num turns res
        ≡ some (respond event (finish (add_all add (voters turns) res)))
  unfolding collect
  collect_full [] res t g pos full = absurd (omega arith)
  collect_full (quiet ∷ turns) res t g pos full = collect_full turns res t.1 g pos full
  collect_full (received secs (failed e) from ∷ turns) res t g pos full = elim (t.0) [ ]
  collect_full (received secs (done a) from ∷ turns) res t g pos full =
      let more = g.0 in
      let last = add_all-empty add (voters turns) (add from a res) in
      let rest = collect_full turns (add from a res) t.1 g.1 in
      ground (
        arith,
        more,
        t.0,
        full,
        rest,
        last,
        ap (λ (r : S). some (respond event (finish r)))
            {x = add_all add (voters turns) (add from a res)} {y = add from a res},
      )

  -- Before the last answer there is no response, however many turns pass.
  pub collect_open :
      (turns : List (Turn A)) (res : S)
      → All InTime turns
      → Grows add size (voters turns) res
      → size res + length (voters turns) < rpc_num
      → collect on_error event add size finish rpc_num turns res ≡ none
  unfolding collect
  collect_open [] res t g few = refl
  collect_open (quiet ∷ turns) res t g few = collect_open turns res t.1 g few
  collect_open (received secs (failed e) from ∷ turns) res t g few = elim (t.0) [ ]
  collect_open (received secs (done a) from ∷ turns) res t g few =
      let rest = collect_open turns (add from a res) t.1 g.1 in
      let more = g.0 in ground (arith, rest, more, t.0)

  -- A node's error before the last answer ends the loop.
  pub collect_error :
      (turns : List (Turn A)) (secs : ℕ) (e : SolClientError) (from : String)
      (after : List (Turn A)) (res : S)
      → All InTime turns
      → Grows add size (voters turns) res
      → size res + length (voters turns) < rpc_num
      → collect on_error event add size finish rpc_num
          (turns ++ received secs (failed e) from ∷ after)
          res
        ≡ some (ok (on_error (failed (internal (received_error_from from)))))
  unfolding collect
  collect_error [] secs e from after res t g few = refl
  collect_error (quiet ∷ turns) secs e from after res t g few =
      collect_error turns secs e from after res t.1 g few
  collect_error (received n (failed e') u ∷ turns) secs e from after res t g few = elim (t.0) [ ]
  collect_error (received n (done a) u ∷ turns) secs e from after res t g few =
      let rest = collect_error turns secs e from after (add u a res) t.1 g.1 in
      let more = g.0 in ground (arith, rest, more, t.0)
