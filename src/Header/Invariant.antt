-- ===== src/Header/Invariant.antt =====
-- `HeaderList::apply` keeps the invariant of the list, and what the readers return on a valid list.
use sxn_spv.Common.{
  ℕ, suc, ◌≡◌, inl, inr, sym, ap, ◌∙◌, List, [], ◌∷◌, ◌++◌, length, length-append,
  length-take_of_le, get_elem?, get_elem?-lt, get_elem?-of_take, get_elem?-prefix, get_elem?-length,
  get_elem?-snoc, take, Option-cases, arith,
}
use mathlib.Core.Path.{subst}
use sxn_spv.Common.Outcome.{ok-injective, ok}
use sxn_spv.Common.Classes.{nat_eq}
use sxn_spv.Common.HashMap.{get-insert}
use sxn_spv.Bitcoin.{Bitcoin, BlockHash, all_zeros}
use sxn_spv.Header.{HeaderEntry, HeaderList, push_all, apply, tip, header_by_height}
use sxn_spv.Header.Chain.{
  Linked, last_hash, last_hash-append, last_hash-last?, Linked-take, Linked-append, Linked-at,
  Distinct, NoCollision, Linked-Distinct,
}
use sxn_spv.Header.Apply.{
  Indexed, IsValid, IsHashed, append_cons_lem, push_lem, after_push, push_all_lem, Replaced,
  apply_cases,
}

module _ {bitcoin : Bitcoin} where
  -- A prefix of a list without repeated hashes has none.
  Distinct-prefix : (es fs : List (HeaderEntry bitcoin)) → Distinct (es ++ fs) → Distinct es
  Distinct-prefix es fs d i j a b at bt =
      d i j a b (get_elem?-prefix es fs i a at) (get_elem?-prefix es fs j b bt)

  push-Indexed :
      (hl : HeaderList bitcoin) (e : HeaderEntry bitcoin)
      → e.height ≡ length hl.headers
      → Distinct (hl.headers ++ e ∷ [])
      → Indexed hl
      → Indexed (after_push hl e)
  push-Indexed hl e h d index i a at = elim (get_elem?-snoc hl.headers e i a at) [
    | inl old ↦ ground (
      arith,
      get-insert e.hash a.hash e.height hl.heights,
      index i a old,
      get_elem?-lt hl.headers i old,
      d i (length hl.headers) a e at (get_elem?-length hl.headers [] e),
    )
    | inr (here, same) ↦ ground (
      arith,
      get-insert e.hash a.hash e.height hl.heights,
      ap (λ (x : HeaderEntry bitcoin). x.hash) same,
    )
  ]

  push_all-Indexed :
      (prev : BlockHash) (n : ℕ) (hl hl' : HeaderList bitcoin) (es : List (HeaderEntry bitcoin))
      → n ≡ length hl.headers
      → Linked prev n es
      → Distinct (hl.headers ++ es)
      → Indexed hl
      → push_all hl es ≡ ok hl'
      → Indexed hl'
  unfolding push_all
  push_all-Indexed prev n hl hl' [] h l d index done = subst Indexed (ok-injective done) index
  push_all-Indexed prev n hl hl' (e ∷ es) h l d index done =
      let height : e.height ≡ length hl.headers = l.0 ∙ h in
      let d' : Distinct ((hl.headers ++ e ∷ []) ++ es) =
        subst Distinct (sym (append_cons_lem hl.headers es e)) d in
      let longer : suc n ≡ length (hl.headers ++ e ∷ []) =
        omega (arith, length-append hl.headers (e ∷ [])) in
      push_all-Indexed e.hash (suc n) (after_push hl e) hl' es longer l.3 d'
        (push-Indexed hl e height (Distinct-prefix (hl.headers ++ e ∷ []) es d') index)
        (rw (push_lem hl e height) at done)

  pub take-Indexed :
      (hl : HeaderList bitcoin) (n : ℕ)
      → Indexed hl
      → Indexed (record hl { headers = take n hl.headers })
  take-Indexed hl n index i e at = index i e (get_elem?-of_take n hl.headers i e at)

  Replaced-IsValid :
      (hl hl' : HeaderList bitcoin) (e : HeaderEntry bitcoin) (es : List (HeaderEntry bitcoin))
      → IsValid hl
      → NoCollision hl'.headers
      → Replaced hl hl' (e ∷ es)
      → IsValid hl'
  Replaced-IsValid hl hl' e es v free r =
      let kept = record hl { headers = take r.from hl.headers } in
      let prev = last_hash all_zeros (take r.from hl.headers) in
      let size : r.from ≡ length kept.headers =
        sym (length-take_of_le r.from hl.headers r.reached) in
      let (hl'', done, same, at_tip) = push_all_lem prev r.from kept (e ∷ es) size r.continues in
      let eq : hl'' ≡ hl' = ok-injective (sym done ∙ r.pushed) in
      let shape : hl'.headers ≡ take r.from hl.headers ++ e ∷ es =
        ap (λ (x : HeaderList bitcoin). x.headers) (sym eq) ∙ same in
      let linked : Linked all_zeros 0 hl'.headers = subst (Linked all_zeros 0) (sym shape) (
        Linked-append all_zeros 0 r.from (take r.from hl.headers) (e ∷ es) (omega (arith, size))
          (Linked-take all_zeros 0 r.from hl.headers v.linked) r.continues) in
      record {
        linked = linked;
        tip_last =
            ap (λ (x : HeaderList bitcoin). x.tip) (sym eq)
            ∙ at_tip
            ∙ sym (
                ap (last_hash all_zeros) shape
                ∙ last_hash-append all_zeros (take r.from hl.headers) (e ∷ es));
        indexed =
            push_all-Indexed prev r.from kept hl' (e ∷ es) size r.continues
              (subst Distinct shape (Linked-Distinct hl'.headers linked free))
              (take-Indexed hl r.from v.indexed) r.pushed;
      }

  -- A call of `apply` that returns keeps the list valid, whatever the entries, if the hashes
  -- stored in them are their headers' and no headers of the new chain collide.
  pub apply-IsValid :
      (hl hl' : HeaderList bitcoin) (new : List (HeaderEntry bitcoin))
      → IsValid hl
      → IsHashed new
      → apply hl new ≡ ok hl'
      → NoCollision hl'.headers
      → IsValid hl'
  unfolding apply
  apply-IsValid hl hl' [] v hashed done free = subst IsValid (ok-injective done) v
  apply-IsValid hl hl' (e ∷ es) v hashed done free = elim (apply_cases hl hl' e es hashed done) [
    | inl same ↦ subst IsValid (sym same) v
    | inr r ↦ Replaced-IsValid hl hl' e es v free r
  ]

  -- On a valid list `tip` returns the hash of the last entry, and its assertion holds.
  pub tip_lem :
      (hl : HeaderList bitcoin) → IsValid hl → tip hl ≡ ok (last_hash all_zeros hl.headers)
  unfolding tip
  tip_lem hl v = ground (arith, last_hash-last? hl.headers)

  -- On a valid list the assertion of `header_by_height` holds.
  pub header_by_height_lem :
      (hl : HeaderList bitcoin) (n : ℕ)
      → IsValid hl
      → header_by_height hl n ≡ ok (get_elem? hl.headers n)
  unfolding header_by_height
  header_by_height_lem hl n v = elim (Option-cases (get_elem? hl.headers n)) [
    | inl missing ↦ rw missing
    | inr (e, at) ↦ ground (arith, Linked-at all_zeros 0 n hl.headers e v.linked at)
  ]
