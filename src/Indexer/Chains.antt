-- ===== src/Indexer/Chains.antt =====
-- The lists of headers that a round makes: what `apply` returns, and the chain up to the tip that the node
-- gave. Headers that were seen, by a predicate that the lemmas take, have different hashes.
use sxn_spv.Common.{
  ℕ, zero, suc, ◌≤◌, ◌≡◌, ◌≢◌, ◌⊎◌, inl, inr, refl, sym, ap, ◌∙◌, some, List, [], ◌∷◌, ◌++◌, length,
  length-take_of_le, get_elem?, get_elem?-of_take, take, All, arith,
}
use mathlib.Core.Path.{subst}
use sxn_spv.Common.Outcome.{ok, ok-injective}
use sxn_spv.Bitcoin.{Bitcoin, BlockHash, all_zeros}
use sxn_spv.Header.{HeaderEntry, HeaderList, apply}
use sxn_spv.Header.Chain.{Linked, last_hash, Linked-take, NoCollision}
use sxn_spv.Header.Apply.{IsValid, IsHashed, apply_extends, push_all_lem, apply_cases}
use sxn_spv.Header.Invariant.{take-Indexed, apply-IsValid}

get_elem?-append {ℓ} :
    {A : Type ℓ} (xs ys : List A) (i : ℕ) (a : A)
    → get_elem? (xs ++ ys) i ≡ some a
    → (get_elem? xs i ≡ some a) ⊎ ((k : ℕ) × (get_elem? ys k ≡ some a))
get_elem?-append [] ys i a at = inr (i, at)
get_elem?-append (x ∷ xs) ys zero a at = inl at
get_elem?-append (x ∷ xs) ys (suc i) a at = get_elem?-append xs ys i a at

pub All-at {ℓ κ} :
    {A : Type ℓ} (P : A → Type κ) (xs : List A) (i : ℕ) (a : A)
    → All P xs
    → get_elem? xs i ≡ some a
    → P a
All-at P [] i a h at = absurd (ground arith)
All-at P (x ∷ xs) zero a h at = subst P (cc (at)) h.0
All-at P (x ∷ xs) (suc i) a h at = All-at P xs i a h.1 at

module _ (bitcoin : Bitcoin) (IsSeen : bitcoin.BlockHeader → Type 0) where
  open bitcoin use {BlockHeader, block_hash}

  -- Seen headers have different hashes, and none the null hash.
  abbrev pub Injective : Type 0
  Injective = (x y : BlockHeader) → IsSeen x → IsSeen y → block_hash x ≡ block_hash y → x ≡ y

  abbrev pub Proper : Type 0
  Proper = (x : BlockHeader) → IsSeen x → block_hash x ≢ all_zeros

module _ {bitcoin : Bitcoin} where
  -- Every entry is one of the old list, or one of those that are new.
  abbrev pub FromEither :
      HeaderList bitcoin → List (HeaderEntry bitcoin) → List (HeaderEntry bitcoin) → Type 0
  FromEither hl new es =
      (i : ℕ) (e : HeaderEntry bitcoin)
      → get_elem? es i ≡ some e
      → ((j : ℕ) × (get_elem? hl.headers j ≡ some e)) ⊎ ((k : ℕ) × (get_elem? new k ≡ some e))

  take_append-FromEither :
      (hl : HeaderList bitcoin) (n : ℕ) (new : List (HeaderEntry bitcoin))
      → FromEither hl new (take n hl.headers ++ new)
  take_append-FromEither hl n new i e at = elim (get_elem?-append (take n hl.headers) new i e at) [
    | inl old ↦ inl (i, get_elem?-of_take n hl.headers i e old)
    | inr added ↦ inr added
  ]

  Linked-IsHashed :
      (prev : BlockHash) (n : ℕ) (es : List (HeaderEntry bitcoin)) → Linked prev n es → IsHashed es
  Linked-IsHashed prev n [] l = tt
  Linked-IsHashed prev n (e ∷ es) l = (l.1, Linked-IsHashed e.hash (suc n) es l.3)

  module _ (IsSeen : bitcoin.BlockHeader → Type 0) where
    open bitcoin use {BlockHeader, block_hash}

    -- An entry that was seen, beside the hash of its header.
    abbrev pub IsGood : HeaderEntry bitcoin → Type 0
    IsGood e = IsSeen e.header × (e.hash ≡ block_hash e.header)

    abbrev pub AllGood : List (HeaderEntry bitcoin) → Type 0
    AllGood es = (i : ℕ) (e : HeaderEntry bitcoin) → get_elem? es i ≡ some e → IsGood e

    good-IsHashed : (es : List (HeaderEntry bitcoin)) → All IsGood es → IsHashed es
    good-IsHashed [] a = tt
    good-IsHashed (e ∷ es) a = (a.0.1, good-IsHashed es a.1)

    apply-FromEither :
        (hl hl' : HeaderList bitcoin) (new : List (HeaderEntry bitcoin))
        → All IsGood new
        → apply hl new ≡ ok hl'
        → FromEither hl new hl'.headers
    unfolding apply
    apply-FromEither hl hl' [] a done = λ i e at. inl (
      i,
      subst (λ (x : HeaderList bitcoin). get_elem? x.headers i ≡ some e) (sym (ok-injective done))
          at,
    )
    apply-FromEither hl hl' (e ∷ es) a done =
        elim (apply_cases hl hl' e es (good-IsHashed (e ∷ es) a) done) [
          | inl same ↦ λ i x at.
              inl (i, subst (λ (y : HeaderList bitcoin). get_elem? y.headers i ≡ some x) same at)
          | inr r ↦
              let kept = record hl { headers = take r.from hl.headers } in
              let (hl'', done', shape, _) =
                push_all_lem (last_hash all_zeros (take r.from hl.headers)) r.from kept (e ∷ es)
                  (sym (length-take_of_le r.from hl.headers r.reached)) r.continues in
              let eq : hl'' ≡ hl' = ok-injective (sym done' ∙ r.pushed) in
              let shape' : hl'.headers ≡ take r.from hl.headers ++ e ∷ es =
                ap (λ (x : HeaderList bitcoin). x.headers) (sym eq) ∙ shape in
              subst (FromEither hl (e ∷ es)) (sym shape')
                (take_append-FromEither hl r.from (e ∷ es))
        ]

    pub FromEither-AllGood :
        (hl : HeaderList bitcoin) (new es : List (HeaderEntry bitcoin))
        → AllGood hl.headers
        → All IsGood new
        → FromEither hl new es
        → AllGood es
    FromEither-AllGood hl new es good a from i e at = elim (from i e at) [
      | inl (j, old) ↦ good j e old
      | inr (k, added) ↦ All-at IsGood new k e a added
    ]

    module _ (injective : Injective bitcoin IsSeen) (proper : Proper bitcoin IsSeen) where
      pub good-NoCollision : (es : List (HeaderEntry bitcoin)) → AllGood es → NoCollision es
      good-NoCollision es good = record {
        injective =
            λ i j a b at bt same. injective a.header b.header (good i a at).0 (good j b bt).0 same;
        nonzero = λ i a at. proper a.header (good i a at).0;
      }

      -- The chain up to a height of the list, and then the new entries.
      pub target_list :
          (hl : HeaderList bitcoin) (n : ℕ) (new : List (HeaderEntry bitcoin))
          → IsValid hl
          → AllGood hl.headers
          → All IsGood new
          → n ≤ length hl.headers
          → Linked (last_hash all_zeros (take n hl.headers)) n new
          → (hl' : HeaderList bitcoin) × FromEither hl new hl'.headers
            × (hl'.tip ≡ last_hash (last_hash all_zeros (take n hl.headers)) new)
            × IsValid hl'
      target_list hl n [] v good a le l = (
        record hl { headers = take n hl.headers; tip = last_hash all_zeros (take n hl.headers) },
        λ i e at. inl (i, get_elem?-of_take n hl.headers i e at),
        refl,
        record {
          linked = Linked-take all_zeros 0 n hl.headers v.linked;
          tip_last = refl;
          indexed = take-Indexed hl n v.indexed;
        },
      )
      target_list hl n (e ∷ es) v good a le l =
          let (hl', done, shape, at_tip) = apply_extends hl n e es le l in
          let from =
            subst (FromEither hl (e ∷ es)) (sym shape) (take_append-FromEither hl n (e ∷ es)) in
          let free =
            good-NoCollision hl'.headers (FromEither-AllGood hl (e ∷ es) hl'.headers good a from) in
          (hl', from, at_tip, apply-IsValid hl hl' (e ∷ es) v (good-IsHashed (e ∷ es) a) done free)

      -- A call of `apply` that returns makes a valid list of old and new entries.
      pub apply_list :
          (hl hl' : HeaderList bitcoin) (new : List (HeaderEntry bitcoin))
          → IsValid hl
          → AllGood hl.headers
          → All IsGood new
          → apply hl new ≡ ok hl'
          → FromEither hl new hl'.headers × IsValid hl'
      apply_list hl hl' new v good a done =
          let from = apply-FromEither hl hl' new a done in
          (
            from,
            apply-IsValid hl hl' new v (good-IsHashed new a) done
                (good-NoCollision hl'.headers (FromEither-AllGood hl new hl'.headers good a from)),
          )
