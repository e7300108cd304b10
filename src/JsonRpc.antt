-- ===== src/JsonRpc.antt =====
-- What src/ethrpc/mod.rs and src/solrpc/mod.rs share: JSON values, the error object of a response, and
-- the cache of responses of src/chainstate.rs, of which every server has the same one.
use sxn_spv.Common.{ℕ, ◌≡◌, inl, inr, String, Option, some, List, Bool-cases, arith}
use mathlib.Core.Path.{subst}
use sxn_spv.Common.Order.{bytes_ord}
use sxn_spv.Cache
use sxn_spv.Cache.{SimpleCache}
use sxn_spv.Cache.Laws.{IsValid, insert-IsValid, remove-IsValid, get-insert_cache, get-remove_cache}

-- `serde_json::Value`, with what the handlers ask of it.
pub record Json : Type 1 where
  pub Value : Type 0
  pub as_array : Value → Option (List Value)
  pub as_str : Value → Option String

abbrev pub ResponseCache : Json → Type 0
ResponseCache json = SimpleCache (List ℕ) json.Value

module _ (json : Json) (Known : List ℕ → json.Value → Type 0) where
  open json use {Value}

  -- The cache is valid, and every value in it is known for its key.
  pub record IsBacked (cache : ResponseCache json) : Type 0 where
    pub valid : IsValid cache
    pub backed : (k : List ℕ) (v : Value) → Cache.get cache k ≡ some v → Known k v

  pub insert-IsBacked :
      (cache : ResponseCache json) (key : List ℕ) (v : Value)
      → Known key v
      → IsBacked cache
      → IsBacked (Cache.insert cache key v)
  insert-IsBacked cache key v new b = record {
    valid = insert-IsValid cache key v b.valid;
    backed = λ k w at.
        let law = get-insert_cache cache key k v b.valid in
        elim (Bool-cases (bytes_ord.eq key k)) [
          | inl same ↦
              let here : v ≡ w = ground (arith, law, same, at) in
              subst (λ (j : List ℕ). Known j w) ((bytes_ord.eq_iff key k).0 same)
                (subst (λ (x : Value). Known key x) here new)
          | inr other ↦ b.backed k w (ground (arith, law, other, at))
        ];
  }

  pub remove-IsBacked :
      (cache : ResponseCache json) (key : List ℕ)
      → IsBacked cache
      → IsBacked (Cache.remove cache key)
  remove-IsBacked cache key b = record {
    valid = remove-IsValid cache key b.valid;
    backed = λ k w at.
        let law = get-remove_cache cache key k b.valid in
        b.backed k w (elim (Bool-cases (bytes_ord.eq key k)) [
          | inl same ↦ absurd (ground (arith, law, same, at))
          | inr other ↦ ground (arith, law, other, at)
        ]);
  }
