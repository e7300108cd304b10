-- ===== src/BtcRpc/Faithful.antt =====
-- What the handlers of src/btcrpc keep in the shared cache: under the hash of a block, a header that a
-- client has for that hash.
use sxn_spv.Common.{
  ℕ, zero, suc, ◌≡◌, refl, sym, ap, ◌∙◌, ◌⊎◌, inl, inr, Bool, true, false, String, Bool-cases,
  Option-cases, Option, none, some, List, [], ◌∷◌, length, arith,
}
use mathlib.Core.Path.{subst}
use sxn_spv.Common.Classes.{string_eq}
use sxn_spv.Common.Order.{bytes_ord}
use sxn_spv.Bitcoin.{Bitcoin, BlockHash}
use sxn_spv.Cache
use sxn_spv.Cache.{SimpleCache}
use sxn_spv.Cache.Laws.{IsValid, insert-IsValid, get-insert_cache}
use sxn_spv.BtcRpc.Types.{Json, Hashes, Handle, ResponseCache, be_bytes, to_be_bytes}
use sxn_spv.BtcRpc.Handlers.{
  header_value, getblockheader_of, getblockheader_by, or_true, handle_getblockheader,
  getblockhash_of, handle_getblockhash, parsed_hash, found_header, found_hash,
}
use sxn_spv.BtcRpc.Requests.{BtcReq, run_method, handle_request, handle_fetch_header}

length-be_bytes : (n x : ℕ) → length (be_bytes n x) ≡ n
unfolding be_bytes
length-be_bytes zero x = refl
length-be_bytes (suc n) x = ap suc (length-be_bytes n x)

-- `Known h x`: some client has the header `x` for the hash `h`.
module _ {bitcoin : Bitcoin} (json : Json bitcoin) (hashes : Hashes bitcoin)
    (Known : BlockHash → bitcoin.BlockHeader → Type 0) where
  open bitcoin use {BlockHeader}
  open json use {Value, to_header}

  -- The cache is valid, and what reads as a header under a hash is a header known for it.
  pub record IsFaithful (cache : ResponseCache json) : Type 0 where
    pub valid : IsValid cache
    pub faithful :
        (h : BlockHash) (v : Value) (x : BlockHeader)
        → Cache.get cache (hashes.to_vec h) ≡ some v
        → to_header v ≡ some x
        → Known h x

  -- Every header that a client returns for a hash is known for it.
  abbrev pub Serves : Handle bitcoin → Type 0
  Serves handle =
      (h : BlockHash) (n : ℕ) (x : BlockHeader) → handle.get_block h ≡ inr (some (n, x)) → Known h x

  insert-IsFaithful :
      (cache : ResponseCache json) (key : List ℕ) (v : Value)
      → IsFaithful cache
      → ((h : BlockHash) (x : BlockHeader)
          → key ≡ hashes.to_vec h
          → to_header v ≡ some x
          → Known h x)
      → IsFaithful (Cache.insert cache key v)
  insert-IsFaithful cache key v f new = record {
    valid = insert-IsValid cache key v f.valid;
    faithful = λ h w x at reads.
        let law = get-insert_cache cache key (hashes.to_vec h) v f.valid in
        elim (Bool-cases (bytes_ord.eq key (hashes.to_vec h))) [
          | inl same ↦
              let here : v ≡ w = ground (arith, law, same, at) in
              new h x ((bytes_ord.eq_iff key (hashes.to_vec h)).0 same) (ap to_header here ∙ reads)
          | inr other ↦
              let old : Cache.get cache (hashes.to_vec h) ≡ some w =
                ground (arith, law, other, at) in
              f.faithful h w x old reads
        ];
  }

  -- A header under its hash.
  pub insert_hash :
      (cache : ResponseCache json) (h : BlockHash) (v : Value)
      → IsFaithful cache
      → ((x : BlockHeader) → to_header v ≡ some x → Known h x)
      → IsFaithful (Cache.insert cache (hashes.to_vec h) v)
  insert_hash cache h v f new = insert-IsFaithful cache (hashes.to_vec h) v f (λ g x same reads.
      let eq : h ≡ g = hashes.to_vec_injective h g same in
      subst (λ (k : BlockHash). Known k x) eq (new x reads))

  -- Anything under a height: its eight bytes are not the 32 of a hash.
  insert_height :
      (cache : ResponseCache json) (n : ℕ) (v : Value)
      → IsFaithful cache
      → IsFaithful (Cache.insert cache (to_be_bytes n) v)
  insert_height cache n v f = insert-IsFaithful cache (to_be_bytes n) v f (λ h x same reads.
      let sizes : 8 ≡ 32 = sym (length-be_bytes 8 n) ∙ ap length same ∙ hashes.to_vec_length h in
      absurd (omega arith))

  header_value-read :
      (verbose : Bool) (n : ℕ) (x y : BlockHeader)
      → to_header (header_value json hashes verbose n x) ≡ some y
      → x ≡ y
  header_value-read true n x y reads = cc (json.height_ignored n x, reads)
  header_value-read false n x y reads =
      absurd (cc (json.string_not_header (hashes.header_hex x), reads))

  module _ (handle : Handle bitcoin) (serves : Serves handle) where
    found_header-IsFaithful :
        (verbose : Bool) (h : BlockHash) (i : Value) (cache : ResponseCache json)
        (found : String ⊎ Option (ℕ × BlockHeader))
        → handle.get_block h ≡ found
        → IsFaithful cache
        → IsFaithful (found_header json hashes handle verbose h i cache found).1
    found_header-IsFaithful verbose h i cache (inl e) eq f = f
    found_header-IsFaithful verbose h i cache (inr none) eq f = f
    found_header-IsFaithful verbose h i cache (inr (some (n, x))) eq f =
        insert_hash cache h (header_value json hashes verbose n x) f (λ y reads.
          subst (λ (z : BlockHeader). Known h z) (header_value-read verbose n x y reads)
            (serves h n x eq))

    getblockheader_of-IsFaithful :
        (verbose : Bool) (h : BlockHash) (i : Value) (cache : ResponseCache json)
        → IsFaithful cache
        → IsFaithful (getblockheader_of json hashes handle verbose h i cache).1
    unfolding getblockheader_of
    getblockheader_of-IsFaithful verbose h i cache f =
        elim (Option-cases (Cache.get cache (hashes.to_vec h))) [
          | inl new ↦
              rw (new, getblockheader_of)
                (found_header-IsFaithful verbose h i cache (handle.get_block h) refl f)
          | inr (v, old) ↦ rw (old, getblockheader_of) f
        ]

    getblockheader_by-IsFaithful :
        (verbose : Bool) (hash i : Value) (cache : ResponseCache json)
        → IsFaithful cache
        → IsFaithful (getblockheader_by json hashes handle verbose hash i cache).1
    unfolding getblockheader_by
    getblockheader_by-IsFaithful verbose hash i cache f =
        elim (Option-cases (parsed_hash hashes (json.as_str hash))) [
          | inl wrong ↦ rw (wrong, getblockheader_by) f
          | inr (parsed, text) ↦ elim (Option-cases parsed) [
            | inl unread ↦ rw (text, unread, getblockheader_by) f
            | inr (h, read) ↦
                rw (text, read, getblockheader_by)
                  (getblockheader_of-IsFaithful verbose h i cache f)
          ]
        ]

    handle_getblockheader-IsFaithful :
        (params : List Value) (i : Value) (cache : ResponseCache json)
        → IsFaithful cache
        → IsFaithful (handle_getblockheader json hashes handle params i cache).1
    unfolding handle_getblockheader
    handle_getblockheader-IsFaithful [] i cache f = f
    handle_getblockheader-IsFaithful (hash ∷ []) i cache f =
        getblockheader_by-IsFaithful true hash i cache f
    handle_getblockheader-IsFaithful (hash ∷ verbose ∷ []) i cache f =
        getblockheader_by-IsFaithful (or_true (json.as_bool verbose)) hash i cache f
    handle_getblockheader-IsFaithful (hash ∷ verbose ∷ p ∷ params) i cache f = f

    found_hash-IsFaithful :
        (n : ℕ) (i : Value) (cache : ResponseCache json) (found : String ⊎ Option BlockHeader)
        → IsFaithful cache
        → IsFaithful (found_hash json hashes handle n i cache found).1
    found_hash-IsFaithful n i cache (inl e) f = f
    found_hash-IsFaithful n i cache (inr none) f = f
    found_hash-IsFaithful n i cache (inr (some x)) f = insert_height cache n (json.of_header x) f

    getblockhash_of-IsFaithful :
        (n : ℕ) (i : Value) (cache : ResponseCache json)
        → IsFaithful cache
        → IsFaithful (getblockhash_of json hashes handle n i cache).1
    unfolding getblockhash_of
    getblockhash_of-IsFaithful n i cache f = elim (Option-cases (Cache.get cache (to_be_bytes n))) [
      | inl new ↦
          rw (new, getblockhash_of)
            (found_hash-IsFaithful n i cache (handle.get_block_by_height n) f)
      | inr (v, old) ↦ rw (old, getblockhash_of) f
    ]

    handle_getblockhash-IsFaithful :
        (params : List Value) (i : Value) (cache : ResponseCache json)
        → IsFaithful cache
        → IsFaithful (handle_getblockhash json hashes handle params i cache).1
    unfolding handle_getblockhash
    handle_getblockhash-IsFaithful [] i cache f = f
    handle_getblockhash-IsFaithful (p ∷ q ∷ params) i cache f = f
    handle_getblockhash-IsFaithful (p ∷ []) i cache f = elim (Option-cases (json.as_u64 p)) [
      | inl wrong ↦ rw (wrong, handle_getblockhash) f
      | inr (n, number) ↦ rw (number, handle_getblockhash) (getblockhash_of-IsFaithful n i cache f)
    ]

    run_method-IsFaithful :
        (method : String) (params : List Value) (i : Value) (cache : ResponseCache json)
        → IsFaithful cache
        → IsFaithful (run_method json hashes handle method params i cache).1
    unfolding run_method
    run_method-IsFaithful method params i cache f =
        elim (Bool-cases (string_eq.beq method "getbestblockhash")) [
          | inl best ↦ rw (best, run_method) f
          | inr other ↦ elim (Bool-cases (string_eq.beq method "getblockheader")) [
            | inl header ↦
                rw (other, header, run_method) (handle_getblockheader-IsFaithful params i cache f)
            | inr other' ↦ elim (Bool-cases (string_eq.beq method "getblockhash")) [
              | inl hash ↦
                  rw (other, other', hash, run_method)
                    (handle_getblockhash-IsFaithful params i cache f)
              | inr none_ ↦ rw (other, other', none_, run_method) f
            ]
          ]
        ]

    handle_request-IsFaithful :
        (req : Value ⊎ BtcReq json) (cache : ResponseCache json)
        → IsFaithful cache
        → IsFaithful (handle_request json hashes handle req cache).1
    unfolding handle_request
    handle_request-IsFaithful (inl i) cache f = f
    handle_request-IsFaithful (inr req) cache f = elim (Option-cases (json.as_array req.params)) [
      | inl wrong ↦ rw (wrong, handle_request) f
      | inr (params, array) ↦
          rw (array, handle_request) (run_method-IsFaithful req.method params req.id cache f)
    ]

  -- A batch of requests, whatever they are, keeps the cache faithful, if every header that the client
  -- returns for a hash is known for it.
  pub handle_fetch_header-IsFaithful :
      (handle : Handle bitcoin) (payload : List (Value ⊎ BtcReq json)) (cache : ResponseCache json)
      → Serves handle
      → IsFaithful cache
      → IsFaithful (handle_fetch_header json hashes handle payload cache).1
  unfolding handle_fetch_header
  handle_fetch_header-IsFaithful handle [] cache serves f = f
  handle_fetch_header-IsFaithful handle (req ∷ payload) cache serves f =
      handle_fetch_header-IsFaithful handle payload (handle_request json hashes handle req cache).1
        serves (handle_request-IsFaithful handle serves req cache f)
