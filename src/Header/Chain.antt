-- ===== src/Header/Chain.antt =====
-- Chains of entries: each entry holds the hash of its header, points to the entry before it and has
-- the next height. Where no two headers collide, no two entries of a chain share a hash.
use sxn_spv.Common.{
  ℕ, zero, suc, ◌+◌, ◌≡◌, ◌≢◌, refl, sym, ap, ◌∙◌, some, List, [], ◌∷◌, ◌++◌, length, get_elem?,
  get_elem?-lt, get_elem?-some, take, last?, arith,
}
use sxn_spv.Bitcoin.{Bitcoin, BlockHash, all_zeros}
use sxn_spv.Header.{HeaderEntry, hash_or_zeros}

module _ {bitcoin : Bitcoin} where
  open bitcoin use {prev_blockhash, block_hash}

  -- The entries continue a chain whose last hash is `prev`, from height `n` on.
  abbrev pub Linked : BlockHash → ℕ → List (HeaderEntry bitcoin) → Type 0
  Linked prev n [] = Unit
  Linked prev n (e ∷ es) =
      (e.height ≡ n)
      × (e.hash ≡ block_hash e.header)
      × (prev_blockhash e.header ≡ prev)
      × Linked e.hash (suc n) es

  abbrev pub last_hash : BlockHash → List (HeaderEntry bitcoin) → BlockHash
  last_hash prev [] = prev
  last_hash prev (e ∷ es) = last_hash e.hash es

  pub last_hash-append :
      (prev : BlockHash) (es fs : List (HeaderEntry bitcoin))
      → last_hash prev (es ++ fs) ≡ last_hash (last_hash prev es) fs
  last_hash-append prev [] fs = refl
  last_hash-append prev (e ∷ es) fs = last_hash-append e.hash es fs

  pub last_hash-last? :
      (es : List (HeaderEntry bitcoin)) → last_hash all_zeros es ≡ hash_or_zeros (last? es)
  last_hash-last? [] = refl
  last_hash-last? (e ∷ []) = refl
  last_hash-last? (e ∷ e' ∷ es) = last_hash-last? (e' ∷ es)

  pub Linked-take :
      (prev : BlockHash) (n m : ℕ) (es : List (HeaderEntry bitcoin))
      → Linked prev n es
      → Linked prev n (take m es)
  Linked-take prev n zero es h = tt
  Linked-take prev n (suc m) [] h = tt
  Linked-take prev n (suc m) (e ∷ es) h = (h.0, h.1, h.2, Linked-take e.hash (suc n) m es h.3)

  pub Linked-append :
      (prev : BlockHash) (n m : ℕ) (es fs : List (HeaderEntry bitcoin))
      → n + length es ≡ m
      → Linked prev n es
      → Linked (last_hash prev es) m fs
      → Linked prev n (es ++ fs)
  Linked-append prev n m [] fs e h k = let e' : m ≡ n = omega arith in rw e' at k
  Linked-append prev n m (x ∷ es) fs e h k =
      (h.0, h.1, h.2, Linked-append x.hash (suc n) m es fs (omega arith) h.3 k)

  -- What the link says of the entry at an index.
  pub Linked-at :
      (prev : BlockHash) (n i : ℕ) (es : List (HeaderEntry bitcoin)) (e : HeaderEntry bitcoin)
      → Linked prev n es
      → get_elem? es i ≡ some e
      → (e.height ≡ n + i)
        × (e.hash ≡ block_hash e.header)
        × (prev_blockhash e.header ≡ last_hash prev (take i es))
  Linked-at prev n i [] e h at = ground arith
  Linked-at prev n zero (x ∷ es) e h at = ground arith
  Linked-at prev n (suc i) (x ∷ es) e h at =
      let (a, b, c) = Linked-at x.hash (suc n) i es e h.3 at in (omega arith, b, c)

  -- The entry before the one at an index.
  pub last_hash-take-suc :
      (prev : BlockHash) (i : ℕ) (es : List (HeaderEntry bitcoin)) (e : HeaderEntry bitcoin)
      → get_elem? es i ≡ some e
      → last_hash prev (take (suc i) es) ≡ e.hash
  last_hash-take-suc prev i [] e at = ground arith
  last_hash-take-suc prev zero (x ∷ es) e at = ground arith
  last_hash-take-suc prev (suc i) (x ∷ es) e at = last_hash-take-suc x.hash i es e at

  -- No two of the headers have one hash unless they are equal, and none has the null hash.
  pub record NoCollision (es : List (HeaderEntry bitcoin)) : Type 0 where
    pub injective :
        (i j : ℕ) (a b : HeaderEntry bitcoin)
        → get_elem? es i ≡ some a
        → get_elem? es j ≡ some b
        → block_hash a.header ≡ block_hash b.header
        → a.header ≡ b.header
    pub nonzero :
        (i : ℕ) (a : HeaderEntry bitcoin)
        → get_elem? es i ≡ some a
        → block_hash a.header ≢ all_zeros

  abbrev pub Distinct : List (HeaderEntry bitcoin) → Type 0
  Distinct es =
      (i j : ℕ) (a b : HeaderEntry bitcoin)
      → get_elem? es i ≡ some a
      → get_elem? es j ≡ some b
      → a.hash ≡ b.hash
      → i ≡ j

  module _ (es : List (HeaderEntry bitcoin)) (linked : Linked all_zeros 0 es) where
    hash-ne-zero :
        NoCollision es
        → (i : ℕ) (a : HeaderEntry bitcoin) → get_elem? es i ≡ some a
        → a.hash ≢ all_zeros
    hash-ne-zero free i a at e =
        free.nonzero i a at (sym (Linked-at all_zeros 0 i es a linked at).1 ∙ e)

    prev_at_suc :
        (i : ℕ) (a b : HeaderEntry bitcoin)
        → get_elem? es i ≡ some a
        → get_elem? es (suc i) ≡ some b
        → prev_blockhash b.header ≡ a.hash
    prev_at_suc i a b at at' =
        (Linked-at all_zeros 0 (suc i) es b linked at').2 ∙ last_hash-take-suc all_zeros i es a at

    same_prev :
        NoCollision es
        → (i j : ℕ) (a b : HeaderEntry bitcoin) → get_elem? es i ≡ some a
        → get_elem? es j ≡ some b
        → a.hash ≡ b.hash
        → prev_blockhash a.header ≡ prev_blockhash b.header
    same_prev free i j a b at bt e = ap prev_blockhash (
        free.injective i j a b at bt (
          sym (Linked-at all_zeros 0 i es a linked at).1
          ∙ e
          ∙ (Linked-at all_zeros 0 j es b linked bt).1))

    -- A chain from the null hash without collisions never repeats a hash.
    pub Linked-Distinct : NoCollision es → Distinct es
    Linked-Distinct free zero zero a b at bt e = refl
    Linked-Distinct free zero (suc j) a b at bt e =
        let (b', bt') = get_elem?-some es j (omega (arith, get_elem?-lt es (suc j) bt)) in
        absurd (
          hash-ne-zero free j b' bt' (
            sym (prev_at_suc j b' b bt' bt)
            ∙ sym (same_prev free 0 (suc j) a b at bt e)
            ∙ (Linked-at all_zeros 0 0 es a linked at).2))
    Linked-Distinct free (suc i) zero a b at bt e =
        let (a', at') = get_elem?-some es i (omega (arith, get_elem?-lt es (suc i) at)) in
        absurd (
          hash-ne-zero free i a' at' (
            sym (prev_at_suc i a' a at' at)
            ∙ same_prev free (suc i) 0 a b at bt e
            ∙ (Linked-at all_zeros 0 0 es b linked bt).2))
    Linked-Distinct free (suc i) (suc j) a b at bt e =
        let (a', at') = get_elem?-some es i (omega (arith, get_elem?-lt es (suc i) at)) in
        let (b', bt') = get_elem?-some es j (omega (arith, get_elem?-lt es (suc j) bt)) in
        ap suc (
          Linked-Distinct free i j a' b' at' bt' (
            sym (prev_at_suc i a' a at' at)
            ∙ same_prev free (suc i) (suc j) a b at bt e
            ∙ prev_at_suc j b' b bt' bt))
