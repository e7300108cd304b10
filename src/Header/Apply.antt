-- ===== src/Header/Apply.antt =====
-- `HeaderList::apply`: the invariant of the list, and what a call does on each branch.
use sxn_spv.Common.{
  ℕ, zero, suc, ◌-◌, ◌≤◌, ◌≡◌, ◌⊎◌, inl, inr, refl, sym, ap, ◌∙◌, some, List, [], ◌∷◌, ◌++◌, length,
  length-append, length-take_of_le, get_elem?, get_elem?-some, take, ◌==◌, ==-self, Bool-cases,
  arith,
}
use mathlib.Core.Path.{subst}
use mathlib.Core.List.{append-nil}
use sxn_spv.Common.Outcome.{bind-ok, ok}
use sxn_spv.Common.Classes.{nat_eq}
use sxn_spv.Common.HashMap
use sxn_spv.Common.HashMap.{get-insert}
use sxn_spv.Bitcoin.{Bitcoin, BlockHash, all_zeros}
use sxn_spv.Header.{
  HeaderEntry, HeaderList, assert_consecutive, expected_prev_blockhash, split_off, push, push_all,
  replace_from, apply,
}
use sxn_spv.Header.Chain.{Linked, last_hash, last_hash-take-suc}

module _ {bitcoin : Bitcoin} where
  open bitcoin use {prev_blockhash, block_hash}

  -- Every entry of the list is found under its hash, at its own height.
  abbrev pub Indexed : HeaderList bitcoin → Type 0
  Indexed hl =
      (i : ℕ) (e : HeaderEntry bitcoin)
      → get_elem? hl.headers i ≡ some e
      → HashMap.get e.hash hl.heights ≡ some i

  pub record IsValid (hl : HeaderList bitcoin) : Type 0 where
    pub linked : Linked all_zeros 0 hl.headers
    pub tip_last : hl.tip ≡ last_hash all_zeros hl.headers
    pub indexed : Indexed hl

  -- The hash stored beside each header is the hash of that header, as `order` stores it.
  abbrev pub IsHashed : List (HeaderEntry bitcoin) → Type 0
  IsHashed [] = Unit
  IsHashed (e ∷ es) = (e.hash ≡ block_hash e.header) × IsHashed es

  consecutive-split :
      (e e' : HeaderEntry bitcoin) (es : List (HeaderEntry bitcoin))
      → assert_consecutive (e ∷ e' ∷ es) ≡ ok tt
      → (e'.height ≡ suc e.height)
        × (prev_blockhash e'.header ≡ e.hash)
        × (assert_consecutive (e' ∷ es) ≡ ok tt)
  unfolding assert_consecutive
  consecutive-split e e' es done = ground arith

  consecutive-Linked :
      (e : HeaderEntry bitcoin) (es : List (HeaderEntry bitcoin))
      → IsHashed (e ∷ es)
      → assert_consecutive (e ∷ es) ≡ ok tt
      → Linked (prev_blockhash e.header) e.height (e ∷ es)
  consecutive-Linked e [] h done = (refl, h.0, refl, tt)
  consecutive-Linked e (e' ∷ es) h done =
      let (next, points, rest) = consecutive-split e e' es done in
      let l : Linked (prev_blockhash e'.header) e'.height (e' ∷ es) =
        consecutive-Linked e' es h.1 rest in
      (refl, h.0, refl, (next, l.1, points, subst (λ n. Linked e'.hash (suc n) es) next l.3))

  Linked-consecutive :
      (prev : BlockHash) (n : ℕ) (es : List (HeaderEntry bitcoin))
      → Linked prev n es
      → assert_consecutive es ≡ ok tt
  unfolding assert_consecutive
  Linked-consecutive prev n [] h = refl
  Linked-consecutive prev n (e ∷ []) h = refl
  Linked-consecutive prev n (e ∷ e' ∷ es) h =
      ground (arith, Linked-consecutive e.hash (suc n) (e' ∷ es) h.3)

  expected_prev_lem :
      (hl : HeaderList bitcoin) (n : ℕ)
      → n ≤ length hl.headers
      → expected_prev_blockhash hl n ≡ ok (last_hash all_zeros (take n hl.headers))
  unfolding expected_prev_blockhash
  expected_prev_lem hl zero h = refl
  expected_prev_lem hl (suc n) h =
      let (e, at) = get_elem?-some hl.headers n (omega arith) in
      let same : suc n - 1 ≡ n = omega arith in
      ground (arith, at, same, last_hash-take-suc all_zeros n hl.headers e)

  split_off_lem :
      (n : ℕ) (es : List (HeaderEntry bitcoin)) → n ≤ length es → split_off n es ≡ ok (take n es)
  unfolding split_off
  split_off_lem n es h = ground arith

  pub append_cons_lem :
      (es fs : List (HeaderEntry bitcoin)) (e : HeaderEntry bitcoin)
      → (es ++ e ∷ []) ++ fs ≡ es ++ e ∷ fs
  append_cons_lem [] fs e = refl
  append_cons_lem (x ∷ es) fs e = ap (◌∷◌ x) (append_cons_lem es fs e)

  abbrev pub after_push : HeaderList bitcoin → HeaderEntry bitcoin → HeaderList bitcoin
  after_push hl e = record {
    headers = hl.headers ++ e ∷ [];
    heights = HashMap.insert e.hash e.height hl.heights;
    tip = e.hash;
  }

  pub push_lem :
      (hl : HeaderList bitcoin) (e : HeaderEntry bitcoin)
      → e.height ≡ length hl.headers
      → push hl e ≡ ok (after_push hl e)
  unfolding push
  push_lem hl e h = ground arith

  pub push_all_lem :
      (prev : BlockHash) (n : ℕ) (hl : HeaderList bitcoin) (es : List (HeaderEntry bitcoin))
      → n ≡ length hl.headers
      → Linked prev n es
      → (hl' : HeaderList bitcoin) × (push_all hl es ≡ ok hl')
        × (hl'.headers ≡ hl.headers ++ es)
        × (hl'.tip ≡ last_hash hl.tip es)
  unfolding push_all
  push_all_lem prev n hl [] h l = (hl, refl, sym (append-nil hl.headers), refl)
  push_all_lem prev n hl (e ∷ es) h l =
      let longer : suc n ≡ length (hl.headers ++ e ∷ []) =
        omega (arith, length-append hl.headers (e ∷ [])) in
      let (hl', done, same, at_tip) = push_all_lem e.hash (suc n) (after_push hl e) es longer l.3 in
      (hl', rw (push_lem hl e (l.0 ∙ h)) done, same ∙ append_cons_lem hl.headers es e, at_tip)

  replace_from_lem :
      (hl : HeaderList bitcoin) (n : ℕ) (new : List (HeaderEntry bitcoin))
      → n ≤ length hl.headers
      → replace_from hl n new ≡ push_all (record hl { headers = take n hl.headers }) new
  unfolding replace_from
  replace_from_lem hl n new h = rw (split_off_lem n hl.headers h)

  -- `apply` of entries that continue the chain at a height that the list reaches.
  abbrev Resumes :
      HeaderList bitcoin → HeaderEntry bitcoin → List (HeaderEntry bitcoin) → ℕ → Type 0
  Resumes hl e es n =
      n ≤ length hl.headers
      → Linked (last_hash all_zeros (take n hl.headers)) n (e ∷ es)
      → apply hl (e ∷ es) ≡ push_all (record hl { headers = take n hl.headers }) (e ∷ es)

  apply-Resumes :
      (hl : HeaderList bitcoin) (e : HeaderEntry bitcoin) (es : List (HeaderEntry bitcoin))
      → Resumes hl e es e.height
  unfolding apply
  apply-Resumes hl e es h l =
      rw (Linked-consecutive _ _ (e ∷ es) l, expected_prev_lem hl e.height h, l.2, ==-self)
        (replace_from_lem hl e.height (e ∷ es) h)

  apply_lem :
      (hl : HeaderList bitcoin) (n : ℕ) (e : HeaderEntry bitcoin) (es : List (HeaderEntry bitcoin))
      → Resumes hl e es n
  apply_lem hl n e es h l = subst (Resumes hl e es) l.0 (apply-Resumes hl e es) h l

  -- Entries that continue a prefix of the chain replace what stands above that prefix. No
  -- assertion fails, and the tip is the last of them.
  pub apply_extends :
      (hl : HeaderList bitcoin) (n : ℕ) (e : HeaderEntry bitcoin) (es : List (HeaderEntry bitcoin))
      → n ≤ length hl.headers
      → Linked (last_hash all_zeros (take n hl.headers)) n (e ∷ es)
      → (hl' : HeaderList bitcoin) × (apply hl (e ∷ es) ≡ ok hl')
        × (hl'.headers ≡ take n hl.headers ++ e ∷ es)
        × (hl'.tip ≡ last_hash e.hash es)
  apply_extends hl n e es h l =
      let (hl', done, same, at_tip) =
        push_all_lem (last_hash all_zeros (take n hl.headers)) n
          (record hl { headers = take n hl.headers }) (e ∷ es)
          (sym (length-take_of_le n hl.headers h)) l in
      (hl', apply_lem hl n e es h l ∙ done, same, at_tip)

  replace_reached :
      (hl hl' : HeaderList bitcoin) (n : ℕ) (new : List (HeaderEntry bitcoin))
      → replace_from hl n new ≡ ok hl'
      → n ≤ length hl.headers
  unfolding replace_from split_off
  replace_reached hl hl' n new done = ground arith

  -- What a call that returns has done: nothing, or the replacement of everything from the height of
  -- the first new entry on.
  pub record Replaced (hl hl' : HeaderList bitcoin) (new : List (HeaderEntry bitcoin))
      : Type 0 where
    pub from : ℕ
    pub reached : from ≤ length hl.headers
    pub continues : Linked (last_hash all_zeros (take from hl.headers)) from new
    pub pushed : push_all (record hl { headers = take from hl.headers }) new ≡ ok hl'

  pub apply_cases :
      (hl hl' : HeaderList bitcoin) (e : HeaderEntry bitcoin) (es : List (HeaderEntry bitcoin))
      → IsHashed (e ∷ es)
      → apply hl (e ∷ es) ≡ ok hl'
      → (hl' ≡ hl) ⊎ Replaced hl hl' (e ∷ es)
  unfolding apply
  apply_cases hl hl' e es hashed done =
      let (_, links, rest) = bind-ok (assert_consecutive (e ∷ es)) _ hl' done in
      let (expected, found, rest') = bind-ok (expected_prev_blockhash hl e.height) _ hl' rest in
      elim (Bool-cases (prev_blockhash e.header == expected)) [
        | inl same ↦
            let replaced : replace_from hl e.height (e ∷ es) ≡ ok hl' = rw same at rest' in
            let reached = replace_reached hl hl' e.height (e ∷ es) replaced in
            let points : prev_blockhash e.header ≡ last_hash all_zeros (take e.height hl.headers) =
              ground (arith, found, expected_prev_lem hl e.height reached) in
            inr (record {
              from = e.height;
              reached = reached;
              continues =
                  subst (λ p. Linked p e.height (e ∷ es)) points
                    (consecutive-Linked e es hashed links);
              pushed = sym (replace_from_lem hl e.height (e ∷ es) reached) ∙ replaced;
            })
        | inr other ↦ inl (sym (ground arith))
      ]
