-- ===== src/Sol/Votes/Agreement.antt =====
-- What `deal_get_program_accounts_res` and `deal_get_signatures_for_address_res` return: where no node
-- lists an item twice, exactly the items that every node lists.
use sxn_spv.Common.{
  ℕ, ◌≤◌, ◌<◌, ◌≡◌, ◌↔◌, refl, ap, String, none, some, List, [], ◌∷◌, length, All, All-append,
  arith,
}
use sxn_spv.Common.Outcome.{ok}
use sxn_spv.Common.Classes.{nat_eq, bytes_eq, beq_self}
use sxn_spv.Common.HashMap
use sxn_spv.Common.HashMap.{HashMap, UniqueKeys}
use sxn_spv.Common.Tally.{
  tally, tally_into, bump, count, count-append, get-tally, tally-UniqueKeys, tally_into-Keys, Keys,
}
use sxn_spv.Sol.Types.{Json, Serde}
use sxn_spv.Sol.Votes.{
  texts, all_texts, counted_as, parse_all, deal_get_program_accounts_res,
  deal_get_signatures_for_address_res,
}

module _ {A : Type 0} (serde : Serde A) where
  -- The text of some item.
  abbrev pub Encoded : Json → Type 0
  Encoded t = (a : A) × (t ≡ serde.to_json a)

  pub texts-Encoded : (items : List A) → All Encoded (texts serde items)
  texts-Encoded [] = tt
  texts-Encoded (a ∷ items) = ((a, refl), texts-Encoded items)

  all_texts-Encoded : (lists : HashMap String (List A)) → All Encoded (all_texts serde lists)
  unfolding all_texts
  all_texts-Encoded [] = tt
  all_texts-Encoded ((from, items) ∷ rest) =
      All-append Encoded (texts serde items) (all_texts serde rest) (texts-Encoded items)
        (all_texts-Encoded rest)

  -- Parsing the texts of items gives back items with those texts.
  parse_all_lem :
      (ts : List Json)
      → All Encoded ts
      → (items : List A) × (parse_all serde ts ≡ ok items) × (texts serde items ≡ ts)
  unfolding parse_all
  parse_all_lem [] h = ([], refl, refl)
  parse_all_lem (t ∷ ts) h =
      let (a, text) = h.0 in
      let (items, done, same) = parse_all_lem ts h.1 in
      (a ∷ items, rw (text, serde.round_trip a, done), ground (arith, text, same))

  counted_as-Encoded :
      (n : ℕ) (m : HashMap Json ℕ) → Keys Encoded m → All Encoded (counted_as serde n m)
  unfolding counted_as
  counted_as-Encoded n [] k = tt
  counted_as-Encoded n ((t, w) ∷ m) k = ground (arith, counted_as-Encoded n m k.1)

  count-counted_as-absent :
      (n : ℕ) (t : Json) (m : HashMap Json ℕ)
      → HashMap.get t m ≡ none
      → count t (counted_as serde n m) ≡ 0
  unfolding counted_as HashMap.get
  count-counted_as-absent n t [] h = refl
  count-counted_as-absent n t ((u, w) ∷ m) h = ground (arith, count-counted_as-absent n t m)

  count-counted_as :
      (n : ℕ) (t : Json) (m : HashMap Json ℕ)
      → UniqueKeys m
      → (0 < count t (counted_as serde n m)) ↔ (HashMap.get t m ≡ some n)
  unfolding counted_as HashMap.get
  count-counted_as n t [] u = ground arith
  count-counted_as n t ((v, w) ∷ m) u = ground (
    arith,
    bytes_eq.beq_iff v t,
    count-counted_as-absent n t m,
    (count-counted_as n t m u.1).0,
    (count-counted_as n t m u.1).1,
    ap (λ (x : Json). HashMap.get x m),
  )

  -- The items that a tally counts `n` times are parsed, and nothing else is.
  pub agreed_lem :
      (n : ℕ) (ts : List Json)
      → 0 < n
      → All Encoded ts
      → (items : List A) × (parse_all serde (counted_as serde n (tally ts)) ≡ ok items)
        × ((t : Json) → (0 < count t (texts serde items)) ↔ (count t ts ≡ n))
  agreed_lem n ts pos enc =
      let kept = counted_as-Encoded n (tally ts) (tally_into-Keys Encoded [] ts enc tt) in
      let (items, parsed, same) = parse_all_lem (counted_as serde n (tally ts)) kept in
      (
        items,
        parsed,
        λ t.
            let counted = count-counted_as n t (tally ts) (tally-UniqueKeys ts) in
            let tallied = get-tally ts t n in
            rw same
              (λ some_. (tallied.0 (counted.0 some_)).0, λ all_. counted.1 (tallied.1 (all_, pos))),
      )

  -- No list holds an item twice.
  abbrev pub NoRepeats : HashMap String (List A) → Type 0
  NoRepeats = All (λ l. (t : Json) → count t (texts serde l.1) ≤ 1)

  -- Every list holds an item with this text.
  abbrev pub ListedByAll : Json → HashMap String (List A) → Type 0
  ListedByAll t = All (λ l. 0 < count t (texts serde l.1))

  count-all_texts-bound :
      (t : Json) (lists : HashMap String (List A))
      → NoRepeats lists
      → count t (all_texts serde lists) ≤ length lists
  unfolding all_texts
  count-all_texts-bound t [] once = omega arith
  count-all_texts-bound t ((from, items) ∷ rest) once = omega (
    arith,
    count-append t (texts serde items) (all_texts serde rest),
    count-all_texts-bound t rest once.1,
    once.0 t,
  )

  count-all_texts-full :
      (t : Json) (lists : HashMap String (List A))
      → NoRepeats lists
      → (count t (all_texts serde lists) ≡ length lists) ↔ ListedByAll t lists
  unfolding all_texts
  count-all_texts-full t [] once = (λ h. tt, λ h. refl)
  count-all_texts-full t ((from, items) ∷ rest) once =
      let split = count-append t (texts serde items) (all_texts serde rest) in
      let bound = count-all_texts-bound t rest once.1 in
      let one = once.0 t in
      let more = count-all_texts-full t rest once.1 in
      (
        λ h. (omega (arith, split, bound, one, h), more.0 (omega (arith, split, bound, one, h))),
        λ (here, others). omega (arith, split, bound, one, here, more.1 others),
      )

  agreed_iff :
      (lists : HashMap String (List A))
      → 0 < length lists
      → NoRepeats lists
      → (items : List A) × (parse_all serde
            (counted_as serde (length lists) (tally (all_texts serde lists)))
          ≡ ok items)
        × ((t : Json) → (0 < count t (texts serde items)) ↔ ListedByAll t lists)
  agreed_iff lists pos once =
      let (items, parsed, same) =
        agreed_lem (length lists) (all_texts serde lists) pos (all_texts-Encoded lists) in
      (
        items,
        parsed,
        λ t. (
          λ h. (count-all_texts-full t lists once).0 ((same t).0 h),
          λ h. (same t).1 ((count-all_texts-full t lists once).1 h),
        ),
      )

  -- Where at least one node answered, and no node lists an account twice, the answer is a list of
  -- exactly the accounts that every node lists.
  pub deal_get_program_accounts_res_iff :
      (lists : HashMap String (List A))
      → 0 < length lists
      → NoRepeats lists
      → (items : List A) × (deal_get_program_accounts_res serde lists ≡ ok items)
        × ((t : Json) → (0 < count t (texts serde items)) ↔ ListedByAll t lists)
  unfolding deal_get_program_accounts_res
  deal_get_program_accounts_res_iff = agreed_iff

  -- Where at least one node answered, and no node lists a signature twice, the answer is a list of
  -- exactly the signatures that every node lists.
  pub deal_get_signatures_for_address_res_iff :
      (lists : HashMap String (List A))
      → 0 < length lists
      → NoRepeats lists
      → (items : List A) × (deal_get_signatures_for_address_res serde lists ≡ ok items)
        × ((t : Json) → (0 < count t (texts serde items)) ↔ ListedByAll t lists)
  unfolding deal_get_signatures_for_address_res
  deal_get_signatures_for_address_res_iff = agreed_iff

  -- One node that lists an item twice counts as two: of two nodes, the second of which lists
  -- nothing, an item of the first is still returned.
  pub deal_get_signatures_for_address_res_twice :
      (u v : String) (x : A)
      → deal_get_signatures_for_address_res serde ((u, x ∷ x ∷ []) ∷ (v, []) ∷ []) ≡ ok (x ∷ [])
  unfolding deal_get_signatures_for_address_res all_texts counted_as parse_all tally_into bump
      HashMap.get HashMap.insert
  deal_get_signatures_for_address_res_twice u v x =
      ground (arith, beq_self (serde.to_json x), serde.round_trip x)
