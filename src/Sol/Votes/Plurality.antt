-- ===== src/Sol/Votes/Plurality.antt =====
-- The answer of the vote is the one that strictly more nodes gave than any other answer.
use sxn_spv.Common.{
  ℕ, ◌≤◌, ◌<◌, ◌≡◌, ◌≢◌, ◌↔◌, refl, sym, ap, ◌∙◌, inl, inr, false, Option, none, some, List, [],
  ◌∷◌, ◌==◌, Bool-cases, Option-cases, arith,
}
use sxn_spv.Common.Outcome.{ok}
use sxn_spv.Common.Classes.{Eq, beq_self}
use sxn_spv.Common.HashMap
use sxn_spv.Common.HashMap.{HashMap, UniqueKeys}
use sxn_spv.Common.Tally.{tally, count, get-tally, tally-UniqueKeys}
use sxn_spv.Sol.Types.{Message}
use sxn_spv.Sol.Votes.{max_value, count_value, later_max, max_by_count, key_of, most_counted}

module _ {ℓ} {A : Type ℓ} ⦃e : Eq A⦄ where
  max_value-ge : (m : HashMap A ℕ) (a : A) (n : ℕ) → HashMap.get a m ≡ some n → n ≤ max_value m
  unfolding max_value HashMap.get
  max_value-ge [] a n h = ground arith
  max_value-ge ((j, w) ∷ m) a n h = ground (arith, max_value-ge m a n)

  abbrev count_of : Option (A × ℕ) → ℕ
  count_of none = 0
  count_of (some x) = x.1

  -- The entry that `max_by_count` picks has the largest count.
  max_by_count-max : (m : HashMap A ℕ) → count_of (max_by_count m) ≡ max_value m
  unfolding max_value max_by_count later_max
  max_by_count-max [] = refl
  max_by_count-max ((j, w) ∷ m) = ground (arith, max_by_count-max m)

  max_by_count-get :
      (m : HashMap A ℕ) (a : A) (n : ℕ)
      → UniqueKeys m
      → max_by_count m ≡ some (a, n)
      → HashMap.get a m ≡ some n
  unfolding max_by_count later_max HashMap.get
  max_by_count-get [] a n u h = ground arith
  max_by_count-get ((j, w) ∷ m) a n u h = ground (arith, e.beq_iff j a, max_by_count-get m a n u.1)

  count_value-pos :
      (m : HashMap A ℕ) (a : A) (n : ℕ) → HashMap.get a m ≡ some n → 0 < count_value n m
  unfolding count_value HashMap.get
  count_value-pos [] a n h = ground arith
  count_value-pos ((j, w) ∷ m) a n h = ground (arith, count_value-pos m a n)

  -- Two keys with one count make that count occur twice.
  count_value-two :
      (m : HashMap A ℕ) (a b : A) (n : ℕ)
      → HashMap.get a m ≡ some n
      → HashMap.get b m ≡ some n
      → a ≢ b
      → 1 < count_value n m
  unfolding count_value HashMap.get
  count_value-two [] a b n h g other = ground arith
  count_value-two ((j, w) ∷ m) a b n h g other = ground (
    arith,
    e.beq_iff j a,
    e.beq_iff j b,
    count_value-pos m a n,
    count_value-pos m b n,
    count_value-two m a b n,
  )

  -- What a vote won by `a` says of the counts.
  Wins : HashMap A ℕ → A → ℕ → Type ℓ
  Wins m a n =
      (HashMap.get a m ≡ some n) × ((b : A) (k : ℕ) → b ≢ a → HashMap.get b m ≡ some k → k < n)

  most_counted-Wins :
      (missing : Message) (m : HashMap A ℕ) (a : A)
      → UniqueKeys m
      → most_counted missing m ≡ ok a
      → (n : ℕ) × Wins m a n
  unfolding most_counted Wins
  most_counted-Wins missing m a u h = elim (Option-cases (max_by_count m)) [
    | inl nobody ↦ ground arith
    | inr ((a', n), best) ↦
        let here : a' ≡ a = ground arith in
        let got : HashMap.get a m ≡ some n = rw here at (max_by_count-get m a' n u best) in
        let top : n ≡ max_value m = ground (arith, max_by_count-max m) in
        let alone : count_value (max_value m) m ≤ 1 = ground arith in
        (
          n,
          (
            got,
            λ b k other g. ground (arith, max_value-ge m b k g, top, count_value-two m a b n got),
          ),
        )
  ]

  get_here : (j : A) (w : ℕ) (m : HashMap A ℕ) → HashMap.get j ((j, w) ∷ m) ≡ some w
  unfolding HashMap.get
  get_here j w m = ground (arith, beq_self j)

  get_tail :
      (j b : A) (w k : ℕ) (m : HashMap A ℕ)
      → UniqueKeys ((j, w) ∷ m)
      → HashMap.get b m ≡ some k
      → (b ≢ j) × (HashMap.get b ((j, w) ∷ m) ≡ some k)
  unfolding HashMap.get
  get_tail j b w k m u g =
      (λ same. cc (u.0, g, ap (λ (x : A). HashMap.get x m) same), ground (arith, e.beq_iff j b))

  get_past :
      (j a : A) (w : ℕ) (m : HashMap A ℕ)
      → e.beq j a ≡ false
      → HashMap.get a m ≡ HashMap.get a ((j, w) ∷ m)
  unfolding HashMap.get
  get_past j a w m other = rw other

  get_nothing : (a : A) (n : ℕ) → HashMap.get {V = ℕ} a [] ≢ some n
  unfolding HashMap.get
  get_nothing a n h = cc

  none_above :
      (m : HashMap A ℕ) (n : ℕ)
      → UniqueKeys m
      → 0 < n
      → ((b : A) (k : ℕ) → HashMap.get b m ≡ some k → k < n)
      → (max_value m < n) × (count_value n m ≡ 0)
  unfolding max_value count_value
  none_above [] n u pos h = (pos, refl)
  none_above ((j, w) ∷ m) n u pos h =
      let below : (max_value m < n) × (count_value n m ≡ 0) =
        none_above m n u.1 pos (λ b k g. h b k (get_tail j b w k m u g).1) in
      ground (arith, below, h j w (get_here j w m))

  -- The entry of the winner, with what the other entries leave it.
  winner_first :
      (j a : A) (k n : ℕ) (m : HashMap A ℕ)
      → j ≡ a
      → k ≡ n
      → max_value m < n
      → count_value n m ≡ 0
      → (max_value ((j, k) ∷ m) ≡ n)
        × (count_value n ((j, k) ∷ m) ≡ 1)
        × (key_of (max_by_count ((j, k) ∷ m)) ≡ some a)
  unfolding max_value count_value max_by_count later_max
  winner_first j a k n m here size below no_other = ground (arith, max_by_count-max m)

  winner_later :
      (j a : A) (k n : ℕ) (m : HashMap A ℕ)
      → k < n
      → max_value m ≡ n
      → count_value n m ≡ 1
      → key_of (max_by_count m) ≡ some a
      → (max_value ((j, k) ∷ m) ≡ n)
        × (count_value n ((j, k) ∷ m) ≡ 1)
        × (key_of (max_by_count ((j, k) ∷ m)) ≡ some a)
  unfolding max_value count_value max_by_count later_max
  winner_later j a k n m less top once key = ground (arith, max_by_count-max m)

  Wins-entry :
      (m : HashMap A ℕ) (a : A) (n : ℕ)
      → UniqueKeys m
      → 0 < n
      → Wins m a n
      → (max_value m ≡ n) × (count_value n m ≡ 1) × (key_of (max_by_count m) ≡ some a)
  unfolding Wins
  Wins-entry [] a n u pos w = absurd (get_nothing a n w.0)
  Wins-entry ((j, k) ∷ m) a n u pos w = elim (Bool-cases (e.beq j a)) [
    | inl same ↦
        let here : j ≡ a = (e.beq_iff j a).0 same in
        let size : k ≡ n =
          ground (arith, get_here j k m, ap (λ (x : A). HashMap.get x ((j, k) ∷ m)) here, w.0) in
        let below = none_above m n u.1 pos (λ b q g.
          let (apart, at) = get_tail j b k q m u g in w.1 b q (λ eq. apart (eq ∙ sym here)) at) in
        winner_first j a k n m here size below.0 below.1
    | inr other ↦
        let apart : j ≢ a = ground (arith, e.beq_iff j a) in
        let less = w.1 j k apart (get_here j k m) in
        let got : HashMap.get a m ≡ some n = get_past j a k m other ∙ w.0 in
        let (top, once, key) =
          Wins-entry m a n u.1 pos (got, λ b q o g. w.1 b q o (get_tail j b k q m u g).1) in
        winner_later j a k n m less top once key
  ]

  Wins-most_counted :
      (missing : Message) (m : HashMap A ℕ) (a : A) (n : ℕ)
      → UniqueKeys m
      → 0 < n
      → Wins m a n
      → most_counted missing m ≡ ok a
  unfolding most_counted
  Wins-most_counted missing m a n u pos w =
      let (top, once, key) = Wins-entry m a n u pos w in rw (top, once, key)

  Wins-tally :
      (xs : List A) (a : A)
      → 0 < count a xs
      → ((b : A) → b ≢ a → count b xs < count a xs)
      → Wins (tally xs) a (count a xs)
  unfolding Wins
  Wins-tally xs a pos more = (
    (get-tally xs a (count a xs)).1 (refl, pos),
    λ b k other g. omega (arith, ((get-tally xs b k).0 g).0, more b other),
  )

  tally-Wins :
      (xs : List A) (a : A) (n : ℕ)
      → Wins (tally xs) a n
      → (0 < count a xs) × ((b : A) → b ≢ a → count b xs < count a xs)
  unfolding Wins
  tally-Wins xs a n w =
      let (same, pos) = (get-tally xs a n).0 w.0 in
      (
        omega arith,
        λ b other. elim (Bool-cases (count b xs == 0)) [
          | inl nobody ↦ ground arith
          | inr some_ ↦ ground (
            arith,
            w.1 b (count b xs) other ((get-tally xs b (count b xs)).1 (refl, ground arith)),
          )
        ],
      )

  -- An answer is returned exactly when somebody gave it and more nodes gave it than gave any other
  -- answer. It need not be the answer of more than half of them.
  pub most_counted_iff :
      (missing : Message) (xs : List A) (a : A)
      → (most_counted missing (tally xs) ≡ ok a)
        ↔ ((0 < count a xs) × ((b : A) → b ≢ a → count b xs < count a xs))
  most_counted_iff missing xs a = (
    λ won.
        let (n, w) = most_counted-Wins missing (tally xs) a (tally-UniqueKeys xs) won in
        tally-Wins xs a n w,
    λ (pos, more).
        Wins-most_counted missing (tally xs) a (count a xs) (tally-UniqueKeys xs) pos
          (Wins-tally xs a pos more),
  )
