-- ===== src/Header/MedianTime.antt =====
-- `HeaderList::get_mtp` of src/header.rs, the median time past: the upper median of the times of the
-- last eleven headers up to a height.
use sxn_spv.Common.{
  ℕ, zero, suc, ◌+◌, ◌-◌, ◌/◌, ◌≤◌, ◌<◌, ◌≡◌, refl, false, some, List, [], ◌∷◌, map, length,
  get_elem?, get_elem?-some, take, drop, drop_at, ltb, leb, ◌==◌, if◌then◌else◌, arith,
}
use sxn_spv.Common.Outcome.{Panics, ok, panic, ◌>>=◌, unwrap}
use sxn_spv.Common.Sorting.{sort, sort-IsSorted, length-sort, count_if, count_if-sort, rank}
use sxn_spv.Bitcoin.{Bitcoin}
use sxn_spv.Header.{HeaderList, mtp_span}

-- `height.saturating_sub(MTP_SPAN - 1)`
abbrev pub window_start : ℕ → ℕ
window_start height = height - (mtp_span - 1)

module _ {bitcoin : Bitcoin} where
  open bitcoin use {time}

  -- The times of `rounds` headers from height `p_height` on.
  unfoldable pub times_from : HeaderList bitcoin → ℕ → ℕ → Panics (List ℕ)
  times_from hl zero p_height = ok []
  times_from hl (suc rounds) p_height = do
    entry ← unwrap (get_elem? hl.headers p_height)
    rest ← times_from hl rounds (p_height + 1)
    ok (time entry.header ∷ rest)

  unfoldable pub get_mtp : HeaderList bitcoin → ℕ → Panics ℕ
  get_mtp hl height =
      if height == 0
      then (do entry ← unwrap (get_elem? hl.headers 0); ok (time entry.header))
      else if length hl.headers == 0
      then panic
      else if ltb (length hl.headers - 1) height
      then ok 0
      else do
        timestamps ← times_from hl (height + 1 - window_start height) (window_start height)
        unwrap (get_elem? (sort timestamps) (length timestamps / 2))

  -- The times of the entries in a range of heights.
  abbrev pub times : HeaderList bitcoin → ℕ → ℕ → List ℕ
  times hl start rounds = map (λ e. time e.header) (take rounds (drop start hl.headers))

  times_from_lem :
      (hl : HeaderList bitcoin) (rounds start : ℕ)
      → start + rounds ≤ length hl.headers
      → (times_from hl rounds start ≡ ok (times hl start rounds))
        × (length (times hl start rounds) ≡ rounds)
  unfolding times_from
  times_from_lem hl zero start h = (refl, refl)
  times_from_lem hl (suc rounds) start h =
      let (e, at) = get_elem?-some hl.headers start (omega arith) in
      let (done, size) = times_from_lem hl rounds (start + 1) (omega arith) in
      let cut : drop start hl.headers ≡ e ∷ drop (start + 1) hl.headers =
        drop_at start hl.headers e at in
      (rw (at, done, cut), rw cut (omega (arith, size)))

  get_mtp_lem :
      (hl : HeaderList bitcoin) (height n t : ℕ) (window : List ℕ)
      → 0 < height
      → height < length hl.headers
      → times_from hl (height + 1 - window_start height) (window_start height) ≡ ok window
      → length window ≡ n
      → get_elem? (sort window) (n / 2) ≡ some t
      → get_mtp hl height ≡ ok t
  unfolding get_mtp
  get_mtp_lem hl height n t window pos below read size at =
      let nonzero : (height == 0) ≡ false = ground arith in
      let filled : (length hl.headers == 0) ≡ false = ground arith in
      let inside : ltb (length hl.headers - 1) height ≡ false = ground arith in
      rw (nonzero, filled, inside, read, size, at)

  -- `get_mtp` at a height of the chain above the genesis block is a median of the times of the up
  -- to eleven headers that end there: at most half of them are earlier, and more than half are not
  -- later.
  pub get_mtp_median :
      (hl : HeaderList bitcoin) (height : ℕ)
      → 0 < height
      → height < length hl.headers
      → (t : ℕ) × (get_mtp hl height ≡ ok t)
        × (count_if (λ y. ltb y t) (times hl (height - 10) (height + 1 - (height - 10)))
            ≤ (height + 1 - (height - 10)) / 2)
        × ((height + 1 - (height - 10)) / 2
            < count_if (λ y. leb y t) (times hl (height - 10) (height + 1 - (height - 10))))
  get_mtp_median hl height pos below =
      let start = height - 10 in
      let rounds = height + 1 - start in
      let window = times hl start rounds in
      let (done, size) = times_from_lem hl rounds start (omega arith) in
      let (t, at) =
        get_elem?-some (sort window) (rounds / 2) (omega (arith, size, length-sort window)) in
      let (few, most) = rank (rounds / 2) t (sort window) (sort-IsSorted window) at in
      (
        t,
        get_mtp_lem hl height rounds t window pos below done size at,
        rw count_if-sort at few,
        rw count_if-sort at most,
      )
