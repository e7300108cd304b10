-- ===== src/Store/Scan.antt =====
-- A scan of a sorted database reads what stands under each key with the prefix.
use sxn_spv.Common.{ℕ, ◌≡◌, refl, ap, ◌∙◌, true, false, inl, inr, [], ◌∷◌, Bool-cases, All, arith}
use sxn_spv.Common.Order.{bytes_ord}
use sxn_spv.Common.BTreeMap
use sxn_spv.Common.BTreeMap.{BTreeMap, IsSorted, Above, get-Above, Above-trans}
use sxn_spv.Bitcoin.{Bitcoin}
use sxn_spv.Store.{
  Bytes, Db, Codec, starts_with, skip_below, take_prefix, unseal_some, get, iter_scan,
}

-- The rows from the first that is not below the prefix on.
skip-IsSorted : (c : ℕ) (db : Db) → IsSorted db → IsSorted (skip_below (c ∷ []) db)
skip-IsSorted c [] s = tt
skip-IsSorted c ((k, v) ∷ db) s = ground (arith, skip-IsSorted c db s.1)

bytes-lt_nil : (bs : Bytes) → bytes_ord.lt bs [] ≡ false
bytes-lt_nil [] = refl
bytes-lt_nil (b ∷ bs) = refl

-- No key is below the prefix.
abbrev NotBelow : ℕ → Db → Type 0
NotBelow c [] = Unit
NotBelow c ((k, v) ∷ db) = bytes_ord.lt k (c ∷ []) ≡ false

skip-NotBelow : (c : ℕ) (db : Db) → NotBelow c (skip_below (c ∷ []) db)
skip-NotBelow c [] = tt
skip-NotBelow c ((k, v) ∷ db) = ground (arith, skip-NotBelow c db)

rest-NotBelow :
    (c : ℕ) (k v : Bytes) (db : Db) → NotBelow c ((k, v) ∷ db) → Above k db → NotBelow c db
rest-NotBelow c k v [] low a = tt
rest-NotBelow c k v ((j, w) ∷ db) low a = elim (Bool-cases (bytes_ord.lt j (c ∷ []))) [
  | inl below ↦ absurd (ground (arith, bytes_ord.lt_trans k j (c ∷ []) a.0 below))
  | inr fine ↦ fine
]

get-skip :
    (c : ℕ) (key : Bytes) (db : Db)
    → BTreeMap.get (c ∷ key) (skip_below (c ∷ []) db) ≡ BTreeMap.get (c ∷ key) db
unfolding BTreeMap.get
get-skip c key [] = refl
get-skip c key (([], v) ∷ db) = get-skip c key db
get-skip c key ((b ∷ bs, v) ∷ db) = ground (arith, get-skip c key db, bytes-lt_nil bs)

module _ {bitcoin : Bitcoin} (codec : Codec bitcoin) where
  get-take :
      (c : ℕ) (key : Bytes) (db : Db)
      → IsSorted db
      → NotBelow c db
      → BTreeMap.get (c ∷ key) (take_prefix codec (c ∷ []) db)
        ≡ unseal_some codec (BTreeMap.get (c ∷ key) db)
  unfolding BTreeMap.get
  get-take c key [] s low = refl
  get-take c key (([], v) ∷ db) s low = absurd (ground arith)
  get-take c key ((b ∷ bs, v) ∷ db) s low =
      let rest = get-take c key db s.1 (rest-NotBelow c (b ∷ bs) v db low s.0) in
      let above = λ (more : bytes_ord.lt (c ∷ key) (b ∷ bs) ≡ true).
        get-Above (c ∷ key) db (Above-trans (c ∷ key) (b ∷ bs) db more s.0) in
      ground (arith, rest, above, low)

  take-Above :
      (k : Bytes) (prefix : Bytes) (db : Db) → Above k db → Above k (take_prefix codec prefix db)
  take-Above k prefix [] a = tt
  take-Above k prefix ((j, w) ∷ db) a = ground (arith, take-Above k prefix db a.1)

  take-IsSorted : (prefix : Bytes) (db : Db) → IsSorted db → IsSorted (take_prefix codec prefix db)
  take-IsSorted prefix [] s = tt
  take-IsSorted prefix ((k, v) ∷ db) s =
      ground (arith, take-IsSorted prefix db s.1, take-Above k prefix db s.0)

  pub iter_scan-IsSorted : (c : ℕ) (db : Db) → IsSorted db → IsSorted (iter_scan codec db (c ∷ []))
  unfolding iter_scan
  iter_scan-IsSorted c db s = take-IsSorted (c ∷ []) (skip_below (c ∷ []) db) (skip-IsSorted c db s)

  -- Under a key that begins with the code, a scan for the code has the value of the database.
  pub get-iter_scan :
      (c : ℕ) (key : Bytes) (db : Db)
      → IsSorted db
      → BTreeMap.get (c ∷ key) (iter_scan codec db (c ∷ [])) ≡ get codec db (c ∷ key)
  unfolding iter_scan get
  get-iter_scan c key db s =
      get-take c key (skip_below (c ∷ []) db) (skip-IsSorted c db s) (skip-NotBelow c db)
      ∙ ap (unseal_some codec) (get-skip c key db)

  -- A predicate of the rows of the code holds of every row that a scan reads.
  module _ {κ} (P : Bytes → Bytes → Type κ) where
    abbrev pub Rows : ℕ → Db → Type κ
    Rows c = All (λ r. starts_with (c ∷ []) r.0 ≡ true → P r.0 (codec.unseal_data r.1))

    skip-Rows : (c : ℕ) (db : Db) → Rows c db → Rows c (skip_below (c ∷ []) db)
    skip-Rows c [] a = tt
    skip-Rows c ((k, v) ∷ db) a = elim (Bool-cases (bytes_ord.lt k (c ∷ []))) [
      | inl below ↦ rw below (skip-Rows c db a.1)
      | inr fine ↦ rw fine a
    ]

    take-Rows : (c : ℕ) (db : Db) → Rows c db → All (λ r. P r.0 r.1) (take_prefix codec (c ∷ []) db)
    take-Rows c [] a = tt
    take-Rows c ((k, v) ∷ db) a = elim (Bool-cases (starts_with (c ∷ []) k)) [
      | inl here ↦ rw here (a.0 here, take-Rows c db a.1)
      | inr past ↦ rw past tt
    ]

    pub iter_scan-Rows :
        (c : ℕ) (db : Db) → Rows c db → All (λ r. P r.0 r.1) (iter_scan codec db (c ∷ []))
    unfolding iter_scan
    iter_scan-Rows c db a = take-Rows c (skip_below (c ∷ []) db) (skip-Rows c db a)
