-- ===== src/Daemon/Reply.antt =====
-- `parse_jsonrpc_reply` of src/daemon.rs: what a reply of the node is taken for.
use sxn_spv.Common.{
  ℕ, ◌≡◌, ◌↔◌, inl, inr, refl, ap, String, Bool, true, false, Option, none, some, List, ◌==◌,
  if◌then◌else◌, Option-cases, Bool-cases, arith,
}
use sxn_spv.Common.Outcome.{Outcome, ok, err}

-- `i64`
pub data ℤ : Type 0 where
  pos : ℕ → ℤ
  negsuc : ℕ → ℤ

-- JSON values, with what the client asks of them: whether a value is an object, its field with a name,
-- and what kind of value it is otherwise. `request` is the object of a call.
pub record Rpc : Type 1 where
  pub Value : Type 0
  pub is_object : Value → Bool
  pub field : Value → String → Option Value
  pub is_null : Value → Bool
  pub is_number : ℕ → Value → Bool
  pub as_i64 : Value → Option ℤ
  pub as_u64 : Value → Option ℕ
  pub as_str : Value → Option String
  pub as_array : Value → Option (List Value)
  pub of_string : String → Value
  pub of_number : ℕ → Value
  pub of_bool : Bool → Value
  pub of_array : List Value → Value
  pub request : String → Value → ℕ → Value

some-injective {ℓ} : {A : Type ℓ} {a b : A} → some a ≡ some b → a ≡ b
some-injective h = cc

-- `-28`
abbrev pub is_warmup : ℤ → Bool
is_warmup (pos n) = false
is_warmup (negsuc n) = n == 27

module _ (rpc : Rpc) where
  open rpc use {Value}

  pub data ReplyError : Type 0 where
    in_warmup : Value → ReplyError
    rpc_error : String → Value → ReplyError
    no_id no_result : Value → ReplyError
    wrong_id : String → Value → ℕ → ReplyError
    non_object : Value → ReplyError

  open rpc use {is_object, field, is_null, is_number, as_i64}

  abbrev pub integer_of : Option Value → Option ℤ
  integer_of none = none
  integer_of (some code) = as_i64 code

  unfoldable pub parse_error_code : Value → Option ℤ
  parse_error_code e = if is_object e then integer_of (field e "code") else none

  -- The error that the field `error` stands for, if any: one without a code is passed over.
  abbrev pub coded : String → Value → Option ℤ → Option ReplyError
  coded method e none = none
  coded method e (some code) = some (if is_warmup code then in_warmup e else rpc_error method e)

  abbrev pub reported : String → Option Value → Option ReplyError
  reported method none = none
  reported method (some e) = if is_null e then none else coded method e (parse_error_code e)

  abbrev pub result_of : Value → Option Value → Outcome ReplyError Value
  result_of reply none = err (no_result reply)
  result_of reply (some result) = ok result

  abbrev pub identified : String → ℕ → Value → Option Value → Outcome ReplyError Value
  identified method expected_id reply none = err (no_id reply)
  identified method expected_id reply (some id) =
      if is_number expected_id id
      then result_of reply (field reply "result")
      else err (wrong_id method id expected_id)

  abbrev pub unless_reported : String → ℕ → Value → Option ReplyError → Outcome ReplyError Value
  unless_reported method expected_id reply (some e) = err e
  unless_reported method expected_id reply none =
      identified method expected_id reply (field reply "id")

  unfoldable pub parse_jsonrpc_reply : Value → String → ℕ → Outcome ReplyError Value
  parse_jsonrpc_reply reply method expected_id =
      if is_object reply
      then unless_reported method expected_id reply (reported method (field reply "error"))
      else err (non_object reply)

  abbrev pub IsUncoded : Option Value → Type 0
  IsUncoded o =
      (e : Value) (code : ℤ) → o ≡ some e → is_null e ≡ false → ¬ (parse_error_code e ≡ some code)

  reported_iff : (method : String) (o : Option Value) → (reported method o ≡ none) ↔ IsUncoded o
  reported_iff method none = (λ h e code at. absurd (ground (arith, at)), λ h. refl)
  reported_iff method (some e) = elim (Bool-cases (is_null e)) [
    | inl null ↦ (
      λ h f code at proper. ground (arith, null, proper, ap is_null (some-injective at)),
      λ h. rw null refl,
    )
    | inr proper ↦ elim (Option-cases (parse_error_code e)) [
      | inl plain ↦ (
        λ h f code at _ there.
            ground (arith, plain, there, ap parse_error_code (some-injective at)),
        λ h. rw (proper, plain) refl,
      )
      | inr (code, there) ↦ (
        λ h. absurd (ground (arith, rw (proper, there) at h)),
        λ h. absurd (h e code refl proper there),
      )
    ]
  ]

  result_of_iff :
      (reply result : Value) (o : Option Value)
      → (result_of reply o ≡ ok result) ↔ (o ≡ some result)
  result_of_iff reply result none = ground arith
  result_of_iff reply result (some v) = ground arith

  identified_iff :
      (method : String) (expected_id : ℕ) (reply result : Value) (o : Option Value)
      → (identified method expected_id reply o ≡ ok result) ↔ (
          ((id : Value) × (o ≡ some id) × (is_number expected_id id ≡ true))
          × (field reply "result" ≡ some result))
  identified_iff method expected_id reply result none =
      (λ h. absurd (ground (arith, h)), λ h. absurd (ground (arith, h.0.1)))
  identified_iff method expected_id reply result (some id) =
      let found = result_of_iff reply result (field reply "result") in
      elim (Bool-cases (is_number expected_id id)) [
        | inl same ↦ rw same (λ h. ((id, refl, same), found.0 h), λ h. found.1 h.1)
        | inr other ↦ (
          λ h. absurd (ground (arith, rw other at h)),
          λ h.
              absurd
                (ground (arith, other, h.0.2, ap (is_number expected_id) (some-injective h.0.1))),
        )
      ]

  -- A reply is taken for a result if and only if it is an object, carries no error with a code, has the
  -- number of the request as its id, and has that result.
  pub parse_jsonrpc_reply_iff :
      (reply : Value) (method : String) (expected_id : ℕ) (result : Value)
      → (parse_jsonrpc_reply reply method expected_id ≡ ok result) ↔ (
          (is_object reply ≡ true)
          × IsUncoded (field reply "error")
          × ((id : Value) × (field reply "id" ≡ some id) × (is_number expected_id id ≡ true))
          × (field reply "result" ≡ some result))
  unfolding parse_jsonrpc_reply
  parse_jsonrpc_reply_iff reply method expected_id result =
      let clean = reported_iff method (field reply "error") in
      let found = identified_iff method expected_id reply result (field reply "id") in
      elim (Bool-cases (is_object reply)) [
        | inl object ↦ elim (Option-cases (reported method (field reply "error"))) [
          | inl none_ ↦
              rw (object, none_)
                (λ h. let f = found.0 h in (refl, clean.0 none_, f.0, f.1), λ h. found.1 (h.2, h.3))
          | inr (e, coded_) ↦ (
            λ h. absurd (ground (arith, rw (object, coded_) at h)),
            λ h. absurd (ground (arith, coded_, clean.1 h.1)),
          )
        ]
        | inr other ↦
            (λ h. absurd (ground (arith, rw other at h)), λ h. absurd (ground (arith, other, h.0)))
      ]
