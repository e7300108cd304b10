-- ===== src/Store/Tests.antt =====
-- A database that holds one block, and the round that adds a second.
use sxn_spv.Common.{
  ℕ, zero, suc, ◌≡◌, ◌⊎◌, inl, inr, refl, sym, ap, ◌∙◌, some, List, [], ◌∷◌, get_elem?, arith,
}
use mathlib.Core.Path.{subst}
use sxn_spv.Common.Classes.{nat_eq}
use sxn_spv.Common.Order.{bytes_ord}
use sxn_spv.Common.HashMap
use sxn_spv.Common.BTreeMap
use sxn_spv.Header.{HeaderEntry, HeaderList}
use sxn_spv.Header.Chain.{NoCollision}
use sxn_spv.Header.Apply.{Indexed, IsValid}
use sxn_spv.Store.{Db, get}
use sxn_spv.Store.Reopen.{IsStored, Compatible}
use sxn_spv.Store.Synced.{Covers}
use sxn_spv.Store.Sample.{Block, test_bitcoin, hash_32, test_codec}

abbrev first_entry : HeaderEntry test_bitcoin
first_entry = record { height = 0; hash = 1; header = (0, 1) }

abbrev second_entry : HeaderEntry test_bitcoin
second_entry = record { height = 1; hash = 2; header = (1, 2) }

abbrev one : HeaderList test_bitcoin
one = record { headers = first_entry ∷ []; heights = (1, 0) ∷ []; tip = 1 }

abbrev two : HeaderList test_bitcoin
two = record { headers = first_entry ∷ second_entry ∷ []; heights = (1, 0) ∷ (2, 1) ∷ []; tip = 2 }

abbrev stored : Db
stored =
    (68 ∷ hash_32 1, 77 ∷ []) ∷ (98 ∷ hash_32 1, 77 ∷ 0 ∷ 1 ∷ []) ∷ (116 ∷ [], 77 ∷ hash_32 1) ∷ []

one-Indexed : Indexed one
unfolding HashMap.get
one-Indexed zero e at = ground arith
one-Indexed (suc i) e at = ground arith

two-Indexed : Indexed two
unfolding HashMap.get
two-Indexed zero e at = ground arith
two-Indexed (suc zero) e at = ground arith
two-Indexed (suc (suc i)) e at = ground arith

one-IsValid : IsValid one
one-IsValid = record { linked = (refl, refl, refl, tt); tip_last = refl; indexed = one-Indexed }

two-IsValid : IsValid two
two-IsValid = record {
  linked = (refl, refl, refl, (refl, refl, refl, tt));
  tip_last = refl;
  indexed = two-Indexed;
}

-- An entry of `two` is the first or the second.
which :
    (i : ℕ) (e : HeaderEntry test_bitcoin)
    → get_elem? two.headers i ≡ some e
    → (first_entry ≡ e) ⊎ (second_entry ≡ e)
which zero e at = inl (cc)
which (suc zero) e at = inr (cc)
which (suc (suc i)) e at = absurd (ground arith)

only : (i : ℕ) (e : HeaderEntry test_bitcoin) → get_elem? one.headers i ≡ some e → first_entry ≡ e
only zero e at = cc
only (suc i) e at = absurd (ground arith)

abbrev header_of : HeaderEntry test_bitcoin → Block
header_of e = e.header

abbrev hash_of : HeaderEntry test_bitcoin → ℕ
hash_of e = e.header.1

two-NoCollision : NoCollision two.headers
two-NoCollision = record {
  injective = λ i j a b at bt same. elim (which i a at) [
    | inl fa ↦ elim (which j b bt) [
      | inl fb ↦ sym (ap header_of fa) ∙ ap header_of fb
      | inr sb ↦ let h : 1 ≡ 2 = ap hash_of fa ∙ same ∙ sym (ap hash_of sb) in absurd (omega arith)
    ]
    | inr sa ↦ elim (which j b bt) [
      | inl fb ↦ let h : 2 ≡ 1 = ap hash_of sa ∙ same ∙ sym (ap hash_of fb) in absurd (omega arith)
      | inr sb ↦ sym (ap header_of sa) ∙ ap header_of sb
    ]
  ];
  nonzero = λ i a at null. elim (which i a at) [
    | inl fa ↦ let h : 1 ≡ 0 = ap hash_of fa ∙ null in absurd (omega arith)
    | inr sa ↦ let h : 2 ≡ 0 = ap hash_of sa ∙ null in absurd (omega arith)
  ];
}

one-NoCollision : NoCollision one.headers
one-NoCollision = record {
  injective = λ i j a b at bt same. sym (ap header_of (only i a at)) ∙ ap header_of (only j b bt);
  nonzero = λ i a at null. let h : 1 ≡ 0 = ap hash_of (only i a at) ∙ null in absurd (omega arith);
}

first_held : get test_codec stored (98 ∷ hash_32 1) ≡ some (0 ∷ 1 ∷ [])
unfolding get BTreeMap.get
first_held = refl

tip_held : get test_codec stored (116 ∷ []) ≡ some (hash_32 1)
unfolding get BTreeMap.get
tip_held = refl

one-IsStored : IsStored test_codec stored one
one-IsStored = record {
  readable = record {
    sorted = ((refl, (refl, tt)), ((refl, tt), (tt, tt)));
    rows = (
      λ h. absurd (ground arith),
      (λ h. (1, (0, 1), refl, refl), (λ h. absurd (ground arith), tt)),
    );
  };
  held = λ i e at.
      subst
        (λ (x : HeaderEntry test_bitcoin).
          get test_codec stored (98 ∷ hash_32 x.hash) ≡ some (x.header.0 ∷ x.header.1 ∷ []))
        (only i e at) first_held;
  tip = tip_held;
}

abbrev new : List (HeaderEntry test_bitcoin)
new = second_entry ∷ []

one-Compatible : Compatible test_codec one new
one-Compatible i e at = (
  λ same.
      let h : 1 ≡ 2 = ap (λ (x : HeaderEntry test_bitcoin). x.hash) (only i e at) ∙ sym same in
      absurd (omega arith),
  tt,
)

two-Compatible : Compatible test_codec two new
two-Compatible i e at = (
  λ same. elim (which i e at) [
    | inl fe ↦
        let h : 1 ≡ 2 = ap (λ (x : HeaderEntry test_bitcoin). x.hash) fe ∙ sym same in
        absurd (omega arith)
    | inr se ↦ ap header_of se
  ],
  tt,
)

two-Covers : Covers test_codec one new two
two-Covers i e at = elim (which i e at) [
  | inl fe ↦ inl (0, ap some fe)
  | inr se ↦ inr (0, ap some se)
]
