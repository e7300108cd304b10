-- ===== src/Daemon/Tests.antt =====
-- A node with three blocks.
use sxn_spv.Common.{
  ℕ, zero, suc, ◌<◌, ◌≡◌, ◌⊎◌, inl, inr, refl, sym, ap, ◌∙◌, String, false, some, List, [], ◌∷◌,
  ◌==◌, ==_iff, get_elem?, if◌then◌else◌, arith,
}
use sxn_spv.Common.Outcome.{Outcome, ok}
use sxn_spv.Common.Classes.{nat_eq}
use sxn_spv.Common.HashMap
use sxn_spv.Bitcoin.{Bitcoin, BlockHash}
use sxn_spv.Header.{HeaderEntry, HeaderList, header_by_blockhash, is_empty}
use sxn_spv.Header.Chain.{NoCollision}
use sxn_spv.Header.Apply.{Indexed, IsValid}
use sxn_spv.Daemon.{
  Daemon, DaemonError, range_from, chunks, download, assert_chain, get_all_headers, headers_back,
  get_new_headers,
}
use sxn_spv.Daemon.NewHeaders.{IsHonest, headers_back_total}

-- A header is the hash before it, and its own hash.
abbrev Block : Type 0
Block = ℕ × ℕ

abbrev test_bitcoin : Bitcoin
test_bitcoin = record {
  BlockHeader = Block;
  prev_blockhash = λ b. b.0;
  merkle_root = λ b. 0;
  time = λ b. 0;
  block_hash = λ b. b.1;
}

abbrev genesis : Block
genesis = (0, 1)

abbrev header_for : ℕ → String ⊎ Block
header_for h = if h == 2 then inr (1, 2) else if h == 3 then inr (2, 3) else inl "no such block"

abbrev test_daemon : Daemon test_bitcoin
test_daemon = record {
  block_height = λ h. inr (some 2);
  getblockheaders = λ heights. inr (genesis ∷ (1, 2) ∷ (2, 3) ∷ []);
  getblockheader = header_for;
}

abbrev one : HeaderList test_bitcoin
one = record {
  headers = (record { height = 0; hash = 1; header = genesis }) ∷ [];
  heights = (1, 0) ∷ [];
  tip = 1;
}

program : Unit {0}
unfolding range_from chunks download assert_chain get_all_headers headers_back get_new_headers
    header_by_blockhash is_empty HashMap.get
program = tt

one-Indexed : Indexed one
unfolding HashMap.get
one-Indexed zero e at = ground arith
one-Indexed (suc i) e at = ground arith

one-IsValid : IsValid one
one-IsValid = record { linked = (refl, refl, refl, tt); tip_last = refl; indexed = one-Indexed }

abbrev header_of : HeaderEntry test_bitcoin → Block
header_of e = e.header

only :
    (i : ℕ) (e : HeaderEntry test_bitcoin) → get_elem? one.headers i ≡ some e → e.header ≡ genesis
only zero e at =
    let same : record { height = 0; hash = 1; header = genesis } ≡ e = cc in sym (ap header_of same)
only (suc i) e at = absurd (ground arith)

one-NoCollision : NoCollision one.headers
one-NoCollision = record {
  injective = λ i j a b at bt same. only i a at ∙ sym (only j b bt);
  nonzero = λ i a at null.
      let h : 1 ≡ 0 = sym (ap (λ (b : Block). b.1) (only i a at)) ∙ null in absurd (omega arith);
}

test_daemon-IsHonest : IsHonest test_daemon one
test_daemon-IsHonest h x got = ground (arith, ==_iff h 2, ==_iff h 3)

found : get_new_headers test_daemon 3 one 3 ≡ some (ok ((1, 2) ∷ (2, 3) ∷ []))
unfolding program
found = refl

filled : is_empty one ≡ false
unfolding program
filled = refl

lower : (g : BlockHash) (x : Block) → header_for g ≡ inr x → x.0 < g
lower g x got = ground (arith, ==_iff g 2, ==_iff g 3)

headers_back_total_example :
    (r : Outcome DaemonError (List Block)) × (headers_back test_daemon 4 one 3 [] ≡ some r)
headers_back_total_example = headers_back_total test_daemon one (λ h. h) 4 3 [] lower (omega arith)

all_found : get_all_headers test_daemon 3 ≡ ok (genesis ∷ (1, 2) ∷ (2, 3) ∷ [])
unfolding program
all_found = refl
