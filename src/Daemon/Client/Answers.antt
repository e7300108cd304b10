-- ===== src/Daemon/Client/Answers.antt =====
-- A node that answers the pieces of a batch that it accepts with the results in their order: what a batch of any length and
-- `getblockheaders` return.
use sxn_spv.Common.{
  ℕ, zero, suc, ◌≤◌, ◌≡◌, refl, sym, ap, ◌∙◌, String, List, [], ◌∷◌, map, length, take, drop,
  take-drop, length-drop_le, All, arith,
}
use mathlib.Core.List.{map-append}
use sxn_spv.Common.Outcome.{Outcome, ok}
use sxn_spv.Daemon.{chunks}
use sxn_spv.Daemon.Batch.{BatchError, answered, next, requests}
use sxn_spv.Daemon.Batch.Strict.{parse_all, fetch_all, requests-fetch_all}
use sxn_spv.Daemon.Client.{Node, Value, Header, header_of, header_params, read_all, getblockheaders}

map-take : {A B : Type 0} (f : A → B) (n : ℕ) (xs : List A) → take n (map f xs) ≡ map f (take n xs)
map-take f zero xs = refl
map-take f (suc n) [] = refl
map-take f (suc n) (x ∷ xs) = ap (λ (ys : List _). f x ∷ ys) (map-take f n xs)

map-drop : {A B : Type 0} (f : A → B) (n : ℕ) (xs : List A) → drop n (map f xs) ≡ map f (drop n xs)
map-drop f zero xs = refl
map-drop f (suc n) [] = refl
map-drop f (suc n) (x ∷ xs) = map-drop f n xs

length-map : {A B : Type 0} (f : A → B) (xs : List A) → length (map f xs) ≡ length xs
length-map f [] = refl
length-map f (x ∷ xs) = ap suc (length-map f xs)

All-take : {A : Type 0} (P : A → Type 0) (n : ℕ) (xs : List A) → All P xs → All P (take n xs)
All-take P zero xs each = tt
All-take P (suc n) [] each = tt
All-take P (suc n) (x ∷ xs) (one, each) = (one, All-take P n xs each)

All-drop : {A : Type 0} (P : A → Type 0) (n : ℕ) (xs : List A) → All P xs → All P (drop n xs)
All-drop P zero xs each = each
All-drop P (suc n) [] each = tt
All-drop P (suc n) (x ∷ xs) (one, each) = All-drop P n xs each

module _ (node : Node) where
  open node use {rpc, send_req}

  -- The node has a result for the requests that it accepts, by their method, identifier and parameters, and
  -- answers the accepted requests of a batch, which is never empty, in order. Nothing is said of a batch with
  -- any other request, such as one for a height beyond the tip.
  pub record Answering (Accepts : String → ℕ → Value node → Type 0)
      (answer : String → Value node → Value node) : Type 0 where
    pub replies : String → ℕ → List (Value node) → List (Value node)
    pub sent :
        (method : String) (id : ℕ) (p : Value node) (params_list : List (Value node))
        → All (Accepts method id) (p ∷ params_list)
        → answered rpc send_req (send_req (map (λ q. rpc.request method q id) (p ∷ params_list)))
          ≡ ok (replies method id (p ∷ params_list))
    pub in_order :
        (method : String) (id : ℕ) (p : Value node) (params_list : List (Value node))
        → All (Accepts method id) (p ∷ params_list)
        → parse_all rpc send_req method id (replies method id (p ∷ params_list))
          ≡ ok (map (answer method) (p ∷ params_list))

  module _ (Accepts : String → ℕ → Value node → Type 0) (answer : String → Value node → Value node)
      (answering : Answering Accepts answer) where
    fetch_all-answers :
        (method : String) (id pieces size : ℕ) (params_list : List (Value node))
        → length params_list ≤ pieces
        → All (Accepts method id) params_list
        → fetch_all rpc send_req method id
            (chunks pieces (suc size) (map (λ p. rpc.request method p id) params_list))
          ≡ ok (map (answer method) params_list)
    unfolding chunks
    fetch_all-answers method id zero size [] le accepted = refl
    fetch_all-answers method id zero size (p ∷ ps) le accepted = absurd (omega arith)
    fetch_all-answers method id (suc pieces) size [] le accepted = refl
    fetch_all-answers method id (suc pieces) size (p ∷ ps) le (first, others) =
        let f = λ (q : Value node). rpc.request method q id in
        let now : All (Accepts method id) (p ∷ take size ps) =
          (first, All-take (Accepts method id) size ps others) in
        let later = drop size ps in
        rw
          (
            map-take f size ps,
            map-drop f size ps,
            answering.sent method id p (take size ps) now,
            answering.in_order method id p (take size ps) now,
            fetch_all-answers method id pieces size later (omega (arith, length-drop_le size ps))
                (All-drop (Accepts method id) size ps others),
          )
          (ap (λ (vs : List (Value node)). ok (answer method p ∷ vs))
            (sym (map-append (answer method) (take size ps) later)
              ∙ ap (map (answer method)) (take-drop size ps)))

    -- A batch of accepted requests, of any length, returns the results of its parameters, in their order.
    requests_answered :
        (message_id : ℕ) (method : String) (params_list : List (Value node))
        → All (Accepts method (next message_id)) params_list
        → requests rpc send_req message_id method params_list
          ≡ (ok (map (answer method) params_list), next message_id)
    requests_answered message_id method params_list accepted =
        let id = next message_id in
        requests-fetch_all rpc send_req message_id method params_list
        ∙ ap (λ (r : Outcome (BatchError rpc send_req) (List (Value node))). (r, id))
            (fetch_all-answers method id (length params_list) 9999 params_list (omega arith)
              accepted)

    -- The parameters of `getblockhash`.
    abbrev pub height_params : ℕ → Value node
    height_params height = rpc.of_array (rpc.of_number height ∷ [])

    -- The header that the node has at a height: of the hash that it has there.
    abbrev pub answer_at : ℕ → Value node
    answer_at height =
        answer "getblockheader" (header_params node (answer "getblockhash" (height_params height)))

    read_all_lem :
        (header_at : ℕ → Header node) (heights : List ℕ)
        → All (λ height. header_of node (answer_at height) ≡ ok (header_at height)) heights
        → read_all node (header_of node) (map answer_at heights) ≡ ok (map header_at heights)
    read_all_lem header_at [] each = refl
    read_all_lem header_at (h ∷ heights) (one, each) =
        rw (one, read_all_lem header_at heights each) refl

    all_maps :
        (heights : List ℕ)
        → map
            (answer "getblockheader")
            (map (header_params node) (map (answer "getblockhash") (map height_params heights)))
          ≡ map answer_at heights
    all_maps [] = refl
    all_maps (h ∷ heights) = ap (λ (vs : List (Value node)). answer_at h ∷ vs) (all_maps heights)

    -- The request for the hash of the header at a height, and that for the header of this hash.
    abbrev pub AcceptsHeight : ℕ → ℕ → Type 0
    AcceptsHeight id height = Accepts "getblockhash" id (height_params height)

    abbrev pub AcceptsHeader : ℕ → ℕ → Type 0
    AcceptsHeader id height =
        Accepts "getblockheader" id
          (header_params node (answer "getblockhash" (height_params height)))

    hashes_accepted :
        (id : ℕ) (heights : List ℕ)
        → All (AcceptsHeight id) heights
        → All (Accepts "getblockhash" id) (map height_params heights)
    hashes_accepted id [] each = tt
    hashes_accepted id (h ∷ heights) (one, each) = (one, hashes_accepted id heights each)

    headers_accepted :
        (id : ℕ) (heights : List ℕ)
        → All (AcceptsHeader id) heights
        → All
            (Accepts "getblockheader" id)
            (map (header_params node) (map (answer "getblockhash") (map height_params heights)))
    headers_accepted id [] each = tt
    headers_accepted id (h ∷ heights) (one, each) = (one, headers_accepted id heights each)

    -- From a node that accepts the requests for the hashes at the heights asked for, and those for the headers
    -- of the hashes that it answers, that answers them in order, and whose answers to them are the headers at
    -- the heights, `getblockheaders` returns the headers at the heights asked for, in their order, however
    -- many there are.
    pub getblockheaders_answered :
        (message_id : ℕ) (heights : List ℕ) (header_at : ℕ → Header node)
        → All (AcceptsHeight (next message_id)) heights
        → All (AcceptsHeader (next (next message_id))) heights
        → All (λ height. header_of node (answer_at height) ≡ ok (header_at height)) heights
        → getblockheaders node message_id heights
          ≡ (ok (map header_at heights), next (next message_id))
    unfolding getblockheaders
    getblockheaders_answered message_id heights header_at known held each =
        let id = next message_id in
        let hashes = map (answer "getblockhash") (map height_params heights) in
        let headers = map (answer "getblockheader") (map (header_params node) hashes) in
        let same : headers ≡ map answer_at heights = all_maps heights in
        rw
          (
            requests_answered message_id "getblockhash" (map height_params heights)
                (hashes_accepted id heights known),
            requests_answered id "getblockheader" (map (header_params node) hashes)
                (headers_accepted (next id) heights held),
            same,
            read_all_lem header_at heights each,
          )
          refl
