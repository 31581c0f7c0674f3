-- ===== src/Logs/Pairs.antt =====
-- The map of known pairs of internal/svc/logs_uniswap.go, over many requests.
use explorer_api_gql.Base.{
  ℕ, ◌≡◌, refl, sym, ap, ◌∙◌, Bool, true, false, Bool-cases, Option-cases, inl, inr, Option, none,
  some, List, [], ◌∷◌, arith, ◌==◌, ==_iff,
}
use explorer_api_gql.Types.{Address}
use explorer_api_gql.Logs.Uniswap.{KnownPairs, approved, listed, is_known_uniswap_pair}

-- the map after some requests, each with what the repository answered to it
pub after : List (Option (List Address) × Address) → KnownPairs → KnownPairs
after [] pairs = pairs
after ((answer, pair) ∷ asked) pairs = after asked (is_known_uniswap_pair answer pair pairs).1

self_eq : (a : ℕ) → (a == a) ≡ true
self_eq a = ground arith

request_known :
    (answer : Option (List Address)) (pair : Address) (pairs : KnownPairs) (apr : Bool)
    → approved pairs pair ≡ some apr
    → is_known_uniswap_pair answer pair pairs ≡ (apr, pairs)
unfolding is_known_uniswap_pair
request_known answer pair pairs apr e = rw (e, is_known_uniswap_pair) refl

request_failed :
    (pair : Address) (pairs : KnownPairs)
    → approved pairs pair ≡ none
    → is_known_uniswap_pair none pair pairs ≡ (false, pairs)
unfolding is_known_uniswap_pair
request_failed pair pairs e = rw (e, is_known_uniswap_pair) refl

request_fresh :
    (l : List Address) (pair : Address) (pairs : KnownPairs)
    → approved pairs pair ≡ none
    → is_known_uniswap_pair (some l) pair pairs ≡ (listed l pair, (pair, listed l pair) ∷ pairs)
unfolding is_known_uniswap_pair
request_fresh l pair pairs e = rw (e, is_known_uniswap_pair) refl

-- an entry that is added hides none of another pair
approved-cons :
    (other pair : Address) (b apr : Bool) (pairs : KnownPairs)
    → approved pairs other ≡ none
    → approved pairs pair ≡ some apr
    → approved ((other, b) ∷ pairs) pair ≡ some apr
unfolding approved
approved-cons other pair b apr pairs n e = elim (Bool-cases (other == pair)) [
  | inl same ↦
      let o : other ≡ pair = (==_iff other pair).0 same in
      let clash : none ≡ some apr = sym n ∙ ap (approved pairs) o ∙ e in ground arith
  | inr ne ↦ rw ne e
]

approved-request :
    (answer : Option (List Address)) (other pair : Address) (pairs : KnownPairs) (apr : Bool)
    → approved pairs pair ≡ some apr
    → approved (is_known_uniswap_pair answer other pairs).1 pair ≡ some apr
approved-request answer other pair pairs apr e = elim (Option-cases (approved pairs other)) [
  | inr (b, known) ↦ rw (request_known answer other pairs b known) e
  | inl n ↦ elim (Option-cases answer) [
    | inl f ↦ rw (f, request_failed other pairs n) e
    | inr (l, f) ↦
        rw (f, request_fresh l other pairs n)
          (approved-cons other pair (listed l other) apr pairs n e)
  ]
]

approved-after :
    (asked : List (Option (List Address) × Address)) (pair : Address) (pairs : KnownPairs)
    (apr : Bool)
    → approved pairs pair ≡ some apr
    → approved (after asked pairs) pair ≡ some apr
unfolding after
approved-after [] pair pairs apr e = e
approved-after ((answer, other) ∷ asked) pair pairs apr e =
    approved-after asked pair (is_known_uniswap_pair answer other pairs).1 apr
      (approved-request answer other pair pairs apr e)

approved_first :
    (pair : Address) (b : Bool) (pairs : KnownPairs) → approved ((pair, b) ∷ pairs) pair ≡ some b
unfolding approved
approved_first pair b pairs = rw (self_eq pair) refl

-- The first list that the repository gives for an unknown pair decides on it for good: whatever is
-- asked in between, and whatever the repository answers then, the pair is accepted exactly if it
-- stood in that list. A pair that is created later is never accepted.
pub first_answer_decides :
    (l : List Address) (pair : Address) (pairs : KnownPairs)
    (asked : List (Option (List Address) × Address)) (answer : Option (List Address))
    → approved pairs pair ≡ none
    → (is_known_uniswap_pair answer pair
        (after asked (is_known_uniswap_pair (some l) pair pairs).1)).0
      ≡ listed l pair
first_answer_decides l pair pairs asked answer n =
    let later =
      approved-after asked pair ((pair, listed l pair) ∷ pairs) (listed l pair)
        (approved_first pair (listed l pair) pairs) in
    rw (request_fresh l pair pairs n) (
      ap (λ r. r.0)
        (request_known answer pair (after asked ((pair, listed l pair) ∷ pairs)) (listed l pair)
          later))
