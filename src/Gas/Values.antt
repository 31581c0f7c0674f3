-- ===== src/Gas/Values.antt =====
-- The values of a period, and the periods that a sequence of events makes.
use explorer_api_gql.Base.{
  ℕ, zero, suc, ◌+◌, ◌*◌, ◌/◌, ◌%◌, ◌^◌, ◌≤◌, ◌<◌, ◌≡◌, refl, ap, ◌∙◌, none, some, List, [], ◌∷◌,
  ◌++◌, arith, length, get_or, set, take, ltb, if◌then◌else◌,
}
use explorer_api_gql.Types.{u64, gas_correction}
use explorer_api_gql.Gas.{
  ticker_interval, exp_ticks, max_int64, signed_lt, GasPricePeriod, sum_ticks, Event, mon_tick,
  flip_tick,
}

abbrev pub total : List ℕ → ℕ
total [] = 0
total (v ∷ vs) = v + total vs

abbrev pub minimum : List ℕ → ℕ
minimum [] = max_int64
minimum (v ∷ vs) = if ltb v (minimum vs) then v else minimum vs

abbrev pub maximum : List ℕ → ℕ
maximum [] = 0
maximum (v ∷ vs) = if ltb (maximum vs) v then v else maximum vs

abbrev pub last_or : List ℕ → ℕ → ℕ
last_or [] d = d
last_or (v ∷ vs) d = last_or vs v

-- the period of the values `vs`, in the order in which they were read
abbrev pub period : List ℕ → ℕ → ℕ → GasPricePeriod
period vs from now = record {
  open_price = get_or vs 0 0;
  close_price = last_or vs 0;
  min_price = minimum vs;
  max_price = maximum vs;
  avg_price = total vs / length vs;
  from = from;
  to = now;
  tick = ticker_interval;
}

-- a flip without values stores nothing
abbrev pub closed : List ℕ → ℕ → ℕ → List GasPricePeriod
closed [] from now = []
closed (v ∷ vs) from now = period (v ∷ vs) from now ∷ []

-- The periods of the events, of which the values `vs` were read since `from`.
unfoldable pub periods : ℕ → List ℕ → List Event → List GasPricePeriod
periods from vs [] = []
periods from vs (mon_tick none ∷ events) = periods from vs events
periods from vs (mon_tick (some gs) ∷ events) = periods from (vs ++ gs / gas_correction ∷ []) events
periods from vs (flip_tick now ∷ events) = closed vs from now ++ periods now [] events

-- after `n` values of the period there is room for each one, and each is small
abbrev pub Fits : ℕ → List Event → Type 0
Fits n [] = Unit {0}
Fits n (mon_tick none ∷ events) = Fits n events
Fits n (mon_tick (some gs) ∷ events) =
    (n < exp_ticks) × (gs / gas_correction < 2 ^ 44) × Fits (suc n) events
Fits n (flip_tick now ∷ events) = Fits 0 events

pub take-set_next :
    (n : ℕ) (xs : List ℕ) (v : ℕ) → n < length xs → take (suc n) (set xs n v) ≡ take n xs ++ v ∷ []
take-set_next n [] v h = absurd (omega arith)
take-set_next zero (x ∷ xs) v h = refl
take-set_next (suc n) (x ∷ xs) v h = ap (λ l. x ∷ l) (take-set_next n xs v (omega arith))

pub total-append : (vs : List ℕ) (v : ℕ) → total (vs ++ v ∷ []) ≡ total vs + v
total-append [] v = omega arith
total-append (w ∷ vs) v = omega (arith, total-append vs v)

pub minimum-append :
    (vs : List ℕ) (v : ℕ)
    → v < max_int64
    → minimum (vs ++ v ∷ []) ≡ (if ltb v (minimum vs) then v else minimum vs)
minimum-append [] v b = refl
minimum-append (w ∷ vs) v b = ground (arith, minimum-append vs v b)

pub maximum-append :
    (vs : List ℕ) (v : ℕ) → maximum (vs ++ v ∷ []) ≡ (if ltb (maximum vs) v then v else maximum vs)
maximum-append [] v = ground arith
maximum-append (w ∷ vs) v = ground (arith, maximum-append vs v)

pub minimum-le : (vs : List ℕ) → minimum vs ≤ max_int64
minimum-le [] = omega arith
minimum-le (v ∷ vs) = ground (arith, minimum-le vs)

abbrev pub Small : List ℕ → Type 0
Small [] = Unit {0}
Small (v ∷ vs) = (v < 2 ^ 44) × Small vs

pub append-Small : (vs : List ℕ) (v : ℕ) → Small vs → v < 2 ^ 44 → Small (vs ++ v ∷ [])
append-Small [] v s b = (b, tt)
append-Small (w ∷ vs) v s b = (s.0, append-Small vs v s.1 b)

pub maximum-lt : (vs : List ℕ) → Small vs → maximum vs < 2 ^ 44
maximum-lt [] s = omega arith
maximum-lt (v ∷ vs) s = ground (arith, maximum-lt vs s.1)

pub total-lt : (vs : List ℕ) → Small vs → total vs ≤ length vs * 2 ^ 44
total-lt [] s = omega arith
total-lt (v ∷ vs) s = omega (arith, total-lt vs s.1)

pub signed_lt_small : (a b : ℕ) → a < 2 ^ 63 → b < 2 ^ 63 → signed_lt a b ≡ ltb a b
signed_lt_small a b p q =
    let x : (a + 2 ^ 63) % u64 ≡ a + 2 ^ 63 = omega arith in
    let y : (b + 2 ^ 63) % u64 ≡ b + 2 ^ 63 = omega arith in rw (x, y) (ground arith)

pub sum_ticks-total :
    (n : ℕ) (xs : List ℕ) (sum : ℕ)
    → sum + total (take n xs) < u64
    → sum_ticks n xs sum ≡ sum + total (take n xs)
unfolding sum_ticks
sum_ticks-total zero xs sum b = omega arith
sum_ticks-total (suc n) [] sum b = omega arith
sum_ticks-total (suc n) (x ∷ xs) sum b =
    let e : (sum + x) % u64 ≡ sum + x = omega arith in
    rw e (sum_ticks-total n xs (sum + x) (omega arith) ∙ omega arith)

pub get_or-take : (n : ℕ) (xs : List ℕ) → 0 < n → get_or (take n xs) 0 0 ≡ get_or xs 0 0
get_or-take zero xs h = absurd (omega arith)
get_or-take (suc n) [] h = refl
get_or-take (suc n) (x ∷ xs) h = refl

pub last_or-take :
    (n : ℕ) (xs : List ℕ) (d : ℕ) → n < length xs → last_or (take (suc n) xs) d ≡ get_or xs n 0
last_or-take n [] d h = absurd (omega arith)
last_or-take zero (x ∷ xs) d h = refl
last_or-take (suc n) (x ∷ xs) d h = last_or-take n xs x (omega arith)
