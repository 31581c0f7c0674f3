-- ===== src/Gas/Periods.antt =====
-- The periods that are stored are those of the prices that were read.
use mathlib.Core.List.{append-nil, append_assoc}
use mathlib.Core.Path.{subst}
use explorer_api_gql.Base.{
  ℕ, suc, ◌+◌, ◌-◌, ◌/◌, ◌%◌, ◌^◌, ◌≤◌, ◌<◌, ◌≡◌, refl, sym, ap, ◌∙◌, true, false, Option, none,
  some, List, [], ◌∷◌, ◌++◌, arith, length, length-append, length-set, get_or, set,
  length-replicate, take, ltb, if◌then◌else◌,
}
use explorer_api_gql.Types.{u64, gas_correction}
use explorer_api_gql.Gas.{
  ticker_interval, exp_ticks, max_int64, signed_lt, GasPricePeriod, GpsMonitor, init_monitor,
  read_price, sum_ticks, avg, store_period, reset_monitor, flip_period, Event, mon_tick, flip_tick,
  step, run, execute_monitor,
}
use explorer_api_gql.Gas.Values.{
  total, minimum, maximum, last_or, period, closed, periods, Fits, take-set_next, minimum-append,
  maximum-append, minimum-le, Small, append-Small, maximum-lt, total-lt, signed_lt_small,
  sum_ticks-total, get_or-take, last_or-take,
}

-- The values `vs` were read since `from`.
record Inv (gps : GpsMonitor) (vs : List ℕ) (from : ℕ) : Type 0 where
  begun : gps.start ≡ some from
  room : length gps.ticks ≡ exp_ticks
  counted : gps.count ≡ length vs
  taken : take gps.count gps.ticks ≡ vs
  lowest : gps.min_price ≡ minimum vs
  highest : gps.max_price ≡ maximum vs
  small : Small vs
  fits : length vs ≤ exp_ticks

read_none : (gps : GpsMonitor) → read_price none gps ≡ some gps
unfolding read_price
read_none gps = refl

-- what a price makes of the monitor
abbrev with_value : ℕ → GpsMonitor → GpsMonitor
with_value v gps = record gps {
  ticks = set gps.ticks gps.count v;
  count = gps.count + 1;
  max_price = if signed_lt gps.max_price v then v else gps.max_price;
  min_price = if signed_lt v gps.min_price then v else gps.min_price;
}

read_eq :
    (gs : ℕ) (gps : GpsMonitor)
    → gps.count < length gps.ticks
    → gs / gas_correction < 2 ^ 44
    → read_price (some gs) gps ≡ some (with_value (gs / gas_correction) gps)
unfolding read_price
read_eq gs gps h b =
    let e : gs / gas_correction % u64 ≡ gs / gas_correction = omega arith in
    let t : ltb gps.count (length gps.ticks) ≡ true = ground arith in rw (t, e) refl

count_suc : (n : ℕ) → n + 1 ≡ suc n
count_suc n = omega arith

value-Inv :
    (v : ℕ) (gps : GpsMonitor) (vs : List ℕ) (from : ℕ)
    → v < 2 ^ 44
    → length vs < exp_ticks
    → Inv gps vs from
    → Inv (with_value v gps) (vs ++ v ∷ []) from
value-Inv v gps vs from b r i =
    let inside : gps.count < length gps.ticks = omega (arith, i.room, i.counted) in
    let low = minimum-le vs in
    let high = maximum-lt vs i.small in
    record {
      begun = i.begun;
      room = length-set gps.ticks gps.count v ∙ i.room;
      counted = omega (arith, i.counted, length-append vs (v ∷ []));
      taken =
          ap (λ n. take n (set gps.ticks gps.count v)) (count_suc gps.count)
          ∙ take-set_next gps.count gps.ticks v inside
          ∙ ap (λ l. l ++ v ∷ []) i.taken;
      lowest =
          ap (λ m. if signed_lt v m then v else m) i.lowest
          ∙ ap (λ t. if t then v else minimum vs)
              (signed_lt_small v (minimum vs) (omega arith) (omega arith))
          ∙ sym (minimum-append vs v (omega arith));
      highest =
          ap (λ m. if signed_lt m v then v else m) i.highest
          ∙ ap (λ t. if t then v else maximum vs)
              (signed_lt_small (maximum vs) v (omega arith) (omega arith))
          ∙ sym (maximum-append vs v);
      small = append-Small vs v i.small b;
      fits = omega (arith, length-append vs (v ∷ []));
    }

module _ (quotient : ℕ → ℕ → ℕ)
    (exact : (a b : ℕ) → a < 2 ^ 53 → 0 < b → quotient a b ≡ a / b) where
  avg-mean :
      (gps : GpsMonitor) (vs : List ℕ) (from : ℕ)
      → 0 < length vs
      → Inv gps vs from
      → avg quotient gps ≡ total vs / length vs
  unfolding avg
  avg-mean gps vs from p i =
      let sum_bound = total-lt vs i.small in
      let fits = i.fits in
      let some_ticks : ltb 0 gps.count ≡ true = ground (arith, i.counted) in
      let values : total (take gps.count gps.ticks) ≡ total vs = ap total i.taken in
      let sum : sum_ticks gps.count gps.ticks 0 ≡ total vs =
        omega (arith, sum_ticks-total gps.count gps.ticks 0 (omega arith), values) in
      rw (some_ticks, sum, i.counted) (exact (total vs) (length vs) (omega arith) p)

  flip_empty :
      (now : ℕ) (gps : GpsMonitor)
      → gps.count ≡ 0
      → flip_period quotient now gps
        ≡ some (record gps { count = 0; max_price = 0; min_price = max_int64; start = some now })
  unfolding flip_period
  flip_empty now gps z = let e : ltb 0 gps.count ≡ false = ground arith in rw e refl

  -- what a flip stores of the monitor
  abbrev summary : GpsMonitor → ℕ → ℕ → GasPricePeriod
  summary gps from now = record {
    open_price = get_or gps.ticks 0 0;
    close_price = get_or gps.ticks (gps.count - 1) 0;
    min_price = gps.min_price;
    max_price = gps.max_price;
    avg_price = avg quotient gps;
    from = from;
    to = now;
    tick = ticker_interval;
  }

  summary-period :
      (gps : GpsMonitor) (vs : List ℕ) (from now : ℕ)
      → 0 < length vs
      → Inv gps vs from
      → summary gps from now ≡ period vs from now
  summary-period gps vs from now p inv =
      let n : 0 < gps.count = omega (arith, inv.counted) in
      let last : gps.count ≡ suc (gps.count - 1) = omega arith in
      let inside : gps.count - 1 < length gps.ticks =
        omega (arith, inv.room, inv.counted, inv.fits) in
      let first_value =
        sym (get_or-take gps.count gps.ticks n) ∙ ap (λ l. get_or l 0 0) inv.taken in
      let last_value : get_or gps.ticks (gps.count - 1) 0 ≡ last_or vs 0 =
        sym (last_or-take (gps.count - 1) gps.ticks 0 inside)
        ∙ ap (λ k. last_or (take k gps.ticks) 0) (sym last)
        ∙ ap (λ l. last_or l 0) inv.taken in
      let mean = avg-mean gps vs from p inv in
      λ i. record {
        open_price = first_value i;
        close_price = last_value i;
        min_price = inv.lowest i;
        max_price = inv.highest i;
        avg_price = mean i;
        from = from;
        to = now;
        tick = ticker_interval;
      }

  abbrev renewed : ℕ → List GasPricePeriod → GpsMonitor → GpsMonitor
  renewed now stored gps = record gps {
    count = 0;
    max_price = 0;
    min_price = max_int64;
    start = some now;
    stored = stored;
  }

  flip_full :
      (now : ℕ) (gps : GpsMonitor) (vs : List ℕ) (from : ℕ)
      → 0 < length vs
      → Inv gps vs from
      → flip_period quotient now gps
        ≡ some (renewed now (gps.stored ++ period vs from now ∷ []) gps)
  unfolding flip_period
  flip_full now gps vs from p inv =
      let e : ltb 0 gps.count ≡ true = ground (arith, inv.counted) in
      ap
        (λ t.
          reset_monitor quotient now
            (if t then store_period quotient gps.start now gps else some gps))
        e
      ∙ ap (λ o. reset_monitor quotient now (store_period quotient o now gps)) inv.begun
      ∙ ap (λ q. some (renewed now (gps.stored ++ q ∷ []) gps))
          (summary-period gps vs from now p inv)

  flip_closes :
      (now : ℕ) (gps : GpsMonitor) (vs : List ℕ) (from : ℕ)
      → Inv gps vs from
      → flip_period quotient now gps ≡ some (renewed now (gps.stored ++ closed vs from now) gps)
  flip_closes now gps [] from inv =
      flip_empty now gps inv.counted
      ∙ ap (λ l. some (renewed now l gps)) (sym (append-nil gps.stored))
  flip_closes now gps (v ∷ vs) from inv = flip_full now gps (v ∷ vs) from (omega arith) inv

  -- the start of a period
  fresh-Inv :
      (now : ℕ) (gps : GpsMonitor)
      → length gps.ticks ≡ exp_ticks
      → Inv
          (record gps { count = 0; max_price = 0; min_price = max_int64; start = some now })
          []
          now
  fresh-Inv now gps r = record {
    begun = refl;
    room = r;
    counted = refl;
    taken = refl;
    lowest = refl;
    highest = refl;
    small = tt;
    fits = omega arith;
  }

  -- The monitor is in a state that has the periods `old` and those of the events.
  record Ends (o : Option GpsMonitor) (old new : List GasPricePeriod) : Type 0 where
    final : GpsMonitor
    ended : o ≡ some final
    in_order : final.stored ≡ old ++ new

  run-Ends :
      (events : List Event) (gps : GpsMonitor) (vs : List ℕ) (from : ℕ)
      → Inv gps vs from
      → Fits (length vs) events
      → Ends (run quotient (some gps) events) gps.stored (periods from vs events)
  unfolding run step periods
  run-Ends [] gps vs from inv f = record {
    final = gps;
    ended = refl;
    in_order = sym (append-nil gps.stored);
  }
  run-Ends (mon_tick none ∷ events) gps vs from inv f =
      rw (read_none gps) (run-Ends events gps vs from inv f)
  run-Ends (mon_tick (some gs) ∷ events) gps vs from inv f =
      let v = gs / gas_correction in
      let inside : gps.count < length gps.ticks = omega (arith, inv.room, inv.counted, f.0) in
      let longer : length (vs ++ v ∷ []) ≡ suc (length vs) =
        omega (arith, length-append vs (v ∷ [])) in
      rw (read_eq gs gps inside f.1) (
        run-Ends events (with_value v gps) (vs ++ v ∷ []) from (value-Inv v gps vs from f.1 f.0 inv)
          (subst (λ n. Fits n events) (sym longer) f.2))
  run-Ends (flip_tick now ∷ events) gps vs from inv f =
      let next = renewed now (gps.stored ++ closed vs from now) gps in
      let r = run-Ends events next [] now (fresh-Inv now next inv.room) f in
      rw (flip_closes now gps vs from inv) (record {
        final = r.final;
        ended = r.ended;
        in_order =
            r.in_order ∙ append_assoc gps.stored (closed vs from now) (periods now [] events);
      })

  -- Let the quotient of floats be exact for a dividend below 2 ^ 53, let each price that is read be
  -- below 2 ^ 44 in units of 10 ^ 7, and let at most 301 prices be read between two flips. Then
  -- the monitor does not panic, and what it stores is one period for each flip that prices
  -- were read before, in their order: the period has the first and the last price, the lowest,
  -- the highest and the mean of all its prices, and no other, and the times of the two flips.
  pub monitor_stores :
      (now : ℕ) (events : List Event)
      → Fits 0 events
      → (gps : GpsMonitor) × (execute_monitor quotient now events ≡ some gps)
        × (gps.stored ≡ periods now [] events)
  unfolding execute_monitor init_monitor
  monitor_stores now events f =
      let r =
        run-Ends events (renewed now [] init_monitor) [] now
          (fresh-Inv now init_monitor (length-replicate {A = ℕ} exp_ticks 0)) f in
      (
        r.final,
        ap (λ o. run quotient o events) (flip_empty now init_monitor refl) ∙ r.ended,
        r.in_order,
      )
