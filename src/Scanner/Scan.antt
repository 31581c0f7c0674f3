-- ===== src/Scanner/Scan.antt =====
-- The blocks that an active scanner sends.
use mathlib.Core.List.{append-nil, append_assoc}
use explorer_api_gql.Base.{
  ℕ, zero, suc, ◌+◌, ◌-◌, ◌≤◌, ◌<◌, ◌≡◌, refl, sym, ◌∙◌, Bool, true, false, Option, some, List, [],
  ◌∷◌, ◌++◌, arith,
}
use explorer_api_gql.Types.{Block, u64}
use explorer_api_gql.Scanner.{
  BlkScanner, Event, in_dispatched, observe_tick, scan_tick, observe, update_state,
  observe_and_update, shift, dispatched, step, run, hysteresis,
}

module _ (block_by_number : ℕ → Option Block) (block : ℕ → Block) where
  -- the blocks of `count` numbers from `first` on
  abbrev pub blocks_from : ℕ → ℕ → List Block
  blocks_from first zero = []
  blocks_from first (suc count) = block first ∷ blocks_from (suc first) count

  -- `count` ticks of the scanner, with announcements of the dispatcher in between
  pub data Ticks : ℕ → List Event → Type 0 where
    stay : Ticks zero []
    tick :
        {count : ℕ} {events : List Event} (height : Option ℕ)
        → Ticks count events
        → Ticks (suc count) (scan_tick height false ∷ events)
    announce :
        {count : ℕ} {events : List Event} (bin : ℕ) (ok : Bool)
        → Ticks count events
        → Ticks count (in_dispatched bin ok ∷ events)

  pub record Sent (s t : BlkScanner) (count : ℕ) : Type 0 where
    pub active : t.on_idle ≡ false
    pub moved : t.next ≡ s.next + count
    pub target : t.to ≡ s.to
    pub sent : t.out_block ≡ s.out_block ++ blocks_from s.next count

  abbrev pub Available : ℕ → ℕ → Type 0
  Available first count =
      (n : ℕ) → first ≤ n → n < first + count → block_by_number n ≡ some (block n)

  shift_sends :
      (height : Option ℕ) (s : BlkScanner)
      → s.on_idle ≡ false
      → s.next ≤ s.to
      → s.to < u64 - 1
      → block_by_number s.next ≡ some (block s.next)
      → shift block_by_number height false s
        ≡ record s { out_block = s.out_block ++ block s.next ∷ []; next = suc s.next }
  unfolding shift
  shift_sends height s active below small here = ground arith

  Sent-tick :
      (s t : BlkScanner) (count : ℕ)
      → Sent (record s { out_block = s.out_block ++ block s.next ∷ []; next = suc s.next }) t count
      → Sent s t (suc count)
  Sent-tick s t count r = record {
    active = r.active;
    moved = omega (arith, r.moved);
    target = r.target;
    sent = r.sent ∙ append_assoc s.out_block (block s.next ∷ []) (blocks_from (suc s.next) count);
  }

  dispatched_eq :
      (bin : ℕ) (ok : Bool) (s : BlkScanner)
      → ((dispatched bin ok s).on_idle ≡ s.on_idle)
        × ((dispatched bin ok s).next ≡ s.next)
        × ((dispatched bin ok s).to ≡ s.to)
        × ((dispatched bin ok s).out_block ≡ s.out_block)
  unfolding dispatched
  dispatched_eq bin ok s = ground arith

  Sent-announce :
      (s u t : BlkScanner) (count : ℕ)
      → u.next ≡ s.next
      → u.to ≡ s.to
      → u.out_block ≡ s.out_block
      → Sent u t count
      → Sent s t count
  Sent-announce s u t count n o b r = record {
    active = r.active;
    moved = omega (arith, r.moved);
    target = r.target ∙ o;
    sent = r.sent ∙ rw (n, b) refl;
  }

  -- Let an active scanner have at least as many blocks left up to its target, which is below
  -- 2 ^ 64 - 1, as ticks of its own come, let the node give each of the blocks asked for, and let
  -- no tick of the observer and no stop signal come in between. Then the scanner sends one block for
  -- each tick, the blocks of consecutive numbers from its next one on, and stays active, whatever
  -- the dispatcher announces meanwhile.
  pub Ticks-Sent :
      {count : ℕ} {events : List Event}
      → Ticks count events
      → (s : BlkScanner) → s.on_idle ≡ false
      → s.next + count ≤ s.to + 1
      → s.to < u64 - 1
      → Available s.next count
      → Sent s (run block_by_number s events) count
  unfolding run step
  Ticks-Sent stay s active room small avail = record {
    active = active;
    moved = omega arith;
    target = refl;
    sent = sym (append-nil s.out_block);
  }
  Ticks-Sent (tick {count = count} {events = events} height rest) s active room small avail =
      let s' = record s { out_block = s.out_block ++ block s.next ∷ []; next = suc s.next } in
      Sent-tick s (run block_by_number (shift block_by_number height false s) events) count (
        rw
          (shift_sends height s active (omega arith) small
            (avail s.next (omega arith) (omega arith)))
          (Ticks-Sent rest s' active (omega arith) small
            (λ n lo hi. avail n (omega arith) (omega arith))))
  Ticks-Sent (announce {count = count} {events = events} bin ok rest) s active room small avail =
      let (i, n, o, b) = dispatched_eq bin ok s in
      let u = dispatched bin ok s in
      Sent-announce s u (run block_by_number u events) count n o b (
        Ticks-Sent rest u (i ∙ active) (omega (arith, n, o)) (omega (arith, o))
          (λ m lo hi. avail m (omega (arith, n)) (omega (arith, n))))

  -- The state after an idle scanner that was close to the head finds the head far away.
  woken :
      (near far : ℕ) (s : BlkScanner)
      → s.on_idle ≡ true
      → s.done + hysteresis < u64
      → near < s.done + hysteresis
      → s.done + hysteresis ≤ far
      → far < u64 - 1
      → let t = observe_and_update (some far) false (observe_and_update (some near) false s) in
        (t.on_idle ≡ false) × (t.next ≡ s.done) × (t.to ≡ far) × (t.out_block ≡ s.out_block)
  unfolding observe_and_update observe update_state
  woken near far s idle small n f b = ground arith

  -- Let an idle scanner observe a head that is less than a hysteresis ahead of the last dispatched
  -- block, and then, with nothing dispatched in between, one that is a hysteresis ahead of it or
  -- more, all below 2 ^ 64 - 1, and let no stop signal come. Then it wakes up, and if the node gives
  -- each block from the last dispatched one up to that head, and as many ticks of its own as these
  -- are come without another observation, it sends all of them in their order, whatever the
  -- dispatcher announces meanwhile, and is active with the block after the head as its next one.
  pub catch_up :
      (near far : ℕ) {events : List Event} (s : BlkScanner)
      → s.on_idle ≡ true
      → s.done + hysteresis < u64
      → near < s.done + hysteresis
      → s.done + hysteresis ≤ far
      → far < u64 - 1
      → Ticks (far + 1 - s.done) events
      → Available s.done (far + 1 - s.done)
      → let t =
          run block_by_number s
            (observe_tick (some near) false ∷ observe_tick (some far) false ∷ events) in
        (t.on_idle ≡ false)
        × (t.next ≡ far + 1)
        × (t.out_block ≡ s.out_block ++ blocks_from s.done (far + 1 - s.done))
  unfolding run step
  catch_up near far {events} s idle small n f b ticks avail =
      let (i, x, o, k) = woken near far s idle small n f b in
      let t = observe_and_update (some far) false (observe_and_update (some near) false s) in
      let r =
        Ticks-Sent ticks t i (omega (arith, x, o)) (omega (arith, o))
          (λ m lo hi. avail m (omega (arith, x)) (omega (arith, x))) in
      (r.active, omega (arith, r.moved, x), r.sent ∙ rw (x, k) refl)
