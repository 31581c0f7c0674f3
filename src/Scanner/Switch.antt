-- ===== src/Scanner/Switch.antt =====
-- The state switches that the scanner advertises to the orchestrator.
use explorer_api_gql.Base.{
  ℕ, ◌≡◌, refl, sym, ◌∙◌, Bool, false, not, Option, none, some, List, [], ◌∷◌, ◌++◌, arith, ap,
}
use explorer_api_gql.Types.{Block}
use explorer_api_gql.Scanner.{
  BlkScanner, Event, in_dispatched, observe_tick, scan_tick, observe, update_state,
  observe_and_update, pull, shift, dispatched, step, run, execute, started,
}

-- The state that the one who reads the switches knows, from an initial one.
abbrev pub last_switch : Bool → List Bool → Bool
last_switch state [] = state
last_switch state (x ∷ switches) = last_switch x switches

abbrev pub Alternates : Bool → List Bool → Type 0
Alternates state [] = Unit {0}
Alternates state (x ∷ switches) = (x ≡ not state) × Alternates x switches

last_switch-snoc :
    (state : Bool) (switches : List Bool) (x : Bool) → last_switch state (switches ++ x ∷ []) ≡ x
last_switch-snoc state [] x = refl
last_switch-snoc state (y ∷ switches) x = last_switch-snoc y switches x

Alternates-snoc :
    (state : Bool) (switches : List Bool) (x : Bool)
    → Alternates state switches
    → x ≡ not (last_switch state switches)
    → Alternates state (switches ++ x ∷ [])
Alternates-snoc state [] x a e = (e, tt)
Alternates-snoc state (y ∷ switches) x a e = (a.0, Alternates-snoc y switches x a.1 e)

-- no event takes the stop signal instead of a send
abbrev pub Going : List Event → Type 0
Going [] = Unit {0}
Going (in_dispatched bin ok ∷ events) = Going events
Going (observe_tick height stop ∷ events) = (stop ≡ false) × Going events
Going (scan_tick height stop ∷ events) = (stop ≡ false) × Going events

pub record Advertised (s : BlkScanner) : Type 0 where
  pub alternate : Alternates false s.out_state_switch
  pub known : last_switch false s.out_state_switch ≡ s.on_idle

update_state-Advertised :
    (target : Bool) (s : BlkScanner) → Advertised s → Advertised (update_state target false s)
unfolding update_state
update_state-Advertised target s a = ground (
  arith,
  last_switch-snoc false s.out_state_switch target,
  Alternates-snoc false s.out_state_switch target a.alternate,
)

observe_kept :
    (height : Option ℕ) (s : BlkScanner)
    → ((observe height s).1.on_idle ≡ s.on_idle)
      × ((observe height s).1.out_state_switch ≡ s.out_state_switch)
unfolding observe
observe_kept height s = ground arith

observe_and_update-Advertised :
    (height : Option ℕ) (s : BlkScanner)
    → Advertised s
    → Advertised (observe_and_update height false s)
unfolding observe_and_update
observe_and_update-Advertised height s a =
    let (idle, switches) = observe_kept height s in
    update_state-Advertised (observe height s).0 (observe height s).1 (record {
      alternate = rw switches a.alternate;
      known = ap (last_switch false) switches ∙ a.known ∙ sym idle;
    })

module _ (block_by_number : ℕ → Option Block) where
  pull-Advertised :
      (block : Option Block) (s : BlkScanner)
      → Advertised s
      → Advertised (pull block_by_number block false s)
  unfolding pull
  pull-Advertised none s a = a
  pull-Advertised (some block) s a = record { alternate = a.alternate; known = a.known }

  shift-Advertised :
      (height : Option ℕ) (s : BlkScanner)
      → Advertised s
      → Advertised (shift block_by_number height false s)
  unfolding shift
  shift-Advertised height s a = ground (
    arith,
    observe_and_update-Advertised height s a,
    pull-Advertised (block_by_number s.next) s a,
  )

  dispatched-Advertised :
      (bin : ℕ) (ok : Bool) (s : BlkScanner) → Advertised s → Advertised (dispatched bin ok s)
  unfolding dispatched
  dispatched-Advertised bin ok s a = ground (arith, a.alternate, a.known)

  -- Whatever happens before the stop signal: the switches that the scanner has sent alternate,
  -- beginning with idle, and the last one is the state that the scanner is in.
  pub run-Advertised :
      (events : List Event) (s : BlkScanner)
      → Going events
      → Advertised s
      → Advertised (run block_by_number s events)
  unfolding run step
  run-Advertised [] s g a = a
  run-Advertised (in_dispatched bin ok ∷ events) s g a =
      run-Advertised events (dispatched bin ok s) g (dispatched-Advertised bin ok s a)
  run-Advertised (observe_tick height stop ∷ events) s g a = rw (g.0) (
      run-Advertised events (observe_and_update height false s) g.1
        (observe_and_update-Advertised height s a))
  run-Advertised (scan_tick height stop ∷ events) s g a = rw (g.0) (
      run-Advertised events (shift block_by_number height false s) g.1
        (shift-Advertised height s a))

pub started-Advertised : (start : ℕ) → Advertised (started start)
unfolding started
started-Advertised start = record { alternate = tt; known = refl }

-- Let a scanner run from any block, whatever happens before the stop signal. The switches that it
-- has sent alternate, the first of them to idle, and its own idle state is the last one sent.
pub switches_alternate :
    (block_by_number : ℕ → Option Block) (start : ℕ) (height : Option ℕ) (events : List Event)
    → Going events
    → Advertised (execute block_by_number height (started start) events)
unfolding execute
switches_alternate block_by_number start height events g =
    let (idle, switches) = observe_kept height (started start) in
    run-Advertised block_by_number events (observe height (started start)).1 g (record {
      alternate = rw switches (started-Advertised start).alternate;
      known = ap (last_switch false) switches ∙ (started-Advertised start).known ∙ sym idle;
    })
