-- ===== src/Scanner/Dispatched.antt =====
-- The counter of dispatched blocks, over the numbers that the dispatcher announces.
use explorer_api_gql.Base.{
  ℕ, ◌+◌, ◌-◌, ◌≤◌, ◌<◌, ◌≡◌, ◌≢◌, refl, ◌∙◌, ◌⊎◌, inl, inr, Bool, true, false, Option, List, [],
  ◌∷◌, arith, All,
}
use native.Mathlib.Decide.{dec_lt}
use explorer_api_gql.Types.{Block, u64}
use explorer_api_gql.Scanner.{
  BlkScanner, Event, in_dispatched, observe_tick, scan_tick, observe, update_state,
  observe_and_update, shift, dispatched, step, run,
}

-- the block numbers that the dispatcher announced
abbrev pub announced : List Event → List ℕ
announced [] = []
announced (in_dispatched bin true ∷ events) = bin ∷ announced events
announced (in_dispatched bin false ∷ events) = announced events
announced (observe_tick height stop ∷ events) = announced events
announced (scan_tick height stop ∷ events) = announced events

abbrev pub Listed : ℕ → List ℕ → Type 0
Listed k [] = ⊥
Listed k (x ∷ xs) = (k ≡ x) ⊎ Listed k xs

module _ (block_by_number : ℕ → Option Block) where
  done-observe :
      (height : Option ℕ) (stop : Bool) (s : BlkScanner)
      → (observe_and_update height stop s).done ≡ s.done
  unfolding observe_and_update observe update_state
  done-observe height stop s = ground arith

  done-shift :
      (height : Option ℕ) (stop : Bool) (s : BlkScanner)
      → (shift block_by_number height stop s).done ≡ s.done
  unfolding shift
  done-shift height stop s = ground (arith, done-observe height stop s)

  done-closed : (bin : ℕ) (s : BlkScanner) → (dispatched bin false s).done ≡ s.done
  unfolding dispatched
  done-closed bin s = ground arith

  done-dispatched :
      (bin : ℕ) (s : BlkScanner) (d : ℕ)
      → s.done ≡ d
      → bin < u64 - 1
      → d < u64 - 1
      → d ≢ 0
      → ((dispatched bin true s).done ≡ d) ⊎ (((dispatched bin true s).done ≡ bin) × (bin ≡ d + 1))
  unfolding dispatched
  done-dispatched bin s d e b small ne = ground arith

  -- The numbers from `d` up to the counter at the end are in the list.
  abbrev Covers : ℕ → BlkScanner → List ℕ → Type 0
  Covers d s bins = (d ≤ s.done) × ((k : ℕ) → d < k → k ≤ s.done → Listed k bins)

  Covers-skip :
      (d bin : ℕ) (s : BlkScanner) (bins : List ℕ) → Covers d s bins → Covers d s (bin ∷ bins)
  Covers-skip d bin s bins c = (c.0, λ k lt le. inr (c.1 k lt le))

  Covers-next :
      (d bin : ℕ) (s : BlkScanner) (bins : List ℕ)
      → bin ≡ d + 1
      → Covers bin s bins
      → Covers d s (bin ∷ bins)
  Covers-next d bin s bins e c = (
    omega (arith, c.0),
    λ k lt le. elim (dec_lt bin k) [ yes above ↦ inr (c.1 k above le) | no at ↦ inl (omega arith) ],
  )

  covers :
      (events : List Event) (s : BlkScanner) (d : ℕ)
      → s.done ≡ d
      → d ≢ 0
      → d < u64 - 1
      → All (λ bin. bin < u64 - 1) (announced events)
      → Covers d (run block_by_number s events) (announced events)
  unfolding run step
  covers [] s d e ne small all = (omega arith, λ k lt le. absurd (omega arith))
  covers (in_dispatched bin false ∷ events) s d e ne small all =
      covers events (dispatched bin false s) d (done-closed bin s ∙ e) ne small all
  covers (in_dispatched bin true ∷ events) s d e ne small all =
      elim (done-dispatched bin s d e all.0 small ne) [
        | inl same ↦
            Covers-skip d bin (run block_by_number (dispatched bin true s) events)
              (announced events) (covers events (dispatched bin true s) d same ne small all.1)
        | inr up ↦
            Covers-next d bin (run block_by_number (dispatched bin true s) events)
              (announced events) up.1
              (covers events (dispatched bin true s) bin up.0 (λ z. omega arith) all.0 all.1)
      ]
  covers (observe_tick height stop ∷ events) s d e ne small all =
      covers events (observe_and_update height stop s) d (done-observe height stop s ∙ e) ne small
        all
  covers (scan_tick height stop ∷ events) s d e ne small all =
      covers events (shift block_by_number height stop s) d (done-shift height stop s ∙ e) ne small
        all

  -- Once the counter is set, whatever happens then, it never falls, and each number that it passes
  -- on the way was announced by the block dispatcher. The numbers stay below 2 ^ 64 - 1.
  pub done_skips_none :
      (events : List Event) (s : BlkScanner)
      → s.done ≢ 0
      → s.done < u64 - 1
      → All (λ bin. bin < u64 - 1) (announced events)
      → (s.done ≤ (run block_by_number s events).done)
        × ((k : ℕ)
            → s.done < k
            → k ≤ (run block_by_number s events).done
            → Listed k (announced events))
  done_skips_none events s ne small all = covers events s s.done refl ne small all
