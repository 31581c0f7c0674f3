-- ===== src/Stakers.antt =====
-- The scanner of the information on validators, internal/svc/scan_sti.go. What the node and the
-- cache answer is the environment.
pub mod Rounds
mod Tests
use explorer_api_gql.Base.{
  ℕ, ◌+◌, ◌%◌, Bool, true, false, Option, none, some, List, [], ◌∷◌, ◌++◌, ltb, ◌==◌, if◌then◌else◌,
}
use explorer_api_gql.Types.{u64}

-- `stiScanner` over a type of information, with the numbers that were asked for and the entries
-- that were stored; the ticker is slow once it has been reset.
pub record StiScanner (I : Type 0) : Type 0 where
  pub current : ℕ
  pub top : ℕ
  pub slow : Bool
  pub asked : List ℕ
  pub kept : List (ℕ × I)

-- what a tick meets: the last validator, the information, and whether the cache takes it
pub record StakerTick (I : Type 0) : Type 0 where
  pub last : Option ℕ
  pub info : ℕ → Option I
  pub cached : Bool

module _ {I : Type 0} where
  -- `syncTop`; `last` is the answer for the last validator, `none` an error.
  pub sync_top : Option ℕ → StiScanner I → Bool × StiScanner I
  sync_top none s = if s.current == 0 then (false, s) else (true, s)
  sync_top (some last) s =
      if s.current == 0
      then (true, record s { top = last; current = (s.current + 1) % u64 })
      else (true, s)

  -- the pull and the store; an answer that fails or is nil is `none`, and an error of the cache is
  -- only logged
  abbrev pub keep_info : Option I → Bool → StiScanner I → StiScanner I
  keep_info none cached s = s
  keep_info (some info) cached s =
      if cached then record s { kept = s.kept ++ (s.current, info) ∷ [] } else s

  abbrev pub ask : (ℕ → Option I) → Bool → StiScanner I → StiScanner I
  ask info cached s =
      keep_info (info s.current) cached (record s { asked = s.asked ++ s.current ∷ [] })

  -- on to the next validator, back to the start behind the top
  abbrev pub advance_staker : StiScanner I → Bool × StiScanner I
  advance_staker s =
      if ltb s.top ((s.current + 1) % u64)
      then (true, record s { current = 0 })
      else (false, record s { current = (s.current + 1) % u64 })

  abbrev pub next_synced : Bool × StiScanner I → (ℕ → Option I) → Bool → Bool × StiScanner I
  next_synced (false, s) info cached = (true, s)
  next_synced (true, s) info cached = advance_staker (ask info cached s)

  -- `next`
  pub next_staker : Option ℕ → (ℕ → Option I) → Bool → StiScanner I → Bool × StiScanner I
  next_staker last info cached s = next_synced (sync_top last s) info cached

  -- a tick of `execute`; the ticker is reset to the long delay
  abbrev pub reset_ticker : Bool × StiScanner I → StiScanner I
  reset_ticker (false, s) = s
  reset_ticker (true, s) = record s { slow = true }

  pub tick_staker : StiScanner I → StakerTick I → StiScanner I
  tick_staker s t = reset_ticker (next_staker t.last t.info t.cached s)

  pub run_stakers : StiScanner I → List (StakerTick I) → StiScanner I
  run_stakers s [] = s
  run_stakers s (t ∷ ticks) = run_stakers (tick_staker s t) ticks
