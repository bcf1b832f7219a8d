-- ===== src/Client/Reconnector.antt =====
-- plasma-hawking/src/net/signaling/Reconnector: the delays between attempts to connect. The timer is
-- the delay that it runs with, if it runs; the signals of a call are its answer. The delays are of
-- type `int` in the source, and here natural numbers.
pub mod Backoff
use meeting_system.Prelude.{
  ℕ, ◌*◌, Bool, true, false, List, [], ◌∷◌, ◌++◌, Option, none, some, min, max,
}
use meeting_system.Prelude.Int.{ℤ, pos_part}

pub data Signal : Type 0 where
  active_changed : Bool → Signal
  reconnect_requested : Signal

pub record Reconnector : Type 0 where
  pub timer : Option ℕ
  pub initial_delay_ms : ℕ
  pub max_delay_ms : ℕ
  pub next_delay_ms : ℕ

unfoldable pub init : Reconnector
init = record { timer = none; initial_delay_ms = 1000; max_delay_ms = 30000; next_delay_ms = 1000 }

unfoldable pub configure : Reconnector → ℤ → ℤ → Reconnector
configure r initial_delay max_delay =
    let initial = max 100 (pos_part initial_delay) in
    record r {
      initial_delay_ms = initial;
      max_delay_ms = max initial (pos_part max_delay);
      next_delay_ms = initial;
    }

unfoldable pub schedule : Reconnector → List Signal × Reconnector
schedule r = elim r.timer [
  | some delay ↦ ([], r)
  | none ↦ (
    active_changed true ∷ [],
    record r {
      timer = some r.next_delay_ms;
      next_delay_ms = min (r.next_delay_ms * 2) r.max_delay_ms;
    },
  )
]

unfoldable pub stop : Reconnector → List Signal × Reconnector
stop r = elim r.timer [
  | some delay ↦ (active_changed false ∷ [], record r { timer = none })
  | none ↦ ([], r)
]

unfoldable pub reset : Reconnector → List Signal × Reconnector
unfolding stop
reset r = ((stop r).0, record (stop r).1 { next_delay_ms = r.initial_delay_ms })

-- The timer's `timeout`: it runs once.
unfoldable pub timeout : Reconnector → List Signal × Reconnector
timeout r = elim r.timer [
  | some delay ↦ (active_changed false ∷ reconnect_requested ∷ [], record r { timer = none })
  | none ↦ ([], r)
]
