-- ===== src/TestBackend/Flags.antt =====
-- TestBackend/main.go: the flags, and the backend that they start.
use Prim.Native.String.{String}
use text.Mathlib.Text.{◌==◌ as str_eq}
use load_balancer_comparison.Base.{
  ap, ◌≤◌, ℕ, ◌*◌, ◌<◌, ◌≡◌, refl, Bool, some, if◌then◌else◌, arith, Bool-cases, ◌⊎◌, inl, inr,
}
use load_balancer_comparison.Base.Int.{ℤ, pos, eqb_ℤ}
use load_balancer_comparison.Backend.{Time}
use load_balancer_comparison.TestBackend.{Backend, new_backend, get_delay}
use load_balancer_comparison.TestBackend.Delay.{get_delay_lem}

pub record Flags (F : Type 0) : Type 0 where
  pub port : ℤ
  pub backend_type : String
  pub base_delay : ℤ
  pub max_delay : ℤ
  pub payload_size : ℤ
  pub error_rate : F
  pub start_healthy : Bool

abbrev pub ms : ℕ → ℤ
ms n = pos (n * 1_000_000)

-- A flag that is 0 gets the default.
abbrev pub or_default : ℤ → ℤ → ℤ
or_default d v = if eqb_ℤ v (pos 0) then d else v

abbrev pub set_delays : {F : Type 0} → ℤ → ℤ → Flags F → Flags F
set_delays base top flags = record flags {
  base_delay = or_default base flags.base_delay;
  max_delay = or_default top flags.max_delay;
}

abbrev pub set_size : {F : Type 0} → ℤ → Flags F → Flags F
set_size size flags = record flags { payload_size = or_default size flags.payload_size }

-- `is_zero` tells whether a rate is 0.0; `failing_rate` is 0.95.
module _ (F : Type 0) (is_zero : F → Bool) (failing_rate : F) where
  abbrev pub set_rate : Flags F → Flags F
  set_rate flags = record flags {
    error_rate = if is_zero flags.error_rate then failing_rate else flags.error_rate;
  }

  -- The switch on the type; another type keeps the flags.
  unfoldable pub set_defaults : Flags F → Flags F
  set_defaults flags =
      if str_eq flags.backend_type "fast"
      then set_size (pos 100) (set_delays (ms 1) (ms 5) flags)
      else if str_eq flags.backend_type "slow"
      then set_size (pos 500) (set_delays (ms 250) (ms 500) flags)
      else if str_eq flags.backend_type "heavy"
      then set_delays (ms 100) (ms 300) (set_size (pos (1024 * 1024)) flags)
      else if str_eq flags.backend_type "failing"
      then set_delays (ms 20) (ms 50) (set_rate flags)
      else if str_eq flags.backend_type "controllable"
      then set_size (pos 200) (set_delays (ms 50) (ms 100) flags)
      else flags

  -- `main` up to its routes; `os_hostname` is "" when the system does not tell it.
  unfoldable pub start : String → Time → Flags F → Backend F
  unfolding set_defaults new_backend
  start os_hostname now flags =
      let f = set_defaults flags in
      record (new_backend f.port f.backend_type f.base_delay f.max_delay f.payload_size f.error_rate
        (if str_eq os_hostname "" then "localhost" else os_hostname) now) {
          is_healthy = f.start_healthy;
        }

  -- The delays after the switch on the type.
  abbrev DefaultDelays : ℤ → ℤ → Type 0
  DefaultDelays base top =
      (k : ℕ) × (m : ℕ) × (base ≡ pos k)
      × (top ≡ pos m)
      × (((m ≡ 0) × (k ≡ 0)) ⊎ (k < m))
      × (m ≤ 500_000_000)

  known_delays :
      (k m : ℕ) (flags : Flags F)
      → flags.base_delay ≡ pos 0
      → flags.max_delay ≡ pos 0
      → k < m
      → m ≤ 500_000_000
      → DefaultDelays (or_default (pos k) flags.base_delay) (or_default (pos m) flags.max_delay)
  known_delays k m flags base top less small =
      (k, m, ap (or_default (pos k)) base, ap (or_default (pos m)) top, inr less, small)

  default_delays :
      (flags : Flags F)
      → flags.base_delay ≡ pos 0
      → flags.max_delay ≡ pos 0
      → DefaultDelays (set_defaults flags).base_delay (set_defaults flags).max_delay
  unfolding set_defaults
  default_delays flags base top = elim (Bool-cases (str_eq flags.backend_type "fast")) [
    | inl e ↦ rw e (known_delays 1_000_000 5_000_000 flags base top (omega arith) (omega arith))
    | inr e1 ↦ rw e1 (elim (Bool-cases (str_eq flags.backend_type "slow")) [
      | inl e ↦
          rw e (known_delays 250_000_000 500_000_000 flags base top (omega arith) (omega arith))
      | inr e2 ↦ rw e2 (elim (Bool-cases (str_eq flags.backend_type "heavy")) [
        | inl e ↦
            rw e (known_delays 100_000_000 300_000_000 flags base top (omega arith) (omega arith))
        | inr e3 ↦ rw e3 (elim (Bool-cases (str_eq flags.backend_type "failing")) [
          | inl e ↦
              rw e (known_delays 20_000_000 50_000_000 flags base top (omega arith) (omega arith))
          | inr e4 ↦ rw e4 (elim (Bool-cases (str_eq flags.backend_type "controllable")) [
            | inl e ↦
                rw e
                  (known_delays 50_000_000 100_000_000 flags base top (omega arith) (omega arith))
            | inr e5 ↦ rw e5 (0, 0, base, top, inl (refl, refl), omega arith)
          ])
        ])
      ])
    ])
  ]

  -- A test backend that is started without the flags for delays never panics over its delay,
  -- whatever its type: it waits for less than 500 ms, or not at all.
  pub default_delay_runs :
      (r : ℕ) (os_hostname : String) (now : Time) (flags : Flags F)
      → flags.base_delay ≡ pos 0
      → flags.max_delay ≡ pos 0
      → (d : ℕ) × (get_delay r (start os_hostname now flags) ≡ some (pos d)) × (d < 500_000_000)
  unfolding start
  default_delay_runs r os_hostname now flags base top =
      let (k, m, base', top', order, small) = default_delays flags base top in
      let b : Backend F = start os_hostname now flags in
      elim (get_delay_lem r k m b base' top' (ground arith) (ground arith)) [
        | inl (none_set, e) ↦ (k, e, ground arith)
        | inr (inl (some_set, wrong, e)) ↦ absurd (ground arith)
        | inr (inr (less, (d, e, low, high))) ↦ (d, e, omega arith)
      ]
