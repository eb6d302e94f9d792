-- ===== src/Steps/Delay.antt =====
-- Which delays `DelayExecutor.execute` of src/steps/delay.py accepts.
use workflow_automation_engi.Steps.{max_delay_seconds, as_number, execute_delay, check_delay}
use workflow_automation_engi.Prelude.{
  Value, Fields, find, ℤ, ℕ, ◌*◌, ◌≤◌, ◌<◌, ◌≡◌, ◌↔◌, Option, none, some, arith, field, end, ok,
  pos, negsuc,
}

-- A number, as numerator and denominator, above 0 and at most the limit.
abbrev pub Within : Option (ℤ × ℕ) → Type 0
Within none = ⊥
Within (some (pos n, d)) = (0 < n) × (n ≤ max_delay_seconds * d)
Within (some (negsuc n, d)) = ⊥

check_delay_iff :
    (v : Value) (n : Option (ℤ × ℕ))
    → (check_delay v n ≡ ok (field "delayed_seconds" v end)) ↔ Within n
unfolding check_delay
check_delay_iff v none = (λ h. cc, λ h. absurd h)
check_delay_iff v (some (pos n, d)) = ground arith
check_delay_iff v (some (negsuc n, d)) = (λ h. cc, λ h. absurd h)

-- A delay step returns its seconds exactly if they are a number above 0 and at most 3600.
pub execute_delay_iff :
    (config : Fields) (seconds : Value)
    → find "seconds" config ≡ some seconds
    → (execute_delay config ≡ ok (field "delayed_seconds" seconds end)) ↔ Within (as_number seconds)
unfolding execute_delay
execute_delay_iff config seconds h = rw h (check_delay_iff seconds (as_number seconds))
