-- ===== src/Engine/Start/Alike.antt =====
-- Actions of src/engine that do the same in each session in which a value is missing, with one rule
-- for each way to build an action.
use workflow_automation_engi.Engine.Session.{
  Session, Execution, Action, ◌>>=◌, handle, continue, lift, or_raise,
}
use workflow_automation_engi.Engine.Frame.{Preserves}
use workflow_automation_engi.Prelude.{
  Exception, Result, ok, err, get, ℕ, Bool, true, false, ◌≡◌, refl, ap, ◌∙◌, Option, none, some,
  nat_key, string_key, if◌then◌else◌,
}

-- The tenant that the context of an execution names.
abbrev pub tenant_of : Option Execution → Option ℕ
tenant_of none = none
tenant_of (some execution) = execution.context.tenant_id

abbrev pub context_tenant : ℕ → Session → Option ℕ
context_tenant id s = tenant_of (get id s.executions)

-- The two actions do the same in every session in which `f` reads nothing.
pub record Alike {A T : Type 0} (f : Session → Option T) (m m' : Action A) : Type 0 where
  pub at : (s : Session) → f s ≡ none → m s ≡ m' s

module _ {A T : Type 0} {f : Session → Option T} where
  pub Alike-refl : (m : Action A) → Alike f m m
  Alike-refl m = record { at = λ s h. refl }

  pub Alike-if :
      (b : Bool) (m n m' n' : Action A)
      → Alike f m m'
      → Alike f n n'
      → Alike f (if b then m else n) (if b then m' else n')
  Alike-if true m n m' n' km kn = km
  Alike-if false m n m' n' km kn = kn

module _ {A B T : Type 0} {f : Session → Option T} where
  continue-Alike :
      (r : Result A) (g g' : A → Action B) (s : Session)
      → f s ≡ none
      → ((a : A) → Alike f (g a) (g' a))
      → continue r g s ≡ continue r g' s
  continue-Alike (ok a) g g' s h kg = (kg a).at s h
  continue-Alike (err x) g g' s h kg = refl

  pub Alike-bind :
      (m m' : Action A) (g g' : A → Action B)
      → Alike f m m'
      → Preserves f m'
      → ((a : A) → Alike f (g a) (g' a))
      → Alike f (m >>= g) (m' >>= g')
  Alike-bind m m' g g' km keeps kg = record {
    at = λ s h.
        ap (λ (out : Result A × Session). continue out.0 g out.1) (km.at s h)
        ∙ continue-Alike (m' s).0 g g' (m' s).1 (keeps.at s ∙ h) kg;
  }

  handle-Alike :
      (r : Result A) (g : A → Action B) (k k' : Exception → Action B) (s : Session)
      → f s ≡ none
      → ((x : Exception) → Alike f (k x) (k' x))
      → handle r g k s ≡ handle r g k' s
  handle-Alike (ok a) g k k' s h kk = refl
  handle-Alike (err x) g k k' s h kk = (kk x).at s h

  pub Alike-handle :
      (m m' : Action A) (g : A → Action B) (k k' : Exception → Action B)
      → Alike f m m'
      → Preserves f m'
      → ((x : Exception) → Alike f (k x) (k' x))
      → Alike f
          (λ s. let (r, s') = m s in handle r g k s')
          (λ s. let (r, s') = m' s in handle r g k' s')
  Alike-handle m m' g k k' km keeps kk = record {
    at = λ s h.
        ap (λ (out : Result A × Session). handle out.0 g k out.1) (km.at s h)
        ∙ handle-Alike (m' s).0 g k k' (m' s).1 (keeps.at s ∙ h) kk;
  }

  pub Alike-found :
      (o : Option A) (x : Exception) (g g' : A → Action B)
      → ((a : A) → Alike f (g a) (g' a))
      → Alike f (lift (or_raise o (err x)) >>= g) (lift (or_raise o (err x)) >>= g')
  Alike-found none x g g' kg = record { at = λ s h. refl }
  Alike-found (some a) x g g' kg = kg a

  pub Alike-elim :
      (o : Option A) (m : Action B) (g g' : A → Action B)
      → ((a : A) → Alike f (g a) (g' a))
      → Alike f (elim o [ none ↦ m | some a ↦ g a ]) (elim o [ none ↦ m | some a ↦ g' a ])
  Alike-elim none m g g' kg = Alike-refl m
  Alike-elim (some a) m g g' kg = kg a
