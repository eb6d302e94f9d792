-- ===== src/Engine/Frame.antt =====
-- What an action of the engine leaves as it was, with one rule for each way to build an action.
use workflow_automation_engi.Engine.Session.{
  Session, Action, pure, lift, gets, ◌>>=◌, handle, continue, or_raise,
}
use workflow_automation_engi.Prelude.{
  if◌then◌else◌, Exception, Result, ◌≡◌, refl, ◌∙◌, Bool, true, false, ok, err, Option, none, some,
}

-- The value that `f` reads of the session is the same after `m`, which may have raised.
pub record Preserves {A T : Type 0} (f : Session → T) (m : Action A) : Type 0 where
  pub at : (s : Session) → f (m s).1 ≡ f s

module _ {A T : Type 0} {f : Session → T} where
  pub Preserves-pure : (a : A) → Preserves f (pure a)
  Preserves-pure a = record { at = λ s. refl }

  pub Preserves-lift : (r : Result A) → Preserves f (lift r)
  Preserves-lift r = record { at = λ s. refl }

  pub Preserves-gets : (g : Session → A) → Preserves f (gets g)
  Preserves-gets g = record { at = λ s. refl }

  pub Preserves-if :
      (b : Bool) (m n : Action A) → Preserves f m → Preserves f n → Preserves f (if b then m else n)
  Preserves-if true m n km kn = km
  Preserves-if false m n km kn = kn

module _ {A B T : Type 0} {f : Session → T} where
  Preserves-continue :
      (r : Result A) (g : A → Action B) (s : Session)
      → ((a : A) → Preserves f (g a))
      → f (continue r g s).1 ≡ f s
  Preserves-continue (ok a) g s kg = (kg a).at s
  Preserves-continue (err x) g s kg = refl

  pub Preserves-bind :
      (m : Action A) (g : A → Action B)
      → Preserves f m
      → ((a : A) → Preserves f (g a))
      → Preserves f (m >>= g)
  Preserves-bind m g km kg = record { at = λ s. Preserves-continue (m s).0 g (m s).1 kg ∙ km.at s }

  Preserves-cases :
      (r : Result A) (g : A → Action B) (h : Exception → Action B) (s : Session)
      → ((a : A) → Preserves f (g a))
      → ((x : Exception) → Preserves f (h x))
      → f (handle r g h s).1 ≡ f s
  Preserves-cases (ok a) g h s kg kh = (kg a).at s
  Preserves-cases (err x) g h s kg kh = (kh x).at s

  pub Preserves-handle :
      (m : Action A) (g : A → Action B) (h : Exception → Action B)
      → Preserves f m
      → ((a : A) → Preserves f (g a))
      → ((x : Exception) → Preserves f (h x))
      → Preserves f (λ s. let (r, s') = m s in handle r g h s')
  Preserves-handle m g h km kg kh = record {
    at = λ s. Preserves-cases (m s).0 g h (m s).1 kg kh ∙ km.at s;
  }

pub ruleset frame_rules =
    (Preserves-pure, Preserves-lift, Preserves-gets, Preserves-if, Preserves-bind)

module _ {A B T : Type 0} {f : Session → T} where
  -- What follows a lookup may use what was found.
  pub Preserves-found :
      (o : Option A) (x : Exception) (g : A → Action B)
      → ((a : A) → o ≡ some a → Preserves f (g a))
      → Preserves f (lift (or_raise o (err x)) >>= g)
  Preserves-found none x g kg = record { at = λ s. refl }
  Preserves-found (some a) x g kg = kg a refl

  pub Preserves-elim :
      (o : Option A) (m : Action B) (g : A → Action B)
      → Preserves f m
      → ((a : A) → Preserves f (g a))
      → Preserves f (elim o [ none ↦ m | some a ↦ g a ])
  Preserves-elim none m g km kg = km
  Preserves-elim (some a) m g km kg = kg a
