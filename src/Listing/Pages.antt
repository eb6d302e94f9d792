-- ===== src/Listing/Pages.antt =====
-- The pages of a list of src/api/workflows.py or src/api/executions.py, taken together.
use workflow_automation_engi.Listing.{Codec, is_after, last}
use workflow_automation_engi.Prelude.{
  ℕ, zero, suc, ◌-◌, ◌≤◌, ◌<◌, Bool, ◌≡◌, refl, ap, ◌∙◌, true, false, some, List, [], ◌∷◌, ◌++◌,
  select, take, length, arith, All, Bool-cases, inl, inr, ◌⊎◌, str_eq, ltb,
}

-- What the codec is for: a cursor that was encoded is decoded to the same, and is not empty.
pub record RoundTrips (codec : Codec) : Type 0 where
  pub decodes : (k : ℕ × ℕ) → codec.decode (codec.encode k) ≡ some k
  pub given : (k : ℕ × ℕ) → str_eq (codec.encode k) "" ≡ false

abbrev pub Before : ℕ × ℕ → ℕ × ℕ → Type 0
Before k l = (k.0 < l.0) ⊎ (k.0 ≡ l.0) × (k.1 < l.1)

module _ {A : Type 0} (key : A → ℕ × ℕ) where
  -- The rows are in the order of created_at and id, and no two have the same.
  abbrev pub IsOrdered : List A → Type 0
  IsOrdered [] = Unit
  IsOrdered (x ∷ rows) = All (λ y. Before (key x) (key y)) rows × IsOrdered rows

  All-select : (P : A → Type 0) (p : A → Bool) (rows : List A) → All P rows → All P (select p rows)
  All-select P p [] all = tt
  All-select P p (x ∷ rows) all = elim (Bool-cases (p x)) [
    | inl h ↦ rw h (all.0, All-select P p rows all.1)
    | inr h ↦ rw h (All-select P p rows all.1)
  ]

  pub select-IsOrdered : (p : A → Bool) (rows : List A) → IsOrdered rows → IsOrdered (select p rows)
  select-IsOrdered p [] ordered = tt
  select-IsOrdered p (x ∷ rows) ordered = elim (Bool-cases (p x)) [
    | inl h ↦ rw h (
      All-select (λ y. Before (key x) (key y)) p rows ordered.0,
      select-IsOrdered p rows ordered.1,
    )
    | inr h ↦ rw h (select-IsOrdered p rows ordered.1)
  ]

  select-All_after :
      (k : ℕ × ℕ) (rows : List A)
      → All (λ y. Before k (key y)) rows
      → select (λ row. is_after k (key row)) rows ≡ rows
  select-All_after k [] all = refl
  select-All_after k (y ∷ rows) all =
      let after : is_after k (key y) ≡ true = ground arith in
      rw after (ap (λ l. y ∷ l) (select-All_after k rows all.1))

  pub drop : ℕ → List A → List A
  drop zero rows = rows
  drop (suc n) [] = []
  drop (suc n) (x ∷ rows) = drop n rows

  pub take-drop : (n : ℕ) (rows : List A) → take n rows ++ drop n rows ≡ rows
  unfolding drop
  take-drop zero rows = refl
  take-drop (suc n) [] = refl
  take-drop (suc n) (x ∷ rows) = ap (λ l. x ∷ l) (take-drop n rows)

  pub length-drop : (n : ℕ) (rows : List A) → length (drop n rows) ≡ length rows - n
  unfolding drop
  length-drop zero rows = omega arith
  length-drop (suc n) [] = omega arith
  length-drop (suc n) (x ∷ rows) = omega (arith, length-drop n rows)

  pub take-take-suc : (n : ℕ) (rows : List A) → take n (take (suc n) rows) ≡ take n rows
  take-take-suc zero rows = refl
  take-take-suc (suc n) [] = refl
  take-take-suc (suc n) (x ∷ rows) = ap (λ l. x ∷ l) (take-take-suc n rows)

  pub length-take-suc :
      (n : ℕ) (rows : List A) → ltb n (length (take (suc n) rows)) ≡ ltb n (length rows)
  length-take-suc zero [] = refl
  length-take-suc zero (x ∷ rows) = ground arith
  length-take-suc (suc n) [] = ground arith
  length-take-suc (suc n) (x ∷ rows) = ground (arith, length-take-suc n rows)

  pub take-all : (n : ℕ) (rows : List A) → length rows ≤ n → take n rows ≡ rows
  take-all zero [] h = refl
  take-all zero (x ∷ rows) h = absurd (omega arith)
  take-all (suc n) [] h = refl
  take-all (suc n) (x ∷ rows) h = ap (λ l. x ∷ l) (take-all n rows (omega arith))

  last-All :
      (P : A → Type 0) (n : ℕ) (x : A) (rows : List A) → P x → All P rows → P (last x (take n rows))
  last-All P zero x rows h all = h
  last-All P (suc n) x [] h all = h
  last-All P (suc n) x (y ∷ rows) h all = last-All P n y rows all.0 all.1

  abbrev pub after_row : A → A → Bool
  after_row x row = is_after (key x) (key row)

  select-after_self :
      (x : A) (rows : List A) → IsOrdered (x ∷ rows) → select (after_row x) (x ∷ rows) ≡ rows
  select-after_self x rows ordered =
      let same : after_row x x ≡ false = ground arith in
      rw same (select-All_after (key x) rows ordered.0)

  select-skip :
      (x l : A) (rows : List A)
      → Before (key x) (key l)
      → select (after_row l) (x ∷ rows) ≡ select (after_row l) rows
  select-skip x l rows before = let no_x : after_row l x ≡ false = ground arith in rw no_x refl

  -- Behind the last row that was shown come the rows that were not.
  select-after_last :
      (n : ℕ) (x : A) (rows : List A)
      → IsOrdered (x ∷ rows)
      → select (after_row (last x (take n rows))) (x ∷ rows) ≡ drop n rows
  unfolding drop
  select-after_last zero x rows ordered = select-after_self x rows ordered
  select-after_last (suc n) x [] ordered = select-after_self x [] ordered
  select-after_last (suc n) x (y ∷ rows) ordered =
      select-skip x (last y (take n rows)) (y ∷ rows)
        (last-All (λ z. Before (key x) (key z)) n y rows ordered.0.0 ordered.0.1)
      ∙ select-after_last n y rows ordered.1

  All-append_right : (P : A → Type 0) (xs ys : List A) → All P (xs ++ ys) → All P ys
  All-append_right P [] ys all = all
  All-append_right P (x ∷ xs) ys all = All-append_right P xs ys all.1

  IsOrdered-append_right : (xs ys : List A) → IsOrdered (xs ++ ys) → IsOrdered ys
  IsOrdered-append_right [] ys ordered = ordered
  IsOrdered-append_right (x ∷ xs) ys ordered = IsOrdered-append_right xs ys ordered.1

  -- The rows of the pages before are not shown again.
  pub select-append :
      (pre : List A) (n : ℕ) (x : A) (rows : List A)
      → IsOrdered (pre ++ x ∷ rows)
      → select (after_row (last x (take n rows))) (pre ++ x ∷ rows) ≡ drop n rows
  select-append [] n x rows ordered = select-after_last n x rows ordered
  select-append (p ∷ pre) n x rows ordered =
      let all = All-append_right (λ z. Before (key p) (key z)) pre (x ∷ rows) ordered.0 in
      select-skip p (last x (take n rows)) (pre ++ x ∷ rows)
        (last-All (λ z. Before (key p) (key z)) n x rows all.0 all.1)
      ∙ select-append pre n x rows ordered.1
