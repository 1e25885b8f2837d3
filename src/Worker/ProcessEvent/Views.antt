-- ===== src/Worker/ProcessEvent/Views.antt =====
-- Views of a collection before and after writes to one key.
use fincart_assissment.Common.{◌≡◌, sym, ◌∙◌, ◌⊎◌, inl, inr, Option, Bool-cases, ℕ}
use mathlib.Core.Path.{subst}
use fincart_assissment.Common.Text.{Str, str_eq}
use fincart_assissment.Common.Text.Laws.{str_eq_sound, str_eq_refl}
use fincart_assissment.Services.{Written, Same}
use fincart_assissment.Worker.Records.{ProcessedEventRecord}
use fincart_assissment.Worker.Lifecycle.{Move, Moves, here, next}

module _ {D : Type 0} where
  pub Same-Written :
      (a b c : Str → Option D) (key : Str) (o : Option D)
      → Same a b
      → Written b c key o
      → Written a c key o
  Same-Written a b c key o s h j = h j ∙ rw (s j)

  pub Written-Same :
      (a b c : Str → Option D) (key : Str) (o : Option D)
      → Written a b key o
      → Same b c
      → Written a c key o
  Written-Same a b c key o h s j = s j ∙ h j

  -- Of two writes to a key the second counts.
  pub Written-Written :
      (a b c : Str → Option D) (key : Str) (o o' : Option D)
      → Written a b key o
      → Written b c key o'
      → Written a c key o'
  Written-Written a b c key o o' h k j = elim (Bool-cases (str_eq j key)) [
    | inl same ↦ k j ∙ rw same
    | inr other ↦ k j ∙ rw other (h j ∙ rw other)
  ]

  pub Same-or-Written :
      (a b c : Str → Option D) (key : Str) (o : Option D)
      → Same a b
      → Same b c ⊎ Written b c key o
      → Same a c ⊎ Written a c key o
  Same-or-Written a b c key o s (inl t) = inl (λ j. t j ∙ s j)
  Same-or-Written a b c key o s (inr h) = inr (Same-Written a b c key o s h)

  pub Written-at : (a b : Str → Option D) (key : Str) (o : Option D) → Written a b key o → b key ≡ o
  Written-at a b key o h = h key ∙ rw (str_eq_refl key)

-- A write to one key is made of moves, if it is at that key.
pub Written-Moves :
    (max_attempts : ℕ) (a b : Str → Option ProcessedEventRecord) (key : Str)
    (o : Option ProcessedEventRecord)
    → Written a b key o
    → Moves max_attempts (a key) o
    → (j : Str) → Moves max_attempts (a j) (b j)
Written-Moves max_attempts a b key o h ms j = elim (Bool-cases (str_eq j key)) [
  | inl same ↦
      let now_at : b j ≡ o = h j ∙ rw same in
      rw now_at (subst (λ x. Moves max_attempts (a x) o) (sym (str_eq_sound j key same)) ms)
  | inr other ↦ let as_before : b j ≡ a j = h j ∙ rw other in rw as_before here
]

pub Same-Moves :
    (max_attempts : ℕ) (a b : Str → Option ProcessedEventRecord)
    → Same a b
    → (j : Str) → Moves max_attempts (a j) (b j)
Same-Moves max_attempts a b s j = rw (s j) here

-- A change of what a key had, seen between two views that agree with the ones around it.
pub Written-between :
    {D : Type 0} (a b c d : Str → Option D) (key : Str) (change : Option D → Option D)
    → Same a b
    → Written b c key (change (b key))
    → Same c d
    → Written a d key (change (a key))
Written-between a b c d key change s h t =
    subst (λ o. Written a d key (change o)) (s key)
      (Written-Same a c d key (change (b key)) (Same-Written a b c key (change (b key)) s h) t)

-- A write that may have been made, after writes that are moves, is a move if it was made.
pub Moves-after :
    (max_attempts : ℕ) (a b c : Str → Option ProcessedEventRecord) (key : Str)
    (o o' : Option ProcessedEventRecord)
    → Written a b key o
    → Moves max_attempts (a key) o
    → Same b c ⊎ Written b c key o'
    → Move max_attempts o o'
    → (j : Str) → Moves max_attempts (a j) (c j)
Moves-after max_attempts a b c key o o' h ms (inl s) mv =
    Written-Moves max_attempts a c key o (Written-Same a b c key o h s) ms
Moves-after max_attempts a b c key o o' h ms (inr k) mv =
    Written-Moves max_attempts a c key o' (Written-Written a b c key o o' h k) (next ms mv)
