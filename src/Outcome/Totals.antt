-- ===== src/Outcome/Totals.antt =====
-- Computations that never raise, one rule for each way to build a computation.
use legacylock.Prelude.{◌≡◌, refl, Bool, true, false, if◌then◌else◌}
use legacylock.Outcome.{Tx, Outcome, ok, err, pure, gets, modify, ◌>>=◌}

module _ {D A : Type 0} where
  abbrev pub is_ok : Outcome D A → Bool
  is_ok (ok a d) = true
  is_ok (err e) = false

  -- What a computation that returns has returned.
  pub is_ok-ok : (o : Outcome D A) → is_ok o ≡ true → (a : A) × (d : D) × (o ≡ ok a d)
  is_ok-ok (ok a d) h = (a, d, refl)
  is_ok-ok (err e) h = cc

pub record IsTotal {D A : Type 0} (m : Tx D A) : Type 0 where
  pub at : (d : D) → is_ok (m d) ≡ true

module _ {D A : Type 0} where
  pub IsTotal-pure : (a : A) → IsTotal (pure {D = D} a)
  unfolding pure
  IsTotal-pure a = record { at = λ d. refl }

  pub IsTotal-gets : (f : D → A) → IsTotal (gets f)
  unfolding gets
  IsTotal-gets f = record { at = λ d. refl }

  pub IsTotal-if : (t : Bool) (m n : Tx D A) → IsTotal m → IsTotal n → IsTotal (if t then m else n)
  IsTotal-if true m n tm tn = tm
  IsTotal-if false m n tm tn = tn

pub IsTotal-modify : {D : Type 0} (f : D → D) → IsTotal (modify f)
unfolding modify
IsTotal-modify f = record { at = λ d. refl }

module _ {D A B : Type 0} where
  -- The rest only has to return from what the first part has returned.
  pub is_ok-bind :
      (m : Tx D A) (f : A → Tx D B) (d : D)
      → is_ok (m d) ≡ true
      → ((a : A) (e : D) → m d ≡ ok a e → is_ok (f a e) ≡ true)
      → is_ok ((m >>= f) d) ≡ true
  unfolding ◌>>=◌
  is_ok-bind m f d first rest = let (a, e, h) = is_ok-ok (m d) first in rw h (rest a e h)

  pub IsTotal-bind :
      (m : Tx D A) (f : A → Tx D B) → IsTotal m → ((a : A) → IsTotal (f a)) → IsTotal (m >>= f)
  IsTotal-bind m f tm tf = record { at = λ d. is_ok-bind m f d (tm.at d) (λ a e _. (tf a).at e) }

pub ruleset total_rules = (IsTotal-pure, IsTotal-gets, IsTotal-if, IsTotal-modify, IsTotal-bind)
