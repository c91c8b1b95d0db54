-- ===== src/Outcome/Frames.antt =====
-- What a computation that succeeds does to the database, as a preorder between the database before
-- and after it: one rule for each way to build a computation.
use mathlib.Core.Path.{subst}
use legacylock.Prelude.{◌≡◌, Bool, true, false, Option, none, some, if◌then◌else◌}
use legacylock.Outcome.{
  Tx, Error, Outcome, ok, pure, raise, or_raise, gets, guard, modify, ◌>>=◌, and_then-eq-ok,
}

-- Whenever `m` succeeds, the database after it is related to the one before it.
pub record Frames {D A : Type 0} (R : D → D → Type 0) (m : Tx D A) : Type 0 where
  pub at : (d d' : D) (a : A) → m d ≡ ok a d' → R d d'

pub record IsPreorder {D : Type 0} (R : D → D → Type 0) : Type 0 where
  pub reflexive : (d : D) → R d d
  pub transitive : (d e f : D) → R d e → R e f → R d f

module _ {D A : Type 0} {R : D → D → Type 0} (o : IsPreorder R) where
  ok_stays : (d e d' : D) (a b : A) → R d e → Outcome.ok a e ≡ Outcome.ok b d' → R d d'
  ok_stays d e d' a b r h = let same : e ≡ d' = cc in subst (R d) same r

  pub Frames-pure : (a : A) → Frames R (pure {D = D} a)
  unfolding pure
  Frames-pure a = record { at = λ d d' b h. ok_stays d d d' a b (o.reflexive d) h }

  pub Frames-gets : (f : D → A) → Frames R (gets f)
  unfolding gets
  Frames-gets f = record { at = λ d d' b h. ok_stays d d d' (f d) b (o.reflexive d) h }

  pub Frames-raise : (e : Error) → Frames R (raise {D = D} {A = A} e)
  unfolding raise
  Frames-raise e = record { at = λ d d' b h. absurd (cc) }

  pub Frames-or_raise : (v : Option A) (e : Error) → Frames R (or_raise {D = D} v e)
  unfolding or_raise
  Frames-or_raise none e = record { at = λ d d' b h. absurd (cc) }
  Frames-or_raise (some a) e = record { at = λ d d' b h. ok_stays d d d' a b (o.reflexive d) h }

  pub Frames-if :
      (t : Bool) (m n : Tx D A) → Frames R m → Frames R n → Frames R (if t then m else n)
  Frames-if true m n fm fn = fm
  Frames-if false m n fm fn = fn

module _ {D : Type 0} {R : D → D → Type 0} (o : IsPreorder R) where
  pub Frames-guard : (t : Bool) (e : Error) → Frames R (guard {D = D} t e)
  unfolding guard
  Frames-guard true e = record { at = λ d d' b h. ok_stays o d d d' tt b (o.reflexive d) h }
  Frames-guard false e = record { at = λ d d' b h. absurd (cc) }

  pub Frames-modify : (f : D → D) → ((d : D) → R d (f d)) → Frames R (modify f)
  unfolding modify
  Frames-modify f step = record { at = λ d d' b h. ok_stays o d (f d) d' tt b (step d) h }

module _ {D A B : Type 0} {R : D → D → Type 0} (o : IsPreorder R) where
  pub Frames-bind :
      (m : Tx D A) (f : A → Tx D B) → Frames R m → ((a : A) → Frames R (f a)) → Frames R (m >>= f)
  unfolding ◌>>=◌
  Frames-bind m f fm ff = record {
    at = λ d d' b h.
        let (a, e, hm, hf) = and_then-eq-ok (m d) f b d' h in
        o.transitive d e d' (fm.at d e a hm) ((ff a).at e d' b hf);
  }

pub ruleset frame_rules =
    (Frames-pure, Frames-gets, Frames-raise, Frames-or_raise, Frames-if, Frames-guard, Frames-bind)
