-- ===== src/Lifecycle/Graph.antt =====
-- The transition graphs as relations: what a sequence of checked transitions can reach.
use legacylock.Prelude.{◌≡◌, ◌≢◌, refl, sym, ap, ◌∙◌, some, arith}
use mathlib.Core.Path.{subst}
use legacylock.Lifecycle.{VaultState, active, grace, triggered, allowed, require_vault_transition}

-- Sequences of transitions that the check allows.
pub data VaultPath (s : VaultState) : VaultState → Type 0 where
  stay : VaultPath s s
  next :
      {t u : VaultState}
      → VaultPath s t
      → require_vault_transition (some t) (some u) ≡ allowed
      → VaultPath s u

from_triggered :
    (u : VaultState) → require_vault_transition (some triggered) (some u) ≡ allowed → u ≡ triggered
unfolding require_vault_transition
from_triggered u h = ground arith

into_triggered :
    (t : VaultState) → require_vault_transition (some t) (some triggered) ≡ allowed → t ≡ grace
unfolding require_vault_transition
into_triggered t h = ground arith

path_from_triggered : (u : VaultState) → VaultPath triggered u → u ≡ triggered
path_from_triggered u stay = refl
path_from_triggered u (next {t = t} p h) =
    let same = path_from_triggered t p in ground (arith, same, from_triggered u)

-- The state before `triggered` on a path is `grace`.
passes_grace :
    (s u : VaultState) → VaultPath s u → u ≡ triggered → s ≢ triggered → VaultPath s grace
passes_grace s u stay end open_ = absurd (open_ end)
passes_grace s u (next {t = t} p h) end open_ =
    subst (VaultPath s)
      (into_triggered t (ap (λ x. require_vault_transition (some t) (some x)) (sym end) ∙ h)) p

active-open : active ≢ triggered
active-open h = ground arith

-- In the transition graph of the vault states nothing leads out of `triggered`, and every path from
-- `active` to `triggered` comes through `grace`, from which `triggered` is allowed.
vault_graph :
    ((u : VaultState) → VaultPath triggered u → u ≡ triggered)
    × (VaultPath active triggered → VaultPath active grace)
    × (require_vault_transition (some grace) (some triggered) ≡ allowed)
unfolding require_vault_transition
vault_graph = (path_from_triggered, λ p. passes_grace active triggered p refl active-open, refl)
