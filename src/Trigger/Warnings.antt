-- ===== src/Trigger/Warnings.antt =====
-- Each kind of grace warning is staged once in an episode.
use legacylock.Prelude.{
  ℕ, ◌≡◌, refl, ap, true, Option, some, List, [], ◌∷◌, All, exists, exists-append, arith, inl, inr,
  Bool-cases, Option-cases, leb, ==_refl,
}
use legacylock.Models.{
  Db, Vault, VaultStatus, HeartbeatConfig, User, EventKind, BusinessEvent, same_kind,
}
use legacylock.Env.{Env}
use legacylock.Outcome.{ok, ◌>>=◌, and_then-eq-ok}
use legacylock.Outbox.{event, is_same_event}
use legacylock.Outbox.Intent.{OnlyDelivers}
use legacylock.Trigger.{
  warn, warn_each, stage_kind, warn_found, warn_vault, warn_before, stage_warning, owner_of,
  vault_of, warning_kinds, release_deadline,
}
use legacylock.Trigger.Frame.{warn_each-frame, warn_found-frame}

-- The episode has this kind of warning.
abbrev IsStaged : VaultStatus → List BusinessEvent → EventKind → Type 0
IsStaged vs events kind = exists (is_same_event (some vs.vault_id) kind vs.episode) events ≡ true

same_kind_refl : (k : EventKind) → same_kind k k ≡ true
same_kind_refl EventKind.grace_first = refl
same_kind_refl EventKind.grace_second = refl
same_kind_refl EventKind.grace_final = refl
same_kind_refl EventKind.released = refl
same_kind_refl EventKind.invitation = refl
same_kind_refl EventKind.beneficiary_login = refl
same_kind_refl EventKind.verification = refl

event-IsStaged :
    (env : Env) (vs : VaultStatus) (kind : EventKind) (b : BusinessEvent) (d d' : Db)
    → event env (some vs.vault_id) kind vs.episode d ≡ ok b d'
    → IsStaged vs d'.events kind
unfolding event
event-IsStaged env vs kind b d d' h = ground (
  arith,
  exists-append (is_same_event (some vs.vault_id) kind vs.episode) d.events (b ∷ []),
  same_kind_refl kind,
  ==_refl vs.vault_id,
  ==_refl vs.episode,
)

warn-IsStaged :
    (env : Env) (vs : VaultStatus) (owner : Option User) (end now : ℕ) (kind : EventKind)
    (d d' : Db)
    → warn env vs owner end now kind d ≡ ok tt d'
    → IsStaged vs d'.events kind
unfolding warn stage_kind ◌>>=◌
warn-IsStaged env vs owner end now kind d d' h =
    elim (Bool-cases (exists (is_same_event (some vs.vault_id) kind vs.episode) d.events)) [
      | inl there ↦ ground arith
      | inr missing ↦
          (let (b, e, emitted, rest) =
              and_then-eq-ok (event env (some vs.vault_id) kind vs.episode d)
                (warn_found env vs owner end now) tt d' (ground arith) in
            ((warn_found-frame env vs owner end now b).at e d' tt rest).events
              (is_same_event (some vs.vault_id) kind vs.episode)
              (event-IsStaged env vs kind b d e emitted))
    ]

warn_each-IsStaged :
    (env : Env) (vs : VaultStatus) (owner : Option User) (end now : ℕ) (kinds : List EventKind)
    (d d' : Db)
    → warn_each env vs owner end now kinds d ≡ ok tt d'
    → All (IsStaged vs d'.events) kinds
unfolding warn_each ◌>>=◌
warn_each-IsStaged env vs owner end now [] d d' h = tt
warn_each-IsStaged env vs owner end now (kind ∷ kinds) d d' h =
    let (u, e, first_, rest) = and_then-eq-ok (warn env vs owner end now kind d) _ tt d' h in
    (
      ((warn_each-frame env vs owner end now kinds).at e d' tt rest).events
          (is_same_event (some vs.vault_id) kind vs.episode)
          (warn-IsStaged env vs owner end now kind d e first_),
      warn_each-IsStaged env vs owner end now kinds e d' rest,
    )

-- Kinds that the episode has are skipped.
warn_each-skips :
    (env : Env) (vs : VaultStatus) (owner : Option User) (end now : ℕ) (kinds : List EventKind)
    (d : Db)
    → All (IsStaged vs d.events) kinds
    → warn_each env vs owner end now kinds d ≡ ok tt d
unfolding warn_each warn ◌>>=◌
warn_each-skips env vs owner end now [] d all = refl
warn_each-skips env vs owner end now (kind ∷ kinds) d all =
    ground (arith, all.0, warn_each-skips env vs owner end now kinds d all.1)

owner_of-kept : (v : Vault) (d d' : Db) → OnlyDelivers d d' → owner_of v d' ≡ owner_of v d
owner_of-kept v d d' kept = ap (owner_of v) kept.tables

vault_of-kept : (v : ℕ) (d d' : Db) → OnlyDelivers d d' → vault_of v d' ≡ vault_of v d
vault_of-kept v d d' kept = ap (vault_of v) kept.tables

warn_before-again :
    (env : Env) (vs : VaultStatus) (cfg : HeartbeatConfig) (end now : ℕ) (d d' : Db)
    → warn_before env vs cfg end now d ≡ ok tt d'
    → warn_before env vs cfg end now d' ≡ ok tt d'
unfolding warn_before warn_vault ◌>>=◌
warn_before-again env vs cfg end now d d' h = elim (Option-cases vs.grace_started_at) [
  | inl e ↦ absurd (ground arith)
  | inr (started, e) ↦ elim (Option-cases (vault_of vs.vault_id d)) [
    | inl f ↦ absurd (ground arith)
    | inr (vault, f) ↦
        (let owner = owner_of vault d in
          let kinds = warning_kinds end started cfg.grace_days now in
          let ran : warn_each env vs owner end now kinds d ≡ ok tt d' = ground arith in
          let kept = (warn_each-frame env vs owner end now kinds).at d d' tt ran in
          let again =
            warn_each-skips env vs owner end now kinds d'
              (warn_each-IsStaged env vs owner end now kinds d d' ran) in
          ground (arith, vault_of-kept vs.vault_id d d' kept, owner_of-kept vault d d' kept, again))
  ]
]

-- Staging the warnings of a vault a second time, with the same row at the same time, succeeds and
-- changes nothing: every kind that is due was staged for the episode.
pub stage_warning_idempotent :
    (env : Env) (vs : VaultStatus) (cfg : HeartbeatConfig) (now : ℕ) (d d' : Db)
    → stage_warning env vs cfg now d ≡ ok tt d'
    → stage_warning env vs cfg now d' ≡ ok tt d'
unfolding stage_warning ◌>>=◌
stage_warning_idempotent env vs cfg now d d' h = elim (Option-cases cfg.last_check_in) [
  | inl e ↦ absurd (ground arith)
  | inr (last, e) ↦ elim (Bool-cases (leb (release_deadline last cfg) now)) [
    | inl late ↦ ground arith
    | inr early ↦ ground (arith, warn_before-again env vs cfg (release_deadline last cfg) now d d')
  ]
]
