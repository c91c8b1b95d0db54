-- ===== src/Sessions/Issue.antt =====
-- `issue`: the family that it opens is the one that its access token names.
use mathlib.Core.Path.{subst}
use legacylock.Prelude.{
  ℕ, ◌+◌, ◌<◌, ◌==◌, ◌≡◌, refl, sym, ap, ◌∙◌, false, Option, none, some, List, [], ◌∷◌, ◌++◌,
  eq_refl, exists, lookup, update_where, inl, inr, Bool-cases, ==_refl, arith,
}
use legacylock.Models.{Db, Role, owner, beneficiary, AuthSession, SessionRefresh, Beneficiary}
use legacylock.Env.{Env}
use legacylock.Outcome.{ok, pure, ◌>>=◌, and_then-eq-ok}
use legacylock.Outbox.{draw}
use legacylock.Sessions.{
  Tokens, AccessClaims, new_family, add_family, bind_session, bind_jti, mint, add_refresh,
  create_access_token, issue, is_valid_family, valid_family, family_of, refresh_of, lifetime,
}

-- What `issue` leaves: a family under a new id, whose tokens it gave out.
pub record Issued (env : Env) (role : Role) (id : ℕ) (v c : Option ℕ) (now : ℕ) (tokens : Tokens)
    (d d' : Db) : Type 0 where
  pub has_family :
      family_of tokens.access.jti d' ≡ some (new_family env tokens.access.jti role id v c now)
  pub same_users : d'.users ≡ d.users
  pub same_vaults : d'.vaults ≡ d.vaults
  pub same_challenges : d'.challenges ≡ d.challenges
  pub same_tokens : d'.tokens ≡ d.tokens
  pub token_of : tokens.access.sub ≡ id
  pub claims :
      tokens.access ≡ create_access_token env (new_family env tokens.access.jti role id v c now) now
  pub refresh : SessionRefresh
  pub has_refresh : refresh_of (env.sha256 tokens.raw) d' ≡ some refresh
  pub of_family : refresh.session_id ≡ tokens.access.jti

lookup-fresh :
    (row : AuthSession) (fs : List AuthSession)
    → exists (λ (f : AuthSession). f.id == row.id) fs ≡ false
    → lookup (λ (f : AuthSession). f.id) row.id (fs ++ row ∷ []) ≡ some row
unfolding lookup
lookup-fresh row [] h = ground (arith, ==_refl row.id)
lookup-fresh row (f ∷ fs) h = ground (arith, lookup-fresh row fs)

add_family-found :
    (row : AuthSession) (d d' : Db)
    → add_family row d ≡ ok tt d'
    → (family_of row.id d' ≡ some row) × (d' ≡ record d { families = d.families ++ row ∷ [] })
unfolding add_family family_of ◌>>=◌
add_family-found row d d' h =
    elim (Bool-cases (exists (λ (f : AuthSession). f.id == row.id) d.families)) [
      | inl taken ↦ absurd (ground arith)
      | inr free ↦
          (let same : d' ≡ record d { families = d.families ++ row ∷ [] } = ground arith in
            (
              ap (λ (x : Db). lookup (λ (f : AuthSession). f.id) row.id x.families) same
                  ∙ lookup-fresh row d.families free,
              same,
            ))
    ]

-- The rows after the family is bound.
abbrev pub bound : Role → ℕ → ℕ → List Beneficiary → List Beneficiary
bound owner id jti bens = bens
bound beneficiary id jti bens = update_where (λ b. b.id == id) (bind_jti jti) bens

bind_session-rows :
    (role : Role) (id jti : ℕ) (d d' : Db)
    → bind_session role id jti d ≡ ok tt d'
    → d' ≡ record d { beneficiaries = bound role id jti d.beneficiaries }
unfolding bind_session ◌>>=◌
bind_session-rows owner id jti d d' h = ground arith
bind_session-rows beneficiary id jti d d' h = ground arith

mint-rows :
    (env : Env) (family : AuthSession) (now : ℕ) (tokens : Tokens) (d d' : Db)
    → mint env family now d ≡ ok tokens d'
    → (d' ≡ record d { drawn = d'.drawn; refreshes = d'.refreshes })
      × (tokens.access ≡ create_access_token env family now)
unfolding mint add_refresh draw ◌>>=◌
mint-rows env family now tokens d d' h = ground arith

fresh-refresh :
    (row : SessionRefresh) (rs : List SessionRefresh)
    → exists (λ (r : SessionRefresh). r.token_hash == row.token_hash) rs ≡ false
    → lookup (λ (r : SessionRefresh). r.token_hash) row.token_hash (rs ++ row ∷ []) ≡ some row
unfolding lookup
fresh-refresh row [] h = ground (arith, ==_refl row.token_hash)
fresh-refresh row (r ∷ rs) h = ground (arith, fresh-refresh row rs)

add_refresh-found :
    (row : SessionRefresh) (d d' : Db)
    → add_refresh row d ≡ ok tt d'
    → refresh_of row.token_hash d' ≡ some row
unfolding add_refresh refresh_of ◌>>=◌
add_refresh-found row d d' h =
    elim (Bool-cases
      (exists (λ (r : SessionRefresh). r.token_hash == row.token_hash) d.refreshes)) [
        | inl taken ↦ absurd (ground arith)
        | inr free ↦
            (let same : d'.refreshes ≡ d.refreshes ++ row ∷ [] = ground arith in
              ap (lookup (λ (r : SessionRefresh). r.token_hash) row.token_hash) same
              ∙ fresh-refresh row d.refreshes free)
      ]

minted :
    (env : Env) (family : AuthSession) (n now : ℕ) (tokens : Tokens) (d d' : Db)
    → pure (record { access = create_access_token env family now; raw = n }) d ≡ ok tokens d'
    → (n ≡ tokens.raw) × (d' ≡ d)
unfolding ◌>>=◌
minted env family n now tokens d d' h = ground arith

mint-refresh :
    (env : Env) (family : AuthSession) (now : ℕ) (tokens : Tokens) (d d' : Db)
    → mint env family now d ≡ ok tokens d'
    → (r : SessionRefresh) × (refresh_of (env.sha256 tokens.raw) d' ≡ some r)
      × (r.session_id ≡ family.id)
unfolding mint ◌>>=◌
mint-refresh env family now tokens d d' h =
    let (n, d1, h1, r1) = and_then-eq-ok (draw env d) _ tokens d' h in
    let row : SessionRefresh = record {
      token_hash = env.sha256 n;
      session_id = family.id;
      consumed_at = none;
      expires_at = family.expires_at;
    } in
    let (u, d2, h2, r2) = and_then-eq-ok (add_refresh row d1) _ tokens d' r1 in
    let (same, stays) = minted env family n now tokens d2 d' r2 in
    (
      row,
      subst (λ k. refresh_of (env.sha256 k) d' ≡ some row) same
          (subst (λ x. refresh_of (env.sha256 n) x ≡ some row) (sym stays)
            (add_refresh-found row d1 d2 h2)),
      refl,
    )

drawn : (env : Env) (n : ℕ) (d d' : Db) → draw env d ≡ ok n d' → d' ≡ record d { drawn = d'.drawn }
unfolding draw
drawn env n d d' h = ground arith

-- The tables after an issue, by those before it.
issued :
    (env : Env) (role : Role) (id : ℕ) (v c : Option ℕ) (now : ℕ) (tokens : Tokens) (jti : ℕ)
    (d d0 d1 d2 d' : Db)
    → d0 ≡ record d { drawn = d0.drawn }
    → add_family (new_family env jti role id v c now) d0 ≡ ok tt d1
    → bind_session role id jti d1 ≡ ok tt d2
    → mint env (new_family env jti role id v c now) now d2 ≡ ok tokens d'
    → Issued env role id v c now tokens d d'
      × (d'.beneficiaries ≡ bound role id tokens.access.jti d.beneficiaries)
unfolding create_access_token family_of
issued env role id v c now tokens jti d d0 d1 d2 d' e0 h1 h2 h3 =
    let (found, e1) = add_family-found (new_family env jti role id v c now) d0 d1 h1 in
    let e2 = bind_session-rows role id jti d1 d2 h2 in
    let (e3, access) = mint-rows env (new_family env jti role id v c now) now tokens d2 d' h3 in
    let (r, kept, of_jti) =
      mint-refresh env (new_family env jti role id v c now) now tokens d2 d' h3 in
    let name : tokens.access.jti ≡ jti = ap (λ (a : AccessClaims). a.jti) access in
    let families : d'.families ≡ d1.families = cc in
    let at_jti : family_of jti d' ≡ some (new_family env jti role id v c now) =
      ap (lookup (λ (f : AuthSession). f.id) jti) families ∙ found in
    let rows : d'.beneficiaries ≡ bound role id jti d.beneficiaries = cc in
    (
      record {
        has_family =
            subst (λ j. family_of j d' ≡ some (new_family env j role id v c now)) (sym name) at_jti;
        same_users = cc;
        same_vaults = cc;
        same_challenges = cc;
        same_tokens = cc;
        token_of = ap (λ (a : AccessClaims). a.sub) access;
        claims =
            access
            ∙ ap (λ j. create_access_token env (new_family env j role id v c now) now) (sym name);
        refresh = r;
        has_refresh = kept;
        of_family = of_jti ∙ sym name;
      },
      subst (λ j. d'.beneficiaries ≡ bound role id j d.beneficiaries) (sym name) rows,
    )

pub issue-Issued :
    (env : Env) (role : Role) (id : ℕ) (v c : Option ℕ) (now : ℕ) (tokens : Tokens) (d d' : Db)
    → issue env role id v c now d ≡ ok tokens d'
    → Issued env role id v c now tokens d d'
      × (d'.beneficiaries ≡ bound role id tokens.access.jti d.beneficiaries)
unfolding issue ◌>>=◌
issue-Issued env role id v c now tokens d d' h =
    let (jti, d0, h0, r0) = and_then-eq-ok (draw env d) _ tokens d' h in
    let (u1, d1, h1, r1) =
      and_then-eq-ok (add_family (new_family env jti role id v c now) d0) _ tokens d' r0 in
    let (u2, d2, h2, h3) = and_then-eq-ok (bind_session role id jti d1) _ tokens d' r1 in
    issued env role id v c now tokens jti d d0 d1 d2 d' (drawn env jti d d0 h0) h1 h2 h3

-- A family is valid until its time is over.
pub family-IsValid :
    (env : Env) (role : Role) (id : ℕ) (v c : Option ℕ) (now later : ℕ) (tokens : Tokens)
    (d d' : Db)
    → Issued env role id v c now tokens d d'
    → later < now + lifetime role
    → valid_family env tokens.access.jti role id later d'
      ≡ some (new_family env tokens.access.jti role id v c now)
unfolding valid_family is_valid_family
family-IsValid env owner id v c now later tokens d d' issued in_time =
    let found : family_of tokens.access.jti d'
        ≡ some (new_family env tokens.access.jti owner id v c now) =
      issued.has_family in
    ground (arith, ==_refl id, eq_refl env.auth_epoch)
family-IsValid env beneficiary id v c now later tokens d d' issued in_time =
    let found : family_of tokens.access.jti d'
        ≡ some (new_family env tokens.access.jti beneficiary id v c now) =
      issued.has_family in
    ground (arith, ==_refl id, eq_refl env.auth_epoch)
