-- ===== src/Accounts/Links.antt =====
-- Verification links: each is good once, and only the newest is open.
use mathlib.Core.Path.{subst}
use legacylock.Prelude.{
  ℕ, suc, ◌+◌, ◌≡◌, refl, sym, ap, ◌∙◌, true, false, not, Option, none, some, List, [], ◌∷◌, ◌++◌,
  String, is_some, exists, filter, update_where, exists-update_where, inl, inr, Bool-cases,
  Option-cases, ==_refl, arith,
}
use legacylock.Models.{
  Db, User, EmailVerificationToken, DeliveryJob, BusinessEvent, Recipient, Beneficiary, Channel,
  EventKind, verification, verify_link, Actor, Mail, Payload,
}
use legacylock.Env.{Env}
use legacylock.Outcome.{ok, err, http, guard, pure, modify, ◌>>=◌, and_then-eq-ok}
use legacylock.Outbox.{draw, event, enqueue, new_job, cancel}
use legacylock.Outbox.Payloads.{protect}
use legacylock.Audit.{record_audit}
use legacylock.Accounts.{verify_email}
use legacylock.Accounts.Verification.{
  user_of, token_of, is_unspent, spend, mark_verified, spend_token, consume_for, consume_candidate,
  consume_verification, cancel_links, drop_tokens, is_open_token, new_token, add_token, mail_link,
  issue_token, is_obsolete_link, ttl, ttl_hours,
}

spend-rows :
    (user : User) (hash now : ℕ) (u : Option User) (d d' : Db)
    → spend_token user hash now d ≡ ok u d'
    → d'.tokens ≡ update_where (is_unspent hash) (spend now) d.tokens
unfolding spend_token mark_verified record_audit ◌>>=◌
spend-rows user hash now u d d' h = ground arith

-- A token that was spent is not open any more.
none_unspent :
    (hash now : ℕ) (ts : List EmailVerificationToken)
    → exists (is_unspent hash) (update_where (is_unspent hash) (spend now) ts) ≡ false
none_unspent hash now ts =
    exists-update_where (is_unspent hash) (spend now) (is_unspent hash) ts (λ x h. ground arith)
      (λ x h. h)

spent-none :
    (user : User) (hash later : ℕ) (d : Db)
    → exists (is_unspent hash) d.tokens ≡ false
    → (e : Db) × (spend_token user hash later d ≡ ok none e)
unfolding spend_token ◌>>=◌
spent-none user hash later d gone =
    (record d { tokens = update_where (is_unspent hash) (spend later) d.tokens }, simp gone refl)

refused :
    (env : Env) (raw later : ℕ) (d : Db)
    → exists (is_unspent (env.sha256 raw)) d.tokens ≡ false
    → verify_email env raw later d ≡ err (http 400)
unfolding verify_email consume_verification consume_candidate consume_for ◌>>=◌
refused env raw later d gone = elim (Option-cases (token_of (env.sha256 raw) d)) [
  | inl no_token ↦ simp no_token refl
  | inr (t, there) ↦ elim (Option-cases (user_of t.user_id d)) [
    | inl no_user ↦ simp there (simp no_user refl)
    | inr (user, is_user) ↦
        (let (e, ends) = spent-none user (env.sha256 raw) later d gone in
          simp there (simp is_user (simp ends refl)))
  ]
]

consumed-rows :
    (env : Env) (raw now : ℕ) (u : User) (d d' : Db)
    → consume_verification env raw now d ≡ ok (some u) d'
    → d'.tokens ≡ update_where (is_unspent (env.sha256 raw)) (spend now) d.tokens
unfolding consume_verification consume_candidate consume_for ◌>>=◌
consumed-rows env raw now u d d' h = elim (Option-cases (token_of (env.sha256 raw) d)) [
  | inl no_token ↦ absurd (ground arith)
  | inr (t, there) ↦ elim (Option-cases (user_of t.user_id d)) [
    | inl no_user ↦ absurd (ground arith)
    | inr (user, is_user) ↦ spend-rows user (env.sha256 raw) now (some u) d d' (ground arith)
  ]
]

guarded :
    (u : Option User) (d d' : Db)
    → guard (is_some u) (http 400) d ≡ ok tt d'
    → (user : User) × (u ≡ some user) × (d' ≡ d)
unfolding guard
guarded none d d' h = absurd (ground arith)
guarded (some user) d d' h = (user, refl, ground arith)

verified-rows :
    (env : Env) (raw now : ℕ) (d d' : Db)
    → verify_email env raw now d ≡ ok tt d'
    → d'.tokens ≡ update_where (is_unspent (env.sha256 raw)) (spend now) d.tokens
unfolding verify_email ◌>>=◌
verified-rows env raw now d d' h =
    let (u, e, h1, h2) = and_then-eq-ok (consume_verification env raw now d) _ tt d' h in
    let (user, is_user, stays) = guarded u e d' h2 in
    ap (λ (x : Db). x.tokens) stays
    ∙ consumed-rows env raw now user d e
        (subst (λ o. consume_verification env raw now d ≡ ok o e) is_user h1)

-- A verification link is good once: after `verify_email` succeeded with a token, it answers 400 to
-- this token, at whatever time, on the database that it left.
pub verify_once :
    (env : Env) (raw now : ℕ) (d d' : Db)
    → verify_email env raw now d ≡ ok tt d'
    → (later : ℕ) → verify_email env raw later d' ≡ err (http 400)
verify_once env raw now d d' h later = refused env raw later d' (
    ap (exists (is_unspent (env.sha256 raw))) (verified-rows env raw now d d' h)
    ∙ none_unspent (env.sha256 raw) now d.tokens)

-- The mail with the link of a raw token, to the user's address.
abbrev pub link_mail : Env → User → ℕ → Mail
link_mail env user raw = record {
  to = user.email;
  body = verify_link env.frontend_origin raw (ttl_hours env);
}

-- Behind the jobs `before` there is one more, for the recipient and with the sealed mail.
pub record IsQueued (env : Env) (to_ : Recipient) (mail : Mail) (before after : List DeliveryJob)
    : Type 0 where
  pub bare : DeliveryJob
  pub nonce : ℕ
  pub payload : Payload
  pub recipient : bare.recipient ≡ to_
  pub sealed : protect env nonce bare mail ≡ some payload
  pub appended : after ≡ before ++ record bare { payload = some payload } ∷ []

-- The open links of a user.
abbrev pub open_links : ℕ → Db → List EmailVerificationToken
open_links user_id d = filter (is_open_token user_id) d.tokens

dropped :
    (user_id : ℕ) (ts : List EmailVerificationToken) (t : EmailVerificationToken)
    → is_open_token user_id t ≡ true
    → filter (is_open_token user_id) (filter (λ t. not (is_open_token user_id t)) ts ++ t ∷ [])
      ≡ t ∷ []
dropped user_id [] t is_open = simp is_open refl
dropped user_id (x ∷ xs) t is_open = elim (Bool-cases (is_open_token user_id x)) [
  | inl e ↦ simp e (dropped user_id xs t is_open)
  | inr e ↦ simp e (dropped user_id xs t is_open)
]

enqueue-rows :
    (env : Env) (b : BusinessEvent) (to_ : Recipient) (mail : Mail) (ben : Option Beneficiary)
    (channel : Channel) (expires : Option ℕ) (now : ℕ) (job : DeliveryJob) (d d' : Db)
    → enqueue env b to_ mail ben channel expires now d ≡ ok job d'
    → IsQueued env to_ mail d.jobs d'.jobs
unfolding enqueue new_job
enqueue-rows env b to_ mail ben channel expires now job d d' h =
    let bare = new_job (env.random d.drawn) b to_ ben channel expires now in
    elim (Option-cases (protect env (env.random (suc d.drawn)) bare mail)) [
      | inl unsealed ↦ absurd (ground arith)
      | inr (payload, sealed) ↦ record {
        bare = bare;
        nonce = env.random (suc d.drawn);
        payload = payload;
        recipient = refl;
        sealed = sealed;
        appended = ground arith;
      }
    ]

audit-jobs :
    (v : Option ℕ) (actor : Actor) (kind : String) (d d' : Db)
    → record_audit v actor kind d ≡ ok tt d'
    → d'.jobs ≡ d.jobs
unfolding record_audit modify
audit-jobs v actor kind d d' h = ground arith

draw-jobs : (env : Env) (n : ℕ) (d d' : Db) → draw env d ≡ ok n d' → d'.jobs ≡ d.jobs
unfolding draw
draw-jobs env n d d' h = ground arith

event-jobs :
    (env : Env) (v : Option ℕ) (kind : EventKind) (n : ℕ) (b : BusinessEvent) (d d' : Db)
    → event env v kind n d ≡ ok b d'
    → d'.jobs ≡ d.jobs
unfolding event draw ◌>>=◌
event-jobs env v kind n b d d' h = ground arith

mailed-rows :
    (env : Env) (user : User) (raw now : ℕ) (d d' : Db)
    → mail_link env user raw now d ≡ ok tt d'
    → IsQueued env (Recipient.owner user.id) (link_mail env user raw) d.jobs d'.jobs
unfolding mail_link ◌>>=◌
mailed-rows env user raw now d d' h =
    let (u, d1, h1, r1) =
      and_then-eq-ok (record_audit none (Actor.owner user.id) "auth.verification_sent" d) _ tt d'
        h in
    let (n, d2, h2, r2) = and_then-eq-ok (draw env d1) _ tt d' r1 in
    let (b, d3, h3, r3) = and_then-eq-ok (event env none verification n d2) _ tt d' r2 in
    let (job, d4, h4, r4) =
      and_then-eq-ok
        (enqueue env b (Recipient.owner user.id) (link_mail env user raw) none Channel.email
          (some (now + ttl env)) now d3)
        _ tt d' r3 in
    let e1 : d1.jobs ≡ d.jobs = audit-jobs none (Actor.owner user.id) _ d d1 h1 in
    let e2 : d2.jobs ≡ d1.jobs = draw-jobs env n d1 d2 h2 in
    let e4 : d' ≡ d4 = ground arith in
    subst (λ js. IsQueued env (Recipient.owner user.id) (link_mail env user raw) js d'.jobs)
      (event-jobs env none verification n b d2 d3 h3 ∙ (e2 ∙ e1))
      (subst
        (λ (x : Db). IsQueued env (Recipient.owner user.id) (link_mail env user raw) d3.jobs x.jobs)
        (sym e4)
        (enqueue-rows env b (Recipient.owner user.id) (link_mail env user raw) none Channel.email
          (some (now + ttl env)) now job d3 d4 h4))

mail-rows :
    (env : Env) (user : User) (raw now : ℕ) (d d' : Db)
    → mail_link env user raw now d ≡ ok tt d'
    → d'.tokens ≡ d.tokens
unfolding mail_link record_audit draw event enqueue ◌>>=◌
mail-rows env user raw now d d' h = ground arith

prepared-rows :
    (env : Env) (user_id n : ℕ) (d d1 d2 d3 : Db)
    → cancel_links user_id d ≡ ok tt d1
    → drop_tokens user_id d1 ≡ ok tt d2
    → draw env d2 ≡ ok n d3
    → (d3.tokens ≡ filter (λ t. not (is_open_token user_id t)) d.tokens)
      × (d3.jobs ≡ update_where (is_obsolete_link d.events user_id) cancel d.jobs)
unfolding cancel_links drop_tokens draw ◌>>=◌
prepared-rows env user_id n d d1 d2 d3 h1 h2 h3 =
    let e1 : d1.tokens ≡ d.tokens = ground arith in
    let e2 : d2.tokens ≡ filter (λ t. not (is_open_token user_id t)) d1.tokens = ground arith in
    let e3 : d3.tokens ≡ d2.tokens = ground arith in
    (e3 ∙ (e2 ∙ ap (filter (λ t. not (is_open_token user_id t))) e1), ground arith)

add_token-rows :
    (row : EmailVerificationToken) (d d' : Db)
    → add_token row d ≡ ok tt d'
    → (d'.tokens ≡ d.tokens ++ row ∷ []) × (d'.jobs ≡ d.jobs)
unfolding add_token ◌>>=◌
add_token-rows row d d' h = (ground arith, ground arith)

raw-rows : (n raw : ℕ) (d d' : Db) → pure n d ≡ ok raw d' → (n ≡ raw) × (d' ≡ d)
unfolding ◌>>=◌
raw-rows n raw d d' h = ground arith

issue-rows :
    (env : Env) (user : User) (now raw : ℕ) (d d' : Db)
    → issue_token env user now d ≡ ok raw d'
    → (d'.tokens
        ≡ filter (λ t. not (is_open_token user.id t)) d.tokens
          ++ new_token env user.id raw now ∷ [])
      × IsQueued env
          (Recipient.owner user.id)
          (link_mail env user raw)
          (update_where (is_obsolete_link d.events user.id) cancel d.jobs)
          d'.jobs
unfolding issue_token ◌>>=◌
issue-rows env user now raw d d' h =
    let (u1, d1, h1, r1) = and_then-eq-ok (cancel_links user.id d) _ raw d' h in
    let (u2, d2, h2, r2) = and_then-eq-ok (drop_tokens user.id d1) _ raw d' r1 in
    let (n, d3, h3, r3) = and_then-eq-ok (draw env d2) _ raw d' r2 in
    let (u4, d4, h4, r4) =
      and_then-eq-ok (add_token (new_token env user.id n now) d3) _ raw d' r3 in
    let (u5, d5, h5, r5) = and_then-eq-ok (mail_link env user n now d4) _ raw d' r4 in
    let (same, stays) = raw-rows n raw d5 d' r5 in
    let (left, jobs) = prepared-rows env user.id n d d1 d2 d3 h1 h2 h3 in
    let (added, kept) = add_token-rows (new_token env user.id n now) d3 d4 h4 in
    let cancelled = update_where (is_obsolete_link d.events user.id) cancel d.jobs in
    subst
      (λ k.
        (d'.tokens
          ≡ filter (λ t. not (is_open_token user.id t)) d.tokens
            ++ new_token env user.id k now ∷ [])
        × IsQueued env (Recipient.owner user.id) (link_mail env user k) cancelled d'.jobs)
      same
      (
        ap (λ (x : Db). x.tokens) stays
            ∙ (mail-rows env user n now d4 d5 h5
                ∙ (added ∙ ap (λ ts. ts ++ new_token env user.id n now ∷ []) left)),
        subst
            (λ (x : Db).
              IsQueued env (Recipient.owner user.id) (link_mail env user n) cancelled x.jobs)
            (sym stays)
            (subst (λ js. IsQueued env (Recipient.owner user.id) (link_mail env user n) js d5.jobs)
              (kept ∙ jobs) (mailed-rows env user n now d4 d5 h5)),
      )

new-open :
    (env : Env) (user_id raw now : ℕ) → is_open_token user_id (new_token env user_id raw now) ≡ true
unfolding new_token
new-open env user_id raw now = ground (arith, ==_refl user_id)

-- Only the newest link is open: whenever `issue_token` succeeds, the user has exactly one unused
-- token, whatever tokens there were before, and the last job of the queue is a new one for the user,
-- whose payload is the sealed mail to the user's address with the link of this token's raw value.
pub one_open_link :
    (env : Env) (user : User) (now raw : ℕ) (d d' : Db)
    → issue_token env user now d ≡ ok raw d'
    → (open_links user.id d' ≡ new_token env user.id raw now ∷ [])
      × IsQueued env
          (Recipient.owner user.id)
          (link_mail env user raw)
          (update_where (is_obsolete_link d.events user.id) cancel d.jobs)
          d'.jobs
one_open_link env user now raw d d' h =
    let (tokens, queued) = issue-rows env user now raw d d' h in
    (
      ap (filter (is_open_token user.id)) tokens
          ∙ dropped user.id d.tokens (new_token env user.id raw now) (new-open env user.id raw now),
      queued,
    )
