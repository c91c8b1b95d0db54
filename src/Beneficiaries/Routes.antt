-- ===== src/Beneficiaries/Routes.antt =====
-- The owner's routes keep the beneficiary rows apart.
use legacylock.Prelude.{
  ℕ, ◌==◌, ◌≡◌, refl, sym, ◌∙◌, false, not, Option, none, some, List, [], ◌∷◌, ◌++◌, String, arith,
  exists, filter, save, inl, inr, Bool-cases,
}
use legacylock.Models.{
  Db, Vault, Beneficiary, BusinessEvent, EventKind, Recipient, Mail, Channel, Actor,
}
use legacylock.Env.{Env}
use legacylock.Outcome.{ok, modify, ◌>>=◌, and_then-eq-ok}
use legacylock.Outcome.Frames.{Frames, IsPreorder, Frames-bind, Frames-modify, frame_rules}
use legacylock.Audit.{record_audit}
use legacylock.Outbox.{draw, event, enqueue, cancel_recipient}
use legacylock.Trigger.{lock_status}
use legacylock.Sessions.{revoke_beneficiary, clear_session}
use legacylock.Heartbeat.{get_vault}
use legacylock.Ceremony.{next_id}
use legacylock.Beneficiaries.{
  BeneficiaryCreate, BeneficiaryUpdate, check_share_in_range, check_clash, check_new, add_to_vault,
  add_beneficiary, get_beneficiary, send_invitation, invite_in_vault, invite_beneficiary,
  change_email, update_row, update_in_vault, update_beneficiary, assign_in_vault, assign_share,
  delete_in_vault, delete_beneficiary,
}
use legacylock.Beneficiaries.Rows.{check_unique, insert_beneficiary, store_beneficiary, delete_row}
use legacylock.Beneficiaries.Shares.{
  AreApart, AreApart-add, AreApart-save, AreApart-filter, AreApart-update, conflicts,
  conflicts-none, clash-none, rivals-others,
}

pub record KeepsApart (d d' : Db) : Type 0 where
  pub apart : AreApart d.beneficiaries → AreApart d'.beneficiaries

KeepsApart-preorder : IsPreorder KeepsApart
KeepsApart-preorder = record {
  reflexive = λ d. record { apart = λ h. h };
  transitive = λ d e f r s. record { apart = λ h. s.apart (r.apart h) };
}

same_rows : (d d' : Db) → d'.beneficiaries ≡ d.beneficiaries → KeepsApart d d'
same_rows d d' same = record { apart = λ h. simp same h }

lock_status-apart : (v now : ℕ) → Frames KeepsApart (lock_status v now)
unfolding lock_status
lock_status-apart v now = record { at = λ d d' a h. same_rows d d' (ground arith) }

draw-apart : (env : Env) → Frames KeepsApart (draw env)
unfolding draw
draw-apart env = record { at = λ d d' a h. same_rows d d' (ground arith) }

next_id-apart : Frames KeepsApart next_id
unfolding next_id
next_id-apart = record { at = λ d d' a h. same_rows d d' (ground arith) }

event-apart :
    (env : Env) (v : Option ℕ) (kind : EventKind) (n : ℕ) → Frames KeepsApart (event env v kind n)
unfolding event
event-apart env v kind n = record { at = λ d d' a h. same_rows d d' (ground arith) }

enqueue-apart :
    (env : Env) (business : BusinessEvent) (recipient : Recipient) (mail : Mail)
    (ben : Option Beneficiary) (channel : Channel) (expires : Option ℕ) (now : ℕ)
    → Frames KeepsApart (enqueue env business recipient mail ben channel expires now)
unfolding enqueue
enqueue-apart env business recipient mail ben channel expires now = record {
  at = λ d d' a h. same_rows d d' (ground arith);
}

record_audit-apart :
    (v : Option ℕ) (actor : Actor) (kind : String) → Frames KeepsApart (record_audit v actor kind)
unfolding record_audit
record_audit-apart v actor kind = Frames-modify KeepsApart-preorder _ (λ d. same_rows d _ refl)

cancel_recipient-apart : (id : ℕ) → Frames KeepsApart (cancel_recipient id)
unfolding cancel_recipient
cancel_recipient-apart id = Frames-modify KeepsApart-preorder _ (λ d. same_rows d _ refl)

revoke_beneficiary-apart : (id now : ℕ) → Frames KeepsApart (revoke_beneficiary id now)
unfolding revoke_beneficiary
revoke_beneficiary-apart id now =
    Frames-bind KeepsApart-preorder _ _
      (Frames-modify KeepsApart-preorder _ (λ d. record {
        apart =
            AreApart-update (λ b. b.id == id) clear_session (λ a b. (refl, refl)) d.beneficiaries;
      }))
      (λ _. cancel_recipient-apart id)

unique-none :
    (row : Beneficiary) (bs : List Beneficiary) (d d' : Db) (a : Unit {0})
    → check_unique row bs d ≡ ok a d'
    → (exists (conflicts row) bs ≡ false) × (d' ≡ d)
unfolding check_unique ◌>>=◌
unique-none row bs d d' a h =
    (conflicts-none row bs (ground arith) (ground arith) (ground arith), ground arith)

insert-apart :
    (row : Beneficiary) (d d' : Db) (a : Unit {0})
    → AreApart d.beneficiaries
    → insert_beneficiary row d ≡ ok a d'
    → AreApart d'.beneficiaries
unfolding insert_beneficiary ◌>>=◌
insert-apart row d d' a apart h =
    elim (Bool-cases (exists (λ (b : Beneficiary). b.id == row.id) d.beneficiaries)) [
      | inl known ↦ absurd (ground arith)
      | inr fresh ↦
          (let (u, e, h1, h2) =
              and_then-eq-ok (check_unique row d.beneficiaries d)
                (λ _.
                  modify λ (db : Db). record db { beneficiaries = db.beneficiaries ++ row ∷ [] })
                a d' (ground arith) in
            let (free, same) = unique-none row d.beneficiaries d e u h1 in
            let rows : d'.beneficiaries ≡ d.beneficiaries ++ row ∷ [] = ground arith in
            simp rows
              (AreApart-add d.beneficiaries row apart (clash-none row d.beneficiaries fresh free)))
    ]

store-apart :
    (row : Beneficiary) (d d' : Db) (a : Unit {0})
    → AreApart d.beneficiaries
    → store_beneficiary row d ≡ ok a d'
    → AreApart d'.beneficiaries
unfolding store_beneficiary ◌>>=◌
store-apart row d d' a apart h =
    let others = filter (λ (b : Beneficiary). not (b.id == row.id)) d.beneficiaries in
    let (u, e, h1, h2) =
      and_then-eq-ok (check_unique row others d)
        (λ _. modify λ (db : Db). record db {
          beneficiaries = save (λ (b : Beneficiary). b.id) row db.beneficiaries;
        })
        a d' h in
    let (free, same) = unique-none row others d e u h1 in
    let rows : d'.beneficiaries ≡ save (λ (b : Beneficiary). b.id) row d.beneficiaries =
      ground arith in
    simp rows
      (AreApart-save d.beneficiaries row apart (sym (rivals-others row d.beneficiaries) ∙ free))

insert_beneficiary-apart : (row : Beneficiary) → Frames KeepsApart (insert_beneficiary row)
insert_beneficiary-apart row = record {
  at = λ d d' a h. record { apart = λ apart. insert-apart row d d' a apart h };
}

store_beneficiary-apart : (row : Beneficiary) → Frames KeepsApart (store_beneficiary row)
store_beneficiary-apart row = record {
  at = λ d d' a h. record { apart = λ apart. store-apart row d d' a apart h };
}

delete_row-apart : (id : ℕ) → Frames KeepsApart (delete_row id)
unfolding delete_row
delete_row-apart id =
    Frames-modify KeepsApart-preorder _
      (λ d. record { apart = AreApart-filter (λ b. not (b.id == id)) d.beneficiaries })

ruleset apart_rules = (
  frame_rules, KeepsApart-preorder, lock_status-apart, draw-apart, next_id-apart, event-apart,
  enqueue-apart, record_audit-apart, revoke_beneficiary-apart, insert_beneficiary-apart,
  store_beneficiary-apart, delete_row-apart,
)

get_vault-apart : (user : ℕ) → Frames KeepsApart (get_vault user)
unfolding get_vault
get_vault-apart user = search apart_rules depth 20

get_beneficiary-apart : (v id : ℕ) → Frames KeepsApart (get_beneficiary v id)
unfolding get_beneficiary
get_beneficiary-apart v id = search apart_rules depth 20

check_share_in_range-apart :
    (vault : Vault) (i : Option ℕ) → Frames KeepsApart (check_share_in_range vault i)
unfolding check_share_in_range
check_share_in_range-apart vault none = search apart_rules depth 20
check_share_in_range-apart vault (some i) = search apart_rules depth 20

check_clash-apart : (v : ℕ) (id i : Option ℕ) → Frames KeepsApart (check_clash v id i)
unfolding check_clash
check_clash-apart v id none = search apart_rules depth 20
check_clash-apart v id (some i) = search apart_rules depth 20

check_new-apart :
    (env : Env) (vault : Vault) (input : BeneficiaryCreate)
    → Frames KeepsApart (check_new env vault input)
unfolding check_new
check_new-apart env vault input =
    search (apart_rules, check_share_in_range-apart, check_clash-apart) depth 20

change_email-apart :
    (ben : Beneficiary) (email : Option String) (now : ℕ)
    → Frames KeepsApart (change_email ben email now)
unfolding change_email
change_email-apart ben none now = search apart_rules depth 20
change_email-apart ben (some email) now = search apart_rules depth 20

ruleset route_rules = (
  apart_rules, get_vault-apart, get_beneficiary-apart, check_share_in_range-apart,
  check_clash-apart, check_new-apart, change_email-apart,
)

pub add_beneficiary-apart :
    (env : Env) (input : BeneficiaryCreate) (user now : ℕ)
    → Frames KeepsApart (add_beneficiary env input user now)
unfolding add_beneficiary add_to_vault
add_beneficiary-apart env input user now = search route_rules depth 20

send_invitation-apart :
    (env : Env) (vault : Vault) (ben : Beneficiary) (revision user now : ℕ)
    → Frames KeepsApart (send_invitation env vault ben revision user now)
unfolding send_invitation
send_invitation-apart env vault ben revision user now = search route_rules depth 20

pub invite_beneficiary-apart :
    (env : Env) (id user now : ℕ) → Frames KeepsApart (invite_beneficiary env id user now)
unfolding invite_beneficiary invite_in_vault
invite_beneficiary-apart env id user now = search (route_rules, send_invitation-apart) depth 20

update_row-apart :
    (vault : Vault) (ben : Beneficiary) (address : Option String) (input : BeneficiaryUpdate)
    (user now : ℕ)
    → Frames KeepsApart (update_row vault ben address input user now)
unfolding update_row
update_row-apart vault ben address input user now = search route_rules depth 20

pub update_beneficiary-apart :
    (env : Env) (id : ℕ) (input : BeneficiaryUpdate) (user now : ℕ)
    → Frames KeepsApart (update_beneficiary env id input user now)
unfolding update_beneficiary update_in_vault
update_beneficiary-apart env id input user now = search (route_rules, update_row-apart) depth 20

pub assign_share-apart : (id i user now : ℕ) → Frames KeepsApart (assign_share id i user now)
unfolding assign_share assign_in_vault
assign_share-apart id i user now = search route_rules depth 20

pub delete_beneficiary-apart :
    (id user now : ℕ) → Frames KeepsApart (delete_beneficiary id user now)
unfolding delete_beneficiary delete_in_vault
delete_beneficiary-apart id user now = search route_rules depth 20
