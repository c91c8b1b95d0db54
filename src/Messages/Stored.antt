-- ===== src/Messages/Stored.antt =====
-- Every route on messages leaves stored rows whose envelope is good and whose id was given out.
use mathlib.Core.Path.{subst}
use legacylock.Prelude.{
  ℕ, suc, ◌<◌, ◌≤◌, ◌≡◌, refl, sym, ap, ◌∙◌, Bool, true, false, not, ◌==◌, Option, none, some, List,
  [], ◌∷◌, ◌++◌, String, arith, All, All-append, All-filter, All-imp, All-first, All-save, save,
  filter,
}
use legacylock.Models.{Db, Vault, VaultMessage, Actor, Members, truthy}
use legacylock.Env.{Env}
use legacylock.Outcome.{ok, guard, Error, http, ◌>>=◌, and_then-eq-ok}
use legacylock.Ceremony.{next_id}
use legacylock.Ceremony.Bundle.{writable}
use legacylock.Trigger.{lock_status}
use legacylock.Heartbeat.{get_vault}
use legacylock.Audit.{record_audit}
use legacylock.Messages.{
  MessageRequest, new_message, check_message, insert_message, write_message, save_in_vault,
  message_of, get_message, remove_messages, remove_in_vault, members_or_none, is_full, is_message,
}
use legacylock.Messages.Edits.{
  MessageUpdate, check_envelope, edit_message, store_message, write_edit, edit_in_vault,
}
use legacylock.Messages.Metadata.{iv_of, get_member}
use legacylock.Messages.Envelopes.{
  is_sealed, is_envelope, edit_message-IsEdit, check-NewEnvelope, edited-sealed, check-sealed,
  stored_iv,
}

-- A stored row: its envelope is good and its id was given out.
pub record IsStored (env : Env) (next : ℕ) (m : VaultMessage) : Type 0 where
  pub sealed : is_sealed env m ≡ true
  pub numbered : m.id < next

abbrev pub AreStored : Env → Db → Type 0
AreStored env d = All (IsStored env d.serial) d.messages

later-IsStored :
    (env : Env) (n k : ℕ) (ms : List VaultMessage)
    → n ≤ k
    → All (IsStored env n) ms
    → All (IsStored env k) ms
later-IsStored env n k ms le all =
    All-imp (IsStored env n) (IsStored env k) ms
      (λ m s. record {
        sealed = s.sealed;
        numbered = (let lt : m.id < n = s.numbered in omega arith);
      })
      all

kept_iv : (ms : Option Members) → iv_of (some (members_or_none ms)) ≡ iv_of ms
unfolding iv_of get_member
kept_iv none = refl
kept_iv (some ms) = refl

-- The new row holds what was checked.
new-sealed :
    (env : Env) (id v : ℕ) (input : MessageRequest) (now : ℕ)
    → is_envelope env input.ciphertext input.wrapped_mek (iv_of input.crypto_metadata) ≡ true
    → is_sealed env (new_message id v input now) ≡ true
unfolding new_message stored_iv
new-sealed env id v input now good =
    ap (is_envelope env input.ciphertext input.wrapped_mek) (kept_iv input.crypto_metadata) ∙ good

pub write-rows :
    (vault : Vault) (input : MessageRequest) (user now id : ℕ) (d d' : Db)
    → write_message vault input user now d ≡ ok id d'
    → (d'.messages ≡ d.messages ++ new_message d.serial vault.id input now ∷ [])
      × (d'.serial ≡ suc d.serial)
      × (id ≡ d.serial)
unfolding write_message next_id insert_message record_audit ◌>>=◌
write-rows vault input user now id d d' h = ground arith

new_id-lt :
    (id v : ℕ) (input : MessageRequest) (now n : ℕ)
    → n ≡ suc id
    → (new_message id v input now).id < n
unfolding new_message
new_id-lt id v input now n next = omega (arith, next)

pub guard-stays : (t : Bool) (e : Error) (d d' : Db) → guard t e d ≡ ok tt d' → d' ≡ d
unfolding guard
guard-stays true e d d' h = ground arith
guard-stays false e d d' h = absurd (ground arith)

pub write-AreStored :
    (env : Env) (vault : Vault) (input : MessageRequest) (user now id : ℕ) (d d' : Db)
    → is_envelope env input.ciphertext input.wrapped_mek (iv_of input.crypto_metadata) ≡ true
    → AreStored env d
    → write_message vault input user now d ≡ ok id d'
    → AreStored env d'
write-AreStored env vault input user now id d d' good stored h =
    let (rows, next, same) = write-rows vault input user now id d d' h in
    let old : All (IsStored env d'.serial) d.messages =
      later-IsStored env d.serial d'.serial d.messages (omega (arith, next)) stored in
    let new : IsStored env d'.serial (new_message d.serial vault.id input now) = record {
      sealed = new-sealed env d.serial vault.id input now good;
      numbered = new_id-lt d.serial vault.id input now d'.serial next;
    } in
    subst (All (IsStored env d'.serial)) (sym rows) (
      All-append (IsStored env d'.serial) d.messages (new_message d.serial vault.id input now ∷ [])
        old (new, tt))

-- What leaves the messages and the ids alone.
abbrev pub Leaves : Db → Db → Type 0
Leaves d d' = (d'.messages ≡ d.messages) × (d'.serial ≡ d.serial)

pub Leaves-AreStored : (env : Env) (d d' : Db) → Leaves d d' → AreStored env d → AreStored env d'
Leaves-AreStored env d d' (rows, next) stored =
    subst (λ n. All (IsStored env n) d'.messages) (sym next)
      (subst (All (IsStored env d.serial)) (sym rows) stored)

pub writable-Leaves :
    (vault : Vault) (expected : Option ℕ) (now : ℕ) (d d' : Db)
    → writable vault expected now d ≡ ok tt d'
    → Leaves d d'
unfolding writable lock_status ◌>>=◌
writable-Leaves vault expected now d d' h = ground arith

pub save-AreStored :
    (env : Env) (vault : Vault) (input : MessageRequest) (user now id : ℕ) (d d' : Db)
    → AreStored env d
    → save_in_vault env vault input user now d ≡ ok id d'
    → AreStored env d'
unfolding save_in_vault ◌>>=◌
save-AreStored env vault input user now id d d' stored h =
    let (u1, d1, h1, r1) =
      and_then-eq-ok (writable vault (some input.material_revision) now d) _ id d' h in
    let (u2, d2, h2, r2) =
      and_then-eq-ok (guard (truthy vault.wrapped_vmk) (http 409) d1) _ id d' r1 in
    let (u3, d3, h3, r3) =
      and_then-eq-ok (guard (not (is_full env vault.id d2)) (http 409) d2) _ id d' r2 in
    let (u4, d4, h4, r4) = and_then-eq-ok (check_message env input d3) _ id d' r3 in
    let (good, same) = check-sealed env input d3 d4 h4 in
    let l1 : Leaves d d1 = writable-Leaves vault (some input.material_revision) now d d1 h1 in
    let s2 : d2 ≡ d1 = guard-stays (truthy vault.wrapped_vmk) (http 409) d1 d2 h2 in
    let s3 : d3 ≡ d2 = guard-stays (not (is_full env vault.id d2)) (http 409) d2 d3 h3 in
    let at4 : AreStored env d4 =
      subst (AreStored env) (sym (same ∙ (s3 ∙ s2))) (Leaves-AreStored env d d1 l1 stored) in
    write-AreStored env vault input user now id d4 d' good at4 r4

found-IsStored :
    (env : Env) (v id : ℕ) (m : VaultMessage) (d d' : Db)
    → AreStored env d
    → get_message v id d ≡ ok m d'
    → IsStored env d.serial m × (d' ≡ d)
unfolding get_message message_of ◌>>=◌
found-IsStored env v id m d d' stored h = (
  All-first (IsStored env d.serial) (is_message v id) d.messages m stored (ground arith),
  ground arith,
)

write_edit-rows :
    (v : ℕ) (m : VaultMessage) (user now id : ℕ) (d d' : Db)
    → write_edit v m user now d ≡ ok id d'
    → (d'.messages ≡ save (λ (m : VaultMessage). m.id) (record m { updated_at = now }) d.messages)
      × (d'.serial ≡ d.serial)
unfolding write_edit store_message record_audit ◌>>=◌
write_edit-rows v m user now id d d' h = ground arith

same_id-lt : (a b n : ℕ) → b ≡ a → a < n → b < n
same_id-lt a b n same lt = omega (arith, same, lt)

write_edit-AreStored :
    (env : Env) (v : ℕ) (m : VaultMessage) (user now id : ℕ) (d d' : Db)
    → AreStored env d
    → IsStored env d.serial m
    → write_edit v m user now d ≡ ok id d'
    → AreStored env d'
write_edit-AreStored env v m user now id d d' stored row h =
    let (rows, next) = write_edit-rows v m user now id d d' h in
    let new : IsStored env d.serial (record m { updated_at = now }) = record {
      sealed = row.sealed;
      numbered = row.numbered;
    } in
    subst (λ n. All (IsStored env n) d'.messages) (sym next)
      (subst (All (IsStored env d.serial)) (sym rows)
        (All-save (IsStored env d.serial) (λ (m : VaultMessage). m.id) _ d.messages new stored))

pub edit-AreStored :
    (env : Env) (vault : Vault) (id : ℕ) (input : MessageUpdate) (user now a : ℕ) (d d' : Db)
    → AreStored env d
    → edit_in_vault env vault id input user now d ≡ ok a d'
    → AreStored env d'
unfolding edit_in_vault ◌>>=◌
edit-AreStored env vault id input user now a d d' stored h =
    let (u1, d1, h1, r1) = and_then-eq-ok (writable vault input.material_revision now d) _ a d' h in
    let (u2, d2, h2, r2) =
      and_then-eq-ok
        (check_envelope env input.material_revision input.ciphertext input.wrapped_mek
          input.crypto_metadata d1)
        _ a d' r1 in
    let (m, d3, h3, r3) = and_then-eq-ok (get_message vault.id id d2) _ a d' r2 in
    let (m', d4, h4, r4) = and_then-eq-ok (edit_message env input m d3) _ a d' r3 in
    let l1 : Leaves d d1 = writable-Leaves vault input.material_revision now d d1 h1 in
    let (new, s2) =
      check-NewEnvelope env input.material_revision input.ciphertext input.wrapped_mek
        input.crypto_metadata d1 d2 h2 in
    let at2 : AreStored env d2 =
      subst (AreStored env) (sym s2) (Leaves-AreStored env d d1 l1 stored) in
    let (found, s3) = found-IsStored env vault.id id m d2 d3 at2 h3 in
    let (edit, s4) = edit_message-IsEdit env input m m' d3 d4 h4 in
    let row : IsStored env d2.serial m' = record {
      sealed = edited-sealed env input m m' new edit found.sealed;
      numbered = same_id-lt m.id m'.id d2.serial edit.same_id found.numbered;
    } in
    let s : d2 ≡ d4 = sym (s4 ∙ s3) in
    write_edit-AreStored env vault.id m' user now a d4 d' (subst (AreStored env) s at2)
      (subst (λ e. IsStored env e.serial m') s row) r4

pub remove-AreStored :
    (env : Env) (gone : VaultMessage → Bool) (d d' : Db)
    → AreStored env d
    → remove_messages gone d ≡ ok tt d'
    → AreStored env d'
unfolding remove_messages ◌>>=◌
remove-AreStored env gone d d' stored h =
    let rows : record d { messages = filter (λ m. not (gone m)) d.messages } ≡ d' = cc in
    subst (AreStored env) rows
      (All-filter (IsStored env d.serial) (λ m. not (gone m)) d.messages stored)

pub audit-AreStored :
    (env : Env) (v : Option ℕ) (actor : Actor) (kind : String) (d d' : Db)
    → AreStored env d
    → record_audit v actor kind d ≡ ok tt d'
    → AreStored env d'
unfolding record_audit ◌>>=◌
audit-AreStored env v actor kind d d' stored h = Leaves-AreStored env d d' (ground arith) stored

pub get_vault-stays :
    (user : ℕ) (vault : Vault) (d d' : Db) → get_vault user d ≡ ok vault d' → d' ≡ d
unfolding get_vault ◌>>=◌
get_vault-stays user vault d d' h = ground arith

pub removed-AreStored :
    (env : Env) (vault_id id user : ℕ) (d d' : Db)
    → AreStored env d
    → remove_in_vault vault_id id user d ≡ ok tt d'
    → AreStored env d'
unfolding remove_in_vault ◌>>=◌
removed-AreStored env vault_id id user d d' stored h =
    let (m, d1, h1, r1) = and_then-eq-ok (get_message vault_id id d) _ tt d' h in
    let (u, d2, h2, r2) = and_then-eq-ok (remove_messages (λ x. x.id == m.id) d1) _ tt d' r1 in
    let (found, s1) = found-IsStored env vault_id id m d d1 stored h1 in
    audit-AreStored env (some vault_id) (Actor.owner user) "message.delete" d2 d'
      (remove-AreStored env (λ x. x.id == m.id) d1 d2 (subst (AreStored env) (sym s1) stored) h2) r2
