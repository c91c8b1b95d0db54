-- ===== src/Messages/Trips.antt =====
-- What an owner saves is what the owner loads.
use mathlib.Core.Path.{subst}
use legacylock.Prelude.{
  ℕ, ◌<◌, ◌≡◌, refl, sym, ap, ◌∙◌, true, not, ◌&&◌, ◌==◌, ==_refl, Option, some, List, [], ◌∷◌,
  ◌++◌, String, All, first, arith,
}
use legacylock.Models.{Db, Vault, VaultMessage, truthy}
use legacylock.Env.{Env}
use legacylock.Outcome.{ok, http, guard, ◌>>=◌, and_then-eq-ok}
use legacylock.Heartbeat.{get_vault, primary_vault}
use legacylock.Trigger.{lock_status}
use legacylock.Ceremony.{next_id}
use legacylock.Ceremony.Bundle.{writable}
use legacylock.Audit.{record_audit}
use legacylock.Messages.{
  MessageRequest, MessageDetail, is_valid_request, is_full, check_message, write_message,
  insert_message, new_message, save_in_vault, save_message, items_of, tags_or_none, members_or_none,
  message_of, is_message, get_message, read_metadata, read_tags, are_texts, detail, load_in_vault,
  load_message,
}
use legacylock.Messages.Envelopes.{check-sealed}
use legacylock.Messages.Stored.{write-rows, guard-stays, get_vault-stays, writable-Leaves}

-- What a request's message shows.
unfoldable pub saved_detail : ℕ → MessageRequest → ℕ → MessageDetail
saved_detail id input now = record {
  id = id;
  label = input.label;
  ciphertext = input.ciphertext;
  wrapped_mek = input.wrapped_mek;
  crypto_version = 1;
  crypto_metadata = members_or_none input.crypto_metadata;
  created_at = now;
  category = input.category;
  coverage_tags = items_of (tags_or_none input.coverage_tags);
}

items-are_texts : (ts : List String) → are_texts (items_of ts) ≡ true
unfolding are_texts items_of
items-are_texts [] = refl
items-are_texts (t ∷ ts) = items-are_texts ts

new-detail :
    (id v : ℕ) (input : MessageRequest) (now : ℕ) (d : Db)
    → detail (new_message id v input now) d ≡ ok (saved_detail id input now) d
unfolding detail new_message saved_detail read_metadata read_tags ◌>>=◌
new-detail id v input now d = ground (arith, items-are_texts (tags_or_none input.coverage_tags))

-- Every message's id was given out.
unfoldable pub AreNumbered : Db → Type 0
AreNumbered d = All (λ (m : VaultMessage). m.id < d.serial) d.messages

-- The new row is the one that its id finds.
first-fresh :
    (n v : ℕ) (input : MessageRequest) (now : ℕ) (ms : List VaultMessage)
    → All (λ (m : VaultMessage). m.id < n) ms
    → first (is_message v n) (ms ++ new_message n v input now ∷ [])
      ≡ some (new_message n v input now)
unfolding new_message
first-fresh n v input now [] all = ground (arith, ==_refl n, ==_refl v)
first-fresh n v input now (m ∷ ms) all =
    let lt : m.id < n = all.0 in ground (arith, first-fresh n v input now ms all.1)

load-of :
    (v id : ℕ) (m : VaultMessage) (x : MessageDetail) (d : Db)
    → message_of v id d ≡ some m
    → detail m d ≡ ok x d
    → load_in_vault v id d ≡ ok x d
unfolding load_in_vault get_message ◌>>=◌
load-of v id m x d found shown = simp found shown

load-vault :
    (id user : ℕ) (vault : Vault) (x : MessageDetail) (d : Db)
    → primary_vault user d ≡ some vault
    → load_in_vault vault.id id d ≡ ok x d
    → load_message id user d ≡ ok x d
unfolding load_message get_vault primary_vault ◌>>=◌
load-vault id user vault x d found loaded = simp found loaded

-- The database that the new row is written to.
pub record Checked (vault : Vault) (input : MessageRequest) (user now id : ℕ) (d d' : Db)
    : Type 0 where
  pub checked : Db
  pub same_messages : checked.messages ≡ d.messages
  pub same_serial : checked.serial ≡ d.serial
  pub same_vaults : checked.vaults ≡ d.vaults
  pub written : write_message vault input user now checked ≡ ok id d'

writable-vaults :
    (vault : Vault) (expected : Option ℕ) (now : ℕ) (d d' : Db)
    → writable vault expected now d ≡ ok tt d'
    → d'.vaults ≡ d.vaults
unfolding writable lock_status ◌>>=◌
writable-vaults vault expected now d d' h = ground arith

save-Checked :
    (env : Env) (vault : Vault) (input : MessageRequest) (user now id : ℕ) (d d' : Db)
    → save_in_vault env vault input user now d ≡ ok id d'
    → Checked vault input user now id d d'
unfolding save_in_vault ◌>>=◌
save-Checked env vault input user now id d d' h =
    let (u1, d1, h1, r1) =
      and_then-eq-ok (writable vault (some input.material_revision) now d) _ id d' h in
    let (u2, d2, h2, r2) =
      and_then-eq-ok (guard (truthy vault.wrapped_vmk) (http 409) d1) _ id d' r1 in
    let (u3, d3, h3, r3) =
      and_then-eq-ok (guard (not (is_full env vault.id d2)) (http 409) d2) _ id d' r2 in
    let (u4, d4, h4, r4) = and_then-eq-ok (check_message env input d3) _ id d' r3 in
    let (good, s4) = check-sealed env input d3 d4 h4 in
    let s : d4 ≡ d1 =
      s4
      ∙ (guard-stays (not (is_full env vault.id d2)) (http 409) d2 d3 h3
          ∙ guard-stays (truthy vault.wrapped_vmk) (http 409) d1 d2 h2) in
    let (rows, next) = writable-Leaves vault (some input.material_revision) now d d1 h1 in
    record {
      checked = d4;
      same_messages = ap (λ (x : Db). x.messages) s ∙ rows;
      same_serial = ap (λ (x : Db). x.serial) s ∙ next;
      same_vaults =
          ap (λ (x : Db). x.vaults) s
          ∙ writable-vaults vault (some input.material_revision) now d d1 h1;
      written = r4;
    }

write-vaults :
    (vault : Vault) (input : MessageRequest) (user now id : ℕ) (d d' : Db)
    → write_message vault input user now d ≡ ok id d'
    → d'.vaults ≡ d.vaults
unfolding write_message next_id insert_message record_audit ◌>>=◌
write-vaults vault input user now id d d' h = ground arith

found-new :
    (vault : Vault) (input : MessageRequest) (user now id : ℕ) (d d' : Db)
    → AreNumbered d
    → write_message vault input user now d ≡ ok id d'
    → message_of vault.id id d' ≡ some (new_message id vault.id input now)
unfolding message_of AreNumbered
found-new vault input user now id d d' stored h =
    let (rows, next, same) = write-rows vault input user now id d d' h in
    subst (λ n. first (is_message vault.id n) d'.messages ≡ some (new_message n vault.id input now))
      (sym same)
      (ap (first (is_message vault.id d.serial)) rows
        ∙ first-fresh d.serial vault.id input now d.messages stored)

vault-found :
    (user : ℕ) (vault : Vault) (d d' e : Db)
    → get_vault user d ≡ ok vault d'
    → e.vaults ≡ d.vaults
    → primary_vault user e ≡ some vault
unfolding get_vault primary_vault ◌>>=◌
vault-found user vault d d' e h same =
    let found : first (λ (v : Vault). (v.user_id == user) && v.is_primary) d.vaults ≡ some vault =
      ground arith in
    ap (first (λ (v : Vault). (v.user_id == user) && v.is_primary)) same ∙ found

-- Round trip: when the ids of the stored messages were given out, and `save_message` succeeds, then
-- `load_message` with the id that it answered shows the request's label, ciphertext, wrapped key,
-- metadata, category and tags, and the time of the save.
pub save-load :
    (env : Env) (input : MessageRequest) (user now id : ℕ) (d d' : Db)
    → AreNumbered d
    → save_message env input user now d ≡ ok id d'
    → load_message id user d' ≡ ok (saved_detail id input now) d'
unfolding save_message AreNumbered ◌>>=◌
save-load env input user now id d d' stored h =
    let (u, d1, h1, r1) = and_then-eq-ok (guard (is_valid_request input) (http 422) d) _ id d' h in
    let (vault, d2, h2, r2) = and_then-eq-ok (get_vault user d1) _ id d' r1 in
    let c : Checked vault input user now id d2 d' =
      save-Checked env vault input user now id d2 d' r2 in
    let s : d2 ≡ d =
      get_vault-stays user vault d1 d2 h2
      ∙ guard-stays (is_valid_request input) (http 422) d d1 h1 in
    let rows : c.checked.messages ≡ d.messages = c.same_messages ∙ ap (λ (x : Db). x.messages) s in
    let next : c.checked.serial ≡ d.serial = c.same_serial ∙ ap (λ (x : Db). x.serial) s in
    let vaults : d'.vaults ≡ d1.vaults =
      write-vaults vault input user now id c.checked d' c.written
      ∙ (c.same_vaults ∙ ap (λ (x : Db). x.vaults) (get_vault-stays user vault d1 d2 h2)) in
    load-vault id user vault (saved_detail id input now) d'
      (vault-found user vault d1 d2 d' h2 vaults)
      (load-of vault.id id (new_message id vault.id input now) (saved_detail id input now) d'
        (found-new vault input user now id c.checked d'
          (subst (λ ms. All (λ (m : VaultMessage). m.id < c.checked.serial) ms) (sym rows)
            (subst (λ n. All (λ (m : VaultMessage). m.id < n) d.messages) (sym next) stored))
          c.written)
        (new-detail id vault.id input now d'))
