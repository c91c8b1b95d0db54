-- ===== src/Messages/History.antt =====
-- Histories of the message routes, of any owners and at any times.
use mathlib.Core.Path.{subst}
use legacylock.Prelude.{ℕ, ◌≡◌, sym, some, String, leb, ◌&&◌}
use legacylock.Models.{Db, User, Actor}
use legacylock.Env.{Env}
use legacylock.Outcome.{ok, http, guard, ◌>>=◌, and_then-eq-ok}
use legacylock.Heartbeat.{get_vault}
use legacylock.Ceremony.Bundle.{text_length}
use legacylock.Messages.{
  MessageRequest, is_valid_request, save_message, remove_messages, delete_message, wipe_vault,
  is_in_vault,
}
use legacylock.Messages.Edits.{MessageUpdate, is_valid_update, update_message}
use legacylock.Messages.Stored.{
  AreStored, save-AreStored, edit-AreStored, removed-AreStored, remove-AreStored, audit-AreStored,
  get_vault-stays, guard-stays,
}

-- One committed route.
pub data MessageStep (env : Env) (d d' : Db) : Type 0 where
  saves :
      (input : MessageRequest) (user now id : ℕ)
      → save_message env input user now d ≡ ok id d'
      → MessageStep env d d'
  updates :
      (id : ℕ) (input : MessageUpdate) (user now a : ℕ)
      → update_message env id input user now d ≡ ok a d'
      → MessageStep env d d'
  deletes : (id user : ℕ) → delete_message id user d ≡ ok tt d' → MessageStep env d d'
  wipes :
      (user : User) (password : String)
      → wipe_vault env user password d ≡ ok tt d'
      → MessageStep env d d'

pub data MessageHistory (env : Env) (d : Db) : Db → Type 0 where
  start : MessageHistory env d d
  next : {e f : Db} → MessageHistory env d e → MessageStep env e f → MessageHistory env d f

save_message-AreStored :
    (env : Env) (input : MessageRequest) (user now id : ℕ) (d d' : Db)
    → AreStored env d
    → save_message env input user now d ≡ ok id d'
    → AreStored env d'
unfolding save_message ◌>>=◌
save_message-AreStored env input user now id d d' stored h =
    let (u, d1, h1, r1) = and_then-eq-ok (guard (is_valid_request input) (http 422) d) _ id d' h in
    let (vault, d2, h2, r2) = and_then-eq-ok (get_vault user d1) _ id d' r1 in
    save-AreStored env vault input user now id d2 d'
      (subst (AreStored env) (sym (get_vault-stays user vault d1 d2 h2)) (
        subst (AreStored env) (sym (guard-stays (is_valid_request input) (http 422) d d1 h1))
          stored))
      r2

update_message-AreStored :
    (env : Env) (id : ℕ) (input : MessageUpdate) (user now a : ℕ) (d d' : Db)
    → AreStored env d
    → update_message env id input user now d ≡ ok a d'
    → AreStored env d'
unfolding update_message ◌>>=◌
update_message-AreStored env id input user now a d d' stored h =
    let (u, d1, h1, r1) = and_then-eq-ok (guard (is_valid_update input) (http 422) d) _ a d' h in
    let (vault, d2, h2, r2) = and_then-eq-ok (get_vault user d1) _ a d' r1 in
    edit-AreStored env vault id input user now a d2 d'
      (subst (AreStored env) (sym (get_vault-stays user vault d1 d2 h2)) (
        subst (AreStored env) (sym (guard-stays (is_valid_update input) (http 422) d d1 h1))
          stored))
      r2

delete_message-AreStored :
    (env : Env) (id user : ℕ) (d d' : Db)
    → AreStored env d
    → delete_message id user d ≡ ok tt d'
    → AreStored env d'
unfolding delete_message ◌>>=◌
delete_message-AreStored env id user d d' stored h =
    let (vault, d1, h1, r1) = and_then-eq-ok (get_vault user d) _ tt d' h in
    removed-AreStored env vault.id id user d1 d'
      (subst (AreStored env) (sym (get_vault-stays user vault d d1 h1)) stored) r1

wipe_vault-AreStored :
    (env : Env) (user : User) (password : String) (d d' : Db)
    → AreStored env d
    → wipe_vault env user password d ≡ ok tt d'
    → AreStored env d'
unfolding wipe_vault ◌>>=◌
wipe_vault-AreStored env user password d d' stored h =
    let (u, d1, h1, r1) =
      and_then-eq-ok
        (guard (leb 12 (text_length password) && leb (text_length password) 256) (http 422) d) _ tt
        d' h in
    let (v, d2, h2, r2) =
      and_then-eq-ok (guard (env.verify_password password user.password_hash) (http 401) d1) _ tt d'
        r1 in
    let (vault, d3, h3, r3) = and_then-eq-ok (get_vault user.id d2) _ tt d' r2 in
    let (w, d4, h4, r4) = and_then-eq-ok (remove_messages (is_in_vault vault.id) d3) _ tt d' r3 in
    let at1 : AreStored env d1 =
      subst (AreStored env) (sym (guard-stays _ (http 422) d d1 h1)) stored in
    let at2 : AreStored env d2 =
      subst (AreStored env) (sym (guard-stays _ (http 401) d1 d2 h2)) at1 in
    let at3 : AreStored env d3 =
      subst (AreStored env) (sym (get_vault-stays user.id vault d2 d3 h3)) at2 in
    audit-AreStored env (some vault.id) (Actor.owner user.id) "vault.wipe" d4 d'
      (remove-AreStored env (is_in_vault vault.id) d3 d4 at3 h4) r4

MessageStep-AreStored :
    (env : Env) (d d' : Db) → MessageStep env d d' → AreStored env d → AreStored env d'
MessageStep-AreStored env d d' (saves input user now id h) stored =
    save_message-AreStored env input user now id d d' stored h
MessageStep-AreStored env d d' (updates id input user now a h) stored =
    update_message-AreStored env id input user now a d d' stored h
MessageStep-AreStored env d d' (deletes id user h) stored =
    delete_message-AreStored env id user d d' stored h
MessageStep-AreStored env d d' (wipes user password h) stored =
    wipe_vault-AreStored env user password d d' stored h

-- Through every history of the message routes the stored messages stay good: if at its start each has
-- an id that was given out and an envelope that can be opened (at least 16 bytes of ciphertext, a
-- wrapped key of 40 bytes and an IV of 12), then so has each at its end.
pub messages_stay_sealed :
    (env : Env) (d e : Db) → MessageHistory env d e → AreStored env d → AreStored env e
messages_stay_sealed env d e start stored = stored
messages_stay_sealed env d e (next {e = c} history step) stored =
    MessageStep-AreStored env c e step (messages_stay_sealed env d c history stored)
