-- ===== src/Messages/Envelopes.antt =====
-- What the tests of the message routes make sure of: every stored envelope is one that the clients can open.
use legacylock.Prelude.{
  ℕ, ◌≡◌, refl, ap, ◌∙◌, Bool, true, false, ◌&&◌, Option, none, some, List, String, arith, opt_eq,
  is_some, inl, inr, Option-cases,
}
use legacylock.Models.{Db, VaultMessage, JsonText, holds, Members, dict}
use legacylock.Env.{Env}
use legacylock.Outcome.{ok, http, guard, ◌>>=◌, and_then-eq-ok}
use legacylock.Ceremony.Bundle.{require_b64}
use legacylock.Beneficiaries.{Field, unset, set_to}
use legacylock.Messages.{MessageRequest, check_message, tags_or_none, is_category, are_tags}
use legacylock.Messages.Edits.{
  MessageUpdate, with_ciphertext, with_label, with_category, with_tags, with_mek, with_metadata,
  edit_message, check_envelope, value_of,
}
use legacylock.Messages.Metadata.{at_least, iv_of, require_text, check_metadata, validate_message}

-- The metadata's IV has 12 bytes.
unfoldable pub holds_iv : Env → Option String → Bool
holds_iv env none = false
holds_iv env (some iv) = opt_eq (env.b64_length iv) (some 12)

unfoldable pub stored_iv : JsonText → Option String
stored_iv (holds (dict ms)) = iv_of (some ms)
stored_iv _ = none

-- At least a tag of ciphertext, a wrapped key of 40 bytes, and an IV.
unfoldable pub is_envelope : Env → String → String → Option String → Bool
is_envelope env ciphertext wrapped_mek iv =
    at_least 16 (env.b64_length ciphertext)
    && (opt_eq (env.b64_length wrapped_mek) (some 40) && holds_iv env iv)

abbrev pub is_sealed : Env → VaultMessage → Bool
is_sealed env m = is_envelope env m.ciphertext m.wrapped_mek (stored_iv m.crypto_metadata)

no_iv : iv_of none ≡ none
unfolding iv_of
no_iv = refl

validate-envelope :
    (env : Env) (c w : String) (ms : Option Members) (d d' : Db)
    → validate_message env (some c) (some w) ms d ≡ ok tt d'
    → (is_envelope env c w (iv_of ms) ≡ true) × (d' ≡ d)
unfolding validate_message require_text require_b64 check_metadata is_envelope holds_iv ◌>>=◌
validate-envelope env c w none d d' h =
    let none_there : iv_of none ≡ none = no_iv in absurd (ground arith)
validate-envelope env c w (some ms) d d' h = elim (Option-cases (iv_of (some ms))) [
  | inl no_text ↦ absurd (ground arith)
  | inr (iv, has_iv) ↦ ground arith
]

-- The new fields, where the request sets them.
abbrev or_old {ℓ} : {A : Type ℓ} → A → Option A → A
or_old old none = old
or_old old (some new) = new

abbrev text_or_old : JsonText → Option Members → JsonText
text_or_old old none = old
text_or_old old (some ms) = holds (dict ms)

-- What an edit leaves of a row's identity and envelope.
pub record IsEdit (input : MessageUpdate) (m m' : VaultMessage) : Type 0 where
  pub same_id : m'.id ≡ m.id
  pub same_vault : m'.vault_id ≡ m.vault_id
  pub new_text : m'.ciphertext ≡ or_old m.ciphertext (value_of input.ciphertext)
  pub new_mek : m'.wrapped_mek ≡ or_old m.wrapped_mek (value_of input.wrapped_mek)
  pub new_metadata :
      m'.crypto_metadata ≡ text_or_old m.crypto_metadata (value_of input.crypto_metadata)

with_ciphertext-fields :
    (env : Env) (c : Option String) (m m' : VaultMessage) (d d' : Db)
    → with_ciphertext env c m d ≡ ok m' d'
    → (m' ≡ record m { ciphertext = or_old m.ciphertext c }) × (d' ≡ d)
unfolding with_ciphertext require_b64 ◌>>=◌
with_ciphertext-fields env none m m' d d' h = ground arith
with_ciphertext-fields env (some c) m m' d d' h = ground arith

with_mek-fields :
    (env : Env) (c : Option String) (m m' : VaultMessage) (d d' : Db)
    → with_mek env c m d ≡ ok m' d'
    → (m' ≡ record m { wrapped_mek = or_old m.wrapped_mek c }) × (d' ≡ d)
unfolding with_mek require_b64 ◌>>=◌
with_mek-fields env none m m' d d' h = ground arith
with_mek-fields env (some c) m m' d d' h = ground arith

with_metadata-fields :
    (env : Env) (ms : Option Members) (m m' : VaultMessage) (d d' : Db)
    → with_metadata env ms m d ≡ ok m' d'
    → (m' ≡ record m { crypto_metadata = text_or_old m.crypto_metadata ms }) × (d' ≡ d)
unfolding with_metadata check_metadata ◌>>=◌
with_metadata-fields env none m m' d d' h = ground arith
with_metadata-fields env (some c) m m' d d' h = ground arith

with_category-fields :
    (c : Field String) (m m' : VaultMessage) (d d' : Db)
    → with_category c m d ≡ ok m' d'
    → (m' ≡ record m { category = m'.category }) × (d' ≡ d)
unfolding with_category ◌>>=◌
with_category-fields unset m m' d d' h = ground arith
with_category-fields (set_to c) m m' d d' h = ground arith

with_tags-fields :
    (tags : Option (List String)) (m m' : VaultMessage) (d d' : Db)
    → with_tags tags m d ≡ ok m' d'
    → (m' ≡ record m { coverage_tags = m'.coverage_tags }) × (d' ≡ d)
unfolding with_tags ◌>>=◌
with_tags-fields none m m' d d' h = ground arith
with_tags-fields (some c) m m' d d' h = ground arith

with_label-fields :
    (label : Option String) (m : VaultMessage)
    → with_label label m ≡ record m { label = (with_label label m).label }
with_label-fields none m = refl
with_label-fields (some label) m = refl

IsEdit-chain :
    (input : MessageUpdate) (m m1 ml m2 m3 m4 m' : VaultMessage)
    → m1 ≡ record m { ciphertext = or_old m.ciphertext (value_of input.ciphertext) }
    → ml ≡ record m1 { label = ml.label }
    → m2 ≡ record ml { category = m2.category }
    → m3 ≡ record m2 { coverage_tags = m3.coverage_tags }
    → m4 ≡ record m3 { wrapped_mek = or_old m3.wrapped_mek (value_of input.wrapped_mek) }
    → m' ≡ record m4 {
      crypto_metadata = text_or_old m4.crypto_metadata (value_of input.crypto_metadata);
    }
    → IsEdit input m m'
IsEdit-chain input m m1 ml m2 m3 m4 m' e1 el e2 e3 e4 e5 = record {
  same_id = cc;
  same_vault = cc;
  new_text = cc;
  new_mek = cc;
  new_metadata = cc;
}

pub edit_message-IsEdit :
    (env : Env) (input : MessageUpdate) (m m' : VaultMessage) (d d' : Db)
    → edit_message env input m d ≡ ok m' d'
    → IsEdit input m m' × (d' ≡ d)
unfolding edit_message ◌>>=◌
edit_message-IsEdit env input m m' d d' h =
    let (m1, d1, h1, r1) =
      and_then-eq-ok (with_ciphertext env (value_of input.ciphertext) m d) _ m' d' h in
    let (m2, d2, h2, r2) =
      and_then-eq-ok (with_category input.category (with_label input.label m1) d1) _ m' d' r1 in
    let (m3, d3, h3, r3) = and_then-eq-ok (with_tags input.coverage_tags m2 d2) _ m' d' r2 in
    let (m4, d4, h4, h5) =
      and_then-eq-ok (with_mek env (value_of input.wrapped_mek) m3 d3) _ m' d' r3 in
    let (e1, s1) = with_ciphertext-fields env (value_of input.ciphertext) m m1 d d1 h1 in
    let (e2, s2) = with_category-fields input.category (with_label input.label m1) m2 d1 d2 h2 in
    let (e3, s3) = with_tags-fields input.coverage_tags m2 m3 d2 d3 h3 in
    let (e4, s4) = with_mek-fields env (value_of input.wrapped_mek) m3 m4 d3 d4 h4 in
    let (e5, s5) = with_metadata-fields env (value_of input.crypto_metadata) m4 m' d4 d' h5 in
    (
      IsEdit-chain input m m1 (with_label input.label m1) m2 m3 m4 m' e1
          (with_label-fields input.label m1) e2 e3 e4 e5,
      s5 ∙ (s4 ∙ (s3 ∙ (s2 ∙ s1))),
    )

-- All parts of the envelope are there and good, or none is.
pub data NewEnvelope (env : Env) (c w : Option String) (ms : Option Members) : Type 0 where
  keeps : c ≡ none → w ≡ none → ms ≡ none → NewEnvelope env c w ms
  replaces :
      (c' w' : String) (ms' : Members)
      → c ≡ some c'
      → w ≡ some w'
      → ms ≡ some ms'
      → is_envelope env c' w' (iv_of (some ms')) ≡ true
      → NewEnvelope env c w ms

behind_guard :
    (env : Env) (t : Bool) (c w : Option String) (ms : Option Members) (d d' : Db)
    → (guard t (http 422) >>= λ _. validate_message env c w ms) d ≡ ok tt d'
    → validate_message env c w ms d ≡ ok tt d'
unfolding ◌>>=◌
behind_guard env true c w ms d d' h = h
behind_guard env false c w ms d d' h = absurd (ground arith)

needs_metadata :
    (env : Env) (c w : String) (d d' : Db)
    → validate_message env (some c) (some w) none d ≡ ok tt d'
    → NewEnvelope env (some c) (some w) none × (d' ≡ d)
unfolding validate_message require_text require_b64 check_metadata ◌>>=◌
needs_metadata env c w d d' h = let none_there : iv_of none ≡ none = no_iv in absurd (ground arith)

pub check-NewEnvelope :
    (env : Env) (revision : Option ℕ) (c w : Field String) (ms : Field Members) (d d' : Db)
    → check_envelope env revision c w ms d ≡ ok tt d'
    → NewEnvelope env (value_of c) (value_of w) (value_of ms) × (d' ≡ d)
unfolding check_envelope validate_message require_text require_b64 ◌>>=◌
check-NewEnvelope env revision unset unset unset d d' h = (keeps refl refl refl, ground arith)
check-NewEnvelope env revision unset unset (set_to ms) d d' h = absurd (ground arith)
check-NewEnvelope env revision unset (set_to w) ms d d' h = absurd (ground arith)
check-NewEnvelope env revision (set_to c) unset ms d d' h = absurd (ground arith)
check-NewEnvelope env revision (set_to c) (set_to w) unset d d' h = absurd (ground arith)
check-NewEnvelope env revision (set_to none) (set_to w) (set_to ms) d d' h = absurd (ground arith)
check-NewEnvelope env revision (set_to (some c)) (set_to none) (set_to ms) d d' h =
    absurd (ground arith)
check-NewEnvelope env revision (set_to (some c)) (set_to (some w)) (set_to none) d d' h =
    needs_metadata env c w d d' (behind_guard env (is_some revision) (some c) (some w) none d d' h)
check-NewEnvelope env revision (set_to (some c)) (set_to (some w)) (set_to (some ms)) d d' h =
    let (good, same) =
      validate-envelope env c w (some ms) d d'
        (behind_guard env (is_some revision) (some c) (some w) (some ms) d d' h) in
    (replaces c w ms refl refl refl good, same)

stored_iv_dict : (ms : Members) → stored_iv (holds (dict ms)) ≡ iv_of (some ms)
unfolding stored_iv
stored_iv_dict ms = refl

pub edited-sealed :
    (env : Env) (input : MessageUpdate) (m m' : VaultMessage)
    → NewEnvelope env
        (value_of input.ciphertext)
        (value_of input.wrapped_mek)
        (value_of input.crypto_metadata)
    → IsEdit input m m'
    → is_sealed env m ≡ true
    → is_sealed env m' ≡ true
edited-sealed env input m m' (keeps nc nw nm) edit sealed =
    let c : m'.ciphertext ≡ m.ciphertext = edit.new_text ∙ ap (or_old m.ciphertext) nc in
    let w : m'.wrapped_mek ≡ m.wrapped_mek = edit.new_mek ∙ ap (or_old m.wrapped_mek) nw in
    let ms : m'.crypto_metadata ≡ m.crypto_metadata =
      edit.new_metadata ∙ ap (text_or_old m.crypto_metadata) nm in
    cc
edited-sealed env input m m' (replaces c' w' ms' sc sw sm good) edit sealed =
    let c : m'.ciphertext ≡ c' = edit.new_text ∙ ap (or_old m.ciphertext) sc in
    let w : m'.wrapped_mek ≡ w' = edit.new_mek ∙ ap (or_old m.wrapped_mek) sw in
    let ms : m'.crypto_metadata ≡ holds (dict ms') =
      edit.new_metadata ∙ ap (text_or_old m.crypto_metadata) sm in
    let iv : stored_iv (holds (dict ms')) ≡ iv_of (some ms') = stored_iv_dict ms' in cc

check_metadata-stays :
    (env : Env) (ms : Option Members) (d d' : Db) → check_metadata env ms d ≡ ok tt d' → d' ≡ d
unfolding check_metadata ◌>>=◌
check_metadata-stays env none d d' h = ground arith
check_metadata-stays env (some ms) d d' h = ground arith

guards_stay :
    (a b : Bool) (d d' : Db)
    → (guard a (http 422) >>= λ _. guard b (http 422)) d ≡ ok tt d'
    → d' ≡ d
unfolding ◌>>=◌
guards_stay a b d d' h = ground arith

pub check-sealed :
    (env : Env) (input : MessageRequest) (d d' : Db)
    → check_message env input d ≡ ok tt d'
    → (is_envelope env input.ciphertext input.wrapped_mek (iv_of input.crypto_metadata) ≡ true)
      × (d' ≡ d)
unfolding check_message ◌>>=◌
check-sealed env input d d' h =
    let (u, d1, h1, r1) =
      and_then-eq-ok
        (validate_message env (some input.ciphertext) (some input.wrapped_mek) input.crypto_metadata
          d)
        _ tt d' h in
    let (v, d2, h2, r2) = and_then-eq-ok (check_metadata env input.crypto_metadata d1) _ tt d' r1 in
    let (good, same) =
      validate-envelope env input.ciphertext input.wrapped_mek input.crypto_metadata d d1 h1 in
    (
      good,
      guards_stay (is_category input.category) (are_tags (tags_or_none input.coverage_tags)) d2 d'
            r2
          ∙ (check_metadata-stays env input.crypto_metadata d1 d2 h2 ∙ same),
    )
