-- ===== src/Middleware/BodyLimit.antt =====
-- backend/middleware/body_limit.py: the body is read and counted before the application sees it.
use legacylock.Prelude.{
  sym, String, str_eq, exists, ◌&&◌, ◌≤◌, ◌<◌, ℕ, ◌+◌, ◌≡◌, ap, ◌∙◌, Bool, true, false, ◌⊎◌, inl,
  inr, Option, none, some, List, [], ◌∷◌, ◌++◌, length, length-append, leb, ltb, Bool-cases,
  Option-cases, arith, if◌then◌else◌,
}

-- What `receive` gives: some bytes of the body and whether there are more, or the end of the connection.
pub data Message : Type 0 where
  disconnect : Message
  body : List ℕ → Bool → Message

-- How the loop ends on the messages that have come: it waits for more, gives up, answers 413, or
-- passes the messages on.
pub data Intake : Type 0 where
  waiting closed too_large : Intake
  passed : List Message → Intake

-- `messages.append`
abbrev keep : Message → Intake → Intake
keep m (passed ms) = passed (m ∷ ms)
keep m waiting = waiting
keep m closed = closed
keep m too_large = too_large

unfoldable pub read_body : ℕ → ℕ → List Message → Intake
read_body limit total [] = waiting
read_body limit total (disconnect ∷ ms) = closed
read_body limit total (body bytes more ∷ ms) =
    let rest = read_body limit (total + length bytes) ms in
    if ltb limit (total + length bytes)
    then too_large
    else (if more then keep (body bytes more) rest else passed (body bytes more ∷ []))

-- What the application is given, and what it reads from it.
abbrev until_last : List Message → List Message
until_last [] = []
until_last (disconnect ∷ ms) = []
until_last (body bytes more ∷ ms) =
    if more then body bytes more ∷ until_last ms else body bytes more ∷ []

abbrev before : List ℕ → Option (List ℕ) → Option (List ℕ)
before bytes none = none
before bytes (some rest) = some (bytes ++ rest)

-- The whole body, if the messages hold all of it.
unfoldable pub whole_body : List Message → Option (List ℕ)
whole_body [] = none
whole_body (disconnect ∷ ms) = none
whole_body (body bytes more ∷ ms) =
    let rest = whole_body ms in if more then before bytes rest else some bytes

-- The decision on a body of this length.
abbrev Decided : ℕ → ℕ → List Message → ℕ → Type 0
Decided limit total ms size =
    ((leb (total + size) limit ≡ true) × (read_body limit total ms ≡ passed (until_last ms)))
    ⊎ ((leb (total + size) limit ≡ false) × (read_body limit total ms ≡ too_large))

last-Decided :
    (limit total : ℕ) (bytes b : List ℕ) (ms : List Message)
    → b ≡ bytes
    → (leb (total + length bytes) limit ≡ true) ⊎ (leb (total + length bytes) limit ≡ false)
    → Decided limit total (body bytes false ∷ ms) (length b)
unfolding read_body
last-Decided limit total bytes b ms same (inl fits) =
    let size : length b ≡ length bytes = ap length same in inl (ground arith, ground arith)
last-Decided limit total bytes b ms same (inr over) =
    let size : length b ≡ length bytes = ap length same in inr (ground arith, ground arith)

more-Decided :
    (limit total : ℕ) (bytes : List ℕ) (ms : List Message) (rest size : ℕ)
    → size ≡ length bytes + rest
    → Decided limit (total + length bytes) ms rest
    → Decided limit total (body bytes true ∷ ms) size
unfolding read_body
more-Decided limit total bytes ms rest size split (inl (fits, goes)) =
    let passes : keep (body bytes true) (read_body limit (total + length bytes) ms)
        ≡ passed (body bytes true ∷ until_last ms) =
      ap (keep (body bytes true)) goes in
    inl (ground arith, ground arith)
more-Decided limit total bytes ms rest size split (inr (over, goes)) =
    let stops : keep (body bytes true) (read_body limit (total + length bytes) ms) ≡ too_large =
      ap (keep (body bytes true)) goes in
    elim (Bool-cases (ltb limit (total + length bytes))) [
      | inl now ↦ inr (ground arith, ground arith)
      | inr later ↦ inr (ground arith, ground arith)
    ]

read-Decided :
    (limit total : ℕ) (ms : List Message) (b : List ℕ)
    → whole_body ms ≡ some b
    → Decided limit total ms (length b)
unfolding read_body whole_body
read-Decided limit total [] b h = absurd (ground arith)
read-Decided limit total (disconnect ∷ ms) b h = absurd (ground arith)
read-Decided limit total (body bytes false ∷ ms) b h =
    last-Decided limit total bytes b ms (ground arith)
      (Bool-cases (leb (total + length bytes) limit))
read-Decided limit total (body bytes true ∷ ms) b h = elim (Option-cases (whole_body ms)) [
  | inl gone ↦ absurd (ground arith)
  | inr (rest, there) ↦
      (let all : b ≡ bytes ++ rest = ground arith in
        let size : length b ≡ length bytes + length rest =
          ap length all ∙ length-append bytes rest in
        more-Decided limit total bytes ms (length rest) (length b) size
          (read-Decided limit (total + length bytes) ms rest there))
]

kept-whole :
    (ms : List Message) (b : List ℕ) → whole_body ms ≡ some b → whole_body (until_last ms) ≡ some b
unfolding whole_body
kept-whole [] b h = absurd (ground arith)
kept-whole (disconnect ∷ ms) b h = absurd (ground arith)
kept-whole (body bytes false ∷ ms) b h = h
kept-whole (body bytes true ∷ ms) b h = elim (Option-cases (whole_body ms)) [
  | inl gone ↦ absurd (ground arith)
  | inr (rest, there) ↦
      (let all : before bytes (some rest) ≡ some b = ap (before bytes) (sym there) ∙ h in
        ap (before bytes) (kept-whole ms rest there) ∙ all)
]

-- A request that is not an HTTP write goes on with its own messages, any other with those counted.
pub data Forward : Type 0 where
  unread : Forward
  counted : Intake → Forward

unfoldable pub writes : String → Bool
writes method = exists (str_eq method) ("POST" ∷ "PUT" ∷ "PATCH" ∷ "DELETE" ∷ [])

-- `BodyLimitMiddleware.__call__`, on the messages that come
unfoldable pub body_limit : ℕ → Bool → String → List Message → Forward
body_limit limit is_http method ms =
    if is_http && writes method then counted (read_body limit 0 ms) else unread

-- Reading a whole body ends, with the right answer: when the messages of an HTTP write hold the whole
-- body, the middleware passes messages on that hold this very body if it is at most as long as the
-- limit, and answers 413 if it is longer, whatever the sizes of its parts and whatever comes after.
pub body_limit_decides :
    (limit : ℕ) (method : String) (ms : List Message) (b : List ℕ)
    → writes method ≡ true
    → whole_body ms ≡ some b
    → ((length b ≤ limit)
        × ((ps : List Message) × (body_limit limit true method ms ≡ counted (passed ps))
            × (whole_body ps ≡ some b)))
      ⊎ ((limit < length b) × (body_limit limit true method ms ≡ counted too_large))
unfolding body_limit
body_limit_decides limit method ms b is_write whole = elim (read-Decided limit 0 ms b whole) [
  | inl (fits, goes) ↦
      inl (ground arith, (until_last ms, simp is_write (ap counted goes), kept-whole ms b whole))
  | inr (over, goes) ↦ inr (ground arith, simp is_write (ap counted goes))
]
