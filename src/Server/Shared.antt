-- ===== src/Server/Shared.antt =====
-- internal/server: what the handlers of the packages share.
use database_flashback.Base.{ℕ, [], ◌∷◌, Bytes, text, eq_bytes, if◌then◌else◌}

-- The answer to a request: a status with the text of an error, or a status with a result. Of a text
-- that ends in an id or a state, the part in front of it is kept.
pub data Http {ℓ} (A : Type ℓ) : Type ℓ where
  refused : ℕ → Bytes → Http A
  replied : ℕ → A → Http A

-- A map with one key set.
abbrev pub with_key {ℓ} : {A : Type ℓ} → Bytes → A → (Bytes → A) → Bytes → A
with_key key value' f k = if eq_bytes k key then value' else f k

abbrev pub and_then {ℓ} : {A B : Type ℓ} → Http A → (A → Http B) → Http B
and_then (refused status message) next = refused status message
and_then (replied status a) next = next a

-- A result of a check, for the handler that goes on.
abbrev pub checked {ℓ} : {A : Type ℓ} → A → Http A
checked a = replied 200 a

-- `userIDFromRequest`: requests without claims have the empty id.
abbrev pub authenticated {ℓ} : {A : Type ℓ} → Bytes → (Bytes → A) → (ℕ → Bytes → A) → A
authenticated [] next refuse = refuse 401 (text "not authenticated")
authenticated (c ∷ user) next refuse = next (c ∷ user)

abbrev pub named {ℓ} : {A : Type ℓ} → Bytes → Bytes → (Bytes → A) → (ℕ → Bytes → A) → A
named message [] next refuse = refuse 400 message
named message (c ∷ name) next refuse = next (c ∷ name)
