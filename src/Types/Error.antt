-- ===== src/Types/Error.antt =====
-- src/types/error.rs: the error type, and results. A message is kept as the pieces that `format!`
-- is given, so that two different messages stay different; how a number prints is left to the
-- formatter, and `printed` is the text of a number that is not an integer. A panic of the code is an
-- outcome of its own.
use express402_relayer.Common.{
  ℕ, String, List, ◌∷◌, Option, none, some, arith, ◌≡◌, refl, ◌⊎◌, inl, inr,
}

pub data Piece : Type 0 where
  text : String → Piece
  num : ℕ → Piece
  debug : ℕ → Piece
  printed : String → Piece

abbrev pub Message : Type 0
Message = List Piece

pub data RelayerError : Type 0 where
  config : Message → RelayerError
  database : Message → RelayerError
  redis : Message → RelayerError
  ethereum : Message → RelayerError
  signature_verification : Message → RelayerError
  replay_attack : Message → RelayerError
  insufficient_balance : Message → RelayerError
  wallet_pool : Message → RelayerError
  queue : Message → RelayerError
  cache : Message → RelayerError
  api : Message → RelayerError
  serialization : Message → RelayerError
  io : Message → RelayerError
  internal : Message → RelayerError
  network : Message → RelayerError
  timeout : Message → RelayerError
  validation : Message → RelayerError

pub data Result {ℓ} (A : Type ℓ) : Type ℓ where
  ok : A → Result A
  err : RelayerError → Result A
  panic : Result A

infixl 5 ◌>>=◌ ◌>>◌
abbrev pub ◌>>=◌ {ℓ κ} : {A : Type ℓ} {B : Type κ} → Result A → (A → Result B) → Result B
ok a >>= f = f a
err e >>= f = err e
panic >>= f = panic

abbrev pub ◌>>◌ {ℓ} : {B : Type ℓ} → Result (Unit {0}) → Result B → Result B
m >> k = m >>= λ _. k

-- A conversion that panics.
abbrev pub or_panic {ℓ} : {A : Type ℓ} → Option A → Result A
or_panic none = panic
or_panic (some a) = ok a

-- An answer of code outside the repository, or the text of its error.
pub data Answer (A : Type 0) : Type 0 where
  answered : A → Answer A
  refused : Message → Answer A

-- `map_err` into an `Ethereum` error whose text begins with `what`.
abbrev pub or_ethereum : String → {A : Type 0} → Answer A → Result A
or_ethereum what (answered a) = ok a
or_ethereum what (refused m) = err (ethereum (text what ∷ m))

pub or_ethereum-ok :
    (what : String) {A : Type 0} (a : Answer A) {x : A} → or_ethereum what a ≡ ok x → a ≡ answered x
or_ethereum-ok what (answered y) e = ground arith
or_ethereum-ok what (refused m) e = cc

-- `Display`, by the `#[error]` attributes.
unfoldable pub display : RelayerError → Message
display (config m) = text "Configuration error: " ∷ m
display (database m) = text "Database error: " ∷ m
display (redis m) = text "Redis error: " ∷ m
display (ethereum m) = text "Ethereum error: " ∷ m
display (signature_verification m) = text "Signature verification failed: " ∷ m
display (replay_attack m) = text "Replay attack detected: " ∷ m
display (insufficient_balance m) = text "Insufficient balance: " ∷ m
display (wallet_pool m) = text "Wallet pool error: " ∷ m
display (queue m) = text "Queue error: " ∷ m
display (cache m) = text "Cache error: " ∷ m
display (api m) = text "API error: " ∷ m
display (serialization m) = text "Serialization error: " ∷ m
display (io m) = text "IO error: " ∷ m
display (internal m) = text "Internal error: " ∷ m
display (network m) = text "Network error: " ∷ m
display (timeout m) = text "Timeout error: " ∷ m
display (validation m) = text "Validation error: " ∷ m

-- A chain that succeeds has a first part that succeeds.
pub >>=-ok {ℓ κ} :
    {A : Type ℓ} {B : Type κ} (first : Result A) (next : A → Result B) {answer : B}
    → (first >>= next) ≡ ok answer
    → (value : A) × (first ≡ ok value) × (next value ≡ ok answer)
>>=-ok panic next eq = cc
>>=-ok (err error) next eq = cc
>>=-ok (ok value) next eq = (value, refl, eq)

pub Result-cases {ℓ} :
    {A : Type ℓ} (r : Result A)
    → ((a : A) × (r ≡ ok a)) ⊎ ((e : RelayerError) × (r ≡ err e)) ⊎ (r ≡ panic)
Result-cases (ok a) = inl (a, refl)
Result-cases (err e) = inr (inl (e, refl))
Result-cases panic = inr (inr refl)

pub Answer-cases :
    {A : Type 0} (a : Answer A) → ((x : A) × (a ≡ answered x)) ⊎ ((m : Message) × (a ≡ refused m))
Answer-cases (answered x) = inl (x, refl)
Answer-cases (refused m) = inr (m, refl)
