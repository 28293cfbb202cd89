-- ===== src/Api/Auth/Keys.antt =====
-- What becomes of a revoked key (src/api/auth.rs, `AuthManager`).
use express402_relayer.Common.{
  ℕ, ◌≡◌, refl, Bool, true, false, not, none, some, List, [], ◌∷◌, String, All, lookup,
  lookup-insert, lookup-update, string_eq, arith,
}
use express402_relayer.Api.Auth.{
  ApiKeyInfo, AuthManager, add_api_key, validate_api_key, revoke_api_key,
}

-- A call on the manager.
pub data KeyCall : Type 0 where
  adds : ApiKeyInfo → KeyCall
  validates : String → ℕ → KeyCall
  revokes : String → KeyCall

unfoldable pub step : AuthManager → KeyCall → AuthManager
step m (adds info) = add_api_key m info
step m (validates key now) = (validate_api_key m key now).0
step m (revokes key) = (revoke_api_key m key).0

unfoldable pub run : AuthManager → List KeyCall → AuthManager
unfolding step
run m [] = m
run m (c ∷ cs) = run (step m c) cs

-- The call does not add the key.
abbrev pub is_other : String → KeyCall → Bool
is_other key (adds info) = not (string_eq.beq info.key key)
is_other key (validates k now) = true
is_other key (revokes k) = true

-- The key is known and active.
abbrev is_usable : String → AuthManager → Bool
is_usable key m = elim (lookup key m.api_keys) [ none ↦ false | some info ↦ info.is_active ]

step-is_usable :
    (m : AuthManager) (key : String) (c : KeyCall)
    → is_other key c ≡ true
    → is_usable key m ≡ false
    → is_usable key (step m c) ≡ false
unfolding step add_api_key validate_api_key revoke_api_key
step-is_usable m key (adds info) other h =
    ground (arith, lookup-insert info.key key info m.api_keys)
step-is_usable m key (validates k now) other h =
    ground (
      arith,
      lookup-update k key (λ (i : ApiKeyInfo). record i { last_used = some now }) m.api_keys,
    )
step-is_usable m key (revokes k) other h =
    ground
      (arith, lookup-update k key (λ (i : ApiKeyInfo). record i { is_active = false }) m.api_keys)

run-is_usable :
    (m : AuthManager) (key : String) (cs : List KeyCall)
    → All (λ c. is_other key c ≡ true) cs
    → is_usable key m ≡ false
    → is_usable key (run m cs) ≡ false
unfolding run
run-is_usable m key [] others h = h
run-is_usable m key (c ∷ cs) others h =
    run-is_usable (step m c) key cs others.1 (step-is_usable m key c others.0 h)

revoke_api_key-is_usable :
    (m : AuthManager) (key : String) → is_usable key (revoke_api_key m key).0 ≡ false
unfolding revoke_api_key
revoke_api_key-is_usable m key = ground (
  arith,
  (string_eq.beq_iff key key).1 refl,
  lookup-update key key (λ (i : ApiKeyInfo). record i { is_active = false }) m.api_keys,
)

-- A revoked key is not accepted again, whatever calls follow, unless one of them adds it again.
pub validate_api_key-revoked :
    (m : AuthManager) (key : String) (cs : List KeyCall) (now : ℕ)
    → All (λ c. is_other key c ≡ true) cs
    → (validate_api_key (run (revoke_api_key m key).0 cs) key now).1 ≡ none
unfolding validate_api_key
validate_api_key-revoked m key cs now others =
    let locked : is_usable key (run (revoke_api_key m key).0 cs) ≡ false =
      run-is_usable (revoke_api_key m key).0 key cs others (revoke_api_key-is_usable m key) in
    ground arith
