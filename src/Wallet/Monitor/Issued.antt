-- ===== src/Wallet/Monitor/Issued.antt =====
-- The alerts that are made from statuses (src/wallet/monitor.rs).
use express402_relayer.Common.{
  ℕ, zero, suc, ◌≡◌, refl, ap, ◌∙◌, inl, inr, false, List, [], ◌∷◌, ◌++◌, if◌then◌else◌, map,
  length, nat_eq, Bool-cases,
}
use mathlib.Core.List.{append_assoc, append-nil, map-append}
use express402_relayer.Common.Float.{F64}
use express402_relayer.Types.Error.{Message}
use express402_relayer.Wallet.Monitor.{WalletHealthStatus}
use express402_relayer.Wallet.Monitor.Alerts.{
  WalletAlert, WalletAlertManager, medium, determine_alert_type, create_alert, alert_issues,
  alert_statuses, check_and_create_alerts,
}

abbrev pub make_alert : ℕ → Message → ℕ × ℕ → WalletAlert
make_alert address message (id, now) = record {
  id = id;
  wallet_address = address;
  alert_type = determine_alert_type message;
  message = message;
  severity = medium;
  timestamp = now;
  resolved = false;
}

-- One alert for each issue.
unfoldable pub alerts_of : ℕ → List Message → (ℕ → ℕ × ℕ) → List WalletAlert
alerts_of address [] fresh = []
alerts_of address (issue ∷ rest) fresh =
    make_alert address issue (fresh 0) ∷ alerts_of address rest (λ i. fresh (suc i))

unfoldable pub skip : ℕ → (ℕ → ℕ × ℕ) → ℕ → ℕ × ℕ
skip zero fresh = fresh
skip (suc n) fresh = skip n (λ i. fresh (suc i))

unfoldable pub all_alerts : List WalletHealthStatus → (ℕ → ℕ × ℕ) → List WalletAlert
unfolding alerts_of skip
all_alerts [] fresh = []
all_alerts (s ∷ rest) fresh =
    (if s.is_healthy then [] else alerts_of s.address s.issues fresh)
    ++ all_alerts rest (if s.is_healthy then fresh else skip (length s.issues) fresh)

-- What the issues of the statuses that are not healthy ask for: an address and a message for each.
abbrev pub issues_of : ℕ → List Message → List (ℕ × Message)
issues_of address [] = []
issues_of address (issue ∷ rest) = (address, issue) ∷ issues_of address rest

abbrev pub all_issues : List WalletHealthStatus → List (ℕ × Message)
all_issues [] = []
all_issues (s ∷ rest) =
    (if s.is_healthy then [] else issues_of s.address s.issues) ++ all_issues rest

abbrev pub subject : WalletAlert → ℕ × Message
subject a = (a.wallet_address, a.message)

alerts_of-subject :
    (address : ℕ) (issues : List Message) (fresh : ℕ → ℕ × ℕ)
    → map subject (alerts_of address issues fresh) ≡ issues_of address issues
unfolding alerts_of
alerts_of-subject address [] fresh = refl
alerts_of-subject address (i ∷ rest) fresh =
    ap (λ l. (address, i) ∷ l) (alerts_of-subject address rest (λ n. fresh (suc n)))

all_alerts-subject :
    (ss : List WalletHealthStatus) (fresh : ℕ → ℕ × ℕ)
    → map subject (all_alerts ss fresh) ≡ all_issues ss
unfolding all_alerts
all_alerts-subject [] fresh = refl
all_alerts-subject (s ∷ rest) fresh = elim (Bool-cases s.is_healthy) [
  | inl well ↦ rw well (all_alerts-subject rest fresh)
  | inr ill ↦ rw ill (
      map-append subject (alerts_of s.address s.issues fresh) _
      ∙ rw
          (
            alerts_of-subject s.address s.issues fresh,
            all_alerts-subject rest (skip (length s.issues) fresh),
          )
          refl)
]

module _ (F : F64) where
  abbrev with_alerts : WalletAlertManager F → List WalletAlert → WalletAlertManager F
  with_alerts m alerts = record m { alert_history = m.alert_history ++ alerts }

  alert_issues_lem :
      (m : WalletAlertManager F) (acc : List WalletAlert) (address : ℕ) (issues : List Message)
      (fresh : ℕ → ℕ × ℕ)
      → alert_issues F m acc address issues fresh ≡ (
        with_alerts m (alerts_of address issues fresh),
        acc ++ alerts_of address issues fresh,
        skip (length issues) fresh,
      )
  unfolding alert_issues create_alert alerts_of skip
  alert_issues_lem m acc address [] fresh = rw (append-nil m.alert_history, append-nil acc) refl
  alert_issues_lem m acc address (i ∷ rest) fresh =
      let alert = make_alert address i (fresh 0) in
      alert_issues_lem (with_alerts m (alert ∷ [])) (acc ++ alert ∷ []) address rest
        (λ n. fresh (suc n))
      ∙ rw
          (
            append_assoc m.alert_history (alert ∷ []) (alerts_of address rest (λ n. fresh (suc n))),
            append_assoc acc (alert ∷ []) (alerts_of address rest (λ n. fresh (suc n))),
          )
          refl

  pub alert_statuses_lem :
      (m : WalletAlertManager F) (acc : List WalletAlert) (ss : List WalletHealthStatus)
      (fresh : ℕ → ℕ × ℕ)
      → alert_statuses F m acc ss fresh
        ≡ (with_alerts m (all_alerts ss fresh), acc ++ all_alerts ss fresh)
  unfolding alert_statuses all_alerts
  alert_statuses_lem m acc [] fresh = rw (append-nil m.alert_history, append-nil acc) refl
  alert_statuses_lem m acc (s ∷ rest) fresh = elim (Bool-cases s.is_healthy) [
    | inl well ↦ rw well (alert_statuses_lem m acc rest fresh)
    | inr ill ↦
        let these = alerts_of s.address s.issues fresh in
        rw (ill, alert_issues_lem m acc s.address s.issues fresh)
          (alert_statuses_lem (with_alerts m these) (acc ++ these) rest
              (skip (length s.issues) fresh)
            ∙ rw
                (
                  append_assoc m.alert_history these
                      (all_alerts rest (skip (length s.issues) fresh)),
                  append_assoc acc these (all_alerts rest (skip (length s.issues) fresh)),
                )
                refl)
  ]

  -- A check of statuses makes one alert for each issue of a wallet that is not healthy, in their order, with
  -- the address and the text of the issue, and adds exactly these alerts to the history.
  check_and_create_alerts-subject :
      (m : WalletAlertManager F) (ss : List WalletHealthStatus) (fresh : ℕ → ℕ × ℕ)
      → (map subject (check_and_create_alerts F m ss fresh).1 ≡ all_issues ss)
        × ((check_and_create_alerts F m ss fresh).0.alert_history
            ≡ m.alert_history ++ (check_and_create_alerts F m ss fresh).1)
  unfolding check_and_create_alerts
  check_and_create_alerts-subject m ss fresh =
      rw (alert_statuses_lem m [] ss fresh) (all_alerts-subject ss fresh, refl)

pub alerts_of-type :
    (address : ℕ) (issues : List Message) (fresh : ℕ → ℕ × ℕ)
    → map (λ (a : WalletAlert). a.alert_type) (alerts_of address issues fresh)
      ≡ map determine_alert_type issues
unfolding alerts_of
alerts_of-type address [] fresh = refl
alerts_of-type address (i ∷ rest) fresh =
    ap (λ l. determine_alert_type i ∷ l) (alerts_of-type address rest (λ n. fresh (suc n)))
